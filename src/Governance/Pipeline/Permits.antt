-- ===== src/Governance/Pipeline/Permits.antt =====
-- When the gates let a call through, and what an output says about them.
use mathlib.Core.Path.{subst}
use euroclaw.Base.Eff.{Eff, >>=-eq-returned, Result, returned}
use euroclaw.Governance.Boundary.{Verdict, permit, Halt, Context}
use euroclaw.Governance.Registry.{Gate}
use euroclaw.Governance.Pipeline.Loops.{Check, applies, ask, run_gates, verdict_result, or_next}
use euroclaw.Prelude.{
  [], String, ◌≡◌, refl, ap, ◌∙◌, ◌↔◌, inl, inr, Bool, true, false, Option, none, some, List, ◌∷◌,
  arith, Bool-cases,
}

permit_of_none :
    (codes : List (String × String)) (allow_approval : Bool) (id : String) (v : Verdict)
    → verdict_result codes allow_approval id v ≡ returned none
    → v ≡ permit
unfolding verdict_result
permit_of_none codes allow_approval id v h = ground arith

went_on :
    {S : Type 0} (o : Option Halt) (rest : Eff S (Option Halt)) {s1 s' : S}
    → or_next rest o s1 ≡ (returned none, s')
    → (o ≡ none) × (rest s1 ≡ (returned none, s'))
went_on none rest h = (refl, h)
went_on (some stop) rest h = absurd (stopped (ap (λ p. p.0) h))
  where
    stopped : ◌≡◌ {A = Result (Option Halt)} (returned (some stop)) (returned none) → ⊥
    stopped h = cc

pair_eq : {A S : Type 0} {a b : A} {s t : S} → a ≡ b → s ≡ t → ◌≡◌ {A = A × S} (a, s) (b, t)
pair_eq p q = cc

module _ {S C : Type 0} (codes : List (String × String)) (allow_approval : Bool)
    (bypass : Option String) (call : C) (ctx : Context) where
  -- Each gate in turn is bypassed, does not match, or answers `permit`; the states are those that
  -- its handler leaves.
  pub data Permits : List (Gate (Check S C)) → S → S → Type 0 where
    done : {s : S} → Permits [] s s
    skip :
        {g : Gate (Check S C)} {gs : List (Gate (Check S C))} {s s' : S}
        → applies bypass call ctx g ≡ false
        → Permits gs s s'
        → Permits (g ∷ gs) s s'
    pass :
        {g : Gate (Check S C)} {gs : List (Gate (Check S C))} {s s1 s' : S}
        → applies bypass call ctx g ≡ true
        → g.body.handler call ctx s ≡ (returned permit, s1)
        → Permits gs s1 s'
        → Permits (g ∷ gs) s s'

  ask-permit :
      (g : Gate (Check S C)) {s s' : S}
      → ask codes allow_approval bypass call ctx g s ≡ (returned none, s')
      → g.body.handler call ctx s ≡ (returned permit, s')
  unfolding ask
  ask-permit g {s} {s'} h =
      let (v, s1, handled, read) =
        >>=-eq-returned (g.body.handler call ctx)
          (λ v s. (verdict_result codes allow_approval g.id v, s)) s h in
      handled
      ∙ pair_eq (ap returned (permit_of_none codes allow_approval g.id v (ap (λ p. p.0) read)))
          (ap (λ p. p.1) read)

  pub run_gates-Permits :
      (gs : List (Gate (Check S C))) (s s' : S)
      → run_gates codes allow_approval bypass call ctx gs s ≡ (returned none, s')
      → Permits gs s s'
  unfolding run_gates
  run_gates-Permits [] s s' h = subst (Permits [] s) (ap (λ p. p.1) h) done
  run_gates-Permits (g ∷ gs) s s' h = elim (Bool-cases (applies bypass call ctx g)) [
    | inr no_match ↦ skip no_match (run_gates-Permits gs s s' (rw (no_match, run_gates) at h))
    | inl match ↦
        let (o, s1, asked, next) =
          >>=-eq-returned (ask codes allow_approval bypass call ctx g)
            (or_next (run_gates codes allow_approval bypass call ctx gs)) s
            (rw (match, run_gates) at h) in
        let e = went_on o (run_gates codes allow_approval bypass call ctx gs) next in
        pass match (ask-permit g (asked ∙ ap (λ x. (returned x, s1)) e.0))
          (run_gates-Permits gs s1 s' e.1)
  ]

  Permits-run_gates :
      (gs : List (Gate (Check S C))) (s s' : S)
      → Permits gs s s'
      → run_gates codes allow_approval bypass call ctx gs s ≡ (returned none, s')
  unfolding run_gates ask
  Permits-run_gates _ s s' done = refl
  Permits-run_gates (g ∷ gs) s s' (skip a p) = ground (arith, Permits-run_gates gs s s' p)
  Permits-run_gates (g ∷ gs) s s' (pass {s1 = s1} a e p) =
      rw (a, run_gates) (rw (e, ask) (Permits-run_gates gs s1 s' p))

-- The gates let a call through, from one state to another, exactly when every gate of the list in
-- turn is bypassed, does not match the call, or answers `permit` in the state that the gates before
-- it left.
pub run_gates_iff :
    {S C : Type 0} (codes : List (String × String)) (allow_approval : Bool) (bypass : Option String)
    (call : C) (ctx : Context) (gs : List (Gate (Check S C))) (s s' : S)
    → (run_gates codes allow_approval bypass call ctx gs s ≡ (returned none, s'))
      ↔ Permits codes allow_approval bypass call ctx gs s s'
run_gates_iff codes allow_approval bypass call ctx gs s s' = (
  run_gates-Permits codes allow_approval bypass call ctx gs s s',
  Permits-run_gates codes allow_approval bypass call ctx gs s s',
)
