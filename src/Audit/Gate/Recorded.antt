-- ===== src/Audit/Gate/Recorded.antt =====
-- The log when a governed tool call has returned.
use mathlib.Core.List.{append-nil, append_assoc}
use euroclaw.Base.Eff.{
  Eff, returned, ◌>>=◌, >>=-eq-returned, thrown, validation_error, thrown-ne-returned,
}
use mathlib.Core.Path.{subst}
use euroclaw.Audit.Chain.{AuditInput, AuditEntry, Digest, append}
use euroclaw.Audit.Gate.{audit_input, audit_gate, appended, record_outcome}
use euroclaw.Governance.Boundary.{
  BoundaryCall, Outcome, Context, ToolCall, tool, HandleResult, result,
}
use euroclaw.Governance.Registry.{Gate}
use euroclaw.Governance.Pipeline.{run_governed, governed_body}
use euroclaw.Governance.Pipeline.Loops.{Observer, run_after, Config, Gates}
use euroclaw.Governance.Pipeline.Refusal.{conclude-returned}
use euroclaw.Audit.Gate.Told.{Tells, audit_input-Tells}
use euroclaw.Prelude.{
  String, ◌≡◌, refl, sym, ap, ◌∙◌, inl, inr, Bool, true, false, Option, List, [], ◌∷◌, ◌++◌,
  if◌then◌else◌, Bool-cases, All, if_true, if_false,
}

module _ {S : Type 0} (call : BoundaryCall) (ctx : Context) (outcome : Outcome) where
  -- The observers of a run, one by one.
  observe : Gate (Observer S) → Eff S (Unit {0})
  observe g s =
      if g.body.matcher call ctx then g.body.handler call ctx outcome s else (returned tt, s)

  run_after-step :
      (g : Gate (Observer S)) (gs : List (Gate (Observer S))) (s s' : S)
      → run_after call ctx outcome (g ∷ gs) s ≡ (returned tt, s')
      → (mid : S) × (observe g s ≡ (returned tt, mid))
        × (run_after call ctx outcome gs mid ≡ (returned tt, s'))
  unfolding run_after observe
  run_after-step g gs s s' h = elim (Bool-cases (g.body.matcher call ctx)) [
    | inl hit ↦
        let (u, mid, ran, rest) =
          >>=-eq-returned (g.body.handler call ctx outcome) (λ _. run_after call ctx outcome gs) s
            (if_run hit h) in
        (
          mid,
          ap (λ b. if b then g.body.handler call ctx outcome s else (returned tt, s)) hit ∙ ran,
          rest,
        )
    | inr miss ↦ (s, rw miss refl, if_skip miss h)
  ]
    where
      if_run :
          g.body.matcher call ctx ≡ true
          → run_after call ctx outcome (g ∷ gs) s ≡ (returned tt, s')
          → (g.body.handler call ctx outcome >>= λ _. run_after call ctx outcome gs) s
            ≡ (returned tt, s')
      if_run e h = if_true _ _ _ e h

      if_skip :
          g.body.matcher call ctx ≡ false
          → run_after call ctx outcome (g ∷ gs) s ≡ (returned tt, s')
          → run_after call ctx outcome gs s ≡ (returned tt, s')
      if_skip e h = if_false _ _ _ e h

-- A log that only grew.
abbrev pub Extends : {A : Type 0} → List A → List A → Type 0
Extends log log' = (more : List _) × (log' ≡ log ++ more)

Extends-trans : {A : Type 0} (l : List A) {m n : List A} → Extends l m → Extends m n → Extends l n
Extends-trans l (x, p) (y, q) = (x ++ y, q ∙ ap (λ z. z ++ y) p ∙ append_assoc l x y)

module _ {E A : Type 0} where
  -- Whatever this observer sees, it takes nothing from the log.
  abbrev pub OnlyExtends : Gate (Observer (E × List A)) → Type 0
  OnlyExtends g =
      (call : BoundaryCall) (ctx : Context) (outcome : Outcome) (s s' : E × List A)
      → g.body.handler call ctx outcome s ≡ (returned tt, s')
      → Extends s.1 s'.1

  observe-Extends :
      (g : Gate (Observer (E × List A)))
      → OnlyExtends g
      → (call : BoundaryCall) (ctx : Context) (outcome : Outcome) (s s' : E × List A)
      → observe call ctx outcome g s ≡ (returned tt, s')
      → Extends s.1 s'.1
  unfolding observe
  observe-Extends g keeps call ctx outcome s s' h = elim (Bool-cases (g.body.matcher call ctx)) [
    | inl hit ↦ keeps call ctx outcome s s' (if_true _ _ _ hit h)
    | inr miss ↦ ([], sym (ap (λ p. p.1.1) (if_false _ _ _ miss h)) ∙ sym (append-nil s.1))
  ]

  run_after-Extends :
      (gs : List (Gate (Observer (E × List A))))
      → All OnlyExtends gs
      → (call : BoundaryCall) (ctx : Context) (outcome : Outcome) (s s' : E × List A)
      → run_after call ctx outcome gs s ≡ (returned tt, s')
      → Extends s.1 s'.1
  unfolding run_after
  run_after-Extends [] keeps call ctx outcome s s' h =
      ([], sym (ap (λ p. p.1.1) h) ∙ sym (append-nil s.1))
  run_after-Extends (g ∷ gs) keeps call ctx outcome s s' h =
      let (mid, first, rest) = run_after-step call ctx outcome g gs s s' h in
      Extends-trans s.1 (observe-Extends g keeps.0 call ctx outcome s mid first)
        (run_after-Extends gs keeps.1 call ctx outcome mid s' rest)

-- The entry of an outcome, written after the log was `start`.
pub record HasEntry {Hash : Type 0} (input : AuditInput) (start log : List (AuditEntry Hash))
    : Type 0 where
  pub before : List (AuditEntry Hash)
  pub entry : AuditEntry Hash
  pub later : List (AuditEntry Hash)
  pub found : log ≡ before ++ entry ∷ later
  pub is_new : Extends start before
  pub records : entry.snapshot.input ≡ input

HasEntry-Extends :
    {Hash : Type 0} {input : AuditInput} {first start log last : List (AuditEntry Hash)}
    → Extends first start
    → HasEntry input start log
    → Extends log last
    → HasEntry input first last
HasEntry-Extends e h (more, e') = record {
  before = h.before;
  entry = h.entry;
  later = h.later ++ more;
  found = e' ∙ ap (λ l. l ++ more) h.found ∙ append_assoc h.before (h.entry ∷ h.later) more;
  is_new = Extends-trans _ e h.is_new;
  records = h.records;
}

Extends-refl : {A : Type 0} (l : List A) → Extends l l
Extends-refl l = ([], sym (append-nil l))

module _ {E Hash : Type 0} (d : Digest Hash) (valid : AuditInput → Bool) (now : String) where
  -- The audit gate, as registered.
  abbrev pub audit : String → Bool → Gate (Observer (E × List (AuditEntry Hash)))
  audit id sealed = record { id = id; sealed = sealed; body = audit_gate d valid now }

  written-HasEntry :
      (b : Bool) (env : E) (log : List (AuditEntry Hash)) (entry : AuditEntry Hash)
      (s' : E × List (AuditEntry Hash))
      → appended d valid now env (
          if b
          then (returned entry, log ++ entry ∷ [])
          else (thrown (validation_error "invalid audit input"), log))
        ≡ (returned tt, s')
      → HasEntry entry.snapshot.input log s'.1
  written-HasEntry true env log entry s' h = record {
    before = log;
    entry = entry;
    later = [];
    is_new = Extends-refl log;
    found = sym (ap (λ p. p.1.1) h);
    records = refl;
  }
  written-HasEntry false env log entry s' h =
      absurd (thrown-ne-returned {e = validation_error "invalid audit input"} (ap (λ p. p.0) h))

  appended-HasEntry :
      (env : E) (log : List (AuditEntry Hash)) (input : AuditInput)
      (s' : E × List (AuditEntry Hash))
      → appended d valid now env (append d valid log input) ≡ (returned tt, s')
      → HasEntry input log s'.1
  unfolding append
  appended-HasEntry env log input s' h = written-HasEntry (valid input) env log _ s' h

  audit-HasEntry :
      (id : String) (sealed : Bool) (call : BoundaryCall) (ctx : Context) (outcome : Outcome)
      (s s' : E × List (AuditEntry Hash))
      → observe call ctx outcome (audit id sealed) s ≡ (returned tt, s')
      → HasEntry (audit_input now call ctx outcome) s.1 s'.1
  unfolding observe audit_gate record_outcome
  audit-HasEntry id sealed call ctx outcome s s' h = appended-HasEntry s.0 s.1 _ s' h

  run_after-HasEntry :
      (earlier later : List (Gate (Observer (E × List (AuditEntry Hash))))) (id : String)
      (sealed : Bool)
      → All OnlyExtends earlier
      → All OnlyExtends later
      → (call : BoundaryCall) (ctx : Context) (outcome : Outcome)
        (s s' : E × List (AuditEntry Hash))
      → run_after call ctx outcome (earlier ++ audit id sealed ∷ later) s ≡ (returned tt, s')
      → HasEntry (audit_input now call ctx outcome) s.1 s'.1
  run_after-HasEntry [] later id sealed early late call ctx outcome s s' h =
      let (mid, first, rest) = run_after-step call ctx outcome (audit id sealed) later s s' h in
      HasEntry-Extends (Extends-refl s.1) (audit-HasEntry id sealed call ctx outcome s mid first)
        (run_after-Extends later late call ctx outcome mid s' rest)
  run_after-HasEntry (g ∷ gs) later id sealed early late call ctx outcome s s' h =
      let (mid, first, rest) =
        run_after-step call ctx outcome g (gs ++ audit id sealed ∷ later) s s' h in
      HasEntry-Extends (observe-Extends g early.0 call ctx outcome s mid first)
        (run_after-HasEntry gs later id sealed early.1 late call ctx outcome mid s' rest)
        (Extends-refl s'.1)

  -- Let the audit gate be registered among after-gates that only add to the log. When a governed tool
  -- call returns, with an output or with a halt, the log has an entry, written after the gates and the
  -- tool were done, that gives the name and the arguments of the call, the status of its outcome, for a
  -- halt the gate, the reason and its code, and as principal and decider the texts that the context holds
  -- for them, if any; a claw and a run mode that it names are those of the context.
  pub run_governed-HasEntry :
      (cfg : Config (E × List (AuditEntry Hash))) (gates : Gates (E × List (AuditEntry Hash)))
      (earlier later : List (Gate (Observer (E × List (AuditEntry Hash))))) (id : String)
      (sealed : Bool) (call : ToolCall) (ctx : Context) (bypass : Option String) (r : HandleResult)
      (s s' : E × List (AuditEntry Hash))
      → gates.after ≡ earlier ++ audit id sealed ∷ later
      → All OnlyExtends earlier
      → All OnlyExtends later
      → run_governed cfg gates call ctx bypass s ≡ (returned r, s')
      → (input : AuditInput) × Tells now call ctx r input
        × HasEntry input (governed_body cfg gates call ctx bypass s).1.1 s'.1
  unfolding run_governed
  run_governed-HasEntry cfg gates earlier later id sealed call ctx bypass r s s' set early late h =
      let body = governed_body cfg gates call ctx bypass s in
      let (_, seen) = conclude-returned cfg gates (tool call) ctx body r s' h in
      (
        audit_input now (tool call) ctx (result r),
        audit_input-Tells now call ctx r,
        run_after-HasEntry earlier later id sealed early late (tool call) ctx (result r) body.1 s' (
            subst (λ gs. run_after (tool call) ctx (result r) gs body.1 ≡ (returned tt, s')) set
              seen),
      )
