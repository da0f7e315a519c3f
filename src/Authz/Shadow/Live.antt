-- ===== src/Authz/Shadow/Live.antt =====
-- Whose answer the shadow engine gives.
use mathlib.Core.Path.{subst}
use euroclaw.Base.Eff.{Result, returned, thrown, Thrown, >>=-eq-returned, pure}
use euroclaw.Authz.{Call, answered, rejected, raised, PolicyEngine, as_async}
use euroclaw.Authz.Shadow.{
  ShadowConfig, report_build_error, kept_candidate, after_live, after_candidate, shadow_authorize,
  wrapped, create_shadow_policy_engine,
}
use euroclaw.Prelude.{◌≡◌, refl, sym, ap, ◌∙◌, ◌⊎◌, inl, inr, Option, none, some}

module _ {S Req : Type 0} (config : ShadowConfig S Req) where
  -- The candidate throws before it gives an answer or a promise.
  pub record Raises (candidate : PolicyEngine S Req) (req : Req) (s : S) (answer : Call)
      : Type 0 where
    pub error : Thrown
    pub throws : (candidate.authorize req (config.live.authorize req s).1).0 ≡ raised error
    pub is_answer : answer ≡ rejected error

  after_candidate-answer :
      (req : Req) (live : Call) (c : Call) (s : S)
      → live ≡ as_async live
      → ((after_candidate config req live (c, s)).0 ≡ live)
        ⊎ ((e : Thrown) × ((c ≡ raised e)
              × ((after_candidate config req live (c, s)).0 ≡ rejected e)))
  after_candidate-answer req live (raised e) s settled = inr (e, (refl, refl))
  after_candidate-answer req (answered r) (answered r') s settled = inl refl
  after_candidate-answer req (answered r) (rejected e) s settled = inl refl
  after_candidate-answer req (rejected e) (answered r') s settled = inl refl
  after_candidate-answer req (rejected e) (rejected e') s settled = inl refl
  after_candidate-answer req (raised e) (answered r') s settled = inl (sym settled)
  after_candidate-answer req (raised e) (rejected e') s settled = inl (sym settled)

  after_live-answer :
      (c : PolicyEngine S Req) (req : Req) (live : Call) (s : S)
      → ((after_live config c req (live, s)).0 ≡ as_async live)
        ⊎ ((e : Thrown) × (((c.authorize req s).0 ≡ raised e)
              × ((after_live config c req (live, s)).0 ≡ rejected e)))
  after_live-answer c req (raised e) s = inl refl
  after_live-answer c req (answered r) s =
      after_candidate-answer req (answered r) (c.authorize req s).0 (c.authorize req s).1 refl
  after_live-answer c req (rejected e) s =
      after_candidate-answer req (rejected e) (c.authorize req s).0 (c.authorize req s).1 refl

  -- How the candidate of a shadow engine came about.
  abbrev pub IsBuilt : S → PolicyEngine S Req → Type 0
  IsBuilt s c = (s' : S) × (config.candidate s ≡ (returned c, s'))

  kept_candidate-IsBuilt :
      (r : Result (PolicyEngine S Req)) (s0 : S) (c : PolicyEngine S Req) (s s' : S)
      → kept_candidate config (r, s) ≡ (returned (some c), s')
      → r ≡ returned c
  kept_candidate-IsBuilt (returned engine) s0 c s s' h = cc
  kept_candidate-IsBuilt (thrown e) s0 c s s' h =
      let (_, s1, _, is) =
        >>=-eq-returned (report_build_error config config.on_candidate_build_error e)
          (λ _. pure none) s h in
      absurd (none-ne is)
    where
      none-ne :
          {t : S}
          → ◌≡◌ {A = Result (Option (PolicyEngine S Req)) × S}
              (returned none, t)
              (returned (some c), s')
          → ⊥
      none-ne e = cc

  wrapped-answer :
      (o : Option (PolicyEngine S Req)) (s0 : S)
      → ((c : PolicyEngine S Req) → o ≡ some c → IsBuilt s0 c)
      → (req : Req) (s : S)
      → ((shadow_authorize config o req s).0 ≡ as_async (config.live.authorize req s).0)
        ⊎ ((c : PolicyEngine S Req) × (IsBuilt s0 c
              × Raises c req s (shadow_authorize config o req s).0))
  unfolding shadow_authorize
  wrapped-answer none s0 built req s = inl refl
  wrapped-answer (some c) s0 built req s =
      elim (after_live-answer c req (config.live.authorize req s).0
        (config.live.authorize req s).1) [
          | inl same ↦ inl same
          | inr (e, (throws, is)) ↦
              inr (c, (built c refl, record { error = e; throws = throws; is_answer = is }))
        ]

  -- A shadow engine has the capabilities of the live engine, and every answer of it is the live engine's
  -- answer to the same request, whatever the candidate answers or rejects and whatever the observer does,
  -- also where the candidate was not built; but where the candidate throws in that call itself, its throw
  -- is the answer.
  pub create_shadow_policy_engine-answer :
      (engine : PolicyEngine S Req) (s0 s1 : S) (req : Req) (s : S)
      → create_shadow_policy_engine config s0 ≡ (returned engine, s1)
      → (engine.capabilities ≡ config.live.capabilities)
        × (((engine.authorize req s).0 ≡ as_async (config.live.authorize req s).0)
            ⊎ ((c : PolicyEngine S Req) × (IsBuilt s0 c
                  × Raises c req s (engine.authorize req s).0)))
  unfolding create_shadow_policy_engine
  create_shadow_policy_engine-answer engine s0 s1 req s h =
      let (o, s2, kept, is) =
        >>=-eq-returned (λ t. kept_candidate config (config.candidate t))
          (λ c. pure (wrapped config c)) s0 h in
      subst
        (λ (x : PolicyEngine S Req).
          (x.capabilities ≡ config.live.capabilities)
          × (((x.authorize req s).0 ≡ as_async (config.live.authorize req s).0)
              ⊎ ((c : PolicyEngine S Req) × (IsBuilt s0 c × Raises c req s (x.authorize req s).0))))
        (returned_inj (ap (λ r. r.0) is)) (refl, wrapped-answer o s0 (built o kept) req s)
    where
      returned_inj :
          {a b : PolicyEngine S Req}
          → ◌≡◌ {A = Result (PolicyEngine S Req)} (returned a) (returned b)
          → a ≡ b
      returned_inj h = cc

      built :
          {t : S} (o : Option (PolicyEngine S Req))
          → kept_candidate config (config.candidate s0) ≡ (returned o, t)
          → (c : PolicyEngine S Req) → o ≡ some c
          → IsBuilt s0 c
      built {t} o kept c e = (
        (config.candidate s0).1,
        ap (λ r. (r, (config.candidate s0).1))
            (kept_candidate-IsBuilt (config.candidate s0).0 s0 c (config.candidate s0).1 t
              (kept ∙ ap (λ x. (returned x, t)) e)),
      )
