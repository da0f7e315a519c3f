-- ===== src/Authz/Shadow.antt =====
-- The shadow engine: createShadowPolicyEngine of packages/foundation/authz/src/shadow-engine.ts. The live
-- engine is called first, then the candidate; `observe` and the callback for a failed build may throw.
pub mod Live
use euroclaw.Base.Eff.{Eff, Result, returned, thrown, Thrown, ◌>>=◌, pure}
use euroclaw.Authz.{
  Decision, permit, deny, needs_approval, PolicyResult, Call, answered, rejected, raised,
  PolicyEngine, as_async,
}
use euroclaw.Prelude.{Bool, true, false, Option, none, some, if◌then◌else◌}

pub record ShadowDivergence (Req : Type 0) : Type 0 where
  pub request : Req
  pub live : Decision
  pub candidate : Decision

abbrev pub same_decision : Decision → Decision → Bool
same_decision permit permit = true
same_decision deny deny = true
same_decision needs_approval needs_approval = true
same_decision _ _ = false

pub record ShadowConfig (S Req : Type 0) : Type 0 where
  pub live : PolicyEngine S Req
  pub candidate : Eff S (PolicyEngine S Req)
  pub observe : ShadowDivergence Req → Eff S (Unit {0})
  pub on_candidate_build_error : Option (Thrown → Eff S (Unit {0}))

module _ {S Req : Type 0} (config : ShadowConfig S Req) where
  -- `config.onCandidateBuildError?.(error)`
  abbrev pub report_build_error : Option (Thrown → Eff S (Unit {0})) → Thrown → Eff S (Unit {0})
  report_build_error none e = pure tt
  report_build_error (some report) e = report e

  abbrev pub kept_candidate :
      Result (PolicyEngine S Req) × S → Result (Option (PolicyEngine S Req)) × S
  kept_candidate (returned engine, s) = (returned (some engine), s)
  kept_candidate (thrown e, s) =
      (report_build_error config.on_candidate_build_error e >>= λ _. pure none) s

  -- The observer of a divergence; what it throws is dropped.
  abbrev pub observe_divergence : Req → PolicyResult → Call → S → S
  observe_divergence req live (answered candidate) s =
      if same_decision candidate.decision live.decision
      then s
      else (config.observe
          (record { request = req; live = live.decision; candidate = candidate.decision }) s).1
  observe_divergence req live other s = s

  -- both calls, awaited by `Promise.all`, and the comparison
  abbrev pub compare_calls : Req → Call → Call → S → Call × S
  compare_calls req (answered live) candidate s =
      (answered live, observe_divergence req live candidate s)
  compare_calls req live candidate s = (as_async live, s)

  -- The candidate's call stands inside the list that `Promise.all` gets, so what it throws there is thrown
  -- by `authorize`.
  abbrev pub after_candidate : Req → Call → Call × S → Call × S
  after_candidate req live (raised e, s) = (rejected e, s)
  after_candidate req live (candidate, s) = compare_calls req live candidate s

  abbrev pub after_live : PolicyEngine S Req → Req → Call × S → Call × S
  after_live candidate req (raised e, s) = (rejected e, s)
  after_live candidate req (live, s) = after_candidate req live (candidate.authorize req s)

  unfoldable pub shadow_authorize : Option (PolicyEngine S Req) → Req → S → Call × S
  shadow_authorize none req s = let (live, s') = config.live.authorize req s in (as_async live, s')
  shadow_authorize (some candidate) req s = after_live candidate req (config.live.authorize req s)

  abbrev pub wrapped : Option (PolicyEngine S Req) → PolicyEngine S Req
  wrapped candidate = record {
    authorize = shadow_authorize candidate;
    capabilities = config.live.capabilities;
  }

  unfoldable pub create_shadow_policy_engine : Eff S (PolicyEngine S Req)
  create_shadow_policy_engine =
      (λ s. kept_candidate (config.candidate s)) >>= λ candidate. pure (wrapped candidate)
