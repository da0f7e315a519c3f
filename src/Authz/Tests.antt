-- ===== src/Authz/Tests.antt =====
-- A live engine that permits, a candidate that throws, and a router with room for one bundle.
use euroclaw.Base.Eff.{returned, state_error, pure}
use euroclaw.Authz.{
  PolicyEngineCapabilities, Decision, PolicyResult, answered, rejected, raised, PolicyEngine,
  as_async,
}
use euroclaw.Authz.Shadow.{ShadowConfig, shadow_authorize, wrapped, create_shadow_policy_engine}
use euroclaw.Authz.Shadow.Live.{IsBuilt, Raises, create_shadow_policy_engine-answer}
use euroclaw.Authz.Router.{OrgPolicyRouterConfig, route, cached, uncache, evict}
use euroclaw.Authz.Router.Routed.{IsSound, Routed, route_all, route-Routed}
use euroclaw.Authz.Overlay.{
  ActionAccess, ActionSource, Facts, AuthzActionInput, FactsOverlayEntry, OverlayMergeResult,
  override_facts, merge_facts_overlay,
}
use euroclaw.Authz.Overlay.Reported.{loosened, IsMerged, merge_facts_overlay-IsMerged}
use euroclaw.Prelude.{
  ℕ, ◌+◌, String, ◌≡◌, refl, ◌⊎◌, Option, none, some, List, [], ◌∷◌, ◌==◌, if◌then◌else◌,
}

abbrev permitted : PolicyResult
permitted = record {
  decision = Decision.permit;
  reason = none;
  policies = none;
  annotations = none;
}

-- The state counts calls.
abbrev permits : PolicyEngine ℕ ℕ
permits = record { authorize = λ req s. (answered permitted, s + 1); capabilities = none }

abbrev throws : PolicyEngine ℕ ℕ
throws = record { authorize = λ req s. (raised (state_error "boom"), s); capabilities = none }

abbrev shadowed : ShadowConfig ℕ ℕ
shadowed = record {
  live = permits;
  candidate = pure throws;
  observe = λ d. pure tt;
  on_candidate_build_error = none;
}

wraps : create_shadow_policy_engine shadowed 0 ≡ (returned (wrapped shadowed (some throws)), 0)
unfolding create_shadow_policy_engine
wraps = refl

throw_escapes : (shadow_authorize shadowed (some throws) 7 0).0 ≡ rejected (state_error "boom")
unfolding shadow_authorize
throw_escapes = refl

create_shadow_policy_engine-answer_example :
    ◌≡◌ {A = Option PolicyEngineCapabilities} none none
    × (((shadow_authorize shadowed (some throws) 7 0).0 ≡ as_async (permits.authorize 7 0).0)
        ⊎ ((c : PolicyEngine ℕ ℕ) × (IsBuilt shadowed 0 c
              × Raises shadowed c 7 0 (shadow_authorize shadowed (some throws) 7 0).0)))
create_shadow_policy_engine-answer_example =
    create_shadow_policy_engine-answer shadowed (wrapped shadowed (some throws)) 0 0 7 0 wraps

abbrev one_bundle : OrgPolicyRouterConfig ℕ ℕ
one_bundle = record {
  key_for = λ org s. (elim org [ none ↦ returned "system" | some o ↦ returned o ], s);
  engine_for = λ org s. (returned permits, s + 100);
  max_bundles = some 1;
}

abbrev org_of : ℕ → Option String
org_of req = if req == 0 then none else some "acme"

evicts : route_all one_bundle org_of (0 ∷ 1 ∷ 1 ∷ []) (0, []) ≡ (203, ("acme", permits) ∷ [])
unfolding route_all route cached uncache evict
evicts = refl

route-Routed_example :
    IsSound one_bundle org_of (route_all one_bundle org_of (0 ∷ 1 ∷ []) (0, [])).1
    × Routed one_bundle org_of 0
        (route_all one_bundle org_of (0 ∷ 1 ∷ []) (0, [])).0
        (route one_bundle org_of 0 (route_all one_bundle org_of (0 ∷ 1 ∷ []) (0, []))).0
route-Routed_example = route-Routed one_bundle org_of (0 ∷ 1 ∷ []) 0 0

abbrev facts_only : ActionAccess → Facts
facts_only a = record { access = some a; groups = none; resource = none; audit = none }

-- One action, a write by default, that the overlay makes a read, and a typing error.
abbrev send : AuthzActionInput ℕ
send = record { id = "send"; source = ActionSource.tool; governance = none; args = none }

abbrev overlay : List FactsOverlayEntry
overlay =
    record { action_id = "send"; facts = facts_only ActionAccess.read }
    ∷ record { action_id = "sned"; facts = facts_only ActionAccess.read }
    ∷ []

abbrev merged : OverlayMergeResult ℕ
merged = record {
  inputs =
      record send {
        governance = some (record { rest = none; facts = facts_only ActionAccess.read });
      }
      ∷ [];
  loosenings = loosened "send" ∷ [];
  unmatched = "sned" ∷ [];
}

merges : merge_facts_overlay (λ e. some e) (send ∷ []) overlay ≡ returned merged
unfolding merge_facts_overlay override_facts
merges = refl

merge_facts_overlay-IsMerged_example : IsMerged (λ e. some e) (send ∷ []) overlay merged
merge_facts_overlay-IsMerged_example =
    merge_facts_overlay-IsMerged (λ e. some e) (send ∷ []) overlay merged merges
