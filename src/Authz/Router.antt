-- ===== src/Authz/Router.antt =====
-- The router of policy bundles: createOrgPolicyRouter of packages/foundation/authz/src/router.ts. The
-- cache is the Map in its order of insertion, the oldest bundle first. A decision runs to its end before
-- the next, so an entry is a finished build; a build that fails has evicted what its entry displaced.
pub mod Routed
use euroclaw.Base.Eff.{Eff, Result, returned, thrown}
use euroclaw.Authz.{Call, rejected, PolicyEngine, as_async}
use euroclaw.Prelude.{
  ℕ, ◌+◌, ◌-◌, String, Option, none, some, List, [], ◌∷◌, ◌++◌, str_eq, ltb, if◌then◌else◌, length,
}

pub record OrgPolicyRouterConfig (S Req : Type 0) : Type 0 where
  pub key_for : Option String → Eff S String
  pub engine_for : Option String → Eff S (PolicyEngine S Req)
  pub max_bundles : Option ℕ

abbrev pub default_max_bundles : ℕ
default_max_bundles = 64

abbrev pub bundle_limit : Option ℕ → ℕ
bundle_limit none = default_max_bundles
bundle_limit (some n) = n

module _ {E : Type 0} where
  -- `cache.get`
  unfoldable pub cached : String → List (String × E) → Option E
  cached key [] = none
  cached key ((k, e) ∷ cache) = if str_eq k key then some e else cached key cache

  -- `cache.delete`
  unfoldable pub uncache : String → List (String × E) → List (String × E)
  uncache key [] = []
  uncache key ((k, e) ∷ cache) = if str_eq k key then cache else (k, e) ∷ uncache key cache

  -- `while (cache.size > maxBundles)`
  unfoldable pub evict : (limit : ℕ) → List (String × E) → List (String × E)
  evict limit [] = []
  evict limit (entry ∷ cache) =
      let fewer = evict limit cache in
      if ltb limit (length (entry ∷ cache)) then fewer else entry ∷ cache

module _ {S Req : Type 0} (config : OrgPolicyRouterConfig S Req)
    (org_of : Req → Option String) where
  abbrev pub Cache : Type 0
  Cache = List (String × PolicyEngine S Req)

  -- `engine.authorize(req)`, awaited
  abbrev pub delegate : PolicyEngine S Req → Req → Cache → S → Call × (S × Cache)
  delegate engine req cache s =
      let (call, s') = engine.authorize req s in (as_async call, (s', cache))

  abbrev pub limit : ℕ
  limit = bundle_limit config.max_bundles

  abbrev pub build_bundle :
      String → Req → Cache → Result (PolicyEngine S Req) × S → Call × (S × Cache)
  build_bundle key req cache (returned engine, s) =
      delegate engine req (evict limit (cache ++ (key, engine) ∷ [])) s
  build_bundle key req cache (thrown e, s) = (rejected e, (s, evict (limit - 1) cache))

  abbrev pub route_found :
      String → Req → Cache → S → Option (PolicyEngine S Req) → Call × (S × Cache)
  route_found key req cache s (some engine) =
      delegate engine req (uncache key cache ++ (key, engine) ∷ []) s
  route_found key req cache s none = build_bundle key req cache (config.engine_for (org_of req) s)

  abbrev pub route_key : Req → Cache → Result String × S → Call × (S × Cache)
  route_key req cache (returned key, s) = route_found key req cache s (cached key cache)
  route_key req cache (thrown e, s) = (rejected e, (s, cache))

  unfoldable pub route : Req → S × Cache → Call × (S × Cache)
  unfolding cached uncache evict
  route req (s, cache) = route_key req cache (config.key_for (org_of req) s)
