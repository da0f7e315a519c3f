-- ===== src/Authz/Router/Routed.antt =====
-- Whose bundle decides, and what the cache holds.
use mathlib.Core.Path.{subst}
use euroclaw.Base.Eff.{Result, returned, thrown, Thrown}
use euroclaw.Authz.{Call, rejected, PolicyEngine, as_async}
use euroclaw.Authz.Router.{
  OrgPolicyRouterConfig, cached, uncache, evict, bundle_limit, build_bundle, route_found, route_key,
  route,
}
use euroclaw.Prelude.{
  ℕ, suc, ◌-◌, ◌≤◌, String, ◌≡◌, refl, inl, inr, Option, none, some, List, [], ◌∷◌, ◌++◌, arith,
  str_eq, eq_iff, ltb, Bool-cases, some_inj, length, length-append, All, All-append, if_true,
  if_false, if_cases,
}

module _ {E : Type 0} where
  length-evict : (n : ℕ) (cache : List (String × E)) → length (evict n cache) ≤ n
  unfolding evict
  length-evict n [] = omega arith
  length-evict n (entry ∷ cache) = ground (arith, length-evict n cache)

  length-uncache :
      (key : String) (cache : List (String × E)) (e : E)
      → cached key cache ≡ some e
      → suc (length (uncache key cache)) ≡ length cache
  unfolding cached uncache
  length-uncache key [] e h = ground arith
  length-uncache key ((k, x) ∷ cache) e h = ground (arith, h, length-uncache key cache e)

  module _ (P : String × E → Type 0) where
    All-evict : (n : ℕ) (cache : List (String × E)) → All P cache → All P (evict n cache)
    unfolding evict
    All-evict n [] h = tt
    All-evict n (entry ∷ cache) h =
        if_cases (All P) (ltb n (length (entry ∷ cache))) (evict n cache) (entry ∷ cache)
          (λ over. All-evict n cache h.1) (λ fits. h)

    All-uncache :
        (key : String) (cache : List (String × E)) → All P cache → All P (uncache key cache)
    unfolding uncache
    All-uncache key [] h = tt
    All-uncache key ((k, e) ∷ cache) h =
        if_cases (All P) (str_eq k key) cache ((k, e) ∷ uncache key cache) (λ hit. h.1)
          (λ miss. (h.0, All-uncache key cache h.1))

    All-cached :
        (key : String) (cache : List (String × E)) (e : E)
        → All P cache
        → cached key cache ≡ some e
        → P (key, e)
    unfolding cached
    All-cached key [] e h found = ground arith
    All-cached key ((k, x) ∷ cache) e h found = elim (Bool-cases (str_eq k key)) [
      | inl hit ↦
          subst (λ k'. P (k', e)) ((eq_iff k key).0 hit)
            (subst (λ y. P (k, y)) (some_inj (if_true _ _ _ hit found)) h.0)
      | inr miss ↦ All-cached key cache e h.1 (if_false _ _ _ miss found)
    ]

module _ {S Req : Type 0} (config : OrgPolicyRouterConfig S Req)
    (org_of : Req → Option String) where
  -- A bundle that `engineFor` built for an organization whose key was `key`.
  pub record IsBundle (entry : String × PolicyEngine S Req) : Type 0 where
    pub organization_id : Option String
    pub asked : S
    pub asked_after : S
    pub key_is : config.key_for organization_id asked ≡ (returned entry.0, asked_after)
    pub started : S
    pub built : S
    pub builds : config.engine_for organization_id started ≡ (returned entry.1, built)

  -- The cache is no larger than configured, and every entry is a bundle of its key.
  abbrev pub IsSound : List (String × PolicyEngine S Req) → Type 0
  IsSound cache = (length cache ≤ bundle_limit config.max_bundles) × All IsBundle cache

  -- How a decision on `req` comes out: without a key, without a bundle, or by a bundle of its key.
  pub data Routed (req : Req) (s : S) : Call → Type 0 where
    no_key :
        {e : Thrown} {s' : S}
        → config.key_for (org_of req) s ≡ (thrown e, s')
        → Routed req s (rejected e)
    no_bundle :
        {key : String} {e : Thrown} {s' t : S}
        → config.key_for (org_of req) s ≡ (returned key, s')
        → config.engine_for (org_of req) s' ≡ (thrown e, t)
        → Routed req s (rejected e)
    delegated :
        {key : String} {s' : S} (engine : PolicyEngine S Req) (t : S)
        → config.key_for (org_of req) s ≡ (returned key, s')
        → IsBundle (key, engine)
        → Routed req s (as_async (engine.authorize req t).0)

  abbrev Fine : Req → S → Call × (S × List (String × PolicyEngine S Req)) → Type 0
  Fine req s r = Routed req s r.0 × IsSound r.1.1

  build_bundle-Fine :
      (req : Req) (s s' : S) (key : String) (cache : List (String × PolicyEngine S Req))
      (r : Result (PolicyEngine S Req) × S)
      → IsSound cache
      → config.key_for (org_of req) s ≡ (returned key, s')
      → config.engine_for (org_of req) s' ≡ r
      → Fine req s (build_bundle config org_of key req cache r)
  build_bundle-Fine req s s' key cache (returned engine, t) sound asks builds =
      let bundle : IsBundle (key, engine) = record {
        organization_id = org_of req;
        asked = s;
        asked_after = s';
        key_is = asks;
        started = s';
        built = t;
        builds = builds;
      } in
      (
        delegated engine t asks bundle,
        (
          length-evict _ (cache ++ (key, engine) ∷ []),
          All-evict IsBundle _ (cache ++ (key, engine) ∷ [])
              (All-append IsBundle cache ((key, engine) ∷ []) sound.1 (bundle, tt)),
        ),
      )
  build_bundle-Fine req s s' key cache (thrown e, t) sound asks builds = (
    no_bundle asks builds,
    (
      omega (arith, length-evict (bundle_limit config.max_bundles - 1) cache),
      All-evict IsBundle _ cache sound.1,
    ),
  )

  route_found-Fine :
      (req : Req) (s s' : S) (key : String) (cache : List (String × PolicyEngine S Req))
      (o : Option (PolicyEngine S Req))
      → IsSound cache
      → config.key_for (org_of req) s ≡ (returned key, s')
      → cached key cache ≡ o
      → Fine req s (route_found config org_of key req cache s' o)
  route_found-Fine req s s' key cache none sound asks found =
      build_bundle-Fine req s s' key cache (config.engine_for (org_of req) s') sound asks refl
  route_found-Fine req s s' key cache (some engine) sound asks found =
      let bundle = All-cached IsBundle key cache engine sound.1 found in
      (
        delegated engine s' asks bundle,
        (
          omega (
            arith,
            sound.0,
            length-uncache key cache engine found,
            length-append (uncache key cache) ((key, engine) ∷ []),
          ),
          All-append IsBundle (uncache key cache) ((key, engine) ∷ [])
              (All-uncache IsBundle key cache sound.1) (bundle, tt),
        ),
      )

  route_key-Fine :
      (req : Req) (s : S) (cache : List (String × PolicyEngine S Req)) (r : Result String × S)
      → IsSound cache
      → config.key_for (org_of req) s ≡ r
      → Fine req s (route_key config org_of req cache r)
  route_key-Fine req s cache (returned key, s') sound asks =
      route_found-Fine req s s' key cache (cached key cache) sound asks refl
  route_key-Fine req s cache (thrown e, s') sound asks = (no_key asks, sound)

  -- Run the decisions of a list of requests one after another.
  unfoldable pub route_all :
      List Req → S × List (String × PolicyEngine S Req) → S × List (String × PolicyEngine S Req)
  route_all [] st = st
  route_all (req ∷ reqs) st = route_all reqs (route config org_of req st).1

  route-Fine :
      (req : Req) (st : S × List (String × PolicyEngine S Req))
      → IsSound st.1
      → Fine req st.0 (route config org_of req st)
  unfolding route
  route-Fine req (s, cache) sound = route_key-Fine req s cache _ sound refl

  route_all-IsSound :
      (reqs : List Req) (st : S × List (String × PolicyEngine S Req))
      → IsSound st.1
      → IsSound (route_all reqs st).1
  unfolding route_all
  route_all-IsSound [] st sound = sound
  route_all-IsSound (req ∷ reqs) st sound =
      route_all-IsSound reqs (route config org_of req st).1 (route-Fine req st sound).1

  -- After any decisions, from an empty cache, the cache holds at most `maxBundles` bundles, each of them
  -- built for an organization of its key; and the next decision is rejected where its key or its bundle
  -- cannot be had, and is otherwise that of an engine built for an organization of the same key.
  pub route-Routed :
      (reqs : List Req) (s : S) (req : Req)
      → IsSound (route_all reqs (s, [])).1
        × Routed req (route_all reqs (s, [])).0 (route config org_of req (route_all reqs (s, []))).0
  route-Routed reqs s req =
      let sound = route_all-IsSound reqs (s, []) (omega arith, tt) in
      (sound, (route-Fine req (route_all reqs (s, [])) sound).0)
