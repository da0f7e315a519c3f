-- ===== src/Egress/Assert/Laws.antt =====
-- When a target is allowed, and what the decision holds.
use mathlib.Core.Path.{subst}
use euroclaw.Egress.Ip.{Text}
use euroclaw.Egress.Blocked.{blocked_address_reason}
use euroclaw.Egress.Assert.{
  Protocol, https, http, Url, ResolvedAddress, EgressOptions, EgressDecision, allowed, protocol_ok,
  strip_brackets, resolve, first_blocked, pin, decide, assert_egress_allowed,
}
use euroclaw.Prelude.{
  [], ◌≡◌, refl, ◌∙◌, ◌↔◌, ◌⊎◌, inl, inr, Bool, true, Option, none, some, List, ◌∷◌, arith,
  Bool-cases, Option-cases, All,
}

abbrev pub IsOpen : ResolvedAddress → Type 0
IsOpen r = blocked_address_reason r.address ≡ none

first_blocked-All : (rs : List ResolvedAddress) → first_blocked rs ≡ none → All IsOpen rs
unfolding first_blocked
first_blocked-All [] h = tt
first_blocked-All (r ∷ rs) h = ground (arith, first_blocked-All rs)

All-first_blocked : (rs : List ResolvedAddress) → All IsOpen rs → first_blocked rs ≡ none
unfolding first_blocked
All-first_blocked [] h = refl
All-first_blocked (r ∷ rs) h = ground (arith, All-first_blocked rs)

-- What the floor promises of a resolution: not empty, no blocked address in it, and the decision
-- pins its first address for the URL that was asked for.
pub record IsVetted (url : Text) (rs : List ResolvedAddress) (d : EgressDecision) : Type 0 where
  pub first : ResolvedAddress
  pub more : List ResolvedAddress
  pub resolution : rs ≡ first ∷ more
  pub all_open : All IsOpen rs
  pub same_url : d.url ≡ url
  pub address : d.pinned_address ≡ first.address
  pub family : d.family ≡ first.family

pin-IsVetted :
    (url : Text) (rs : List ResolvedAddress) (d : EgressDecision)
    → pin url rs ≡ allowed d
    → IsVetted url rs d
unfolding pin
pin-IsVetted url [] d h = cc
pin-IsVetted url (r ∷ rs) d h = elim (Option-cases (first_blocked (r ∷ rs))) [
  | inl free ↦ record {
    first = r;
    more = rs;
    resolution = refl;
    all_open = first_blocked-All (r ∷ rs) free;
    same_url = ground arith;
    address = ground arith;
    family = ground arith;
  }
  | inr (e, found) ↦ ground arith
]

pin_open :
    (url : Text) (r : ResolvedAddress) (rs : List ResolvedAddress)
    → All IsOpen (r ∷ rs)
    → pin url (r ∷ rs)
      ≡ allowed (record { url = url; pinned_address = r.address; family = r.family })
unfolding pin
pin_open url r rs h = rw (All-first_blocked (r ∷ rs) h, pin)

-- The whole condition under which a target passes.
pub record IsAllowed (parse_url : Text → Option Url) (url : Text) (options : EgressOptions)
    (d : EgressDecision) : Type 0 where
  pub parsed : Url
  pub is_url : parse_url url ≡ some parsed
  pub secure :
      (parsed.protocol ≡ https) ⊎ ((parsed.protocol ≡ http) × (options.allow_insecure ≡ true))
  pub resolved : List ResolvedAddress
  pub resolution : resolve options (strip_brackets parsed.hostname) ≡ some resolved
  pub vetted : IsVetted url resolved d

protocol_ok_iff :
    (b : Bool) (p : Protocol) → (protocol_ok b p ≡ true) ↔ ((p ≡ https) ⊎ ((p ≡ http) × (b ≡ true)))
unfolding protocol_ok
protocol_ok_iff b p = ground arith

module _ (parse_url : Text → Option Url) (url : Text) (options : EgressOptions) where
  decide-IsAllowed :
      (u : Url) (d : EgressDecision)
      → parse_url url ≡ some u
      → decide url options u ≡ allowed d
      → IsAllowed parse_url url options d
  unfolding decide
  decide-IsAllowed u d is_url h =
      elim (Bool-cases (protocol_ok options.allow_insecure u.protocol)) [
        | inl secure ↦ elim (Option-cases (resolve options (strip_brackets u.hostname))) [
          | inl missing ↦ ground arith
          | inr (rs, found) ↦ record {
            parsed = u;
            is_url = is_url;
            secure = (protocol_ok_iff options.allow_insecure u.protocol).0 secure;
            resolved = rs;
            resolution = found;
            vetted = pin-IsVetted url rs d (ground arith);
          }
        ]
        | inr insecure ↦ ground arith
      ]

  IsVetted-pin :
      (rs : List ResolvedAddress) (d : EgressDecision) → IsVetted url rs d → pin url rs ≡ allowed d
  IsVetted-pin rs d v = rw v.resolution (
      pin_open url v.first v.more (subst (All IsOpen) v.resolution v.all_open)
      ∙ ground (arith, v.same_url, v.address, v.family))

  IsAllowed-decide :
      (d : EgressDecision) (a : IsAllowed parse_url url options d)
      → decide url options a.parsed ≡ allowed d
  unfolding decide
  IsAllowed-decide d a =
      rw
        (
          (protocol_ok_iff options.allow_insecure a.parsed.protocol).1 a.secure,
          a.resolution,
          decide,
        )
        (IsVetted-pin a.resolved d a.vetted)

  -- A target is allowed with a decision exactly when the URL parses, its scheme is https (or http
  -- where insecure targets are allowed), its host is a literal or resolves through the lookup that
  -- was given, the resolution is not empty, every address in it is outside the blocked ranges, and
  -- the decision keeps the URL and pins the first address of that same resolution.
  pub assert_egress_allowed_iff :
      (d : EgressDecision)
      → (assert_egress_allowed parse_url url options ≡ allowed d)
        ↔ IsAllowed parse_url url options d
  unfolding assert_egress_allowed
  assert_egress_allowed_iff d = (
    λ h. elim (Option-cases (parse_url url)) [
      | inl bad ↦ ground arith
      | inr (u, good) ↦ decide-IsAllowed u d good (ground arith)
    ],
    λ a. rw (a.is_url, assert_egress_allowed) (IsAllowed-decide d a),
  )
