-- ===== src/Egress/Assert.antt =====
-- The decision on one outbound target: `assertEgressAllowed` of
-- packages/foundation/egress/src/index.ts. The URL parser of the platform and the injected DNS
-- lookup are parameters; a text is the list of its UTF-16 units.
pub mod Laws
use euroclaw.Prelude.{[], ℕ, Bool, true, false, Option, none, some, List, ◌∷◌, ◌==◌, if◌then◌else◌}
use euroclaw.Egress.Ip.{Text, ip_kind}
use euroclaw.Egress.Blocked.{Reason, blocked_address_reason}

pub data Protocol : Type 0 where
  https http : Protocol
  other : Text → Protocol

pub record Url : Type 0 where
  pub protocol : Protocol
  pub hostname : Text

pub record ResolvedAddress : Type 0 where
  pub address : Text
  pub family : ℕ

pub record EgressOptions : Type 0 where
  pub allow_insecure : Bool
  pub lookup : Option (Text → List ResolvedAddress)

pub record EgressDecision : Type 0 where
  pub url : Text
  pub pinned_address : Text
  pub family : ℕ

pub data EgressError : Type 0 where
  invalid_url only_https no_lookup did_not_resolve : EgressError
  disallowed : Text → Reason → EgressError

pub data Outcome : Type 0 where
  allowed : EgressDecision → Outcome
  blocked : EgressError → Outcome

unfoldable pub protocol_ok : Bool → Protocol → Bool
protocol_ok allow_insecure https = true
protocol_ok allow_insecure http = allow_insecure
protocol_ok allow_insecure (other p) = false

-- `hostname.replace(/^\[|\]$/g, "")`: one bracket off each end
drop_last_bracket : Text → Text
drop_last_bracket [] = []
drop_last_bracket (c ∷ []) = if c == b']' then [] else c ∷ []
drop_last_bracket (c ∷ d ∷ cs) = c ∷ drop_last_bracket (d ∷ cs)

unfoldable pub strip_brackets : Text → Text
unfolding drop_last_bracket
strip_brackets [] = []
strip_brackets (c ∷ cs) = if c == b'[' then drop_last_bracket cs else drop_last_bracket (c ∷ cs)

-- A literal is its own resolution; a name needs the lookup.
pub resolve : EgressOptions → Text → Option (List ResolvedAddress)
resolve options host =
    let literal = ip_kind host in
    if literal == 0
    then elim options.lookup [ none ↦ none | some lookup ↦ some (lookup host) ]
    else some (record { address = host; family = literal } ∷ [])

-- the loop over the resolved addresses: the first blocked one
unfoldable pub first_blocked : List ResolvedAddress → Option EgressError
first_blocked [] = none
first_blocked (r ∷ rs) = elim (blocked_address_reason r.address) [
  | some reason ↦ some (disallowed r.address reason)
  | none ↦ first_blocked rs
]

unfoldable pub pin : Text → List ResolvedAddress → Outcome
pin url [] = blocked did_not_resolve
pin url (first ∷ more) = elim (first_blocked (first ∷ more)) [
  | some e ↦ blocked e
  | none ↦ allowed (record { url = url; pinned_address = first.address; family = first.family })
]

decide : Text → EgressOptions → Url → Outcome
decide url options parsed =
    if protocol_ok options.allow_insecure parsed.protocol
    then elim (resolve options (strip_brackets parsed.hostname)) [
      | none ↦ blocked no_lookup
      | some resolved ↦ pin url resolved
    ]
    else blocked only_https

unfoldable pub assert_egress_allowed : (Text → Option Url) → Text → EgressOptions → Outcome
unfolding decide protocol_ok strip_brackets resolve first_blocked pin
assert_egress_allowed parse_url url options = elim (parse_url url) [
  | none ↦ blocked invalid_url
  | some parsed ↦ decide url options parsed
]
