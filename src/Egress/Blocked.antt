-- ===== src/Egress/Blocked.antt =====
-- The blocked ranges, of packages/foundation/egress/src/index.ts: `blockedIPv4`, `blockedIPv6`,
-- `embeddedIPv4` and `blockedAddressReason`.
pub mod Ranges
pub mod Mapped
use euroclaw.Prelude.{
  [], ℕ, zero, suc, ◌*◌, ◌/◌, ◌%◌, Bool, true, false, not, ◌&&◌, ◌||◌, Option, none, some, List,
  ◌∷◌, ltb, leb, ◌==◌, if◌then◌else◌, all,
}
use euroclaw.Egress.Ip.{Text, V4, parse_ipv4, expand_ipv6}

pub data Reason : Type 0 where
  unspecified_v4 private_10 loopback_v4 link_local_v4 private_172 private_192 cgnat broadcast :
      Reason
  unspecified_v6 loopback_v6 link_local_v6 unique_local_v6 unparseable : Reason

unfoldable pub blocked_ipv4 : V4 → Option Reason
blocked_ipv4 v =
    if v.a == 0
    then some unspecified_v4
    else if v.a == 10
    then some private_10
    else if v.a == 127
    then some loopback_v4
    else if v.a == 169 && v.b == 254
    then some link_local_v4
    else if v.a == 172 && (leb 16 v.b && leb v.b 31)
    then some private_172
    else if v.a == 192 && v.b == 168
    then some private_192
    else if v.a == 100 && (leb 64 v.b && leb v.b 127)
    then some cgnat
    else if v.a == 255 && v.b == 255
    then some broadcast
    else none

-- `groups[i] ?? 0`
abbrev pub group_at : List ℕ → ℕ → ℕ
group_at [] i = 0
group_at (g ∷ gs) zero = g
group_at (g ∷ gs) (suc i) = group_at gs i

-- `groups[i] === v`
abbrev pub at_is : List ℕ → ℕ → ℕ → Bool
at_is [] i v = false
at_is (g ∷ gs) zero v = g == v
at_is (g ∷ gs) (suc i) v = at_is gs i v

-- `(g >> 8) & 0xff` and `g & 0xff`
pub embedded_ipv4 : List ℕ → V4
embedded_ipv4 groups = record {
  a = group_at groups 6 / 256 % 256;
  b = group_at groups 6 % 256;
  c = group_at groups 7 / 256 % 256;
  d = group_at groups 7 % 256;
}

-- `groups.slice(0, n).every((group) => group === 0)`
zero_prefix : ℕ → List ℕ → Bool
zero_prefix zero groups = true
zero_prefix (suc n) [] = true
zero_prefix (suc n) (g ∷ gs) = g == 0 && zero_prefix n gs

-- `g & 0xffc0` keeps the multiple of 64 below a 16-bit group, `g & 0xfe00` that of 512.
unfoldable pub blocked_ipv6 : List ℕ → Option Reason
unfolding embedded_ipv4 zero_prefix
blocked_ipv6 groups =
    let g0 = group_at groups 0 in
    let high_zero = zero_prefix 5 groups in
    if high_zero && at_is groups 5 0xffff
    then blocked_ipv4 (embedded_ipv4 groups)
    else if high_zero && (at_is groups 5 0 && (not (at_is groups 6 0) || ltb 1 (group_at groups 7)))
    then blocked_ipv4 (embedded_ipv4 groups)
    else if all (λ g. g == 0) groups
    then some unspecified_v6
    else if zero_prefix 7 groups && at_is groups 7 1
    then some loopback_v6
    else if g0 / 64 * 64 == 0xfe80
    then some link_local_v6
    else if g0 / 512 * 512 == 0xfc00
    then some unique_local_v6
    else none

-- An address that cannot be parsed is blocked.
unfoldable pub blocked_address_reason : Text → Option Reason
blocked_address_reason address = elim (parse_ipv4 address) [
  | some v4 ↦ blocked_ipv4 v4
  | none ↦ elim (expand_ipv6 address) [ some v6 ↦ blocked_ipv6 v6 | none ↦ some unparseable ]
]
