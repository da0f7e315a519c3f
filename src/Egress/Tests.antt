-- ===== src/Egress/Tests.antt =====
-- Runs of the network floor, and its theorems at concrete targets.
use euroclaw.Egress.Ip.{Text, V4, parse_ipv4, expand_ipv6}
use euroclaw.Egress.Ip.Groups.{IsExpanded, expand_ipv6-IsExpanded}
use euroclaw.Egress.Ip.Print.{print_ipv4, parse_ipv4-print_ipv4}
use euroclaw.Egress.Blocked.{blocked_ipv4, blocked_ipv6, blocked_address_reason, loopback_v4}
use euroclaw.Egress.Blocked.Ranges.{IsOctets, Inside, address, blocked_blocks, blocked_ipv4_iff}
use euroclaw.Egress.Blocked.Mapped.{mapped, blocked_ipv6-mapped, blocked_ipv6_iff}
use euroclaw.Egress.Assert.{
  Url, https, EgressOptions, EgressDecision, assert_egress_allowed, allowed,
}
use euroclaw.Egress.Assert.Laws.{IsAllowed, assert_egress_allowed_iff}
use euroclaw.Prelude.{[], ◌≤◌, ◌<◌, ◌≡◌, refl, ◌↔◌, ◌⊎◌, false, Option, none, some, ◌∷◌, arith, All}

-- "10.1.2.3"
abbrev ten : V4
ten = record { a = 10; b = 1; c = 2; d = 3 }

abbrev ten-IsOctets : IsOctets ten
ten-IsOctets = omega arith

-- "::ffff:127.0.0.1"
abbrev mapped_text : Text
mapped_text =
    b':' ∷ b':' ∷ b'f' ∷ b'f' ∷ b'f' ∷ b'f' ∷ b':' ∷ b'1' ∷ b'2' ∷ b'7' ∷ b'.' ∷ b'0' ∷ b'.' ∷ b'0'
    ∷ b'.' ∷ b'1' ∷ []

mapped_loopback : blocked_address_reason mapped_text ≡ some loopback_v4
unfolding blocked_address_reason parse_ipv4 expand_ipv6 blocked_ipv6 blocked_ipv4
mapped_loopback = refl

-- "93.184.216.34"
abbrev example_address : Text
example_address =
    b'9' ∷ b'3' ∷ b'.' ∷ b'1' ∷ b'8' ∷ b'4' ∷ b'.' ∷ b'2' ∷ b'1' ∷ b'6' ∷ b'.' ∷ b'3' ∷ b'4' ∷ []

abbrev parse_all : Text → Option Url
parse_all t = some (record { protocol = https; hostname = t })

abbrev strict : EgressOptions
strict = record { allow_insecure = false; lookup = none }

abbrev pinned : EgressDecision
pinned = record { url = example_address; pinned_address = example_address; family = 4 }

literal_allowed : assert_egress_allowed parse_all example_address strict ≡ allowed pinned
unfolding assert_egress_allowed euroclaw.Egress.Ip.ip_kind blocked_address_reason parse_ipv4
    expand_ipv6 blocked_ipv4
literal_allowed = refl

assert_egress_allowed_iff_example :
    (assert_egress_allowed parse_all example_address strict ≡ allowed pinned)
    ↔ IsAllowed parse_all example_address strict pinned
assert_egress_allowed_iff_example =
    assert_egress_allowed_iff parse_all example_address strict pinned

blocked_ipv4_iff_example :
    (blocked_ipv4 ten ≡ none) ↔ All (λ k. ¬ (Inside (address ten) k)) blocked_blocks
blocked_ipv4_iff_example = blocked_ipv4_iff ten ten-IsOctets

blocked_ipv6-mapped_example : blocked_ipv6 (mapped ten) ≡ blocked_ipv4 ten
blocked_ipv6-mapped_example = blocked_ipv6-mapped ten ten-IsOctets

blocked_ipv6_iff_example :
    (blocked_ipv6 (0xfe80 ∷ 0 ∷ 0 ∷ 0 ∷ 0 ∷ 0 ∷ 0 ∷ 1 ∷ []) ≡ none)
    ↔ (((0xfe80 < 0xfe80) ⊎ (0xfec0 ≤ 0xfe80)) × ((0xfe80 < 0xfc00) ⊎ (0xfe00 ≤ 0xfe80)))
blocked_ipv6_iff_example = blocked_ipv6_iff 0xfe80 0 0 0 0 0 0 1 (omega arith)

expand_mapped : expand_ipv6 mapped_text ≡ some (0 ∷ 0 ∷ 0 ∷ 0 ∷ 0 ∷ 0xffff ∷ 0x7f00 ∷ 1 ∷ [])
unfolding expand_ipv6
expand_mapped = refl

expand_ipv6-IsExpanded_example : IsExpanded (0 ∷ 0 ∷ 0 ∷ 0 ∷ 0 ∷ 0xffff ∷ 0x7f00 ∷ 1 ∷ [])
expand_ipv6-IsExpanded_example = expand_ipv6-IsExpanded mapped_text _ expand_mapped

parse_ipv4-print_ipv4_example : parse_ipv4 (print_ipv4 ten) ≡ some ten
parse_ipv4-print_ipv4_example = parse_ipv4-print_ipv4 ten ten-IsOctets
