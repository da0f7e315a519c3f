-- ===== src/Egress/Blocked/Mapped.antt =====
-- IPv4 addresses embedded in IPv6 ones, under `blockedIPv6`.
use euroclaw.Prelude.{[], ℕ, ◌+◌, ◌*◌, ◌≤◌, ◌<◌, ◌≡◌, refl, ◌↔◌, ◌⊎◌, none, List, ◌∷◌, arith}
use euroclaw.Egress.Ip.{V4}
use euroclaw.Egress.Blocked.{blocked_ipv4, blocked_ipv6, embedded_ipv4}
use euroclaw.Egress.Blocked.Ranges.{IsOctets}

-- The eight groups of `::ffff:a.b.c.d`.
abbrev pub mapped : V4 → List ℕ
mapped v = 0 ∷ 0 ∷ 0 ∷ 0 ∷ 0 ∷ 0xffff ∷ (v.a * 256 + v.b) ∷ (v.c * 256 + v.d) ∷ []

pub embedded_ipv4-mapped : (v : V4) → IsOctets v → embedded_ipv4 (mapped v) ≡ v
unfolding embedded_ipv4
embedded_ipv4-mapped v h = ground arith

blocked_ipv6-mapped_lem :
    (v : V4) → blocked_ipv6 (mapped v) ≡ blocked_ipv4 (embedded_ipv4 (mapped v))
unfolding blocked_ipv6 embedded_ipv4
blocked_ipv6-mapped_lem v = refl

-- The IPv4-mapped form of an address is blocked for the same reason as the address, or let through
-- with it, when the octets are below 256.
pub blocked_ipv6-mapped : (v : V4) → IsOctets v → blocked_ipv6 (mapped v) ≡ blocked_ipv4 v
blocked_ipv6-mapped v h = rw (blocked_ipv6-mapped_lem, embedded_ipv4-mapped v h)

-- An address whose first group is not zero, whatever its other seven groups, is let through
-- exactly when it lies outside fe80::/10 and outside fc00::/7.
pub blocked_ipv6_iff :
    (g0 g1 g2 g3 g4 g5 g6 g7 : ℕ)
    → 0 < g0
    → (blocked_ipv6 (g0 ∷ g1 ∷ g2 ∷ g3 ∷ g4 ∷ g5 ∷ g6 ∷ g7 ∷ []) ≡ none)
      ↔ (((g0 < 0xfe80) ⊎ (0xfec0 ≤ g0)) × ((g0 < 0xfc00) ⊎ (0xfe00 ≤ g0)))
unfolding blocked_ipv6
blocked_ipv6_iff g0 g1 g2 g3 g4 g5 g6 g7 h = (λ e. ground arith, λ o. ground arith)
