-- ===== src/Egress/Blocked/Ranges.antt =====
-- The blocked IPv4 ranges, stated on the 32-bit address rather than on the octets.
use euroclaw.Prelude.{[], ℕ, ◌+◌, ◌-◌, ◌*◌, ◌^◌, ◌≤◌, ◌<◌, ◌≡◌, ◌↔◌, none, List, ◌∷◌, arith, All}
use euroclaw.Egress.Ip.{V4}
use euroclaw.Egress.Blocked.{blocked_ipv4}

pub record IsOctets (v : V4) : Type 0 where
  pub a_lt : v.a < 256
  pub b_lt : v.b < 256
  pub c_lt : v.c < 256
  pub d_lt : v.d < 256

-- The address as one number, in network order.
abbrev pub address : V4 → ℕ
address v = v.a * 16777216 + v.b * 65536 + v.c * 256 + v.d

-- A CIDR block: its first address and its number of addresses.
pub record Block : Type 0 where
  pub first : ℕ
  pub size : ℕ

abbrev pub cidr : ℕ → ℕ → ℕ → Block
cidr a b bits = record { first = a * 16777216 + b * 65536; size = 2 ^ (32 - bits) }

abbrev pub Inside : ℕ → Block → Type 0
Inside n k = (k.first ≤ n) × (n < k.first + k.size)

-- The blocks that the floor names, in CIDR notation.
abbrev pub blocked_blocks : List Block
blocked_blocks =
    cidr 0 0 8
    ∷ cidr 10 0 8
    ∷ cidr 127 0 8
    ∷ cidr 169 254 16
    ∷ cidr 172 16 12
    ∷ cidr 192 168 16
    ∷ cidr 100 64 10
    ∷ cidr 255 255 16
    ∷ []

-- An IPv4 address whose octets are below 256 is let through exactly when, as a 32-bit number, it
-- lies outside every one of the eight blocks 0.0.0.0/8, 10.0.0.0/8, 127.0.0.0/8, 169.254.0.0/16,
-- 172.16.0.0/12, 192.168.0.0/16, 100.64.0.0/10 and 255.255.0.0/16.
pub blocked_ipv4_iff :
    (v : V4)
    → IsOctets v
    → (blocked_ipv4 v ≡ none) ↔ All (λ k. ¬ (Inside (address v) k)) blocked_blocks
unfolding blocked_ipv4
blocked_ipv4_iff v h = (λ e. ground arith, λ o. ground arith)
