-- ===== src/Egress/Ip/Print.antt =====
-- The dotted form of an IPv4 address, and its reading back.
use euroclaw.Egress.Ip.{Text, V4, split, parse_octet, parse_ipv4}
use euroclaw.Egress.Blocked.Ranges.{IsOctets}
use euroclaw.Prelude.{
  [], ℕ, ◌+◌, ◌/◌, ◌%◌, ◌<◌, ◌≡◌, refl, ◌≢◌, some, ◌∷◌, ◌++◌, arith, ltb, if◌then◌else◌, All,
}

-- Decimal digits with no leading zero, for a number below 1000.
pub print_octet : ℕ → Text
print_octet n =
    if ltb n 10
    then (n + b'0') ∷ []
    else if ltb n 100
    then (n / 10 + b'0') ∷ (n % 10 + b'0') ∷ []
    else (n / 100 + b'0') ∷ (n / 10 % 10 + b'0') ∷ (n % 10 + b'0') ∷ []

pub print_ipv4 : V4 → Text
print_ipv4 v =
    print_octet v.a
    ++ (b'.' ∷ (print_octet v.b ++ (b'.' ∷ (print_octet v.c ++ (b'.' ∷ print_octet v.d)))))

parse_octet-print_octet : (n : ℕ) → n < 256 → parse_octet (print_octet n) ≡ some n
unfolding parse_octet print_octet
parse_octet-print_octet n h = ground arith

abbrev pub IsFree : ℕ → Text → Type 0
IsFree sep = All (λ c. c ≢ sep)

pub split-append :
    (sep : ℕ) (s t : Text) → IsFree sep s → split sep (s ++ (sep ∷ t)) ≡ s ∷ split sep t
unfolding split
split-append sep [] t h = ground arith
split-append sep (c ∷ s) t h = ground (arith, split-append sep s t h.1)

pub split_free : (sep : ℕ) (s : Text) → IsFree sep s → split sep s ≡ s ∷ []
unfolding split
split_free sep [] h = refl
split_free sep (c ∷ s) h = ground (arith, split_free sep s h.1)

print_octet-IsFree : (n : ℕ) → n < 256 → IsFree b'.' (print_octet n)
unfolding print_octet
print_octet-IsFree n h = ground arith

split-print_ipv4 :
    (v : V4)
    → IsOctets v
    → split b'.' (print_ipv4 v)
      ≡ print_octet v.a ∷ print_octet v.b ∷ print_octet v.c ∷ print_octet v.d ∷ []
unfolding print_ipv4
split-print_ipv4 v h = rw (
  split-append b'.' (print_octet v.a) _ (print_octet-IsFree v.a h.a_lt),
  split-append b'.' (print_octet v.b) _ (print_octet-IsFree v.b h.b_lt),
  split-append b'.' (print_octet v.c) _ (print_octet-IsFree v.c h.c_lt),
  split_free b'.' (print_octet v.d) (print_octet-IsFree v.d h.d_lt),
)

-- An IPv4 address whose octets are below 256 reads back from its dotted decimal form unchanged.
pub parse_ipv4-print_ipv4 : (v : V4) → IsOctets v → parse_ipv4 (print_ipv4 v) ≡ some v
unfolding parse_ipv4
parse_ipv4-print_ipv4 v h = rw (
  split-print_ipv4 v h,
  parse_octet-print_octet v.a h.a_lt,
  parse_octet-print_octet v.b h.b_lt,
  parse_octet-print_octet v.c h.c_lt,
  parse_octet-print_octet v.d h.d_lt,
)
