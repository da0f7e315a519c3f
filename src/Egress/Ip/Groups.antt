-- ===== src/Egress/Ip/Groups.antt =====
-- What `expand_ipv6` returns.
use native.Mathlib.Nat.{pow-suc, lt_of_lt_of_le}
use mathlib.Core.Path.{subst}
use euroclaw.Prelude.{
  [], ℕ, zero, suc, ◌+◌, ◌-◌, ◌*◌, ◌^◌, ◌≤◌, ◌<◌, ◌≡◌, refl, inl, inr, Bool, true, false, ◌&&◌,
  Option, none, some, List, ◌∷◌, ◌++◌, arith, leb, if◌then◌else◌, Bool-cases, Option-cases,
  some_inj, >>=-eq-some, length, replicate, length-append, length-replicate, All, All-append,
  All-replicate,
}
use euroclaw.Egress.Ip.{
  Text, V4, parse_octet, parse_parts, parse_ipv4, hex_value, hex_from, parse_group, contains,
  parse_tokens, parse_side, fill_gap, expand_halves, expand_ipv6, split, split_pairs, cut_zone,
  tail_groups, last_token,
}

abbrev pub Below16 : ℕ → Type 0
Below16 g = g < 65536

parse_octet-lt : (part : Text) (n : ℕ) → parse_octet part ≡ some n → n < 256
unfolding parse_octet
parse_octet-lt part n h = ground arith

abbrev pub OctetsBelow : V4 → Type 0
OctetsBelow v = (v.a < 256) × (v.b < 256) × (v.c < 256) × (v.d < 256)

parse_parts-OctetsBelow : (ps : List Text) (v : V4) → parse_parts ps ≡ some v → OctetsBelow v
unfolding parse_parts
parse_parts-OctetsBelow (p ∷ q ∷ r ∷ s ∷ []) v h =
    ground (
      arith,
      parse_octet-lt p v.a,
      parse_octet-lt q v.b,
      parse_octet-lt r v.c,
      parse_octet-lt s v.d,
    )
parse_parts-OctetsBelow _ v h = cc

pub parse_ipv4-OctetsBelow : (text : Text) (v : V4) → parse_ipv4 text ≡ some v → OctetsBelow v
unfolding parse_ipv4
parse_ipv4-OctetsBelow text v h = parse_parts-OctetsBelow (split b'.' text) v h

hex_value-lt : (c n : ℕ) → hex_value c ≡ some n → n < 16
unfolding hex_value
hex_value-lt c n h = ground arith

hex_step : (n v m k : ℕ) → v < 16 → m < (n * 16 + v + 1) * 16 ^ k → m < (n + 1) * 16 ^ suc k
hex_step n v m k hv hm = rw pow-suc (grind arith)

hex_from-lt : (n : ℕ) (cs : Text) (m : ℕ) → hex_from n cs ≡ some m → m < (n + 1) * 16 ^ length cs
unfolding hex_from
hex_from-lt n [] m h = ground arith
hex_from-lt n (c ∷ cs) m h = elim (Option-cases (hex_value c)) [
  | inl bad ↦ ground arith
  | inr (v, got) ↦
      hex_step n v m (length cs) (hex_value-lt c v got)
        (hex_from-lt (n * 16 + v) cs m (ground arith))
]

guarded :
    (b : Bool) (o : Option ℕ) {n : ℕ} → (if b then o else none) ≡ some n → (b ≡ true) × (o ≡ some n)
guarded true o h = (refl, h)
guarded false o h = cc

pow_bound : (k : ℕ) → k ≤ 4 → (0 + 1) * 16 ^ k ≤ 65536
pow_bound zero h = omega arith
pow_bound (suc zero) h = omega arith
pow_bound (suc (suc zero)) h = omega arith
pow_bound (suc (suc (suc zero))) h = omega arith
pow_bound (suc (suc (suc (suc zero)))) h = omega arith
pow_bound (suc (suc (suc (suc (suc k))))) h = absurd (omega arith)

parse_group-lt : (token : Text) (n : ℕ) → parse_group token ≡ some n → n < 65536
unfolding parse_group
parse_group-lt token n h =
    let (small, e) = guarded (leb 1 (length token) && leb (length token) 4) (hex_from 0 token) h in
    lt_of_lt_of_le (hex_from-lt 0 token n e) (pow_bound (length token) (ground arith))

-- One dotted tail is two groups, any other token is one.
tail_groups-Below16 : (t : Text) (gs : List ℕ) → tail_groups t ≡ some gs → All Below16 gs
unfolding tail_groups
tail_groups-Below16 t gs h =
    let (v, got, e) = >>=-eq-some (parse_ipv4 t) _ h in
    let below = parse_ipv4-OctetsBelow t v got in
    subst (All Below16) (some_inj e) (omega arith, (omega arith, tt))

last_token-Below16 :
    (t : Text) (more : List Text) (gs : List ℕ) → last_token t more ≡ some gs → All Below16 gs
unfolding last_token
last_token-Below16 t [] gs h = tail_groups-Below16 t gs h
last_token-Below16 t (_ ∷ _) gs h = cc

parse_tokens-Below16 : (ts : List Text) (gs : List ℕ) → parse_tokens ts ≡ some gs → All Below16 gs
unfolding parse_tokens
parse_tokens-Below16 [] gs h = ground arith
parse_tokens-Below16 ([] ∷ more) gs h = cc
parse_tokens-Below16 ((c ∷ cs) ∷ more) gs h = elim (Bool-cases (contains b'.' (c ∷ cs))) [
  | inl dotted ↦ last_token-Below16 (c ∷ cs) more gs (rw (dotted, parse_tokens) at h)
  | inr plain ↦
      let (g, got, e) = >>=-eq-some (parse_group (c ∷ cs)) _ (rw (plain, parse_tokens) at h) in
      let (rest, later, e') = >>=-eq-some (parse_tokens more) _ e in
      subst (All Below16) (some_inj e')
        (parse_group-lt (c ∷ cs) g got, parse_tokens-Below16 more rest later)
]

parse_side-Below16 : (t : Text) (gs : List ℕ) → parse_side t ≡ some gs → All Below16 gs
unfolding parse_side
parse_side-Below16 [] gs h = ground arith
parse_side-Below16 (c ∷ cs) gs h = parse_tokens-Below16 _ gs h

abbrev pub IsExpanded : List ℕ → Type 0
IsExpanded gs = (length gs ≡ 8) × All Below16 gs

gap-Below16 :
    (h t : List ℕ) (n : ℕ) → All Below16 h → All Below16 t → All Below16 (h ++ (replicate n 0 ++ t))
gap-Below16 h t n p q =
    All-append Below16 h _ p
      (All-append Below16 (replicate n 0) t (All-replicate Below16 n 0 (omega arith)) q)

fill_gap-IsExpanded :
    (h t gs : List ℕ) → All Below16 h → All Below16 t → fill_gap h t ≡ some gs → IsExpanded gs
unfolding fill_gap
fill_gap-IsExpanded h t gs p q e = ground (
  arith,
  length-append h (replicate (8 - length h - length t) 0 ++ t),
  length-append (replicate (8 - length h - length t) 0) t,
  length-replicate {A = ℕ} (8 - length h - length t) 0,
  gap-Below16 h t (8 - length h - length t) p q,
)

expand_halves-IsExpanded :
    (hs : List Text) (gs : List ℕ) → expand_halves hs ≡ some gs → IsExpanded gs
unfolding expand_halves
expand_halves-IsExpanded [] gs e = cc
expand_halves-IsExpanded (h ∷ []) gs e = ground (arith, parse_side-Below16 h gs)
expand_halves-IsExpanded (h ∷ t ∷ []) gs e =
    let (hd, got, e') = >>=-eq-some (parse_side h) _ e in
    let (tl, got', e'') = >>=-eq-some (parse_side t) _ e' in
    fill_gap-IsExpanded hd tl gs (parse_side-Below16 h hd got) (parse_side-Below16 t tl got') e''
expand_halves-IsExpanded (_ ∷ _ ∷ _ ∷ _) gs e = cc

-- Whatever text is accepted as an IPv6 literal, with or without `::`, a zone or a dotted tail, it
-- expands to exactly eight groups, each below 2^16.
pub expand_ipv6-IsExpanded :
    (text : Text) (gs : List ℕ) → expand_ipv6 text ≡ some gs → IsExpanded gs
unfolding expand_ipv6
expand_ipv6-IsExpanded text gs e =
    ground (arith, expand_halves-IsExpanded (split_pairs false (cut_zone text)) gs)
