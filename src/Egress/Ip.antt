-- ===== src/Egress/Ip.antt =====
-- Address literals, of packages/foundation/egress/src/index.ts: `parseIPv4`, `expandIPv6` and
-- `ipKind`. A text is the list of its UTF-16 units.
pub mod Groups
pub mod Print
use euroclaw.Prelude.{
  ◌>>=◌, [], ℕ, ◌+◌, ◌-◌, ◌*◌, Bool, true, false, ◌&&◌, Option, none, some, List, ◌∷◌, ◌++◌, ltb,
  leb, ◌==◌, if◌then◌else◌, length, replicate, any, all,
}

abbrev pub Text : Type 0
Text = List ℕ

abbrev pub push_head : ℕ → List Text → List Text
push_head c [] = (c ∷ []) ∷ []
push_head c (p ∷ ps) = (c ∷ p) ∷ ps

-- `text.split(sep)` at a separator of one unit
unfoldable pub split : ℕ → Text → List Text
split sep [] = [] ∷ []
split sep (c ∷ cs) = let rest = split sep cs in if c == sep then [] ∷ rest else push_head c rest

-- `text.split("::")`; the flag says that the unit before was a colon which is not yet placed
split_pairs : Bool → Text → List Text
split_pairs false [] = [] ∷ []
split_pairs true [] = push_head b':' ([] ∷ [])
split_pairs false (c ∷ cs) = elim (c == b':') [
  | true ↦ split_pairs true cs
  | false ↦ push_head c (split_pairs false cs)
]
split_pairs true (c ∷ cs) = elim (c == b':') [
  | true ↦ [] ∷ split_pairs false cs
  | false ↦ push_head b':' (push_head c (split_pairs false cs))
]

is_digit : ℕ → Bool
is_digit c = leb b'0' c && leb c b'9'

decimal_from : ℕ → Text → ℕ
decimal_from n [] = n
decimal_from n (c ∷ cs) = decimal_from (n * 10 + (c - b'0')) cs

-- `/^\d{1,3}$/`, `Number(part)` and `value > 255`
unfoldable pub parse_octet : Text → Option ℕ
unfolding is_digit decimal_from
parse_octet part =
    if leb 1 (length part) && leb (length part) 3 && all is_digit part
    then (let value = decimal_from 0 part in if ltb 255 value then none else some value)
    else none

pub record V4 : Type 0 where
  pub a : ℕ
  pub b : ℕ
  pub c : ℕ
  pub d : ℕ

parse_parts : List Text → Option V4
parse_parts (p ∷ q ∷ r ∷ s ∷ []) = do
  a ← parse_octet p
  b ← parse_octet q
  c ← parse_octet r
  d ← parse_octet s
  some (record { a = a; b = b; c = c; d = d })
parse_parts _ = none

unfoldable pub parse_ipv4 : Text → Option V4
unfolding parse_parts
parse_ipv4 text = parse_parts (split b'.' text)

hex_value : ℕ → Option ℕ
hex_value c =
    if leb b'0' c && leb c b'9'
    then some (c - b'0')
    else if leb b'a' c && leb c b'f'
    then some (c - b'a' + 10)
    else if leb b'A' c && leb c b'F'
    then some (c - b'A' + 10)
    else none

hex_from : ℕ → Text → Option ℕ
hex_from n [] = some n
hex_from n (c ∷ cs) = do v ← hex_value c; hex_from (n * 16 + v) cs

-- `/^[0-9a-fA-F]{1,4}$/` and `Number.parseInt(token, 16)`
parse_group : Text → Option ℕ
unfolding hex_value hex_from
parse_group token = if leb 1 (length token) && leb (length token) 4 then hex_from 0 token else none

contains : ℕ → Text → Bool
contains c text = any (λ x. x == c) text

tail_groups : Text → Option (List ℕ)
tail_groups token = do v ← parse_ipv4 token; some ((v.a * 256 + v.b) ∷ (v.c * 256 + v.d) ∷ [])

-- A dotted tail fills two groups, and is taken only as the last token.
last_token : Text → List Text → Option (List ℕ)
last_token token [] = tail_groups token
last_token token (_ ∷ _) = none

-- the loop of `parseSide` over the tokens
parse_tokens : List Text → Option (List ℕ)
parse_tokens [] = some []
parse_tokens ([] ∷ more) = none
parse_tokens ((c ∷ cs) ∷ more) =
    let rest = parse_tokens more in
    if contains b'.' (c ∷ cs)
    then last_token (c ∷ cs) more
    else (do g ← parse_group (c ∷ cs); gs ← rest; some (g ∷ gs))

parse_side : Text → Option (List ℕ)
parse_side [] = some []
parse_side (c ∷ cs) = parse_tokens (split b':' (c ∷ cs))

-- `text.slice(0, text.indexOf("%"))`, or the whole text
cut_zone : Text → Text
cut_zone [] = []
cut_zone (c ∷ cs) = if c == b'%' then [] else c ∷ cut_zone cs

fill_gap : List ℕ → List ℕ → Option (List ℕ)
fill_gap head tail =
    if ltb (length head + length tail) 8
    then some (head ++ (replicate (8 - length head - length tail) 0 ++ tail))
    else none

expand_halves : List Text → Option (List ℕ)
expand_halves [] = none
expand_halves (h ∷ []) = do head ← parse_side h; if length head == 8 then some head else none
expand_halves (h ∷ t ∷ []) = do head ← parse_side h; tail ← parse_side t; fill_gap head tail
expand_halves (_ ∷ _ ∷ _ ∷ _) = none

unfoldable pub expand_ipv6 : Text → Option (List ℕ)
unfolding split split_pairs parse_octet parse_ipv4 parse_group contains tail_groups last_token
    parse_tokens parse_side cut_zone fill_gap expand_halves
expand_ipv6 input =
    let text = cut_zone input in
    if contains b':' text then expand_halves (split_pairs false text) else none

unfoldable pub ip_kind : Text → ℕ
ip_kind host = elim (parse_ipv4 host) [
  | some _ ↦ 4
  | none ↦ elim (expand_ipv6 host) [ some _ ↦ 6 | none ↦ 0 ]
]
