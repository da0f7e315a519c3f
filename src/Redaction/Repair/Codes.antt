-- ===== src/Redaction/Repair/Codes.antt =====
-- `candidateCodes` against the product of its slots.
use mathlib.Core.List.{append-nil, append_assoc, map-append}
use euroclaw.Redaction.Distance.{Text}
use euroclaw.Redaction.Repair.{joined, join, push_combos, combine, candidate_codes, push_words}
use euroclaw.Prelude.{
  suc, ◌≤◌, ◌≡◌, refl, sym, ap, ◌∙◌, ◌≢◌, inl, inr, Option, none, some, List, [], ◌∷◌, ◌++◌, map,
  arith, ltb, leb, if◌then◌else◌, Bool-cases, ◌>>=◌, length, length-append, All,
}

abbrev Combos : Type 0
Combos = List (List Text)

with_each : List Text → Combos → Combos
with_each [] rest = []
with_each (w ∷ ws) rest = map (λ c. w ∷ c) rest ++ with_each ws rest

-- All ways to choose one word for each slot, in the order of the words.
unfoldable pub choices : List (List Text) → Combos
unfolding with_each
choices [] = [] ∷ []
choices (slot ∷ slots) = with_each slot (choices slots)

capped : Combos → Option Combos
capped l = if ltb 24 (length l) then none else some l

unfoldable snocs : List Text → List Text → Combos
snocs c [] = []
snocs c (w ∷ ws) = (c ++ w ∷ []) ∷ snocs c ws

unfoldable spread : Combos → List Text → Combos
unfolding snocs
spread [] slot = []
spread (c ∷ cs) slot = snocs c slot ++ spread cs slot

unfoldable expand : Combos → List (List Text) → Combos
unfolding spread
expand combos [] = combos
expand combos (slot ∷ slots) = expand (spread combos slot) slots

capped_small : (l : Combos) → length l ≤ 24 → capped l ≡ some l
unfolding capped
capped_small l h = ground arith

if-capped :
    (a l : Combos) (rest : Option Combos)
    → length a ≤ length l
    → (length a ≤ 24 → rest ≡ capped l)
    → (if ltb 24 (length a) then none else rest) ≡ capped l
unfolding capped
if-capped a l rest short fits = ground (arith, short, fits)

>>=-capped :
    (a l : Combos) (k : Combos → Option Combos)
    → length a ≤ length l
    → (length a ≤ 24 → k a ≡ capped l)
    → (capped a >>= k) ≡ capped l
unfolding capped
>>=-capped a l k short fits = elim (Bool-cases (ltb 24 (length a))) [
  | inl over ↦ ground (arith, over, short)
  | inr fine ↦ ground (arith, fine, fits (ground (arith, fine)))
]

length-append_le : (a b : Combos) → length a ≤ length (a ++ b)
length-append_le a b = omega (arith, length-append a b)

push_words-capped :
    (c ws : List Text) (next : Combos)
    → length next ≤ 24
    → push_words c ws next ≡ capped (next ++ snocs c ws)
unfolding push_words snocs
push_words-capped c [] next small = rw (append-nil next) (sym (capped_small next small))
push_words-capped c (w ∷ ws) next small =
    let pushed = next ++ (c ++ w ∷ []) ∷ [] in
    if-capped pushed (pushed ++ snocs c ws) (push_words c ws pushed)
      (length-append_le pushed (snocs c ws)) (push_words-capped c ws pushed)
    ∙ ap capped (append_assoc next ((c ++ w ∷ []) ∷ []) (snocs c ws))

push_combos-capped :
    (cs : Combos) (slot : List Text) (next : Combos)
    → length next ≤ 24
    → push_combos cs slot next ≡ capped (next ++ spread cs slot)
unfolding push_combos spread
push_combos-capped [] slot next small = rw (append-nil next) (sym (capped_small next small))
push_combos-capped (c ∷ cs) slot next small =
    let pushed = next ++ snocs c slot in
    ap (λ o. o >>= push_combos cs slot) (push_words-capped c slot next small)
    ∙ (>>=-capped pushed (pushed ++ spread cs slot) (push_combos cs slot)
          (length-append_le pushed (spread cs slot)) (push_combos-capped cs slot pushed)
        ∙ ap capped (append_assoc next (snocs c slot) (spread cs slot)))

-- A slot with a word in it loses no combination.
length-snocs : (c ws : List Text) → length (snocs c ws) ≡ length ws
unfolding snocs
length-snocs c [] = refl
length-snocs c (w ∷ ws) = ap suc (length-snocs c ws)

length-spread : (cs : Combos) (w : Text) (ws : List Text) → length cs ≤ length (spread cs (w ∷ ws))
unfolding spread
length-spread [] w ws = omega arith
length-spread (c ∷ cs) w ws = omega (
  arith,
  length-spread cs w ws,
  length-append (snocs c (w ∷ ws)) (spread cs (w ∷ ws)),
  length-snocs c (w ∷ ws),
)

abbrev pub HasWord : List Text → Type 0
HasWord ws = ws ≢ []

length-expand :
    (cs : Combos) (slots : List (List Text))
    → All HasWord slots
    → length cs ≤ length (expand cs slots)
unfolding expand
length-expand cs [] full = omega arith
length-expand cs ([] ∷ slots) full = absurd (full.0 refl)
length-expand cs ((w ∷ ws) ∷ slots) full =
    omega (arith, length-spread cs w ws, length-expand (spread cs (w ∷ ws)) slots full.1)

combine-capped :
    (cs : Combos) (slots : List (List Text))
    → All HasWord slots
    → length cs ≤ 24
    → combine cs slots ≡ capped (expand cs slots)
unfolding combine expand
combine-capped cs [] full small = sym (capped_small cs small)
combine-capped cs (slot ∷ slots) full small =
    ap (λ o. o >>= λ next. combine next slots) (push_combos-capped cs slot [] (omega arith))
    ∙ >>=-capped (spread cs slot) (expand (spread cs slot) slots) (λ next. combine next slots)
        (length-expand (spread cs slot) slots full.1) (combine-capped (spread cs slot) slots full.1)

after : Combos → Combos → Combos
after [] rest = []
after (c ∷ cs) rest = map (λ r. c ++ r) rest ++ after cs rest

after-append : (a b rest : Combos) → after (a ++ b) rest ≡ after a rest ++ after b rest
unfolding after
after-append [] b rest = refl
after-append (c ∷ cs) b rest =
    ap (λ l. map (λ r. c ++ r) rest ++ l) (after-append cs b rest)
    ∙ sym (append_assoc (map (λ r. c ++ r) rest) (after cs rest) (after b rest))

map_prefix :
    (c : List Text) (w : Text) (rest : Combos)
    → map (λ r. (c ++ w ∷ []) ++ r) rest ≡ map (λ r. c ++ r) (map (λ r. w ∷ r) rest)
map_prefix c w [] = refl
map_prefix c w (r ∷ rest) =
    ap (λ x. x ∷ map (λ r. (c ++ w ∷ []) ++ r) rest) (append_assoc c (w ∷ []) r)
    ∙ ap (λ l. (c ++ w ∷ r) ∷ l) (map_prefix c w rest)

after-snocs :
    (c ws : List Text) (rest : Combos)
    → after (snocs c ws) rest ≡ map (λ r. c ++ r) (with_each ws rest)
unfolding after snocs with_each
after-snocs c [] rest = refl
after-snocs c (w ∷ ws) rest =
    ap (λ l. l ++ after (snocs c ws) rest) (map_prefix c w rest)
    ∙ (ap (λ l. map (λ r. c ++ r) (map (λ r. w ∷ r) rest) ++ l) (after-snocs c ws rest)
        ∙ sym (map-append (λ r. c ++ r) (map (λ r. w ∷ r) rest) (with_each ws rest)))

after-spread :
    (cs : Combos) (slot : List Text) (rest : Combos)
    → after (spread cs slot) rest ≡ after cs (with_each slot rest)
unfolding after spread
after-spread [] slot rest = refl
after-spread (c ∷ cs) slot rest =
    after-append (snocs c slot) (spread cs slot) rest
    ∙ (ap (λ l. l ++ after (spread cs slot) rest) (after-snocs c slot rest)
        ∙ ap (λ l. map (λ r. c ++ r) (with_each slot rest) ++ l) (after-spread cs slot rest))

after-nil : (cs : Combos) → after cs ([] ∷ []) ≡ cs
unfolding after
after-nil [] = refl
after-nil (c ∷ cs) =
    ap (λ x. x ∷ after cs ([] ∷ [])) (append-nil c) ∙ ap (λ l. c ∷ l) (after-nil cs)

expand-choices :
    (cs : Combos) (slots : List (List Text)) → expand cs slots ≡ after cs (choices slots)
unfolding expand choices
expand-choices cs [] = sym (after-nil cs)
expand-choices cs (slot ∷ slots) =
    expand-choices (spread cs slot) slots ∙ after-spread cs slot (choices slots)

map_id : (l : Combos) → map (λ r. r) l ≡ l
map_id [] = refl
map_id (c ∷ cs) = ap (λ l. c ∷ l) (map_id cs)

-- Where every slot has a word, `candidateCodes` gives all choices of a word for each slot, joined, if
-- there are at most 24 of them, and refuses otherwise.
pub candidate_codes-choices :
    (slots : List (List Text))
    → All HasWord slots
    → candidate_codes slots
      ≡ (if leb (length (choices slots)) 24 then some (map join (choices slots)) else none)
unfolding candidate_codes after capped
candidate_codes-choices slots full =
    let same = expand-choices ([] ∷ []) slots ∙ (append-nil _ ∙ map_id (choices slots)) in
    ap joined (combine-capped ([] ∷ []) slots full (omega arith) ∙ ap capped same)
    ∙ decide (choices slots)
  where
    decide :
        (l : Combos) → joined (capped l) ≡ (if leb (length l) 24 then some (map join l) else none)
    decide l = ground arith
