-- ===== src/Redaction/Repair.antt =====
-- The repair of a placeholder that a model has damaged: codebookFor, formatPlaceholder, repairWord,
-- repairKind, candidateCodes and recoverFrame of packages/foundation/core/src/redact.ts. `lower` is
-- toLowerCase, `is_space` the class `\s` of the platform's expressions, `resolve` the store's resolve in
-- the container at hand; the word lists are those of the codebooks.
pub mod Words
pub mod Kinds
pub mod Codes
use euroclaw.Redaction.Mappings.{PiiKind, email, phone, name, address, date, id, card, secret, url}
use euroclaw.Redaction.Distance.{Text, edit_distance}
use euroclaw.Prelude.{
  ℕ, suc, ◌+◌, Bool, true, false, ◌&&◌, ◌||◌, Option, none, some, List, [], ◌∷◌, ◌++◌, map, ltb,
  leb, ◌==◌, if◌then◌else◌, ◌>>=◌, length, take,
}

unfoldable pub text_eq : Text → Text → Bool
text_eq [] [] = true
text_eq (x ∷ a) (y ∷ b) = x == y && text_eq a b
text_eq _ _ = false

-- A codebook; `set` and `prefix` are made of its list.
pub record Codebook : Type 0 where
  pub list : List Text
  pub words : ℕ

abbrev pub codebook_for : (name_book generic_book : Codebook) → PiiKind → Codebook
codebook_for name_book generic_book kind = elim kind [ name ↦ name_book | _ ↦ generic_book ]

abbrev pub kind_text : PiiKind → Text
kind_text email = 101 ∷ 109 ∷ 97 ∷ 105 ∷ 108 ∷ []
kind_text phone = 112 ∷ 104 ∷ 111 ∷ 110 ∷ 101 ∷ []
kind_text name = 110 ∷ 97 ∷ 109 ∷ 101 ∷ []
kind_text address = 97 ∷ 100 ∷ 100 ∷ 114 ∷ 101 ∷ 115 ∷ 115 ∷ []
kind_text date = 100 ∷ 97 ∷ 116 ∷ 101 ∷ []
kind_text id = 105 ∷ 100 ∷ []
kind_text card = 99 ∷ 97 ∷ 114 ∷ 100 ∷ []
kind_text secret = 115 ∷ 101 ∷ 99 ∷ 114 ∷ 101 ∷ 116 ∷ []
kind_text url = 117 ∷ 114 ∷ 108 ∷ []

-- `piiKindValues`
abbrev pub kinds : List PiiKind
kinds = email ∷ phone ∷ name ∷ address ∷ date ∷ id ∷ card ∷ secret ∷ url ∷ []

abbrev pub format_placeholder : PiiKind → Text → Text
format_placeholder kind code =
    123 ∷ 123 ∷ 112 ∷ 105 ∷ 105 ∷ 58 ∷ (kind_text kind ++ 58 ∷ (code ++ 125 ∷ 125 ∷ []))

abbrev pub word_max_edits : ℕ
word_max_edits = 2

abbrev pub recover_max_candidates : ℕ
recover_max_candidates = 24

-- `book.set.has`
unfoldable pub has_word : Text → List Text → Bool
has_word w [] = false
has_word w (x ∷ xs) = text_eq x w || has_word w xs

-- `book.prefix.get`: the last word of the list with these first units
unfoldable pub by_prefix : Text → List Text → Option Text
unfolding text_eq
by_prefix p [] = none
by_prefix p (x ∷ xs) = elim (by_prefix p xs) [
  | some w ↦ some w
  | none ↦ if text_eq (take 4 x) p then some x else none
]

-- One round of the loop of `repairWord`, on `best` and `matches`.
unfoldable pub scan_word : Text → ℕ × List Text → Text → ℕ × List Text
scan_word w (best, matches) word =
    let d = edit_distance w word in
    if ltb d best
    then (d, word ∷ [])
    else (if d == best then (best, matches ++ word ∷ []) else (best, matches))

unfoldable pub scan_words : Text → ℕ × List Text → List Text → ℕ × List Text
unfolding scan_word
scan_words w s [] = s
scan_words w s (x ∷ xs) = scan_words w (scan_word w s x) xs

abbrev pub nearest_words : ℕ × List Text → List Text
nearest_words (best, matches) = if leb best word_max_edits then matches else []

abbrev pub within : Text → Option Text → Option Text
within w none = none
within w (some word) = if leb (edit_distance w word) word_max_edits then some word else none

-- `repairWord`, on the word in lower case
unfoldable pub repair_word : Text → List Text → List Text
unfolding has_word by_prefix scan_words
repair_word w list =
    if has_word w list then w ∷ [] else elim (within w (by_prefix (take 4 w) list)) [
      | some word ↦ word ∷ []
      | none ↦ nearest_words (scan_words w (suc word_max_edits, []) list)
    ]

-- One round of the loop of `repairKind`, on `best` and `match`.
unfoldable pub scan_kind : Text → ℕ × Option PiiKind → PiiKind → ℕ × Option PiiKind
scan_kind k (best, found) kind =
    let d = edit_distance k (kind_text kind) in
    if ltb d best then (d, some kind) else (if d == best then (best, none) else (best, found))

unfoldable pub scan_kinds : Text → ℕ × Option PiiKind → List PiiKind → ℕ × Option PiiKind
unfolding scan_kind
scan_kinds k s [] = s
scan_kinds k s (x ∷ xs) = scan_kinds k (scan_kind k s x) xs

-- `repairKind`, on the kind in lower case
unfoldable pub repair_kind : Text → Option PiiKind
unfolding scan_kinds
repair_kind k = (scan_kinds k (2, none) kinds).1

-- The inner loop of `candidateCodes`, over the words of a slot.
unfoldable pub push_words : List Text → List Text → List (List Text) → Option (List (List Text))
push_words combo [] next = some next
push_words combo (w ∷ ws) next =
    let pushed = next ++ (combo ++ w ∷ []) ∷ [] in
    let more = push_words combo ws pushed in
    if ltb recover_max_candidates (length pushed) then none else more

unfoldable pub push_combos :
    List (List Text) → List Text → List (List Text) → Option (List (List Text))
unfolding push_words
push_combos [] slot next = some next
push_combos (c ∷ cs) slot next = push_words c slot next >>= push_combos cs slot

unfoldable pub combine : List (List Text) → List (List Text) → Option (List (List Text))
unfolding push_combos
combine combos [] = some combos
combine combos (slot ∷ slots) = push_combos combos slot [] >>= λ next. combine next slots

-- `words.join("-")`
unfoldable pub join : List Text → Text
join [] = []
join (w ∷ []) = w
join (w ∷ x ∷ ws) = w ++ 45 ∷ join (x ∷ ws)

abbrev pub joined : Option (List (List Text)) → Option (List Text)
joined none = none
joined (some combos) = some (map join combos)

unfoldable pub candidate_codes : List (List Text) → Option (List Text)
unfolding combine join
candidate_codes per_slot = joined (combine ([] ∷ []) per_slot)
