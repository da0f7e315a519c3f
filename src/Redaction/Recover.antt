-- ===== src/Redaction/Recover.antt =====
-- Rehydration with recovery: recoverFrame and rehydrateText of packages/foundation/core/src/redact.ts.
-- `lower` is toLowerCase, `is_space` the class `\s` of the platform's expressions, `resolve` the store's
-- resolve in the container at hand, the codebooks are their lists. A scan of the text by an expression
-- is a parameter: the matches that it gives.
pub mod Unanimous
pub mod Safe
pub mod Foreign
use euroclaw.Redaction.Mappings.{PiiKind}
use euroclaw.Redaction.Distance.{Text}
use euroclaw.Redaction.Repair.{
  text_eq, Codebook, codebook_for, kind_text, kinds, format_placeholder, repair_word, repair_kind,
  join, candidate_codes,
}
use euroclaw.Redaction.Redact.{drop, slice}
use euroclaw.Prelude.{
  ℕ, ◌+◌, Bool, true, false, ◌||◌, Option, none, some, List, [], ◌∷◌, ◌++◌, map, ◌==◌,
  if◌then◌else◌, length, any,
}

pub data Warning : Type 0 where
  recovered_placeholder refused_ambiguous : Warning

-- One match of the scan: where it starts, what it covers, and the two groups of the loose expression.
pub record Frame : Type 0 where
  pub start : ℕ
  pub whole : Text
  pub kind_raw : Text
  pub identity_raw : Text

abbrev pub is_separator : (ℕ → Bool) → ℕ → Bool
is_separator is_space c = is_space c || (c == 95 || c == 45)

abbrev pub flush : Text → List Text
flush [] = []
flush (c ∷ cs) = (c ∷ cs) ∷ []

-- `split(/[\s_-]+/).filter((word) => word.length > 0)`; `word` is what stands since the last separator
unfoldable pub split_words : (ℕ → Bool) → Text → (word : Text) → List Text
split_words sep [] word = flush word
split_words sep (c ∷ cs) word =
    (if sep c then flush word else []) ++ split_words sep cs (if sep c then [] else word ++ c ∷ [])

-- `piiKindValues.includes(kindLower)`, with the kind
unfoldable pub find_kind : Text → List PiiKind → Option PiiKind
find_kind k [] = none
find_kind k (x ∷ xs) = if text_eq (kind_text x) k then some x else find_kind k xs

unfoldable pub has_value : Text → List Text → Bool
has_value v [] = false
has_value v (x ∷ xs) = text_eq x v || has_value v xs

-- the Set `values`
abbrev pub add_value : Text → List Text → List Text
add_value v values = if has_value v values then values else values ++ v ∷ []

abbrev pub note_value : Option Text → List Text × Option Text → List Text × Option Text
note_value none s = s
note_value (some v) (values, recovered) = (add_value v values, some v)

-- The loop over the candidate codes, on `values` and `recovered`.
unfoldable pub resolve_codes :
    (Text → Option Text) → List Text → List Text × Option Text → List Text × Option Text
resolve_codes find [] s = s
resolve_codes find (c ∷ cs) s = resolve_codes find cs (note_value (find c) s)

-- Nothing was recovered, and nothing was said.
abbrev pub nothing : Option Text × List Warning
nothing = (none, [])

-- one value: recovered; several: refused
abbrev pub settle_values : List Text × Option Text → Option Text × List Warning
settle_values ([], recovered) = nothing
settle_values (v ∷ [], recovered) = (recovered, recovered_placeholder ∷ [])
settle_values (v ∷ x ∷ more, recovered) = (none, refused_ambiguous ∷ [])

abbrev pub is_empty : List Text → Bool
is_empty [] = true
is_empty (w ∷ ws) = false

abbrev pub or_text : Option Text → Text → Text
or_text none text = text
or_text (some found) text = found

module _ (lower : Text → Text) (is_space : ℕ → Bool) (name_book generic_book : Codebook)
    (resolve : Text → Option Text) where
  -- The candidates of each word against the codebook of the kind.
  abbrev pub slots_of : PiiKind → List Text → List (List Text)
  slots_of kind words =
      map (λ w. repair_word (lower w) (codebook_for name_book generic_book kind).list) words

  abbrev pub resolve_in : PiiKind → Option (List Text) → Option Text × List Warning
  resolve_in kind none = nothing
  resolve_in kind (some codes) =
      settle_values
        (resolve_codes (λ code. resolve (format_placeholder kind code)) codes ([], none))

  unfoldable pub repaired : Option PiiKind → List Text → Option Text × List Warning
  unfolding resolve_codes
  repaired none words = nothing
  repaired (some kind) words =
      if any is_empty (slots_of kind words)
      then nothing
      else resolve_in kind (candidate_codes (slots_of kind words))

  abbrev pub as_written : Option PiiKind → List Text → Option Text
  as_written none words = none
  as_written (some kind) words = resolve (format_placeholder kind (join words))

  -- `if (asIs !== null) return asIs`
  abbrev pub or_repaired : Option Text → Option Text × List Warning → Option Text × List Warning
  or_repaired (some found) rest = (some found, [])
  or_repaired none rest = rest

  unfoldable pub recover_words : Text → List Text → Option Text × List Warning
  unfolding repaired find_kind
  recover_words kind_raw [] = nothing
  recover_words kind_raw (w ∷ ws) =
      or_repaired (as_written (find_kind (lower kind_raw) kinds) (w ∷ ws))
        (repaired (repair_kind (lower kind_raw)) (w ∷ ws))

  unfoldable pub recover_frame : Text → Text → Option Text × List Warning
  unfolding recover_words split_words
  recover_frame kind_raw identity_raw =
      recover_words kind_raw (split_words (is_separator is_space) (lower identity_raw) [])

  -- what a match becomes: `exact ?? recovered ?? whole`
  abbrev pub rehydrate_frame : Frame → Text
  rehydrate_frame f = elim (resolve f.whole) [
    | some exact ↦ exact
    | none ↦ or_text (recover_frame f.kind_raw f.identity_raw).0 f.whole
  ]

  -- `exact ?? whole` and `exact ?? recovered ?? whole`
  abbrev pub replaced : (recover : Bool) → Frame → Text
  replaced recover f = if recover then rehydrate_frame f else or_text (resolve f.whole) f.whole

  -- The loops of `rehydrateText`, on `out` and `last`; `recover` says which.
  unfoldable pub rehydrate_from :
      (recover : Bool) → Text → List Frame → (out : Text) → (last : ℕ) → Text
  unfolding recover_frame
  rehydrate_from recover text [] out last = out ++ drop last text
  rehydrate_from recover text (f ∷ fs) out last =
      rehydrate_from recover text fs (out ++ (slice last f.start text ++ replaced recover f))
        (f.start + length f.whole)

  -- `rehydrateText`; `scan` gives the matches of the exact and of the loose expression
  unfoldable pub rehydrate_text : (scan : Bool → Text → List Frame) → (recover : Bool) → Text → Text
  unfolding rehydrate_from
  rehydrate_text scan recover text = rehydrate_from recover text (scan recover text) [] 0
