-- ===== src/Redaction/Tests.antt =====
-- Two mappings of one subject, and spans of two detectors that overlap.
use euroclaw.Base.Eff.{returned}
use euroclaw.Redaction.Mappings.{
  PiiKind, PiiMapping, Mappings, key_of, save, resolve, note_subjects, note_subject, set_mapping,
  delete_for_subject,
}
use euroclaw.Redaction.Mappings.Erasure.{save_all, resolve-delete_for_subject}
use euroclaw.Redaction.Spans.{PiiSpan, in_text, clean_spans}
use euroclaw.Redaction.Spans.Cover.{LieApart, overlaps}
use euroclaw.Redaction.Redact.{Range, touches, without_overlaps}
use euroclaw.Redaction.Redact.Covered.{clean_spans-without_overlaps}
use euroclaw.Prelude.{◌≡◌, refl, ◌⊎◌, Bool, true, false, none, some, List, [], ◌∷◌, any, All}

abbrev anna : PiiMapping
anna = record {
  placeholder = "{{pii:name:ada-kim-lee}}";
  original = "Anna";
  original_hash = none;
  kind = PiiKind.name;
  scope = some "claw";
  scope_id = some "c1";
  created_at = 0;
}

abbrev phone : PiiMapping
phone = record anna {
  placeholder = "{{pii:phone:robin-oak}}";
  original = "555";
  kind = PiiKind.phone;
}

abbrev any_mapping : PiiMapping → Bool
any_mapping m = true

abbrev empty : Mappings
empty = record { by_key = []; subject_to_keys = [] }

abbrev with_anna : Mappings
with_anna = record { by_key = anna ∷ []; subject_to_keys = ("s1", key_of anna ∷ []) ∷ [] }

saves_anna : save any_mapping anna ("s1" ∷ []) empty ≡ (returned tt, with_anna)
unfolding save note_subjects note_subject set_mapping
saves_anna = refl

resolve-delete_for_subject_example :
    resolve "{{pii:name:ada-kim-lee}}"
      (record { scope = some "claw"; scope_id = some "c1" })
      (delete_for_subject "s1" (save_all any_mapping ((phone, "s2" ∷ "s1" ∷ []) ∷ []) with_anna))
    ≡ none
resolve-delete_for_subject_example =
    resolve-delete_for_subject any_mapping anna ("s1" ∷ []) empty with_anna "s1"
      ((phone, "s2" ∷ "s1" ∷ []) ∷ []) refl saves_anna

abbrev whole : PiiSpan
whole = record { start = 2; end = 9; value = "Anna 55"; kind = PiiKind.name }

abbrev part : PiiSpan
part = record { start = 4; end = 12; value = "na 555-1"; kind = PiiKind.phone }

-- A placeholder that stands behind the two spans, and a detected one inside it.
abbrev placeholder : Range
placeholder = record { start = 14; end = 18 }

abbrev inside : PiiSpan
inside = record part { start = 15; end = 17 }

abbrev kept : List PiiSpan
kept = clean_spans 20 (without_overlaps (placeholder ∷ []) (part ∷ whole ∷ inside ∷ []))

clean_spans-without_overlaps_example :
    LieApart 20 0 kept
    × All (λ k. any (touches k) (placeholder ∷ []) ≡ false) kept
    × All
        (λ s.
          in_text 20 s ≡ true
          → (any (overlaps s) kept ≡ true) ⊎ (any (touches s) (placeholder ∷ []) ≡ true))
        (part ∷ whole ∷ inside ∷ [])
clean_spans-without_overlaps_example =
    clean_spans-without_overlaps (placeholder ∷ []) 20 (part ∷ whole ∷ inside ∷ [])
