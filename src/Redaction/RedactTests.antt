-- ===== src/Redaction/RedactTests.antt =====
-- A text in which one name stands twice, redacted with an index key.
use euroclaw.Base.Eff.{returned}
use euroclaw.Redaction.Distance.{Text}
use euroclaw.Redaction.Mappings.{
  PiiKind, PiiMapping, Mappings, Container, save, resolve, find_by_hash,
}
use euroclaw.Redaction.Spans.{PiiSpan, clean_spans}
use euroclaw.Redaction.Redact.{Draw, redact_text, without_overlaps, drop, place}
use euroclaw.Redaction.Redact.Resolved.{IsRedacted, redact_text-IsRedacted}
use euroclaw.Prelude.{String, ◌≡◌, refl, inl, inr, Bool, true, Option, some, [], ◌∷◌, arith}

-- "Ann, Ann"
abbrev text : Text
text = 65 ∷ 110 ∷ 110 ∷ 44 ∷ 32 ∷ 65 ∷ 110 ∷ 110 ∷ []

abbrev first : PiiSpan
first = record { start = 0; end = 3; value = "Ann"; kind = PiiKind.name }

abbrev second : PiiSpan
second = record first { start = 5; end = 8 }

abbrev container : Container
container = record { scope = some "claw"; scope_id = some "c1" }

abbrev drawn : PiiSpan → Draw
drawn s = record { tries = "{{pii:name:ada-kim-lee}}" ∷ []; last = "{{pii:name:ada-kim-lee-may}}" }

-- the text of a string, as far as this run asks
abbrev units : String → Text
units s = 88 ∷ []

abbrev hash_of : PiiKind → String → Option String
hash_of k v = some v

abbrev any_mapping : PiiMapping → Bool
any_mapping m = true

abbrev empty : Mappings
empty = record { by_key = []; subject_to_keys = [] }

abbrev ann : PiiMapping
ann = record {
  placeholder = "{{pii:name:ada-kim-lee}}";
  original = "Ann";
  original_hash = some "Ann";
  kind = PiiKind.name;
  scope = some "claw";
  scope_id = some "c1";
  created_at = 7;
}

abbrev with_ann : Mappings
with_ann = record { by_key = ann ∷ []; subject_to_keys = [] }

redacts :
    redact_text units any_mapping hash_of drawn 7 container [] [] (second ∷ first ∷ []) text empty
    ≡ (returned (88 ∷ 44 ∷ 32 ∷ 88 ∷ []), with_ann)
unfolding redact_text without_overlaps find_by_hash save drop resolve
redacts = refl

redact_text-IsRedacted_example :
    IsRedacted units hash_of container text
      (clean_spans 8 (without_overlaps [] (second ∷ first ∷ [])))
      0
      (88 ∷ 44 ∷ 32 ∷ 88 ∷ [])
      empty
      with_ann
unfolding without_overlaps clean_spans resolve find_by_hash place save
redact_text-IsRedacted_example =
    redact_text-IsRedacted units any_mapping hash_of drawn 7 container []
      (λ k k' v v' h e e'. ground (arith, e, e')) [] (second ∷ first ∷ []) text
      (88 ∷ 44 ∷ 32 ∷ 88 ∷ []) empty with_ann (tt, tt) (inr (inl refl), (inl (ann, refl), tt))
      redacts
