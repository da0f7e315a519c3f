-- ===== src/Redaction/Redact.antt =====
-- The replacement of text by placeholders: redactText, mintPlaceholder and withoutPlaceholderOverlaps of
-- packages/foundation/core/src/redact.ts, over the memory store of mappings. `units` gives the UTF-16
-- units of a string, `hash_of` is the keyed hash of a value (none without an index key), `drawn` the
-- placeholders that mintPlaceholder draws for a span, `taken` the placeholders that the text holds
-- already, `subjects` the data subjects of the context.
pub mod Stored
pub mod Placed
pub mod Resolved
pub mod Covered
use euroclaw.Base.Eff.{Eff, returned, pure, ◌>>=◌}
use euroclaw.Redaction.Distance.{Text}
use euroclaw.Redaction.Mappings.{
  PiiKind, PiiMapping, Mappings, Container, save, resolve, find_by_hash,
}
use euroclaw.Redaction.Spans.{PiiSpan, clean_spans}
use euroclaw.Prelude.{
  ℕ, zero, suc, ◌+◌, ◌-◌, String, Bool, ◌&&◌, Option, none, some, List, [], ◌∷◌, ◌++◌, ltb,
  if◌then◌else◌, length, take, any,
}

-- What a span's draws come to: the word codes as placeholders, and the longer one behind them.
pub record Draw : Type 0 where
  pub tries : List String
  pub last : String

pub record Range : Type 0 where
  pub start : ℕ
  pub end : ℕ

abbrev pub touches : PiiSpan → Range → Bool
touches span range = ltb span.start range.end && ltb range.start span.end

unfoldable pub without_overlaps : List Range → List PiiSpan → List PiiSpan
without_overlaps taken [] = []
without_overlaps taken (s ∷ ss) =
    let rest = without_overlaps taken ss in if any (touches s) taken then rest else s ∷ rest

unfoldable pub drop : ℕ → Text → Text
drop zero text = text
drop (suc n) [] = []
drop (suc n) (c ∷ cs) = drop n cs

-- `text.slice(from, to)`
abbrev pub slice : ℕ → ℕ → Text → Text
slice from to text = take (to - from) (drop from text)

abbrev pub mint_tries : ℕ
mint_tries = 24

module _ (units : String → Text) (valid : PiiMapping → Bool)
    (hash_of : PiiKind → String → Option String) (drawn : PiiSpan → Draw) (now : ℕ) (c : Container)
    (subjects : List String) where
  -- the first draw that names nothing in the container
  unfoldable pub first_free : List String → (last : String) → Mappings → String
  first_free [] last store = last
  first_free (p ∷ ps) last store = elim (resolve p c store) [
    | none ↦ p
    | some taken ↦ first_free ps last store
  ]

  unfoldable pub mint_placeholder : PiiSpan → Mappings → String
  unfolding first_free
  mint_placeholder span store =
      first_free (take mint_tries (drawn span).tries) (drawn span).last store

  abbrev pub find_existing : Option String → Mappings → Option PiiMapping
  find_existing none store = none
  find_existing (some hash) store = find_by_hash hash c store.by_key

  abbrev pub new_mapping : PiiSpan → String → PiiMapping
  new_mapping span placeholder = record {
    placeholder = placeholder;
    original = span.value;
    original_hash = hash_of span.kind span.value;
    kind = span.kind;
    scope = c.scope;
    scope_id = c.scope_id;
    created_at = now;
  }

  abbrev pub add_subjects : List String → PiiMapping → Eff Mappings (Unit {0})
  add_subjects [] m store = (returned tt, store)
  add_subjects (s ∷ ss) m store = save valid m (s ∷ ss) store

  -- The placeholder of a span: that of a mapping with the same hash, or a new one.
  abbrev pub place_as : PiiSpan → Option PiiMapping → Eff Mappings String
  place_as span (some m) store = (add_subjects subjects m >>= λ _. pure m.placeholder) store
  place_as span none store =
      (save valid (new_mapping span (mint_placeholder span store)) subjects >>= λ _.
      pure (mint_placeholder span store))
        store

  unfoldable pub place : PiiSpan → Eff Mappings String
  unfolding mint_placeholder
  place span store = place_as span (find_existing (hash_of span.kind span.value) store) store

  -- The loop over the spans, on `out` and `last`.
  unfoldable pub redact_spans : Text → List PiiSpan → (out : Text) → (last : ℕ) → Eff Mappings Text
  unfolding place
  redact_spans text [] out last store = (returned (out ++ drop last text), store)
  redact_spans text (s ∷ ss) out last store =
      (place s >>= λ p. redact_spans text ss (out ++ (slice last s.start text ++ units p)) s.end)
        store

  unfoldable pub redact_text : List Range → List PiiSpan → Text → Eff Mappings Text
  unfolding redact_spans clean_spans
  redact_text taken detected text =
      redact_spans text (clean_spans (length text) (without_overlaps taken detected)) [] 0
