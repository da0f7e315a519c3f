-- ===== src/Redaction/Spans.antt =====
-- The spans that a redaction replaces: cleanSpans and composeDetectors of
-- packages/foundation/core/src/redact.ts. Offsets are natural numbers, so that the test
-- `span.start < 0` never holds; the sort is stable.
pub mod Cover
use euroclaw.Redaction.Mappings.{PiiKind}
use euroclaw.Prelude.{
  ℕ, ◌+◌, String, Bool, not, ◌&&◌, List, [], ◌∷◌, ◌++◌, ltb, leb, ◌==◌, if◌then◌else◌,
}

pub record PiiSpan : Type 0 where
  pub start : ℕ
  pub end : ℕ
  pub value : String
  pub kind : PiiKind

-- `(a, b) => a.start - b.start || b.end - a.end`: `a` is not behind `b`
abbrev pub sorts_before : PiiSpan → PiiSpan → Bool
sorts_before a b = if a.start == b.start then leb b.end a.end else ltb a.start b.start

unfoldable pub insert_span : PiiSpan → List PiiSpan → List PiiSpan
insert_span s [] = s ∷ []
insert_span s (x ∷ xs) = if sorts_before s x then s ∷ x ∷ xs else x ∷ insert_span s xs

unfoldable pub sort_spans : List PiiSpan → List PiiSpan
unfolding insert_span
sort_spans [] = []
sort_spans (s ∷ ss) = insert_span s (sort_spans ss)

-- a span that lies in the text and is not empty
abbrev pub in_text : ℕ → PiiSpan → Bool
in_text len s = not (ltb len s.end) && not (leb s.end s.start)

-- the loop over the sorted spans, with `lastEnd`
unfoldable pub pick_spans : ℕ → ℕ → List PiiSpan → List PiiSpan
pick_spans len last [] = []
pick_spans len last (s ∷ ss) =
    let skip = pick_spans len last ss in
    let keep = s ∷ pick_spans len s.end ss in
    if ltb s.start last then skip else (if in_text len s then keep else skip)

unfoldable pub clean_spans : ℕ → List PiiSpan → List PiiSpan
unfolding sort_spans pick_spans
clean_spans len spans = pick_spans len 0 (sort_spans spans)

-- `composeDetectors`: all spans of all detectors, in their order
unfoldable pub compose_detectors :
    {Text : Type 0} → List (Text → List PiiSpan) → Text → List PiiSpan
compose_detectors [] text = []
compose_detectors (d ∷ ds) text = d text ++ compose_detectors ds text
