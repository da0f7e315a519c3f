-- ===== src/Redaction/Redact/Covered.antt =====
-- The spans that a redaction replaces, beside those that were detected and the placeholders that the text
-- holds already: cleanSpans behind withoutPlaceholderOverlaps.
use euroclaw.Redaction.Spans.{PiiSpan, sort_spans, in_text, pick_spans, clean_spans}
use euroclaw.Redaction.Spans.Cover.{LieApart, overlaps, All-insert_span, clean_spans-covers}
use euroclaw.Redaction.Redact.{Range, touches, without_overlaps}
use euroclaw.Prelude.{
  ℕ, ◌≡◌, refl, ◌⊎◌, inl, inr, Bool, true, false, List, [], ◌∷◌, arith, if◌then◌else◌, any, All,
  All-mono,
}

module _ {κ} (P : PiiSpan → Type κ) where
  All-sort_spans : (ss : List PiiSpan) → All P ss → All P (sort_spans ss)
  unfolding sort_spans
  All-sort_spans [] h = tt
  All-sort_spans (s ∷ ss) h = All-insert_span P s (sort_spans ss) h.0 (All-sort_spans ss h.1)

  All-pick_spans : (len last : ℕ) (ss : List PiiSpan) → All P ss → All P (pick_spans len last ss)
  unfolding pick_spans
  All-pick_spans len last [] h = tt
  All-pick_spans len last (s ∷ ss) h =
      ground (arith, All-pick_spans len last ss h.1, All-pick_spans len s.end ss h.1)

module _ (taken : List Range) where
  without_overlaps-untouched :
      (ss : List PiiSpan) → All (λ s. any (touches s) taken ≡ false) (without_overlaps taken ss)
  unfolding without_overlaps
  without_overlaps-untouched [] = tt
  without_overlaps-untouched (s ∷ ss) = ground (arith, without_overlaps-untouched ss)

  -- What holds of each span that is left, holds of every detected one that touches no placeholder.
  without_overlaps-rest :
      (P : PiiSpan → Type 0) (ss : List PiiSpan)
      → All P (without_overlaps taken ss)
      → All (λ s. P s ⊎ (any (touches s) taken ≡ true)) ss
  unfolding without_overlaps
  without_overlaps-rest P [] h = tt
  without_overlaps-rest P (s ∷ ss) h =
      rest_of (any (touches s) taken) refl (without_overlaps-rest P ss) h
    where
      rest_of :
          (b : Bool)
          → any (touches s) taken ≡ b
          → (All P (without_overlaps taken ss) → All (λ x. P x ⊎ (any (touches x) taken ≡ true)) ss)
          → All P (if b then without_overlaps taken ss else s ∷ without_overlaps taken ss)
          → All (λ x. P x ⊎ (any (touches x) taken ≡ true)) (s ∷ ss)
      rest_of true e more h = (inr e, more h)
      rest_of false e more h = (inl h.0, more h.1)

  -- The spans that a redaction replaces are non-empty, lie in the text, one behind the other, and touch no
  -- placeholder that the text holds already. Every detected span that lies in the text overlaps one of
  -- them or touches such a placeholder.
  pub clean_spans-without_overlaps :
      (len : ℕ) (detected : List PiiSpan)
      → LieApart len 0 (clean_spans len (without_overlaps taken detected))
        × All
            (λ k. any (touches k) taken ≡ false)
            (clean_spans len (without_overlaps taken detected))
        × All
            (λ s.
              in_text len s ≡ true
              → (any (overlaps s) (clean_spans len (without_overlaps taken detected)) ≡ true)
                ⊎ (any (touches s) taken ≡ true))
            detected
  unfolding clean_spans
  clean_spans-without_overlaps len detected =
      let (apart, covered) = clean_spans-covers len (without_overlaps taken detected) in
      (
        apart,
        All-pick_spans _ len 0 _ (All-sort_spans _ _ (without_overlaps-untouched detected)),
        All-mono _ _
            (λ s h inside. elim h [ inl met ↦ inl (met inside) | inr touching ↦ inr touching ])
            detected (without_overlaps-rest _ detected covered),
      )
