-- ===== src/Redaction/Spans/Cover.antt =====
-- The spans that cleanSpans keeps, beside those it was given.
use mathlib.Core.Path.{subst}
use euroclaw.Redaction.Spans.{
  PiiSpan, sorts_before, insert_span, sort_spans, in_text, pick_spans, clean_spans,
}
use euroclaw.Prelude.{
  ℕ, ◌≤◌, ◌<◌, ◌≡◌, sym, ◌⊎◌, inl, inr, Bool, true, false, ◌&&◌, ◌||◌, List, [], ◌∷◌, arith, ltb,
  if◌then◌else◌, Bool-cases, any, All, All-mono, All-both,
}

-- Non-empty spans of the text, one behind the other from `last` on.
abbrev pub LieApart : ℕ → ℕ → List PiiSpan → Type 0
LieApart len last [] = Unit
LieApart len last (s ∷ ss) =
    (last ≤ s.start) × (s.start < s.end) × (s.end ≤ len) × LieApart len s.end ss

abbrev pub overlaps : PiiSpan → PiiSpan → Bool
overlaps s k = ltb s.start k.end && ltb k.start s.end

pick_spans-LieApart :
    (len last : ℕ) (ss : List PiiSpan) → LieApart len last (pick_spans len last ss)
unfolding pick_spans
pick_spans-LieApart len last [] = tt
pick_spans-LieApart len last (s ∷ ss) =
    ground (arith, pick_spans-LieApart len last ss, pick_spans-LieApart len s.end ss)

abbrev IsSorted : List PiiSpan → Type 0
IsSorted [] = Unit
IsSorted (s ∷ ss) = All (λ t. s.start ≤ t.start) ss × IsSorted ss

module _ {κ} (P : PiiSpan → Type κ) where
  pub All-insert_span :
      (s : PiiSpan) (ss : List PiiSpan) → P s → All P ss → All P (insert_span s ss)
  unfolding insert_span
  All-insert_span s [] h k = (h, tt)
  All-insert_span s (x ∷ xs) h k = ground (arith, All-insert_span s xs h k.1)

  All-of_branch :
      (b : Bool) (s x : PiiSpan) (xs rest : List PiiSpan)
      → (All P rest → P s × All P xs)
      → All P (if b then s ∷ x ∷ xs else x ∷ rest)
      → P s × All P (x ∷ xs)
  All-of_branch true s x xs rest apart h = h
  All-of_branch false s x xs rest apart h = let (here, more) = apart h.1 in (here, (h.0, more))

  All-of_insert_span : (s : PiiSpan) (ss : List PiiSpan) → All P (insert_span s ss) → P s × All P ss
  unfolding insert_span
  All-of_insert_span s [] h = h
  All-of_insert_span s (x ∷ xs) h =
      All-of_branch (sorts_before s x) s x xs (insert_span s xs) (All-of_insert_span s xs) h

  All-of_sort_spans : (ss : List PiiSpan) → All P (sort_spans ss) → All P ss
  unfolding sort_spans
  All-of_sort_spans [] h = tt
  All-of_sort_spans (s ∷ ss) h =
      let (here, rest) = All-of_insert_span s (sort_spans ss) h in (here, All-of_sort_spans ss rest)

bound_mono :
    (s x : PiiSpan) → s.start ≤ x.start → (t : PiiSpan) → x.start ≤ t.start → s.start ≤ t.start
bound_mono s x le t h = omega (arith, le, h)

IsSorted-insert_span : (s : PiiSpan) (ss : List PiiSpan) → IsSorted ss → IsSorted (insert_span s ss)
unfolding insert_span
IsSorted-insert_span s [] h = (tt, tt)
IsSorted-insert_span s (x ∷ xs) h = elim (Bool-cases (sorts_before s x)) [
  | inl before ↦
      let le : s.start ≤ x.start = ground (arith, before) in
      rw before ((le, All-mono _ _ (bound_mono s x le) xs h.0), h)
  | inr behind ↦
      let le : x.start ≤ s.start = ground (arith, behind) in
      rw behind (All-insert_span _ s xs le h.0, IsSorted-insert_span s xs h.1)
]

IsSorted-sort_spans : (ss : List PiiSpan) → IsSorted (sort_spans ss)
unfolding sort_spans
IsSorted-sort_spans [] = tt
IsSorted-sort_spans (s ∷ ss) = IsSorted-insert_span s (sort_spans ss) (IsSorted-sort_spans ss)

-- Met by a kept span, or by the one kept before that ends at `last`.
abbrev IsMet : ℕ → ℕ → List PiiSpan → PiiSpan → Type 0
IsMet len last kept s = in_text len s ≡ true → (ltb s.start last || any (overlaps s) kept) ≡ true

IsMet-behind :
    (len last : ℕ) (s : PiiSpan) (kept : List PiiSpan) (t : PiiSpan)
    → IsMet len s.end kept t × (s.start ≤ t.start)
    → IsMet len last (s ∷ kept) t
IsMet-behind len last s kept t h inside = ground (arith, h.0 inside, h.1)

pick_spans-cases :
    (len last : ℕ) (s : PiiSpan) (ss : List PiiSpan)
    → ((ltb s.start last ≡ true) × (pick_spans len last (s ∷ ss) ≡ pick_spans len last ss))
      ⊎ (((in_text len s ≡ true) × (pick_spans len last (s ∷ ss) ≡ s ∷ pick_spans len s.end ss))
          ⊎ ((in_text len s ≡ false) × (pick_spans len last (s ∷ ss) ≡ pick_spans len last ss)))
unfolding pick_spans
pick_spans-cases len last s ss = ground arith

pick_spans-IsMet :
    (len last : ℕ) (ss : List PiiSpan)
    → IsSorted ss
    → All (IsMet len last (pick_spans len last ss)) ss
pick_spans-IsMet len last [] h = tt
pick_spans-IsMet len last (s ∷ ss) h =
    let all_met : List PiiSpan → Type 0 = λ kept. All (IsMet len last kept) (s ∷ ss) in
    elim (pick_spans-cases len last s ss) [
      | inl (early, is) ↦
          subst all_met (sym is) ((λ i. ground (arith, early)), pick_spans-IsMet len last ss h.1)
      | inr (inl (inside, is)) ↦ subst all_met (sym is) (
        (λ i. ground (arith, inside)),
        All-mono _ _ (IsMet-behind len last s (pick_spans len s.end ss)) ss
            (All-both _ _ ss (pick_spans-IsMet len s.end ss h.1) h.0),
      )
      | inr (inr (outside, is)) ↦
          subst all_met (sym is)
            ((λ i. ground (arith, outside, i)), pick_spans-IsMet len last ss h.1)
    ]

drop_zero :
    (len : ℕ) (kept : List PiiSpan) (s : PiiSpan)
    → IsMet len 0 kept s
    → in_text len s ≡ true
    → any (overlaps s) kept ≡ true
drop_zero len kept s h inside = ground (arith, h inside)

-- The spans that `cleanSpans` keeps are non-empty, lie in the text, one behind the other, and every span
-- it was given that lies in the text overlaps one of them.
pub clean_spans-covers :
    (len : ℕ) (spans : List PiiSpan)
    → LieApart len 0 (clean_spans len spans)
      × All (λ s. in_text len s ≡ true → any (overlaps s) (clean_spans len spans) ≡ true) spans
unfolding clean_spans
clean_spans-covers len spans = (
  pick_spans-LieApart len 0 (sort_spans spans),
  All-of_sort_spans _ spans (
      All-mono _ _ (drop_zero len (pick_spans len 0 (sort_spans spans))) _
        (pick_spans-IsMet len 0 (sort_spans spans) (IsSorted-sort_spans spans))),
)
