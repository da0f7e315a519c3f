-- ===== src/Redaction/Repair/Kinds.antt =====
-- `repairKind` against the kinds.
use mathlib.Core.Path.{subst}
use euroclaw.Redaction.Mappings.{PiiKind, email, phone, name, address, date, id, card, secret, url}
use euroclaw.Redaction.Distance.{Text, edit_distance}
use euroclaw.Redaction.Repair.{kind_text, kinds, scan_kind, scan_kinds, repair_kind}
use euroclaw.Prelude.{
  ℕ, ◌≤◌, ◌<◌, ◌≡◌, sym, ap, ◌⊎◌, inl, inr, Option, none, some, List, [], ◌∷◌, arith, ltb, ◌==◌,
  Bool-cases, some_inj, All, All-mono,
}

module _ (k : Text) where
  abbrev pub far_of : PiiKind → ℕ
  far_of kind = edit_distance k (kind_text kind)

  -- What the loop knows of the kinds it has seen.
  record IsScanned (s : ℕ × Option PiiKind) (seen : List PiiKind) : Type 0 where
    small : s.0 ≤ 2
    least : All (λ x. s.0 ≤ far_of x) seen
    only :
        (kind : PiiKind)
        → s.1 ≡ some kind
        → (far_of kind ≡ s.0) × ((s.0 < 2) × All (λ x. (x ≡ kind) ⊎ (s.0 < far_of x)) seen)

  scan_kind-cases :
      (P : ℕ × Option PiiKind → Type 0) (s : ℕ × Option PiiKind) (x : PiiKind)
      → (far_of x < s.0 → P (far_of x, some x))
      → (far_of x ≡ s.0 → P (s.0, none))
      → (s.0 < far_of x → P s)
      → P (scan_kind k s x)
  unfolding scan_kind
  scan_kind-cases P s x nearer ties farther = elim (Bool-cases (ltb (far_of x) s.0)) [
    | inl lt ↦ subst P (ground (arith, lt)) (nearer (ground (arith, lt)))
    | inr ge ↦ elim (Bool-cases (far_of x == s.0)) [
      | inl eq ↦ subst P (ground (arith, ge, eq)) (ties (ground (arith, eq)))
      | inr ne ↦ subst P (ground (arith, ge, ne)) (farther (ground (arith, ge, ne)))
    ]
  ]

  scan_kind-IsScanned :
      (s : ℕ × Option PiiKind) (seen : List PiiKind) (x : PiiKind)
      → IsScanned s seen
      → IsScanned (scan_kind k s x) (x ∷ seen)
  scan_kind-IsScanned s seen x h =
      scan_kind-cases (λ s'. IsScanned s' (x ∷ seen)) s x
        (λ lt. record {
          small = omega (arith, lt, h.small);
          least = (omega arith, All-mono _ _ (λ y (p : s.0 ≤ far_of y). lower lt p) seen h.least);
          only = λ kind e. (
            ap far_of (sym (some_inj e)),
            (
              omega (arith, lt, h.small),
              (
                inl (some_inj e),
                All-mono _ _ (λ y (p : s.0 ≤ far_of y). inr (below lt p)) seen h.least,
              ),
            ),
          );
        })
        (λ eq. record {
          small = h.small;
          least = (omega (arith, eq), h.least);
          only = λ kind e. absurd (none-ne e);
        })
        (λ gt. record {
          small = h.small;
          least = (omega (arith, gt), h.least);
          only = λ kind e. let (p, (q, r)) = h.only kind e in (p, (q, (inr gt, r)));
        })
    where
      lower : {a b c : ℕ} → a < b → b ≤ c → a ≤ c
      lower p q = omega arith

      below : {a b c : ℕ} → a < b → b ≤ c → a < c
      below p q = omega arith

      none-ne : {y : PiiKind} → none ≡ some y → ⊥
      none-ne e = ground arith

  -- `back seen xs`: what has been seen once `xs` is gone through
  back : List PiiKind → List PiiKind → List PiiKind
  back seen [] = seen
  back seen (x ∷ xs) = back (x ∷ seen) xs

  scan_kinds-IsScanned :
      (s : ℕ × Option PiiKind) (seen xs : List PiiKind)
      → IsScanned s seen
      → IsScanned (scan_kinds k s xs) (back seen xs)
  unfolding scan_kinds back
  scan_kinds-IsScanned s seen [] h = h
  scan_kinds-IsScanned s seen (x ∷ xs) h =
      scan_kinds-IsScanned (scan_kind k s x) (x ∷ seen) xs (scan_kind-IsScanned s seen x h)

  every_kind : (P : PiiKind → Type 0) → All P (back [] kinds) → (x : PiiKind) → P x
  unfolding back
  every_kind P h x = elim x as (λ y. P y) [
    | url ↦ h.0
    | secret ↦ h.1.0
    | card ↦ h.1.1.0
    | id ↦ h.1.1.1.0
    | date ↦ h.1.1.1.1.0
    | address ↦ h.1.1.1.1.1.0
    | name ↦ h.1.1.1.1.1.1.0
    | phone ↦ h.1.1.1.1.1.1.1.0
    | email ↦ h.1.1.1.1.1.1.1.1.0
  ]

  -- `repairKind` answers a kind only if it is at most one edit away and every other kind is farther.
  pub repair_kind_unique :
      (kind : PiiKind)
      → repair_kind k ≡ some kind
      → (far_of kind ≤ 1) × ((x : PiiKind) → (x ≡ kind) ⊎ (far_of kind < far_of x))
  unfolding repair_kind
  repair_kind_unique kind e =
      let s = scan_kinds k (2, none) kinds in
      let (at, (small, rest)) =
        (scan_kinds-IsScanned (2, none) [] kinds
            (record {
              small = omega arith;
              least = tt;
              only = λ kind e'. absurd (none-ne e');
            })).only
          kind e in
      (
        omega (arith, at, small),
        every_kind _
            (subst (λ n. All (λ x. (x ≡ kind) ⊎ (n < far_of x)) (back [] kinds)) (sym at) rest),
      )
    where
      none-ne : {y : PiiKind} → none ≡ some y → ⊥
      none-ne e = ground arith
