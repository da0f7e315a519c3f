-- ===== src/Redaction/Repair/Words.antt =====
-- `repairWord` against the list of its codebook.
use mathlib.Core.Path.{subst}
use euroclaw.Redaction.Distance.{Text, edit_distance}
use euroclaw.Redaction.Distance.Least.{Edits, keep, done, edit_distance-IsLeast}
use euroclaw.Redaction.Repair.{
  text_eq, has_word, by_prefix, scan_word, scan_words, nearest_words, within, repair_word,
}
use euroclaw.Prelude.{
  ℕ, ◌≤◌, ◌<◌, ◌≡◌, refl, ◌↔◌, ◌⊎◌, inl, inr, true, Option, none, some, List, [], ◌∷◌, ◌++◌, arith,
  ltb, leb, ◌==◌, ==_iff, Bool-cases, take, All, All-append, All-mono,
}

pub text_eq_iff : (a b : Text) → (text_eq a b ≡ true) ↔ (a ≡ b)
unfolding text_eq
text_eq_iff [] [] = (λ h. refl, λ h. refl)
text_eq_iff [] (y ∷ b) = (λ h. ground arith, λ h. ground arith)
text_eq_iff (x ∷ a) [] = (λ h. ground arith, λ h. ground arith)
text_eq_iff (x ∷ a) (y ∷ b) = ground (arith, ==_iff x y, text_eq_iff a b)

same_text : (a : Text) → Edits a a 0
same_text [] = done
same_text (x ∷ a) = keep x (same_text a)

edit_distance_self : (a : Text) → edit_distance a a ≡ 0
edit_distance_self a = omega (arith, (edit_distance-IsLeast a a).least 0 (same_text a))

module _ (w : Text) where
  abbrev dist : Text → ℕ
  dist = edit_distance w

  scan_words-le : (s : ℕ × List Text) (xs : List Text) → (scan_words w s xs).0 ≤ s.0
  unfolding scan_words scan_word
  scan_words-le s [] = omega arith
  scan_words-le s (x ∷ xs) = ground (arith, scan_words-le (scan_word w s x) xs)

  scan_words-least :
      (s : ℕ × List Text) (xs : List Text) → All (λ x. (scan_words w s xs).0 ≤ dist x) xs
  unfolding scan_words scan_word
  scan_words-least s [] = tt
  scan_words-least s (x ∷ xs) =
      (ground (arith, scan_words-le (scan_word w s x) xs), scan_words-least (scan_word w s x) xs)

  scan_word-cases :
      (P : ℕ × List Text → Type 0) (s : ℕ × List Text) (x : Text)
      → (dist x < s.0 → P (dist x, x ∷ []))
      → (dist x ≡ s.0 → P (s.0, s.1 ++ x ∷ []))
      → P s
      → P (scan_word w s x)
  unfolding scan_word
  scan_word-cases P s x nearer ties farther = elim (Bool-cases (ltb (dist x) s.0)) [
    | inl lt ↦ subst P (ground (arith, lt)) (nearer (ground (arith, lt)))
    | inr ge ↦ elim (Bool-cases (dist x == s.0)) [
      | inl eq ↦ subst P (ground (arith, ge, eq)) (ties (ground (arith, eq)))
      | inr ne ↦ subst P (ground (arith, ge, ne)) farther
    ]
  ]

  -- The words kept are words of `list`, all at the distance `best`.
  abbrev AreTies : List Text → ℕ × List Text → Type 0
  AreTies list s = All (λ r. (has_word r list ≡ true) × (dist r ≡ s.0)) s.1

  scan_word-AreTies :
      (list : List Text) (s : ℕ × List Text) (x : Text)
      → has_word x list ≡ true
      → AreTies list s
      → AreTies list (scan_word w s x)
  unfolding scan_word
  scan_word-AreTies list s x h ties =
      scan_word-cases (AreTies list) s x (λ lt. ((h, refl), tt))
        (λ eq. All-append _ s.1 (x ∷ []) ties ((h, eq), tt)) ties

  scan_words-AreTies :
      (list : List Text) (s : ℕ × List Text) (xs : List Text)
      → All (λ x. has_word x list ≡ true) xs
      → AreTies list s
      → AreTies list (scan_words w s xs)
  unfolding scan_words
  scan_words-AreTies list s [] inside ties = ties
  scan_words-AreTies list s (x ∷ xs) inside ties =
      scan_words-AreTies list (scan_word w s x) xs inside.1
        (scan_word-AreTies list s x inside.0 ties)

  -- As long as nothing has been kept, nothing has come near.
  abbrev IsFair : ℕ × List Text → Type 0
  IsFair s = s.1 ≡ [] → 2 < s.0

  scan_word-IsFair : (s : ℕ × List Text) (x : Text) → IsFair s → IsFair (scan_word w s x)
  unfolding scan_word
  scan_word-IsFair s x fair =
      scan_word-cases IsFair s x (λ lt e. absurd (cons-ne e)) (λ eq e. absurd (snoc-ne s.1 e)) fair
    where
      cons-ne : {y : Text} {ys : List Text} → y ∷ ys ≡ [] → ⊥
      cons-ne e = ground arith

      snoc-ne : (ys : List Text) → ys ++ x ∷ [] ≡ [] → ⊥
      snoc-ne [] e = ground arith
      snoc-ne (y ∷ ys) e = ground arith

  scan_words-IsFair : (s : ℕ × List Text) (xs : List Text) → IsFair s → IsFair (scan_words w s xs)
  unfolding scan_words
  scan_words-IsFair s [] fair = fair
  scan_words-IsFair s (x ∷ xs) fair =
      scan_words-IsFair (scan_word w s x) xs (scan_word-IsFair s x fair)

  by_prefix-has_word :
      (p : Text) (list : List Text) (r : Text)
      → by_prefix p list ≡ some r
      → (has_word r list ≡ true) × (take 4 r ≡ p)
  unfolding by_prefix has_word
  by_prefix-has_word p [] r h = ground arith
  by_prefix-has_word p (x ∷ xs) r h =
      ground (arith, text_eq_iff x r, text_eq_iff (take 4 x) p, by_prefix-has_word p xs r)

has_word-all : (list : List Text) → All (λ x. has_word x list ≡ true) list
unfolding has_word
has_word-all [] = tt
has_word-all (x ∷ xs) = (ground (arith, text_eq_iff x x), All-mono _ _ later xs (has_word-all xs))
  where
    later : (y : Text) → has_word y xs ≡ true → has_word y (x ∷ xs) ≡ true
    later y h = ground (arith, h)

-- What the repair of a word `w` comes to, over a list of words.
pub record IsRepair (w : Text) (list result : List Text) : Type 0 where
  pub inside : All (λ r. has_word r list ≡ true) result
  pub near : All (λ r. edit_distance w r ≤ 2) result
  pub best :
      All
        (λ r. (take 4 r ≡ take 4 w) ⊎ All (λ x. edit_distance w r ≤ edit_distance w x) list)
        result
  pub none_near : result ≡ [] → All (λ x. 2 < edit_distance w x) list

IsRepair-one :
    (w r : Text) (list : List Text)
    → has_word r list ≡ true
    → edit_distance w r ≤ 2
    → (take 4 r ≡ take 4 w) ⊎ All (λ x. edit_distance w r ≤ edit_distance w x) list
    → IsRepair w list (r ∷ [])
IsRepair-one w r list inside near best = record {
  inside = (inside, tt);
  near = (near, tt);
  best = (best, tt);
  none_near = λ e. absurd (cons-ne e);
}
  where
    cons-ne : r ∷ [] ≡ [] → ⊥
    cons-ne e = ground arith

module _ (w : Text) (list : List Text) where
  abbrev scanned : ℕ × List Text
  scanned = scan_words w (3, []) list

  ties : AreTies w list scanned
  ties = scan_words-AreTies w list (3, []) list (has_word-all list) tt

  scanned-IsRepair : scanned.0 ≤ 2 → IsRepair w list scanned.1
  scanned-IsRepair fine = record {
    inside =
        All-mono _ _ (λ r (h : (has_word r list ≡ true) × (dist w r ≡ scanned.0)). h.0) scanned.1
          ties;
    near = All-mono _ _ close scanned.1 ties;
    best = All-mono _ _ first scanned.1 ties;
    none_near = λ e. absurd (apart (scan_words-IsFair w (3, []) list (λ e'. omega arith) e) fine);
  }
    where
      close : (r : Text) → (has_word r list ≡ true) × (dist w r ≡ scanned.0) → dist w r ≤ 2
      close r h = omega (arith, h.1, fine)

      first :
          (r : Text)
          → (has_word r list ≡ true) × (dist w r ≡ scanned.0)
          → (take 4 r ≡ take 4 w) ⊎ All (λ x. dist w r ≤ dist w x) list
      first r h = inr (rw h.1 (scan_words-least w (3, []) list))

      apart : {n : ℕ} → 2 < n → n ≤ 2 → ⊥
      apart a b = omega arith

  none-IsRepair : 2 < scanned.0 → IsRepair w list []
  none-IsRepair far = record {
    inside = tt;
    near = tt;
    best = tt;
    none_near = λ e. All-mono _ _ past list (scan_words-least w (3, []) list);
  }
    where
      past : (x : Text) → scanned.0 ≤ dist w x → 2 < dist w x
      past x h = omega (arith, h, far)

  nearest_words-IsRepair : IsRepair w list (nearest_words scanned)
  nearest_words-IsRepair = elim (Bool-cases (leb scanned.0 2)) [
    | inl fine ↦
        subst (IsRepair w list) (ground (arith, fine)) (scanned-IsRepair (ground (arith, fine)))
    | inr far ↦ subst (IsRepair w list) (ground (arith, far)) (none-IsRepair (ground (arith, far)))
  ]

  within-IsRepair :
      (o : Option Text)
      → ((r : Text) → o ≡ some r → (has_word r list ≡ true) × (take 4 r ≡ take 4 w))
      → IsRepair w list (elim (within w o) [ some word ↦ word ∷ [] | none ↦ nearest_words scanned ])
  within-IsRepair none from = nearest_words-IsRepair
  within-IsRepair (some r) from = elim (Bool-cases (leb (edit_distance w r) 2)) [
    | inl close ↦
        subst (IsRepair w list) (ground (arith, close))
          (IsRepair-one w r list (from r refl).0 (ground (arith, close)) (inl (from r refl).1))
    | inr far ↦ subst (IsRepair w list) (ground (arith, far)) nearest_words-IsRepair
  ]

-- `repairWord` answers words of the codebook that are at most two edits away, each of them with the
-- same first four letters as the damaged word or as near to it as any word of the codebook; and it
-- answers none only if every word of the codebook is more than two edits away.
pub repair_word-IsRepair : (w : Text) (list : List Text) → IsRepair w list (repair_word w list)
unfolding repair_word
repair_word-IsRepair w list = elim (Bool-cases (has_word w list)) [
  | inl exact ↦
      subst (IsRepair w list) (ground (arith, exact))
        (IsRepair-one w w list exact (ground (arith, edit_distance_self w)) (inl refl))
  | inr damaged ↦
      subst (IsRepair w list) (ground (arith, damaged))
        (within-IsRepair w list (by_prefix (take 4 w) list) (by_prefix-has_word w (take 4 w) list))
]
