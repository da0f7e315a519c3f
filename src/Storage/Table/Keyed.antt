-- ===== src/Storage/Table/Keyed.antt =====
-- Tables whose rows have a unique id, seen as maps from ids to rows.
use mathlib.Core.Path.{subst}
use euroclaw.Storage.Table.{create, find_one, assign_one, delete_one}
use euroclaw.Prelude.{
  [], String, ◌≡◌, refl, inl, inr, Bool, true, false, ◌&&◌, Option, none, some, List, ◌∷◌, arith,
  str_eq, eq_iff, if◌then◌else◌, Bool-cases,
}

abbrev pub kept_if : {Row : Type 0} → Bool → Row → Option Row
kept_if true r = some r
kept_if false r = none

abbrev pub keep_if : {Row : Type 0} → (Row → Bool) → Option Row → Option Row
keep_if p none = none
keep_if p (some r) = if p r then some r else none

abbrev pub change_if : {Row : Type 0} → (Row → Bool) → (Row → Row) → Option Row → Option Row
change_if p f none = none
change_if p f (some r) = if p r then some (f r) else some r

abbrev pub drop_if : {Row : Type 0} → (Row → Bool) → Option Row → Option Row
drop_if p none = none
drop_if p (some r) = if p r then none else some r

module _ {Row : Type 0} (key : Row → String) where
  -- The row with an id.
  unfoldable pub find_key : String → List Row → Option Row
  find_key k [] = none
  find_key k (r ∷ rs) = if str_eq (key r) k then some r else find_key k rs

  abbrev pub HasUniqueKeys : List Row → Type 0
  HasUniqueKeys [] = Unit
  HasUniqueKeys (r ∷ rs) = (find_key (key r) rs ≡ none) × HasUniqueKeys rs

  -- The `where` of a row's id and one more condition.
  abbrev pub with_key : String → (Row → Bool) → Row → Bool
  with_key k p r = str_eq (key r) k && p r

  pub find_key-key : (k : String) (rows : List Row) (r : Row) → find_key k rows ≡ some r → key r ≡ k
  unfolding find_key
  find_key-key k [] r h = cc
  find_key-key k (s ∷ rs) r h = ground (arith, eq_iff (key s) k, find_key-key k rs r)

  none_of_other :
      (k : String) (p : Row → Bool) (rows : List Row)
      → find_key k rows ≡ none
      → find_one (with_key k p) rows ≡ none
  unfolding find_key find_one
  none_of_other k p [] h = refl
  none_of_other k p (r ∷ rs) h = ground (arith, none_of_other k p rs)

  pub find_one-with_key :
      (k : String) (p : Row → Bool) (rows : List Row)
      → HasUniqueKeys rows
      → find_one (with_key k p) rows ≡ keep_if p (find_key k rows)
  unfolding find_key find_one
  find_one-with_key k p [] u = refl
  find_one-with_key k p (r ∷ rs) u =
      ground (arith, eq_iff (key r) k, find_one-with_key k p rs u.1, none_of_other k p rs)

  pub find_key-create :
      (k : String) (row : Row) (rows : List Row)
      → find_key k (create row rows)
        ≡ elim (find_key k rows) [ some r ↦ some r | none ↦ kept_if (str_eq (key row) k) row ]
  unfolding find_key create
  find_key-create k row [] = ground arith
  find_key-create k row (r ∷ rs) = ground (arith, find_key-create k row rs)

  module _ (f : Row → Row) (keeps : (r : Row) → key (f r) ≡ key r) where
    assign_other :
        (k j : String) (p : Row → Bool) (rows : List Row)
        → str_eq j k ≡ false
        → find_key k (assign_one (with_key j p) f rows) ≡ find_key k rows
    unfolding find_key assign_one
    assign_other k j p [] n = refl
    assign_other k j p (r ∷ rs) n =
        ground (arith, eq_iff (key r) j, keeps r, assign_other k j p rs n)

    assign_absent :
        (j : String) (p : Row → Bool) (rows : List Row)
        → find_key j rows ≡ none
        → assign_one (with_key j p) f rows ≡ rows
    unfolding find_key assign_one
    assign_absent j p [] h = refl
    assign_absent j p (r ∷ rs) h = ground (arith, assign_absent j p rs)

    assign_self :
        (j : String) (p : Row → Bool) (rows : List Row)
        → HasUniqueKeys rows
        → find_key j (assign_one (with_key j p) f rows) ≡ change_if p f (find_key j rows)
    unfolding find_key assign_one
    assign_self j p [] u = refl
    assign_self j p (r ∷ rs) u =
        ground (arith, eq_iff (key r) j, keeps r, assign_self j p rs u.1, assign_absent j p rs)

    pub find_key-assign_one :
        (k j : String) (p : Row → Bool) (rows : List Row)
        → HasUniqueKeys rows
        → find_key k (assign_one (with_key j p) f rows)
          ≡ (if str_eq j k then change_if p f (find_key k rows) else find_key k rows)
    find_key-assign_one k j p rows u = elim (Bool-cases (str_eq j k)) [
      | inr other ↦ rw other (assign_other k j p rows other)
      | inl same ↦ rw same (
          subst
            (λ x. find_key x (assign_one (with_key j p) f rows) ≡ change_if p f (find_key x rows))
            ((eq_iff j k).0 same) (assign_self j p rows u))
    ]

    find-assign_absent :
        (k : String) (q : Row → Bool) (rows : List Row)
        → find_key k rows ≡ none
        → find_key k (assign_one q f rows) ≡ none
    unfolding find_key assign_one
    find-assign_absent k q [] h = refl
    find-assign_absent k q (r ∷ rs) h = ground (arith, keeps r, find-assign_absent k q rs)

    pub HasUniqueKeys-assign_one :
        (q : Row → Bool) (rows : List Row)
        → HasUniqueKeys rows
        → HasUniqueKeys (assign_one q f rows)
    unfolding assign_one
    HasUniqueKeys-assign_one q [] u = tt
    HasUniqueKeys-assign_one q (r ∷ rs) u =
        ground
          (arith, keeps r, find-assign_absent (key r) q rs u.0, HasUniqueKeys-assign_one q rs u.1)

  delete_other :
      (k j : String) (p : Row → Bool) (rows : List Row)
      → str_eq j k ≡ false
      → find_key k (delete_one (with_key j p) rows) ≡ find_key k rows
  unfolding find_key delete_one
  delete_other k j p [] n = refl
  delete_other k j p (r ∷ rs) n = ground (arith, eq_iff (key r) j, delete_other k j p rs n)

  delete_absent :
      (j : String) (p : Row → Bool) (rows : List Row)
      → find_key j rows ≡ none
      → delete_one (with_key j p) rows ≡ rows
  unfolding find_key delete_one
  delete_absent j p [] h = refl
  delete_absent j p (r ∷ rs) h = ground (arith, delete_absent j p rs)

  delete_self :
      (j : String) (p : Row → Bool) (rows : List Row)
      → HasUniqueKeys rows
      → find_key j (delete_one (with_key j p) rows) ≡ drop_if p (find_key j rows)
  unfolding find_key delete_one
  delete_self j p [] u = refl
  delete_self j p (r ∷ rs) u =
      ground (arith, eq_iff (key r) j, delete_self j p rs u.1, delete_absent j p rs)

  pub find_key-delete_one :
      (k j : String) (p : Row → Bool) (rows : List Row)
      → HasUniqueKeys rows
      → find_key k (delete_one (with_key j p) rows)
        ≡ (if str_eq j k then drop_if p (find_key k rows) else find_key k rows)
  find_key-delete_one k j p rows u = elim (Bool-cases (str_eq j k)) [
    | inr other ↦ rw other (delete_other k j p rows other)
    | inl same ↦ rw same (
        subst (λ x. find_key x (delete_one (with_key j p) rows) ≡ drop_if p (find_key x rows))
          ((eq_iff j k).0 same) (delete_self j p rows u))
  ]

  pub find-delete_absent :
      (k : String) (q : Row → Bool) (rows : List Row)
      → find_key k rows ≡ none
      → find_key k (delete_one q rows) ≡ none
  unfolding find_key delete_one
  find-delete_absent k q [] h = refl
  find-delete_absent k q (r ∷ rs) h = ground (arith, find-delete_absent k q rs)

  pub HasUniqueKeys-delete_one :
      (q : Row → Bool) (rows : List Row) → HasUniqueKeys rows → HasUniqueKeys (delete_one q rows)
  unfolding delete_one
  HasUniqueKeys-delete_one q [] u = tt
  HasUniqueKeys-delete_one q (r ∷ rs) u =
      ground (arith, find-delete_absent (key r) q rs u.0, HasUniqueKeys-delete_one q rs u.1)

  pub HasUniqueKeys-create :
      (row : Row) (rows : List Row)
      → HasUniqueKeys rows
      → find_key (key row) rows ≡ none
      → HasUniqueKeys (create row rows)
  unfolding create find_key
  HasUniqueKeys-create row [] u h = (refl, tt)
  HasUniqueKeys-create row (r ∷ rs) u h = ground (
    arith,
    eq_iff (key r) (key row),
    eq_iff (key row) (key r),
    find_key-create (key r) row rs,
    HasUniqueKeys-create row rs u.1,
  )

  -- The `where` of an id alone finds the row with the id.
  pub find_one_any :
      (k : String) (rows : List Row)
      → find_one (with_key k (λ (r : Row). true)) rows ≡ find_key k rows
  unfolding find_key find_one
  find_one_any k [] = refl
  find_one_any k (r ∷ rs) = ground (arith, find_one_any k rs)
