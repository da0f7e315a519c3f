-- ===== src/Storage/Table/Rows.antt =====
-- Predicates on every row of a table, and on the rows that `findMany` returns.
use euroclaw.Storage.Table.{filter_rows, sort_by, insert_by}
use euroclaw.Storage.Table.Keyed.{find_key, HasUniqueKeys}
use euroclaw.Prelude.{
  ℕ, zero, suc, String, ◌≡◌, Bool, true, false, none, some, List, [], ◌∷◌, arith, str_eq, eq_iff,
  take, All,
}

module _ {κ} {Row : Type 0} (P : Row → Type κ) where
  pub All-filter_rows :
      (p : Row → Bool) (rows : List Row)
      → All P rows
      → All (λ r. P r × (p r ≡ true)) (filter_rows p rows)
  unfolding filter_rows
  All-filter_rows p [] h = tt
  All-filter_rows p (r ∷ rs) h = ground (arith, All-filter_rows p rs h.1)

  All-insert_by :
      (col : Row → ℕ) (r : Row) (rows : List Row) → P r → All P rows → All P (insert_by col r rows)
  unfolding insert_by
  All-insert_by col r [] here h = (here, tt)
  All-insert_by col r (s ∷ rs) here h = ground (arith, All-insert_by col r rs here h.1)

  pub All-sort_by : (col : Row → ℕ) (rows : List Row) → All P rows → All P (sort_by col rows)
  unfolding sort_by
  All-sort_by col [] h = tt
  All-sort_by col (r ∷ rs) h = All-insert_by col r _ h.0 (All-sort_by col rs h.1)

  pub All-take : (n : ℕ) (rows : List Row) → All P rows → All P (take n rows)
  All-take zero rows h = tt
  All-take (suc n) [] h = tt
  All-take (suc n) (r ∷ rs) h = (h.0, All-take n rs h.1)

module _ {Row : Type 0} (key : Row → String) where
  IsFound : List Row → Row → Type 0
  IsFound rows r = find_key key (key r) rows ≡ some r

  other_keys :
      (k : String) (rows : List Row)
      → find_key key k rows ≡ none
      → All (λ r. str_eq k (key r) ≡ false) rows
  unfolding find_key
  other_keys k [] h = tt
  other_keys k (r ∷ rs) h =
      (ground (arith, eq_iff (key r) k, eq_iff k (key r)), other_keys k rs (ground arith))

  IsFound-behind :
      (r : Row) (rs ys : List Row)
      → All (λ s. str_eq (key r) (key s) ≡ false) ys
      → All (IsFound rs) ys
      → All (IsFound (r ∷ rs)) ys
  unfolding find_key IsFound
  IsFound-behind r rs [] a b = tt
  IsFound-behind r rs (y ∷ ys) a b = (ground arith, IsFound-behind r rs ys a.1 b.1)

  -- Where keys are unique, each row is the one that its key finds.
  pub All-found :
      (rows : List Row)
      → HasUniqueKeys key rows
      → All (λ r. find_key key (key r) rows ≡ some r) rows
  unfolding find_key IsFound
  All-found [] u = tt
  All-found (r ∷ rs) u = (
    ground (arith, eq_iff (key r) (key r)),
    IsFound-behind r rs rs (other_keys (key r) rs u.0) (All-found rs u.1),
  )
