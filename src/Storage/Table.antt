-- ===== src/Storage/Table.antt =====
-- The in-memory adapter, `memoryAdapter` of packages/storage/core/src/index.ts, for one model: the
-- rows in insertion order, a `where` as a test on a row, an update as a function on a row.
pub mod Keyed
pub mod Rows
use euroclaw.Prelude.{
  ℕ, suc, ◌+◌, Bool, Option, none, some, List, [], ◌∷◌, ◌++◌, leb, if◌then◌else◌,
}

module _ {Row : Type 0} where
  -- `table(model).push(row)`
  unfoldable pub create : Row → List Row → List Row
  create row rows = rows ++ row ∷ []

  -- `findOne`: the first row that matches
  unfoldable pub find_one : (Row → Bool) → List Row → Option Row
  find_one p [] = none
  find_one p (r ∷ rs) = if p r then some r else find_one p rs

  unfoldable pub filter_rows : (Row → Bool) → List Row → List Row
  filter_rows p [] = []
  filter_rows p (r ∷ rs) = if p r then r ∷ filter_rows p rs else filter_rows p rs

  -- the stable ascending sort of `findMany` by a numeric column
  unfoldable pub insert_by : (Row → ℕ) → Row → List Row → List Row
  insert_by col r [] = r ∷ []
  insert_by col r (s ∷ rs) = if leb (col r) (col s) then r ∷ s ∷ rs else s ∷ insert_by col r rs

  unfoldable pub sort_by : (Row → ℕ) → List Row → List Row
  unfolding insert_by
  sort_by col [] = []
  sort_by col (r ∷ rs) = insert_by col r (sort_by col rs)

  -- `Object.assign` on the first row that matches
  unfoldable pub assign_one : (Row → Bool) → (Row → Row) → List Row → List Row
  assign_one p f [] = []
  assign_one p f (r ∷ rs) = if p r then f r ∷ rs else r ∷ assign_one p f rs

  abbrev pub map_row : (Row → Row) → Option Row → Option Row
  map_row f none = none
  map_row f (some r) = some (f r)

  -- `update`: the row as it is after the update, or null
  unfoldable pub update : (Row → Bool) → (Row → Row) → List Row → Option Row × List Row
  update p f rows = (map_row f (find_one p rows), assign_one p f rows)

  -- `updateMany`, with the number of rows changed
  unfoldable pub update_many : (Row → Bool) → (Row → Row) → List Row → ℕ × List Row
  update_many p f [] = (0, [])
  update_many p f (r ∷ rs) =
      let (n, rest) = update_many p f rs in if p r then (suc n, f r ∷ rest) else (n, r ∷ rest)

  -- `delete`: the first row that matches goes
  unfoldable pub delete_one : (Row → Bool) → List Row → List Row
  delete_one p [] = []
  delete_one p (r ∷ rs) = if p r then rs else r ∷ delete_one p rs

  -- `deleteMany`, with the number of rows that went
  unfoldable pub delete_many : (Row → Bool) → List Row → ℕ × List Row
  delete_many p [] = (0, [])
  delete_many p (r ∷ rs) =
      let (n, rest) = delete_many p rs in if p r then (suc n, rest) else (n, r ∷ rest)

  -- `consumeOne`: find and splice in one step
  unfoldable pub consume_one : (Row → Bool) → List Row → Option Row × List Row
  consume_one p rows = (find_one p rows, delete_one p rows)
