-- ===== src/Redaction/Distance.antt =====
-- The edit distance of the placeholder repair: `editDistance` of
-- packages/foundation/core/src/redact.ts. A text is its UTF-16 units. The two rolling rows are lists: a
-- round reads the cells of the row above from the left and writes its own in the same order.
pub mod Least
use euroclaw.Prelude.{ℕ, suc, ◌+◌, List, [], ◌∷◌, leb, ◌==◌, if◌then◌else◌}

abbrev pub Text : Type 0
Text = List ℕ

abbrev pub min : ℕ → ℕ → ℕ
min a b = if leb a b then a else b

-- the `Math.min` of one cell: the cell above, the cell to the left, the cell above that one
unfoldable pub cell : (above left diag cost : ℕ) → ℕ
cell above left diag cost = min (min (above + 1) (left + 1)) (diag + cost)

abbrev pub head_or_zero : List ℕ → ℕ
head_or_zero [] = 0
head_or_zero (c ∷ cs) = c

abbrev pub tail_of : List ℕ → List ℕ
tail_of [] = []
tail_of (c ∷ cs) = cs

abbrev pub cost_of : ℕ → ℕ → ℕ
cost_of x y = if x == y then 0 else 1

-- The inner loop, from the second cell on: `left` is the cell just written, `diag` the cell above it.
unfoldable pub fill_cells : ℕ → Text → (left diag : ℕ) → List ℕ → List ℕ
unfolding cell
fill_cells x [] left diag above = []
fill_cells x (y ∷ b) left diag above =
    let c = cell (head_or_zero above) left diag (cost_of x y) in
    c ∷ fill_cells x b c (head_or_zero above) (tail_of above)

-- one round of the outer loop, the `i`-th, which starts its row with `i`
unfoldable pub next_row : ℕ → ℕ → Text → List ℕ → List ℕ
unfolding fill_cells
next_row i x b prev = i ∷ fill_cells x b i (head_or_zero prev) (tail_of prev)

unfoldable pub rows : ℕ → Text → Text → List ℕ → List ℕ
unfolding next_row
rows i [] b prev = prev
rows i (x ∷ a) b prev = rows (suc i) a b (next_row i x b prev)

-- `Array.from({ length: n + 1 }, (_, j) => j)`, from `j` on
unfoldable pub counting : ℕ → Text → List ℕ
counting j [] = j ∷ []
counting j (y ∷ b) = j ∷ counting (suc j) b

-- `prev[n] ?? 0`
unfoldable pub last_or_zero : List ℕ → ℕ
last_or_zero [] = 0
last_or_zero (c ∷ []) = c
last_or_zero (c ∷ d ∷ cs) = last_or_zero (d ∷ cs)

unfoldable pub edit_distance : Text → Text → ℕ
unfolding rows counting last_or_zero
edit_distance a b = last_or_zero (rows 1 a b (counting 0 b))
