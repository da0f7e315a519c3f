-- ===== src/Redaction/Distance/Least.antt =====
-- `editDistance` against edit scripts.
use mathlib.Core.Path.{subst}
use mathlib.Core.List.{reverse, reverse_aux, reverse-reverse}
use euroclaw.Redaction.Distance.{
  Text, cell, cost_of, fill_cells, next_row, rows, counting, last_or_zero, edit_distance,
}
use euroclaw.Prelude.{
  ℕ, suc, ◌+◌, ◌≤◌, ◌≡◌, refl, sym, ap, ◌∙◌, ◌⊎◌, inl, inr, List, [], ◌∷◌, arith, ◌==◌, ==_iff,
  Bool-cases, length,
}

-- The scripts that turn one text into the other, with the number of their edits.
pub data Edits : Text → Text → ℕ → Type 0 where
  done : Edits [] [] 0
  keep : {a b : Text} {n : ℕ} → (x : ℕ) → Edits a b n → Edits (x ∷ a) (x ∷ b) n
  drop : {a b : Text} {n : ℕ} → (x : ℕ) → Edits a b n → Edits (x ∷ a) b (suc n)
  add : {a b : Text} {n : ℕ} → (y : ℕ) → Edits a b n → Edits a (y ∷ b) (suc n)
  change : {a b : Text} {n : ℕ} → (x y : ℕ) → Edits a b n → Edits (x ∷ a) (y ∷ b) (suc n)

-- The table by recursion, on texts that are read from their ends.
unfoldable dist : Text → Text → ℕ
dist [] b = length b
dist (x ∷ a) [] = suc (length a)
dist (x ∷ a) (y ∷ b) = cell (dist a (y ∷ b)) (dist (x ∷ a) b) (dist a b) (cost_of x y)

-- The row of `a`: its cells for all texts from `b` on by the units of `more`.
unfoldable row : Text → Text → Text → List ℕ
row a b [] = dist a b ∷ []
row a b (y ∷ more) = dist a b ∷ row a (y ∷ b) more

tail_row : Text → Text → Text → List ℕ
tail_row a b [] = []
tail_row a b (y ∷ more) = row a (y ∷ b) more

row-cons : (a b more : Text) → row a b more ≡ dist a b ∷ tail_row a b more
unfolding row tail_row
row-cons a b [] = refl
row-cons a b (y ∷ more) = refl

fill_cells-tail_row :
    (x : ℕ) (a b more : Text)
    → fill_cells x more (dist (x ∷ a) b) (dist a b) (tail_row a b more) ≡ tail_row (x ∷ a) b more
unfolding fill_cells tail_row dist
fill_cells-tail_row x a b [] = refl
fill_cells-tail_row x a b (y ∷ more) =
    rw (row-cons a (y ∷ b) more, row-cons (x ∷ a) (y ∷ b) more)
      (ap (λ cs. dist (x ∷ a) (y ∷ b) ∷ cs) (fill_cells-tail_row x a (y ∷ b) more))

next_row-row : (x : ℕ) (a b : Text) → next_row (suc (length a)) x b (row a [] b) ≡ row (x ∷ a) [] b
unfolding next_row dist
next_row-row x a b =
    rw (row-cons a [] b, row-cons (x ∷ a) [] b)
      (ap (λ cs. suc (length a) ∷ cs) (fill_cells-tail_row x a [] b))

rows-row :
    (a before b : Text)
    → rows (suc (length before)) a b (row before [] b) ≡ row (reverse_aux a before) [] b
unfolding rows
rows-row [] before b = refl
rows-row (x ∷ a) before b =
    ap (rows (suc (suc (length before))) a b) (next_row-row x before b) ∙ rows-row a (x ∷ before) b

counting-row : (b more : Text) → counting (length b) more ≡ row [] b more
unfolding counting row dist
counting-row b [] = refl
counting-row b (y ∷ more) = ap (λ cs. length b ∷ cs) (counting-row (y ∷ b) more)

last_or_zero-row : (a b more : Text) → last_or_zero (row a b more) ≡ dist a (reverse_aux more b)
unfolding last_or_zero row
last_or_zero-row a b [] = refl
last_or_zero-row a b (y ∷ more) =
    rw (row-cons a (y ∷ b) more) refl
    ∙ (ap last_or_zero (sym (row-cons a (y ∷ b) more)) ∙ last_or_zero-row a (y ∷ b) more)

edit_distance-dist : (a b : Text) → edit_distance a b ≡ dist (reverse a) (reverse b)
unfolding edit_distance
edit_distance-dist a b =
    ap (λ r. last_or_zero (rows 1 a b r)) (counting-row [] b)
    ∙ (ap last_or_zero (rows-row a [] b) ∙ last_or_zero-row (reverse a) [] b)

-- A script may be read from the end as well.
Edits-reverse_aux :
    {a b c d : Text} {n m : ℕ}
    → Edits a b n
    → Edits c d m
    → Edits (reverse_aux a c) (reverse_aux b d) (n + m)
Edits-reverse_aux done f = subst (Edits _ _) (omega arith) f
Edits-reverse_aux (keep x e) f = Edits-reverse_aux e (keep x f)
Edits-reverse_aux (drop x e) f = subst (Edits _ _) (omega arith) (Edits-reverse_aux e (drop x f))
Edits-reverse_aux (add y e) f = subst (Edits _ _) (omega arith) (Edits-reverse_aux e (add y f))
Edits-reverse_aux (change x y e) f =
    subst (Edits _ _) (omega arith) (Edits-reverse_aux e (change x y f))

Edits-reverse : {a b : Text} {n : ℕ} → Edits a b n → Edits (reverse a) (reverse b) n
Edits-reverse {n = n} e = subst (Edits _ _) (omega arith) (Edits-reverse_aux e done)

add_all : (b : Text) → Edits [] b (length b)
add_all [] = done
add_all (y ∷ b) = add y (add_all b)

drop_all : (a : Text) → Edits a [] (length a)
drop_all [] = done
drop_all (x ∷ a) = drop x (drop_all a)

cell-cases :
    (above left diag cost : ℕ)
    → (cell above left diag cost ≡ suc above)
      ⊎ ((cell above left diag cost ≡ suc left) ⊎ (cell above left diag cost ≡ diag + cost))
unfolding cell
cell-cases above left diag cost = ground arith

Edits-diag : (x y : ℕ) {a b : Text} {n : ℕ} → Edits a b n → Edits (x ∷ a) (y ∷ b) (n + cost_of x y)
Edits-diag x y {a} {b} {n} e = elim (Bool-cases (x == y)) [
  | inl same ↦
      subst (λ z. Edits (x ∷ a) (z ∷ b) (n + cost_of x y)) ((==_iff x y).0 same)
        (subst (Edits (x ∷ a) (x ∷ b)) (ground (arith, same)) (keep x e))
  | inr other ↦ subst (Edits (x ∷ a) (y ∷ b)) (ground (arith, other)) (change x y e)
]

Edits-dist : (a b : Text) → Edits a b (dist a b)
unfolding dist
Edits-dist [] b = add_all b
Edits-dist (x ∷ a) [] = drop_all (x ∷ a)
Edits-dist (x ∷ a) (y ∷ b) =
    elim (cell-cases (dist a (y ∷ b)) (dist (x ∷ a) b) (dist a b) (cost_of x y)) [
      | inl e ↦ subst (Edits _ _) (sym e) (drop x (Edits-dist a (y ∷ b)))
      | inr (inl e) ↦ subst (Edits _ _) (sym e) (add y (Edits-dist (x ∷ a) b))
      | inr (inr e) ↦ subst (Edits _ _) (sym e) (Edits-diag x y (Edits-dist a b))
    ]

dist-nil : (a : Text) → dist a [] ≡ length a
unfolding dist
dist-nil [] = refl
dist-nil (x ∷ a) = refl

dist-drop : (x : ℕ) (a b : Text) → dist (x ∷ a) b ≤ suc (dist a b)
unfolding dist cell
dist-drop x a [] = ground (arith, dist-nil a)
dist-drop x a (y ∷ b) = ground arith

dist-add : (y : ℕ) (a b : Text) → dist a (y ∷ b) ≤ suc (dist a b)
unfolding dist cell
dist-add y [] b = omega arith
dist-add y (x ∷ a) b = ground arith

dist-diag : (x y : ℕ) (a b : Text) → dist (x ∷ a) (y ∷ b) ≤ dist a b + cost_of x y
unfolding dist cell
dist-diag x y a b = ground arith

dist-least : {a b : Text} {n : ℕ} → Edits a b n → dist a b ≤ n
unfolding dist
dist-least done = omega arith
dist-least (keep {a = a} {b = b} x e) = ground (arith, dist-diag x x a b, dist-least e, ==_iff x x)
dist-least (drop {a = a} {b = b} x e) = omega (arith, dist-drop x a b, dist-least e)
dist-least (add {a = a} {b = b} y e) = omega (arith, dist-add y a b, dist-least e)
dist-least (change {a = a} {b = b} x y e) = ground (arith, dist-diag x y a b, dist-least e)

-- The number of edits of a shortest script.
pub record IsLeast (a b : Text) (n : ℕ) : Type 0 where
  pub script : Edits a b n
  pub least : (m : ℕ) → Edits a b m → n ≤ m

-- `editDistance` is the number of edits of a shortest script: some script from the first text to the
-- second has as many edits, where an edit drops, adds or changes one unit, and none has fewer.
pub edit_distance-IsLeast : (a b : Text) → IsLeast a b (edit_distance a b)
edit_distance-IsLeast a b = record {
  script = rw (edit_distance-dist a b) (
      subst (λ t. Edits t b (dist (reverse a) (reverse b))) (reverse-reverse a)
        (subst (λ t. Edits (reverse (reverse a)) t (dist (reverse a) (reverse b)))
          (reverse-reverse b) (Edits-reverse (Edits-dist (reverse a) (reverse b)))));
  least = λ m e. rw (edit_distance-dist a b) (dist-least (Edits-reverse e));
}
