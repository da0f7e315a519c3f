-- ===== src/Governance/Registry/Order.antt =====
-- Well-formed gate lists: the order of sealed gates and the uniqueness of ids.
use euroclaw.Governance.Registry.{Gate, find_gate, remove_gate, insert_sealed}
use euroclaw.Prelude.{
  [], String, ◌≡◌, refl, ◌⊎◌, inl, inr, true, false, none, List, ◌∷◌, ◌++◌, arith, str_eq, eq_iff,
  if◌then◌else◌, All, All-append,
}

module _ {H : Type 0} where
  abbrev pub NoneSealed : List (Gate H) → Type 0
  NoneSealed = All (λ g. g.sealed ≡ false)

  -- No sealed gate stands behind an ordinary one.
  abbrev pub IsOrdered : List (Gate H) → Type 0
  IsOrdered [] = Unit
  IsOrdered (g ∷ gs) = ((g.sealed ≡ true) ⊎ NoneSealed gs) × IsOrdered gs

  -- No id occurs twice.
  abbrev pub HasUniqueIds : List (Gate H) → Type 0
  HasUniqueIds [] = Unit
  HasUniqueIds (g ∷ gs) = (find_gate g.id gs ≡ none) × HasUniqueIds gs

  -- The sealed gates in the order in which they run.
  unfoldable pub sealed_part : List (Gate H) → List (Gate H)
  sealed_part [] = []
  sealed_part (g ∷ gs) = if g.sealed then g ∷ sealed_part gs else sealed_part gs

  NoneSealed-remove_gate :
      (id : String) (gs : List (Gate H)) → NoneSealed gs → NoneSealed (remove_gate id gs)
  unfolding remove_gate
  NoneSealed-remove_gate id [] h = tt
  NoneSealed-remove_gate id (g ∷ gs) h = ground (arith, NoneSealed-remove_gate id gs h.1)

  pub IsOrdered-remove_gate :
      (id : String) (gs : List (Gate H)) → IsOrdered gs → IsOrdered (remove_gate id gs)
  unfolding remove_gate
  IsOrdered-remove_gate id [] h = tt
  IsOrdered-remove_gate id (g ∷ gs) h =
      ground (arith, IsOrdered-remove_gate id gs h.1, NoneSealed-remove_gate id gs)

  IsOrdered-of_NoneSealed : (gs : List (Gate H)) → NoneSealed gs → IsOrdered gs
  IsOrdered-of_NoneSealed [] h = tt
  IsOrdered-of_NoneSealed (g ∷ gs) h = (inr h.1, IsOrdered-of_NoneSealed gs h.1)

  pub IsOrdered-insert_sealed :
      (gate : Gate H) (gs : List (Gate H))
      → gate.sealed ≡ true
      → IsOrdered gs
      → IsOrdered (insert_sealed gate gs)
  unfolding insert_sealed
  IsOrdered-insert_sealed gate [] s h = (inl s, tt)
  IsOrdered-insert_sealed gate (g ∷ gs) s h = ground (arith, IsOrdered-insert_sealed gate gs s h.1)

  NoneSealed-append :
      (gs : List (Gate H)) (gate : Gate H)
      → gate.sealed ≡ false
      → NoneSealed gs
      → NoneSealed (gs ++ gate ∷ [])
  NoneSealed-append gs gate s h = All-append _ gs (gate ∷ []) h (s, tt)

  pub IsOrdered-append :
      (gs : List (Gate H)) (gate : Gate H)
      → gate.sealed ≡ false
      → IsOrdered gs
      → IsOrdered (gs ++ gate ∷ [])
  IsOrdered-append [] gate s h = (inr tt, tt)
  IsOrdered-append (g ∷ gs) gate s h =
      ground (arith, IsOrdered-append gs gate s h.1, NoneSealed-append gs gate s)

  find-remove_ne :
      (id j : String) (gs : List (Gate H))
      → find_gate j gs ≡ none
      → find_gate j (remove_gate id gs) ≡ none
  unfolding remove_gate find_gate
  find-remove_ne id j [] h = refl
  find-remove_ne id j (g ∷ gs) h = ground (arith, find-remove_ne id j gs)

  pub HasUniqueIds-remove_gate :
      (id : String) (gs : List (Gate H)) → HasUniqueIds gs → HasUniqueIds (remove_gate id gs)
  unfolding remove_gate
  HasUniqueIds-remove_gate id [] h = tt
  HasUniqueIds-remove_gate id (g ∷ gs) h =
      ground (arith, HasUniqueIds-remove_gate id gs h.1, find-remove_ne id g.id gs h.0)

  pub find-remove_self :
      (id : String) (gs : List (Gate H)) → HasUniqueIds gs → find_gate id (remove_gate id gs) ≡ none
  unfolding remove_gate find_gate
  find-remove_self id [] h = refl
  find-remove_self id (g ∷ gs) h = ground (arith, eq_iff g.id id, find-remove_self id gs h.1)

  find-insert_sealed :
      (j : String) (gate : Gate H) (gs : List (Gate H))
      → str_eq gate.id j ≡ false
      → find_gate j (insert_sealed gate gs) ≡ find_gate j gs
  unfolding insert_sealed find_gate
  find-insert_sealed j gate [] n = ground arith
  find-insert_sealed j gate (g ∷ gs) n = ground (arith, find-insert_sealed j gate gs n)

  find-append :
      (j : String) (gate : Gate H) (gs : List (Gate H))
      → str_eq gate.id j ≡ false
      → find_gate j (gs ++ gate ∷ []) ≡ find_gate j gs
  unfolding find_gate
  find-append j gate [] n = ground arith
  find-append j gate (g ∷ gs) n = ground (arith, find-append j gate gs n)

  pub HasUniqueIds-insert_sealed :
      (gate : Gate H) (gs : List (Gate H))
      → find_gate gate.id gs ≡ none
      → HasUniqueIds gs
      → HasUniqueIds (insert_sealed gate gs)
  unfolding insert_sealed find_gate
  HasUniqueIds-insert_sealed gate [] n h = (refl, tt)
  HasUniqueIds-insert_sealed gate (g ∷ gs) n h = ground (
    arith,
    eq_iff g.id gate.id,
    eq_iff gate.id g.id,
    find-insert_sealed g.id gate gs,
    HasUniqueIds-insert_sealed gate gs,
  )

  pub HasUniqueIds-append :
      (gate : Gate H) (gs : List (Gate H))
      → find_gate gate.id gs ≡ none
      → HasUniqueIds gs
      → HasUniqueIds (gs ++ gate ∷ [])
  unfolding find_gate
  HasUniqueIds-append gate [] n h = (refl, tt)
  HasUniqueIds-append gate (g ∷ gs) n h = ground (
    arith,
    eq_iff g.id gate.id,
    eq_iff gate.id g.id,
    find-append g.id gate gs,
    HasUniqueIds-append gate gs,
  )
