-- ===== src/Governance/Registry.antt =====
-- Gate registration: `add` of packages/foundation/core/src/governance.ts, for one of its three
-- lists. The code and its sets are passed and returned; a throw leaves them as they were.
pub mod Order
pub mod Sealed
use euroclaw.Base.Eff.{Result, returned, thrown, state_error}
use euroclaw.Prelude.{
  [], String, Bool, false, ◌||◌, Option, none, some, List, ◌∷◌, ◌++◌, str_eq, if◌then◌else◌,
}

pub record Gate (H : Type 0) : Type 0 where
  pub id : String
  pub sealed : Bool
  pub body : H

-- Which list a gate goes to: `"boundary"`, `"tool"`, or none for an after-gate.
pub data Kind : Type 0 where
  boundary tool observer : Kind

-- The sets `sealed`, `boundaryGateIds` and `toolGateIds`, shared by the three lists.
pub record Ids : Type 0 where
  pub sealed : List String
  pub boundary : List String
  pub tool : List String

unfoldable pub has : String → List String → Bool
has id [] = false
has id (x ∷ xs) = str_eq x id || has id xs

abbrev pub clashes : Kind → Ids → String → Bool
clashes boundary ids id = has id ids.tool
clashes tool ids id = has id ids.boundary
clashes observer ids id = false

abbrev pub noted : Kind → Ids → String → Ids
noted boundary ids id = record ids { boundary = id ∷ ids.boundary }
noted tool ids id = record ids { tool = id ∷ ids.tool }
noted observer ids id = ids

module _ {H : Type 0} where
  -- `list.find((g) => g.id === id)`
  unfoldable pub find_gate : String → List (Gate H) → Option (Gate H)
  find_gate id [] = none
  find_gate id (g ∷ gs) = if str_eq g.id id then some g else find_gate id gs

  -- `list.splice(i, 1)` at the first gate with the id
  unfoldable pub remove_gate : String → List (Gate H) → List (Gate H)
  remove_gate id [] = []
  remove_gate id (g ∷ gs) = if str_eq g.id id then gs else g ∷ remove_gate id gs

  -- `list.splice(firstUnsealed, 0, gate)`
  unfoldable pub insert_sealed : Gate H → List (Gate H) → List (Gate H)
  insert_sealed gate [] = gate ∷ []
  insert_sealed gate (g ∷ gs) = if g.sealed then g ∷ insert_sealed gate gs else gate ∷ g ∷ gs

  unfoldable pub place : Gate H → List (Gate H) → List (Gate H)
  place gate gs = if gate.sealed then insert_sealed gate gs else gs ++ gate ∷ []

  -- the list once an earlier gate of the id is out, or the throw that protects a sealed one
  unfoldable pub cleared : Ids → Gate H → List (Gate H) → Result (List (Gate H))
  cleared ids gate gs = elim (find_gate gate.id gs) [
    | none ↦ returned gs
    | some old ↦
        if has gate.id ids.sealed || old.sealed
        then thrown (state_error "gate is sealed and cannot be redefined")
        else returned (remove_gate gate.id gs)
  ]

  abbrev pub sealed_ids : Gate H → Ids → Ids
  sealed_ids gate ids = if gate.sealed then record ids { sealed = gate.id ∷ ids.sealed } else ids

  abbrev pub placed : Kind → Ids → Gate H → Result (List (Gate H)) → Result (List (Gate H) × Ids)
  placed kind ids gate (thrown e) = thrown e
  placed kind ids gate (returned gs) =
      returned (place gate gs, noted kind (sealed_ids gate ids) gate.id)

  unfoldable pub add : Kind → List (Gate H) → Ids → Gate H → Result (List (Gate H) × Ids)
  add kind gs ids gate =
      if clashes kind ids gate.id
      then thrown (state_error "gate is already registered on the other boundary")
      else placed kind ids gate (cleared ids gate gs)

  -- A registration that throws leaves the list and the sets as they were.
  abbrev pub kept : List (Gate H) × Ids → Result (List (Gate H) × Ids) → List (Gate H) × Ids
  kept old (returned new) = new
  kept old (thrown e) = old

  unfoldable pub register_all : Kind → List (Gate H) × Ids → List (Gate H) → List (Gate H) × Ids
  register_all kind s [] = s
  register_all kind s (gate ∷ more) = register_all kind (kept s (add kind s.0 s.1 gate)) more
