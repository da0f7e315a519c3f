-- ===== src/Governance/Registry/Sealed.antt =====
-- What one registration, and any sequence of them, does to a well-formed list.
use mathlib.Core.List.{append-nil, append_assoc}
use mathlib.Core.Path.{subst}
use euroclaw.Base.Eff.{Result, returned, thrown}
use euroclaw.Governance.Registry.{
  Gate, Kind, Ids, find_gate, remove_gate, insert_sealed, place, cleared, placed, add, kept,
  register_all,
}
use euroclaw.Governance.Registry.Order.{
  NoneSealed, IsOrdered, HasUniqueIds, sealed_part, IsOrdered-remove_gate, IsOrdered-insert_sealed,
  IsOrdered-append, HasUniqueIds-remove_gate, find-remove_self, HasUniqueIds-insert_sealed,
  HasUniqueIds-append,
}
use euroclaw.Prelude.{
  [], String, ◌≡◌, refl, sym, ap, ◌∙◌, inl, inr, true, false, none, some, List, ◌∷◌, ◌++◌, arith,
  str_eq, if◌then◌else◌, Bool-cases, Option-cases,
}

module _ {H : Type 0} where
  pub record IsWellFormed (gs : List (Gate H)) : Type 0 where
    pub ordered : IsOrdered gs
    pub unique_ids : HasUniqueIds gs

  sealed_part-none : (gs : List (Gate H)) → NoneSealed gs → sealed_part gs ≡ []
  unfolding sealed_part
  sealed_part-none [] h = refl
  sealed_part-none (g ∷ gs) h = ground (arith, sealed_part-none gs h.1)

  sealed_part-remove_gate :
      (id : String) (gs : List (Gate H)) (old : Gate H)
      → find_gate id gs ≡ some old
      → old.sealed ≡ false
      → sealed_part (remove_gate id gs) ≡ sealed_part gs
  unfolding sealed_part remove_gate find_gate
  sealed_part-remove_gate id [] old f s = cc
  sealed_part-remove_gate id (g ∷ gs) old f s = elim (Bool-cases (str_eq g.id id)) [
    | inl same ↦ ground arith
    | inr other ↦ ground (arith, sealed_part-remove_gate id gs old)
  ]

  abbrev pub added_sealed : Gate H → List (Gate H)
  added_sealed gate = if gate.sealed then gate ∷ [] else []

  sealed_part-insert_sealed :
      (gate : Gate H) (gs : List (Gate H))
      → gate.sealed ≡ true
      → IsOrdered gs
      → sealed_part (insert_sealed gate gs) ≡ sealed_part gs ++ gate ∷ []
  unfolding sealed_part insert_sealed
  sealed_part-insert_sealed gate [] s h = ground arith
  sealed_part-insert_sealed gate (g ∷ gs) s h =
      ground (arith, sealed_part-none gs, sealed_part-insert_sealed gate gs s h.1)

  sealed_part-append :
      (gate : Gate H) (gs : List (Gate H))
      → gate.sealed ≡ false
      → sealed_part (gs ++ gate ∷ []) ≡ sealed_part gs
  unfolding sealed_part
  sealed_part-append gate [] s = ground arith
  sealed_part-append gate (g ∷ gs) s = ground (arith, sealed_part-append gate gs s)

  place_sealed :
      (gate : Gate H) (gs : List (Gate H))
      → gate.sealed ≡ true
      → place gate gs ≡ insert_sealed gate gs
  unfolding place
  place_sealed gate gs s = ground arith

  place_ordinary :
      (gate : Gate H) (gs : List (Gate H)) → gate.sealed ≡ false → place gate gs ≡ gs ++ gate ∷ []
  unfolding place
  place_ordinary gate gs s = ground arith

  added_sealed_lem : (gate : Gate H) → gate.sealed ≡ true → added_sealed gate ≡ gate ∷ []
  added_sealed_lem gate s = ground arith

  added_ordinary : (gate : Gate H) → gate.sealed ≡ false → added_sealed gate ≡ []
  added_ordinary gate s = ground arith

  sealed_part-place :
      (gate : Gate H) (gs : List (Gate H))
      → IsOrdered gs
      → sealed_part (place gate gs) ≡ sealed_part gs ++ added_sealed gate
  sealed_part-place gate gs h = elim (Bool-cases gate.sealed) [
    | inl s ↦
        ap sealed_part (place_sealed gate gs s)
        ∙ (sealed_part-insert_sealed gate gs s h
            ∙ ap (λ l. sealed_part gs ++ l) (sym (added_sealed_lem gate s)))
    | inr s ↦
        ap sealed_part (place_ordinary gate gs s)
        ∙ (sealed_part-append gate gs s
            ∙ (sym (append-nil _) ∙ ap (λ l. sealed_part gs ++ l) (sym (added_ordinary gate s))))
  ]

  place-IsWellFormed :
      (gate : Gate H) (gs : List (Gate H))
      → find_gate gate.id gs ≡ none
      → IsWellFormed gs
      → IsWellFormed (place gate gs)
  place-IsWellFormed gate gs n w = elim (Bool-cases gate.sealed) [
    | inl s ↦ subst IsWellFormed (sym (place_sealed gate gs s)) (record {
      ordered = IsOrdered-insert_sealed gate gs s w.ordered;
      unique_ids = HasUniqueIds-insert_sealed gate gs n w.unique_ids;
    })
    | inr s ↦ subst IsWellFormed (sym (place_ordinary gate gs s)) (record {
      ordered = IsOrdered-append gs gate s w.ordered;
      unique_ids = HasUniqueIds-append gate gs n w.unique_ids;
    })
  ]

  -- What is left once the earlier gate of the id is out.
  record IsCleared (gate : Gate H) (gs rest : List (Gate H)) : Type 0 where
    free : find_gate gate.id rest ≡ none
    well_formed : IsWellFormed rest
    same_sealed : sealed_part rest ≡ sealed_part gs

  cleared-IsCleared :
      (ids : Ids) (gate : Gate H) (gs rest : List (Gate H))
      → IsWellFormed gs
      → cleared ids gate gs ≡ returned rest
      → IsCleared gate gs rest
  unfolding cleared
  cleared-IsCleared ids gate gs rest w h = elim (Option-cases (find_gate gate.id gs)) [
    | inl free ↦
        let e : gs ≡ rest = ground arith in
        subst (IsCleared gate gs) e (record { free = free; well_formed = w; same_sealed = refl })
    | inr (old, found) ↦
        let s : old.sealed ≡ false = ground arith in
        let e : remove_gate gate.id gs ≡ rest = ground arith in
        subst (IsCleared gate gs) e (record {
          free = find-remove_self gate.id gs w.unique_ids;
          well_formed = record {
            ordered = IsOrdered-remove_gate gate.id gs w.ordered;
            unique_ids = HasUniqueIds-remove_gate gate.id gs w.unique_ids;
          };
          same_sealed = sealed_part-remove_gate gate.id gs old found s;
        })
  ]

  -- What a registration that returns has done.
  pub record IsAdded (gate : Gate H) (gs new : List (Gate H)) : Type 0 where
    pub well_formed : IsWellFormed new
    pub sealed_gates : sealed_part new ≡ sealed_part gs ++ added_sealed gate

  place-IsAdded :
      (gate : Gate H) (gs rest : List (Gate H))
      → IsCleared gate gs rest
      → IsAdded gate gs (place gate rest)
  place-IsAdded gate gs rest c = record {
    well_formed = place-IsWellFormed gate rest c.free c.well_formed;
    sealed_gates =
        sealed_part-place gate rest c.well_formed.ordered
        ∙ ap (λ l. l ++ added_sealed gate) c.same_sealed;
  }

  placed-eq-returned :
      (kind : Kind) (ids : Ids) (gate : Gate H) (r : Result (List (Gate H))) {new : List (Gate H)}
      {new_ids : Ids}
      → placed kind ids gate r ≡ returned (new, new_ids)
      → (rest : List (Gate H)) × (r ≡ returned rest) × (place gate rest ≡ new)
  placed-eq-returned kind ids gate (returned rest) h = (rest, refl, cc)
  placed-eq-returned kind ids gate (thrown e) h = cc

  -- A registration that returns keeps the list free of repeated ids with its sealed gates first,
  -- and leaves the sealed gates, in their order, as they were, with the new gate behind them if it
  -- is sealed.
  pub add-IsAdded :
      (kind : Kind) (gs : List (Gate H)) (ids : Ids) (gate : Gate H) (new : List (Gate H))
      (new_ids : Ids)
      → IsWellFormed gs
      → add kind gs ids gate ≡ returned (new, new_ids)
      → IsAdded gate gs new
  unfolding add
  add-IsAdded kind gs ids gate new new_ids w h =
      let (rest, out, e) = placed-eq-returned kind ids gate (cleared ids gate gs) (unclashed h) in
      subst (IsAdded gate gs) e
        (place-IsAdded gate gs rest (cleared-IsCleared ids gate gs rest w out))
    where
      unclashed :
          add kind gs ids gate ≡ returned (new, new_ids)
          → placed kind ids gate (cleared ids gate gs) ≡ returned (new, new_ids)
      unclashed e = ground arith

  -- One attempt, whether it returns or throws.
  record IsAttempted (old new : List (Gate H)) : Type 0 where
    well_formed : IsWellFormed new
    later : List (Gate H)
    sealed_gates : sealed_part new ≡ sealed_part old ++ later

  kept-IsAttempted :
      (kind : Kind) (s : List (Gate H) × Ids) (gate : Gate H) (r : Result (List (Gate H) × Ids))
      → IsWellFormed s.0
      → add kind s.0 s.1 gate ≡ r
      → IsAttempted s.0 (kept s r).0
  kept-IsAttempted kind s gate (returned (new, new_ids)) w h =
      let a = add-IsAdded kind s.0 s.1 gate new new_ids w h in
      record {
        well_formed = a.well_formed;
        later = added_sealed gate;
        sealed_gates = a.sealed_gates;
      }
  kept-IsAttempted kind s gate (thrown e) w h = record {
    well_formed = w;
    later = [];
    sealed_gates = sym (append-nil _);
  }

  -- However many gates are registered, and whichever of the registrations throw, the sealed gates
  -- that a well-formed list had still run, in the same order and before all that came later, and
  -- the list stays well-formed.
  pub register_all-sealed :
      (kind : Kind) (s : List (Gate H) × Ids) (gates : List (Gate H))
      → IsWellFormed s.0
      → (later : List (Gate H)) × (sealed_part (register_all kind s gates).0
          ≡ sealed_part s.0 ++ later)
        × IsWellFormed (register_all kind s gates).0
  unfolding register_all
  register_all-sealed kind s [] w = ([], sym (append-nil _), w)
  register_all-sealed kind s (gate ∷ more) w =
      let step = kept-IsAttempted kind s gate (add kind s.0 s.1 gate) w refl in
      let (later, e, w') =
        register_all-sealed kind (kept s (add kind s.0 s.1 gate)) more step.well_formed in
      (
        step.later ++ later,
        e
            ∙ (ap (λ l. l ++ later) step.sealed_gates
                ∙ append_assoc (sealed_part s.0) step.later later),
        w',
      )
