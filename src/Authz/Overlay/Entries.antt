-- ===== src/Authz/Overlay/Entries.antt =====
-- The entries of an overlay as they are collected, and where they go.
use mathlib.Core.List.{append_assoc}
use mathlib.Core.Path.{subst}
use euroclaw.Base.Eff.{
  Result, returned, thrown, thrown-ne-returned, validation_error, configuration_error,
}
use euroclaw.Authz.Overlay.{FactsOverlayEntry, find_entry, is_some, collect, unmatched_of}
use euroclaw.Prelude.{
  String, ◌≡◌, refl, sym, ap, ◌∙◌, inl, inr, Bool, false, Option, none, some, List, [], ◌∷◌, ◌++◌,
  arith, str_eq, eq_iff, if◌then◌else◌, Bool-cases, some_inj, All, if_true, if_false, if_cases,
}

-- An item of a list, with what stands before and behind it.
abbrev pub IsIn : {A : Type 0} → A → List A → Type 0
IsIn x xs = (before : List _) × (later : List _) × (xs ≡ before ++ x ∷ later)

module _ {A : Type 0} (x : A) where
  pub IsIn-left : (xs ys : List A) → IsIn x xs → IsIn x (xs ++ ys)
  IsIn-left xs ys (before, later, e) =
      (before, later ++ ys, ap (λ l. l ++ ys) e ∙ append_assoc before (x ∷ later) ys)

  pub IsIn-right : (xs ys : List A) → IsIn x ys → IsIn x (xs ++ ys)
  IsIn-right xs ys (before, later, e) =
      (xs ++ before, later, ap (λ l. xs ++ l) e ∙ sym (append_assoc xs before (x ∷ later)))

  pub IsIn-cons : (y : A) (ys : List A) → IsIn x ys → IsIn x (y ∷ ys)
  IsIn-cons y ys (before, later, e) = (y ∷ before, later, ap (λ l. y ∷ l) e)

pub find_entry-id :
    (id : String) (es : List FactsOverlayEntry) (e : FactsOverlayEntry)
    → find_entry id es ≡ some e
    → e.action_id ≡ id
unfolding find_entry
find_entry-id id [] e h = ground arith
find_entry-id id (x ∷ es) e h = elim (Bool-cases (str_eq x.action_id id)) [
  | inl hit ↦
      ap (λ (y : FactsOverlayEntry). y.action_id) (sym (some_inj (if_true _ _ _ hit h)))
      ∙ (eq_iff x.action_id id).0 hit
  | inr miss ↦ find_entry-id id es e (if_false _ _ _ miss h)
]

find_entry-append :
    (id : String) (es : List FactsOverlayEntry) (e x : FactsOverlayEntry)
    → find_entry id es ≡ some e
    → find_entry id (es ++ x ∷ []) ≡ some e
unfolding find_entry
find_entry-append id [] e x h = ground arith
find_entry-append id (y ∷ es) e x h = ground (arith, h, find_entry-append id es e x)

find_entry-added :
    (es : List FactsOverlayEntry) (e : FactsOverlayEntry)
    → find_entry e.action_id es ≡ none
    → find_entry e.action_id (es ++ e ∷ []) ≡ some e
unfolding find_entry
find_entry-added [] e h = ground (arith, eq_iff e.action_id e.action_id)
find_entry-added (y ∷ es) e h = ground (arith, h, find_entry-added es e)

pub find_entry-unmatched_of :
    (id : String) (es : List FactsOverlayEntry) (e : FactsOverlayEntry) (hit : String → Bool)
    → find_entry id es ≡ some e
    → hit id ≡ false
    → IsIn id (unmatched_of es hit)
unfolding find_entry unmatched_of
find_entry-unmatched_of id [] e hit h miss = ground arith
find_entry-unmatched_of id (x ∷ es) e hit h miss = elim (Bool-cases (str_eq x.action_id id)) [
  | inl same ↦
      subst (λ i. IsIn id (if hit i then unmatched_of es hit else i ∷ unmatched_of es hit))
        (sym ((eq_iff x.action_id id).0 same))
        (if_cases (IsIn id) (hit id) (unmatched_of es hit) (id ∷ unmatched_of es hit)
          (λ found. absurd (ground (arith, found, miss))) (λ _. ([], unmatched_of es hit, refl)))
  | inr other ↦
      if_cases (IsIn id) (hit x.action_id) (unmatched_of es hit) (x.action_id ∷ unmatched_of es hit)
        (λ _. find_entry-unmatched_of id es e hit (if_false _ _ _ other h) miss)
        (λ _.
          IsIn-cons id x.action_id (unmatched_of es hit)
            (find_entry-unmatched_of id es e hit (if_false _ _ _ other h) miss))
]

module _ {Raw : Type 0} (parse : Raw → Option FactsOverlayEntry) where
  -- A collection that ran on has parsed its first entry, which has no namesake so far.
  collect-step :
      (raw : Raw) (raws : List Raw) (acc by_action : List FactsOverlayEntry)
      → collect parse (raw ∷ raws) acc ≡ returned by_action
      → (e : FactsOverlayEntry) × ((parse raw ≡ some e)
          × ((find_entry e.action_id acc ≡ none)
              × (collect parse raws (acc ++ e ∷ []) ≡ returned by_action)))
  unfolding collect
  collect-step raw raws acc by_action h = step (parse raw) refl h
    where
      clear :
          (e : FactsOverlayEntry) (o : Option FactsOverlayEntry)
          → (if is_some o
              then thrown (configuration_error "facts overlay has a duplicate override")
              else collect parse raws (acc ++ e ∷ []))
            ≡ returned by_action
          → (o ≡ none) × (collect parse raws (acc ++ e ∷ []) ≡ returned by_action)
      clear e none h = (refl, h)
      clear e (some twin) h = absurd (thrown-ne-returned h)

      step :
          (o : Option FactsOverlayEntry)
          → parse raw ≡ o
          → (elim o [
            | none ↦ thrown (validation_error "facts overlay entry invalid")
            | some e ↦
                if is_some (find_entry e.action_id acc)
                then thrown (configuration_error "facts overlay has a duplicate override")
                else collect parse raws (acc ++ e ∷ [])
          ])
            ≡ returned by_action
          → (e : FactsOverlayEntry) × ((parse raw ≡ some e)
              × ((find_entry e.action_id acc ≡ none)
                  × (collect parse raws (acc ++ e ∷ []) ≡ returned by_action)))
      step none e h = absurd (thrown-ne-returned h)
      step (some x) e h = (x, (e, clear x (find_entry x.action_id acc) h))

  collect-keeps :
      (raws : List Raw) (acc by_action : List FactsOverlayEntry) (id : String)
      (e : FactsOverlayEntry)
      → collect parse raws acc ≡ returned by_action
      → find_entry id acc ≡ some e
      → find_entry id by_action ≡ some e
  unfolding collect
  collect-keeps [] acc by_action id e h found =
      subst (λ es. find_entry id es ≡ some e) (returned_inj h) found
    where
      returned_inj :
          {a b : List FactsOverlayEntry}
          → ◌≡◌ {A = Result (List FactsOverlayEntry)} (returned a) (returned b)
          → a ≡ b
      returned_inj h = cc
  collect-keeps (raw ∷ raws) acc by_action id e h found =
      let (x, (_, (_, rest))) = collect-step raw raws acc by_action h in
      collect-keeps raws (acc ++ x ∷ []) by_action id e rest (find_entry-append id acc e x found)

  -- An entry of the overlay, as parsed, is the one found under its action.
  abbrev pub IsCollected : List FactsOverlayEntry → Raw → Type 0
  IsCollected by_action raw =
      (e : FactsOverlayEntry) × ((parse raw ≡ some e) × (find_entry e.action_id by_action ≡ some e))

  pub collect-IsCollected :
      (raws : List Raw) (acc by_action : List FactsOverlayEntry)
      → collect parse raws acc ≡ returned by_action
      → All (IsCollected by_action) raws
  collect-IsCollected [] acc by_action h = tt
  collect-IsCollected (raw ∷ raws) acc by_action h =
      let (e, (parsed, (is_new, rest))) = collect-step raw raws acc by_action h in
      (
        (
          e,
          (
            parsed,
            collect-keeps raws (acc ++ e ∷ []) by_action e.action_id e rest
                (find_entry-added acc e is_new),
          ),
        ),
        collect-IsCollected raws (acc ++ e ∷ []) by_action rest,
      )
