-- ===== src/Redaction/Recover/Unanimous.antt =====
-- The values that the candidate codes of a repair resolve to.
use mathlib.Core.Path.{subst}
use euroclaw.Redaction.Distance.{Text}
use euroclaw.Redaction.Repair.{text_eq}
use euroclaw.Redaction.Repair.Words.{text_eq_iff}
use euroclaw.Redaction.Recover.{has_value, note_value, resolve_codes, settle_values}
use euroclaw.Prelude.{
  ◌≡◌, refl, sym, ap, ◌∙◌, ◌⊎◌, inl, inr, true, ◌||◌, Option, none, some, List, [], ◌∷◌, ◌++◌,
  arith, Option-cases, some_inj, All, All-mono,
}

has_value-append :
    (u v : Text) (vs : List Text) → has_value u (vs ++ v ∷ []) ≡ (has_value u vs || text_eq v u)
unfolding has_value
has_value-append u v [] = ground arith
has_value-append u v (x ∷ xs) = ground (arith, has_value-append u v xs)

module _ (find : Text → Option Text) where
  -- A code that resolves has its value among `values`.
  abbrev IsNoted : List Text → Text → Type 0
  IsNoted values c =
      (find c ≡ none) ⊎ ((v : Text) × ((find c ≡ some v) × (has_value v values ≡ true)))

  note_value-keeps :
      (o : Option Text) (s : List Text × Option Text) (u : Text)
      → has_value u s.0 ≡ true
      → has_value u (note_value o s).0 ≡ true
  note_value-keeps none s u h = h
  note_value-keeps (some v) s u h = ground (arith, h, has_value-append u v s.0)

  resolve_codes-keeps :
      (cs : List Text) (s : List Text × Option Text) (u : Text)
      → has_value u s.0 ≡ true
      → has_value u (resolve_codes find cs s).0 ≡ true
  unfolding resolve_codes
  resolve_codes-keeps [] s u h = h
  resolve_codes-keeps (c ∷ cs) s u h =
      resolve_codes-keeps cs (note_value (find c) s) u (note_value-keeps (find c) s u h)

  note_value-added :
      (v : Text) (s : List Text × Option Text) → has_value v (note_value (some v) s).0 ≡ true
  note_value-added v s = ground (arith, has_value-append v v s.0, text_eq_iff v v)

  resolve_codes-IsNoted :
      (cs : List Text) (s : List Text × Option Text) → All (IsNoted (resolve_codes find cs s).0) cs
  unfolding resolve_codes
  resolve_codes-IsNoted [] s = tt
  resolve_codes-IsNoted (c ∷ cs) s = (
    elim (Option-cases (find c)) [
      | inl missing ↦ inl missing
      | inr (v, found) ↦ inr (
        v,
        (found, resolve_codes-keeps cs (note_value (find c) s) v (rw found (note_value-added v s))),
      )
    ],
    resolve_codes-IsNoted cs (note_value (find c) s),
  )

  -- `recovered` is one of the values, and the value of a code.
  abbrev pub IsFrom : List Text → Text → Type 0
  IsFrom codes v =
      (before : List Text) × (code : Text) × (later : List Text) × ((codes ≡ before ++ code ∷ later)
        × (find code ≡ some v))

  resolve_codes-IsFrom :
      (cs : List Text) (s : List Text × Option Text) (v : Text)
      → (resolve_codes find cs s).1 ≡ some v
      → (s.1 ≡ some v) ⊎ IsFrom cs v
  unfolding resolve_codes
  resolve_codes-IsFrom [] s v h = inl h
  resolve_codes-IsFrom (c ∷ cs) s v h = elim (resolve_codes-IsFrom cs (note_value (find c) s) v h) [
    | inr (before, code, later, parts) ↦
        inr (c ∷ before, code, later, (ap (λ l. c ∷ l) parts.0, parts.1))
    | inl noted ↦ elim (Option-cases (find c)) [
      | inl missing ↦ inl (sym (ap (λ o. (note_value o s).1) missing) ∙ noted)
      | inr (u, found) ↦
          inr ([], c, cs, (refl, found ∙ (sym (ap (λ o. (note_value o s).1) found) ∙ noted)))
    ]
  ]

  -- All codes that resolve have the value `v`, and one of them does.
  pub record IsUnanimous (codes : List Text) (v : Text) : Type 0 where
    pub from : IsFrom codes v
    pub agreed : All (λ c. (find c ≡ none) ⊎ (find c ≡ some v)) codes

  settle_values-some :
      (s : List Text × Option Text) (v : Text)
      → (settle_values s).0 ≡ some v
      → (s.1 ≡ some v) × ((u : Text) × (s.0 ≡ u ∷ []))
  settle_values-some ([], recovered) v h = ground arith
  settle_values-some (u ∷ [], recovered) v h = (h, (u, refl))
  settle_values-some (u ∷ x ∷ more, recovered) v h = ground arith

  -- `recovered` is among `values`.
  abbrev HasLast : List Text × Option Text → Type 0
  HasLast s = (v : Text) → s.1 ≡ some v → has_value v s.0 ≡ true

  note_value-HasLast :
      (o : Option Text) (s : List Text × Option Text) → HasLast s → HasLast (note_value o s)
  note_value-HasLast none s h v e = h v e
  note_value-HasLast (some u) s h v e =
      subst (λ t. has_value t (note_value (some u) s).0 ≡ true) (some_inj e) (note_value-added u s)

  resolve_codes-HasLast :
      (cs : List Text) (s : List Text × Option Text) → HasLast s → HasLast (resolve_codes find cs s)
  unfolding resolve_codes
  resolve_codes-HasLast [] s h = h
  resolve_codes-HasLast (c ∷ cs) s h =
      resolve_codes-HasLast cs (note_value (find c) s) (note_value-HasLast (find c) s h)

  has_value-single : (v u : Text) (vs : List Text) → vs ≡ u ∷ [] → has_value v vs ≡ true → v ≡ u
  unfolding has_value
  has_value-single v u vs e h =
      sym ((text_eq_iff u v).0 (ground (arith, ap (has_value v) (sym e) ∙ h)))

  pub resolve_codes-IsUnanimous :
      (codes : List Text) (v : Text)
      → (settle_values (resolve_codes find codes ([], none))).0 ≡ some v
      → IsUnanimous codes v
  resolve_codes-IsUnanimous codes v h =
      let (last, (u, one)) = settle_values-some (resolve_codes find codes ([], none)) v h in
      let v_is =
        has_value-single v u _ one
          (resolve_codes-HasLast codes ([], none) (λ w e. absurd (none-ne e)) v last) in
      record {
        from = elim (resolve_codes-IsFrom codes ([], none) v last) [
          | inl e ↦ absurd (none-ne e)
          | inr found ↦ found
        ];
        agreed = All-mono _ _ (agree u one v_is) codes (resolve_codes-IsNoted codes ([], none));
      }
    where
      none-ne : {w : Text} → none ≡ some w → ⊥
      none-ne e = ground arith

      agree :
          (u : Text)
          → (resolve_codes find codes ([], none)).0 ≡ u ∷ []
          → v ≡ u
          → (c : Text) → IsNoted (resolve_codes find codes ([], none)).0 c
          → (find c ≡ none) ⊎ (find c ≡ some v)
      agree u one v_is c (inl missing) = inl missing
      agree u one v_is c (inr (w, (found, noted))) =
          inr (found ∙ ap some (has_value-single w u _ one noted ∙ sym v_is))
