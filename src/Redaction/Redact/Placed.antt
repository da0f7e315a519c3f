-- ===== src/Redaction/Redact/Placed.antt =====
-- One span of a redaction: the placeholder it is given, and the store then.
use mathlib.Core.Path.{subst}
use euroclaw.Base.Eff.{Result, returned, pure, >>=-eq-returned}
use euroclaw.Redaction.Distance.{Text}
use euroclaw.Redaction.Mappings.{
  PiiKind, PiiMapping, Mappings, Container, Key, key_of, container_key, get_mapping, same_key, save,
  resolve,
}
use euroclaw.Redaction.Mappings.Erasure.{same_key_iff, resolve-save}
use euroclaw.Redaction.Spans.{PiiSpan}
use euroclaw.Redaction.Redact.{
  Draw, first_free, mint_tries, mint_placeholder, find_existing, new_mapping, add_subjects,
  place_as, place,
}
use euroclaw.Redaction.Redact.Stored.{
  IsHashed, IsKept, save-IsKept, find_by_hash-parts, get_mapping-All,
}
use euroclaw.Prelude.{
  ℕ, String, ◌≡◌, refl, sym, ap, ◌∙◌, ◌⊎◌, inl, inr, Bool, Option, none, some, List, [], ◌∷◌, arith,
  Option-cases, take, if_cases,
}

pub returned_inj : {A : Type 0} {a b : A} → ◌≡◌ {A = Result A} (returned a) (returned b) → a ≡ b
returned_inj h = cc

module _ (units : String → Text) (valid : PiiMapping → Bool)
    (hash_of : PiiKind → String → Option String) (drawn : PiiSpan → Draw) (now : ℕ) (c : Container)
    (subjects : List String) where
  -- Among these draws, and the longer one behind them, there is one that names nothing in the container.
  abbrev pub HasFree : List String → (last : String) → Mappings → Type 0
  HasFree [] last s = resolve last c s ≡ none
  HasFree (p ∷ ps) last s = (resolve p c s ≡ none) ⊎ HasFree ps last s

  first_free_lem :
      (ps : List String) (last : String) (s : Mappings)
      → HasFree ps last s
      → resolve (first_free units valid hash_of drawn now c subjects ps last s) c s ≡ none
  unfolding first_free
  first_free_lem [] last s h = h
  first_free_lem (p ∷ ps) last s h = elim (Option-cases (resolve p c s)) [
    | inl free ↦ ground (arith, free)
    | inr (v, taken) ↦
        let later : HasFree ps last s = elim h [
          | inl free ↦ absurd (some-ne (sym taken ∙ free))
          | inr rest ↦ rest
        ] in
        ground (arith, taken, first_free_lem ps last s later)
  ]
    where
      some-ne : {v : String} → some v ≡ none → ⊥
      some-ne e = ground arith

  mint_placeholder_lem :
      (x : PiiSpan) (s : Mappings)
      → HasFree (take mint_tries (drawn x).tries) (drawn x).last s
      → resolve (mint_placeholder units valid hash_of drawn now c subjects x s) c s ≡ none
  unfolding mint_placeholder
  mint_placeholder_lem x s h = first_free_lem (take mint_tries (drawn x).tries) (drawn x).last s h

  -- A value that no mapping has yet is given draws of which one is free.
  abbrev pub IsFree : PiiSpan → Mappings → Type 0
  IsFree x s =
      ((m : PiiMapping) × (find_existing units valid hash_of drawn now c subjects
            (hash_of x.kind x.value) s
          ≡ some m))
      ⊎ HasFree (take mint_tries (drawn x).tries) (drawn x).last s

  -- The same at every span of a run.
  abbrev pub AreFree : List PiiSpan → Mappings → Type 0
  AreFree [] s = Unit
  AreFree (x ∷ xs) s =
      IsFree x s × AreFree xs (place units valid hash_of drawn now c subjects x s).1

  -- The step from `s` to `s'` stores `value` under `p` and takes nothing away.
  pub record IsPlaced (value p : String) (s s' : Mappings) : Type 0 where
    pub kept : IsKept hash_of s'
    pub found : resolve p c s' ≡ some value
    pub others : (q v : String) → resolve q c s ≡ some v → resolve q c s' ≡ some v

  save-IsPlaced :
      (m : PiiMapping) (subs : List String) (s s' : Mappings)
      → IsKept hash_of s
      → IsHashed hash_of m
      → key_of m ≡ container_key c m.placeholder
      → (resolve m.placeholder c s ≡ none) ⊎ (resolve m.placeholder c s ≡ some m.original)
      → save valid m subs s ≡ (returned tt, s')
      → IsPlaced m.original m.placeholder s s'
  save-IsPlaced m subs s s' k hashed own before h = record {
    kept = save-IsKept hash_of valid m subs s s' hashed k h;
    found =
        resolve-save valid m subs s s' m.placeholder c h
        ∙ ground (arith, (same_key_iff (key_of m) (container_key c m.placeholder)).1 own);
    others = λ q v was.
        resolve-save valid m subs s s' q c h
        ∙ if_cases (λ o. o ≡ some v) (same_key (key_of m) (container_key c q)) (some m.original)
            (resolve q c s)
            (λ same.
              same_value q v was (sym own ∙ (same_key_iff (key_of m) (container_key c q)).0 same))
            (λ other. was);
  }
    where
      same_value :
          (q v : String)
          → resolve q c s ≡ some v
          → container_key c m.placeholder ≡ container_key c q
          → some m.original ≡ some v
      same_value q v was e =
          let is = ap (λ (k : Key). k.placeholder) e in
          elim before [
            | inl none_yet ↦ absurd (none-ne (sym none_yet ∙ (ap (λ p. resolve p c s) is ∙ was)))
            | inr stored ↦ sym stored ∙ (ap (λ p. resolve p c s) is ∙ was)
          ]
        where
          none-ne : none ≡ some v → ⊥
          none-ne e = ground arith

  moved :
      {v p p' : String} {s s1 s' : Mappings}
      → ◌≡◌ {A = Result String × Mappings} (returned p, s1) (returned p', s')
      → IsPlaced v p s s1
      → IsPlaced v p' s s'
  moved {v} {p} {p'} {s} {s1} {s'} e h =
      subst (λ q. IsPlaced v q s s') (returned_inj (ap (λ r. r.0) e))
        (subst (λ t. IsPlaced v p s t) (ap (λ r. r.1) e) h)

  -- What a mapping found by its hash is worth, where equal hashes mean equal values.
  module _
      (same_hash : (k k' : PiiKind) (v v' hash : String)
        → hash_of k v ≡ some hash
        → hash_of k' v' ≡ some hash
        → v ≡ v') where
    record IsFound (x : PiiSpan) (m : PiiMapping) (s : Mappings) : Type 0 where
      original_is : m.original ≡ x.value
      hashed : IsHashed hash_of m
      own : key_of m ≡ container_key c m.placeholder
      stored : resolve m.placeholder c s ≡ some m.original

    found_hash :
        (m : PiiMapping) (hash : String)
        → IsHashed hash_of m
        → m.original_hash ≡ some hash
        → hash_of m.kind m.original ≡ some hash
    found_hash m hash (inl missing) e = ground (arith, missing, e)
    found_hash m hash (inr is) e = sym is ∙ e

    find_existing-IsFound :
        (x : PiiSpan) (o : Option String) (m : PiiMapping) (s : Mappings)
        → IsKept hash_of s
        → hash_of x.kind x.value ≡ o
        → find_existing units valid hash_of drawn now c subjects o s ≡ some m
        → IsFound x m s
    unfolding resolve
    find_existing-IsFound x none m s k e h = ground arith
    find_existing-IsFound x (some hash) m s k e h =
        let (stored, (hash_is, own)) = find_by_hash-parts hash c s.by_key m k.0 h in
        let hashed = get_mapping-All (IsHashed hash_of) (key_of m) s.by_key m k.1 stored in
        record {
          original_is =
              same_hash m.kind x.kind m.original x.value hash (found_hash m hash hashed hash_is) e;
          hashed = hashed;
          own = own;
          stored =
              ap (λ (o : Option PiiMapping). elim o [ none ↦ none | some n ↦ some n.original ])
                (ap (λ key. get_mapping key s.by_key) (sym own) ∙ stored);
        }

    add_subjects-IsPlaced :
        (subs : List String) (x : PiiSpan) (m : PiiMapping) (s s' : Mappings)
        → IsKept hash_of s
        → IsFound x m s
        → add_subjects units valid hash_of drawn now c subjects subs m s ≡ (returned tt, s')
        → IsPlaced x.value m.placeholder s s'
    add_subjects-IsPlaced [] x m s s' k f h =
        subst (IsPlaced x.value m.placeholder s) (ap (λ r. r.1) h)
          (record { kept = k; found = f.stored ∙ ap some f.original_is; others = λ q v was. was })
    add_subjects-IsPlaced (sub ∷ subs) x m s s' k f h =
        subst (λ v. IsPlaced v m.placeholder s s') f.original_is
          (save-IsPlaced m (sub ∷ subs) s s' k f.hashed f.own (inr f.stored) h)

    pub place_as-IsPlaced :
        (x : PiiSpan) (o : Option PiiMapping) (p : String) (s s' : Mappings)
        → IsKept hash_of s
        → find_existing units valid hash_of drawn now c subjects (hash_of x.kind x.value) s ≡ o
        → IsFree x s
        → place_as units valid hash_of drawn now c subjects x o s ≡ (returned p, s')
        → IsPlaced x.value p s s'
    place_as-IsPlaced x (some m) p s s' k e free h =
        let (_, s1, added, is) =
          >>=-eq-returned (add_subjects units valid hash_of drawn now c subjects subjects m)
            (λ _. pure m.placeholder) s h in
        moved is (
          add_subjects-IsPlaced subjects x m s s1 k
            (find_existing-IsFound x (hash_of x.kind x.value) m s k refl e) added)
    place_as-IsPlaced x none p s s' k e free h =
        let minted = mint_placeholder units valid hash_of drawn now c subjects x s in
        let m = new_mapping units valid hash_of drawn now c subjects x minted in
        let (_, s1, saved, is) = >>=-eq-returned (save valid m subjects) (λ _. pure minted) s h in
        moved is (
          save-IsPlaced m subjects s s1 k (inr refl) refl
            (inl (elim free [
              | inl (found, e') ↦ absurd (none-ne (sym e ∙ e'))
              | inr fresh ↦ mint_placeholder_lem x s fresh
            ]))
            saved)
      where
        none-ne : {found : PiiMapping} → none ≡ some found → ⊥
        none-ne e = ground arith
