-- ===== src/Redaction/Redact/Stored.antt =====
-- Stores whose mappings have different keys and carry the hash of their value.
use mathlib.Core.Path.{subst}
use euroclaw.Base.Eff.{returned, thrown-ne-returned}
use euroclaw.Redaction.Mappings.{
  PiiKind, PiiMapping, Mappings, Container, Key, container_key, key_of, same_container, same_key,
  get_mapping, set_mapping, find_by_hash, save,
}
use euroclaw.Redaction.Mappings.Erasure.{same_key_iff, opt_eq_iff, get_mapping-set_mapping}
use euroclaw.Prelude.{
  String, ◌≡◌, refl, sym, ap, ◌∙◌, ◌⊎◌, inl, inr, Bool, true, ◌&&◌, Option, none, some, List, [],
  ◌∷◌, arith, if◌then◌else◌, Bool-cases, some_inj, opt_eq, all, All, if_true, if_false, if_cases,
}

abbrev pub AreUnique : List PiiMapping → Type 0
AreUnique [] = Unit
AreUnique (m ∷ ms) = (get_mapping (key_of m) ms ≡ none) × AreUnique ms

set_mapping-AreUnique :
    (m : PiiMapping) (ms : List PiiMapping) → AreUnique ms → AreUnique (set_mapping m ms)
unfolding set_mapping get_mapping
set_mapping-AreUnique m [] u = (refl, tt)
set_mapping-AreUnique m (x ∷ xs) u =
    if_cases AreUnique (same_key (key_of x) (key_of m)) (m ∷ xs) (x ∷ set_mapping m xs)
      (λ same. (
        subst (λ k. get_mapping k xs ≡ none) ((same_key_iff (key_of x) (key_of m)).0 same) u.0,
        u.1,
      ))
      (λ other. (
        get_mapping-set_mapping (key_of x) m xs
            ∙ ground (
              arith,
              u.0,
              other,
              same_key_iff (key_of x) (key_of m),
              same_key_iff (key_of m) (key_of x),
            ),
        set_mapping-AreUnique m xs u.1,
      ))

set_mapping-All :
    (P : PiiMapping → Type 0) (m : PiiMapping) (ms : List PiiMapping)
    → P m
    → All P ms
    → All P (set_mapping m ms)
unfolding set_mapping
set_mapping-All P m [] p h = (p, tt)
set_mapping-All P m (x ∷ xs) p h =
    if_cases (All P) (same_key (key_of x) (key_of m)) (m ∷ xs) (x ∷ set_mapping m xs)
      (λ same. (p, h.1)) (λ other. (h.0, set_mapping-All P m xs p h.1))

pub get_mapping-All :
    (P : PiiMapping → Type 0) (k : Key) (ms : List PiiMapping) (m : PiiMapping)
    → All P ms
    → get_mapping k ms ≡ some m
    → P m
unfolding get_mapping
get_mapping-All P k [] m all h = ground arith
get_mapping-All P k (x ∷ xs) m all h = elim (Bool-cases (same_key (key_of x) k)) [
  | inl same ↦ subst P (some_inj (if_true _ _ _ same h)) all.0
  | inr other ↦ get_mapping-All P k xs m all.1 (if_false _ _ _ other h)
]

hit_parts :
    (hash : String) (c : Container) (x : PiiMapping)
    → (opt_eq x.original_hash (some hash) && same_container x c) ≡ true
    → (x.original_hash ≡ some hash) × (key_of x ≡ container_key c x.placeholder)
hit_parts hash c x h = ground (
  arith,
  h,
  opt_eq_iff x.original_hash (some hash),
  opt_eq_iff x.scope c.scope,
  opt_eq_iff x.scope_id c.scope_id,
)

-- What `findByHash` answers is stored under its own key, has the hash and lies in the container.
pub find_by_hash-parts :
    (hash : String) (c : Container) (ms : List PiiMapping) (m : PiiMapping)
    → AreUnique ms
    → find_by_hash hash c ms ≡ some m
    → (get_mapping (key_of m) ms ≡ some m)
      × ((m.original_hash ≡ some hash) × (key_of m ≡ container_key c m.placeholder))
unfolding find_by_hash get_mapping
find_by_hash-parts hash c [] m u h = ground arith
find_by_hash-parts hash c (x ∷ xs) m u h =
    elim (Bool-cases (opt_eq x.original_hash (some hash) && same_container x c)) [
      | inl hit ↦
          subst
            (λ y.
              (get_mapping (key_of y) (x ∷ xs) ≡ some y)
              × ((y.original_hash ≡ some hash) × (key_of y ≡ container_key c y.placeholder)))
            (some_inj (if_true _ _ _ hit h))
            (ground (arith, same_key_iff (key_of x) (key_of x)), hit_parts hash c x hit)
      | inr miss ↦
          let (stored, rest) = find_by_hash-parts hash c xs m u.1 (if_false _ _ _ miss h) in
          (later stored, rest)
    ]
  where
    none-ne : none ≡ some m → ⊥
    none-ne e = ground arith

    later :
        get_mapping (key_of m) xs ≡ some m
        → (if same_key (key_of x) (key_of m) then some x else get_mapping (key_of m) xs) ≡ some m
    later stored =
        if_cases (λ o. o ≡ some m) (same_key (key_of x) (key_of m)) (some x) _
          (λ same. absurd (
            none-ne (
              sym u.0
              ∙ (ap (λ k. get_mapping k xs) ((same_key_iff (key_of x) (key_of m)).0 same)
                  ∙ stored))))
          (λ other. stored)

module _ (hash_of : PiiKind → String → Option String) where
  -- The store of a host: no key twice, and a hash is that of the value.
  abbrev pub IsHashed : PiiMapping → Type 0
  IsHashed m = (m.original_hash ≡ none) ⊎ (m.original_hash ≡ hash_of m.kind m.original)

  abbrev pub IsKept : Mappings → Type 0
  IsKept s = AreUnique s.by_key × All IsHashed s.by_key

  pub save-IsKept :
      (valid : PiiMapping → Bool) (m : PiiMapping) (subjects : List String) (s s' : Mappings)
      → IsHashed m
      → IsKept s
      → save valid m subjects s ≡ (returned tt, s')
      → IsKept s'
  unfolding save
  save-IsKept valid m subjects s s' p k h = elim (Bool-cases (valid m)) [
    | inl fine ↦
        subst IsKept (ap (λ r. r.1) (if_true _ _ _ fine h))
          (set_mapping-AreUnique m s.by_key k.0, set_mapping-All IsHashed m s.by_key p k.1)
    | inr bad ↦ absurd (thrown-ne-returned (ap (λ r. r.0) (if_false _ _ _ bad h)))
  ]
