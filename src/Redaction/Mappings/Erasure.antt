-- ===== src/Redaction/Mappings/Erasure.antt =====
-- What `resolve` finds after saves and after deleteForSubject.
use mathlib.Core.Path.{subst}
use euroclaw.Redaction.Mappings.{keys_of, note_subject, note_subjects, delete_for_subject}
use euroclaw.Redaction.Mappings.{
  Mappings, save, resolve, get_mapping, set_mapping, has_key, add_key, keys_of, drop_mappings,
  Container, container_key, PiiMapping, key_of,
}
use euroclaw.Base.Eff.{returned}
use euroclaw.Redaction.Mappings.{Key, same_key}
use euroclaw.Prelude.{
  String, ◌≡◌, refl, sym, ap, ◌↔◌, inl, inr, Bool, true, false, ◌||◌, Option, none, some, List, [],
  ◌∷◌, ◌++◌, arith, str_eq, eq_iff, if◌then◌else◌, Bool-cases, Option-cases, some_inj, opt_eq, any,
}

pub opt_eq_iff : (a b : Option String) → (opt_eq a b ≡ true) ↔ (a ≡ b)
opt_eq_iff none none = (λ h. refl, λ h. refl)
opt_eq_iff none (some b) = (λ h. ground arith, λ h. ground arith)
opt_eq_iff (some a) none = (λ h. ground arith, λ h. ground arith)
opt_eq_iff (some a) (some b) = (λ h. ap some ((eq_iff a b).0 h), λ h. (eq_iff a b).1 (some_inj h))

pub same_key_iff : (a b : Key) → (same_key a b ≡ true) ↔ (a ≡ b)
unfolding same_key
same_key_iff a b = ground (
  arith,
  opt_eq_iff a.scope b.scope,
  opt_eq_iff a.scope_id b.scope_id,
  eq_iff a.placeholder b.placeholder,
)

pub get_mapping-set_mapping :
    (k : Key) (m : PiiMapping) (ms : List PiiMapping)
    → get_mapping k (set_mapping m ms)
      ≡ (if same_key (key_of m) k then some m else get_mapping k ms)
unfolding get_mapping set_mapping
get_mapping-set_mapping k m [] = refl
get_mapping-set_mapping k m (x ∷ xs) = ground (
  arith,
  same_key_iff (key_of x) (key_of m),
  same_key_iff (key_of x) k,
  same_key_iff (key_of m) k,
  get_mapping-set_mapping k m xs,
)

-- `resolve` after a save that returns: the saved value for its own placeholder in its own container,
-- and for every other placeholder or container what it was before.
pub resolve-save :
    (valid : PiiMapping → Bool) (m : PiiMapping) (subjects : List String) (store store' : Mappings)
    (placeholder : String) (c : Container)
    → save valid m subjects store ≡ (returned tt, store')
    → resolve placeholder c store' ≡ (
        if same_key (key_of m) (container_key c placeholder)
        then some m.original
        else resolve placeholder c store)
unfolding save resolve
resolve-save valid m subjects store store' placeholder c h =
    ground (arith, get_mapping-set_mapping (container_key c placeholder) m store.by_key)

get_mapping-drop_mappings :
    (k : Key) (keys : List Key) (ms : List PiiMapping)
    → has_key k keys ≡ true
    → get_mapping k (drop_mappings keys ms) ≡ none
unfolding get_mapping drop_mappings
get_mapping-drop_mappings k keys [] h = refl
get_mapping-drop_mappings k keys (m ∷ ms) h =
    ground (arith, same_key_iff (key_of m) k, get_mapping-drop_mappings k keys ms h)

has_key-append :
    (k x : Key) (ks : List Key) → has_key k (ks ++ x ∷ []) ≡ (has_key k ks || same_key x k)
unfolding has_key
has_key-append k x [] = ground arith
has_key-append k x (y ∷ ys) = ground (arith, has_key-append k x ys)

has_key-add_key :
    (k x : Key) (ks : List Key) → has_key k ks ≡ true → has_key k (add_key x ks) ≡ true
has_key-add_key k x ks h = ground (arith, has_key-append k x ks)

has_key-added : (k : Key) (ks : List Key) → has_key k (add_key k ks) ≡ true
has_key-added k ks = ground (arith, has_key-append k k ks, same_key_iff k k)

-- The subject's set holds the key.
abbrev noted : Key → String → List (String × List Key) → Bool
noted k subject index = elim (keys_of subject index) [ none ↦ false | some keys ↦ has_key k keys ]

noted-note_subject :
    (k x : Key) (subject t : String) (index : List (String × List Key))
    → noted k subject index ≡ true
    → noted k subject (note_subject x t index) ≡ true
unfolding keys_of note_subject
noted-note_subject k x subject t [] h = ground arith
noted-note_subject k x subject t ((s, ks) ∷ more) h = ground (
  arith,
  eq_iff s subject,
  eq_iff s t,
  has_key-add_key k x ks,
  noted-note_subject k x subject t more,
)

has_key_self : (k : Key) → has_key k (k ∷ []) ≡ true
unfolding has_key
has_key_self k = ground (arith, same_key_iff k k)

noted-noted :
    (k : Key) (subject : String) (index : List (String × List Key))
    → noted k subject (note_subject k subject index) ≡ true
unfolding keys_of note_subject
noted-noted k subject [] = ground (arith, eq_iff subject subject, has_key_self k)
noted-noted k subject ((s, ks) ∷ more) =
    ground (arith, has_key-added k ks, noted-noted k subject more)

noted-note_subjects :
    (k x : Key) (subject : String) (subjects : List String) (index : List (String × List Key))
    → noted k subject index ≡ true
    → noted k subject (note_subjects x subjects index) ≡ true
unfolding note_subjects
noted-note_subjects k x subject [] index h = h
noted-note_subjects k x subject (t ∷ ts) index h =
    noted-note_subjects k x subject ts _ (noted-note_subject k x subject t index h)

noted-listed :
    (k : Key) (subject : String) (subjects : List String) (index : List (String × List Key))
    → any (λ t. str_eq t subject) subjects ≡ true
    → noted k subject (note_subjects k subjects index) ≡ true
unfolding note_subjects
noted-listed k subject [] index h = ground arith
noted-listed k subject (t ∷ ts) index h = elim (Bool-cases (str_eq t subject)) [
  | inl same ↦ noted-note_subjects k k subject ts _ (
      subst (λ x. noted k subject (note_subject k x index) ≡ true) (sym ((eq_iff t subject).0 same))
        (noted-noted k subject index))
  | inr other ↦ noted-listed k subject ts _ (ground arith)
]

-- Saves by anyone, one after the other; a save that throws changes nothing.
abbrev pub save_all : (PiiMapping → Bool) → List (PiiMapping × List String) → Mappings → Mappings
save_all valid [] store = store
save_all valid ((m, subjects) ∷ more) store = save_all valid more (save valid m subjects store).1

noted-save_all :
    (k : Key) (subject : String) (valid : PiiMapping → Bool)
    (saves : List (PiiMapping × List String)) (store : Mappings)
    → noted k subject store.subject_to_keys ≡ true
    → noted k subject (save_all valid saves store).subject_to_keys ≡ true
unfolding save
noted-save_all k subject valid [] store h = h
noted-save_all k subject valid ((m, subjects) ∷ more) store h =
    noted-save_all k subject valid more _
      (ground (arith, noted-note_subjects k (key_of m) subject subjects store.subject_to_keys h))

deleted :
    (k : Key) (subject : String) (store : Mappings)
    → noted k subject store.subject_to_keys ≡ true
    → get_mapping k (delete_for_subject subject store).by_key ≡ none
unfolding delete_for_subject
deleted k subject store h = elim (Option-cases (keys_of subject store.subject_to_keys)) [
  | inl absent ↦ ground (arith, absent)
  | inr (keys, present) ↦ ground (arith, present, get_mapping-drop_mappings k keys store.by_key)
]

resolve-absent :
    (placeholder : String) (c : Container) (store : Mappings)
    → get_mapping (container_key c placeholder) store.by_key ≡ none
    → resolve placeholder c store ≡ none
unfolding resolve
resolve-absent placeholder c store h = ground (arith, h)

-- A value saved for a subject is gone once that subject is erased, whatever was saved in between:
-- its placeholder resolves to nothing in its container.
pub resolve-delete_for_subject :
    (valid : PiiMapping → Bool) (m : PiiMapping) (subjects : List String) (store mid : Mappings)
    (subject : String) (saves : List (PiiMapping × List String))
    → any (λ t. str_eq t subject) subjects ≡ true
    → save valid m subjects store ≡ (returned tt, mid)
    → resolve m.placeholder
        (record { scope = m.scope; scope_id = m.scope_id })
        (delete_for_subject subject (save_all valid saves mid))
      ≡ none
unfolding save
resolve-delete_for_subject valid m subjects store mid subject saves listed h =
    let k = key_of m in
    let here : noted k subject mid.subject_to_keys ≡ true =
      ground (arith, h, noted-listed k subject subjects store.subject_to_keys listed) in
    resolve-absent m.placeholder _ _
      (deleted k subject (save_all valid saves mid) (noted-save_all k subject valid saves mid here))
