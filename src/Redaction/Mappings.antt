-- ===== src/Redaction/Mappings.antt =====
-- The placeholder mappings: createMemoryPiiMappingStore of packages/foundation/core/src/redact.ts. The
-- key of a mapping, the JSON text of three strings in the source, is the triple itself; the Map and the
-- Sets are lists. The schema of a mapping is the parameter `valid`.
pub mod Erasure
use euroclaw.Base.Eff.{Result, returned, thrown, validation_error}
use euroclaw.Prelude.{
  ℕ, ◌+◌, String, Bool, false, ◌&&◌, ◌||◌, Option, none, some, List, [], ◌∷◌, ◌++◌, str_eq,
  if◌then◌else◌, opt_eq,
}

pub data PiiKind : Type 0 where
  email phone name address date id card secret url : PiiKind

pub record PiiMapping : Type 0 where
  pub placeholder : String
  pub original : String
  pub original_hash : Option String
  pub kind : PiiKind
  pub scope : Option String
  pub scope_id : Option String
  pub created_at : ℕ

-- A rehydration context; none at all is one without scope and id.
pub record Container : Type 0 where
  pub scope : Option String
  pub scope_id : Option String

pub record Key : Type 0 where
  pub scope : Option String
  pub scope_id : Option String
  pub placeholder : String

unfoldable pub same_key : Key → Key → Bool
same_key a b =
    opt_eq a.scope b.scope && (opt_eq a.scope_id b.scope_id && str_eq a.placeholder b.placeholder)

-- `containerKey`
abbrev pub container_key : Container → String → Key
container_key c placeholder = record {
  scope = c.scope;
  scope_id = c.scope_id;
  placeholder = placeholder;
}

abbrev pub key_of : PiiMapping → Key
key_of m = record { scope = m.scope; scope_id = m.scope_id; placeholder = m.placeholder }

abbrev pub same_container : PiiMapping → Container → Bool
same_container m c = opt_eq m.scope c.scope && opt_eq m.scope_id c.scope_id

pub record Mappings : Type 0 where
  pub by_key : List PiiMapping
  pub subject_to_keys : List (String × List Key)

unfoldable pub get_mapping : Key → List PiiMapping → Option PiiMapping
get_mapping k [] = none
get_mapping k (m ∷ ms) = if same_key (key_of m) k then some m else get_mapping k ms

-- `byKey.set`: a mapping of the same key is replaced where it stands
unfoldable pub set_mapping : PiiMapping → List PiiMapping → List PiiMapping
set_mapping m [] = m ∷ []
set_mapping m (x ∷ xs) = if same_key (key_of x) (key_of m) then m ∷ xs else x ∷ set_mapping m xs

unfoldable pub has_key : Key → List Key → Bool
has_key k [] = false
has_key k (x ∷ xs) = same_key x k || has_key k xs

abbrev pub add_key : Key → List Key → List Key
add_key k ks = if has_key k ks then ks else ks ++ k ∷ []

unfoldable pub keys_of : String → List (String × List Key) → Option (List Key)
keys_of subject [] = none
keys_of subject ((s, ks) ∷ more) = if str_eq s subject then some ks else keys_of subject more

-- one round of the loop over the subject ids of `save`
unfoldable pub note_subject : Key → String → List (String × List Key) → List (String × List Key)
note_subject k subject [] = (subject, k ∷ []) ∷ []
note_subject k subject ((s, ks) ∷ more) =
    if str_eq s subject then (s, add_key k ks) ∷ more else (s, ks) ∷ note_subject k subject more

unfoldable pub note_subjects :
    Key → List String → List (String × List Key) → List (String × List Key)
unfolding note_subject
note_subjects k [] index = index
note_subjects k (s ∷ more) index = note_subjects k more (note_subject k s index)

unfoldable pub save :
    (PiiMapping → Bool) → PiiMapping → List String → Mappings → Result (Unit {0}) × Mappings
unfolding note_subjects set_mapping
save valid m subjects store =
    if valid m
    then (
      returned tt,
      record {
        by_key = set_mapping m store.by_key;
        subject_to_keys = note_subjects (key_of m) subjects store.subject_to_keys;
      },
    )
    else (thrown (validation_error "invalid PII mapping"), store)

unfoldable pub resolve : String → Container → Mappings → Option String
unfolding get_mapping
resolve placeholder c store = elim (get_mapping (container_key c placeholder) store.by_key) [
  | none ↦ none
  | some m ↦ some m.original
]

unfoldable pub find_by_hash : String → Container → List PiiMapping → Option PiiMapping
find_by_hash hash c [] = none
find_by_hash hash c (m ∷ ms) =
    if opt_eq m.original_hash (some hash) && same_container m c
    then some m
    else find_by_hash hash c ms

-- `for (const key of keys) byKey.delete(key)`
unfoldable pub drop_mappings : List Key → List PiiMapping → List PiiMapping
drop_mappings keys [] = []
drop_mappings keys (m ∷ ms) =
    if has_key (key_of m) keys then drop_mappings keys ms else m ∷ drop_mappings keys ms

unfoldable pub drop_keys : List Key → List Key → List Key
drop_keys keys [] = []
drop_keys keys (k ∷ ks) = if has_key k keys then drop_keys keys ks else k ∷ drop_keys keys ks

-- The loop that takes the keys out of every subject's set. `keys` is the subject's own set, so once the
-- loop has been there it is empty, and the sets behind it stay as they are.
unfoldable pub prune_sets : String → List Key → List (String × List Key) → List (String × List Key)
unfolding drop_keys
prune_sets subject keys [] = []
prune_sets subject keys ((s, ks) ∷ more) =
    if str_eq s subject
    then (s, []) ∷ more
    else (s, drop_keys keys ks) ∷ prune_sets subject keys more

unfoldable pub drop_subject : String → List (String × List Key) → List (String × List Key)
drop_subject subject [] = []
drop_subject subject ((s, ks) ∷ more) =
    if str_eq s subject then more else (s, ks) ∷ drop_subject subject more

unfoldable pub delete_for_subject : String → Mappings → Mappings
unfolding drop_mappings prune_sets drop_subject keys_of
delete_for_subject subject store = elim (keys_of subject store.subject_to_keys) [
  | none ↦ store
  | some keys ↦ record {
    by_key = drop_mappings keys store.by_key;
    subject_to_keys = drop_subject subject (prune_sets subject keys store.subject_to_keys);
  }
]
