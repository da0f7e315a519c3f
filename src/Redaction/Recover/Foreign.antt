-- ===== src/Redaction/Recover/Foreign.antt =====
-- Rehydration in a container that none of the store's mappings lies in.
use mathlib.Core.List.{append_assoc}
use euroclaw.Redaction.Distance.{Text}
use euroclaw.Redaction.Mappings.{
  PiiMapping, Mappings, Container, key_of, container_key, same_container, get_mapping, resolve,
}
use euroclaw.Redaction.Mappings.Erasure.{same_key_iff, opt_eq_iff}
use euroclaw.Redaction.Repair.{Codebook}
use euroclaw.Redaction.Redact.{drop, slice}
use euroclaw.Redaction.Recover.{Frame, replaced, rehydrate_from, rehydrate_text}
use euroclaw.Redaction.Recover.Safe.{recovers_nothing}
use euroclaw.Prelude.{
  ℕ, zero, suc, ◌+◌, ◌-◌, ◌≤◌, String, ◌≡◌, refl, sym, ap, ◌∙◌, Bool, true, false, Option, none,
  some, List, [], ◌∷◌, ◌++◌, arith, length, take, All,
}

-- The matches of a scan: each is the part of the text at its place, one behind the other from `last` on.
abbrev pub AreMatches : Text → ℕ → List Frame → Type 0
AreMatches text last [] = Unit
AreMatches text last (f ∷ fs) =
    (last ≤ f.start)
    × (f.whole ≡ slice f.start (f.start + length f.whole) text)
    × AreMatches text (f.start + length f.whole) fs

take-drop : (n : ℕ) (xs : Text) → take n xs ++ drop n xs ≡ xs
unfolding drop
take-drop zero xs = refl
take-drop (suc n) [] = refl
take-drop (suc n) (x ∷ xs) = ap (λ l. x ∷ l) (take-drop n xs)

drop_nil : (n : ℕ) → drop n [] ≡ []
unfolding drop
drop_nil zero = refl
drop_nil (suc n) = refl

drop-drop : (m n : ℕ) (xs : Text) → drop n (drop m xs) ≡ drop (m + n) xs
unfolding drop
drop-drop zero n xs = ap (λ k. drop k xs) (zero_plus n)
  where
    zero_plus : (n : ℕ) → n ≡ 0 + n
    zero_plus n = omega arith
drop-drop (suc m) n [] = drop_nil n ∙ sym (drop_nil (suc m + n))
drop-drop (suc m) n (x ∷ xs) = drop-drop m n xs ∙ ap (λ k. drop k (x ∷ xs)) (suc_plus m n)
  where
    suc_plus : (m n : ℕ) → suc (m + n) ≡ suc m + n
    suc_plus m n = omega arith

slice-drop :
    (from to : ℕ) (text : Text) → from ≤ to → slice from to text ++ drop to text ≡ drop from text
slice-drop from to text le =
    ap (λ k. slice from to text ++ drop k text) (eq_to from to le)
    ∙ (ap (λ l. slice from to text ++ l) (sym (drop-drop from (to - from) text))
        ∙ take-drop (to - from) (drop from text))
  where
    eq_to : (from to : ℕ) → from ≤ to → to ≡ from + (to - from)
    eq_to from to le = omega arith

module _ (units : String → Text) (string_of : Text → String) (c : Container)
    (store : Mappings) where
  -- The store's `resolve` in the container, on texts.
  abbrev pub resolve_text : Text → Option Text
  resolve_text p = elim (resolve (string_of p) c store) [ none ↦ none | some v ↦ some (units v) ]

  outside-none :
      (p : String) (ms : List PiiMapping)
      → All (λ m. same_container m c ≡ false) ms
      → get_mapping (container_key c p) ms ≡ none
  unfolding get_mapping
  outside-none p [] h = refl
  outside-none p (m ∷ ms) h = ground (
    arith,
    h.0,
    outside-none p ms h.1,
    same_key_iff (key_of m) (container_key c p),
    opt_eq_iff m.scope c.scope,
    opt_eq_iff m.scope_id c.scope_id,
  )

  resolve_text-none :
      All (λ m. same_container m c ≡ false) store.by_key → (p : Text) → resolve_text p ≡ none
  unfolding resolve
  resolve_text-none foreign p = ground (arith, outside-none (string_of p) store.by_key foreign)

module _ (lower : Text → Text) (is_space : ℕ → Bool) (name_book generic_book : Codebook)
    (find : Text → Option Text) (missing : (p : Text) → find p ≡ none) where
  replaced_lem :
      (recover : Bool) (f : Frame)
      → replaced lower is_space name_book generic_book find recover f ≡ f.whole
  replaced_lem true f = ground (
    arith,
    missing f.whole,
    recovers_nothing lower is_space name_book generic_book find missing f.kind_raw f.identity_raw,
  )
  replaced_lem false f = ground (arith, missing f.whole)

  rehydrate_from_lem :
      (recover : Bool) (text : Text) (fs : List Frame) (out : Text) (last : ℕ)
      → AreMatches text last fs
      → rehydrate_from lower is_space name_book generic_book find recover text fs out last
        ≡ out ++ drop last text
  unfolding rehydrate_from
  rehydrate_from_lem recover text [] out last m = refl
  rehydrate_from_lem recover text (f ∷ fs) out last (le, is, more) =
      let end = f.start + length f.whole in
      rehydrate_from_lem recover text fs _ end more
      ∙ (append_assoc out _ (drop end text)
          ∙ ap (λ t. out ++ t)
              (append_assoc (slice last f.start text) _ (drop end text)
                ∙ (ap (λ t. slice last f.start text ++ (t ++ drop end text))
                      (replaced_lem recover f ∙ is)
                    ∙ (ap (λ t. slice last f.start text ++ t)
                          (slice-drop f.start end text (omega arith))
                        ∙ slice-drop last f.start text le))))

-- Where no mapping of the store lies in the container and the scan gives matches of the text in their
-- order, rehydration gives the text back as it was, with recovery and without it: the placeholders of
-- another container are left as they stand.
pub rehydrate_text-foreign :
    (lower : Text → Text) (is_space : ℕ → Bool) (name_book generic_book : Codebook)
    (units : String → Text) (string_of : Text → String) (c : Container) (store : Mappings)
    (scan : Bool → Text → List Frame) (recover : Bool) (text : Text)
    → All (λ m. same_container m c ≡ false) store.by_key
    → AreMatches text 0 (scan recover text)
    → rehydrate_text lower is_space name_book generic_book
        (resolve_text units string_of c store)
        scan
        recover
        text
      ≡ text
unfolding rehydrate_text drop
rehydrate_text-foreign lower is_space name_book generic_book units string_of c store scan recover
      text foreign matches =
    rehydrate_from_lem lower is_space name_book generic_book (resolve_text units string_of c store)
      (resolve_text-none units string_of c store foreign) recover text (scan recover text) [] 0
      matches
