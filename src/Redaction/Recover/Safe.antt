-- ===== src/Redaction/Recover/Safe.antt =====
-- What recovery may answer.
use euroclaw.Redaction.Mappings.{PiiKind}
use euroclaw.Redaction.Distance.{Text}
use euroclaw.Redaction.Repair.{
  text_eq, Codebook, kind_text, kinds, format_placeholder, repair_kind, join, candidate_codes,
}
use euroclaw.Redaction.Repair.Words.{text_eq_iff}
use euroclaw.Redaction.Recover.Unanimous.{IsUnanimous, resolve_codes-IsUnanimous}
use euroclaw.Redaction.Recover.{
  Warning, nothing, is_empty, find_kind, is_separator, split_words, slots_of, resolve_in, repaired,
  as_written, or_repaired, recover_words, recover_frame,
}
use euroclaw.Prelude.{
  ℕ, ◌≡◌, refl, sym, ap, ◌∙◌, ◌⊎◌, inl, inr, Bool, true, false, Option, none, some, List, [], ◌∷◌,
  arith, if◌then◌else◌, Bool-cases, Option-cases, some_inj, any, all, if_true, if_false,
}

module _ (lower : Text → Text) (is_space : ℕ → Bool) (name_book generic_book : Codebook)
    (resolve : Text → Option Text) where
  -- A repair: the kind and the codes that it tried, of which all that resolve have the value.
  pub record IsRepaired (kind_raw : Text) (words : List Text) (v : Text) : Type 0 where
    pub kind : PiiKind
    pub codes : List Text
    pub kind_is : repair_kind (lower kind_raw) ≡ some kind
    pub codes_are :
        candidate_codes (slots_of lower is_space name_book generic_book resolve kind words)
        ≡ some codes
    pub unanimous : IsUnanimous (λ code. resolve (format_placeholder kind code)) codes v

  abbrev pub IsAsWritten : Text → List Text → Text → Type 0
  IsAsWritten kind_raw words v =
      (kind : PiiKind) × ((kind_text kind ≡ lower kind_raw)
        × (resolve (format_placeholder kind (join words)) ≡ some v))

  resolve_in-IsUnanimous :
      (kind : PiiKind) (o : Option (List Text)) (v : Text)
      → (resolve_in lower is_space name_book generic_book resolve kind o).0 ≡ some v
      → (codes : List Text) × ((o ≡ some codes)
          × IsUnanimous (λ code. resolve (format_placeholder kind code)) codes v)
  resolve_in-IsUnanimous kind none v h = ground arith
  resolve_in-IsUnanimous kind (some codes) v h =
      (codes, (refl, resolve_codes-IsUnanimous _ codes v h))

  repaired-IsRepaired :
      (kind_raw : Text) (o : Option PiiKind) (words : List Text) (v : Text)
      → repair_kind (lower kind_raw) ≡ o
      → (repaired lower is_space name_book generic_book resolve o words).0 ≡ some v
      → IsRepaired kind_raw words v
  unfolding repaired
  repaired-IsRepaired kind_raw none words v e h = ground arith
  repaired-IsRepaired kind_raw (some kind) words v e h =
      let slots = slots_of lower is_space name_book generic_book resolve kind words in
      let (codes, (codes_are, all)) =
        resolve_in-IsUnanimous kind (candidate_codes slots) v (full (any is_empty slots) _ h) in
      record { kind = kind; codes = codes; kind_is = e; codes_are = codes_are; unanimous = all }
    where
      full :
          (b : Bool) (x : Option Text × List Warning)
          → (if b then nothing else x).0 ≡ some v
          → x.0 ≡ some v
      full true x h = ground arith
      full false x h = h

  find_kind-some :
      (k : Text) (xs : List PiiKind) (kind : PiiKind)
      → find_kind k xs ≡ some kind
      → kind_text kind ≡ k
  unfolding find_kind
  find_kind-some k [] kind h = ground arith
  find_kind-some k (x ∷ xs) kind h = elim (Bool-cases (text_eq (kind_text x) k)) [
    | inl eq ↦
        ap kind_text (sym (some_inj (if_true _ _ _ eq h))) ∙ (text_eq_iff (kind_text x) k).0 eq
    | inr ne ↦ find_kind-some k xs kind (if_false _ _ _ ne h)
  ]

  as_written-IsAsWritten :
      (kind_raw : Text) (o : Option PiiKind) (words : List Text) (v : Text)
      → find_kind (lower kind_raw) kinds ≡ o
      → as_written lower is_space name_book generic_book resolve o words ≡ some v
      → IsAsWritten kind_raw words v
  as_written-IsAsWritten kind_raw none words v e h = ground arith
  as_written-IsAsWritten kind_raw (some kind) words v e h =
      (kind, (find_kind-some (lower kind_raw) kinds kind e, h))

  recover_words-IsSafe :
      (kind_raw : Text) (words : List Text) (v : Text)
      → (recover_words lower is_space name_book generic_book resolve kind_raw words).0 ≡ some v
      → IsAsWritten kind_raw words v ⊎ IsRepaired kind_raw words v
  unfolding recover_words
  recover_words-IsSafe kind_raw [] v h = ground arith
  recover_words-IsSafe kind_raw (w ∷ ws) v h =
      from
        (as_written lower is_space name_book generic_book resolve (find_kind (lower kind_raw) kinds)
          (w ∷ ws))
        refl h
    where
      from :
          (o : Option Text)
          → as_written lower is_space name_book generic_book resolve
              (find_kind (lower kind_raw) kinds)
              (w ∷ ws)
            ≡ o
          → (or_repaired lower is_space name_book generic_book resolve o (
              repaired lower is_space name_book generic_book resolve
                (repair_kind (lower kind_raw))
                (w ∷ ws))).0
            ≡ some v
          → IsAsWritten kind_raw (w ∷ ws) v ⊎ IsRepaired kind_raw (w ∷ ws) v
      from none e h = inr (repaired-IsRepaired kind_raw _ (w ∷ ws) v refl h)
      from (some found) e h = inl (as_written-IsAsWritten kind_raw _ (w ∷ ws) v refl (e ∙ h))

  -- A value that `recoverFrame` answers is stored in the container: either under the placeholder as
  -- written, with the letters' case and the separators set right, or under one of the candidate codes of
  -- the repaired kind, and then every candidate code that resolves has that same value.
  pub recover_frame-IsSafe :
      (kind_raw identity_raw v : Text)
      → (recover_frame lower is_space name_book generic_book resolve kind_raw identity_raw).0
        ≡ some v
      → IsAsWritten kind_raw (split_words (is_separator is_space) (lower identity_raw) []) v
        ⊎ IsRepaired kind_raw (split_words (is_separator is_space) (lower identity_raw) []) v
  unfolding recover_frame
  recover_frame-IsSafe kind_raw identity_raw v h = recover_words-IsSafe kind_raw _ v h

  pub recovers_nothing :
      ((p : Text) → resolve p ≡ none)
      → (kind_raw identity_raw : Text)
      → (recover_frame lower is_space name_book generic_book resolve kind_raw identity_raw).0 ≡ none
  recovers_nothing foreign kind_raw identity_raw =
      elim (Option-cases
        (recover_frame lower is_space name_book generic_book resolve kind_raw identity_raw).0) [
          | inl e ↦ e
          | inr (v, e) ↦ absurd (elim (recover_frame-IsSafe kind_raw identity_raw v e) [
            | inl (kind, (_, found)) ↦ none-ne (sym (foreign _) ∙ found)
            | inr r ↦ none-ne (sym (foreign _) ∙ r.unanimous.from.3.1)
          ])
        ]
    where
      none-ne : {w : Text} → none ≡ some w → ⊥
      none-ne e = ground arith
