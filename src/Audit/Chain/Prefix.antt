-- ===== src/Audit/Chain/Prefix.antt =====
-- Logs that grow beyond a published head: `append` and `headOf`.
use mathlib.Core.Path.{subst}
use mathlib.Core.List.{append_assoc, append-nil}
use euroclaw.Audit.Chain.{
  AuditInput, AuditEntry, Anchor, Digest, AuditHead, last_entry, head_of, hash_by_seq, append,
  sealed_entry, tip_of, verify_audit_chain,
}
use euroclaw.Audit.Chain.Intact.{IsChain, verify_audit_chain_iff, append-IsChain}
use euroclaw.Prelude.{
  [], ℕ, suc, ◌<◌, ◌≡◌, refl, sym, ap, ◌∙◌, inl, inr, Bool, Option, none, some, List, ◌∷◌, ◌++◌,
  arith, Bool-cases, Option-cases, some_inj, length,
}

module _ {Hash : Type 0} (d : Digest Hash) where
  hash_by_seq-below :
      (h : Hash) (i : ℕ) (es : List (AuditEntry Hash)) (k : ℕ)
      → IsChain d h i es
      → k < i
      → hash_by_seq k es ≡ none
  unfolding hash_by_seq
  hash_by_seq-below h i [] k c lt = refl
  hash_by_seq-below h i (e ∷ es) k (_, _, num, c) lt =
      rw (hash_by_seq-below e.hash (suc i) es k c (omega arith), hash_by_seq) (ground arith)

  hash_by_seq-last :
      (h : Hash) (i : ℕ) (es more : List (AuditEntry Hash)) (e : AuditEntry Hash)
      → IsChain d h i (es ++ more)
      → last_entry es ≡ some e
      → hash_by_seq e.snapshot.seq (es ++ more) ≡ some e.hash
  unfolding hash_by_seq last_entry
  hash_by_seq-last h i [] more e c l = cc
  hash_by_seq-last h i (f ∷ []) more e (_, _, num, c) l =
      subst (λ x. hash_by_seq x.snapshot.seq (f ∷ more) ≡ some x.hash) (some_inj l)
        (rw (hash_by_seq-below f.hash (suc i) more f.snapshot.seq c (omega arith)) (ground arith))
  hash_by_seq-last h i (f ∷ g ∷ es) more e (_, _, _, c) l =
      rw (hash_by_seq-last f.hash (suc i) (g ∷ es) more e c l)

  -- Any number of records, written one after the other; a record that the schema refuses is not
  -- written.
  unfoldable pub append_all :
      (AuditInput → Bool) → List (AuditEntry Hash) → List AuditInput → List (AuditEntry Hash)
  append_all valid log [] = log
  append_all valid log (input ∷ more) = append_all valid (append d valid log input).1 more

  append-extends :
      (valid : AuditInput → Bool) (log : List (AuditEntry Hash)) (input : AuditInput)
      → (new : List (AuditEntry Hash)) × ((append d valid log input).1 ≡ log ++ new)
  unfolding append
  append-extends valid log input = elim (Bool-cases (valid input)) [
    | inl good ↦ (
      sealed_entry d
            (record { input = input; seq = length log; prev_hash = tip_of d (last_entry log) })
          ∷ [],
      rw (good, append),
    )
    | inr bad ↦ ([], rw (bad, append) (sym (append-nil log)))
  ]

  append_all-extends :
      (valid : AuditInput → Bool) (log : List (AuditEntry Hash)) (inputs : List AuditInput)
      → (new : List (AuditEntry Hash)) × (append_all valid log inputs ≡ log ++ new)
  unfolding append_all
  append_all-extends valid log [] = ([], sym (append-nil log))
  append_all-extends valid log (input ∷ more) =
      let (first, e) = append-extends valid log input in
      let (rest, e') = append_all-extends valid (append d valid log input).1 more in
      (first ++ rest, e' ∙ (ap (λ l. l ++ rest) e ∙ append_assoc log first rest))

  append_all-IsChain :
      (valid : AuditInput → Bool) (log : List (AuditEntry Hash)) (inputs : List AuditInput)
      → IsChain d d.genesis 0 log
      → IsChain d d.genesis 0 (append_all valid log inputs)
  unfolding append_all
  append_all-IsChain valid log [] c = c
  append_all-IsChain valid log (input ∷ more) c =
      append_all-IsChain valid (append d valid log input).1 more
        (append-IsChain d valid log input c)

  pub head_of-last_entry :
      (log : List (AuditEntry Hash)) (head : AuditHead Hash)
      → head_of log ≡ some head
      → (e : AuditEntry Hash) × (last_entry log ≡ some e)
        × (e.snapshot.seq ≡ head.seq)
        × (e.hash ≡ head.hash)
  unfolding head_of
  head_of-last_entry log head h = elim (Option-cases (last_entry log)) [
    | inl missing ↦ ground arith
    | inr (e, found) ↦ (e, found, ground arith, ground arith)
  ]

  -- the heads that can have been published: none of an empty log
  abbrev pub published : Option (AuditHead Hash) → List (Anchor Hash)
  published none = []
  published (some head) = some head ∷ []

  head-IsAnchored :
      (valid : AuditInput → Bool) (log : List (AuditEntry Hash)) (inputs : List AuditInput)
      (head : AuditHead Hash)
      → head_of log ≡ some head
      → IsChain d d.genesis 0 (append_all valid log inputs)
      → hash_by_seq head.seq (append_all valid log inputs) ≡ some head.hash
  head-IsAnchored valid log inputs head h grown =
      let (new, e) = append_all-extends valid log inputs in
      let (last, found, same_seq, same_hash) = head_of-last_entry log head h in
      let at =
        hash_by_seq-last d.genesis 0 log new last (subst (IsChain d d.genesis 0) e grown) found in
      ap (hash_by_seq head.seq) e
      ∙ (sym (ap (λ k. hash_by_seq k (log ++ new)) same_seq) ∙ (at ∙ ap some same_hash))

  -- A log in which the verifier finds no problem, the empty log among them, still shows none, also
  -- against its own head published before, after any number of records have been written to it.
  pub append_all-verify :
      (valid : AuditInput → Bool) (log : List (AuditEntry Hash)) (inputs : List AuditInput)
      → verify_audit_chain d log [] ≡ []
      → verify_audit_chain d (append_all valid log inputs) (published (head_of log)) ≡ []
  append_all-verify valid log inputs v =
      let grown = append_all-IsChain valid log inputs ((verify_audit_chain_iff d log []).0 v).0 in
      elim (Option-cases (head_of log)) [
        | inl empty ↦
            ap (λ h. verify_audit_chain d (append_all valid log inputs) (published h)) empty
            ∙ (verify_audit_chain_iff d _ _).1 (grown, tt)
        | inr (head, h) ↦
            ap (λ o. verify_audit_chain d (append_all valid log inputs) (published o)) h
            ∙ (verify_audit_chain_iff d _ _).1
                (grown, (head-IsAnchored valid log inputs head h grown, tt))
      ]
