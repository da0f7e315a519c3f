-- ===== src/Audit/Chain/Intact.antt =====
-- Intact logs, described apart from the code of `verifyAuditChain`.
use euroclaw.Audit.Chain.{
  AuditInput, Snapshot, AuditEntry, Digest, AuditHead, Anchor, last_entry, hash_by_seq, tip_of,
  append, sealed_entry, link_problem, hash_problem, seq_problem, walk, check_anchors,
  present_problem, verify_audit_chain,
}
use euroclaw.Prelude.{
  [], ℕ, suc, ◌+◌, ◌≡◌, refl, ◌↔◌, inl, inr, Bool, Option, none, some, List, ◌∷◌, ◌++◌, arith,
  Bool-cases, length, All,
}

pub append-eq-nil : {A : Type 0} (xs ys : List A) → xs ++ ys ≡ [] → (xs ≡ []) × (ys ≡ [])
append-eq-nil [] ys h = (refl, h)
append-eq-nil (x ∷ xs) ys h = absurd (nonempty h)
  where
    nonempty : x ∷ (xs ++ ys) ≡ [] → ⊥
    nonempty e = cc

module _ {Hash : Type 0} (d : Digest Hash) where
  -- Each entry commits to the hash before it and to its own content, and the seqs count up.
  abbrev pub IsChain : Hash → ℕ → List (AuditEntry Hash) → Type 0
  IsChain expected index [] = Unit
  IsChain expected index (e ∷ es) =
      (e.snapshot.prev_hash ≡ expected)
      × (d.hash_entry e.snapshot ≡ e.hash)
      × (e.snapshot.seq ≡ index)
      × IsChain e.hash (suc index) es

  link_problem-none :
      (h : Hash) (e : AuditEntry Hash) → link_problem d h e ≡ [] → e.snapshot.prev_hash ≡ h
  unfolding link_problem
  link_problem-none h e p = ground (arith, d.same_iff e.snapshot.prev_hash h)

  hash_problem-none :
      (e : AuditEntry Hash) → hash_problem d e ≡ [] → d.hash_entry e.snapshot ≡ e.hash
  unfolding hash_problem
  hash_problem-none e p = ground (arith, d.same_iff (d.hash_entry e.snapshot) e.hash)

  seq_problem-none : (i : ℕ) (e : AuditEntry Hash) → seq_problem d i e ≡ [] → e.snapshot.seq ≡ i
  unfolding seq_problem
  seq_problem-none i e p = ground arith

  pub walk-IsChain :
      (h : Hash) (i : ℕ) (es : List (AuditEntry Hash)) → walk d h i es ≡ [] → IsChain h i es
  unfolding walk
  walk-IsChain h i [] p = tt
  walk-IsChain h i (e ∷ es) p =
      let (link, rest) = append-eq-nil (link_problem d h e) _ p in
      let (own, rest') = append-eq-nil (hash_problem d e) _ rest in
      let (num, rest'') = append-eq-nil (seq_problem d i e) _ rest' in
      (
        link_problem-none h e link,
        hash_problem-none e own,
        seq_problem-none i e num,
        walk-IsChain e.hash (suc i) es rest'',
      )

  pub IsChain-walk :
      (h : Hash) (i : ℕ) (es : List (AuditEntry Hash)) → IsChain h i es → walk d h i es ≡ []
  unfolding walk link_problem hash_problem seq_problem
  IsChain-walk h i [] c = refl
  IsChain-walk h i (e ∷ es) (link, own, num, rest) = ground (
    arith,
    d.same_iff e.snapshot.prev_hash h,
    d.same_iff (d.hash_entry e.snapshot) e.hash,
    IsChain-walk e.hash (suc i) es rest,
  )

  -- An anchor that the log agrees with.
  abbrev pub Agrees : List (AuditEntry Hash) → Anchor Hash → Type 0
  Agrees entries none = ⊥
  Agrees entries (some head) = hash_by_seq head.seq entries ≡ some head.hash

  present_problem-none :
      (head : AuditHead Hash) (o : Option Hash) → present_problem d head o ≡ [] → o ≡ some head.hash
  unfolding present_problem
  present_problem-none head none p = cc
  present_problem-none head (some h) p = ground (arith, d.same_iff h head.hash)

  check_anchors-Agrees :
      (es : List (AuditEntry Hash)) (anchors : List (Anchor Hash))
      → check_anchors d es anchors ≡ []
      → All (Agrees es) anchors
  unfolding check_anchors
  check_anchors-Agrees es [] p = tt
  check_anchors-Agrees es (none ∷ more) p = cc
  check_anchors-Agrees es (some head ∷ more) p =
      let (here, rest) = append-eq-nil (present_problem d head (hash_by_seq head.seq es)) _ p in
      (present_problem-none head (hash_by_seq head.seq es) here, check_anchors-Agrees es more rest)

  Agrees-check_anchors :
      (es : List (AuditEntry Hash)) (anchors : List (Anchor Hash))
      → All (Agrees es) anchors
      → check_anchors d es anchors ≡ []
  unfolding check_anchors present_problem
  Agrees-check_anchors es [] h = refl
  Agrees-check_anchors es (none ∷ more) h = absurd h.0
  Agrees-check_anchors es (some head ∷ more) h =
      ground (arith, h.0, d.same_iff head.hash head.hash, Agrees-check_anchors es more h.1)

  -- The verifier finds no problem exactly when the log is a chain from the genesis value with seqs
  -- from 0 and every anchor is well-formed and names a seq whose last entry has the anchored hash.
  pub verify_audit_chain_iff :
      (es : List (AuditEntry Hash)) (anchors : List (Anchor Hash))
      → (verify_audit_chain d es anchors ≡ []) ↔ (IsChain d.genesis 0 es × All (Agrees es) anchors)
  unfolding verify_audit_chain
  verify_audit_chain_iff es anchors = (
    λ p.
        let (chain, agreed) = append-eq-nil (walk d d.genesis 0 es) _ p in
        (walk-IsChain d.genesis 0 es chain, check_anchors-Agrees es anchors agreed),
    λ (c, a). rw (IsChain-walk d.genesis 0 es c) (Agrees-check_anchors es anchors a),
  )

  -- The hash that the next entry commits to.
  pub tip : Hash → List (AuditEntry Hash) → Hash
  tip h [] = h
  tip h (e ∷ es) = tip e.hash es

  tip_of-last_entry :
      (es : List (AuditEntry Hash)) (e : AuditEntry Hash)
      → tip_of d (last_entry (e ∷ es)) ≡ tip e.hash es
  unfolding tip_of last_entry tip
  tip_of-last_entry [] e = refl
  tip_of-last_entry (f ∷ es) e = tip_of-last_entry es f

  tip_of-tip : (es : List (AuditEntry Hash)) → tip_of d (last_entry es) ≡ tip d.genesis es
  unfolding tip_of last_entry tip
  tip_of-tip [] = refl
  tip_of-tip (e ∷ es) = tip_of-last_entry es e

  IsChain-snoc :
      (h : Hash) (i : ℕ) (es : List (AuditEntry Hash)) (s : Snapshot Hash)
      → IsChain h i es
      → s.prev_hash ≡ tip h es
      → s.seq ≡ i + length es
      → IsChain h i (es ++ sealed_entry d s ∷ [])
  unfolding tip
  IsChain-snoc h i [] s c link num = (link, refl, omega arith, tt)
  IsChain-snoc h i (e ∷ es) s (a, b, n, c) link num =
      (a, b, n, IsChain-snoc e.hash (suc i) es s c link (omega arith))

  pub append-IsChain :
      (valid : AuditInput → Bool) (log : List (AuditEntry Hash)) (input : AuditInput)
      → IsChain d.genesis 0 log
      → IsChain d.genesis 0 (append d valid log input).1
  unfolding append
  append-IsChain valid log input c = elim (Bool-cases (valid input)) [
    | inl good ↦ rw (good, append) (IsChain-snoc d.genesis 0 log _ c (tip_of-tip log) (omega arith))
    | inr bad ↦ rw (bad, append) c
  ]
