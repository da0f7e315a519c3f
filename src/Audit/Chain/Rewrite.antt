-- ===== src/Audit/Chain/Rewrite.antt =====
-- Logs that agree on a published head, under a digest free of collisions.
use mathlib.Core.Path.{subst}
use euroclaw.Audit.Chain.{
  Snapshot, AuditEntry, Digest, AuditHead, last_entry, head_of, hash_by_seq, verify_audit_chain,
}
use mathlib.Core.List.{append-nil}
use euroclaw.Audit.Chain.Prefix.{head_of-last_entry}
use euroclaw.Audit.Chain.Intact.{IsChain, verify_audit_chain_iff}
use euroclaw.Prelude.{
  [], ℕ, ◌≡◌, refl, sym, ap, ◌∙◌, inl, inr, some, List, ◌∷◌, ◌++◌, arith, Option-cases, some_inj,
  length,
}

abbrev pub CollisionFree : {Hash : Type 0} → Digest Hash → Type 0
CollisionFree d = (a b : Snapshot _) → d.hash_entry a ≡ d.hash_entry b → a ≡ b

-- The first list, read backwards, in front of the second.
onto : {A : Type 0} → List A → List A → List A
onto [] acc = acc
onto (x ∷ xs) acc = onto xs (x ∷ acc)

onto-append : {A : Type 0} (xs ys acc : List A) → onto (xs ++ ys) acc ≡ onto ys (onto xs acc)
unfolding onto
onto-append [] ys acc = refl
onto-append (x ∷ xs) ys acc = onto-append xs ys (x ∷ acc)

onto-onto : {A : Type 0} (xs ys zs : List A) → onto (onto xs ys) zs ≡ onto ys (xs ++ zs)
unfolding onto
onto-onto [] ys zs = refl
onto-onto (x ∷ xs) ys zs = onto-onto xs (x ∷ ys) zs

onto-twice : {A : Type 0} (xs : List A) → onto (onto xs []) [] ≡ xs ++ []
unfolding onto
onto-twice xs = onto-onto xs [] []

module _ {Hash : Type 0} (d : Digest Hash) where
  newest : List (AuditEntry Hash) → Hash
  newest [] = d.genesis
  newest (e ∷ older) = e.hash

  -- A chain, newest entry first.
  abbrev IsBackChain : List (AuditEntry Hash) → Type 0
  IsBackChain [] = Unit
  IsBackChain (e ∷ older) =
      (e.snapshot.prev_hash ≡ newest older)
      × (d.hash_entry e.snapshot ≡ e.hash)
      × (e.snapshot.seq ≡ length older)
      × IsBackChain older

  chain_back :
      (xs acc : List (AuditEntry Hash))
      → IsBackChain acc
      → IsChain d (newest acc) (length acc) xs
      → IsBackChain (onto xs acc)
  unfolding onto newest
  chain_back [] acc b c = b
  chain_back (x ∷ xs) acc b (link, own, num, c) = chain_back xs (x ∷ acc) (link, own, num, b) c

  -- An entry of the log with a given hash, and what is older and later.
  record IsFound (log acc : List (AuditEntry Hash)) (h : Hash) : Type 0 where
    entry : AuditEntry Hash
    older : List (AuditEntry Hash)
    later : List (AuditEntry Hash)
    back : IsBackChain (entry ∷ older)
    hash : entry.hash ≡ h
    split : onto log acc ≡ onto later (entry ∷ older)

  hash_by_seq-IsFound :
      (log acc : List (AuditEntry Hash)) (k : ℕ) (h : Hash)
      → IsBackChain acc
      → IsChain d (newest acc) (length acc) log
      → hash_by_seq k log ≡ some h
      → IsFound log acc h
  unfolding onto newest hash_by_seq
  hash_by_seq-IsFound [] acc k h b c f = cc
  hash_by_seq-IsFound (x ∷ xs) acc k h b (link, own, num, c) f =
      elim (Option-cases (hash_by_seq k xs)) [
        | inl missed ↦ record {
          entry = x;
          older = acc;
          later = xs;
          back = (link, own, num, b);
          hash = ground arith;
          split = refl;
        }
        | inr (h', deeper) ↦
            let r = hash_by_seq-IsFound xs (x ∷ acc) k h (link, own, num, b) c (ground arith) in
            record {
              entry = r.entry;
              older = r.older;
              later = r.later;
              back = r.back;
              hash = r.hash;
              split = r.split;
            }
      ]

  onto-last_entry :
      (xs acc : List (AuditEntry Hash)) (e : AuditEntry Hash)
      → last_entry xs ≡ some e
      → (older : List (AuditEntry Hash)) × (onto xs acc ≡ e ∷ older)
  unfolding onto last_entry
  onto-last_entry [] acc e h = cc
  onto-last_entry (x ∷ []) acc e h = (acc, ap (λ y. y ∷ acc) (some_inj h))
  onto-last_entry (x ∷ y ∷ xs) acc e h = onto-last_entry (y ∷ xs) (x ∷ acc) e h

  module _ (free : CollisionFree d) where
    entry_eq : (a b : AuditEntry Hash) → a.snapshot ≡ b.snapshot → a.hash ≡ b.hash → a ≡ b
    entry_eq a b p q = ground arith

    -- The newest hash determines every entry below.
    back_unique :
        (e f : AuditEntry Hash) (es fs : List (AuditEntry Hash))
        → IsBackChain (e ∷ es)
        → IsBackChain (f ∷ fs)
        → e.hash ≡ f.hash
        → e ∷ es ≡ f ∷ fs
    unfolding newest
    back_unique e f [] [] (_, own, _, _) (_, own', _, _) h =
        ap (λ x. x ∷ []) (entry_eq e f (free e.snapshot f.snapshot (own ∙ (h ∙ sym own'))) h)
    back_unique e f [] (f' ∷ fs) (_, own, num, _) (_, own', num', _) h =
        let same = free e.snapshot f.snapshot (own ∙ (h ∙ sym own')) in
        absurd (omega (arith, ap (λ s. s.seq) same))
    back_unique e f (e' ∷ es) [] (_, own, num, _) (_, own', num', _) h =
        let same = free e.snapshot f.snapshot (own ∙ (h ∙ sym own')) in
        absurd (omega (arith, ap (λ s. s.seq) same))
    back_unique e f (e' ∷ es) (f' ∷ fs) (link, own, _, c) (link', own', _, c') h =
        let same = free e.snapshot f.snapshot (own ∙ (h ∙ sym own')) in
        let older =
          back_unique e' f' es fs c c' (sym link ∙ (ap (λ s. s.prev_hash) same ∙ link')) in
        cc (entry_eq e f same h)

    same_below :
        (published log : List (AuditEntry Hash)) (last : AuditEntry Hash) (k : ℕ)
        → IsChain d d.genesis 0 published
        → last_entry published ≡ some last
        → IsChain d d.genesis 0 log
        → hash_by_seq k log ≡ some last.hash
        → (later : List (AuditEntry Hash)) × (log ≡ published ++ later)
    unfolding newest onto
    same_below published log last k c l c' found =
        let r = hash_by_seq-IsFound log [] k last.hash tt c' found in
        let (older, e) = onto-last_entry published [] last l in
        let back = subst IsBackChain e (chain_back published [] tt c) in
        let same = back_unique r.entry last r.older older r.back back r.hash in
        let whole =
          r.split ∙ (ap (onto r.later) (same ∙ sym e) ∙ sym (onto-append published r.later [])) in
        (
          r.later,
          sym (append-nil log)
              ∙ (sym (onto-twice log)
                  ∙ (ap (λ z. onto z []) whole
                      ∙ (onto-twice (published ++ r.later) ∙ append-nil _))),
        )

    -- Where the digest has no collisions: if the head of a log in order was published, and the
    -- verifier finds no problem in a later log against that head, the later log is the published
    -- one with entries behind it. A rewrite or a truncation below the head cannot pass.
    pub verify_audit_chain-prefix :
        (published log : List (AuditEntry Hash)) (head : AuditHead Hash)
        → verify_audit_chain d published [] ≡ []
        → head_of published ≡ some head
        → verify_audit_chain d log (some head ∷ []) ≡ []
        → (later : List (AuditEntry Hash)) × (log ≡ published ++ later)
    verify_audit_chain-prefix published log head v h w =
        let chain = ((verify_audit_chain_iff d published []).0 v).0 in
        let (chain', agrees) = (verify_audit_chain_iff d log (some head ∷ [])).0 w in
        let (last, found, same_seq, same_hash) = head_of-last_entry d published head h in
        same_below published log last head.seq chain found chain'
          (agrees.0 ∙ ap some (sym same_hash))
