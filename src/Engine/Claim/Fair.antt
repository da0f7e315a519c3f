-- ===== src/Engine/Claim/Fair.antt =====
-- The loop of claimDueTask, and the claim that it hands out.
use euroclaw.Engine.Claim.Ready.{
  AreUnused, AreApart, AreApart-suc, IsDueIn, IsReady, IsReady-others, candidates-AreDue,
  IsReady-bury,
}
use euroclaw.Engine.Reap.{reap_all, reap_expired_leases}
use euroclaw.Engine.Reap.Laws.{reap_all-HasUniqueIds, reap_all-absent}
use euroclaw.Engine.Claim.{claim_due_task}
use euroclaw.Storage.Table.{filter_rows}
use euroclaw.Engine.Model.{is_expired}
use euroclaw.Engine.Model.{ClaimedTask, RuntimeTask, ClaimTaskInput, Tables}
use euroclaw.Engine.Lease.Held.{HasUniqueIds, lease_at}
use euroclaw.Engine.Claim.{or_claim, claim_loop}
use euroclaw.Prelude.{
  ℕ, suc, String, ◌≡◌, refl, ◌⊎◌, inl, inr, Option, none, some, List, [], ◌∷◌, arith, leb,
  Bool-cases, All, if_true, if_false,
}
use euroclaw.Engine.Claim.Taken.{IsClaimed, IsLeftBy, taken-IsClaimed, IsReady-missed}

module _ (hash_text : String → String) (ts : ℕ) (input : ClaimTaskInput) where
  or_claim-cases :
      (rest : Tables → Option ClaimedTask × Tables) (r : Option ClaimedTask × Tables)
      (claim : ClaimedTask) (s' : Tables)
      → or_claim hash_text ts input rest r ≡ (some claim, s')
      → (r ≡ (some claim, s')) ⊎ ((s1 : Tables) × (r ≡ (none, s1)) × (rest s1 ≡ (some claim, s')))
  or_claim-cases rest (none, s1) claim s' h = inr (s1, refl, h)
  or_claim-cases rest (some c, s1) claim s' h = inl h

  claim_loop-IsClaimed :
      (IsMet : Tables → Type 0) (fresh : ℕ → String × String) (clock : ℕ → ℕ)
      (others : ℕ → Tables → Tables) (cs : List RuntimeTask) (seen s s' : Tables)
      (claim : ClaimedTask)
      → ((i : ℕ) (t : Tables) → IsMet (others i t))
      → AreApart fresh others
      → All (IsDueIn ts seen) cs
      → IsReady fresh s
      → claim_loop hash_text ts input fresh clock others cs s ≡ (some claim, s')
      → IsClaimed hash_text ts input IsMet seen s' claim
  unfolding claim_loop AreUnused
  claim_loop-IsClaimed IsMet fresh clock others [] seen s s' claim met apart due ready h =
      ground arith
  claim_loop-IsClaimed IsMet fresh clock others (c ∷ cs) seen s s' claim met apart due ready h =
      let rounds =
        claim_loop hash_text ts input (λ i. fresh (suc i)) (λ i. clock (suc i))
          (λ i. others (suc i)) cs in
      let later =
        claim_loop-IsClaimed IsMet (λ i. fresh (suc i)) (λ i. clock (suc i)) (λ i. others (suc i))
          cs seen in
      let apart' = AreApart-suc fresh others apart in
      let now = IsReady-others fresh others 0 s apart ready in
      elim (Bool-cases (leb c.max_attempts c.attempt)) [
        | inl used_up ↦
            later _ s' claim (λ i. met (suc i)) apart' due.1
              (IsReady-bury ts (clock 0) fresh c _ now) (if_true _ _ _ used_up h)
        | inr left ↦ elim (or_claim-cases rounds _ claim s' (if_false _ _ _ left h)) [
          | inl taken ↦
              taken-IsClaimed hash_text ts input IsMet (fresh 0).0 (fresh 0).1 (clock 0) c seen _ s'
                claim (met 0 s) left due.0 now.unique (now.unused 0) taken
          | inr (s1, missed, rest) ↦
              later s1 s' claim (λ i. met (suc i)) apart' due.1
                (IsReady-missed hash_text ts input (fresh 0).0 (fresh 0).1 (clock 0) fresh c _ s1
                  refl missed now)
                rest
        ]
      ]

  -- Let ids be unique, the drawn lease ids not be in use, and other clients of the tables, who may write
  -- anything else between the reading of the candidates and each round of the loop, keep ids unique and
  -- not use the drawn ids. A task that `claimDueTask` hands out was pending, due and within its attempts
  -- where the candidates were read, and its row was still pending in the tables that the others had left
  -- for the round that wrote it. That row is now leased to the worker, one attempt after the one read,
  -- otherwise unchanged, under a lease whose id was not in use. Until the lease expires its token opens
  -- it, a token of another hash never does, and the row of every other task is as the round met it.
  pub claim_due_task-IsClaimed :
      (reaped_at : ℕ) (reap_clock clock : ℕ → ℕ) (fresh : ℕ → String × String)
      (others : ℕ → Tables → Tables) (s s' : Tables) (claim : ClaimedTask)
      → HasUniqueIds s
      → ((i : ℕ) → lease_at (fresh i).0 s ≡ none)
      → AreApart fresh others
      → claim_due_task hash_text reaped_at ts reap_clock clock fresh others input s
        ≡ (some claim, s')
      → IsClaimed hash_text ts input
          (IsLeftBy hash_text ts input others)
          (reap_expired_leases reaped_at reap_clock s).1
          s'
          claim
  unfolding claim_due_task reap_expired_leases AreUnused
  claim_due_task-IsClaimed reaped_at reap_clock clock fresh others s s' claim u unused apart h =
      let expired = filter_rows (is_expired reaped_at) s.leases in
      let reaped = (reap_all reaped_at reap_clock expired s).1 in
      let u' : HasUniqueIds reaped = reap_all-HasUniqueIds reaped_at reap_clock expired s u in
      let ready : IsReady fresh reaped = record {
        unique = u';
        unused = λ i. reap_all-absent (fresh i).0 reaped_at reap_clock expired s (unused i);
      } in
      claim_loop-IsClaimed (IsLeftBy hash_text ts input others) fresh clock others _ reaped reaped
        s' claim (λ i t. (i, t, refl)) apart (candidates-AreDue ts input reaped u'.0) ready h
