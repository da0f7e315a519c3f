-- ===== src/Engine/Claim/Taken.antt =====
-- One round of claimDueTask: a candidate that is missed, and the claim of one that is taken.
use euroclaw.Engine.Claim.Ready.{AreUnused, IsDueIn, IsReady}
use mathlib.Core.Path.{subst}
use euroclaw.Storage.Table.{create, delete_one, update}
use euroclaw.Engine.Store.{any_row, update_run}
use euroclaw.Storage.Table.{assign_one}
use euroclaw.Storage.Table.Keyed.{
  find_key-delete_one, find_key-key, find_key-create, HasUniqueKeys-delete_one,
  HasUniqueKeys-create, find_one-with_key, HasUniqueKeys-assign_one, with_key, find_key,
  HasUniqueKeys, find_key-assign_one,
}
use euroclaw.Engine.Model.{
  TaskStatus, LeaseRecord, ClaimedTask, lease_key, RuntimeTask, ClaimTaskInput, Tables, task_key,
  is_pending,
}
use euroclaw.Engine.Lease.Held.{task_at, IsVouched, IsVouched-lease, HasUniqueIds, lease_at}
use euroclaw.Engine.Claim.{new_lease, expiry, claimed, take_task}
use euroclaw.Prelude.{
  ℕ, suc, ◌+◌, ◌<◌, String, ◌≡◌, refl, sym, ap, ◌∙◌, ◌≢◌, true, false, none, some, arith, eq_iff,
  leb,
}

module _ (hash_text : String → String) (ts : ℕ) (input : ClaimTaskInput) where
  missed-rows :
      (id token : String) (stamp : ℕ) (c : RuntimeTask) (s s' : Tables)
      → take_task hash_text ts input id token stamp c s ≡ (none, s')
      → (s'.tasks ≡ s.tasks)
        × (s'.leases
            ≡ delete_one
                (with_key lease_key id any_row)
                (create (new_lease hash_text ts input id token c) s.leases))
  unfolding take_task update update_run
  missed-rows id token stamp c s s' h = ground arith

  taken-rows :
      (id token : String) (stamp : ℕ) (c : RuntimeTask) (s s' : Tables) (claim : ClaimedTask)
      → HasUniqueKeys task_key s.tasks
      → take_task hash_text ts input id token stamp c s ≡ (some claim, s')
      → (old : RuntimeTask) × (task_at c.id s ≡ some old)
        × (is_pending old ≡ true)
        × (claim.task ≡ claimed ts input id c old)
        × (claim.lease_token ≡ token)
        × (claim.lease_id ≡ id)
        × (claim.expires_at ≡ expiry ts input)
        × (s'.tasks
            ≡ assign_one (with_key task_key c.id is_pending) (claimed ts input id c) s.tasks)
        × (s'.leases ≡ create (new_lease hash_text ts input id token c) s.leases)
  unfolding take_task update update_run
  taken-rows id token stamp c s s' claim u h =
      ground (arith, find_one-with_key task_key c.id is_pending s.tasks u)

  -- A row leased: nothing but its lease, its attempt and its time stamp is another.
  abbrev pub leased_row : String → ℕ → ℕ → RuntimeTask → RuntimeTask
  leased_row lease until attempt old = record old {
    status = TaskStatus.leased;
    lease_id = some lease;
    worker_id = some input.worker_id;
    leased_until = some until;
    attempt = attempt + 1;
    updated_at = ts;
  }

  -- Tables as a round of the loop meets them: what the other clients have left.
  abbrev pub IsLeftBy : (ℕ → Tables → Tables) → Tables → Type 0
  IsLeftBy others mid = (i : ℕ) × (before : Tables) × (mid ≡ others i before)

  -- A claim. `seen` are the tables in which the candidates were read, `mid` those that the round met.
  pub record IsClaimed (IsMet : Tables → Type 0) (seen s' : Tables) (claim : ClaimedTask)
      : Type 0 where
    pub read : RuntimeTask
    pub old : RuntimeTask
    pub lease : LeaseRecord
    pub mid : Tables
    pub met : IsMet mid
    pub was_read : IsDueIn ts seen read
    pub attempts_left : read.attempt < read.max_attempts
    pub still_there : task_at read.id mid ≡ some old
    pub still_pending : old.status ≡ TaskStatus.pending
    pub id_was_unused : lease_at claim.lease_id mid ≡ none
    pub same_task : claim.task.id ≡ read.id
    pub is_leased_now : claim.task.status ≡ TaskStatus.leased
    pub to_worker : claim.task.worker_id ≡ some input.worker_id
    pub next_attempt : claim.task.attempt ≡ read.attempt + 1
    pub row_is : claim.task ≡ leased_row claim.lease_id claim.expires_at read.attempt old
    pub expires : claim.expires_at ≡ expiry ts input
    pub lease_stored : lease_at claim.lease_id s' ≡ some lease
    pub unique : HasUniqueIds s'
    pub vouched :
        (now : ℕ)
        → now < claim.expires_at
        → IsVouched hash_text now claim.task.id claim.lease_token s' claim.task lease
    pub no_other :
        (now : ℕ) (token : String) (task' : RuntimeTask) (lease' : LeaseRecord)
        → IsVouched hash_text now claim.task.id token s' task' lease'
        → (hash_text token ≡ hash_text claim.lease_token) × (now < claim.expires_at)
    pub others_kept : (k : String) → k ≢ claim.task.id → task_at k s' ≡ task_at k mid

  pub IsReady-missed :
      (id token : String) (stamp : ℕ) (fresh : ℕ → String × String) (c : RuntimeTask)
      (s s' : Tables)
      → id ≡ (fresh 0).0
      → take_task hash_text ts input id token stamp c s ≡ (none, s')
      → IsReady fresh s
      → IsReady (λ i. fresh (suc i)) s'
  unfolding AreUnused
  IsReady-missed id token stamp fresh c s s' drawn h ready =
      let (tasks_are, leases_are) = missed-rows id token stamp c s s' h in
      let lease = new_lease hash_text ts input id token c in
      let unused : find_key lease_key id s.leases ≡ none =
        ap (λ k. find_key lease_key k s.leases) drawn ∙ ready.unused 0 in
      let added = HasUniqueKeys-create lease_key lease s.leases ready.unique.1 unused in
      record {
        unique = (
          subst (HasUniqueKeys task_key) (sym tasks_are) ready.unique.0,
          subst (HasUniqueKeys lease_key) (sym leases_are)
              (HasUniqueKeys-delete_one lease_key _ _ added),
        );
        unused = λ i.
            ap (find_key lease_key (fresh (suc i)).0) leases_are
            ∙ ground (
              arith,
              ready.unused (suc i),
              find_key-delete_one lease_key (fresh (suc i)).0 id any_row (create lease s.leases)
                  added,
              find_key-create lease_key (fresh (suc i)).0 lease s.leases,
            );
      }

  pub taken-IsClaimed :
      (IsMet : Tables → Type 0) (id token : String) (stamp : ℕ) (c : RuntimeTask)
      (seen s s' : Tables) (claim : ClaimedTask)
      → IsMet s
      → leb c.max_attempts c.attempt ≡ false
      → IsDueIn ts seen c
      → HasUniqueIds s
      → lease_at id s ≡ none
      → take_task hash_text ts input id token stamp c s ≡ (some claim, s')
      → IsClaimed IsMet seen s' claim
  taken-IsClaimed IsMet id token stamp c seen s s' claim met left due u unused h =
      let (old, found, pending, row, token_is, id_is, expires, tasks_are, leases_are) =
        taken-rows id token stamp c s s' claim u.0 h in
      let lease = new_lease hash_text ts input id token c in
      let same_id : claim.task.id ≡ c.id =
        ap (λ (t : RuntimeTask). t.id) row ∙ find_key-key task_key c.id s.tasks old found in
      let by_key = λ (k : String).
        find_key-assign_one task_key (claimed ts input id c) (λ t. refl) k c.id is_pending s.tasks
          u.0 in
      let stored : task_at claim.task.id s' ≡ some claim.task =
        ap (λ k. task_at k s') same_id
        ∙ ground (arith, row, found, pending, tasks_are, by_key c.id, eq_iff c.id c.id) in
      let names : claim.task.lease_id ≡ some id = ap (λ (t : RuntimeTask). t.lease_id) row in
      let lease_found : lease_at id s' ≡ some lease =
        ap (find_key lease_key id) leases_are
        ∙ ground (arith, unused, find_key-create lease_key id lease s.leases, eq_iff id id) in
      record {
        read = c;
        old = old;
        lease = lease;
        mid = s;
        met = met;
        was_read = due;
        attempts_left = ground arith;
        still_there = found;
        still_pending = ground arith;
        id_was_unused = ap (λ k. lease_at k s) id_is ∙ unused;
        same_task = same_id;
        is_leased_now = ap (λ (t : RuntimeTask). t.status) row;
        to_worker = ap (λ (t : RuntimeTask). t.worker_id) row;
        next_attempt = ap (λ (t : RuntimeTask). t.attempt) row;
        row_is =
            row
            ∙ (ap (λ k. leased_row k (expiry ts input) c.attempt old) (sym id_is)
                ∙ ap (λ e. leased_row claim.lease_id e c.attempt old) (sym expires));
        expires = expires;
        lease_stored = ap (λ k. lease_at k s') id_is ∙ lease_found;
        unique = (
          subst (HasUniqueKeys task_key) (sym tasks_are)
              (HasUniqueKeys-assign_one task_key (claimed ts input id c) (λ t. refl) _ s.tasks u.0),
          subst (HasUniqueKeys lease_key) (sym leases_are)
              (HasUniqueKeys-create lease_key lease s.leases u.1 unused),
        );
        vouched = λ now early. record {
          task_found = stored;
          names_lease = names;
          lease_found = lease_found;
          on_task = sym same_id;
          unexpired = ground (arith, early, expires);
          token_matches = ap hash_text (sym token_is);
        };
        no_other = λ now token' task' lease' v.
            let (matches, early) =
              IsVouched-lease hash_text now claim.task.id token' s' claim.task task' lease lease'
                stored names lease_found v in
            (sym matches ∙ ap hash_text (sym token_is), ground (arith, early, expires));
        others_kept = λ k other.
            ap (find_key task_key k) tasks_are
            ∙ ground (arith, by_key k, eq_iff c.id k, other, same_id);
      }
