-- ===== src/Engine/Lease/Held.antt =====
-- Tokens that vouch for a lease, described apart from the code of validateLease.
use mathlib.Core.Path.{subst}
use euroclaw.Storage.Table.{find_one}
use euroclaw.Storage.Table.Keyed.{find_one_any, find_key-key, with_key, find_key, HasUniqueKeys}
use euroclaw.Engine.Model.{RuntimeTask, LeaseRecord, Tables, task_key, lease_key}
use euroclaw.Engine.Store.{any_row, get_task}
use euroclaw.Engine.Lease.{vouches, validate_lease, holder}
use euroclaw.Prelude.{
  ℕ, ◌<◌, String, ◌≡◌, refl, sym, ap, ◌∙◌, true, Option, some, arith, eq_iff, some_inj,
}

abbrev pub task_at : String → Tables → Option RuntimeTask
task_at id s = find_key task_key id s.tasks

abbrev pub lease_at : String → Tables → Option LeaseRecord
lease_at id s = find_key lease_key id s.leases

abbrev pub HasUniqueIds : Tables → Type 0
HasUniqueIds s = HasUniqueKeys task_key s.tasks × HasUniqueKeys lease_key s.leases

module _ (hash_text : String → String) (now : ℕ) (id token : String) (s : Tables) where
  -- The token vouches for the lease that the task names: it is there, it is on this task, it has not
  -- expired, and it was made for this token.
  pub record IsVouched (task : RuntimeTask) (lease : LeaseRecord) : Type 0 where
    pub task_found : task_at id s ≡ some task
    pub names_lease : task.lease_id ≡ some lease.id
    pub lease_found : lease_at lease.id s ≡ some lease
    pub on_task : lease.task_id ≡ id
    pub unexpired : now < lease.expires_at
    pub token_matches : lease.token_hash ≡ hash_text token

  -- What a vouching token is held to is the lease that is stored for the task.
  pub IsVouched-lease :
      (task task' : RuntimeTask) (lease lease' : LeaseRecord) {k : String}
      → task_at id s ≡ some task
      → task.lease_id ≡ some k
      → lease_at k s ≡ some lease
      → IsVouched task' lease'
      → (lease.token_hash ≡ hash_text token) × (now < lease.expires_at)
  IsVouched-lease task task' lease lease' {k} found names stored v =
      let same_task : task' ≡ task = some_inj (sym v.task_found ∙ found) in
      let same_id : lease'.id ≡ k =
        some_inj (sym v.names_lease ∙ (ap (λ (t : RuntimeTask). t.lease_id) same_task ∙ names)) in
      let same : lease' ≡ lease =
        some_inj (sym v.lease_found ∙ (ap (λ x. lease_at x s) same_id ∙ stored)) in
      subst (λ l. (l.token_hash ≡ hash_text token) × (now < l.expires_at)) same
        (v.token_matches, v.unexpired)

  holder_parts :
      (task : RuntimeTask) (lease : LeaseRecord)
      → holder hash_text now id token s ≡ some (task, lease)
      → (get_task id s ≡ some task)
        × (validate_lease hash_text now task token s.leases ≡ some lease)
  unfolding holder
  holder_parts task lease h = ground arith

  lease_parts :
      (task : RuntimeTask) (lease : LeaseRecord)
      → validate_lease hash_text now task token s.leases ≡ some lease
      → (k : String) × (task.lease_id ≡ some k)
        × (find_one (with_key lease_key k any_row) s.leases ≡ some lease)
        × (vouches hash_text now task token lease ≡ true)
  unfolding validate_lease
  lease_parts task lease h = ground arith

  vouched_parts :
      (task : RuntimeTask) (lease : LeaseRecord)
      → vouches hash_text now task token lease ≡ true
      → (lease.task_id ≡ task.id) × (now < lease.expires_at) × (lease.token_hash ≡ hash_text token)
  vouched_parts task lease h =
      ground (arith, eq_iff lease.task_id task.id, eq_iff lease.token_hash (hash_text token))

  pub holder-IsVouched :
      (task : RuntimeTask) (lease : LeaseRecord)
      → holder hash_text now id token s ≡ some (task, lease)
      → IsVouched task lease
  unfolding get_task
  holder-IsVouched task lease h =
      let (found, validated) = holder_parts task lease h in
      let (k, names, row, vouched) = lease_parts task lease validated in
      let at_id = sym (find_one_any task_key id s.tasks) ∙ found in
      let at_k = sym (find_one_any lease_key k s.leases) ∙ row in
      let same_k = find_key-key lease_key k s.leases lease at_k in
      let (on_task, unexpired, matches) = vouched_parts task lease vouched in
      record {
        task_found = at_id;
        names_lease = names ∙ ap some (sym same_k);
        lease_found = subst (λ x. find_key lease_key x s.leases ≡ some lease) (sym same_k) at_k;
        on_task = on_task ∙ find_key-key task_key id s.tasks task at_id;
        unexpired = unexpired;
        token_matches = matches;
      }

  validated :
      (task : RuntimeTask) (lease : LeaseRecord)
      → task.lease_id ≡ some lease.id
      → find_one (with_key lease_key lease.id any_row) s.leases ≡ some lease
      → vouches hash_text now task token lease ≡ true
      → validate_lease hash_text now task token s.leases ≡ some lease
  unfolding validate_lease
  validated task lease names found v = rw (names, found, v) refl

  holder_of :
      (task : RuntimeTask) (lease : LeaseRecord)
      → get_task id s ≡ some task
      → validate_lease hash_text now task token s.leases ≡ some lease
      → holder hash_text now id token s ≡ some (task, lease)
  unfolding holder
  holder_of task lease found v = ground arith

  pub IsVouched-holder :
      (task : RuntimeTask) (lease : LeaseRecord)
      → IsVouched task lease
      → holder hash_text now id token s ≡ some (task, lease)
  unfolding get_task
  IsVouched-holder task lease v =
      let same = find_key-key task_key id s.tasks task v.task_found in
      let vouched : vouches hash_text now task token lease ≡ true = ground (
        arith,
        same,
        v.on_task,
        v.unexpired,
        v.token_matches,
        eq_iff lease.task_id task.id,
        eq_iff lease.token_hash (hash_text token),
      ) in
      let row = find_one_any lease_key lease.id s.leases ∙ v.lease_found in
      holder_of task lease (find_one_any task_key id s.tasks ∙ v.task_found)
        (validated task lease v.names_lease row vouched)
