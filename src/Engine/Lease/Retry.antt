-- ===== src/Engine/Lease/Retry.antt =====
-- The tables after failTask.
use euroclaw.Storage.Table.{find_one}
use euroclaw.Storage.Table.Keyed.{keep_if}
use euroclaw.Storage.Table.{update, assign_one, delete_one}
use euroclaw.Storage.Table.Keyed.{
  with_key, find_one-with_key, find_key-assign_one, find_key-delete_one,
}
use euroclaw.Engine.Model.{
  TaskStatus, RuntimeTask, LeaseRecord, Tables, task_key, lease_key, held_by,
}
use euroclaw.Engine.Store.{any_row, given_up}
use euroclaw.Engine.Lease.{fail_held, fail_task}
use euroclaw.Engine.Lease.Held.{task_at, lease_at, HasUniqueIds, IsVouched, holder-IsVouched}
use euroclaw.Prelude.{
  ℕ, ◌+◌, ◌≤◌, ◌<◌, String, ◌≡◌, refl, sym, ap, ◌∙◌, inl, inr, true, Option, none, some, arith,
  eq_iff, Option-cases, some_inj,
}

module _ (hash_text : String → String) where
  -- What `failTask` leaves when it hands out a row: the task was leased under a vouched lease, it goes
  -- to `dead` when its attempts are used up and else back to `pending`, due after its retry delay, and
  -- the lease is gone.
  pub record IsFailed (now ts : ℕ) (id token reason : String) (s s' : Tables) (row : RuntimeTask)
      : Type 0 where
    pub task : RuntimeTask
    pub lease : LeaseRecord
    pub vouched : IsVouched hash_text now id token s task lease
    pub was_leased : task.status ≡ TaskStatus.leased
    pub row_is : row ≡ given_up reason ts task task
    pub retried :
        task.attempt < task.max_attempts
        → (row.status ≡ TaskStatus.pending) × (row.due_at ≡ ts + task.retry_delay_ms)
    pub used_up : task.max_attempts ≤ task.attempt → row.status ≡ TaskStatus.dead
    pub stored : task_at id s' ≡ some row
    pub released : lease_at lease.id s' ≡ none

  failed_parts :
      (ts : ℕ) (id reason : String) (held : Option (RuntimeTask × LeaseRecord)) (s s' : Tables)
      (row : RuntimeTask)
      → HasUniqueIds s
      → fail_held hash_text reason ts id held s ≡ (some row, s')
      → (task : RuntimeTask) × (lease : LeaseRecord) × (old : RuntimeTask) × (held
          ≡ some (task, lease))
        × (task_at id s ≡ some old)
        × (held_by lease.id old ≡ true)
        × (row ≡ given_up reason ts task old)
        × (s'.tasks
            ≡ assign_one
                (with_key task_key id (held_by lease.id))
                (given_up reason ts task)
                s.tasks)
        × (s'.leases ≡ delete_one (with_key lease_key lease.id any_row) s.leases)
  unfolding update
  failed_parts ts id reason none s s' row u h = ground arith
  failed_parts ts id reason (some (task, lease)) s s' row u h =
      let finds = find_one-with_key task_key id (held_by lease.id) s.tasks u.0 in
      elim (Option-cases (task_at id s)) [
        | inl absent ↦ absurd (no_row absent finds)
        | inr (old, present) ↦ (
          task,
          lease,
          old,
          refl,
          present,
          ground (arith, present, finds),
          ground (arith, present, finds),
          ground arith,
          ground arith,
        )
      ]
    where
      no_row :
          task_at id s ≡ none
          → find_one (with_key task_key id (held_by lease.id)) s.tasks
            ≡ keep_if (held_by lease.id) (task_at id s)
          → ⊥
      no_row absent finds = ground (arith, absent, finds)

  -- Where `failTask` hands out a row, `IsFailed` says what it has checked and written.
  pub fail_task-IsFailed :
      (now ts : ℕ) (id token reason : String) (s s' : Tables) (row : RuntimeTask)
      → HasUniqueIds s
      → fail_task hash_text now ts id token reason s ≡ (some row, s')
      → IsFailed now ts id token reason s s' row
  unfolding fail_task
  fail_task-IsFailed now ts id token reason s s' row u h =
      let (task, lease, old, held, found, was_held, row_is, tasks_are, leases_are) =
        failed_parts ts id reason _ s s' row u h in
      let vouched = holder-IsVouched hash_text now id token s task lease held in
      let same : old ≡ task = some_inj (sym found ∙ vouched.task_found) in
      let is : row ≡ given_up reason ts task task = row_is ∙ ap (given_up reason ts task) same in
      record {
        task = task;
        lease = lease;
        vouched = vouched;
        was_leased = ground (arith, same, was_held);
        row_is = is;
        retried = λ left. (ground (arith, is, left), ground (arith, is, left));
        used_up = λ full. ground (arith, is, full);
        stored = ground (
          arith,
          found,
          was_held,
          row_is,
          tasks_are,
          find_key-assign_one task_key (given_up reason ts task) (λ t. refl) id id
              (held_by lease.id) s.tasks u.0,
          eq_iff id id,
        );
        released = ground (
          arith,
          leases_are,
          vouched.lease_found,
          eq_iff lease.id lease.id,
          find_key-delete_one lease_key lease.id lease.id any_row s.leases u.1,
        );
      }
