-- ===== src/Engine/Lease/Once.antt =====
-- The tables after completeTask.
use mathlib.Core.Path.{subst}
use euroclaw.Storage.Table.Keyed.{
  find_key, HasUniqueKeys-assign_one, HasUniqueKeys-delete_one, HasUniqueKeys,
}
use euroclaw.Json.{Json}
use euroclaw.Base.Eff.{returned}
use euroclaw.Storage.Table.{update, assign_one, delete_one}
use euroclaw.Storage.Table.Keyed.{
  with_key, find_one-with_key, find_key-assign_one, find_key-delete_one,
}
use euroclaw.Engine.Model.{
  TaskStatus, RuntimeTask, LeaseRecord, Tables, task_key, lease_key, held_by,
}
use euroclaw.Engine.Store.{any_row}
use euroclaw.Engine.Lease.{finished, complete_held, check_output, complete_checked, complete_task}
use euroclaw.Engine.Lease.Held.{task_at, lease_at, HasUniqueIds, IsVouched, holder-IsVouched}
use euroclaw.Prelude.{
  ℕ, String, ◌≡◌, refl, sym, ap, ◌∙◌, ◌≢◌, Bool, true, Option, none, some, arith, eq_iff, some_inj,
}

held_row :
    (output : Option Json) (ts : ℕ) (id lease : String) (s s' : Tables) (row : RuntimeTask)
    → HasUniqueIds s
    → complete_held output ts id lease s ≡ (some row, s')
    → (task : RuntimeTask) × (task_at id s ≡ some task)
      × (held_by lease task ≡ true)
      × (row ≡ finished output ts task)
      × (s'.tasks ≡ assign_one (with_key task_key id (held_by lease)) (finished output ts) s.tasks)
      × (s'.leases ≡ delete_one (with_key lease_key lease any_row) s.leases)
unfolding complete_held update
held_row output ts id lease s s' row u h =
    ground (arith, find_one-with_key task_key id (held_by lease) s.tasks u.0)

module _ (hash_text : String → String) (valid : Json → Bool) where
  -- What `completeTask` leaves when it hands out a row.
  pub record IsCompleted (now ts : ℕ) (id token : String) (output : Option Json) (s s' : Tables)
      (row : RuntimeTask) : Type 0 where
    pub task : RuntimeTask
    pub lease : LeaseRecord
    pub vouched : IsVouched hash_text now id token s task lease
    pub was_leased : task.status ≡ TaskStatus.leased
    pub accepted : (o : Json) → output ≡ some o → valid o ≡ true
    pub output_given : (o : Json) → output ≡ some o → row.output ≡ some o
    pub output_kept : output ≡ none → row.output ≡ task.output
    pub row_is : row ≡ record task {
      status = TaskStatus.completed;
      output = row.output;
      completed_at = some ts;
      updated_at = ts;
    }
    pub stored : task_at id s' ≡ some row
    pub unique : HasUniqueIds s'
    pub released : lease_at lease.id s' ≡ none
    pub tasks_kept : (k : String) → k ≢ id → task_at k s' ≡ task_at k s
    pub leases_kept : (k : String) → k ≢ lease.id → lease_at k s' ≡ lease_at k s

  checked_parts :
      (ts : ℕ) (id : String) (output : Option Json) (held : Option (RuntimeTask × LeaseRecord))
      (s s' : Tables) (row : RuntimeTask)
      → complete_checked hash_text valid ts id output held s ≡ (returned (some row), s')
      → (task : RuntimeTask) × (lease : LeaseRecord) × (held ≡ some (task, lease))
        × (complete_held output ts id lease.id s ≡ (some row, s'))
        × ((o : Json) → output ≡ some o → valid o ≡ true)
  unfolding complete_checked check_output
  checked_parts ts id output none s s' row h = ground arith
  checked_parts ts id none (some (task, lease)) s s' row h =
      (task, lease, refl, ground arith, λ o e. ground arith)
  checked_parts ts id (some o) (some (task, lease)) s s' row h =
      (task, lease, refl, ground arith, λ o' e. ground arith)

  -- Where ids are unique and `completeTask` hands out a row: the task was leased, under a lease that the
  -- token vouched for, and the schema accepts the output where one is given. The row is the task as
  -- completed at the time, with the output that was given or else the one it had, and otherwise
  -- unchanged. The table holds that row, the lease is gone, and no other task or lease has changed.
  pub complete_task-IsCompleted :
      (now ts : ℕ) (id token : String) (output : Option Json) (s s' : Tables) (row : RuntimeTask)
      → HasUniqueIds s
      → complete_task hash_text valid now ts id token output s ≡ (returned (some row), s')
      → IsCompleted now ts id token output s s' row
  unfolding complete_task
  complete_task-IsCompleted now ts id token output s s' row u h =
      let (task, lease, held, wrote, accepted) = checked_parts ts id output _ s s' row h in
      let vouched = holder-IsVouched hash_text now id token s task lease held in
      let (old, found, was_held, row_is, tasks_are, leases_are) =
        held_row output ts id lease.id s s' row u wrote in
      let same : old ≡ task = some_inj (sym found ∙ vouched.task_found) in
      let is_finished = row_is ∙ ap (finished output ts) same in
      let by_key = λ (k : String).
        find_key-assign_one task_key (finished output ts) (λ t. refl) k id (held_by lease.id)
          s.tasks u.0 in
      let by_lease =
        λ (k : String). find_key-delete_one lease_key k lease.id any_row s.leases u.1 in
      record {
        task = task;
        lease = lease;
        vouched = vouched;
        was_leased = ground (arith, same, was_held);
        accepted = accepted;
        output_given = λ o e. ground (arith, is_finished, e);
        output_kept = λ e. ground (arith, is_finished, e);
        row_is =
            is_finished
            ∙ ap
                (λ (t : RuntimeTask). record task {
                  status = TaskStatus.completed;
                  output = t.output;
                  completed_at = some ts;
                  updated_at = ts;
                })
                (sym is_finished);
        stored = ground (arith, same, found, was_held, row_is, tasks_are, by_key id, eq_iff id id);
        unique = (
          subst (HasUniqueKeys task_key) (sym tasks_are)
              (HasUniqueKeys-assign_one task_key (finished output ts) (λ t. refl) _ s.tasks u.0),
          subst (HasUniqueKeys lease_key) (sym leases_are)
              (HasUniqueKeys-delete_one lease_key _ s.leases u.1),
        );
        released =
            ground
              (arith, leases_are, vouched.lease_found, eq_iff lease.id lease.id, by_lease lease.id);
        tasks_kept = λ k other.
            ap (find_key task_key k) tasks_are ∙ ground (arith, by_key k, eq_iff id k, other);
        leases_kept = λ k other.
            ap (find_key lease_key k) leases_are
            ∙ ground (arith, by_lease k, eq_iff lease.id k, other);
      }
