-- ===== src/Engine/Claim/Finish.antt =====
-- claimDueTask followed by completeTask.
use euroclaw.Json.{Json}
use euroclaw.Base.Eff.{returned}
use euroclaw.Storage.Table.{update}
use euroclaw.Storage.Table.Keyed.{find_one-with_key}
use euroclaw.Engine.Model.{
  TaskStatus, RuntimeTask, LeaseRecord, ClaimedTask, ClaimTaskInput, Tables, task_key, held_by,
}
use euroclaw.Engine.Lease.{finished, complete_held, complete_checked, check_output, complete_task}
use euroclaw.Engine.Lease.Held.{HasUniqueIds, lease_at, task_at, IsVouched-holder}
use euroclaw.Engine.Claim.{claim_due_task}
use euroclaw.Engine.Claim.Ready.{AreApart}
use euroclaw.Engine.Claim.Fair.{claim_due_task-IsClaimed}
use euroclaw.Prelude.{ℕ, ◌<◌, String, ◌≡◌, refl, Bool, true, Option, none, some, arith, eq_iff}

module _ (hash_text : String → String) where
  written_row :
      (output : Option Json) (ts : ℕ) (id lease : String) (s : Tables) (task : RuntimeTask)
      → HasUniqueIds s
      → task_at id s ≡ some task
      → held_by lease task ≡ true
      → (complete_held output ts id lease s).0 ≡ some (finished output ts task)
  unfolding complete_held update
  written_row output ts id lease s task u found held =
      ground (arith, find_one-with_key task_key id (held_by lease) s.tasks u.0)

  checked_row :
      (valid : Json → Bool) (ts : ℕ) (id : String) (output : Option Json) (s : Tables)
      (task : RuntimeTask) (lease : LeaseRecord) (held : Option (RuntimeTask × LeaseRecord))
      (row : RuntimeTask)
      → held ≡ some (task, lease)
      → ((o : Json) → output ≡ some o → valid o ≡ true)
      → (complete_held output ts id lease.id s).0 ≡ some row
      → (complete_checked hash_text valid ts id output held s).0 ≡ returned (some row)
  unfolding complete_checked check_output
  checked_row valid ts id none s task lease held row e ok wrote = ground arith
  checked_row valid ts id (some o) s task lease held row e ok wrote = ground (arith, ok o refl)

  -- Let ids be unique, the drawn lease ids not be in use, and other clients of the tables keep ids unique
  -- and not use the drawn ids while the claim runs. What `claimDueTask` hands out, `completeTask` with
  -- its token completes in the tables that the claim has left, at any reading of the clock before the
  -- lease expires and with any output that the schema accepts, or none: it hands out the task as completed
  -- then, with the output that was given.
  pub claim_due_task-complete_task :
      (reaped_at ts : ℕ) (reap_clock clock : ℕ → ℕ) (fresh : ℕ → String × String)
      (others : ℕ → Tables → Tables) (input : ClaimTaskInput) (s s' : Tables) (claim : ClaimedTask)
      → HasUniqueIds s
      → ((i : ℕ) → lease_at (fresh i).0 s ≡ none)
      → AreApart fresh others
      → claim_due_task hash_text reaped_at ts reap_clock clock fresh others input s
        ≡ (some claim, s')
      → (valid : Json → Bool) (output : Option Json)
      → ((o : Json) → output ≡ some o → valid o ≡ true)
      → (now done_at : ℕ) → now < claim.expires_at
      → (complete_task hash_text valid now done_at claim.task.id claim.lease_token output s').0
        ≡ returned (
            some (record claim.task {
              status = TaskStatus.completed;
              output = elim output [ none ↦ claim.task.output | some o ↦ some o ];
              completed_at = some done_at;
              updated_at = done_at;
            }))
  unfolding complete_task
  claim_due_task-complete_task reaped_at ts reap_clock clock fresh others input s s' claim u unused
        apart h valid output ok now done_at early =
      let is =
        claim_due_task-IsClaimed hash_text ts input reaped_at reap_clock clock fresh others s s'
          claim u unused apart h in
      let v = is.vouched now early in
      let held : held_by is.lease.id claim.task ≡ true =
        ground (arith, is.is_leased_now, v.names_lease, eq_iff is.lease.id is.lease.id) in
      checked_row valid done_at claim.task.id output s' claim.task is.lease _ _
        (IsVouched-holder hash_text now claim.task.id claim.lease_token s' claim.task is.lease v) ok
        (written_row output done_at claim.task.id is.lease.id s' claim.task is.unique v.task_found
          held)
