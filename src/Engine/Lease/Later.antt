-- ===== src/Engine/Lease/Later.antt =====
-- What the queue can still do to a task that completeTask has completed.
use euroclaw.Base.Eff.{returned}
use euroclaw.Json.{Json}
use euroclaw.Storage.Table.{update}
use euroclaw.Storage.Table.Keyed.{with_key, find_one-with_key}
use euroclaw.Engine.Model.{RuntimeTask, LeaseRecord, Tables, is_leased, task_key, held_by}
use euroclaw.Engine.Store.{given_up}
use euroclaw.Engine.Lease.{
  finished, check_output, complete_held, complete_checked, complete_task, fail_held, fail_task,
}
use euroclaw.Engine.Lease.Held.{task_at, HasUniqueIds}
use euroclaw.Engine.Lease.Once.{complete_task-IsCompleted}
use euroclaw.Prelude.{ℕ, String, ◌≡◌, refl, ◌≢◌, Bool, false, Option, none, some, List, arith}
use euroclaw.Engine.Lease.Writes.{Write, write_all, IsIdle, IsSettled}
use euroclaw.Engine.Lease.Passing.{write_all-IsSettled}

module _ (hash_text : String → String) where
  no_write :
      (f : RuntimeTask → RuntimeTask) (id lease : String) (s : Tables) (row : RuntimeTask)
      → is_leased row ≡ false
      → IsSettled id row s
      → (update (with_key task_key id (held_by lease)) f s.tasks).0 ≡ none
  unfolding update IsSettled
  no_write f id lease s row free (u, found) =
      ground (arith, find_one-with_key task_key id (held_by lease) s.tasks u)

  complete_checked-none :
      (valid : Json → Bool) (ts : ℕ) (id : String) (output : Option Json)
      (held : Option (RuntimeTask × LeaseRecord)) (s : Tables) (row later : RuntimeTask)
      → is_leased row ≡ false
      → IsSettled id row s
      → (complete_checked hash_text valid ts id output held s).0 ≢ returned (some later)
  unfolding complete_checked check_output complete_held
  complete_checked-none valid ts id output none s row later free settled h = cc
  complete_checked-none valid ts id none (some (task, lease)) s row later free settled h =
      ground (arith, no_write (finished none ts) id lease.id s row free settled)
  complete_checked-none valid ts id (some o) (some (task, lease)) s row later free settled h =
      ground (arith, no_write (finished (some o) ts) id lease.id s row free settled)

  fail_held-none :
      (reason : String) (ts : ℕ) (id : String) (held : Option (RuntimeTask × LeaseRecord))
      (s : Tables) (row : RuntimeTask)
      → is_leased row ≡ false
      → IsSettled id row s
      → (fail_held hash_text reason ts id held s).0 ≡ none
  fail_held-none reason ts id none s row free settled = refl
  fail_held-none reason ts id (some (read, lease)) s row free settled =
      no_write (given_up reason ts read) id lease.id s row free settled

  -- Where ids are unique and `completeTask` has handed out a row: after any later calls of
  -- `completeTask`, `failTask` and `heartbeatLease` and any rounds of the loops of `reapExpiredLeases`
  -- and `claimDueTask`, on any tasks, with any tokens and at any times, the table still holds that row
  -- for the task, neither changed nor deleted, and neither `completeTask` nor `failTask` hands out
  -- another row of it.
  pub complete_task_once :
      (valid : Json → Bool) (now ts : ℕ) (id token : String) (output : Option Json) (s s' : Tables)
      (row : RuntimeTask)
      → HasUniqueIds s
      → complete_task hash_text valid now ts id token output s ≡ (returned (some row), s')
      → (ws : List Write) (valid' : Json → Bool) (now' ts' : ℕ) (token' reason : String)
        (output' : Option Json) (later : RuntimeTask)
      → (task_at id (write_all hash_text ws s') ≡ some row)
        × ((complete_task hash_text valid' now' ts' id token' output' (write_all hash_text ws s')).0
            ≢ returned (some later))
        × ((fail_task hash_text now' ts' id token' reason (write_all hash_text ws s')).0 ≡ none)
  unfolding complete_task fail_task IsIdle IsSettled
  complete_task_once valid now ts id token output s s' row u h ws valid' now' ts' token' reason
        output' later =
      let done = complete_task-IsCompleted hash_text valid now ts id token output s s' row u h in
      let idle : IsIdle row = (ground (arith, done.row_is), ground (arith, done.row_is)) in
      let settled = write_all-IsSettled hash_text row idle id ws s' (done.unique.0, done.stored) in
      (
        settled.1,
        complete_checked-none valid' ts' id output' _ _ row later idle.1 settled,
        fail_held-none reason ts' id _ _ row idle.1 settled,
      )
