-- ===== src/Engine/Reap.antt =====
-- reapExpiredLeases of packages/engines/sql/src/store.ts. `clock` gives the reading that `updateRun`
-- makes in each round of the loop.
pub mod Laws
use euroclaw.Storage.Table.{filter_rows, update, consume_one}
use euroclaw.Storage.Table.Keyed.{with_key}
use euroclaw.Engine.Model.{
  RuntimeTask, RunStatus, LeaseRecord, Tables, task_key, lease_key, is_expired, held_by,
}
use euroclaw.Engine.Store.{get_task, update_run, given_up}
use euroclaw.Prelude.{ℕ, suc, ◌+◌, Option, none, some, List, [], ◌∷◌, leb, if◌then◌else◌}

-- `if (updated && status === "dead")` the run fails
abbrev pub settle_run : ℕ → RuntimeTask → Option RuntimeTask → Tables → Tables
settle_run stamp task none s = s
settle_run stamp task (some row) s =
    if leb task.max_attempts task.attempt
    then (update_run task.run_id RunStatus.failed stamp s).1
    else s

-- the task is queued again, or dead, where it still holds the lease; `task` is the row as it was read
abbrev pub reap_task : ℕ → ℕ → LeaseRecord → Option RuntimeTask → Tables → ℕ × Tables
reap_task ts stamp lease none s = (0, s)
reap_task ts stamp lease (some task) s =
    let (row, tasks) =
      update (with_key task_key lease.task_id (held_by lease.id)) (given_up "lease expired" ts task)
        s.tasks in
    (1, settle_run stamp task row (record s { tasks = tasks }))

abbrev pub reap_taken : ℕ → ℕ → Option LeaseRecord → Tables → ℕ × Tables
reap_taken ts stamp none s = (0, s)
reap_taken ts stamp (some lease) s = reap_task ts stamp lease (get_task lease.task_id s) s

-- one round of the loop over the expired leases
unfoldable pub reap_one : ℕ → ℕ → LeaseRecord → Tables → ℕ × Tables
reap_one ts stamp candidate s =
    let (taken, leases) = consume_one (with_key lease_key candidate.id (is_expired ts)) s.leases in
    reap_taken ts stamp taken (record s { leases = leases })

unfoldable pub reap_all : ℕ → (ℕ → ℕ) → List LeaseRecord → Tables → ℕ × Tables
unfolding reap_one
reap_all ts clock [] s = (0, s)
reap_all ts clock (c ∷ cs) s =
    let (n, mid) = reap_one ts (clock 0) c s in
    let (m, last) = reap_all ts (λ i. clock (suc i)) cs mid in (n + m, last)

-- `reapExpiredLeases`, with the number of leases it counts
unfoldable pub reap_expired_leases : ℕ → (ℕ → ℕ) → Tables → ℕ × Tables
unfolding reap_all
reap_expired_leases ts clock s = reap_all ts clock (filter_rows (is_expired ts) s.leases) s
