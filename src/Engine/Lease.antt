-- ===== src/Engine/Lease.antt =====
-- What a worker does under its lease: validateLease, completeTask, failTask and heartbeatLease of
-- packages/engines/sql/src/store.ts. `hash_text` is SHA-256 of a text, in hex.
pub mod Held
pub mod Once
pub mod Writes
pub mod Passing
pub mod Later
pub mod Retry
pub mod Heartbeat
use euroclaw.Json.{Json}
use euroclaw.Base.Eff.{Eff, returned, pure, ◌>>=◌}
use euroclaw.Storage.Table.{find_one, update, assign_one, delete_one}
use euroclaw.Storage.Table.Keyed.{with_key}
use euroclaw.Engine.Model.{
  TaskStatus, RuntimeTask, LeaseRecord, Tables, or_default, default_lease_ttl_ms, task_key,
  lease_key, held_by,
}
use euroclaw.Engine.Store.{any_row, as_json_record, get_task, given_up}
use euroclaw.Prelude.{
  ℕ, ◌+◌, String, Bool, not, ◌&&◌, Option, none, some, List, str_eq, leb, if◌then◌else◌, opt_eq,
}

abbrev pub finished : Option Json → ℕ → RuntimeTask → RuntimeTask
finished output ts t = record t {
  status = TaskStatus.completed;
  output = elim output [ none ↦ t.output | some o ↦ some o ];
  completed_at = some ts;
  updated_at = ts;
}

unfoldable pub check_output : (Json → Bool) → Option Json → Eff Tables (Option Json)
check_output valid none = pure none
check_output valid (some o) = do checked ← as_json_record valid o "task output"; pure (some checked)

abbrev pub drop_lease : String → Tables → Tables
drop_lease id s = record s { leases = delete_one (with_key lease_key id any_row) s.leases }

unfoldable pub complete_held :
    Option Json → ℕ → String → String → Tables → Option RuntimeTask × Tables
unfolding update
complete_held output ts id lease s =
    let (row, tasks) = update (with_key task_key id (held_by lease)) (finished output ts) s.tasks in
    elim row [ none ↦ (none, s) | some r ↦ (some r, drop_lease lease (record s { tasks = tasks })) ]

abbrev pub extended : ℕ → ℕ → LeaseRecord → LeaseRecord
extended expires_at ts l = record l { expires_at = expires_at; last_heartbeat_at = ts }

-- leased, under this lease, to this worker
abbrev pub worked_by : String → String → RuntimeTask → Bool
worked_by lease worker t = held_by lease t && opt_eq t.worker_id (some worker)

module _ (hash_text : String → String) where
  -- the three tests of `validateLease` on the lease that the task names
  abbrev pub vouches : ℕ → RuntimeTask → String → LeaseRecord → Bool
  vouches now task token lease =
      str_eq lease.task_id task.id
      && (not (leb lease.expires_at now) && str_eq lease.token_hash (hash_text token))

  abbrev pub checked_lease : ℕ → RuntimeTask → String → Option LeaseRecord → Option LeaseRecord
  checked_lease now task token none = none
  checked_lease now task token (some lease) =
      if vouches now task token lease then some lease else none

  unfoldable pub validate_lease : ℕ → RuntimeTask → String → List LeaseRecord → Option LeaseRecord
  validate_lease now task token leases = elim task.lease_id [
    | none ↦ none
    | some id ↦ checked_lease now task token (find_one (with_key lease_key id any_row) leases)
  ]

  -- how `completeTask` and `failTask` begin: the task, and its lease where the token vouches for it
  unfoldable pub holder : ℕ → String → String → Tables → Option (RuntimeTask × LeaseRecord)
  unfolding validate_lease get_task
  holder now id token s = elim (get_task id s) [
    | none ↦ none
    | some task ↦ elim (validate_lease now task token s.leases) [
      | none ↦ none
      | some lease ↦ some (task, lease)
    ]
  ]

  unfoldable pub complete_checked :
      (Json → Bool)
      → ℕ
      → String
      → Option Json
      → Option (RuntimeTask × LeaseRecord)
      → Eff Tables (Option RuntimeTask)
  unfolding check_output complete_held
  complete_checked valid ts id output none = pure none
  complete_checked valid ts id output (some (task, lease)) = do
    checked ← check_output valid output
    λ s. let (row, new) = complete_held checked ts id lease.id s in (returned row, new)

  -- `now` is the reading of `validateLease`, `ts` the one after it
  unfoldable pub complete_task :
      (Json → Bool)
      → (now ts : ℕ) → (id token : String) → Option Json
      → Eff Tables (Option RuntimeTask)
  unfolding complete_checked
  complete_task valid now ts id token output s =
      complete_checked valid ts id output (holder now id token s) s

  -- the lease goes even where the row is not written
  abbrev pub fail_held :
      String
      → ℕ
      → String
      → Option (RuntimeTask × LeaseRecord)
      → Tables
      → Option RuntimeTask × Tables
  fail_held reason ts id none s = (none, s)
  fail_held reason ts id (some (task, lease)) s =
      let (row, tasks) =
        update (with_key task_key id (held_by lease.id)) (given_up reason ts task) s.tasks in
      (row, drop_lease lease.id (record s { tasks = tasks }))

  unfoldable pub fail_task :
      (now ts : ℕ) → (id token reason : String) → Tables → Option RuntimeTask × Tables
  fail_task now ts id token reason s = fail_held reason ts id (holder now id token s) s

  -- the conditional update of the lease, and of the task it is on
  unfoldable pub extend_lease :
      ℕ → ℕ → String → String → LeaseRecord → Tables → Option LeaseRecord × Tables
  unfolding update
  extend_lease ts expires_at id token lease s =
      let (row, leases) =
        update
          (with_key lease_key id
            (λ l. str_eq l.token_hash (hash_text token) && not (leb l.expires_at ts)))
          (extended expires_at ts) s.leases in
      elim row [
        | none ↦ (none, s)
        | some r ↦ (
          some r,
          record s {
            leases = leases;
            tasks =
                assign_one (with_key task_key lease.task_id (worked_by id lease.worker_id))
                  (λ t. record t { leased_until = some expires_at; updated_at = ts }) s.tasks;
          },
        )
      ]

  -- `heartbeatLease`: `now` is the reading of its test, `ts` the one after it
  unfoldable pub heartbeat_lease :
      (now ts : ℕ) → (id token : String) → Option ℕ → Tables → Option LeaseRecord × Tables
  unfolding extend_lease
  heartbeat_lease now ts id token ttl s = elim (find_one (with_key lease_key id any_row) s.leases) [
    | none ↦ (none, s)
    | some lease ↦
        if not (leb lease.expires_at now) && str_eq lease.token_hash (hash_text token)
        then extend_lease ts (ts + or_default ttl default_lease_ttl_ms) id token lease s
        else (none, s)
  ]
