-- ===== src/Engine/Store.antt =====
-- The rows of runs, tasks and events of `createSqlEngineStore` in packages/engines/sql/src/store.ts
-- over the tables of the memory adapter. An operation runs to its end in one step, but for the
-- rounds of claimDueTask (in Engine/Claim). What it reads from outside is an argument: `hash_text`
-- (SHA-256), `valid` (the schema of a JSON object), ids and tokens in place of the random ones, and
-- the readings of the clock, one for each place that reads.
use euroclaw.Base.Eff.{as_principal}
use euroclaw.Json.{Json}
use euroclaw.Base.Eff.{Eff, returned, validation_error, pure, throw, ◌>>=◌}
use euroclaw.Storage.Table.{create, find_one, filter_rows, sort_by, update}
use euroclaw.Storage.Table.Keyed.{with_key}
use euroclaw.Engine.Model.{
  RunStatus, TaskStatus, RunRecord, RuntimeTask, RunEvent, Tables, CreateRunInput, EnqueueTaskInput,
  or_default, default_retry_delay_ms, run_key, task_key, retry_status, retry_due,
}
use euroclaw.Prelude.{ℕ, String, Bool, true, Option, none, some, List, str_eq, if◌then◌else◌}

abbrev pub any_row : {Row : Type 0} → Row → Bool
any_row r = true

-- `asJsonRecord`
abbrev pub as_json_record : (Json → Bool) → Json → String → Eff Tables Json
as_json_record valid value label =
    if valid value then pure value else throw (validation_error label)

unfoldable pub get_task : String → Tables → Option RuntimeTask
get_task id s = find_one (with_key task_key id any_row) s.tasks

unfoldable pub get_run : String → Tables → Option RunRecord
get_run id s = find_one (with_key run_key id any_row) s.runs

abbrev pub with_status : RunStatus → ℕ → RunRecord → RunRecord
with_status status now r = record r { status = status; updated_at = now }

-- `updateRun`: only the status of a run is not immutable
unfoldable pub update_run : String → RunStatus → ℕ → Tables → Option RunRecord × Tables
update_run id status now s =
    let (row, runs) = update (with_key run_key id any_row) (with_status status now) s.runs in
    (row, record s { runs = runs })

unfoldable pub create_run :
    (Json → Bool)
    → (well_formed : String → Bool) → (empty : Json) → (new_id : String) → ℕ
    → CreateRunInput
    → Eff Tables RunRecord
create_run valid well_formed empty new_id ts input = do
  checked ← as_json_record valid (or_default input.input empty) "run input"
  principal ← as_principal well_formed input.principal
  λ s.
      let row : RunRecord = record {
        id = or_default input.id new_id;
        status = RunStatus.queued;
        input = checked;
        principal = principal;
        team = input.team;
        created_at = ts;
        updated_at = ts;
      } in
      (returned row, record s { runs = create row s.runs })

abbrev pub queued_task : String → ℕ → EnqueueTaskInput → Json → RuntimeTask
queued_task new_id ts input payload = record {
  id = or_default input.id new_id;
  run_id = input.run_id;
  kind = input.kind;
  status = TaskStatus.pending;
  payload = payload;
  due_at = or_default input.due_at ts;
  attempt = 0;
  max_attempts = or_default input.max_attempts 1;
  retry_delay_ms = or_default input.retry_delay_ms default_retry_delay_ms;
  lease_id = none;
  worker_id = none;
  leased_until = none;
  last_error = none;
  output = none;
  created_at = ts;
  updated_at = ts;
  completed_at = none;
}

unfoldable pub enqueue_task :
    (Json → Bool)
    → (empty : Json) → (new_id : String) → ℕ
    → EnqueueTaskInput
    → Eff Tables RuntimeTask
enqueue_task valid empty new_id ts input = do
  payload ← as_json_record valid (or_default input.payload empty) "task payload"
  λ s.
      let row = queued_task new_id ts input payload in
      (returned row, record s { tasks = create row s.tasks })

unfoldable pub append_event :
    (Json → Bool)
    → (empty : Json) → (new_id : String) → ℕ
    → (run_id kind : String) → Option Json
    → Eff Tables RunEvent
append_event valid empty new_id now run_id kind payload = do
  checked ← as_json_record valid (or_default payload empty) "event payload"
  λ s.
      let row : RunEvent = record {
        id = new_id;
        run_id = run_id;
        kind = kind;
        payload = checked;
        created_at = now;
      } in
      (returned row, record s { events = create row s.events })

unfoldable pub events : String → Tables → List RunEvent
events run_id s =
    sort_by (λ e. e.created_at) (filter_rows (λ (e : RunEvent). str_eq e.run_id run_id) s.events)

-- The row of a task whose attempt ended without success; `task` is the row as it was read.
abbrev pub given_up : String → ℕ → RuntimeTask → RuntimeTask → RuntimeTask
given_up reason ts task t = record t {
  status = retry_status task;
  last_error = some reason;
  due_at = retry_due ts task;
  lease_id = none;
  worker_id = none;
  leased_until = none;
  updated_at = ts;
}
