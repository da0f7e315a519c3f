-- ===== src/Engine/Tests.antt =====
-- A worker's claim of a task whose first lease has expired, and its completion.
use euroclaw.Engine.Idempotency.{
  IdempotencyRecord, IdempotencyLookup, Saved, record_key, get_idempotency, save_idempotency,
}
use euroclaw.Engine.Idempotency.Replay.{Inserts, CameFrom, save_idempotency-get_idempotency}
use euroclaw.Base.Eff.{Eff, Result}
use euroclaw.Storage.Table.Keyed.{find_one_any, find_key-create}
use euroclaw.Json.{Json}
use euroclaw.Base.Eff.{returned}
use euroclaw.Storage.Table.{
  find_one, create, filter_rows, assign_one, update, delete_one, consume_one, sort_by, insert_by,
}
use euroclaw.Storage.Table.Keyed.{find_key}
use euroclaw.Engine.Model.{
  RunStatus, TaskStatus, RunRecord, RuntimeTask, LeaseRecord, ClaimedTask, ClaimTaskInput, Tables,
  task_key,
}
use euroclaw.Engine.Store.{get_task, update_run}
use euroclaw.Engine.Lease.{
  finished, complete_held, complete_checked, check_output, complete_task, fail_task, validate_lease,
  holder,
}
use euroclaw.Engine.Lease.Held.{HasUniqueIds, lease_at, task_at}
use euroclaw.Engine.Lease.Once.{IsCompleted, complete_task-IsCompleted}
use euroclaw.Engine.Lease.Writes.{Write, write_all}
use euroclaw.Engine.Lease.Later.{complete_task_once}
use euroclaw.Engine.Claim.Ready.{AreApart}
use euroclaw.Storage.Table.Keyed.{HasUniqueKeys-assign_one}
use euroclaw.Engine.Reap.{reap_one, reap_all, reap_expired_leases}
use euroclaw.Engine.Reap.Laws.{reap_expired_leases-fresh}
use euroclaw.Engine.Claim.{bury, take_task, claim_loop, candidates, claim_due_task}
use euroclaw.Engine.Claim.Taken.{IsClaimed, IsLeftBy}
use euroclaw.Engine.Claim.Fair.{claim_due_task-IsClaimed}
use euroclaw.Engine.Claim.Finish.{claim_due_task-complete_task}
use euroclaw.Prelude.{
  ℕ, ◌<◌, String, ◌≡◌, refl, sym, ap, ◌∙◌, ◌≢◌, true, Option, none, some, List, [], ◌∷◌, arith,
  eq_iff,
}

abbrev run : RunRecord
run = record {
  id = "run";
  status = RunStatus.running;
  input = Json.null;
  principal = none;
  team = none;
  created_at = 0;
  updated_at = 0;
}

abbrev task : RuntimeTask
task = record {
  id = "task";
  run_id = "run";
  kind = "runtime.run";
  status = TaskStatus.leased;
  payload = Json.null;
  due_at = 0;
  attempt = 1;
  max_attempts = 2;
  retry_delay_ms = 5;
  lease_id = some "old";
  worker_id = some "gone";
  leased_until = some 10;
  last_error = none;
  output = none;
  created_at = 0;
  updated_at = 0;
  completed_at = none;
}

abbrev old_lease : LeaseRecord
old_lease = record {
  id = "old";
  task_id = "task";
  worker_id = "gone";
  token_hash = "stale";
  expires_at = 10;
  last_heartbeat_at = 0;
  created_at = 0;
}

abbrev store : Tables
store = record { runs = run ∷ []; tasks = task ∷ []; leases = old_lease ∷ []; events = [] }

abbrev request : ClaimTaskInput
request = record { worker_id = "worker"; lease_ttl_ms = some 100; limit = none }

abbrev pub text_itself : String → String
text_itself t = t

abbrev drawn : ℕ → String × String
drawn i = ("lease", "token")

abbrev at_20 : ℕ → ℕ
at_20 i = 20

abbrev pub claim : ClaimedTask
claim = record {
  task = record task {
    status = TaskStatus.leased;
    due_at = 17;
    attempt = 2;
    lease_id = some "lease";
    worker_id = some "worker";
    leased_until = some 120;
    last_error = some "lease expired";
    updated_at = 20;
  };
  lease_id = "lease";
  lease_token = "token";
  expires_at = 120;
}

abbrev pub after : Tables
after = record {
  runs = record run { updated_at = 20 } ∷ [];
  tasks = claim.task ∷ [];
  leases =
      record {
        id = "lease";
        task_id = "task";
        worker_id = "worker";
        token_hash = "token";
        expires_at = 120;
        last_heartbeat_at = 20;
        created_at = 20;
      }
      ∷ [];
  events = [];
}

claims :
    claim_due_task text_itself 12 20 at_20 at_20 drawn (λ i s. s) request store
    ≡ (some claim, after)
unfolding claim_due_task reap_expired_leases claim_loop candidates reap_all reap_one bury take_task
    update_run get_task find_one create filter_rows assign_one update delete_one consume_one sort_by
    insert_by
claims = refl

store-HasUniqueIds : HasUniqueIds store
unfolding find_key
store-HasUniqueIds = ((refl, tt), (refl, tt))

pub after-HasUniqueIds : HasUniqueIds after
unfolding find_key
after-HasUniqueIds = ((refl, tt), (refl, tt))

drawn_unused : (i : ℕ) → lease_at (drawn i).0 store ≡ none
unfolding find_key
drawn_unused i = refl

-- Another client puts the task off to a later time after the candidates have been read.
abbrev put_off : ℕ → Tables → Tables
put_off i s = record s { tasks = assign_one (λ t. true) (λ t. record t { due_at = 500 }) s.tasks }

abbrev late_claim : ClaimedTask
late_claim = record claim { task = record claim.task { due_at = 500 } }

abbrev late_after : Tables
late_after = record after { tasks = late_claim.task ∷ [] }

claims_late :
    claim_due_task text_itself 12 20 at_20 at_20 drawn put_off request store
    ≡ (some late_claim, late_after)
unfolding claim_due_task reap_expired_leases claim_loop candidates reap_all reap_one bury take_task
    update_run get_task find_one create filter_rows assign_one update delete_one consume_one sort_by
    insert_by
claims_late = refl

put_off-AreApart : AreApart drawn put_off
put_off-AreApart = record {
  keep_unique = λ i s u. (
    HasUniqueKeys-assign_one task_key (λ t. record t { due_at = 500 }) (λ t. refl) _ s.tasks u.0,
    u.1,
  );
  keep_unused = λ i j s unused. unused;
}

alone-AreApart : AreApart drawn (λ i s. s)
alone-AreApart = record { keep_unique = λ i s u. u; keep_unused = λ i j s unused. unused }

claim_due_task-IsClaimed_example :
    IsClaimed text_itself 20 request
      (IsLeftBy text_itself 20 request put_off)
      (reap_expired_leases 12 at_20 store).1
      late_after
      late_claim
claim_due_task-IsClaimed_example =
    claim_due_task-IsClaimed text_itself 20 request 12 at_20 at_20 drawn put_off store late_after
      late_claim store-HasUniqueIds drawn_unused put_off-AreApart claims_late

claim_due_task-complete_task_example :
    (complete_task text_itself (λ j. true) 50 51 "task" "token" (some Json.null) after).0
    ≡ returned (some (finished (some Json.null) 51 claim.task))
claim_due_task-complete_task_example =
    claim_due_task-complete_task text_itself 12 20 at_20 at_20 drawn (λ i s. s) request store after
      claim store-HasUniqueIds drawn_unused alone-AreApart claims (λ j. true) (some Json.null)
      (λ o e. refl) 50 51 (ground arith)

reap_expired_leases-fresh_example :
    HasUniqueIds (reap_expired_leases 12 at_20 store).1
    × ((k : String) (l : LeaseRecord)
        → lease_at k (reap_expired_leases 12 at_20 store).1 ≡ some l
        → 12 < l.expires_at)
reap_expired_leases-fresh_example = reap_expired_leases-fresh 12 at_20 store store-HasUniqueIds

abbrev answer : RuntimeTask
answer = finished (some Json.null) 51 claim.task

abbrev finished_store : Tables
finished_store = record after { tasks = answer ∷ []; leases = [] }

completes :
    complete_task text_itself (λ j. true) 50 51 "task" "token" (some Json.null) after
    ≡ (returned (some answer), finished_store)
unfolding complete_task complete_checked check_output complete_held holder validate_lease get_task
    find_one update assign_one delete_one
completes = refl

complete_task-IsCompleted_example :
    IsCompleted text_itself
      (λ j. true)
      50
      51
      "task"
      "token"
      (some Json.null)
      after
      finished_store
      answer
complete_task-IsCompleted_example =
    complete_task-IsCompleted text_itself (λ j. true) 50 51 "task" "token" (some Json.null) after
      finished_store answer after-HasUniqueIds completes

-- A later round of a worker that had read the task as pending, and a late failure report.
abbrev late_writes : List Write
late_writes =
    Write.take_one 60 request "other" "another" 60 claim.task
    ∷ Write.fail 70 71 "task" "token" "late"
    ∷ []

complete_task_once_example :
    (task_at "task" (write_all text_itself late_writes finished_store) ≡ some answer)
    × ((complete_task text_itself
          (λ j. true)
          60
          61
          "task"
          "token"
          none
          (write_all text_itself late_writes finished_store)).0
        ≢ returned (some answer))
    × ((fail_task text_itself 60 61 "task" "token" "late"
          (write_all text_itself late_writes finished_store)).0
        ≡ none)
complete_task_once_example =
    complete_task_once text_itself (λ j. true) 50 51 "task" "token" (some Json.null) after
      finished_store answer after-HasUniqueIds completes late_writes (λ j. true) 60 61 "token"
      "late" none answer

abbrev scope_text : String → String → String → Option String → Option String → String
scope_text key method path organization principal = key

-- `create` of the memory adapter
abbrev inserted : IdempotencyRecord → Eff Saved IdempotencyRecord
inserted row rows = (returned row, create row rows)

inserts : Inserts scope_text (λ j. true) inserted
inserts = record {
  row_is = λ row r s s' h. ground (arith, h);
  row_found = λ row r s s' missing h.
      find_one_any record_key row.id s'
      ∙ (ap (λ (x : Result IdempotencyRecord × Saved). find_key record_key row.id x.1) (sym h)
          ∙ ground (
            arith,
            missing,
            find_one_any record_key row.id s,
            eq_iff row.id row.id,
            find_key-create record_key row.id row s,
          ));
}

abbrev pay : IdempotencyLookup
pay = record {
  key = "k1";
  method = "POST";
  path = "/pay";
  organization_id = none;
  principal = none;
  request_hash = "h1";
}

abbrev paid : IdempotencyRecord
paid = record {
  id = "k1";
  key = "k1";
  method = "POST";
  path = "/pay";
  organization_id = none;
  principal = none;
  request_hash = "h1";
  response_status = 200;
  response_body = Json.null;
  created_at = 7;
}

saves_pay :
    save_idempotency scope_text (λ j. true) inserted 7 pay 200 Json.null []
    ≡ (returned paid, paid ∷ [])
unfolding save_idempotency get_idempotency find_one create
saves_pay = refl

save_idempotency-get_idempotency_example :
    CameFrom scope_text (λ j. true) inserted inserts 7 pay 200 Json.null [] (paid ∷ []) paid
    × (paid.request_hash ≡ pay.request_hash)
    × ((more : Saved)
        → get_idempotency scope_text pay (paid ∷ more) ≡ (returned (some paid), paid ∷ more))
save_idempotency-get_idempotency_example =
    save_idempotency-get_idempotency scope_text (λ j. true) inserted inserts 7 pay 200 Json.null []
      (paid ∷ []) paid saves_pay
