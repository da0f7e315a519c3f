-- ===== src/Engine/LeaseTests.antt =====
-- The claimed task of the other tests: a heartbeat, and a failed last attempt.
use euroclaw.Storage.Table.{find_one, assign_one, update, delete_one}
use euroclaw.Storage.Table.Keyed.{find_key}
use euroclaw.Engine.Model.{TaskStatus, RuntimeTask, LeaseRecord, Tables}
use euroclaw.Engine.Store.{get_task}
use euroclaw.Engine.Lease.{holder, validate_lease, fail_task, heartbeat_lease, extend_lease}
use euroclaw.Engine.Lease.Held.{IsVouched}
use euroclaw.Engine.Lease.Retry.{IsFailed, fail_task-IsFailed}
use euroclaw.Engine.Lease.Heartbeat.{heartbeat_lease-IsVouched}
use euroclaw.Engine.Tests.{text_itself, claim, after, after-HasUniqueIds}
use euroclaw.Prelude.{ℕ, ◌<◌, ◌≡◌, refl, none, some, [], ◌∷◌, arith}

abbrev lost : RuntimeTask
lost = record claim.task {
  status = TaskStatus.dead;
  last_error = some "boom";
  lease_id = none;
  worker_id = none;
  leased_until = none;
  updated_at = 51;
}

abbrev failed_store : Tables
failed_store = record after { tasks = lost ∷ []; leases = [] }

fails : fail_task text_itself 50 51 "task" "token" "boom" after ≡ (some lost, failed_store)
unfolding fail_task holder validate_lease get_task find_one update assign_one delete_one
fails = refl

fail_task-IsFailed_example :
    IsFailed text_itself 50 51 "task" "token" "boom" after failed_store lost
fail_task-IsFailed_example =
    fail_task-IsFailed text_itself 50 51 "task" "token" "boom" after failed_store lost
      after-HasUniqueIds fails

abbrev lease : LeaseRecord
lease = record {
  id = "lease";
  task_id = "task";
  worker_id = "worker";
  token_hash = "token";
  expires_at = 120;
  last_heartbeat_at = 20;
  created_at = 20;
}

vouches_now : IsVouched text_itself 50 "task" "token" after claim.task lease
unfolding find_key
vouches_now = record {
  task_found = refl;
  names_lease = refl;
  lease_found = refl;
  on_task = refl;
  unexpired = ground arith;
  token_matches = refl;
}

abbrev longer : LeaseRecord
longer = record lease { expires_at = 251; last_heartbeat_at = 51 }

abbrev beaten : Tables
beaten = record after {
  tasks = record claim.task { leased_until = some 251; updated_at = 51 } ∷ [];
  leases = longer ∷ [];
}

beats : heartbeat_lease text_itself 50 51 "lease" "token" (some 200) after ≡ (some longer, beaten)
unfolding heartbeat_lease extend_lease find_one update assign_one
beats = refl

heartbeat_lease-IsVouched_example :
    (longer.expires_at ≡ 251)
    × ((now' : ℕ)
        → now' < longer.expires_at
        → (task' : RuntimeTask) × IsVouched text_itself now' "task" "token" beaten task' longer)
heartbeat_lease-IsVouched_example =
    heartbeat_lease-IsVouched text_itself 50 51 "task" "token" (some 200) after beaten claim.task
      lease longer after-HasUniqueIds vouches_now beats
