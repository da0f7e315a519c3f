-- ===== src/Engine/Claim.antt =====
-- claimDueTask of packages/engines/sql/src/store.ts. `fresh` gives the lease id and the token of each
-- round of the loop, `clock` the reading that `updateRun` makes in it, `others` what other clients of the
-- tables write between the reading of the candidates, or the round before, and a round. The writes of one
-- round have none between them.
pub mod Ready
pub mod Taken
pub mod Fair
pub mod Finish
use euroclaw.Storage.Table.{create, filter_rows, sort_by, update, assign_one, delete_one}
use euroclaw.Storage.Table.Keyed.{with_key}
use euroclaw.Engine.Model.{
  RunStatus, TaskStatus, RuntimeTask, LeaseRecord, ClaimedTask, Tables, ClaimTaskInput, or_default,
  default_lease_ttl_ms, task_key, lease_key, is_pending,
}
use euroclaw.Engine.Store.{any_row, update_run}
use euroclaw.Engine.Reap.{reap_expired_leases}
use euroclaw.Prelude.{
  ℕ, suc, ◌+◌, String, Bool, ◌&&◌, Option, none, some, List, [], ◌∷◌, leb, if◌then◌else◌, take,
}

abbrev pub is_due : ℕ → RuntimeTask → Bool
is_due ts t = is_pending t && leb t.due_at ts

abbrev pub exhausted : ℕ → RuntimeTask → RuntimeTask
exhausted ts t = record t {
  status = TaskStatus.dead;
  last_error = some "max attempts exhausted before claim";
  updated_at = ts;
}

-- A candidate whose attempts are used up goes to `dead`, and its run fails.
unfoldable pub bury : (ts stamp : ℕ) → RuntimeTask → Tables → Tables
unfolding update_run update
bury ts stamp c s =
    (update_run c.run_id RunStatus.failed stamp (record s {
      tasks = assign_one (with_key task_key c.id is_pending) (exhausted ts) s.tasks;
    })).1

module _ (ts : ℕ) (input : ClaimTaskInput) where
  abbrev pub expiry : ℕ
  expiry = ts + or_default input.lease_ttl_ms default_lease_ttl_ms

  abbrev pub claimed : String → RuntimeTask → RuntimeTask → RuntimeTask
  claimed id c t = record t {
    status = TaskStatus.leased;
    lease_id = some id;
    worker_id = some input.worker_id;
    leased_until = some expiry;
    attempt = c.attempt + 1;
    updated_at = ts;
  }

module _ (hash_text : String → String) (ts : ℕ) (input : ClaimTaskInput) where
  abbrev pub new_lease : String → String → RuntimeTask → LeaseRecord
  new_lease id token c = record {
    id = id;
    task_id = c.id;
    worker_id = input.worker_id;
    token_hash = hash_text token;
    expires_at = expiry ts input;
    last_heartbeat_at = ts;
    created_at = ts;
  }

  -- The lease is written first, then the task if it is still pending; without it the lease goes.
  unfoldable pub take_task :
      String → String → ℕ → RuntimeTask → Tables → Option ClaimedTask × Tables
  unfolding update update_run
  take_task id token stamp c s =
      let (row, tasks) =
        update (with_key task_key c.id is_pending) (claimed ts input id c) s.tasks in
      let leased : Tables = record s { leases = create (new_lease id token c) s.leases } in
      elim row [
        | none ↦ (
          none,
          record leased { leases = delete_one (with_key lease_key id any_row) leased.leases },
        )
        | some r ↦ (
          some (record {
            task = r;
            lease_id = id;
            lease_token = token;
            expires_at = expiry ts input;
          }),
          (update_run r.run_id RunStatus.running stamp (record leased { tasks = tasks })).1,
        )
      ]

  abbrev pub or_claim :
      (Tables → Option ClaimedTask × Tables)
      → Option ClaimedTask × Tables
      → Option ClaimedTask × Tables
  or_claim rest (none, s) = rest s
  or_claim rest (some c, s) = (some c, s)

  -- The loop over the candidates, which is not one transaction: `others` is what the other clients of
  -- the tables have written by each round. `fresh` gives each round its lease id and token.
  unfoldable pub claim_loop :
      (ℕ → String × String)
      → (ℕ → ℕ)
      → (ℕ → Tables → Tables)
      → List RuntimeTask
      → Tables
      → Option ClaimedTask × Tables
  unfolding bury take_task
  claim_loop fresh clock others [] s = (none, s)
  claim_loop fresh clock others (c ∷ cs) s =
      let rest = claim_loop (λ i. fresh (suc i)) (λ i. clock (suc i)) (λ i. others (suc i)) cs in
      let now = others 0 s in
      if leb c.max_attempts c.attempt
      then rest (bury ts (clock 0) c now)
      else or_claim rest (take_task (fresh 0).0 (fresh 0).1 (clock 0) c now)

unfoldable pub candidates : ℕ → ClaimTaskInput → Tables → List RuntimeTask
candidates ts input s =
    take (or_default input.limit 10) (sort_by (λ t. t.due_at) (filter_rows (is_due ts) s.tasks))

-- `claimDueTask`: expired leases first, at their own reading of the clock; the candidates are read once,
-- and by each round of the loop the tables may have been written by others
unfoldable pub claim_due_task :
    (String → String)
    → (reaped_at ts : ℕ) → (reap_clock clock : ℕ → ℕ) → (fresh : ℕ → String × String)
    → (others : ℕ → Tables → Tables) → ClaimTaskInput
    → Tables
    → Option ClaimedTask × Tables
unfolding claim_loop candidates
claim_due_task hash_text reaped_at ts reap_clock clock fresh others input s =
    let (n, reaped) = reap_expired_leases reaped_at reap_clock s in
    claim_loop hash_text ts input fresh clock others (candidates ts input reaped) reaped
