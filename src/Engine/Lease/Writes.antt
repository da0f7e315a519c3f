-- ===== src/Engine/Lease/Writes.antt =====
-- Writes of the queue that leave a task alone which is neither pending nor leased: completeTask, failTask,
-- heartbeatLease and the rounds of the loops of reapExpiredLeases and claimDueTask, of
-- packages/engines/sql/src/store.ts.
use mathlib.Core.Path.{subst}
use euroclaw.Json.{Json}
use euroclaw.Storage.Table.{assign_one}
use euroclaw.Storage.Table.Keyed.{
  with_key, find_key, HasUniqueKeys, HasUniqueKeys-assign_one, find_key-assign_one,
}
use euroclaw.Engine.Model.{
  RuntimeTask, LeaseRecord, Tables, ClaimTaskInput, is_pending, is_leased, task_key,
}
use euroclaw.Engine.Reap.{reap_one}
use euroclaw.Engine.Claim.{bury, take_task}
use euroclaw.Engine.Lease.{complete_task, fail_task, heartbeat_lease}
use euroclaw.Engine.Lease.Held.{task_at}
use euroclaw.Prelude.{
  ℕ, String, ◌≡◌, sym, ap, ◌∙◌, ◌⊎◌, inl, inr, Bool, false, Option, some, List, [], ◌∷◌, arith,
}

-- One write of the queue; `reap`, `bury` and `take` are rounds of the loops, whatever candidate a worker
-- has read before.
pub data Write : Type 0 where
  complete : (valid : Json → Bool) (now ts : ℕ) (id token : String) (output : Option Json) → Write
  fail : (now ts : ℕ) (id token reason : String) → Write
  heartbeat : (now ts : ℕ) (id token : String) (ttl : Option ℕ) → Write
  reap : (ts stamp : ℕ) (candidate : LeaseRecord) → Write
  bury_one : (ts stamp : ℕ) (candidate : RuntimeTask) → Write
  take_one :
      (ts : ℕ) (input : ClaimTaskInput) (id token : String) (stamp : ℕ) (candidate : RuntimeTask)
      → Write

module _ (hash_text : String → String) where
  unfoldable pub write : Write → Tables → Tables
  write (Write.complete valid now ts id token output) s =
      (complete_task hash_text valid now ts id token output s).1
  write (Write.fail now ts id token reason) s = (fail_task hash_text now ts id token reason s).1
  write (Write.heartbeat now ts id token ttl) s =
      (heartbeat_lease hash_text now ts id token ttl s).1
  write (Write.reap ts stamp candidate) s = (reap_one ts stamp candidate s).1
  write (Write.bury_one ts stamp candidate) s = bury ts stamp candidate s
  write (Write.take_one ts input id token stamp candidate) s =
      (take_task hash_text ts input id token stamp candidate s).1

  unfoldable pub write_all : List Write → Tables → Tables
  unfolding write
  write_all [] s = s
  write_all (w ∷ ws) s = write_all ws (write w s)

-- Neither pending nor leased.
unfoldable pub IsIdle : RuntimeTask → Type 0
IsIdle row = (is_pending row ≡ false) × (is_leased row ≡ false)

-- A write that at most changes the first row of some id where a test holds that `row` does not meet.
pub record Passes (row : RuntimeTask) (tasks tasks' : List RuntimeTask) : Type 0 where
  pub key : String
  pub test : RuntimeTask → Bool
  pub change : RuntimeTask → RuntimeTask
  pub keeps : (t : RuntimeTask) → (change t).id ≡ t.id
  pub fails : test row ≡ false
  pub is : (tasks' ≡ tasks) ⊎ (tasks' ≡ assign_one (with_key task_key key test) change tasks)

unfoldable pub IsSettled : String → RuntimeTask → Tables → Type 0
IsSettled id row s = HasUniqueKeys task_key s.tasks × (task_at id s ≡ some row)

pub Passes-IsSettled :
    (id : String) (row : RuntimeTask) (s s' : Tables)
    → Passes row s.tasks s'.tasks
    → IsSettled id row s
    → IsSettled id row s'
unfolding IsSettled
Passes-IsSettled id row s s' p (u, found) = elim p.is [
  | inl same ↦ (subst (HasUniqueKeys task_key) (sym same) u, ap (find_key task_key id) same ∙ found)
  | inr changed ↦ (
    subst (HasUniqueKeys task_key) (sym changed)
        (HasUniqueKeys-assign_one task_key p.change p.keeps _ s.tasks u),
    ap (find_key task_key id) changed
        ∙ ground (
          arith,
          p.fails,
          found,
          find_key-assign_one task_key p.change p.keeps id p.key p.test s.tasks u,
        ),
  )
]
