-- ===== src/Engine/Model.antt =====
-- The records of packages/engines/sql/src/store.ts, with the tables of
-- packages/engines/sql/src/schema.ts. Times are milliseconds as numbers in place of ISO texts, so
-- that `addMs` is addition; a column that is absent or null is `none`.
use euroclaw.Json.{Json}
use euroclaw.Prelude.{
  ℕ, ◌+◌, String, Bool, true, false, ◌&&◌, Option, none, some, List, leb, if◌then◌else◌, opt_eq,
}

pub data RunStatus : Type 0 where
  queued running waiting completed failed cancelled : RunStatus

pub data TaskStatus : Type 0 where
  pending leased completed failed dead : TaskStatus

pub record RunRecord : Type 0 where
  pub id : String
  pub status : RunStatus
  pub input : Json
  pub principal : Option String
  pub team : Option String
  pub created_at : ℕ
  pub updated_at : ℕ

pub record RuntimeTask : Type 0 where
  pub id : String
  pub run_id : String
  pub kind : String
  pub status : TaskStatus
  pub payload : Json
  pub due_at : ℕ
  pub attempt : ℕ
  pub max_attempts : ℕ
  pub retry_delay_ms : ℕ
  pub lease_id : Option String
  pub worker_id : Option String
  pub leased_until : Option ℕ
  pub last_error : Option String
  pub output : Option Json
  pub created_at : ℕ
  pub updated_at : ℕ
  pub completed_at : Option ℕ

pub record RunEvent : Type 0 where
  pub id : String
  pub run_id : String
  pub kind : String
  pub payload : Json
  pub created_at : ℕ

pub record LeaseRecord : Type 0 where
  pub id : String
  pub task_id : String
  pub worker_id : String
  pub token_hash : String
  pub expires_at : ℕ
  pub last_heartbeat_at : ℕ
  pub created_at : ℕ

pub record ClaimedTask : Type 0 where
  pub task : RuntimeTask
  pub lease_id : String
  pub lease_token : String
  pub expires_at : ℕ

-- The tables that the queue writes.
pub record Tables : Type 0 where
  pub runs : List RunRecord
  pub tasks : List RuntimeTask
  pub leases : List LeaseRecord
  pub events : List RunEvent

pub record CreateRunInput : Type 0 where
  pub id : Option String
  pub input : Option Json
  pub principal : Option String
  pub team : Option String

pub record EnqueueTaskInput : Type 0 where
  pub id : Option String
  pub run_id : String
  pub kind : String
  pub payload : Option Json
  pub due_at : Option ℕ
  pub max_attempts : Option ℕ
  pub retry_delay_ms : Option ℕ

pub record ClaimTaskInput : Type 0 where
  pub worker_id : String
  pub lease_ttl_ms : Option ℕ
  pub limit : Option ℕ

-- `a ?? b`
abbrev pub or_default {ℓ} : {A : Type ℓ} → Option A → A → A
or_default none b = b
or_default (some a) b = a

abbrev pub default_lease_ttl_ms : ℕ
default_lease_ttl_ms = 60000

abbrev pub default_retry_delay_ms : ℕ
default_retry_delay_ms = 1000

abbrev pub run_key : RunRecord → String
run_key r = r.id

abbrev pub task_key : RuntimeTask → String
task_key t = t.id

abbrev pub lease_key : LeaseRecord → String
lease_key l = l.id

abbrev pub is_pending : RuntimeTask → Bool
is_pending t = elim t.status [ pending ↦ true | _ ↦ false ]

abbrev pub is_leased : RuntimeTask → Bool
is_leased t = elim t.status [ leased ↦ true | _ ↦ false ]

-- `expiresAt <= ts`
abbrev pub is_expired : ℕ → LeaseRecord → Bool
is_expired ts l = leb l.expires_at ts

-- leased, under this lease
abbrev pub held_by : String → RuntimeTask → Bool
held_by lease t = is_leased t && opt_eq t.lease_id (some lease)

-- the status that a failed or expired attempt leaves: retried while attempts remain
abbrev pub retry_status : RuntimeTask → TaskStatus
retry_status t = if leb t.max_attempts t.attempt then dead else pending

abbrev pub retry_due : ℕ → RuntimeTask → ℕ
retry_due ts t = if leb t.max_attempts t.attempt then t.due_at else ts + t.retry_delay_ms
