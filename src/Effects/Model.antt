-- ===== src/Effects/Model.antt =====
-- The records of packages/foundation/contracts/src/effects.ts, what
-- packages/storage/durable/src/effect.ts makes of them, and its conditions on rows. Times are
-- milliseconds.
use euroclaw.Json.{Json}
use euroclaw.Base.Eff.{Result, returned, thrown, Thrown, state_error, validation_error}
use euroclaw.Storage.Table.{find_one}
use euroclaw.Storage.Table.Keyed.{with_key}
use euroclaw.Prelude.{
  ℕ, ◌+◌, String, Bool, true, false, ◌&&◌, Option, none, some, List, str_eq, ltb, leb,
  if◌then◌else◌, opt_eq,
}

pub data EffectStatus : Type 0 where
  started completed failed compensating compensated compensation_failed : EffectStatus

pub record EffectCompensation : Type 0 where
  pub tool_name : String
  pub args : Option Json

pub record EffectRecord : Type 0 where
  pub id : String
  pub status : EffectStatus
  pub tool_name : String
  pub input_hash : String
  pub output : Option Json
  pub error : Option Json
  pub compensation : Option EffectCompensation
  pub compensation_effect_id : Option String
  pub lease_expires_at : Option ℕ
  pub created_at : ℕ
  pub updated_at : ℕ

-- A stored row: the record, and the column that reads leave out.
pub record EffectRow : Type 0 where
  pub effect : EffectRecord
  pub lease_token_hash : Option String

pub data EffectClaim : Type 0 where
  claimed : (r : EffectRecord) → (lease_token : String) → (lease_expires_at : ℕ) → EffectClaim
  completed : EffectRecord → EffectClaim
  in_progress uncertain : EffectRecord → Option ℕ → EffectClaim
  unavailable : EffectRecord → EffectClaim

pub record ClaimInput : Type 0 where
  pub id : String
  pub tool_name : String
  pub input_hash : String
  pub compensation : Option EffectCompensation
  pub now : ℕ
  pub lease_ttl_ms : Option ℕ
  pub reclaim_expired : Option Bool

abbrev pub Effects : Type 0
Effects = List EffectRow

abbrev pub row_key : EffectRow → String
row_key r = r.effect.id

abbrev pub default_effect_lease_ttl_ms : ℕ
default_effect_lease_ttl_ms = 60000

abbrev pub expiry : ℕ → Option ℕ → ℕ
expiry now none = now + default_effect_lease_ttl_ms
expiry now (some ttl) = now + ttl

abbrev pub is_started : EffectRow → Bool
is_started r = elim r.effect.status [ started ↦ true | _ ↦ false ]

-- `leaseExpiresAt > now`, and `leaseExpiresAt <= now`; an absent time is neither
abbrev pub runs_at : ℕ → Option ℕ → Bool
runs_at now none = false
runs_at now (some t) = ltb now t

abbrev pub lapsed_at : ℕ → Option ℕ → Bool
lapsed_at now none = false
lapsed_at now (some t) = leb t now

-- `activeLeaseWhere`, behind the id
abbrev pub is_active : String → ℕ → EffectRow → Bool
is_active hash now r =
    is_started r && (opt_eq r.lease_token_hash (some hash) && runs_at now r.effect.lease_expires_at)

-- the condition of a reclaim, behind the id
abbrev pub is_lapsed : ℕ → EffectRow → Bool
is_lapsed now r = is_started r && lapsed_at now r.effect.lease_expires_at

abbrev pub effect_of : Option EffectRow → Option EffectRecord
effect_of none = none
effect_of (some r) = some r.effect

unfoldable pub read : String → Effects → Option EffectRecord
read id rows = effect_of (find_one (with_key row_key id (λ r. true)) rows)

-- `assertSameEffect`
abbrev pub same_effect : ClaimInput → EffectRecord → Bool
same_effect input r = str_eq r.tool_name input.tool_name && str_eq r.input_hash input.input_hash

abbrev pub reused : Thrown
reused = state_error "effect id reused with different input"

abbrev pub unavailable_claim : EffectRecord → EffectClaim
unavailable_claim r = elim r.status [
  | completed ↦ EffectClaim.completed r
  | started ↦ in_progress r r.lease_expires_at
  | _ ↦ unavailable r
]

abbrev pub leased_row : String → ℕ → ℕ → EffectRow → EffectRow
leased_row hash expires now r = record {
  effect = record r.effect { lease_expires_at = some expires; updated_at = now };
  lease_token_hash = some hash;
}

-- the row was no longer as it was read: what it is now
abbrev pub latest_claim : ClaimInput → EffectRecord → Option EffectRecord → Result EffectClaim
latest_claim input old none = returned (unavailable old)
latest_claim input old (some r) =
    if same_effect input r then returned (unavailable_claim r) else thrown reused

abbrev pub new_effect : ClaimInput → EffectRecord
new_effect input = record {
  id = input.id;
  status = started;
  tool_name = input.tool_name;
  input_hash = input.input_hash;
  output = none;
  error = none;
  compensation = input.compensation;
  compensation_effect_id = none;
  lease_expires_at = some (expiry input.now input.lease_ttl_ms);
  created_at = input.now;
  updated_at = input.now;
}

abbrev pub beaten : ℕ → ℕ → EffectRow → EffectRow
beaten expires now r = record r {
  effect = record r.effect { lease_expires_at = some expires; updated_at = now };
}

abbrev pub or_kept : Option Json → Option Json → Option Json
or_kept none old = old
or_kept (some new) old = some new

abbrev pub completed_effect : Option Json → ℕ → EffectRecord → EffectRecord
completed_effect output now e = record e {
  status = completed;
  output = or_kept output e.output;
  lease_expires_at = none;
  updated_at = now;
}

abbrev pub completed_row : Option Json → ℕ → EffectRow → EffectRow
completed_row output now r = record {
  effect = completed_effect output now r.effect;
  lease_token_hash = none;
}

-- `if (!row) throw`
abbrev pub written : String → Option EffectRow × Effects → Result EffectRecord × Effects
written label (none, rows) = (thrown (validation_error label), rows)
written label (some r, rows) = (returned r.effect, rows)

abbrev pub json_ok : (Json → Bool) → Option Json → Bool
json_ok valid none = true
json_ok valid (some j) = valid j

abbrev pub failed_row : Json → ℕ → EffectRow → EffectRow
failed_row error now r = record {
  effect = record r.effect {
    status = failed;
    error = some error;
    lease_expires_at = none;
    updated_at = now;
  };
  lease_token_hash = none;
}
