-- ===== src/Approvals.antt =====
-- Durable approvals: packages/storage/durable/src/approval.ts over the records of
-- packages/foundation/contracts/src/governance/approval.ts. The rows are those of one table; ids come
-- from the caller in place of the random `newId`, times are milliseconds in place of ISO texts;
-- `well_formed` is the schema of a principal.
pub mod Lifecycle
pub mod Park
mod Tests
use euroclaw.Json.{Json, is_json_object}
use euroclaw.Base.Eff.{Eff, returned, thrown, validation_error}
use euroclaw.Storage.Table.{create, find_one, filter_rows, update}
use euroclaw.Storage.Table.Keyed.{with_key}
use euroclaw.Prelude.{
  ℕ, String, Bool, true, false, ◌&&◌, Option, none, some, List, str_eq, ltb, if◌then◌else◌, opt_eq,
}

pub data ApprovalStatus : Type 0 where
  pending approved denied consumed : ApprovalStatus

pub record ApprovalRecord : Type 0 where
  pub id : String
  pub status : ApprovalStatus
  pub gate_id : String
  pub tool_name : String
  pub args : Json
  pub reason_code : Option String
  pub principal : Option String
  pub reason : Option String
  pub metadata : Option Json
  pub decided_by : Option String
  pub created_at : ℕ
  pub expires_at : Option ℕ

-- What `create` is given: the record without `id`, `status` and `decidedBy`.
pub record NewApproval : Type 0 where
  pub gate_id : String
  pub tool_name : String
  pub args : Json
  pub reason_code : Option String
  pub principal : Option String
  pub reason : Option String
  pub metadata : Option Json
  pub created_at : ℕ
  pub expires_at : Option ℕ

abbrev pub Rows : Type 0
Rows = List ApprovalRecord

abbrev pub is_pending : ApprovalRecord → Bool
is_pending r = elim r.status [ pending ↦ true | _ ↦ false ]

abbrev pub is_approved : ApprovalRecord → Bool
is_approved r = elim r.status [ approved ↦ true | _ ↦ false ]

abbrev pub where_pending : String → ApprovalRecord → Bool
where_pending id = with_key (λ (r : ApprovalRecord). r.id) id is_pending

abbrev pub where_approved : String → ApprovalRecord → Bool
where_approved id = with_key (λ (r : ApprovalRecord). r.id) id is_approved

abbrev pub opened : String → NewApproval → ApprovalRecord
opened id input = record {
  id = id;
  status = pending;
  gate_id = input.gate_id;
  tool_name = input.tool_name;
  args = input.args;
  reason_code = input.reason_code;
  principal = input.principal;
  reason = input.reason;
  metadata = input.metadata;
  decided_by = none;
  created_at = input.created_at;
  expires_at = input.expires_at;
}

abbrev pub none_or : {A : Type 0} → (A → Bool) → Option A → Bool
none_or ok none = true
none_or ok (some a) = ok a

-- `validateNewApproval`: what the schema asks of the fields beyond their types here
unfoldable pub is_new_approval : (well_formed : String → Bool) → NewApproval → Bool
unfolding is_json_object
is_new_approval well_formed input =
    is_json_object input.args
    && (none_or well_formed input.principal && none_or is_json_object input.metadata)

unfoldable pub create_approval :
    (well_formed : String → Bool) → (new_id : String) → NewApproval → Eff Rows ApprovalRecord
unfolding is_new_approval
create_approval well_formed new_id input rows =
    if is_new_approval well_formed input
    then (returned (opened new_id input), create (opened new_id input) rows)
    else (thrown (validation_error "new approval invalid"), rows)

unfoldable pub get : String → Rows → Option ApprovalRecord
get id rows = find_one (λ r. str_eq r.id id) rows

abbrev pub granted : String → ApprovalRecord → ApprovalRecord
granted by r = record r { status = approved; decided_by = some by }

abbrev pub or_reason : Option String → Option String → Option String
or_reason none old = old
or_reason (some new) old = some new

abbrev pub refused : String → Option String → ApprovalRecord → ApprovalRecord
refused by reason r = record r {
  status = denied;
  decided_by = some by;
  reason = or_reason reason r.reason;
}

abbrev pub spent : ApprovalRecord → ApprovalRecord
spent r = record r { status = consumed }

unfoldable pub grant : String → String → Rows → Option ApprovalRecord × Rows
grant id by rows = update (where_pending id) (granted by) rows

unfoldable pub deny : String → String → Option String → Rows → Option ApprovalRecord × Rows
deny id by reason rows = update (where_pending id) (refused by reason) rows

-- `existing.expiresAt != null && existing.expiresAt < now()`
abbrev pub expired : ℕ → ApprovalRecord → Bool
expired now r = elim r.expires_at [ none ↦ false | some t ↦ ltb t now ]

unfoldable pub consume : ℕ → String → Rows → Option ApprovalRecord × Rows
consume now id rows = elim (find_one (where_approved id) rows) [
  | none ↦ (none, rows)
  | some existing ↦
      if expired now existing then (none, rows) else update (where_approved id) spent rows
]

status_eq : ApprovalStatus → ApprovalStatus → Bool
status_eq pending pending = true
status_eq approved approved = true
status_eq denied denied = true
status_eq consumed consumed = true
status_eq _ _ = false

wanted_status : Option ApprovalStatus → ApprovalRecord → Bool
wanted_status none r = true
wanted_status (some s) r = status_eq r.status s

wanted_principal : Option String → ApprovalRecord → Bool
wanted_principal none r = true
wanted_principal (some p) r = opt_eq r.principal (some p)

unfoldable pub list : Option ApprovalStatus → Option String → Rows → List ApprovalRecord
unfolding wanted_status wanted_principal status_eq
list status principal rows =
    filter_rows (λ r. wanted_status status r && wanted_principal principal r) rows
