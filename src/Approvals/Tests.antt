-- ===== src/Approvals/Tests.antt =====
-- Runs of the approval store, and its theorems on a table of two approvals.
use euroclaw.Approvals.Park.{IsAccepted, IsParked, approval_gate, approval_gate-consume}
use euroclaw.Base.Eff.{returned}
use euroclaw.Governance.Boundary.{
  ToolCall, BoundaryCall, Stop, Context, Outcome, HandleResult, Halt, text_at, lookup,
}
use euroclaw.Storage.Table.Keyed.{find_key}
use euroclaw.Json.{Json, is_json_object}
use euroclaw.Approvals.{grant, consume, ApprovalRecord, ApprovalStatus}
use euroclaw.Json.{obj, prop, end}
use euroclaw.Storage.Table.{find_one, update, assign_one}
use euroclaw.Storage.Table.Keyed.{find_key}
use euroclaw.Approvals.{
  NewApproval, ApprovalRecord, Rows, approved, opened, granted, spent, expired, deny, consume,
}
use euroclaw.Approvals.Lifecycle.{IsLater, Reach-IsLater, consume_iff, consume_once}
use euroclaw.Approvals.Lifecycle.Steps.{at, HasUniqueIds, here, next, denies, consumes}
use euroclaw.Prelude.{◌≡◌, refl, ◌↔◌, true, false, none, some, [], ◌∷◌}

abbrev request : NewApproval
request = record {
  gate_id = "policy";
  tool_name = "send";
  args = obj end;
  reason_code = none;
  principal = some "user:ann";
  reason = none;
  metadata = none;
  created_at = 10;
  expires_at = some 100;
}

abbrev first : ApprovalRecord
first = granted "user:bob" (opened "a" request)

abbrev rows : Rows
rows = first ∷ opened "b" request ∷ []

rows-HasUniqueIds : HasUniqueIds rows
unfolding find_key
rows-HasUniqueIds = (refl, (refl, tt))

takes_first : (consume 50 "a" rows).0 ≡ some (spent first)
unfolding consume find_one update assign_one
takes_first = refl

too_late : (consume 101 "a" rows).0 ≡ none
unfolding consume find_one update assign_one
too_late = refl

at_first : at "a" rows ≡ some first
unfolding find_key
at_first = refl

consume_iff_example : ((consume 50 "a" rows).0 ≡ some (spent first)) ↔ (
    (old : ApprovalRecord) × (at "a" rows ≡ some old)
    × (old.status ≡ approved)
    × (expired 50 old ≡ false)
    × (spent first ≡ spent old))
consume_iff_example = consume_iff 50 "a" rows (spent first) rows-HasUniqueIds

abbrev after : Rows
after = (deny "a" "user:eve" none (consume 50 "a" rows).1).1

consume_once_example : consume 60 "a" after ≡ (none, after)
consume_once_example =
    consume_once 50 60 "a" rows after (spent first) rows-HasUniqueIds takes_first
      (next here (denies "a" "user:eve" none))

Reach-IsLater_example :
    (s : ApprovalRecord) × (at "a" (consume 50 "a" rows).1 ≡ some s) × IsLater first s
Reach-IsLater_example =
    Reach-IsLater "a" first rows-HasUniqueIds at_first (next here (consumes 50 "a"))

abbrev parked_call : ToolCall
parked_call = record { name = "send_mail"; args = obj (prop "to" (Json.str "bob") end) }

abbrev parked_stop : Stop
parked_stop = record {
  gate_id = "mail";
  reason = "ask a human";
  reason_code = none;
  annotations = none;
}

abbrev parked_ctx : Context
parked_ctx = ("euroclaw__principal", Json.str "user:anna") ∷ []

accepts_parked : IsAccepted (λ p. true) 3 "new" (λ c x s. none) parked_call parked_ctx parked_stop
unfolding is_json_object text_at lookup
accepts_parked = record { principal = refl; args = refl; about = refl }

approval_gate-consume_example :
    (rows' : Rows) × (row : ApprovalRecord) × ((approval_gate
          (λ p. true)
          3
          "new"
          (λ c x s. none)).handler
        (BoundaryCall.tool parked_call)
        parked_ctx
        (Outcome.result (HandleResult.halted (Halt.needs_approval parked_stop)))
        []
      ≡ (returned tt, rows'))
    × IsParked (λ p. true) 3 "new" (λ c x s. none) parked_call parked_ctx parked_stop [] rows' row
    × ((consume 9 "new" (grant "new" "user:bob" rows').1).0
        ≡ some (record row { status = ApprovalStatus.consumed; decided_by = some "user:bob" }))
unfolding find_key
approval_gate-consume_example =
    approval_gate-consume (λ p. true) 3 "new" (λ c x s. none) parked_call parked_ctx parked_stop []
      "user:bob" 9 tt refl accepts_parked
