-- ===== src/Audit/Gate.antt =====
-- The audit after-gate, `auditGate` of packages/foundation/core/src/audit.ts, on the log of the memory
-- sink, with `stampedFacts` of packages/foundation/contracts/src/governance/boundary.ts. The state is
-- what the host's functions change, beside the log; `valid` is the schema of `auditInput`.
pub mod Told
pub mod Recorded
use euroclaw.Json.{Json, str}
use euroclaw.Base.Eff.{Eff, Result, returned, thrown}
use euroclaw.Governance.Boundary.{
  BoundaryCall, Stop, HandleResult, Halt, Outcome, Context, lookup, text_at, call_name,
  call_payload,
}
use euroclaw.Governance.Pipeline.Loops.{Observer}
use euroclaw.Audit.Chain.{Boundary, Status, RunMode, AuditInput, AuditEntry, Digest, append}
use euroclaw.Prelude.{
  String, Bool, true, false, ◌&&◌, ◌||◌, Option, none, some, List, str_eq, if◌then◌else◌,
}

-- A stamped text: absent, a text, or something else, which spoils all stamps.
abbrev pub stamp_ok : Option Json → Bool
stamp_ok none = true
stamp_ok (some (str s)) = true
stamp_ok (some _) = false

abbrev pub mode_of : Option String → Option RunMode
mode_of none = none
mode_of (some s) =
    if str_eq s "interactive"
    then some RunMode.interactive
    else (if str_eq s "autonomous" then some RunMode.autonomous else none)

abbrev pub mode_ok : Option String → Bool
mode_ok none = true
mode_ok (some s) = str_eq s "interactive" || str_eq s "autonomous"

-- `stampedFacts(ctx)` is no error
unfoldable pub stamps_ok : Context → Bool
stamps_ok ctx =
    stamp_ok (lookup "euroclaw__role" ctx)
    && (stamp_ok (lookup "euroclaw__team" ctx)
        && (stamp_ok (lookup "euroclaw__clawId" ctx)
            && (stamp_ok (lookup "euroclaw__organizationId" ctx)
                && (stamp_ok (lookup "euroclaw__runMode" ctx)
                    && mode_ok (text_at "euroclaw__runMode" ctx)))))

abbrev pub boundary_of : BoundaryCall → Boundary
boundary_of (BoundaryCall.tool call) = Boundary.tool
boundary_of (BoundaryCall.model call) = Boundary.model

abbrev pub halt_status : Halt → Status
halt_status (Halt.denied s) = Status.denied
halt_status (Halt.needs_approval s) = Status.needs_approval

abbrev pub status_of : Outcome → Status
status_of (Outcome.result (HandleResult.ok output)) = Status.ok
status_of (Outcome.result (HandleResult.halted h)) = halt_status h
status_of (Outcome.error reason) = Status.error

abbrev pub stop_in : Halt → Stop
stop_in (Halt.denied s) = s
stop_in (Halt.needs_approval s) = s

abbrev pub gate_in : Outcome → Option String
gate_in (Outcome.result (HandleResult.halted h)) = some (stop_in h).gate_id
gate_in _ = none

abbrev pub reason_in : Outcome → Option String
reason_in (Outcome.result (HandleResult.ok output)) = none
reason_in (Outcome.result (HandleResult.halted h)) = some (stop_in h).reason
reason_in (Outcome.error reason) = some reason

abbrev pub code_in : Outcome → Option String
code_in (Outcome.result (HandleResult.halted h)) = (stop_in h).reason_code
code_in _ = none

unfoldable pub audit_input : String → BoundaryCall → Context → Outcome → AuditInput
audit_input ts call ctx outcome = record {
  ts = ts;
  boundary = boundary_of call;
  name = call_name call;
  status = status_of outcome;
  gate_id = gate_in outcome;
  reason = reason_in outcome;
  reason_code = code_in outcome;
  principal = text_at "euroclaw__principal" ctx;
  claw_id = if stamps_ok ctx then text_at "euroclaw__clawId" ctx else none;
  run_mode = if stamps_ok ctx then mode_of (text_at "euroclaw__runMode" ctx) else none;
  decided_by = text_at "euroclaw__approvedBy" ctx;
  payload = call_payload call;
}

module _ {E Hash : Type 0} (d : Digest Hash) (valid : AuditInput → Bool) (now : String) where
  abbrev pub appended :
      E
      → Result (AuditEntry Hash) × List (AuditEntry Hash)
      → Result (Unit {0}) × (E × List (AuditEntry Hash))
  appended env (returned e, log) = (returned tt, (env, log))
  appended env (thrown e, log) = (thrown e, (env, log))

  unfoldable pub record_outcome :
      BoundaryCall → Context → Outcome → Eff (E × List (AuditEntry Hash)) (Unit {0})
  record_outcome call ctx outcome s =
      appended s.0 (append d valid s.1 (audit_input now call ctx outcome))

  unfoldable pub audit_gate : Observer (E × List (AuditEntry Hash))
  unfolding record_outcome
  audit_gate = record { matcher = λ call ctx. true; handler = record_outcome }
