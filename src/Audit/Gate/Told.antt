-- ===== src/Audit/Gate/Told.antt =====
-- What an entry of the audit gate says of a tool call, described apart from the code of `auditGate`.
use euroclaw.Json.{str}
use euroclaw.Governance.Boundary.{
  ToolCall, tool, HandleResult, Halt, Context, lookup, text_at, result, call_name, call_payload,
}
use euroclaw.Audit.Chain.{Boundary, Status, RunMode, AuditInput}
use euroclaw.Audit.Gate.{audit_input, mode_of}
use euroclaw.Governance.Texts.{IsTextOf, text_at-IsTextOf}
use euroclaw.Prelude.{String, ◌≡◌, refl, Option, none, some, arith, eq_iff}

-- The outcome of a call that returned.
abbrev pub SaysOutcome : HandleResult → AuditInput → Type 0
SaysOutcome (HandleResult.ok output) e =
    (e.status ≡ Status.ok) × (e.gate_id ≡ none) × (e.reason ≡ none) × (e.reason_code ≡ none)
SaysOutcome (HandleResult.halted (Halt.denied s)) e =
    (e.status ≡ Status.denied)
    × (e.gate_id ≡ some s.gate_id)
    × (e.reason ≡ some s.reason)
    × (e.reason_code ≡ s.reason_code)
SaysOutcome (HandleResult.halted (Halt.needs_approval s)) e =
    (e.status ≡ Status.needs_approval)
    × (e.gate_id ≡ some s.gate_id)
    × (e.reason ≡ some s.reason)
    × (e.reason_code ≡ s.reason_code)

abbrev pub mode_text : RunMode → String
mode_text RunMode.interactive = "interactive"
mode_text RunMode.autonomous = "autonomous"

pub record Tells (now : String) (call : ToolCall) (ctx : Context) (r : HandleResult)
    (e : AuditInput) : Type 0 where
  pub ts : e.ts ≡ now
  pub boundary : e.boundary ≡ Boundary.tool
  pub name : e.name ≡ call.name
  pub payload : e.payload ≡ call.args
  pub outcome : SaysOutcome r e
  pub principal : IsTextOf "euroclaw__principal" ctx e.principal
  pub decided_by : IsTextOf "euroclaw__approvedBy" ctx e.decided_by
  pub claw_id : (c : String) → e.claw_id ≡ some c → lookup "euroclaw__clawId" ctx ≡ some (str c)
  pub run_mode :
      (m : RunMode)
      → e.run_mode ≡ some m
      → lookup "euroclaw__runMode" ctx ≡ some (str (mode_text m))

says_outcome :
    (now : String) (call : ToolCall) (ctx : Context) (r : HandleResult)
    → SaysOutcome r (audit_input now (tool call) ctx (result r))
unfolding audit_input
says_outcome now call ctx (HandleResult.ok output) = (refl, refl, refl, refl)
says_outcome now call ctx (HandleResult.halted (Halt.denied s)) = (refl, refl, refl, refl)
says_outcome now call ctx (HandleResult.halted (Halt.needs_approval s)) = (refl, refl, refl, refl)

mode_of-text : (o : Option String) (m : RunMode) → mode_of o ≡ some m → o ≡ some (mode_text m)
mode_of-text none m h = ground arith
mode_of-text (some s) RunMode.interactive h =
    ground (arith, eq_iff s "interactive", eq_iff s "autonomous")
mode_of-text (some s) RunMode.autonomous h =
    ground (arith, eq_iff s "interactive", eq_iff s "autonomous")

pub audit_input-Tells :
    (now : String) (call : ToolCall) (ctx : Context) (r : HandleResult)
    → Tells now call ctx r (audit_input now (tool call) ctx (result r))
unfolding audit_input call_name call_payload
audit_input-Tells now call ctx r = record {
  ts = refl;
  boundary = refl;
  name = refl;
  payload = refl;
  outcome = says_outcome now call ctx r;
  principal = text_at-IsTextOf "euroclaw__principal" ctx;
  decided_by = text_at-IsTextOf "euroclaw__approvedBy" ctx;
  claw_id = λ c h. (text_at-IsTextOf "euroclaw__clawId" ctx c).0 (ground (arith, h));
  run_mode = λ m h.
      (text_at-IsTextOf "euroclaw__runMode" ctx (mode_text m)).0
        (mode_of-text (text_at "euroclaw__runMode" ctx) m (ground (arith, h)));
}
