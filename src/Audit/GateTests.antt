-- ===== src/Audit/GateTests.antt =====
-- A governed call with the audit gate, on a host whose log is numbered.
use euroclaw.Audit.Chain.{AuditInput, AuditEntry, Digest, append}
use euroclaw.Audit.Gate.{audit_gate, audit_input, record_outcome}
use euroclaw.Audit.Gate.Told.{Tells}
use euroclaw.Audit.Gate.Recorded.{HasEntry, run_governed-HasEntry}
use euroclaw.Base.Eff.{returned, pure}
use euroclaw.Governance.Boundary.{ToolCall, ok, tool, result}
use euroclaw.Governance.Pipeline.{run_governed, governed_body, execute_tool, settle}
use euroclaw.Governance.Pipeline.Loops.{Config, Gates, Redactor, run_gates, run_after}
use euroclaw.Json.{str}
use euroclaw.Prelude.{ℕ, ◌+◌, ◌≡◌, refl, true, false, none, some, List, [], ◌∷◌, ◌==◌, ==_iff}

abbrev counter : Digest ℕ
counter = record { hash_entry = λ s. s.seq + 1; genesis = 0; same = ◌==◌; same_iff = ==_iff }

abbrev World : Type 0
World = ℕ × List (AuditEntry ℕ)

abbrev no_redaction : Redactor World
no_redaction = record {
  redact_value = λ v c. pure v;
  redact_text = λ t c. pure t;
  rehydrate_value = λ v c. pure v;
}

abbrev host : Config World
host = record {
  redaction_on = false;
  redactor = no_redaction;
  resolve_context = none;
  run_tool = λ call ctx rehydrate s. (returned (some call.args), (s.0 + 1, s.1));
  call_model = none;
  consume = none;
  reason_codes = [];
  valid_tool_call = λ raw. none;
  valid_model_call = λ raw. none;
}

abbrev audited : Gates World
audited = record {
  boundary_before = [];
  before = [];
  after = record { id = "audit"; sealed = true; body = audit_gate counter (λ i. true) "t" } ∷ [];
}

abbrev send : ToolCall
send = record { name = "send"; args = str "hi" }

abbrev acted : World
acted = (
  1,
  record {
    snapshot = record {
      input = audit_input "t" (tool send) [] (result (ok (some (str "hi"))));
      seq = 0;
      prev_hash = 0;
    };
    hash = 1;
  }
      ∷ [],
)

acts : run_governed host audited send [] none (0, []) ≡ (returned (ok (some (str "hi"))), acted)
unfolding run_governed run_gates run_after settle execute_tool record_outcome audit_gate append
acts = refl

run_governed-HasEntry_example :
    (input : AuditInput) × Tells "t" send [] (ok (some (str "hi"))) input
    × HasEntry input (governed_body host audited send [] none (0, [])).1.1 acted.1
run_governed-HasEntry_example =
    run_governed-HasEntry counter (λ i. true) "t" host audited [] [] "audit" true send [] none
      (ok (some (str "hi"))) (0, []) acted refl tt tt acts
