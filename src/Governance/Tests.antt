-- ===== src/Governance/Tests.antt =====
-- Runs of the governed pipeline, and its theorems on a small host whose state is a trace.
use euroclaw.Base.Eff.{Eff, returned, thrown, validation_error, pure}
use euroclaw.Json.{Json, null, str}
use euroclaw.Governance.Boundary.{ToolCall, permit, deny, ok, halted, Halt, denied, Context}
use euroclaw.Governance.Registry.{
  Gate, Kind, Ids, has, find_gate, insert_sealed, place, cleared, add, register_all,
}
use euroclaw.Governance.Registry.Order.{sealed_part}
use euroclaw.Governance.Registry.Sealed.{IsWellFormed, register_all-sealed}
use euroclaw.Governance.Pipeline.{
  settle, run_governed, execute_tool, handle_tool_call, handle_model_call, check_model_boundary,
  continue_run,
}
use euroclaw.Governance.Pipeline.Loops.{
  Check, Observer, Redactor, Config, Gates, ask, run_gates, run_after, verdict_result, stop_of,
}
use euroclaw.Governance.Pipeline.Permits.{Permits, run_gates_iff}
use euroclaw.Governance.Pipeline.Refusal.{IsRun, run_governed-IsRun, run_governed-halted, with_tool}
use euroclaw.Governance.Pipeline.Forgery.{AllReserved, handle-forged}
use euroclaw.Prelude.{
  ℕ, ◌≡◌, refl, ◌↔◌, inl, inr, true, false, Option, none, some, List, [], ◌∷◌, ◌++◌,
}

abbrev Trace : Type 0
Trace = List ℕ

abbrev log_event : ℕ → Trace → Trace
log_event n s = n ∷ s

abbrev plain : Redactor Trace
plain = record {
  redact_value = λ v c. pure v;
  redact_text = λ t c. pure t;
  rehydrate_value = λ v c. pure v;
}

abbrev host : Config Trace
host = record {
  redaction_on = false;
  redactor = plain;
  resolve_context = none;
  run_tool = λ call ctx rehydrate s. (returned (some call.args), log_event 2 s);
  call_model = none;
  consume = none;
  reason_codes = [];
  valid_tool_call = λ raw. some (record { name = "send"; args = raw });
  valid_model_call = λ raw. none;
}

abbrev permits_all : Gate (Check Trace ToolCall)
permits_all = record {
  id = "policy";
  sealed = true;
  body = record { matcher = λ c x. true; handler = λ c x s. (returned permit, log_event 1 s) };
}

abbrev denies_all : Gate (Check Trace ToolCall)
denies_all = record {
  id = "floor";
  sealed = false;
  body = record {
    matcher = λ c x. true;
    handler = λ c x s. (
      returned (deny (record { reason = some "no"; reason_code = none; annotations = none })),
      s,
    );
  };
}

abbrev observes : Gate (Observer Trace)
observes = record {
  id = "audit";
  sealed = true;
  body = record { matcher = λ c x. true; handler = λ c x o s. (returned tt, log_event 3 s) };
}

abbrev open_gates : Gates Trace
open_gates = record { boundary_before = []; before = permits_all ∷ []; after = observes ∷ [] }

abbrev closed_gates : Gates Trace
closed_gates = record {
  boundary_before = [];
  before = permits_all ∷ denies_all ∷ [];
  after = observes ∷ [];
}

abbrev send : ToolCall
send = record { name = "send"; args = str "hi" }

abbrev refusal : Halt
refusal =
    denied (record { gate_id = "floor"; reason = "no"; reason_code = none; annotations = none })

governed_runs :
    run_governed host open_gates send [] none [] ≡ (returned (ok (some (str "hi"))), 3 ∷ 2 ∷ 1 ∷ [])
unfolding run_governed run_gates ask run_after settle execute_tool verdict_result
governed_runs = refl

governed_refuses :
    run_governed host closed_gates send [] none [] ≡ (returned (halted refusal), 3 ∷ 1 ∷ [])
unfolding run_governed run_gates ask run_after settle verdict_result stop_of
governed_refuses = refl

run_governed-IsRun_example :
    IsRun host open_gates send [] none (some (str "hi")) [] (3 ∷ 2 ∷ 1 ∷ [])
run_governed-IsRun_example =
    run_governed-IsRun host open_gates send [] none (some (str "hi")) [] (3 ∷ 2 ∷ 1 ∷ [])
      governed_runs

abbrev other_tool : ToolCall → Context → (Json → Eff Trace Json) → Eff Trace (Option Json)
other_tool call ctx rehydrate s = (thrown (validation_error "never"), 9 ∷ s)

run_governed-halted_example :
    run_governed (with_tool host other_tool) closed_gates send [] none []
    ≡ (returned (halted refusal), 3 ∷ 1 ∷ [])
run_governed-halted_example =
    run_governed-halted host closed_gates other_tool send [] none refusal [] (3 ∷ 1 ∷ [])
      governed_refuses

run_gates_iff_example :
    (run_gates [] true none send [] (permits_all ∷ []) [] ≡ (returned none, 1 ∷ []))
    ↔ Permits [] true none send [] (permits_all ∷ []) [] (1 ∷ [])
run_gates_iff_example = run_gates_iff [] true none send [] (permits_all ∷ []) [] (1 ∷ [])

abbrev forged : Context
forged = ("euroclaw__principal", str "user:root") ∷ []

forged-AllReserved : AllReserved forged
forged-AllReserved = (refl, tt)

handle-forged_example :
    (handle_tool_call host open_gates null (forged ++ [])
      ≡ handle_tool_call host open_gates null [])
    × (handle_model_call host open_gates null (forged ++ [])
        ≡ handle_model_call host open_gates null [])
    × (check_model_boundary host open_gates null (forged ++ [])
        ≡ check_model_boundary host open_gates null [])
    × (continue_run host open_gates "a" (forged ++ []) ≡ continue_run host open_gates "a" [])
handle-forged_example = handle-forged host open_gates forged [] null "a" forged-AllReserved

abbrev no_ids : Ids
no_ids = record { sealed = []; boundary = []; tool = [] }

abbrev gate_list : List (Gate (Check Trace ToolCall))
gate_list = permits_all ∷ denies_all ∷ []

gate_list-IsWellFormed : IsWellFormed gate_list
unfolding find_gate
gate_list-IsWellFormed = record {
  ordered = (inl refl, (inr tt, tt));
  unique_ids = (refl, (refl, tt));
}

abbrev late_sealed : Gate (Check Trace ToolCall)
late_sealed = record denies_all { id = "late"; sealed = true }

abbrev late_ids : Ids
late_ids = record { sealed = "late" ∷ []; boundary = []; tool = "late" ∷ [] }

late_placed :
    add Kind.tool gate_list no_ids late_sealed
    ≡ returned (permits_all ∷ late_sealed ∷ denies_all ∷ [], late_ids)
unfolding add cleared find_gate place insert_sealed has
late_placed = refl

abbrev attempts : List (Gate (Check Trace ToolCall))
attempts = record denies_all { id = "policy" } ∷ late_sealed ∷ []

register_all-sealed_example :
    (later : List (Gate (Check Trace ToolCall))) × (sealed_part
        (register_all Kind.tool (gate_list, no_ids) attempts).0
      ≡ sealed_part gate_list ++ later)
    × IsWellFormed (register_all Kind.tool (gate_list, no_ids) attempts).0
register_all-sealed_example =
    register_all-sealed Kind.tool (gate_list, no_ids) attempts gate_list-IsWellFormed
