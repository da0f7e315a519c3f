-- ===== src/Governance/Pipeline/Loops.antt =====
-- The loops over the gates in packages/foundation/core/src/governance.ts, and what a host configures.
use euroclaw.Base.Eff.{Eff, Result, returned, thrown, validation_error, state_error, pure, ◌>>=◌}
use euroclaw.Json.{Json}
use euroclaw.Governance.Boundary.{
  ToolCall, ModelCall, BoundaryCall, Grounds, Verdict, permit, deny, invalid, Stop, HandleResult,
  halted, Halt, denied, Outcome, Context, lookup, RedactionContext,
}
use euroclaw.Governance.Registry.{Gate}
use euroclaw.Prelude.{
  String, Bool, false, not, ◌&&◌, Option, none, some, List, [], ◌∷◌, str_eq, if◌then◌else◌,
}

-- A before-gate over calls of type `C`.
pub record Check (S C : Type 0) : Type 0 where
  pub matcher : C → Context → Bool
  pub handler : C → Context → Eff S Verdict

pub record Observer (S : Type 0) : Type 0 where
  pub matcher : BoundaryCall → Context → Bool
  pub handler : BoundaryCall → Context → Outcome → Eff S (Unit {0})

pub record Redactor (S : Type 0) : Type 0 where
  pub redact_value : Json → RedactionContext → Eff S Json
  pub redact_text : String → RedactionContext → Eff S String
  pub rehydrate_value : Json → RedactionContext → Eff S Json

-- An approved record, as `consume` hands it over.
pub record Approved : Type 0 where
  pub tool_name : String
  pub args : Json
  pub gate_id : String

pub record Config (S : Type 0) : Type 0 where
  pub redaction_on : Bool
  pub redactor : Redactor S
  pub resolve_context : Option (Context → Eff S Context)
  pub run_tool : ToolCall → Context → (Json → Eff S Json) → Eff S (Option Json)
  pub call_model : Option (ModelCall → Context → Eff S (Option Json))
  pub consume : Option (String → Eff S (Option Approved))
  pub reason_codes : List (String × String)
  pub valid_tool_call : Json → Option ToolCall
  pub valid_model_call : Json → Option ModelCall

pub record Gates (S : Type 0) : Type 0 where
  pub boundary_before : List (Gate (Check S BoundaryCall))
  pub before : List (Gate (Check S ToolCall))
  pub after : List (Gate (Observer S))

catalog_message : List (String × String) → String → String
catalog_message codes code = elim (lookup code codes) [ some m ↦ m | none ↦ code ]

-- The gate's reason, else the catalog's message for its code, else the code, else "".
pub resolve_reason : List (String × String) → Grounds → String
unfolding catalog_message
resolve_reason codes v = elim v.reason [
  | some r ↦ r
  | none ↦ elim v.reason_code [
    | none ↦ ""
    | some code ↦ if str_eq code "" then "" else catalog_message codes code
  ]
]

unfoldable pub stop_of : List (String × String) → String → Grounds → Stop
unfolding resolve_reason
stop_of codes id v = record {
  gate_id = id;
  reason = resolve_reason codes v;
  reason_code = v.reason_code;
  annotations = v.annotations;
}

-- What a verdict means for the loop: `none` goes on to the next gate.
unfoldable pub verdict_result :
    List (String × String) → Bool → String → Verdict → Result (Option Halt)
verdict_result codes allow_approval id permit = returned none
verdict_result codes allow_approval id (deny v) = returned (some (denied (stop_of codes id v)))
verdict_result codes allow_approval id (Verdict.needs_approval v) =
    if allow_approval
    then returned (some (Halt.needs_approval (stop_of codes id v)))
    else thrown (state_error "model boundary approval waits are unsupported")
verdict_result codes allow_approval id (invalid summary) =
    thrown (validation_error "gate returned an invalid decision")

-- `gate.id === bypassGateId`
abbrev pub bypassed : Option String → String → Bool
bypassed none id = false
bypassed (some b) id = str_eq id b

abbrev pub or_next : {S : Type 0} → Eff S (Option Halt) → Option Halt → Eff S (Option Halt)
or_next rest none = rest
or_next rest (some stop) = pure (some stop)

-- `if (outcome) return outcome`
abbrev pub or_else : {S : Type 0} → Eff S HandleResult → Option Halt → Eff S HandleResult
or_else next none = next
or_else next (some stop) = pure (halted stop)

-- The two tests that let the loop pass over a gate.
abbrev pub applies : {S C : Type 0} → Option String → C → Context → Gate (Check S C) → Bool
applies bypass call ctx g = not (bypassed bypass g.id) && g.body.matcher call ctx

module _ {S C : Type 0} (codes : List (String × String)) (allow_approval : Bool)
    (bypass : Option String) (call : C) (ctx : Context) where
  -- The verdict of one gate, read by the loop; an earlier throw ends the call.
  unfoldable pub ask : Gate (Check S C) → Eff S (Option Halt)
  unfolding verdict_result
  ask g = g.body.handler call ctx >>= λ v s. (verdict_result codes allow_approval g.id v, s)

  -- `runBoundaryBeforeGates`, and the loop over `before` in `runGoverned`
  unfoldable pub run_gates : List (Gate (Check S C)) → Eff S (Option Halt)
  run_gates [] s = (returned none, s)
  run_gates (g ∷ gs) s =
      let rest = run_gates gs in
      if applies bypass call ctx g then (ask g >>= or_next rest) s else rest s

module _ {S : Type 0} (call : BoundaryCall) (ctx : Context) (outcome : Outcome) where
  -- `runAfterGates`, and the loop in the `finally` of `runGoverned`
  unfoldable pub run_after : List (Gate (Observer S)) → Eff S (Unit {0})
  run_after [] s = (returned tt, s)
  run_after (g ∷ gs) s =
      let rest = run_after gs in
      if g.body.matcher call ctx then (g.body.handler call ctx outcome >>= λ _. rest) s else rest s
