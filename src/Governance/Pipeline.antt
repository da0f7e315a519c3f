-- ===== src/Governance/Pipeline.antt =====
-- One governed call: the gate loops, the tool and model calls and the resumed call of
-- `createGovernance` in packages/foundation/core/src/governance.ts. `S` is all that handlers, tools
-- and stores change; the schema validators, the redactor and the host's functions are the fields of
-- a `Config`.
pub mod Permits
pub mod Refusal
pub mod Forgery
pub mod Loops
use euroclaw.Governance.Pipeline.Loops.{Approved, Config, Gates, or_else, run_gates, run_after}
use euroclaw.Base.Eff.{
  Eff, Result, returned, thrown, Thrown, message, validation_error, configuration_error, pure,
  throw, ◌>>=◌,
}
use euroclaw.Json.{Json}
use euroclaw.Governance.Boundary.{
  ToolCall, ModelCall, BoundaryCall, tool, model, HandleResult, ok, Outcome, result, error, Context,
  strip_reserved, redaction_context_from,
}
use euroclaw.Prelude.{String, true, false, Option, none, some, if◌then◌else◌}

-- A throw stands as it is; where its redaction throws in turn, the observers learn no reason.
abbrev pub settled_throw :
    {S : Type 0} → Thrown → Result String × S → Outcome × Result HandleResult × S
settled_throw e (returned text, s') = (error text, thrown e, s')
settled_throw e (thrown e', s') = (error "unknown", thrown e', s')

module _ {S : Type 0} (cfg : Config S) (gates : Gates S) where
  -- The reason that the observers see for a throw: redacted when redaction is on.
  error_reason : Context → Thrown → Eff S String
  error_reason ctx e =
      if cfg.redaction_on
      then cfg.redactor.redact_text (message e) (redaction_context_from ctx)
      else pure (message e)

  -- The outcome that `finally` finds, and what is thrown on.
  unfoldable pub settle : Context → Result HandleResult → S → Outcome × Result HandleResult × S
  unfolding error_reason
  settle ctx (returned r) s = (result r, returned r, s)
  settle ctx (thrown e) s = settled_throw e (error_reason ctx e s)

  -- `try … catch … finally`: the after-gates see the outcome on every path, and a throw of theirs
  -- replaces the result.
  unfoldable pub conclude :
      BoundaryCall → Context → Result HandleResult × S → Result HandleResult × S
  unfolding settle
  conclude call ctx (r, s) =
      let (outcome, final, s') = settle ctx r s in
      (run_after call ctx outcome gates.after >>= λ _ s''. (final, s'')) s'

  unfoldable pub execute_tool : ToolCall → Context → Eff S HandleResult
  execute_tool call ctx = do
    output ←
        cfg.run_tool call ctx (λ v. cfg.redactor.rehydrate_value v (redaction_context_from ctx))
    pure (ok output)

  -- The body of the `try` in `runGoverned`.
  unfoldable pub governed_body : ToolCall → Context → Option String → Eff S HandleResult
  governed_body call ctx bypass =
      run_gates cfg.reason_codes true bypass (tool call) ctx gates.boundary_before
      >>= or_else (
          run_gates cfg.reason_codes true bypass call ctx gates.before
          >>= or_else (execute_tool call ctx))

  unfoldable pub run_governed : ToolCall → Context → Option String → Eff S HandleResult
  unfolding conclude governed_body
  run_governed call ctx bypass s = conclude (tool call) ctx (governed_body call ctx bypass s)

  resolved_by : Option (Context → Eff S Context) → Context → Eff S Context
  resolved_by none stripped = pure stripped
  resolved_by (some resolve) stripped = resolve stripped

  -- Reserved keys go before the trusted resolver may set them.
  unfoldable pub resolve_ctx : Context → Eff S Context
  unfolding resolved_by
  resolve_ctx given = resolved_by cfg.resolve_context (strip_reserved given)

  redact_args : Json → Context → Eff S Json
  redact_args args ctx =
      if cfg.redaction_on
      then cfg.redactor.redact_value args (redaction_context_from ctx)
      else pure args

  redact_model_call : ModelCall → Context → Eff S ModelCall
  unfolding redact_args
  redact_model_call call ctx = do body ← redact_args call.body ctx; pure (record { body = body })

  tool_entry : Option ToolCall → Eff S Context → Eff S HandleResult
  unfolding redact_args run_governed
  tool_entry none resolved = throw (validation_error "invalid tool call")
  tool_entry (some valid) resolved = do
    ctx ← resolved
    args ← redact_args valid.args ctx
    run_governed (record { name = valid.name; args = args }) ctx none

  unfoldable pub handle_tool_call : Json → Context → Eff S HandleResult
  unfolding tool_entry
  handle_tool_call raw given = tool_entry (cfg.valid_tool_call raw) (resolve_ctx given)

  unfoldable pub model_body :
      (ModelCall → Context → Eff S (Option Json)) → ModelCall → Context → Eff S HandleResult
  model_body call_model call ctx =
      run_gates cfg.reason_codes false none (model call) ctx gates.boundary_before
      >>= or_else (do output ← call_model call ctx; pure (ok output))

  call_governed :
      (ModelCall → Context → Eff S (Option Json)) → ModelCall → Context → Eff S HandleResult
  unfolding conclude model_body
  call_governed call_model call ctx s = conclude (model call) ctx (model_body call_model call ctx s)

  model_entry :
      Option (ModelCall → Context → Eff S (Option Json))
      → Option ModelCall
      → Eff S Context
      → Eff S HandleResult
  unfolding redact_model_call call_governed
  model_entry none valid resolved =
      throw (configuration_error "handleModelCall requires config.callModel")
  model_entry (some call_model) none resolved = throw (validation_error "invalid model call")
  model_entry (some call_model) (some valid) resolved = do
    ctx ← resolved
    call ← redact_model_call valid ctx
    call_governed call_model call ctx

  unfoldable pub handle_model_call : Json → Context → Eff S HandleResult
  unfolding model_entry
  handle_model_call raw given =
      model_entry cfg.call_model (cfg.valid_model_call raw) (resolve_ctx given)

  check_entry : Option ModelCall → Eff S Context → Eff S HandleResult
  unfolding redact_model_call
  check_entry none resolved = throw (validation_error "invalid model call")
  check_entry (some valid) resolved = do
    ctx ← resolved
    call ← redact_model_call valid ctx
    run_gates cfg.reason_codes false none (model call) ctx gates.boundary_before
        >>= or_else (pure (ok none))

  unfoldable pub check_model_boundary : Json → Context → Eff S HandleResult
  unfolding check_entry
  check_model_boundary raw given = check_entry (cfg.valid_model_call raw) (resolve_ctx given)

  resume : Eff S Context → Option Approved → Eff S (Option HandleResult)
  unfolding run_governed
  resume resolved none = pure none
  resume resolved (some taken) = do
    ctx ← resolved
    r ← run_governed (record { name = taken.tool_name; args = taken.args }) ctx (some taken.gate_id)
    pure (some r)

  continue_entry :
      Option (String → Eff S (Option Approved))
      → String
      → Eff S Context
      → Eff S (Option HandleResult)
  unfolding resume
  continue_entry none id resolved = pure none
  continue_entry (some consume) id resolved = consume id >>= resume resolved

  unfoldable pub continue_run : String → Context → Eff S (Option HandleResult)
  unfolding continue_entry
  continue_run id given = continue_entry cfg.consume id (resolve_ctx given)
