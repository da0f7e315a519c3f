-- ===== src/Approvals/Park.antt =====
-- The approval after-gate, `approvalGate` of packages/foundation/core/src/approval.ts, over the rows of
-- the durable store. The host's metadata resolver, the reading of the clock and the id of the new row
-- are parameters.
use euroclaw.Base.Eff.{pure, as_principal, ◌>>=◌}
use euroclaw.Json.{Json, is_json_object}
use euroclaw.Governance.Texts.{IsTextOf, text_at-IsTextOf}
use euroclaw.Base.Eff.{Eff, returned}
use euroclaw.Governance.Boundary.{
  ToolCall, BoundaryCall, Stop, HandleResult, Halt, Outcome, Context, text_at,
}
use euroclaw.Governance.Pipeline.Loops.{Observer}
use euroclaw.Storage.Table.{create, update}
use euroclaw.Storage.Table.Keyed.{
  find_key-create, find_key-assign_one, HasUniqueKeys-assign_one, HasUniqueKeys-create,
}
use euroclaw.Approvals.{
  ApprovalRecord, NewApproval, Rows, pending, consumed, none_or, opened, granted, is_pending,
  create_approval, grant, consume,
}
use euroclaw.Approvals.Lifecycle.{consume_iff}
use euroclaw.Approvals.Lifecycle.Steps.{id_of, at, HasUniqueIds}
use euroclaw.Prelude.{
  ℕ, String, ◌≡◌, refl, ◌≢◌, Bool, true, false, Option, none, some, arith, eq_iff,
}

module _ (well_formed : String → Bool) (now : ℕ) (new_id : String)
    (metadata : ToolCall → Context → Stop → Option Json) where
  abbrev pub parked : ToolCall → Context → Stop → Option String → NewApproval
  parked call ctx stop principal = record {
    gate_id = stop.gate_id;
    tool_name = call.name;
    args = call.args;
    reason_code = stop.reason_code;
    principal = principal;
    reason = some stop.reason;
    metadata = metadata call ctx stop;
    created_at = now;
    expires_at = none;
  }

  park_call : ToolCall → Context → Stop → Eff Rows (Unit {0})
  unfolding as_principal
  park_call call ctx stop = do
    principal ← as_principal well_formed (text_at "euroclaw__principal" ctx)
    created ← create_approval well_formed new_id (parked call ctx stop principal)
    pure tt

  unfoldable pub park : BoundaryCall → Context → Outcome → Eff Rows (Unit {0})
  unfolding park_call
  park (BoundaryCall.tool call) ctx
        (Outcome.result (HandleResult.halted (Halt.needs_approval stop))) =
      park_call call ctx stop
  park _ _ _ = pure tt

  abbrev pub is_tool : BoundaryCall → Bool
  is_tool (BoundaryCall.tool call) = true
  is_tool (BoundaryCall.model call) = false

  unfoldable pub approval_gate : Observer Rows
  unfolding park
  approval_gate = record { matcher = λ call ctx. is_tool call; handler = park }

  -- A call that the schema of a new approval accepts.
  pub record IsAccepted (call : ToolCall) (ctx : Context) (stop : Stop) : Type 0 where
    pub principal : none_or well_formed (text_at "euroclaw__principal" ctx) ≡ true
    pub args : is_json_object call.args ≡ true
    pub about : none_or is_json_object (metadata call ctx stop) ≡ true

  -- The row of a call that waits for approval, and nothing else new in the table.
  pub record IsParked (call : ToolCall) (ctx : Context) (stop : Stop) (rows rows' : Rows)
      (r : ApprovalRecord) : Type 0 where
    pub stored : at new_id rows' ≡ some r
    pub status : r.status ≡ pending
    pub gate_id : r.gate_id ≡ stop.gate_id
    pub tool_name : r.tool_name ≡ call.name
    pub args : r.args ≡ call.args
    pub reason : r.reason ≡ some stop.reason
    pub reason_code : r.reason_code ≡ stop.reason_code
    pub principal : IsTextOf "euroclaw__principal" ctx r.principal
    pub about : r.metadata ≡ metadata call ctx stop
    pub created_at : r.created_at ≡ now
    pub never_expires : r.expires_at ≡ none
    pub undecided : r.decided_by ≡ none
    pub others : (k : String) → k ≢ new_id → at k rows' ≡ at k rows

  abbrev run_gate : ToolCall → Context → Stop → Eff Rows (Unit {0})
  run_gate call ctx stop =
      approval_gate.handler (BoundaryCall.tool call) ctx
        (Outcome.result (HandleResult.halted (Halt.needs_approval stop)))

  parked_row :
      (call : ToolCall) (ctx : Context) (stop : Stop) (rows : Rows)
      → IsAccepted call ctx stop
      → run_gate call ctx stop rows ≡ (
        returned tt,
        create (opened new_id (parked call ctx stop (text_at "euroclaw__principal" ctx))) rows,
      )
  unfolding approval_gate as_principal create_approval
  parked_row call ctx stop rows ok = from (text_at "euroclaw__principal" ctx) ok.principal
    where
      from :
          (p : Option String)
          → none_or well_formed p ≡ true
          → (as_principal well_formed p >>= λ q.
                create_approval well_formed new_id (parked call ctx stop q) >>= λ r. pure tt)
              rows
            ≡ (returned tt, create (opened new_id (parked call ctx stop p)) rows)
      from none good = ground (arith, good, ok.args, ok.about)
      from (some p) good = ground (arith, good, ok.args, ok.about)

  opened-IsParked :
      (call : ToolCall) (ctx : Context) (stop : Stop) (rows : Rows)
      → at new_id rows ≡ none
      → IsParked call ctx stop rows
          (create (opened new_id (parked call ctx stop (text_at "euroclaw__principal" ctx))) rows)
          (opened new_id (parked call ctx stop (text_at "euroclaw__principal" ctx)))
  opened-IsParked call ctx stop rows unused =
      let row = opened new_id (parked call ctx stop (text_at "euroclaw__principal" ctx)) in
      record {
        stored =
            ground (arith, unused, eq_iff new_id new_id, find_key-create id_of new_id row rows);
        status = refl;
        gate_id = refl;
        tool_name = refl;
        args = refl;
        reason = refl;
        reason_code = refl;
        principal = text_at-IsTextOf "euroclaw__principal" ctx;
        about = refl;
        created_at = refl;
        never_expires = refl;
        undecided = refl;
        others =
            λ k other. ground (arith, other, eq_iff new_id k, find_key-create id_of k row rows);
      }

  granted_found :
      (by : String) (r : ApprovalRecord) (rows : Rows)
      → HasUniqueIds rows
      → at new_id rows ≡ some r
      → is_pending r ≡ true
      → at new_id (grant new_id by rows).1 ≡ some (granted by r)
  unfolding grant update
  granted_found by r rows u found waits = ground (
    arith,
    found,
    eq_iff new_id new_id,
    find_key-assign_one id_of (granted by) (λ r. refl) new_id new_id is_pending rows u,
  )

  granted_unique :
      (by : String) (rows : Rows) → HasUniqueIds rows → HasUniqueIds (grant new_id by rows).1
  unfolding grant update
  granted_unique by rows u = HasUniqueKeys-assign_one id_of (granted by) (λ r. refl) _ rows u

  consumed_row :
      (by : String) (later : ℕ) (row : ApprovalRecord) (rows : Rows)
      → HasUniqueIds rows
      → at new_id rows ≡ some row
      → row.status ≡ pending
      → row.expires_at ≡ none
      → (consume later new_id (grant new_id by rows).1).0
        ≡ some (record row { status = consumed; decided_by = some by })
  consumed_row by later row rows u stored waits lasting =
      let found = granted_found by row rows u stored (ground arith) in
      (consume_iff later new_id (grant new_id by rows).1 _ (granted_unique by rows u)).1
        (granted by row, found, refl, ground arith, refl)

  -- A tool call that waits for approval, which the schema of a new approval accepts (object arguments,
  -- an absent or well-formed principal, absent or object metadata), is parked without an error as one row
  -- of the call, the gate and reasons that asked and the principal of the context, under an id that was
  -- not in use, with every other id as before. Once granted, `consume` hands out that row, with who
  -- decided, at any later time.
  pub approval_gate-consume :
      (call : ToolCall) (ctx : Context) (stop : Stop) (rows : Rows) (by : String) (later : ℕ)
      → HasUniqueIds rows
      → at new_id rows ≡ none
      → IsAccepted call ctx stop
      → (rows' : Rows) × (row : ApprovalRecord) × (approval_gate.handler
            (BoundaryCall.tool call)
            ctx
            (Outcome.result (HandleResult.halted (Halt.needs_approval stop)))
            rows
          ≡ (returned tt, rows'))
        × IsParked call ctx stop rows rows' row
        × ((consume later new_id (grant new_id by rows').1).0
            ≡ some (record row { status = consumed; decided_by = some by }))
  approval_gate-consume call ctx stop rows by later u unused ok =
      let row = opened new_id (parked call ctx stop (text_at "euroclaw__principal" ctx)) in
      let is = opened-IsParked call ctx stop rows unused in
      (
        create row rows,
        row,
        parked_row call ctx stop rows ok,
        is,
        consumed_row by later row (create row rows) (HasUniqueKeys-create id_of row rows u unused)
            is.stored refl refl,
      )
