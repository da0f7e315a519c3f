-- ===== src/Governance/Pipeline/Forgery.antt =====
-- Contexts that differ in reserved keys, at the four entry points of governance.ts.
use euroclaw.Json.{Json}
use euroclaw.Governance.Boundary.{Context, is_reserved, strip_reserved, lookup}
use euroclaw.Governance.Pipeline.{
  resolved_by, tool_entry, model_entry, check_entry, continue_entry, resolve_ctx, handle_tool_call,
  handle_model_call, check_model_boundary, continue_run,
}
use euroclaw.Governance.Pipeline.Loops.{Config, Gates}
use euroclaw.Prelude.{[], String, ◌≡◌, refl, ap, true, false, ◌∷◌, ◌++◌, arith, eq_iff, All}

abbrev pub AllReserved : Context → Type 0
AllReserved = All (λ p. is_reserved p.0 ≡ true)

strip_reserved-forged :
    (forged ctx : Context)
    → AllReserved forged
    → strip_reserved (forged ++ ctx) ≡ strip_reserved ctx
unfolding strip_reserved
strip_reserved-forged [] ctx h = refl
strip_reserved-forged ((k, v) ∷ forged) ctx h = ground (arith, strip_reserved-forged forged ctx h.1)

-- After the strip no key has the reserved prefix.
strip_reserved-All : (ctx : Context) → All (λ p. is_reserved p.0 ≡ false) (strip_reserved ctx)
unfolding strip_reserved
strip_reserved-All [] = tt
strip_reserved-All ((k, v) ∷ ctx) = ground (arith, strip_reserved-All ctx)

-- A key without the prefix keeps its value.
lookup-strip_reserved :
    (k : String) (ctx : Context)
    → is_reserved k ≡ false
    → lookup k (strip_reserved ctx) ≡ lookup k ctx
unfolding strip_reserved lookup
lookup-strip_reserved k [] h = refl
lookup-strip_reserved k ((j, v) ∷ ctx) h = ground (arith, eq_iff j k, lookup-strip_reserved k ctx h)

module _ {S : Type 0} (cfg : Config S) (gates : Gates S) where
  resolve_ctx-forged :
      (forged ctx : Context)
      → AllReserved forged
      → resolve_ctx cfg gates (forged ++ ctx) ≡ resolve_ctx cfg gates ctx
  unfolding resolve_ctx
  resolve_ctx-forged forged ctx h =
      ap (resolved_by cfg gates cfg.resolve_context) (strip_reserved-forged forged ctx h)

  -- Reserved keys that a caller adds to the context of a tool call, a model call, a model boundary
  -- check or a resumed call change nothing: neither the result, nor a throw, nor the state.
  pub handle-forged :
      (forged ctx : Context) (raw : Json) (id : String)
      → AllReserved forged
      → (handle_tool_call cfg gates raw (forged ++ ctx) ≡ handle_tool_call cfg gates raw ctx)
        × (handle_model_call cfg gates raw (forged ++ ctx) ≡ handle_model_call cfg gates raw ctx)
        × (check_model_boundary cfg gates raw (forged ++ ctx)
            ≡ check_model_boundary cfg gates raw ctx)
        × (continue_run cfg gates id (forged ++ ctx) ≡ continue_run cfg gates id ctx)
  unfolding handle_tool_call handle_model_call check_model_boundary continue_run
  handle-forged forged ctx raw id h =
      let same = resolve_ctx-forged forged ctx h in
      (
        ap (tool_entry cfg gates (cfg.valid_tool_call raw)) same,
        ap (model_entry cfg gates cfg.call_model (cfg.valid_model_call raw)) same,
        ap (check_entry cfg gates (cfg.valid_model_call raw)) same,
        ap (continue_entry cfg gates cfg.consume id) same,
      )
