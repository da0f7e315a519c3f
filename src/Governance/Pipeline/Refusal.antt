-- ===== src/Governance/Pipeline/Refusal.antt =====
-- What a result of a governed tool call says: about the gates, the tool and the observers.
use mathlib.Core.Path.{subst}
use euroclaw.Base.Eff.{
  Eff, Result, returned, thrown, Thrown, ◌>>=◌, >>=-eq-returned, >>=-of_returned,
  thrown-ne-returned,
}
use euroclaw.Json.{Json}
use euroclaw.Governance.Boundary.{
  ToolCall, BoundaryCall, tool, HandleResult, ok, halted, Halt, Context, result,
  redaction_context_from,
}
use euroclaw.Governance.Pipeline.{
  conclude, settle, settled_throw, governed_body, run_governed, execute_tool,
}
use euroclaw.Governance.Pipeline.Loops.{Config, Gates, run_gates, run_after, or_else}
use euroclaw.Governance.Pipeline.Permits.{Permits, run_gates-Permits}
use euroclaw.Prelude.{String, ◌≡◌, refl, sym, ap, ◌∙◌, true, Option, none, some}

returned_inj :
    {a b : HandleResult} → ◌≡◌ {A = Result HandleResult} (returned a) (returned b) → a ≡ b
returned_inj h = cc

ok_inj : {a b : Option Json} → ok a ≡ ok b → a ≡ b
ok_inj h = cc

settled_throw-thrown :
    {S : Type 0} (e : Thrown) (r : Result String × S)
    → (e' : Thrown) × ((settled_throw e r).1 ≡ thrown e')
settled_throw-thrown e (returned text, s) = (e, refl)
settled_throw-thrown e (thrown e', s) = (e', refl)

or_else-ok :
    {S : Type 0} (next : Eff S HandleResult) (o : Option Halt) {output : Option Json} {s s' : S}
    → or_else next o s ≡ (returned (ok output), s')
    → (o ≡ none) × (next s ≡ (returned (ok output), s'))
or_else-ok next none h = (refl, h)
or_else-ok next (some stop) h = absurd (halts (ap (λ p. p.0) h))
  where
    halts :
        {o : Option Json}
        → ◌≡◌ {A = Result HandleResult} (returned (halted stop)) (returned (ok o))
        → ⊥
    halts h = cc

module _ {S : Type 0} (cfg : Config S) (gates : Gates S) where
  rethrown :
      (ctx : Context) (e : Thrown) (s : S)
      → (e' : Thrown) × ((settle cfg gates ctx (thrown e) s).1 ≡ thrown e')
  unfolding settle
  rethrown ctx e s = settled_throw-thrown e _

  -- A result that is returned is the one that the body came to, and every observer has seen it.
  pub conclude-returned :
      (call : BoundaryCall) (ctx : Context) (body : Result HandleResult × S) (r : HandleResult)
      (s' : S)
      → conclude cfg gates call ctx body ≡ (returned r, s')
      → (body.0 ≡ returned r)
        × (run_after call ctx (result r) gates.after body.1 ≡ (returned tt, s'))
  unfolding conclude settle
  conclude-returned call ctx (returned r0, s) r s' h =
      let (_, s1, ran, e) =
        >>=-eq-returned (run_after call ctx (result r0) gates.after) (λ _ s''. (returned r0, s'')) s
          h in
      let same : ◌≡◌ {A = Result HandleResult} (returned r0) (returned r) = ap (λ p. p.0) e in
      (
        same,
        subst (λ x. run_after call ctx (result x) gates.after s ≡ (returned tt, s'))
            (returned_inj same) (ran ∙ ap (λ x. (returned tt, x)) (ap (λ p. p.1) e)),
      )
  conclude-returned call ctx (thrown e, s) r s' h =
      let (_, s1, ran, e') =
        >>=-eq-returned (run_after call ctx (settle cfg gates ctx (thrown e) s).0 gates.after)
          (λ _ s''. ((settle cfg gates ctx (thrown e) s).1, s''))
          (settle cfg gates ctx (thrown e) s).2 h in
      let (thrown_again, q) = rethrown ctx e s in
      absurd (thrown-ne-returned (sym q ∙ ap (λ p. p.0) e'))

  pub conclude-of_returned :
      (call : BoundaryCall) (ctx : Context) (r : HandleResult) (s : S) {s' : S}
      → run_after call ctx (result r) gates.after s ≡ (returned tt, s')
      → conclude cfg gates call ctx (returned r, s) ≡ (returned r, s')
  unfolding conclude settle
  conclude-of_returned call ctx r s seen =
      >>=-of_returned (run_after call ctx (result r) gates.after) (λ _ s''. (returned r, s'')) s
        seen

  -- How a tool's output came about.
  pub record IsRun (call : ToolCall) (ctx : Context) (bypass : Option String) (output : Option Json)
      (s s' : S) : Type 0 where
    pub at_boundary : S
    pub at_tool : S
    pub ran : S
    pub boundary_permits :
        Permits cfg.reason_codes true bypass (tool call) ctx gates.boundary_before s at_boundary
    pub tool_permits :
        Permits cfg.reason_codes true bypass call ctx gates.before at_boundary at_tool
    pub runs :
        cfg.run_tool call ctx
          (λ v. cfg.redactor.rehydrate_value v (redaction_context_from ctx))
          at_tool
        ≡ (returned output, ran)
    pub observed :
        run_after (tool call) ctx (result (ok output)) gates.after ran ≡ (returned tt, s')

  -- When a governed tool call returns an output, every gate of both lists, but the bypassed one, has
  -- permitted the call or does not match it, the tool ran after them and returned that output, and
  -- every after-gate that matches has then seen that outcome.
  pub run_governed-IsRun :
      (call : ToolCall) (ctx : Context) (bypass : Option String) (output : Option Json) (s s' : S)
      → run_governed cfg gates call ctx bypass s ≡ (returned (ok output), s')
      → IsRun call ctx bypass output s s'
  unfolding run_governed governed_body execute_tool
  run_governed-IsRun call ctx bypass output s s' h =
      let (came, seen) =
        conclude-returned (tool call) ctx (governed_body cfg gates call ctx bypass s) (ok output) s'
          h in
      let (o, s1, asked, rest) =
        >>=-eq-returned
          (run_gates cfg.reason_codes true bypass (tool call) ctx gates.boundary_before) _ s
          (ap (λ r. (r, (governed_body cfg gates call ctx bypass s).1)) came) in
      let (open1, rest1) = or_else-ok _ o rest in
      let (o', s2, asked', rest') =
        >>=-eq-returned (run_gates cfg.reason_codes true bypass call ctx gates.before) _ s1 rest1 in
      let (open2, rest2) = or_else-ok _ o' rest' in
      let (out, s3, ran, done) = >>=-eq-returned (cfg.run_tool call ctx _) _ s2 rest2 in
      record {
        at_boundary = s1;
        at_tool = s2;
        ran = s3;
        boundary_permits =
            run_gates-Permits _ _ _ _ _ _ s s1 (asked ∙ ap (λ x. (returned x, s1)) open1);
        tool_permits =
            run_gates-Permits _ _ _ _ _ _ s1 s2 (asked' ∙ ap (λ x. (returned x, s2)) open2);
        runs = ran ∙ ap (λ x. (returned x, s3)) (ok_inj (returned_inj (ap (λ p. p.0) done)));
        observed =
            subst
              (λ x.
                run_after (tool call) ctx (result (ok output)) gates.after x ≡ (returned tt, s'))
              (sym (ap (λ p. p.1) done)) seen;
      }

-- The same host with another tool runner.
abbrev pub with_tool :
    {S : Type 0}
    → Config S
    → (ToolCall → Context → (Json → Eff S Json) → Eff S (Option Json))
    → Config S
with_tool cfg run = record cfg { run_tool = run }

module _ {S : Type 0} (cfg : Config S) (gates : Gates S)
    (run : ToolCall → Context → (Json → Eff S Json) → Eff S (Option Json)) where
  execute_tool-ne-halted :
      (call : ToolCall) (ctx : Context) (s : S) {h : Halt} {s' : S}
      → execute_tool cfg gates call ctx s ≡ (returned (halted h), s')
      → ⊥
  unfolding execute_tool
  execute_tool-ne-halted call ctx s e =
      let (out, s1, ran, done) = >>=-eq-returned (cfg.run_tool call ctx _) _ s e in
      outputs (ap (λ p. p.0) done)
    where
      outputs :
          {o : Option Json} {h : Halt}
          → ◌≡◌ {A = Result HandleResult} (returned (ok o)) (returned (halted h))
          → ⊥
      outputs h = cc

  tool_stage :
      (call : ToolCall) (ctx : Context) (o : Option Halt) (s : S) {h : Halt} {s' : S}
      → or_else (execute_tool cfg gates call ctx) o s ≡ (returned (halted h), s')
      → or_else (execute_tool (with_tool cfg run) gates call ctx) o s ≡ (returned (halted h), s')
  tool_stage call ctx none s e = absurd (execute_tool-ne-halted call ctx s e)
  tool_stage call ctx (some stop) s e = e

  boundary_stage :
      (call : ToolCall) (ctx : Context) (bypass : Option String) (o : Option Halt) (s : S)
      {h : Halt} {s' : S}
      → or_else
          (run_gates cfg.reason_codes true bypass call ctx gates.before
            >>= or_else (execute_tool cfg gates call ctx))
          o
          s
        ≡ (returned (halted h), s')
      → or_else
          (run_gates cfg.reason_codes true bypass call ctx gates.before
            >>= or_else (execute_tool (with_tool cfg run) gates call ctx))
          o
          s
        ≡ (returned (halted h), s')
  boundary_stage call ctx bypass none s e =
      let (o, s1, asked, rest) =
        >>=-eq-returned (run_gates cfg.reason_codes true bypass call ctx gates.before) _ s e in
      >>=-of_returned (run_gates cfg.reason_codes true bypass call ctx gates.before) _ s asked
      ∙ tool_stage call ctx o s1 rest
  boundary_stage call ctx bypass (some stop) s e = e

  governed_body-with_tool :
      (call : ToolCall) (ctx : Context) (bypass : Option String) (s : S) {h : Halt} {s' : S}
      → governed_body cfg gates call ctx bypass s ≡ (returned (halted h), s')
      → governed_body (with_tool cfg run) gates call ctx bypass s ≡ (returned (halted h), s')
  unfolding governed_body
  governed_body-with_tool call ctx bypass s e =
      let (o, s1, asked, rest) =
        >>=-eq-returned
          (run_gates cfg.reason_codes true bypass (tool call) ctx gates.boundary_before) _ s e in
      >>=-of_returned (run_gates cfg.reason_codes true bypass (tool call) ctx gates.boundary_before)
        _ s asked
      ∙ boundary_stage call ctx bypass o s1 rest

  -- When a governed tool call is denied or waits for approval, it has not run the tool: with any
  -- other tool runner it ends with the same result in the same state.
  pub run_governed-halted :
      (call : ToolCall) (ctx : Context) (bypass : Option String) (h : Halt) (s s' : S)
      → run_governed cfg gates call ctx bypass s ≡ (returned (halted h), s')
      → run_governed (with_tool cfg run) gates call ctx bypass s ≡ (returned (halted h), s')
  unfolding run_governed conclude settle
  run_governed-halted call ctx bypass h s s' e =
      let (came, seen) =
        conclude-returned cfg gates (tool call) ctx (governed_body cfg gates call ctx bypass s)
          (halted h) s' e in
      let same =
        governed_body-with_tool call ctx bypass s
          (ap (λ r. (r, (governed_body cfg gates call ctx bypass s).1)) came) in
      ap (conclude (with_tool cfg run) gates (tool call) ctx) same
      ∙ conclude-of_returned (with_tool cfg run) gates (tool call) ctx (halted h) _ seen
