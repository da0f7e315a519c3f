-- ===== src/Governance/Boundary.antt =====
-- The boundary contracts: packages/foundation/contracts/src/governance/boundary.ts, and the strip of
-- reserved context keys of packages/foundation/core/src/governance.ts.
use text.Mathlib.Text.{starts_with}
use euroclaw.Json.{Json, null, obj, prop, end, str, field_of}
use euroclaw.Prelude.{[], String, Bool, Option, none, some, List, ◌∷◌, str_eq, if◌then◌else◌}

pub record ToolCall : Type 0 where
  pub name : String
  pub args : Json

-- The whole request object; its `messages` are what the boundary shows.
pub record ModelCall : Type 0 where
  pub body : Json

messages_in : Option Json → Json
messages_in none = null
messages_in (some messages) = messages

pub messages_of : Json → Json
unfolding messages_in field_of
messages_of (obj fields) = messages_in (field_of "messages" fields)
messages_of _ = null

pub data BoundaryCall : Type 0 where
  tool : ToolCall → BoundaryCall
  model : ModelCall → BoundaryCall

unfoldable pub call_name : BoundaryCall → String
call_name (tool c) = c.name
call_name (model c) = "model"

unfoldable pub call_payload : BoundaryCall → Json
call_payload (tool c) = c.args
call_payload (model c) = obj (prop "messages" (messages_of c.body) end)

-- What a gate says on a deny or on a wait for approval.
pub record Grounds : Type 0 where
  pub reason : Option String
  pub reason_code : Option String
  pub annotations : Option Json

-- What a handler returns; `invalid` stands for a value that the schema of `gateDecision` rejects.
pub data Verdict : Type 0 where
  permit : Verdict
  deny : Grounds → Verdict
  needs_approval : Grounds → Verdict
  invalid : String → Verdict

pub record Stop : Type 0 where
  pub gate_id : String
  pub reason : String
  pub reason_code : Option String
  pub annotations : Option Json

-- The two results that are no output.
pub data Halt : Type 0 where
  denied : Stop → Halt
  needs_approval : Stop → Halt

pub data HandleResult : Type 0 where
  ok : Option Json → HandleResult
  halted : Halt → HandleResult

pub data Outcome : Type 0 where
  result : HandleResult → Outcome
  error : String → Outcome

abbrev pub Context : Type 0
Context = List (String × Json)

unfoldable pub lookup {ℓ} : {A : Type ℓ} → String → List (String × A) → Option A
lookup k [] = none
lookup k ((j, v) ∷ rest) = if str_eq j k then some v else lookup k rest

abbrev pub reserved_context_prefix : String
reserved_context_prefix = "euroclaw__"

abbrev pub is_reserved : String → Bool
is_reserved k = starts_with k reserved_context_prefix

-- Drops the keys by which a caller could forge an identity.
unfoldable pub strip_reserved : Context → Context
strip_reserved [] = []
strip_reserved ((k, v) ∷ ctx) =
    if is_reserved k then strip_reserved ctx else (k, v) ∷ strip_reserved ctx

-- `typeof ctx[key] === "string" ? ctx[key] : undefined`
abbrev pub text_value : Option Json → Option String
text_value none = none
text_value (some (str s)) = some s
text_value (some _) = none

unfoldable pub text_at : String → Context → Option String
text_at key ctx = text_value (lookup key ctx)

pub record RedactionContext : Type 0 where
  pub scope : Option String
  pub scope_id : Option String
  pub subject_ids : List String

as_subjects : Option String → List String
as_subjects none = []
as_subjects (some s) = s ∷ []

-- `redactionContextFrom`; an absent context and an empty one are used alike
unfoldable pub redaction_context_from : Context → RedactionContext
unfolding as_subjects
redaction_context_from ctx = record {
  scope = text_at "euroclaw__scope" ctx;
  scope_id = text_at "euroclaw__scopeId" ctx;
  subject_ids = as_subjects (text_at "euroclaw__subjectId" ctx);
}
