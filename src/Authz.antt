-- ===== src/Authz.antt =====
-- Policy engines and what wraps them: packages/foundation/authz/src over the port of
-- packages/foundation/contracts/src/authz/engine.ts. `S` is all that engines and callbacks change. An
-- engine may answer at once or by a promise, so a call comes back with an answer, with a promise that
-- rejects, or not at all: it has thrown.
pub mod Shadow
pub mod Router
pub mod Overlay
mod Tests
use euroclaw.Base.Eff.{Thrown}
use euroclaw.Prelude.{String, Bool, Option, List}

pub data Decision : Type 0 where
  permit deny needs_approval : Decision

pub record PolicyResult : Type 0 where
  pub decision : Decision
  pub reason : Option String
  pub policies : Option (List String)
  pub annotations : Option (List (String × String))

pub data Call : Type 0 where
  answered : PolicyResult → Call
  rejected raised : Thrown → Call

pub data Reads : Type 0 where
  identity identity_and_args : Reads

pub record PolicyEngineCapabilities : Type 0 where
  pub reads : Reads
  pub approvals : Bool

pub record PolicyEngine (S Req : Type 0) : Type 0 where
  pub authorize : Req → S → Call × S
  pub capabilities : Option PolicyEngineCapabilities

-- What an async function makes of a call that it returns or awaits: a throw is a rejection.
abbrev pub as_async : Call → Call
as_async (answered r) = answered r
as_async (rejected e) = rejected e
as_async (raised e) = rejected e
