-- ===== src/Lib.antt =====
-- euroclaw: an embeddable, governed agent runtime in TypeScript. A host registers gates; every tool
-- call, model call and resumed call passes them; calls that need a human wait in a durable approval
-- store; each outcome is written to a hash-chained log; and outbound targets pass a network floor
-- before a socket opens. This library models these parts; its results stand at the end.
--
-- Parts, and where they stand (paths from the repository's root):
--   Base/Eff            state passing with a throw, for async code over a store; `S` is all that the
--                       host's functions change
--   Json                packages/foundation/contracts/src/common.ts: the value type `Json`
--   Governance          packages/foundation/core/src/governance.ts and the types of
--                       packages/foundation/contracts/src/governance/boundary.ts. Registry: `add`.
--                       Pipeline: runBoundaryBeforeGates, runAfterGates (Loops), runGoverned,
--                       handleToolCall, handleModelCall, checkModelBoundary, continueRun. Boundary:
--                       the data, and the strip of reserved context keys.
--   Approvals           packages/storage/durable/src/approval.ts: create, get, grant, deny, consume,
--                       list. It fills the `consume` that continueRun calls. Park is approvalGate of
--                       packages/foundation/core/src/approval.ts, which writes its rows.
--   Storage/Table       packages/storage/core/src/index.ts: memoryAdapter, for the rows of one model.
--                       Approvals and Engine are written over it.
--   Audit/Chain         packages/foundation/core/src/audit.ts: createMemoryAudit, headOf and
--                       verifyAuditChain; Audit/Gate is auditGate, which appends to it
--   Effects             packages/storage/durable/src/effect.ts: claim, heartbeat, complete and fail of
--                       durable effects; Model is the records and conditions, Ops sequences of calls
--   Egress              packages/foundation/egress/src/index.ts: Ip reads address literals, Blocked
--                       tests the private ranges, Assert is assertEgressAllowed
--   Engine              packages/engines/sql/src/store.ts: runs, tasks, leases, events and
--                       idempotency records of the durable task queue. Model is the data, Store the rows
--                       of runs, tasks and events, Lease what a worker does under its lease, Reap and
--                       Claim are reapExpiredLeases and claimDueTask, Idempotency the replayed responses.
--   Redaction           packages/foundation/core/src/redact.ts: Mappings is createMemoryPiiMappingStore,
--                       Spans is cleanSpans and composeDetectors, Redact is redactText with its minting of
--                       placeholders; Distance, Repair and Recover are editDistance, the repair of
--                       damaged placeholders and rehydrateText
--   Authz               packages/foundation/authz/src: Shadow is createShadowPolicyEngine of
--                       shadow-engine.ts, Router createOrgPolicyRouter of router.ts, over the engine
--                       port of packages/foundation/contracts/src/authz/engine.ts; Overlay is
--                       mergeFactsOverlay of overlay.ts
--
-- Correspondence. An async operation is a function of the state that returns the result and the new
-- state; a throw is a value with the state at that point, and `try`/`finally` is a function of both.
-- One operation runs to its end before the next: the interleaving of operations is a sequence of
-- steps. claimDueTask runs outside a transaction, so what other clients write between the reading of its
-- candidates and each round of its loop is an argument, `others`; within a round there is nothing between. A text is a String where it is only compared, and a list of UTF-16 units where the code looks
-- inside. Times are milliseconds as natural numbers in place of ISO texts.
--
-- Parameters, for code outside the repository's sources: the schema validators, the host's tools,
-- model and gates, the redactor of the pipeline (fields of `Config`); SHA-256 of a record's JSON text
-- (a `Digest`, with an injective hash as a named hypothesis where a theorem needs one); the platform's
-- URL parser and DNS lookup; random ids and tokens and the readings of the clock. The test of
-- `parsePrincipal`, which splits a text, is a parameter too; so are toLowerCase, the matches of the
-- placeholder expressions (with their places in the text), the keyed hash of a value and the words drawn for a placeholder, the policy
-- engines, and the create of the adapter where another process may write first.
--
-- Bounds and fuel. Loops are structural recursion over the list that the code walks, so no definition
-- carries fuel; numbers of the source that are counts, offsets or times are natural numbers, and an
-- address is its octets or its 16-bit groups.
--
-- Not modelled: the adapters to databases, frameworks, the AI SDK, Cedar and telemetry, which are
-- glue to third-party packages; regular expressions of detectors; transport; the worker's timers
-- and the runtime loop, which drive the operations modelled here; the walk of the redactor over
-- JSON values, whose strings are redacted side by side; the condition trees of `matchWhere`, whose
-- conditions are tests on a row here; the Cedar rendering of the authorization model. Promises
-- that are awaited side by side run one after another here.
pub mod Prelude
pub mod Base
pub mod Json
pub mod Egress
pub mod Governance
pub mod Audit
pub mod Storage
pub mod Authz
pub mod Approvals
pub mod Engine
pub mod Redaction
pub mod Effects
