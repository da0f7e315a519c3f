-- ===== src/Audit/Chain.antt =====
-- The hash-chained log and its verifier: packages/foundation/core/src/audit.ts
-- (`createMemoryAudit`, `headOf`, `verifyAuditChain`) over the records of
-- packages/foundation/contracts/src/governance/audit.ts. SHA-256 of the JSON text of a record is the
-- parameter `hash_entry` of a `Digest`, whose values form the type `Hash`.
pub mod Intact
pub mod Prefix
pub mod Rewrite
use euroclaw.Json.{Json}
use euroclaw.Base.Eff.{Result, returned, thrown, validation_error}
use euroclaw.Prelude.{
  [], ℕ, suc, String, ◌≡◌, ◌↔◌, Bool, true, Option, none, some, List, ◌∷◌, ◌++◌, ◌==◌,
  if◌then◌else◌, length,
}

pub data Boundary : Type 0 where
  tool model privacy : Boundary

pub data Status : Type 0 where
  ok denied needs_approval error : Status

pub data RunMode : Type 0 where
  interactive autonomous : RunMode

pub record AuditInput : Type 0 where
  pub ts : String
  pub boundary : Boundary
  pub name : String
  pub status : Status
  pub gate_id : Option String
  pub reason : Option String
  pub reason_code : Option String
  pub principal : Option String
  pub claw_id : Option String
  pub run_mode : Option RunMode
  pub decided_by : Option String
  pub payload : Json

-- A record without its `hash`.
pub record Snapshot (Hash : Type 0) : Type 0 where
  pub input : AuditInput
  pub seq : ℕ
  pub prev_hash : Hash

pub record AuditEntry (Hash : Type 0) : Type 0 where
  pub snapshot : Snapshot Hash
  pub hash : Hash

pub record Digest (Hash : Type 0) : Type 0 where
  pub hash_entry : Snapshot Hash → Hash
  pub genesis : Hash
  pub same : Hash → Hash → Bool
  pub same_iff : (a b : Hash) → (same a b ≡ true) ↔ (a ≡ b)

pub record AuditHead (Hash : Type 0) : Type 0 where
  pub seq : ℕ
  pub hash : Hash
  pub ts : String
  pub count : ℕ

-- One stored anchor: the head in it, or none where its shape is not that of `anchorProof`.
abbrev pub Anchor : Type 0 → Type 0
Anchor Hash = Option (AuditHead Hash)

pub data Problem (Hash : Type 0) : Type 0 where
  broken_link : (seq : ℕ) → (expected_prev_hash actual_prev_hash : Hash) → Problem Hash
  hash_mismatch : (seq : ℕ) → (expected actual : Hash) → Problem Hash
  seq_gap : (seq expected : ℕ) → Problem Hash
  anchor_invalid : Problem Hash
  anchor_missing : (seq : ℕ) → (anchored_hash : Hash) → Problem Hash
  anchor_mismatch : (seq : ℕ) → (expected actual : Hash) → Problem Hash

module _ {Hash : Type 0} where
  unfoldable pub last_entry : List (AuditEntry Hash) → Option (AuditEntry Hash)
  last_entry [] = none
  last_entry (e ∷ []) = some e
  last_entry (e ∷ f ∷ es) = last_entry (f ∷ es)

  unfoldable pub head_of : List (AuditEntry Hash) → Option (AuditHead Hash)
  unfolding last_entry
  head_of entries = elim (last_entry entries) [
    | none ↦ none
    | some e ↦ some (record {
      seq = e.snapshot.seq;
      hash = e.hash;
      ts = e.snapshot.input.ts;
      count = length entries;
    })
  ]

  -- `hashBySeq.get(seq)` once the walk is over: a later entry of the same seq has replaced an earlier.
  unfoldable pub hash_by_seq : ℕ → List (AuditEntry Hash) → Option Hash
  hash_by_seq seq [] = none
  hash_by_seq seq (e ∷ es) = elim (hash_by_seq seq es) [
    | some h ↦ some h
    | none ↦ if e.snapshot.seq == seq then some e.hash else none
  ]

module _ {Hash : Type 0} (d : Digest Hash) where
  -- `prev ? prev.hash : GENESIS`
  unfoldable pub tip_of : Option (AuditEntry Hash) → Hash
  tip_of none = d.genesis
  tip_of (some e) = e.hash

  abbrev pub sealed_entry : Snapshot Hash → AuditEntry Hash
  sealed_entry s = record { snapshot = s; hash = d.hash_entry s }

  -- `append`: the new log and the entry. `valid` is the schema of `auditInput`.
  unfoldable pub append :
      (AuditInput → Bool)
      → List (AuditEntry Hash)
      → AuditInput
      → Result (AuditEntry Hash) × List (AuditEntry Hash)
  unfolding tip_of last_entry
  append valid log input =
      if valid input
      then (let entry =
            sealed_entry
              (record { input = input; seq = length log; prev_hash = tip_of (last_entry log) }) in
          (returned entry, log ++ entry ∷ []))
      else (thrown (validation_error "invalid audit input"), log)

  link_problem : Hash → AuditEntry Hash → List (Problem Hash)
  link_problem expected e =
      if d.same e.snapshot.prev_hash expected
      then []
      else broken_link e.snapshot.seq expected e.snapshot.prev_hash ∷ []

  hash_problem : AuditEntry Hash → List (Problem Hash)
  hash_problem e =
      let recomputed = d.hash_entry e.snapshot in
      if d.same recomputed e.hash then [] else hash_mismatch e.snapshot.seq recomputed e.hash ∷ []

  seq_problem : ℕ → AuditEntry Hash → List (Problem Hash)
  seq_problem index e = if e.snapshot.seq == index then [] else seq_gap e.snapshot.seq index ∷ []

  -- the loop over the entries
  unfoldable pub walk : Hash → ℕ → List (AuditEntry Hash) → List (Problem Hash)
  unfolding link_problem hash_problem seq_problem
  walk expected index [] = []
  walk expected index (e ∷ es) =
      link_problem expected e
      ++ (hash_problem e ++ (seq_problem index e ++ walk e.hash (suc index) es))

  present_problem : AuditHead Hash → Option Hash → List (Problem Hash)
  present_problem head none = anchor_missing head.seq head.hash ∷ []
  present_problem head (some present) =
      if d.same present head.hash then [] else anchor_mismatch head.seq head.hash present ∷ []

  anchor_problem : List (AuditEntry Hash) → Anchor Hash → List (Problem Hash)
  unfolding present_problem
  anchor_problem entries none = anchor_invalid ∷ []
  anchor_problem entries (some head) = present_problem head (hash_by_seq head.seq entries)

  -- the loop over the anchors
  unfoldable pub check_anchors : List (AuditEntry Hash) → List (Anchor Hash) → List (Problem Hash)
  unfolding anchor_problem
  check_anchors entries [] = []
  check_anchors entries (a ∷ more) = anchor_problem entries a ++ check_anchors entries more

  -- The problems found; the log is in order when there are none.
  unfoldable pub verify_audit_chain :
      List (AuditEntry Hash) → List (Anchor Hash) → List (Problem Hash)
  unfolding walk check_anchors hash_by_seq
  verify_audit_chain entries anchors = walk d.genesis 0 entries ++ check_anchors entries anchors
