-- ===== src/Effects.antt =====
-- Durable effects: packages/storage/durable/src/effect.ts over the records of
-- packages/foundation/contracts/src/effects.ts. `hash_text` is SHA-256 of a token; `valid` is the schema
-- of a JSON value; `insert` is the adapter's `create`, which may throw where another process has written
-- the row first. Claims of one id wait for one another, so each is one step. Times are milliseconds.
pub mod Ops
mod Tests
pub mod Once
pub mod Held
pub mod Fencing
pub mod Model
use euroclaw.Effects.Model.{
  EffectRecord, EffectRow, EffectClaim, ClaimInput, Effects, row_key, expiry, is_active, is_lapsed,
  effect_of, read, same_effect, reused, leased_row, latest_claim, new_effect, beaten, completed_row,
  written, json_ok, failed_row, started, completed, claimed, completed, in_progress, uncertain,
  unavailable,
}
use euroclaw.Json.{Json}
use euroclaw.Base.Eff.{Eff, Result, returned, thrown, Thrown, validation_error}
use euroclaw.Storage.Table.{update}
use euroclaw.Storage.Table.Keyed.{with_key}
use euroclaw.Prelude.{ℕ, String, Bool, false, Option, none, some, ltb, if◌then◌else◌}

module _ (hash_text : String → String) where
  abbrev pub reclaimed :
      ClaimInput
      → String
      → EffectRecord
      → Effects
      → Option EffectRow × Effects
      → Result EffectClaim × Effects
  reclaimed input token old before (none, rows) =
      (latest_claim input old (read input.id rows), rows)
  reclaimed input token old before (some r, rows) =
      (returned (claimed r.effect token (expiry input.now input.lease_ttl_ms)), rows)

  -- an unfinished effect whose lease has expired
  unfoldable pub reclaim : ClaimInput → String → EffectRecord → Eff Effects EffectClaim
  unfolding update read
  reclaim input token r rows = elim input.reclaim_expired [
    | some false ↦ (returned (uncertain r r.lease_expires_at), rows)
    | _ ↦ reclaimed input token r rows (
        update (with_key row_key input.id (is_lapsed input.now))
          (leased_row (hash_text token) (expiry input.now input.lease_ttl_ms) input.now) rows)
  ]

  abbrev pub claim_started : ClaimInput → String → EffectRecord → Eff Effects EffectClaim
  claim_started input token r rows = elim r.lease_expires_at [
    | none ↦ (returned (in_progress r none), rows)
    | some t ↦
        if ltb input.now t
        then (returned (in_progress r (some t)), rows)
        else reclaim input token r rows
  ]

  abbrev pub claim_same : ClaimInput → String → EffectRecord → Eff Effects EffectClaim
  claim_same input token r rows = elim r.status [
    | completed ↦ (returned (EffectClaim.completed r), rows)
    | started ↦ claim_started input token r rows
    | _ ↦ (returned (unavailable r), rows)
  ]

  unfoldable pub claim_existing : ClaimInput → String → EffectRecord → Eff Effects EffectClaim
  claim_existing input token r rows =
      if same_effect input r then claim_same input token r rows else (thrown reused, rows)

  abbrev pub raced_claim :
      ClaimInput → String → Thrown → Option EffectRecord → Eff Effects EffectClaim
  raced_claim input token e none rows = (thrown e, rows)
  raced_claim input token e (some r) rows = claim_existing input token r rows

  -- the row is new, or another process has written it first
  abbrev pub inserted :
      ClaimInput → String → Result (Unit {0}) × Effects → Result EffectClaim × Effects
  inserted input token (returned tt, rows) =
      (returned (claimed (new_effect input) token (expiry input.now input.lease_ttl_ms)), rows)
  inserted input token (thrown e, rows) = raced_claim input token e (read input.id rows) rows

  abbrev pub claim_read :
      (EffectRow → Eff Effects (Unit {0}))
      → ClaimInput
      → String
      → Option EffectRecord
      → Eff Effects EffectClaim
  claim_read insert input token (some r) rows = claim_existing input token r rows
  claim_read insert input token none rows = inserted input token (
      insert (record { effect = new_effect input; lease_token_hash = some (hash_text token) }) rows)

  unfoldable pub claim :
      (EffectRow → Eff Effects (Unit {0})) → ClaimInput → (token : String) → Eff Effects EffectClaim
  unfolding claim_existing
  claim insert input token rows = claim_read insert input token (read input.id rows) rows

  unfoldable pub heartbeat :
      (id token : String) → ℕ → Option ℕ → Effects → Option EffectRecord × Effects
  unfolding update
  heartbeat id token now ttl rows =
      let (row, new) =
        update (with_key row_key id (is_active (hash_text token) now)) (beaten (expiry now ttl) now)
          rows in
      (effect_of row, new)

  unfoldable pub complete :
      (Json → Bool) → (id token : String) → Option Json → ℕ → Eff Effects EffectRecord
  unfolding update
  complete valid id token output now rows =
      if json_ok valid output
      then written "effect complete invalid" (
          update (with_key row_key id (is_active (hash_text token) now)) (completed_row output now)
            rows)
      else (thrown (validation_error "effect.output invalid"), rows)

  unfoldable pub fail : (Json → Bool) → (id token : String) → Json → ℕ → Eff Effects EffectRecord
  unfolding update
  fail valid id token error now rows =
      if valid error
      then written "effect fail invalid" (
          update (with_key row_key id (is_active (hash_text token) now)) (failed_row error now)
            rows)
      else (thrown (validation_error "effect.error invalid"), rows)
