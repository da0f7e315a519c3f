-- ===== src/Engine/Idempotency.antt =====
-- Idempotency records: getIdempotency and saveIdempotency of packages/engines/sql/src/store.ts.
-- `scope_id` is the SHA-256 of the JSON text of the scope tuple; `insert` is the adapter's `create`,
-- which may throw where another request has written the row first.
pub mod Replay
use euroclaw.Json.{Json}
use euroclaw.Base.Eff.{
  Eff, Result, returned, thrown, Thrown, state_error, validation_error, pure, throw, ◌>>=◌,
}
use euroclaw.Storage.Table.{find_one}
use euroclaw.Storage.Table.Keyed.{with_key}
use euroclaw.Prelude.{
  ℕ, String, ◌≡◌, sym, ap, Bool, true, Option, none, some, List, arith, str_eq, eq_iff,
  if◌then◌else◌,
}

pub record IdempotencyRecord : Type 0 where
  pub id : String
  pub key : String
  pub method : String
  pub path : String
  pub organization_id : Option String
  pub principal : Option String
  pub request_hash : String
  pub response_status : ℕ
  pub response_body : Json
  pub created_at : ℕ

pub record IdempotencyLookup : Type 0 where
  pub key : String
  pub method : String
  pub path : String
  pub organization_id : Option String
  pub principal : Option String
  pub request_hash : String

abbrev pub Saved : Type 0
Saved = List IdempotencyRecord

abbrev pub record_key : IdempotencyRecord → String
record_key r = r.id

module _ (scope_id : String → String → String → Option String → Option String → String) where
  abbrev pub idempotency_id : IdempotencyLookup → String
  idempotency_id i = scope_id i.key i.method i.path i.organization_id i.principal

  abbrev pub agreed :
      IdempotencyLookup → Option IdempotencyRecord → Result (Option IdempotencyRecord)
  agreed input none = returned none
  agreed input (some r) =
      if str_eq r.request_hash input.request_hash
      then returned (some r)
      else thrown (state_error "idempotency key reused with a different request body")

  unfoldable pub get_idempotency : IdempotencyLookup → Eff Saved (Option IdempotencyRecord)
  get_idempotency input rows =
      (agreed input (find_one (with_key record_key (idempotency_id input) (λ r. true)) rows), rows)

  module _ (valid : Json → Bool) (insert : IdempotencyRecord → Eff Saved IdempotencyRecord)
      (now : ℕ) (input : IdempotencyLookup) (status : ℕ) (body : Json) where
    abbrev pub new_record : IdempotencyRecord
    new_record = record {
      id = idempotency_id input;
      key = input.key;
      method = input.method;
      path = input.path;
      organization_id = input.organization_id;
      principal = input.principal;
      request_hash = input.request_hash;
      response_status = status;
      response_body = body;
      created_at = now;
    }

    -- the body of the `try`
    abbrev pub try_create : Eff Saved IdempotencyRecord
    try_create =
        if valid body then insert new_record else throw (validation_error "response body invalid")

    abbrev pub raced_or : Thrown → Option IdempotencyRecord → Eff Saved IdempotencyRecord
    raced_or e none = throw e
    raced_or e (some raced) = pure raced

    -- the `catch`: the record of a request that came first, else the error again
    abbrev pub caught : Result IdempotencyRecord → Eff Saved IdempotencyRecord
    caught (returned r) = pure r
    caught (thrown e) = get_idempotency input >>= raced_or e

    abbrev pub existing_or : Option IdempotencyRecord → Eff Saved IdempotencyRecord
    existing_or (some r) rows = (returned r, rows)
    existing_or none rows = caught (try_create rows).0 (try_create rows).1

    unfoldable pub save_idempotency : Eff Saved IdempotencyRecord
    save_idempotency = get_idempotency input >>= existing_or

  pub got_found :
      (input : IdempotencyLookup) (rows rows' : Saved) (r : IdempotencyRecord)
      → get_idempotency input rows ≡ (returned (some r), rows')
      → (rows' ≡ rows) × (r.request_hash ≡ input.request_hash)
  unfolding get_idempotency
  got_found input rows rows' r h = ground (arith, eq_iff r.request_hash input.request_hash)

  pub got_same :
      (input : IdempotencyLookup) (rows rows' : Saved) (o : Option IdempotencyRecord)
      → get_idempotency input rows ≡ (returned o, rows')
      → rows' ≡ rows
  unfolding get_idempotency
  got_same input rows rows' o h = sym (ap (λ p. p.1) h)

  pub got_new :
      (input : IdempotencyLookup) (rows : Saved) (r : IdempotencyRecord)
      → find_one (with_key record_key (idempotency_id input) (λ r. true)) rows ≡ some r
      → r.request_hash ≡ input.request_hash
      → get_idempotency input rows ≡ (returned (some r), rows)
  unfolding get_idempotency
  got_new input rows r found same = ground (arith, eq_iff r.request_hash input.request_hash)
