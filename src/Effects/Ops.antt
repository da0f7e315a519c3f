-- ===== src/Effects/Ops.antt =====
-- Sequences of operations on the effects of packages/storage/durable/src/effect.ts, by whatever process
-- makes them, over the memory adapter, whose `create` appends.
use mathlib.Core.Path.{subst}
use euroclaw.Json.{Json}
use euroclaw.Base.Eff.{Eff, returned}
use euroclaw.Storage.Table.{update, create, assign_one}
use euroclaw.Storage.Table.Keyed.{
  with_key, find_key, HasUniqueKeys, find_one_any, find_key-create, find_key-assign_one,
  HasUniqueKeys-assign_one, HasUniqueKeys-create,
}
use euroclaw.Effects.{reclaim, claim_existing, claim, heartbeat, complete, fail}
use euroclaw.Effects.Model.{
  EffectRecord, EffectRow, ClaimInput, Effects, row_key, is_active, is_lapsed, read, leased_row,
  new_effect, completed_row, failed_row, expiry,
}
use euroclaw.Prelude.{
  ℕ, String, ◌≡◌, refl, sym, ap, ◌∙◌, ◌⊎◌, inl, inr, Bool, false, ◌&&◌, Option, none, some, List,
  [], ◌∷◌, arith, str_eq, Option-cases,
}

pub data Op : Type 0 where
  claims : (input : ClaimInput) → (token : String) → Op
  beats : (id token : String) → (now : ℕ) → (ttl : Option ℕ) → Op
  completes : (id token : String) → (output : Option Json) → (now : ℕ) → Op
  fails : (id token : String) → (error : Json) → (now : ℕ) → Op

abbrev pub append_row : EffectRow → Eff Effects (Unit {0})
append_row row rows = (returned tt, create row rows)

abbrev pub row_at : String → Effects → Option EffectRow
row_at = find_key row_key

abbrev pub HasUniqueIds : Effects → Type 0
HasUniqueIds = HasUniqueKeys row_key

module _ (hash_text : String → String) (valid : Json → Bool) where
  unfoldable pub perform : Op → Effects → Effects
  perform (claims input token) rows = (claim hash_text append_row input token rows).1
  perform (beats id token now ttl) rows = (heartbeat hash_text id token now ttl rows).1
  perform (completes id token output now) rows =
      (complete hash_text valid id token output now rows).1
  perform (fails id token error now) rows = (fail hash_text valid id token error now rows).1

  abbrev pub perform_all : List Op → Effects → Effects
  perform_all [] rows = rows
  perform_all (op ∷ ops) rows = perform_all ops (perform op rows)

  -- May the operation write the row of the id?
  abbrev pub may_write : String → Op → EffectRow → Bool
  may_write k (claims input token) r = str_eq input.id k && is_lapsed input.now r
  may_write k (beats id token now ttl) r = str_eq id k && is_active (hash_text token) now r
  may_write k (completes id token output now) r = str_eq id k && is_active (hash_text token) now r
  may_write k (fails id token error now) r = str_eq id k && is_active (hash_text token) now r

  existing-rows :
      (input : ClaimInput) (token : String) (r : EffectRecord) (rows : Effects)
      → ((claim_existing hash_text input token r rows).1 ≡ rows)
        ⊎ ((claim_existing hash_text input token r rows).1
            ≡ assign_one
                (with_key row_key input.id (is_lapsed input.now))
                (leased_row (hash_text token) (expiry input.now input.lease_ttl_ms) input.now)
                rows)
  unfolding claim_existing reclaim update
  existing-rows input token r rows = ground arith

  -- The row that a claim of a new effect writes.
  abbrev pub new_row : ClaimInput → String → EffectRow
  new_row input token = record {
    effect = new_effect input;
    lease_token_hash = some (hash_text token);
  }

  unread :
      (input : ClaimInput) (rows : Effects)
      → read input.id rows ≡ none
      → row_at input.id rows ≡ none
  unfolding read
  unread input rows h = ground (arith, h, find_one_any row_key input.id rows)

  claim-rows :
      (input : ClaimInput) (token : String) (rows : Effects)
      → ((claim hash_text append_row input token rows).1 ≡ rows)
        ⊎ (((row_at input.id rows ≡ none)
              × ((claim hash_text append_row input token rows).1
                  ≡ create (new_row input token) rows))
            ⊎ ((claim hash_text append_row input token rows).1
                ≡ assign_one
                    (with_key row_key input.id (is_lapsed input.now))
                    (leased_row (hash_text token) (expiry input.now input.lease_ttl_ms) input.now)
                    rows))
  unfolding claim
  claim-rows input token rows = elim (Option-cases (read input.id rows)) [
    | inl absent ↦ rw absent (inr (inl (unread input rows absent, refl)))
    | inr (r, present) ↦ rw present (elim (existing-rows input token r rows) [
      | inl same ↦ inl same
      | inr wrote ↦ inr (inr wrote)
    ])
  ]

  complete-rows :
      (id token : String) (output : Option Json) (now : ℕ) (rows : Effects)
      → ((complete hash_text valid id token output now rows).1 ≡ rows)
        ⊎ ((complete hash_text valid id token output now rows).1
            ≡ assign_one
                (with_key row_key id (is_active (hash_text token) now))
                (completed_row output now)
                rows)
  unfolding complete update
  complete-rows id token output now rows = ground arith

  fail-rows :
      (id token : String) (error : Json) (now : ℕ) (rows : Effects)
      → ((fail hash_text valid id token error now rows).1 ≡ rows)
        ⊎ ((fail hash_text valid id token error now rows).1
            ≡ assign_one
                (with_key row_key id (is_active (hash_text token) now))
                (failed_row error now)
                rows)
  unfolding fail update
  fail-rows id token error now rows = ground arith

  -- The rows after an operation: as they were, with one new row, or with one row written.
  data Write (rows : Effects) : Effects → Type 0 where
    same : Write rows rows
    adds : (row : EffectRow) → row_at row.effect.id rows ≡ none → Write rows (create row rows)
    writes :
        (id : String) (p : EffectRow → Bool) (f : EffectRow → EffectRow)
        → ((r : EffectRow) → (f r).effect.id ≡ r.effect.id)
        → Write rows (assign_one (with_key row_key id p) f rows)

  Write-HasUniqueIds : {rows new : Effects} → Write rows new → HasUniqueIds rows → HasUniqueIds new
  Write-HasUniqueIds {rows} same u = u
  Write-HasUniqueIds {rows} (adds row absent) u = HasUniqueKeys-create row_key row rows u absent
  Write-HasUniqueIds {rows} (writes id p f keeps) u =
      HasUniqueKeys-assign_one row_key f keeps _ rows u

  perform-Write : (op : Op) (rows : Effects) → Write rows (perform op rows)
  unfolding perform heartbeat update
  perform-Write (claims input token) rows = elim (claim-rows input token rows) [
    | inl e ↦ subst (Write rows) (sym e) same
    | inr (inl (absent, e)) ↦ subst (Write rows) (sym e) (adds (new_row input token) absent)
    | inr (inr e) ↦ subst (Write rows) (sym e) (writes input.id _ _ (λ r. refl))
  ]
  perform-Write (beats id token now ttl) rows = writes id _ _ (λ r. refl)
  perform-Write (completes id token output now) rows =
      elim (complete-rows id token output now rows) [
        | inl e ↦ subst (Write rows) (sym e) same
        | inr e ↦ subst (Write rows) (sym e) (writes id _ _ (λ r. refl))
      ]
  perform-Write (fails id token error now) rows = elim (fail-rows id token error now rows) [
    | inl e ↦ subst (Write rows) (sym e) same
    | inr e ↦ subst (Write rows) (sym e) (writes id _ _ (λ r. refl))
  ]

  pub perform-HasUniqueIds :
      (op : Op) (rows : Effects) → HasUniqueIds rows → HasUniqueIds (perform op rows)
  perform-HasUniqueIds op rows u = Write-HasUniqueIds (perform-Write op rows) u

  pub perform_all-HasUniqueIds :
      (ops : List Op) (rows : Effects) → HasUniqueIds rows → HasUniqueIds (perform_all ops rows)
  perform_all-HasUniqueIds [] rows u = u
  perform_all-HasUniqueIds (op ∷ ops) rows u =
      perform_all-HasUniqueIds ops _ (perform-HasUniqueIds op rows u)

  module _ (k : String) (r : EffectRow) (rows : Effects) (u : HasUniqueIds rows)
      (found : row_at k rows ≡ some r) where
    kept_by_assign :
        (id : String) (p : EffectRow → Bool) (f : EffectRow → EffectRow)
        → ((r : EffectRow) → (f r).effect.id ≡ r.effect.id)
        → (str_eq id k && p r) ≡ false
        → row_at k (assign_one (with_key row_key id p) f rows) ≡ some r
    kept_by_assign id p f keeps away =
        ground (arith, found, find_key-assign_one row_key f keeps k id p rows u)

    kept_by_create : (row : EffectRow) → row_at k (create row rows) ≡ some r
    kept_by_create row = ground (arith, found, find_key-create row_key k row rows)

    -- An operation that may not write a row leaves it as it is.
    pub perform-kept : (op : Op) → may_write k op r ≡ false → row_at k (perform op rows) ≡ some r
    unfolding perform heartbeat update
    perform-kept (claims input token) away = elim (claim-rows input token rows) [
      | inl e ↦ ap (row_at k) e ∙ found
      | inr (inl (absent, e)) ↦ ap (row_at k) e ∙ kept_by_create (new_row input token)
      | inr (inr e) ↦ ap (row_at k) e ∙ kept_by_assign input.id _ _ (λ r. refl) away
    ]
    perform-kept (beats id token now ttl) away = kept_by_assign id _ _ (λ r. refl) away
    perform-kept (completes id token output now) away =
        elim (complete-rows id token output now rows) [
          | inl e ↦ ap (row_at k) e ∙ found
          | inr e ↦ ap (row_at k) e ∙ kept_by_assign id _ _ (λ r. refl) away
        ]
    perform-kept (fails id token error now) away = elim (fail-rows id token error now rows) [
      | inl e ↦ ap (row_at k) e ∙ found
      | inr e ↦ ap (row_at k) e ∙ kept_by_assign id _ _ (λ r. refl) away
    ]
