-- ===== src/Effects/Held.antt =====
-- What a granted claim has written.
use mathlib.Core.Path.{subst}
use euroclaw.Json.{Json}
use euroclaw.Base.Eff.{returned}
use euroclaw.Storage.Table.{find_one, update, create, assign_one}
use euroclaw.Storage.Table.Keyed.{
  with_key, keep_if, find_one_any, find_one-with_key, find_key-create, find_key-assign_one,
}
use euroclaw.Effects.{reclaim, claim_existing, claim}
use euroclaw.Effects.Model.{
  EffectStatus, EffectRecord, EffectRow, EffectClaim, ClaimInput, Effects, row_key, is_lapsed, read,
  leased_row, new_effect, expiry,
}
use euroclaw.Effects.Ops.{append_row, row_at, HasUniqueIds}
use euroclaw.Prelude.{
  ℕ, String, ◌≡◌, refl, sym, ap, ◌∙◌, ◌≢◌, inl, inr, Bool, none, some, arith, eq_iff, Bool-cases,
  Option-cases,
}

module _ (hash_text : String → String) (valid : Json → Bool) where
  -- What a claim that was granted has written.
  pub record IsHeld (id token : String) (until : ℕ) (r : EffectRecord) (rows : Effects)
      : Type 0 where
    pub row : EffectRow
    pub found : row_at id rows ≡ some row
    pub record_is : row.effect ≡ r
    pub is_started_now : row.effect.status ≡ EffectStatus.started
    pub under : row.lease_token_hash ≡ some (hash_text token)
    pub expires : row.effect.lease_expires_at ≡ some until

  new-IsHeld :
      (input : ClaimInput) (token : String) (rows : Effects)
      → row_at input.id rows ≡ none
      → IsHeld input.id token (expiry input.now input.lease_ttl_ms) (new_effect input) (
          create
            (record { effect = new_effect input; lease_token_hash = some (hash_text token) })
            rows)
  new-IsHeld input token rows absent = record {
    row = record { effect = new_effect input; lease_token_hash = some (hash_text token) };
    found = ground (
      arith,
      absent,
      eq_iff input.id input.id,
      find_key-create row_key input.id
          (record { effect = new_effect input; lease_token_hash = some (hash_text token) }) rows,
    );
    record_is = refl;
    is_started_now = refl;
    under = refl;
    expires = refl;
  }

  -- The row of a claim that takes a lapsed lease over.
  abbrev taken_over : ClaimInput → String → EffectRow → EffectRow
  taken_over input token =
      leased_row (hash_text token) (expiry input.now input.lease_ttl_ms) input.now

  reclaim_parts :
      (input : ClaimInput) (token token' : String) (until : ℕ) (old r : EffectRecord)
      (rows rows' : Effects)
      → claim_existing hash_text input token old rows
        ≡ (returned (EffectClaim.claimed r token' until), rows')
      → (find_one (with_key row_key input.id (is_lapsed input.now)) rows ≢ none)
        × (rows'
            ≡ assign_one
                (with_key row_key input.id (is_lapsed input.now))
                (taken_over input token)
                rows)
        × (until ≡ expiry input.now input.lease_ttl_ms)
        × ((x : EffectRow)
            → find_one (with_key row_key input.id (is_lapsed input.now)) rows ≡ some x
            → r ≡ (taken_over input token x).effect)
  unfolding claim_existing reclaim update read
  reclaim_parts input token token' until old r rows rows' h = (
    λ none_found. ground (arith, h, none_found),
    ground arith,
    ground arith,
    λ x e. ground (arith, h, e),
  )

  reclaimed-IsHeld :
      (input : ClaimInput) (token : String) (r : EffectRecord) (rows rows' : Effects)
      → HasUniqueIds rows
      → find_one (with_key row_key input.id (is_lapsed input.now)) rows ≢ none
      → rows'
        ≡ assign_one (with_key row_key input.id (is_lapsed input.now)) (taken_over input token) rows
      → ((x : EffectRow)
          → find_one (with_key row_key input.id (is_lapsed input.now)) rows ≡ some x
          → r ≡ (taken_over input token x).effect)
      → IsHeld input.id token (expiry input.now input.lease_ttl_ms) r rows'
  reclaimed-IsHeld input token r rows rows' u hit rows_are is =
      let p = is_lapsed input.now in
      let f = taken_over input token in
      let finds = find_one-with_key row_key input.id p rows u in
      let assigns = find_key-assign_one row_key f (λ r. refl) input.id input.id p rows u in
      elim (Option-cases (row_at input.id rows)) [
        | inl absent ↦ absurd (hit (finds ∙ ap (keep_if p) absent))
        | inr (old, present) ↦ elim (Bool-cases (p old)) [
          | inl lapsed ↦ record {
            row = f old;
            found = ground (arith, rows_are, present, lapsed, assigns, eq_iff input.id input.id);
            record_is = sym (is old (finds ∙ (ap (keep_if p) present ∙ ground (arith, lapsed))));
            is_started_now = ground (arith, lapsed);
            under = refl;
            expires = refl;
          }
          | inr other ↦ absurd (hit (finds ∙ (ap (keep_if p) present ∙ ground (arith, other))))
        ]
      ]

  fresh_parts :
      (input : ClaimInput) (token token' : String) (until : ℕ) (r : EffectRecord)
      (rows rows' : Effects)
      → row_at input.id rows ≡ none
      → claim hash_text append_row input token rows
        ≡ (returned (EffectClaim.claimed r token' until), rows')
      → (rows'
          ≡ create
              (record { effect = new_effect input; lease_token_hash = some (hash_text token) })
              rows)
        × (until ≡ expiry input.now input.lease_ttl_ms)
        × (r ≡ new_effect input)
  unfolding claim read
  fresh_parts input token token' until r rows rows' absent h =
      ground (arith, absent, find_one_any row_key input.id rows)

  old_claim :
      (input : ClaimInput) (token : String) (rows : Effects) (old : EffectRow)
      → row_at input.id rows ≡ some old
      → claim hash_text append_row input token rows
        ≡ claim_existing hash_text input token old.effect rows
  unfolding claim read
  old_claim input token rows old present =
      ground (arith, present, find_one_any row_key input.id rows)

  pub claim-IsHeld :
      (input : ClaimInput) (token token' : String) (until : ℕ) (r : EffectRecord)
      (rows rows' : Effects)
      → HasUniqueIds rows
      → claim hash_text append_row input token rows
        ≡ (returned (EffectClaim.claimed r token' until), rows')
      → IsHeld input.id token until r rows'
  claim-IsHeld input token token' until r rows rows' u h =
      elim (Option-cases (row_at input.id rows)) [
        | inl absent ↦
            let (rows_are, until_is, r_is) =
              fresh_parts input token token' until r rows rows' absent h in
            rw (rows_are, until_is, r_is) (new-IsHeld input token rows absent)
        | inr (old, present) ↦
            let (hit, rows_are, until_is, is) =
              reclaim_parts input token token' until old.effect r rows rows'
                (sym (old_claim input token rows old present) ∙ h) in
            subst (λ t. IsHeld input.id token t r rows') (sym until_is)
              (reclaimed-IsHeld input token r rows rows' u hit rows_are is)
      ]
