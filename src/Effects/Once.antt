-- ===== src/Effects/Once.antt =====
-- claim, then any sequence of operations, then complete or a further claim.
use mathlib.Core.Path.{subst}
use euroclaw.Json.{Json}
use euroclaw.Base.Eff.{Result, returned, thrown}
use euroclaw.Storage.Table.{find_one, update}
use euroclaw.Storage.Table.Keyed.{
  with_key, keep_if, find_one_any, find_one-with_key, find_key-assign_one,
}
use euroclaw.Effects.{claim_existing, claim, complete}
use euroclaw.Effects.Model.{
  EffectStatus, EffectRecord, EffectRow, EffectClaim, ClaimInput, Effects, row_key, is_active, read,
  completed_row, json_ok, same_effect, reused,
}
use euroclaw.Effects.Ops.{
  Op, claims, beats, completes, fails, append_row, row_at, HasUniqueIds, perform, perform_all,
  may_write, perform-HasUniqueIds, perform-kept,
}
use euroclaw.Prelude.{
  ℕ, String, ◌≡◌, refl, sym, ap, ◌∙◌, inl, inr, Bool, true, false, Option, none, some, List, [],
  ◌∷◌, arith, eq_iff, if◌then◌else◌, Option-cases, All,
}

module _ (hash_text : String → String) (valid : Json → Bool) where
  pub perform_all-kept :
      (k : String) (r : EffectRow) (ops : List Op) (rows : Effects)
      → HasUniqueIds rows
      → row_at k rows ≡ some r
      → All (λ op. may_write hash_text valid k op r ≡ false) ops
      → row_at k (perform_all hash_text valid ops rows) ≡ some r
  perform_all-kept k r [] rows u found away = found
  perform_all-kept k r (op ∷ ops) rows u found away =
      perform_all-kept k r ops _ (perform-HasUniqueIds hash_text valid op rows u)
        (perform-kept hash_text valid k r rows u found op away.0) away.1

  completed_parts :
      (id token : String) (output : Option Json) (now : ℕ) (rows rows' : Effects) (r : EffectRecord)
      → HasUniqueIds rows
      → complete hash_text valid id token output now rows ≡ (returned r, rows')
      → (old : EffectRow) × (row_at id rows ≡ some old)
        × (is_active (hash_text token) now old ≡ true)
        × (r ≡ (completed_row output now old).effect)
        × (row_at id rows' ≡ some (completed_row output now old))
  unfolding complete update
  completed_parts id token output now rows rows' r u h =
      let p = is_active (hash_text token) now in
      let finds = find_one-with_key row_key id p rows u in
      let assigns =
        find_key-assign_one row_key (completed_row output now) (λ r. refl) id id p rows u in
      elim (Option-cases (row_at id rows)) [
        | inl absent ↦ absurd (none_written absent finds)
        | inr (old, present) ↦ (
          old,
          present,
          ground (arith, present, finds),
          ground (arith, present, finds),
          ground (arith, present, finds, assigns, eq_iff id id),
        )
      ]
    where
      none_written :
          row_at id rows ≡ none
          → find_one (with_key row_key id (is_active (hash_text token) now)) rows
            ≡ keep_if (is_active (hash_text token) now) (row_at id rows)
          → ⊥
      none_written absent finds = ground (arith, absent, finds)

  pub ready_completes :
      (id token : String) (output : Option Json) (now : ℕ) (rows : Effects) (r : EffectRow)
      → HasUniqueIds rows
      → json_ok valid output ≡ true
      → row_at id rows ≡ some r
      → is_active (hash_text token) now r ≡ true
      → (complete hash_text valid id token output now rows).0
        ≡ returned (completed_row output now r).effect
  unfolding complete update
  ready_completes id token output now rows r u ok found active = ground (
    arith,
    ok,
    found,
    active,
    find_one-with_key row_key id (is_active (hash_text token) now) rows u,
  )

  pub read_found :
      (id : String) (rows : Effects) (r : EffectRow)
      → row_at id rows ≡ some r
      → read id rows ≡ some r.effect
  unfolding read
  read_found id rows r found = ground (arith, found, find_one_any row_key id rows)

  claim_of_completed :
      (input : ClaimInput) (token : String) (rows : Effects) (r : EffectRecord)
      → read input.id rows ≡ some r
      → r.status ≡ EffectStatus.completed
      → claim hash_text append_row input token rows
        ≡ (if same_effect input r then returned (EffectClaim.completed r) else thrown reused, rows)
  unfolding claim claim_existing
  claim_of_completed input token rows r found done = rw found (ground (arith, done))

  done_untouched :
      (k : String) (op : Op) (r : EffectRow)
      → r.effect.status ≡ EffectStatus.completed
      → may_write hash_text valid k op r ≡ false
  done_untouched k (claims input token) r done = ground (arith, done)
  done_untouched k (beats id token now ttl) r done = ground (arith, done)
  done_untouched k (completes id token output now) r done = ground (arith, done)
  done_untouched k (fails id token error now) r done = ground (arith, done)

  stays_untouched :
      (k : String) (ops : List Op) (r : EffectRow)
      → r.effect.status ≡ EffectStatus.completed
      → All (λ op. may_write hash_text valid k op r ≡ false) ops
  stays_untouched k [] r done = tt
  stays_untouched k (op ∷ ops) r done = (done_untouched k op r done, stays_untouched k ops r done)

  -- An effect that `complete` has finished is finished for good: after any operations, a claim of the
  -- same id gets that record back and changes nothing, and a claim with another tool or input is
  -- refused as a reuse of the id.
  pub complete-claim :
      (id token : String) (output : Option Json) (now : ℕ) (rows rows' : Effects) (r : EffectRecord)
      → HasUniqueIds rows
      → complete hash_text valid id token output now rows ≡ (returned r, rows')
      → (ops : List Op) (input : ClaimInput) (token' : String) → input.id ≡ id
      → claim hash_text append_row input token' (perform_all hash_text valid ops rows') ≡ (
        if same_effect input r then returned (EffectClaim.completed r) else thrown reused,
        perform_all hash_text valid ops rows',
      )
  unfolding perform
  complete-claim id token output now rows rows' r u h ops input token' same =
      let (old, found, active, r_is, stored) =
        completed_parts id token output now rows rows' r u h in
      let u' =
        subst HasUniqueIds (ap (λ (p : Result EffectRecord × Effects). p.1) h)
          (perform-HasUniqueIds hash_text valid (completes id token output now) rows u) in
      let kept =
        perform_all-kept id (completed_row output now old) ops rows' u' stored
          (stays_untouched id ops (completed_row output now old) refl) in
      let reads = read_found id _ _ kept in
      claim_of_completed input token' _ r
        (ap (λ k. read k (perform_all hash_text valid ops rows')) same
          ∙ (reads ∙ ap some (sym r_is)))
        (ap (λ (e : EffectRecord). e.status) r_is)
