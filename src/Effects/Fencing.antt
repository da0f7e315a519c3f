-- ===== src/Effects/Fencing.antt =====
-- What others do while a granted claim lasts.
use mathlib.Core.Path.{subst}
use euroclaw.Json.{Json}
use euroclaw.Base.Eff.{Result, returned}
use euroclaw.Effects.{claim, claim_existing, complete}
use euroclaw.Effects.Model.{
  completed_effect, EffectStatus, EffectRecord, EffectRow, EffectClaim, ClaimInput, Effects, read,
  json_ok, same_effect,
}
use euroclaw.Effects.Ops.{
  perform, Op, claims, beats, completes, fails, append_row, HasUniqueIds, perform_all, may_write,
  perform-HasUniqueIds, perform_all-HasUniqueIds,
}
use euroclaw.Effects.Held.{claim-IsHeld}
use euroclaw.Effects.Once.{perform_all-kept, ready_completes, read_found}
use euroclaw.Prelude.{
  ℕ, ◌<◌, String, ◌≡◌, sym, ap, ◌∙◌, Bool, true, false, ◌&&◌, Option, some, List, [], ◌∷◌, arith,
  str_eq, eq_iff, All,
}

module _ (hash_text : String → String) (valid : Json → Bool) where
  -- An operation by someone else than the holder: a claim before the lease expires, or a write with a
  -- token of another hash, or of another effect.
  abbrev pub IsForeign : String → String → ℕ → Op → Type 0
  IsForeign id token until (claims input t) = input.now < until
  IsForeign id token until (beats k t now ttl) =
      (str_eq k id && str_eq (hash_text t) (hash_text token)) ≡ false
  IsForeign id token until (completes k t output now) =
      (str_eq k id && str_eq (hash_text t) (hash_text token)) ≡ false
  IsForeign id token until (fails k t error now) =
      (str_eq k id && str_eq (hash_text t) (hash_text token)) ≡ false

  foreign_untouched :
      (id token : String) (until : ℕ) (op : Op) (r : EffectRow)
      → r.lease_token_hash ≡ some (hash_text token)
      → r.effect.lease_expires_at ≡ some until
      → IsForeign id token until op
      → may_write hash_text valid id op r ≡ false
  foreign_untouched id token until (claims input t) r under expires early =
      ground (arith, expires, early)
  foreign_untouched id token until (beats k t now ttl) r under expires other = ground (
    arith,
    under,
    other,
    eq_iff (hash_text t) (hash_text token),
    eq_iff (hash_text token) (hash_text t),
  )
  foreign_untouched id token until (completes k t output now) r under expires other = ground (
    arith,
    under,
    other,
    eq_iff (hash_text t) (hash_text token),
    eq_iff (hash_text token) (hash_text t),
  )
  foreign_untouched id token until (fails k t error now) r under expires other = ground (
    arith,
    under,
    other,
    eq_iff (hash_text t) (hash_text token),
    eq_iff (hash_text token) (hash_text t),
  )

  stays_untouched :
      (id token : String) (until : ℕ) (ops : List Op) (r : EffectRow)
      → r.lease_token_hash ≡ some (hash_text token)
      → r.effect.lease_expires_at ≡ some until
      → All (IsForeign id token until) ops
      → All (λ op. may_write hash_text valid id op r ≡ false) ops
  stays_untouched id token until [] r under expires away = tt
  stays_untouched id token until (op ∷ ops) r under expires away = (
    foreign_untouched id token until op r under expires away.0,
    stays_untouched id token until ops r under expires away.1,
  )

  held_claim :
      (input : ClaimInput) (token : String) (until : ℕ) (rows : Effects) (r : EffectRecord)
      → read input.id rows ≡ some r
      → r.status ≡ EffectStatus.started
      → r.lease_expires_at ≡ some until
      → input.now < until
      → same_effect input r ≡ true
      → claim hash_text append_row input token rows
        ≡ (returned (EffectClaim.in_progress r (some until)), rows)
  unfolding claim claim_existing
  held_claim input token until rows r found begun expires early same =
      rw found (ground (arith, begun, expires, early, same))

  -- A granted claim is exclusive until its lease expires. After any operations by others, a further
  -- claim of the same effect before then is told that it is in progress and changes nothing, and
  -- `complete` with the claim's token before then returns the completed record.
  pub claim-claim :
      (input : ClaimInput) (token token' : String) (until : ℕ) (r : EffectRecord)
      (rows rows' : Effects)
      → HasUniqueIds rows
      → claim hash_text append_row input token rows
        ≡ (returned (EffectClaim.claimed r token' until), rows')
      → (ops : List Op) → All (IsForeign input.id token until) ops
      → (again : ClaimInput) (t : String) (output : Option Json) (now : ℕ) → again.id ≡ input.id
      → again.now < until
      → same_effect again r ≡ true
      → now < until
      → json_ok valid output ≡ true
      → (claim hash_text append_row again t (perform_all hash_text valid ops rows') ≡ (
        returned (EffectClaim.in_progress r (some until)),
        perform_all hash_text valid ops rows',
      ))
        × ((complete hash_text valid input.id token output now
              (perform_all hash_text valid ops rows')).0
            ≡ returned (completed_effect output now r))
  unfolding perform
  claim-claim input token token' until r rows rows' u h ops away again t output now same early fits
        begun ok =
      let held = claim-IsHeld hash_text valid input token token' until r rows rows' u h in
      let u' =
        subst HasUniqueIds (ap (λ (p : Result EffectClaim × Effects). p.1) h)
          (perform-HasUniqueIds hash_text valid (claims input token) rows u) in
      let after = perform_all hash_text valid ops rows' in
      let kept =
        perform_all-kept hash_text valid input.id held.row ops rows' u' held.found
          (stays_untouched input.id token until ops held.row held.under held.expires away) in
      let reads =
        read_found hash_text valid input.id after held.row kept ∙ ap some held.record_is in
      let is = sym held.record_is in
      (
        held_claim again t until after r (ap (λ k. read k after) same ∙ reads)
            (ap (λ (e : EffectRecord). e.status) is ∙ held.is_started_now)
            (ap (λ (e : EffectRecord). e.lease_expires_at) is ∙ held.expires) early fits,
        ready_completes hash_text valid input.id token output now after held.row
              (perform_all-HasUniqueIds hash_text valid ops rows' u') ok kept
              (ground (
                arith,
                held.is_started_now,
                held.under,
                held.expires,
                begun,
                eq_iff (hash_text token) (hash_text token),
              ))
            ∙ ap (λ e. returned (completed_effect output now e)) held.record_is,
      )
