-- ===== src/Engine/Idempotency/Replay.antt =====
-- saveIdempotency followed by getIdempotency, for an adapter whose `create` works.
use mathlib.Core.Path.{subst}
use euroclaw.Json.{Json}
use euroclaw.Base.Eff.{
  Eff, Result, returned, thrown, Thrown, >>=-eq-returned, throw, validation_error,
}
use euroclaw.Storage.Table.{find_one}
use euroclaw.Storage.Table.Keyed.{with_key}
use euroclaw.Engine.Idempotency.{
  got_new, IdempotencyRecord, IdempotencyLookup, Saved, record_key, get_idempotency,
  save_idempotency, agreed, idempotency_id, new_record, raced_or, caught, existing_or,
}
use euroclaw.Prelude.{
  ℕ, String, ◌≡◌, refl, sym, ap, ◌∙◌, Bool, true, false, Option, none, some, List, [], ◌∷◌, ◌++◌,
  arith, eq_iff, if◌then◌else◌,
}

find_one-append :
    {Row : Type 0} (p : Row → Bool) (rows more : List Row) (r : Row)
    → find_one p rows ≡ some r
    → find_one p (rows ++ more) ≡ some r
unfolding find_one
find_one-append p [] more r h = ground arith
find_one-append p (x ∷ rows) more r h = ground (arith, find_one-append p rows more r)

module _ (scope_id : String → String → String → Option String → Option String → String)
    (valid : Json → Bool) (insert : IdempotencyRecord → Eff Saved IdempotencyRecord) where
  -- The adapter's `create`, where it returns, returns the row it was given, and that row is found by its
  -- id if none was before.
  pub record Inserts : Type 0 where
    pub row_is :
        (row r : IdempotencyRecord) (s s' : Saved) → insert row s ≡ (returned r, s') → r ≡ row
    pub row_found :
        (row r : IdempotencyRecord) (s s' : Saved)
        → find_one (with_key record_key row.id (λ r. true)) s ≡ none
        → insert row s ≡ (returned r, s')
        → find_one (with_key record_key row.id (λ r. true)) s' ≡ some row

  -- The record of this request and this response.
  pub record IsSaved (now : ℕ) (input : IdempotencyLookup) (status : ℕ) (body : Json)
      (r : IdempotencyRecord) : Type 0 where
    pub response_status : r.response_status ≡ status
    pub response_body : r.response_body ≡ body
    pub created_at : r.created_at ≡ now
    pub key : r.key ≡ input.key
    pub method : r.method ≡ input.method
    pub path : r.path ≡ input.path
    pub organization_id : r.organization_id ≡ input.organization_id
    pub principal : r.principal ≡ input.principal
    pub accepted : valid body ≡ true

  module _ (works : Inserts) (now : ℕ) (input : IdempotencyLookup) (status : ℕ) (body : Json) where
    abbrev pub stored_at : Saved → Option IdempotencyRecord
    stored_at s = find_one (with_key record_key (idempotency_id scope_id input) (λ r. true)) s

    -- Where the record came from: the rows had it, it is that of this response, or the insert was refused
    -- and the record of a request that came first is there.
    pub data CameFrom (s s' : Saved) (r : IdempotencyRecord) : Type 0 where
      was_there : stored_at s ≡ some r → s' ≡ s → CameFrom s s' r
      is_new : stored_at s ≡ none → IsSaved now input status body r → CameFrom s s' r
      came_first :
          (e : Thrown)
          → stored_at s ≡ none
          → insert (new_record scope_id valid insert now input status body) s ≡ (thrown e, s')
          → CameFrom s s' r

    got_parts :
        (s s' : Saved) (o : Option IdempotencyRecord)
        → get_idempotency scope_id input s ≡ (returned o, s')
        → (s' ≡ s)
          × (stored_at s ≡ o)
          × ((x : IdempotencyRecord) → o ≡ some x → x.request_hash ≡ input.request_hash)
    unfolding get_idempotency
    got_parts s s' o h = from (stored_at s) refl h
      where
        from :
            (x : Option IdempotencyRecord)
            → stored_at s ≡ x
            → ◌≡◌ {A = Result (Option IdempotencyRecord) × Saved}
                (agreed scope_id input x, s)
                (returned o, s')
            → (s' ≡ s)
              × (stored_at s ≡ o)
              × ((y : IdempotencyRecord) → o ≡ some y → y.request_hash ≡ input.request_hash)
        from none e h = (ground arith, ground arith, λ y is. ground arith)
        from (some x) e h = (
          ground arith,
          ground arith,
          λ y is. ground (arith, eq_iff x.request_hash input.request_hash),
        )

    -- The end of a save: where the record came from, and that it is there with the right hash.
    abbrev Ends : Saved → Saved → IdempotencyRecord → Type 0
    Ends s s' r = CameFrom s s' r × (stored_at s' ≡ some r) × (r.request_hash ≡ input.request_hash)

    raced_parts :
        (e : Thrown) (s s' : Saved) (r : IdempotencyRecord)
        → caught scope_id valid insert now input status body (thrown e) s ≡ (returned r, s')
        → (s' ≡ s) × (stored_at s ≡ some r) × (r.request_hash ≡ input.request_hash)
    raced_parts e s s' r h =
        let (o, mid, got, next) =
          >>=-eq-returned (get_idempotency scope_id input)
            (raced_or scope_id valid insert now input status body e) s h in
        let (same, found, hash) = got_parts s mid o got in from o mid same found hash next
      where
        from :
            (o : Option IdempotencyRecord) (mid : Saved)
            → mid ≡ s
            → stored_at s ≡ o
            → ((x : IdempotencyRecord) → o ≡ some x → x.request_hash ≡ input.request_hash)
            → raced_or scope_id valid insert now input status body e o mid ≡ (returned r, s')
            → (s' ≡ s) × (stored_at s ≡ some r) × (r.request_hash ≡ input.request_hash)
        from none mid same found hash next = ground arith
        from (some x) mid same found hash next = (ground arith, ground arith, hash r (ground arith))

    created_parts :
        (o : Result IdempotencyRecord) (s s1 s' : Saved) (r : IdempotencyRecord)
        → stored_at s ≡ none
        → valid body ≡ true
        → insert (new_record scope_id valid insert now input status body) s ≡ (o, s1)
        → caught scope_id valid insert now input status body o s1 ≡ (returned r, s')
        → Ends s s' r
    created_parts (returned x) s s1 s' r missing ok wrote h =
        let row = new_record scope_id valid insert now input status body in
        let is : r ≡ row = ground (arith, h, works.row_is row x s s1 wrote) in
        (
          is_new missing (
              subst (IsSaved now input status body) (sym is) (record {
                response_status = refl;
                response_body = refl;
                created_at = refl;
                key = refl;
                method = refl;
                path = refl;
                organization_id = refl;
                principal = refl;
                accepted = ok;
              })),
          ground (arith, h, is, works.row_found row x s s1 missing wrote),
          ap (λ (x : IdempotencyRecord). x.request_hash) is,
        )
    created_parts (thrown e) s s1 s' r missing ok wrote h =
        let (same, found, hash) = raced_parts e s1 s' r h in
        (
          came_first e missing (wrote ∙ ap (λ x. (thrown e, x)) (sym same)),
          ap stored_at same ∙ found,
          hash,
        )

    tried_parts :
        (b : Bool) (s s' : Saved) (r : IdempotencyRecord)
        → stored_at s ≡ none
        → valid body ≡ b
        → existing_or scope_id valid insert now input status body none s ≡ (returned r, s')
        → Ends s s' r
    tried_parts true s s' r missing ok h =
        let row = new_record scope_id valid insert now input status body in
        created_parts (insert row s).0 s (insert row s).1 s' r missing ok refl (
          subst
            (λ b.
              caught scope_id valid insert now input status body
                ((if b then insert row else throw (validation_error "response body invalid")) s).0
                ((if b then insert row else throw (validation_error "response body invalid")) s).1
              ≡ (returned r, s'))
            ok h)
    tried_parts false s s' r missing bad h =
        let row = new_record scope_id valid insert now input status body in
        let (_, found, _) = raced_parts (validation_error "response body invalid") s s' r (
          subst
            (λ b.
              caught scope_id valid insert now input status body
                ((if b then insert row else throw (validation_error "response body invalid")) s).0
                ((if b then insert row else throw (validation_error "response body invalid")) s).1
              ≡ (returned r, s'))
            bad h) in
        absurd (none-ne (sym missing ∙ found))
      where
        none-ne : none ≡ some r → ⊥
        none-ne e = ground arith

    saved_parts :
        (o : Option IdempotencyRecord) (s s' : Saved) (r : IdempotencyRecord)
        → stored_at s ≡ o
        → ((x : IdempotencyRecord) → o ≡ some x → x.request_hash ≡ input.request_hash)
        → existing_or scope_id valid insert now input status body o s ≡ (returned r, s')
        → Ends s s' r
    saved_parts (some x) s s' r found hash h =
        let same : s' ≡ s = ground arith in
        let here : stored_at s ≡ some r = ground arith in
        (was_there here same, ap stored_at same ∙ here, hash r (ground arith))
    saved_parts none s s' r missing hash h = tried_parts (valid body) s s' r missing refl h

    -- Where the adapter's `create` works: the record that `saveIdempotency` returns was there before, or
    -- it is that of this request with the given status and body, which the schema accepts, or the insert
    -- was refused and it is the record of a request that came first. It has the hash of this request's
    -- body, and a lookup of this request finds it, also after further rows have been appended.
    pub save_idempotency-get_idempotency :
        (s s' : Saved) (r : IdempotencyRecord)
        → save_idempotency scope_id valid insert now input status body s ≡ (returned r, s')
        → CameFrom s s' r
          × (r.request_hash ≡ input.request_hash)
          × ((more : Saved)
              → get_idempotency scope_id input (s' ++ more) ≡ (returned (some r), s' ++ more))
    unfolding save_idempotency
    save_idempotency-get_idempotency s s' r h =
        let (o, mid, got, next) =
          >>=-eq-returned (get_idempotency scope_id input)
            (existing_or scope_id valid insert now input status body) s h in
        let (same, found, hash) = got_parts s mid o got in
        let (came, stored, same_hash) = saved_parts o s s' r found hash (
          subst
            (λ x. existing_or scope_id valid insert now input status body o x ≡ (returned r, s'))
            same next) in
        (
          came,
          same_hash,
          λ more.
              got_new scope_id input (s' ++ more) r (find_one-append _ s' more r stored) same_hash,
        )
