-- ===== src/Base/Eff.antt =====
-- Async functions that mutate what they close over and may throw: what was written before a throw
-- stays written, so the state comes back beside the error too.
use euroclaw.Prelude.{String, ◌≡◌, refl, ap, Bool, Option, none, some, if◌then◌else◌}

pub data Thrown : Type 0 where
  validation_error state_error configuration_error external_error : String → Thrown

-- `err instanceof Error ? err.message : String(err)`
abbrev pub message : Thrown → String
message (validation_error m) = m
message (state_error m) = m
message (configuration_error m) = m
message (external_error m) = m

pub data Result {ℓ} (A : Type ℓ) : Type ℓ where
  returned : A → Result A
  thrown : Thrown → Result A

abbrev pub Eff {ℓ} : Type ℓ → Type ℓ → Type ℓ
Eff S A = S → Result A × S

module _ {ℓ} {S A : Type ℓ} where
  abbrev pub pure : A → Eff S A
  pure a s = (returned a, s)

  abbrev pub throw : Thrown → Eff S A
  throw e s = (thrown e, s)

module _ {ℓ} {S A B : Type ℓ} where
  abbrev pub continue : Result A → (A → Eff S B) → Eff S B
  continue (returned a) f s = f a s
  continue (thrown e) f s = (thrown e, s)

  infixl 5 ◌>>=◌
  abbrev pub ◌>>=◌ : Eff S A → (A → Eff S B) → Eff S B
  ◌>>=◌ m f s = continue (m s).0 f (m s).1

module _ {ℓ} {S A B : Type ℓ} where
  continue-eq-returned :
      (r : Result A) (s1 : S) (f : A → Eff S B) {b : B} {s' : S}
      → continue r f s1 ≡ (returned b, s')
      → (a : A) × (r ≡ returned a) × (f a s1 ≡ (returned b, s'))
  continue-eq-returned (returned a) s1 f h = (a, refl, h)
  continue-eq-returned (thrown e) s1 f h = absurd (thrown-ne (ap (λ p. p.0) h))
    where
      thrown-ne : {x : B} → thrown e ≡ returned x → ⊥
      thrown-ne h = cc

  -- A chain that returned has run its first part to a value.
  pub >>=-eq-returned :
      (m : Eff S A) (f : A → Eff S B) (s : S) {b : B} {s' : S}
      → (m >>= f) s ≡ (returned b, s')
      → (a : A) × (s1 : S) × (m s ≡ (returned a, s1)) × (f a s1 ≡ (returned b, s'))
  >>=-eq-returned m f s h =
      let (a, e, h') = continue-eq-returned (m s).0 (m s).1 f h in
      (a, (m s).1, ap (λ (r : Result A). (r, (m s).1)) e, h')

  pub >>=-of_returned :
      (m : Eff S A) (f : A → Eff S B) (s : S) {a : A} {s1 : S}
      → m s ≡ (returned a, s1)
      → (m >>= f) s ≡ f a s1
  >>=-of_returned m f s h = ap (λ (p : Result A × S). continue p.0 f p.1) h

-- A throw is no return.
pub thrown-ne-returned {ℓ} :
    {A : Type ℓ} {e : Thrown} {a : A} → ◌≡◌ {A = Result A} (thrown e) (returned a) → ⊥
thrown-ne-returned h = cc

-- `asPrincipal` of packages/foundation/contracts/src/governance/principal.ts on an optional text, for
-- which `well_formed` says whether `parsePrincipal` reads it.
unfoldable pub as_principal {ℓ} :
    {S : Type ℓ} (well_formed : String → Bool) → Option String → S → Result (Option String) × S
as_principal well_formed none s = (returned none, s)
as_principal well_formed (some p) s =
    if well_formed p
    then (returned (some p), s)
    else (thrown (validation_error "invalid principal"), s)
