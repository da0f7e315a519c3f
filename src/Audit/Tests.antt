-- ===== src/Audit/Tests.antt =====
-- Runs of the audit log, and its theorems on a short log. The digest of these tests keeps the whole
-- record, so it has no collisions.
use native.Mathlib.Decide.{ℕ_discrete}
use euroclaw.Json.{Json, null}
use euroclaw.Audit.Chain.{
  AuditInput, AuditEntry, Digest, AuditHead, tool, ok, append, head_of, hash_by_seq,
  verify_audit_chain,
}
use euroclaw.Audit.Chain.Intact.{IsChain, Agrees, verify_audit_chain_iff}
use euroclaw.Audit.Chain.Prefix.{append_all, published, append_all-verify}
use euroclaw.Audit.Chain.Rewrite.{CollisionFree, verify_audit_chain-prefix}
use euroclaw.Prelude.{
  ◌==◌, [], ℕ, ◌+◌, String, ◌≡◌, refl, ◌≢◌, ◌↔◌, Bool, true, false, none, some, List, ◌∷◌, ◌++◌,
  arith, str_eq, eq_iff, ==_iff, All,
}

-- Hashes that are numbers: the digest of a record is one more than the hash before it, so equal
-- hashes do not tell records apart by their content.
abbrev counter : Digest ℕ
counter = record { hash_entry = λ s. s.prev_hash + 1; genesis = 0; same = ◌==◌; same_iff = ==_iff }

abbrev note : AuditInput
note = record {
  ts = "t";
  boundary = tool;
  name = "send";
  status = ok;
  gate_id = none;
  reason = none;
  reason_code = none;
  principal = none;
  claw_id = none;
  run_mode = none;
  decided_by = none;
  payload = null;
}

abbrev entry : ℕ → AuditEntry ℕ
entry n = record { snapshot = record { input = note; seq = n; prev_hash = n }; hash = n + 1 }

abbrev log : List (AuditEntry ℕ)
log = entry 0 ∷ entry 1 ∷ []

log_in_order : verify_audit_chain counter log [] ≡ []
unfolding verify_audit_chain
log_in_order = refl

log_written : append_all counter (λ _. true) [] (note ∷ note ∷ []) ≡ log
unfolding append_all append
log_written = refl

abbrev head : AuditHead ℕ
head = record { seq = 1; hash = 2; ts = "t"; count = 2 }

log-head : head_of log ≡ some head
unfolding head_of
log-head = refl

truncated : verify_audit_chain counter (entry 0 ∷ []) (some head ∷ []) ≢ []
unfolding verify_audit_chain
truncated h = cc

verify_audit_chain_iff_example :
    (verify_audit_chain counter log (some head ∷ []) ≡ [])
    ↔ (IsChain counter counter.genesis 0 log × All (Agrees counter log) (some head ∷ []))
verify_audit_chain_iff_example = verify_audit_chain_iff counter log (some head ∷ [])

append_all-verify_example :
    verify_audit_chain counter
      (append_all counter (λ _. true) log (note ∷ []))
      (published counter (head_of log))
    ≡ []
append_all-verify_example = append_all-verify counter (λ _. true) log (note ∷ []) log_in_order

-- A digest that keeps all of its input.
data Full : Type 0 where
  start : Full
  full : AuditInput → ℕ → Full → Full

dec_of : {A : Type 0} (b : Bool) → ((b ≡ true) ↔ A) → Dec A
dec_of true e = yes (e.0 refl)
dec_of false e = no (λ a. no_truth (e.1 a))
  where
    no_truth : false ≡ true → ⊥
    no_truth h = cc

String-discrete : Discrete String
String-discrete s t = dec_of (str_eq s t) (eq_iff s t)

Json-discrete : Discrete Json
Json-discrete = hlevel (ℕ_discrete, String-discrete)

Full-discrete : Discrete Full
Full-discrete = hlevel (ℕ_discrete, String-discrete, Json-discrete)

decided : {A : Type 0} → Dec A → Bool
decided (yes a) = true
decided (no n) = false

decided_iff : {A : Type 0} (c : Dec A) → (decided c ≡ true) ↔ A
unfolding decided
decided_iff (yes a) = (λ e. a, λ _. refl)
decided_iff (no n) = (λ e. absurd (no_truth e), λ a. absurd (n a))
  where
    no_truth : false ≡ true → ⊥
    no_truth e = cc

abbrev keeper : Digest Full
keeper = record {
  hash_entry = λ s. full s.input s.seq s.prev_hash;
  genesis = start;
  same = λ a b. decided (Full-discrete a b);
  same_iff = λ a b. decided_iff (Full-discrete a b);
}

keeper-CollisionFree : CollisionFree keeper
keeper-CollisionFree a b h = ground arith

abbrev kept_first : AuditEntry Full
kept_first = record {
  snapshot = record { input = note; seq = 0; prev_hash = start };
  hash = full note 0 start;
}

abbrev kept_second : AuditEntry Full
kept_second = record {
  snapshot = record { input = note; seq = 1; prev_hash = full note 0 start };
  hash = full note 1 (full note 0 start);
}

abbrev kept_head : AuditHead Full
kept_head = record { seq = 0; hash = full note 0 start; ts = "t"; count = 1 }

published_in_order : verify_audit_chain keeper (kept_first ∷ []) [] ≡ []
published_in_order =
    (verify_audit_chain_iff keeper (kept_first ∷ []) []).1 ((refl, refl, refl, tt), tt)

grown_in_order :
    verify_audit_chain keeper (kept_first ∷ kept_second ∷ []) (some kept_head ∷ []) ≡ []
unfolding hash_by_seq
grown_in_order =
    (verify_audit_chain_iff keeper (kept_first ∷ kept_second ∷ []) (some kept_head ∷ [])).1
      ((refl, refl, refl, (refl, refl, refl, tt)), (refl, tt))

published_head : head_of (kept_first ∷ []) ≡ some kept_head
unfolding head_of
published_head = refl

verify_audit_chain-prefix_example :
    (later : List (AuditEntry Full)) × (kept_first ∷ kept_second ∷ [] ≡ kept_first ∷ [] ++ later)
verify_audit_chain-prefix_example =
    verify_audit_chain-prefix keeper keeper-CollisionFree (kept_first ∷ [])
      (kept_first ∷ kept_second ∷ []) kept_head published_in_order published_head grown_in_order
