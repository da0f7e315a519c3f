-- ===== src/Redaction/Redact/Resolved.antt =====
-- What the placeholders of a redacted text stand for.
use mathlib.Core.Path.{subst}
use mathlib.Core.List.{append_assoc}
use euroclaw.Base.Eff.{returned, >>=-eq-returned}
use euroclaw.Redaction.Distance.{Text}
use euroclaw.Redaction.Mappings.{PiiKind, PiiMapping, Mappings, Container, resolve}
use euroclaw.Redaction.Spans.{PiiSpan, clean_spans}
use euroclaw.Redaction.Redact.{
  Draw, Range, without_overlaps, drop, slice, place, redact_spans, redact_text,
}
use euroclaw.Redaction.Redact.Stored.{IsKept}
use euroclaw.Redaction.Redact.Placed.{AreFree, place_as-IsPlaced, returned_inj}
use euroclaw.Prelude.{
  ℕ, String, ◌≡◌, refl, sym, ap, ◌∙◌, Bool, Option, some, List, [], ◌∷◌, ◌++◌, map, length, All,
}

-- The text with its spans replaced, from `last` on.
unfoldable pub render : (String → Text) → Text → ℕ → List (PiiSpan × String) → Text
render units text last [] = drop last text
render units text last ((x, p) ∷ more) =
    slice last x.start text ++ (units p ++ render units text x.end more)

module _ (units : String → Text) (hash_of : PiiKind → String → Option String) (c : Container) where
  -- A text redacted over `spans`: it is the text with a placeholder for each of them, and in the store
  -- each placeholder resolves to what it replaced.
  pub record IsRedacted (text : Text) (spans : List PiiSpan) (last : ℕ) (rest : Text)
      (s s' : Mappings) : Type 0 where
    pub placed : List (PiiSpan × String)
    pub spans_are : map (λ (x : PiiSpan × String). x.0) placed ≡ spans
    pub text_is : rest ≡ render units text last placed
    pub resolves : All (λ (x : PiiSpan × String). resolve x.1 c s' ≡ some x.0.value) placed
    pub others : (q v : String) → resolve q c s ≡ some v → resolve q c s' ≡ some v
    pub kept : IsKept hash_of s'

module _ (units : String → Text) (valid : PiiMapping → Bool)
    (hash_of : PiiKind → String → Option String) (drawn : PiiSpan → Draw) (now : ℕ) (c : Container)
    (subjects : List String) where
  module _
      (same_hash : (k k' : PiiKind) (v v' hash : String)
        → hash_of k v ≡ some hash
        → hash_of k' v' ≡ some hash
        → v ≡ v') where
    redact_spans-IsRedacted :
        (text : Text) (spans : List PiiSpan) (out : Text) (last : ℕ) (r : Text) (s s' : Mappings)
        → IsKept hash_of s
        → AreFree units valid hash_of drawn now c subjects spans s
        → redact_spans units valid hash_of drawn now c subjects text spans out last s
          ≡ (returned r, s')
        → (rest : Text) × ((r ≡ out ++ rest) × IsRedacted units hash_of c text spans last rest s s')
    unfolding redact_spans render place
    redact_spans-IsRedacted text [] out last r s s' k free h = (
      drop last text,
      (
        sym (returned_inj (ap (λ x. x.0) h)),
        record {
          placed = [];
          spans_are = refl;
          text_is = refl;
          resolves = tt;
          others = λ q v was. subst (λ t. resolve q c t ≡ some v) (ap (λ x. x.1) h) was;
          kept = subst (IsKept hash_of) (ap (λ x. x.1) h) k;
        },
      ),
    )
    redact_spans-IsRedacted text (x ∷ xs) out last r s s' k free h =
        let (p, s1, did, after) =
          >>=-eq-returned (place units valid hash_of drawn now c subjects x) _ s h in
        let here =
          place_as-IsPlaced units valid hash_of drawn now c subjects same_hash x _ p s s1 k refl
            free.0 did in
        let (rest, (r_is, done)) =
          redact_spans-IsRedacted text xs (out ++ (slice last x.start text ++ units p)) x.end r s1
            s' here.kept
            (subst (AreFree units valid hash_of drawn now c subjects xs) (ap (λ y. y.1) did) free.1)
            after in
        (
          slice last x.start text ++ (units p ++ rest),
          (
            r_is
                ∙ (append_assoc out (slice last x.start text ++ units p) rest
                    ∙ ap (λ t. out ++ t) (append_assoc (slice last x.start text) (units p) rest)),
            record {
              placed = (x, p) ∷ done.placed;
              spans_are = ap (λ l. x ∷ l) done.spans_are;
              text_is = ap (λ t. slice last x.start text ++ (units p ++ t)) done.text_is;
              resolves = (done.others p x.value here.found, done.resolves);
              others = λ q v was. done.others q v (here.others q v was);
              kept = done.kept;
            },
          ),
        )

    -- Let the store hold no key twice and carry right hashes, let equal hashes mean equal values, and let
    -- each value of the run that has no mapping yet be given draws of which at least one, among the first
    -- 24 and the longer one behind them, names nothing in the container. When redactText returns, its text
    -- is the given one with a placeholder for each of the cleaned spans; in the container each of them
    -- resolves to the value that it replaced, and what resolved before resolves as before.
    pub redact_text-IsRedacted :
        (taken : List Range) (detected : List PiiSpan) (text r : Text) (s s' : Mappings)
        → IsKept hash_of s
        → AreFree units valid hash_of drawn now c subjects
            (clean_spans (length text) (without_overlaps taken detected))
            s
        → redact_text units valid hash_of drawn now c subjects taken detected text s
          ≡ (returned r, s')
        → IsRedacted units hash_of c text
            (clean_spans (length text) (without_overlaps taken detected))
            0
            r
            s
            s'
    unfolding redact_text
    redact_text-IsRedacted taken detected text r s s' k free h =
        let spans = clean_spans (length text) (without_overlaps taken detected) in
        let (rest, (r_is, done)) = redact_spans-IsRedacted text spans [] 0 r s s' k free h in
        subst (λ t. IsRedacted units hash_of c text spans 0 t s s') (sym r_is) done
