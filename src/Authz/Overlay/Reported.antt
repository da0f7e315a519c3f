-- ===== src/Authz/Overlay/Reported.antt =====
-- What a merged overlay reports and applies.
use mathlib.Core.Path.{subst}
use euroclaw.Base.Eff.{Result, returned, thrown, thrown-ne-returned}
use euroclaw.Authz.Overlay.{
  ActionAccess, read, write, rest_of, FactsOverlayEntry, AuthzActionInput, Loosening,
  OverlayMergeResult, over, override_facts, find_entry, collect, facts_of, access_or_write,
  access_of, loosening, merge_entry, loosened_by, merge_inputs, loosenings_of, matched,
  unmatched_of, merge_result, merge_facts_overlay,
}
use euroclaw.Authz.Overlay.Entries.{
  IsIn, IsIn-left, IsIn-right, IsIn-cons, find_entry-unmatched_of, IsCollected, collect-IsCollected,
}
use euroclaw.Prelude.{
  String, ◌≡◌, refl, ap, ◌∙◌, ◌⊎◌, inl, inr, true, Option, none, some, List, [], ◌∷◌, arith, str_eq,
  sym, some_inj, eq_iff, Bool-cases, All, All-mono,
}

-- Two lists of the same length, related item by item.
abbrev pub Pointwise : {A B : Type 0} → (A → B → Type 0) → List A → List B → Type 0
Pointwise R [] [] = Unit
Pointwise R (x ∷ xs) (y ∷ ys) = R x y × Pointwise R xs ys
Pointwise R _ _ = ⊥

abbrev pub loosened : String → Loosening
loosened id = record { action_id = id; from = write; to = read }

over-access :
    (id : String) (old new : Option ActionAccess)
    → (access_or_write (over old new) ≡ write)
      ⊎ ((access_or_write old ≡ read) ⊎ IsIn (loosened id) (loosening id (access_or_write old) new))
over-access id none none = inl refl
over-access id none (some read) = inr (inr ([], [], refl))
over-access id none (some write) = inl refl
over-access id (some read) new = inr (inl refl)
over-access id (some write) none = inl refl
over-access id (some write) (some read) = inr (inr ([], [], refl))
over-access id (some write) (some write) = inl refl

-- One fact of an action: what the entry says of it, and the former one where it says nothing.
abbrev pub IsOverridden : {A : Type 0} → Option A → Option A → Option A → Type 0
IsOverridden said former got =
    ((said ≡ none) × (got ≡ former)) ⊎ ((v : _) × ((said ≡ some v) × (got ≡ some v)))

over-IsOverridden :
    {A : Type 0} (former said : Option A) → IsOverridden said former (over former said)
over-IsOverridden former none = inl (refl, refl)
over-IsOverridden former (some v) = inr (v, (refl, refl))

module _ {Rest : Type 0} where
  -- An action before and after the merge: it is a read afterwards only if it was one, or if that is
  -- reported.
  abbrev pub IsOpen : List Loosening → AuthzActionInput Rest → AuthzActionInput Rest → Type 0
  IsOpen loosenings before after =
      (after.id ≡ before.id)
      × ((access_of after ≡ write)
          ⊎ ((access_of before ≡ read) ⊎ IsIn (loosened before.id) loosenings))

  -- The facts of an entry stand over those of a given action of its id, each fact on its own, and
  -- nothing else of that action is another.
  pub record IsApplied (e : FactsOverlayEntry) (before after : List (AuthzActionInput Rest))
      : Type 0 where
    pub given : AuthzActionInput Rest
    pub action : AuthzActionInput Rest
    pub was_in : IsIn given before
    pub is_in : IsIn action after
    pub same_id : action.id ≡ e.action_id
    pub given_id : given.id ≡ e.action_id
    pub same_source : action.source ≡ given.source
    pub same_args : action.args ≡ given.args
    pub same_rest : rest_of action.governance ≡ rest_of given.governance
    pub access :
        IsOverridden e.facts.access
          (facts_of given.governance).access
          (facts_of action.governance).access
    pub groups :
        IsOverridden e.facts.groups
          (facts_of given.governance).groups
          (facts_of action.governance).groups
    pub resource :
        IsOverridden e.facts.resource
          (facts_of given.governance).resource
          (facts_of action.governance).resource
    pub audit :
        IsOverridden e.facts.audit
          (facts_of given.governance).audit
          (facts_of action.governance).audit

  merge_entry-IsApplied :
      (i : AuthzActionInput Rest) (e : FactsOverlayEntry) (o : Option FactsOverlayEntry)
      (before after : List (AuthzActionInput Rest))
      → i.id ≡ e.action_id
      → o ≡ some e
      → IsIn i before
      → IsIn (merge_entry i o) after
      → IsApplied e before after
  unfolding override_facts
  merge_entry-IsApplied i e none before after same is was now = ground arith
  merge_entry-IsApplied i e (some e') before after same is was now =
      subst (λ x. IsApplied x before after) (some_inj is)
        (record {
          given = i;
          action = merge_entry i (some e');
          was_in = was;
          is_in = now;
          same_id = same ∙ sym (ap (λ (x : FactsOverlayEntry). x.action_id) (some_inj is));
          given_id = same ∙ sym (ap (λ (x : FactsOverlayEntry). x.action_id) (some_inj is));
          same_source = refl;
          same_args = refl;
          same_rest = refl;
          access = over-IsOverridden (facts_of i.governance).access e'.facts.access;
          groups = over-IsOverridden (facts_of i.governance).groups e'.facts.groups;
          resource = over-IsOverridden (facts_of i.governance).resource e'.facts.resource;
          audit = over-IsOverridden (facts_of i.governance).audit e'.facts.audit;
        })

  merge_entry-IsOpen :
      (i : AuthzActionInput Rest) (o : Option FactsOverlayEntry)
      → IsOpen (loosened_by i o) i (merge_entry i o)
  unfolding override_facts
  merge_entry-IsOpen i none = (refl, access-cases (access_of i) refl)
    where
      access-cases :
          (a : ActionAccess)
          → access_of i ≡ a
          → (access_of i ≡ write) ⊎ ((access_of i ≡ read) ⊎ IsIn (loosened i.id) [])
      access-cases read e = inr (inl e)
      access-cases write e = inl e
  merge_entry-IsOpen i (some e) =
      (refl, over-access i.id (facts_of i.governance).access e.facts.access)

  Pointwise-merge_inputs :
      (by_action : List FactsOverlayEntry) (is : List (AuthzActionInput Rest))
      (report : List Loosening)
      → ((l : Loosening) → IsIn l (loosenings_of by_action is) → IsIn l report)
      → Pointwise (IsOpen report) is (merge_inputs by_action is)
  unfolding merge_inputs loosenings_of
  Pointwise-merge_inputs by_action [] report up = tt
  Pointwise-merge_inputs by_action (i ∷ is) report up =
      let here = loosened_by i (find_entry i.id by_action) in
      let (same, out) = merge_entry-IsOpen i (find_entry i.id by_action) in
      (
        (
          same,
          elim out [
            | inl kept ↦ inl kept
            | inr (inl was) ↦ inr (inl was)
            | inr (inr reported) ↦
                inr (inr (up (loosened i.id) (IsIn-left (loosened i.id) here _ reported)))
          ],
        ),
        Pointwise-merge_inputs by_action is report (λ l h. up l (IsIn-right l here _ h)),
      )

  IsApplied-cons :
      (e : FactsOverlayEntry) (i j : AuthzActionInput Rest)
      (before after : List (AuthzActionInput Rest))
      → IsApplied e before after
      → IsApplied e (i ∷ before) (j ∷ after)
  IsApplied-cons e i j before after rest = record {
    given = rest.given;
    action = rest.action;
    was_in = IsIn-cons rest.given _ _ rest.was_in;
    is_in = IsIn-cons rest.action _ _ rest.is_in;
    same_id = rest.same_id;
    given_id = rest.given_id;
    same_source = rest.same_source;
    same_args = rest.same_args;
    same_rest = rest.same_rest;
    access = rest.access;
    groups = rest.groups;
    resource = rest.resource;
    audit = rest.audit;
  }

  matched-IsApplied :
      (by_action : List FactsOverlayEntry) (is : List (AuthzActionInput Rest))
      (e : FactsOverlayEntry)
      → find_entry e.action_id by_action ≡ some e
      → matched by_action is e.action_id ≡ true
      → IsApplied e is (merge_inputs by_action is)
  unfolding matched merge_inputs
  matched-IsApplied by_action [] e found h = ground arith
  matched-IsApplied by_action (i ∷ is) e found h = elim (Bool-cases (str_eq i.id e.action_id)) [
    | inl hit ↦
        let same = (eq_iff i.id e.action_id).0 hit in
        merge_entry-IsApplied i e (find_entry i.id by_action) _ _ same
          (ap (λ id. find_entry id by_action) same ∙ found) ([], is, refl)
          ([], merge_inputs by_action is, refl)
    | inr other ↦
        IsApplied-cons e i _ is _
          (matched-IsApplied by_action is e found (ground (arith, h, other)))
  ]

  -- What a merge comes to.
  pub record IsMerged {Raw : Type 0} (parse : Raw → Option FactsOverlayEntry)
      (inputs : List (AuthzActionInput Rest)) (overlay : List Raw) (r : OverlayMergeResult Rest)
      : Type 0 where
    pub none_silent : Pointwise (IsOpen r.loosenings) inputs r.inputs
    pub none_lost :
        All
          (λ raw.
            (e : FactsOverlayEntry) × ((parse raw ≡ some e)
              × (IsApplied e inputs r.inputs ⊎ IsIn e.action_id r.unmatched)))
          overlay

  -- When the merge returns: the actions are the given ones in their order, none of them has become a read
  -- without a report among the loosenings, and every entry of the overlay is well formed and is reported as
  -- unmatched or has its facts on a given action of its id: each fact the entry names has the entry's
  -- value, each other one its former value, and the rest of the action is as it was.
  pub merge_facts_overlay-IsMerged :
      {Raw : Type 0} (parse : Raw → Option FactsOverlayEntry)
      (inputs : List (AuthzActionInput Rest)) (overlay : List Raw) (r : OverlayMergeResult Rest)
      → merge_facts_overlay parse inputs overlay ≡ returned r
      → IsMerged parse inputs overlay r
  unfolding merge_facts_overlay
  merge_facts_overlay-IsMerged {Raw} parse inputs overlay r h =
      from (collect parse overlay []) refl h
    where
      returned_inj :
          {a b : OverlayMergeResult Rest}
          → ◌≡◌ {A = Result (OverlayMergeResult Rest)} (returned a) (returned b)
          → a ≡ b
      returned_inj h = cc

      placed :
          (by_action : List FactsOverlayEntry) (raw : Raw)
          → IsCollected parse by_action raw
          → (e : FactsOverlayEntry) × ((parse raw ≡ some e)
              × (IsApplied e inputs (merge_inputs by_action inputs)
                  ⊎ IsIn e.action_id (unmatched_of by_action (matched by_action inputs))))
      placed by_action raw (e, (parsed, found)) = (
        e,
        (
          parsed,
          elim (Bool-cases (matched by_action inputs e.action_id)) [
            | inl hit ↦ inl (matched-IsApplied by_action inputs e found hit)
            | inr miss ↦ inr (find_entry-unmatched_of e.action_id by_action e _ found miss)
          ],
        ),
      )

      from :
          (c : Result (List FactsOverlayEntry))
          → collect parse overlay [] ≡ c
          → merge_result inputs c ≡ returned r
          → IsMerged parse inputs overlay r
      from (thrown e) is h = absurd (thrown-ne-returned h)
      from (returned by_action) is h =
          subst (IsMerged parse inputs overlay) (returned_inj h) (record {
            none_silent = Pointwise-merge_inputs by_action inputs _ (λ l there. there);
            none_lost =
                All-mono _ _ (placed by_action) overlay
                  (collect-IsCollected parse overlay [] by_action is);
          })
