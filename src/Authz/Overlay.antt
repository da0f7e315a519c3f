-- ===== src/Authz/Overlay.antt =====
-- A customer's overrides of the facts of actions: mergeFactsOverlay of
-- packages/foundation/authz/src/overlay.ts on the inputs of packages/foundation/authz/src/build.ts. `parse`
-- is the schema of an entry; the fields of a tool's governance that are no facts are one value.
pub mod Entries
pub mod Reported
use euroclaw.Base.Eff.{Result, returned, thrown, validation_error, configuration_error}
use euroclaw.Json.{Json}
use euroclaw.Prelude.{
  ◌+◌, String, Bool, true, false, ◌&&◌, ◌||◌, Option, none, some, List, [], ◌∷◌, ◌++◌, str_eq,
  if◌then◌else◌,
}

pub data ActionAccess : Type 0 where
  read write : ActionAccess

pub data ActionSource : Type 0 where
  tool domain api : ActionSource

pub record Facts : Type 0 where
  pub access : Option ActionAccess
  pub groups : Option (List String)
  pub resource : Option String
  pub audit : Option Bool

pub record ToolGovernance (Rest : Type 0) : Type 0 where
  pub rest : Option Rest
  pub facts : Facts

pub record AuthzActionInput (Rest : Type 0) : Type 0 where
  pub id : String
  pub source : ActionSource
  pub governance : Option (ToolGovernance Rest)
  pub args : Option Json

pub record FactsOverlayEntry : Type 0 where
  pub action_id : String
  pub facts : Facts

pub record Loosening : Type 0 where
  pub action_id : String
  pub from : ActionAccess
  pub to : ActionAccess

pub record OverlayMergeResult (Rest : Type 0) : Type 0 where
  pub inputs : List (AuthzActionInput Rest)
  pub loosenings : List Loosening
  pub unmatched : List String

-- a later key of a spread, where it is there
abbrev pub over : {A : Type 0} → Option A → Option A → Option A
over old none = old
over old (some new) = some new

unfoldable pub override_facts : Facts → Facts → Facts
override_facts old new = record {
  access = over old.access new.access;
  groups = over old.groups new.groups;
  resource = over old.resource new.resource;
  audit = over old.audit new.audit;
}

abbrev pub no_facts : Facts
no_facts = record { access = none; groups = none; resource = none; audit = none }

-- `byAction.get`
unfoldable pub find_entry : String → List FactsOverlayEntry → Option FactsOverlayEntry
find_entry id [] = none
find_entry id (e ∷ es) = if str_eq e.action_id id then some e else find_entry id es

abbrev pub is_some : {A : Type 0} → Option A → Bool
is_some none = false
is_some (some a) = true

module _ {Raw : Type 0} (parse : Raw → Option FactsOverlayEntry) where
  -- The loop that fills `byAction`.
  unfoldable pub collect : List Raw → List FactsOverlayEntry → Result (List FactsOverlayEntry)
  unfolding find_entry
  collect [] by_action = returned by_action
  collect (raw ∷ raws) by_action = elim (parse raw) [
    | none ↦ thrown (validation_error "facts overlay entry invalid")
    | some e ↦
        let rest = collect raws (by_action ++ e ∷ []) in
        if is_some (find_entry e.action_id by_action)
        then thrown (configuration_error "facts overlay has a duplicate override")
        else rest
  ]

abbrev pub access_or_write : Option ActionAccess → ActionAccess
access_or_write none = write
access_or_write (some a) = a

abbrev pub loosening : String → ActionAccess → Option ActionAccess → List Loosening
loosening id write (some read) = record { action_id = id; from = write; to = read } ∷ []
loosening id _ _ = []

unfoldable pub unmatched_of : List FactsOverlayEntry → (String → Bool) → List String
unmatched_of [] hit = []
unmatched_of (e ∷ es) hit =
    let rest = unmatched_of es hit in if hit e.action_id then rest else e.action_id ∷ rest

module _ {Rest : Type 0} where
  abbrev pub facts_of : Option (ToolGovernance Rest) → Facts
  facts_of none = no_facts
  facts_of (some g) = g.facts

  abbrev pub rest_of : Option (ToolGovernance Rest) → Option Rest
  rest_of none = none
  rest_of (some g) = g.rest

  -- `{ ...input.governance, ...facts }`
  abbrev pub governed_by : Option (ToolGovernance Rest) → Facts → ToolGovernance Rest
  governed_by g new = record { rest = rest_of g; facts = override_facts (facts_of g) new }

  -- `input.governance?.access ?? "write"`
  abbrev pub access_of : AuthzActionInput Rest → ActionAccess
  access_of input = access_or_write (facts_of input.governance).access

  abbrev pub merge_entry : AuthzActionInput Rest → Option FactsOverlayEntry → AuthzActionInput Rest
  merge_entry input none = input
  merge_entry input (some e) = record input {
    governance = some (governed_by input.governance e.facts);
  }

  abbrev pub loosened_by : AuthzActionInput Rest → Option FactsOverlayEntry → List Loosening
  loosened_by input none = []
  loosened_by input (some e) = loosening input.id (access_of input) e.facts.access

  unfoldable pub merge_inputs :
      List FactsOverlayEntry → List (AuthzActionInput Rest) → List (AuthzActionInput Rest)
  merge_inputs by_action [] = []
  merge_inputs by_action (i ∷ is) =
      merge_entry i (find_entry i.id by_action) ∷ merge_inputs by_action is

  unfoldable pub loosenings_of :
      List FactsOverlayEntry → List (AuthzActionInput Rest) → List Loosening
  loosenings_of by_action [] = []
  loosenings_of by_action (i ∷ is) =
      loosened_by i (find_entry i.id by_action) ++ loosenings_of by_action is

  -- `matched.has`: some input with an entry has this id
  unfoldable pub matched : List FactsOverlayEntry → List (AuthzActionInput Rest) → String → Bool
  matched by_action [] id = false
  matched by_action (i ∷ is) id =
      (is_some (find_entry i.id by_action) && str_eq i.id id) || matched by_action is id

  abbrev pub merge_result :
      List (AuthzActionInput Rest)
      → Result (List FactsOverlayEntry)
      → Result (OverlayMergeResult Rest)
  merge_result inputs (thrown e) = thrown e
  merge_result inputs (returned by_action) = returned (record {
    inputs = merge_inputs by_action inputs;
    loosenings = loosenings_of by_action inputs;
    unmatched = unmatched_of by_action (matched by_action inputs);
  })

  unfoldable pub merge_facts_overlay :
      {Raw : Type 0}
      → (Raw → Option FactsOverlayEntry)
      → List (AuthzActionInput Rest)
      → List Raw
      → Result (OverlayMergeResult Rest)
  unfolding collect merge_inputs loosenings_of unmatched_of matched
  merge_facts_overlay parse inputs overlay = merge_result inputs (collect parse overlay [])
