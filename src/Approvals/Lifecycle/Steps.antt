-- ===== src/Approvals/Lifecycle/Steps.antt =====
-- The steps of the approval store, packages/storage/durable/src/approval.ts, and how they move a record.
use mathlib.Core.Path.{subst}
use euroclaw.Storage.Table.{create, update, assign_one}
use euroclaw.Storage.Table.Keyed.{
  with_key, find_key, HasUniqueKeys, find_key-create, find_key-assign_one, HasUniqueKeys-assign_one,
  HasUniqueKeys-create,
}
use euroclaw.Approvals.{
  pending, approved, ApprovalRecord, NewApproval, Rows, is_pending, is_approved, where_approved,
  opened, granted, refused, spent, create_approval, grant, deny, consume,
}
use euroclaw.Prelude.{
  ℕ, String, ◌≡◌, refl, sym, ◌∙◌, ◌⊎◌, inl, inr, Bool, true, ◌&&◌, Option, none, some, arith,
  str_eq, Bool-cases, and-eq-true,
}

abbrev pub id_of : ApprovalRecord → String
id_of r = r.id

abbrev pub at : String → Rows → Option ApprovalRecord
at = find_key id_of

abbrev pub HasUniqueIds : Rows → Type 0
HasUniqueIds = HasUniqueKeys id_of

-- One operation on the table, by whoever makes it: an attempt to create under an id that is not in use, a
-- decision, or an attempt to consume.
pub data Step (rows : Rows) : Rows → Type 0 where
  creates :
      (well_formed : String → Bool) (id : String) (input : NewApproval)
      → at id rows ≡ none
      → Step rows (create_approval well_formed id input rows).1
  grants : (id by : String) → Step rows (grant id by rows).1
  denies : (id by : String) (reason : Option String) → Step rows (deny id by reason rows).1
  consumes : (now : ℕ) (id : String) → Step rows (consume now id rows).1

pub data Reach (rows : Rows) : Rows → Type 0 where
  here : Reach rows rows
  next : {mid last : Rows} → Reach rows mid → Step mid last → Reach rows last

pub consume-rows :
    (now : ℕ) (id : String) (rows : Rows)
    → ((consume now id rows).1 ≡ rows)
      ⊎ ((consume now id rows).1 ≡ assign_one (where_approved id) spent rows)
unfolding consume update
consume-rows now id rows = ground arith

create_approval-rows :
    (well_formed : String → Bool) (id : String) (input : NewApproval) (rows : Rows)
    → ((create_approval well_formed id input rows).1 ≡ rows)
      ⊎ ((create_approval well_formed id input rows).1 ≡ create (opened id input) rows)
unfolding create_approval
create_approval-rows well_formed id input rows = ground arith

-- No operation gives two rows one id.
pub Step-HasUniqueIds : {rows new : Rows} → Step rows new → HasUniqueIds rows → HasUniqueIds new
unfolding grant deny update
Step-HasUniqueIds {rows} (creates well_formed id input fresh) u =
    elim (create_approval-rows well_formed id input rows) [
      | inl same ↦ rw same u
      | inr added ↦ rw added (HasUniqueKeys-create id_of (opened id input) rows u fresh)
    ]
Step-HasUniqueIds {rows} (grants id by) u =
    HasUniqueKeys-assign_one id_of (granted by) (λ r. refl) _ rows u
Step-HasUniqueIds {rows} (denies id by reason) u =
    HasUniqueKeys-assign_one id_of (refused by reason) (λ r. refl) _ rows u
Step-HasUniqueIds {rows} (consumes now id) u = elim (consume-rows now id rows) [
  | inl same ↦ rw same u
  | inr changed ↦ rw changed (HasUniqueKeys-assign_one id_of spent (λ r. refl) _ rows u)
]

-- The moves that a record may make: along the edges of the life cycle, with the request it stands
-- for unchanged.
pub data Move (r : ApprovalRecord) : ApprovalRecord → Type 0 where
  stays : Move r r
  approves : (by : String) → r.status ≡ pending → Move r (granted by r)
  refuses :
      (by : String) (reason : Option String) → r.status ≡ pending → Move r (refused by reason r)
  spends : r.status ≡ approved → Move r (spent r)

-- What a step does to the record of one id.
pub record IsMoved (k : String) (old new : Rows) (r : ApprovalRecord) : Type 0 where
  pub next_record : ApprovalRecord
  pub found : at k new ≡ some next_record
  pub move : Move r next_record

assign-IsMoved :
    (k j : String) (p : ApprovalRecord → Bool) (f : ApprovalRecord → ApprovalRecord) (rows : Rows)
    (r : ApprovalRecord) (keeps : (r : ApprovalRecord) → (f r).id ≡ r.id)
    → HasUniqueIds rows
    → at k rows ≡ some r
    → (p r ≡ true → Move r (f r))
    → IsMoved k rows (assign_one (with_key id_of j p) f rows) r
assign-IsMoved k j p f rows r keeps u e moves = elim (Bool-cases (str_eq j k && p r)) [
  | inl hit ↦ record {
    next_record = f r;
    found = ground (arith, find_key-assign_one id_of f keeps k j p rows u);
    move = moves (and-eq-true (str_eq j k) (p r) hit).1;
  }
  | inr miss ↦ record {
    next_record = r;
    found = ground (arith, find_key-assign_one id_of f keeps k j p rows u);
    move = stays;
  }
]

pending_of : (r : ApprovalRecord) → is_pending r ≡ true → r.status ≡ pending
pending_of r h = ground arith

approved_of : (r : ApprovalRecord) → is_approved r ≡ true → r.status ≡ approved
approved_of r h = ground arith

-- Every operation moves every record along the life cycle.
pub Step-IsMoved :
    (k : String) (r : ApprovalRecord) {rows new : Rows}
    → Step rows new
    → HasUniqueIds rows
    → at k rows ≡ some r
    → IsMoved k rows new r
unfolding grant deny update
Step-IsMoved k r {rows} (creates well_formed id input fresh) u e =
    elim (create_approval-rows well_formed id input rows) [
      | inl same ↦ record { next_record = r; found = rw same e; move = stays }
      | inr added ↦ record {
        next_record = r;
        found = rw added (find_key-create id_of k (opened id input) rows ∙ rw e);
        move = stays;
      }
    ]
Step-IsMoved k r {rows} (grants id by) u e =
    assign-IsMoved k id is_pending (granted by) rows r (λ r. refl) u e
      (λ h. approves by (pending_of r h))
Step-IsMoved k r {rows} (denies id by reason) u e =
    assign-IsMoved k id is_pending (refused by reason) rows r (λ r. refl) u e
      (λ h. refuses by reason (pending_of r h))
Step-IsMoved k r {rows} (consumes now id) u e = elim (consume-rows now id rows) [
  | inl same ↦ record { next_record = r; found = rw same e; move = stays }
  | inr changed ↦
      subst (λ x. IsMoved k rows x r) (sym changed)
        (assign-IsMoved k id is_approved spent rows r (λ r. refl) u e
          (λ h. spends (approved_of r h)))
]
