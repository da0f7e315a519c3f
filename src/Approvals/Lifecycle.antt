-- ===== src/Approvals/Lifecycle.antt =====
-- The life of an approval under packages/storage/durable/src/approval.ts: steps and reachability.
pub mod Steps
use euroclaw.Approvals.Lifecycle.Steps.{
  id_of, at, HasUniqueIds, consumes, Reach, here, next, Step-HasUniqueIds, Move, stays, approves,
  refuses, spends, Step-IsMoved,
}
use euroclaw.Storage.Table.{find_one, update, assign_one}
use euroclaw.Storage.Table.Keyed.{keep_if, find_one-with_key, find_key-assign_one}
use euroclaw.Approvals.{
  ApprovalStatus, pending, approved, denied, consumed, ApprovalRecord, Rows, is_approved,
  where_approved, spent, expired, consume,
}
use euroclaw.Prelude.{
  ℕ, ◌-◌, ◌≤◌, ◌<◌, String, ◌≡◌, refl, ap, ◌∙◌, ◌↔◌, ◌⊎◌, inl, inr, false, none, some, arith,
  eq_iff, Option-cases,
}

-- The request that the decision is about.
pub record SameRequest (r s : ApprovalRecord) : Type 0 where
  pub id : s.id ≡ r.id
  pub gate_id : s.gate_id ≡ r.gate_id
  pub tool_name : s.tool_name ≡ r.tool_name
  pub args : s.args ≡ r.args
  pub principal : s.principal ≡ r.principal
  pub reason_code : s.reason_code ≡ r.reason_code
  pub metadata : s.metadata ≡ r.metadata
  pub created_at : s.created_at ≡ r.created_at
  pub expires_at : s.expires_at ≡ r.expires_at

-- How far a status is along the life cycle.
abbrev pub rank : ApprovalStatus → ℕ
rank pending = 0
rank approved = 1
rank denied = 2
rank consumed = 2

-- What a later look at a record can find.
pub record IsLater (r s : ApprovalRecord) : Type 0 where
  pub request : SameRequest r s
  pub onward : rank r.status ≤ rank s.status
  pub ended : (rank r.status < 2) ⊎ (s.status ≡ r.status)

IsLater-Move : {r s t : ApprovalRecord} → IsLater r s → Move s t → IsLater r t
IsLater-Move l stays = l
IsLater-Move l (approves by e) = ground arith
IsLater-Move l (refuses by reason e) = ground arith
IsLater-Move l (spends e) = ground arith

IsLater-refl : (r : ApprovalRecord) → IsLater r r
IsLater-refl r = ground arith

Reach-HasUniqueIds : {rows new : Rows} → HasUniqueIds rows → Reach rows new → HasUniqueIds new
Reach-HasUniqueIds u here = u
Reach-HasUniqueIds u (next r st) = Step-HasUniqueIds st (Reach-HasUniqueIds u r)

-- Whatever operations come between, in whatever order: a record is still there under its id, stands
-- for the same request, has moved only onward (pending, then approved, then an end), and if it was
-- denied or consumed it has still that status.
pub Reach-IsLater :
    (k : String) (r : ApprovalRecord) {rows new : Rows}
    → HasUniqueIds rows
    → at k rows ≡ some r
    → Reach rows new
    → (s : ApprovalRecord) × (at k new ≡ some s) × IsLater r s
Reach-IsLater k r u e here = (r, e, IsLater-refl r)
Reach-IsLater k r u e (next reach st) =
    let (s, found, later) = Reach-IsLater k r u e reach in
    let m = Step-IsMoved k s st (Reach-HasUniqueIds u reach) found in
    (m.next_record, m.found, IsLater-Move later m.move)

consumes_none :
    (now : ℕ) (id : String) (rows : Rows) {r : ApprovalRecord}
    → find_one (where_approved id) rows ≡ none
    → (consume now id rows).0 ≡ some r
    → ⊥
unfolding consume
consumes_none now id rows e h = ground arith

consumed_parts :
    (now : ℕ) (id : String) (rows : Rows) (old r : ApprovalRecord)
    → find_one (where_approved id) rows ≡ keep_if is_approved (some old)
    → (consume now id rows).0 ≡ some r
    → (old.status ≡ approved) × (expired now old ≡ false) × (r ≡ spent old)
unfolding consume update
consumed_parts now id rows old r e h = ground arith

consumed_ready :
    (now : ℕ) (id : String) (rows : Rows) (old r : ApprovalRecord)
    → find_one (where_approved id) rows ≡ keep_if is_approved (some old)
    → old.status ≡ approved
    → expired now old ≡ false
    → r ≡ spent old
    → (consume now id rows).0 ≡ some r
unfolding consume update
consumed_ready now id rows old r e ready fresh same = ground arith

-- `consume` hands out a record exactly when the row of the id is approved and has not expired; the
-- record is that row with the status consumed.
pub consume_iff :
    (now : ℕ) (id : String) (rows : Rows) (r : ApprovalRecord)
    → HasUniqueIds rows
    → ((consume now id rows).0 ≡ some r) ↔ (
        (old : ApprovalRecord) × (at id rows ≡ some old)
        × (old.status ≡ approved)
        × (expired now old ≡ false)
        × (r ≡ spent old))
consume_iff now id rows r u =
    let row = find_one-with_key id_of id is_approved rows u in
    (
      λ h. elim (Option-cases (at id rows)) [
        | inl missing ↦
            absurd (consumes_none now id rows (row ∙ ap (keep_if is_approved) missing) h)
        | inr (old, found) ↦
            let (ready, fresh, same) =
              consumed_parts now id rows old r (row ∙ ap (keep_if is_approved) found) h in
            (old, found, ready, fresh, same)
      ],
      λ (old, found, ready, fresh, same).
          consumed_ready now id rows old r (row ∙ ap (keep_if is_approved) found) ready fresh same,
    )

consumed_rows :
    (now : ℕ) (id : String) (rows : Rows) (old : ApprovalRecord)
    → find_one (where_approved id) rows ≡ keep_if is_approved (some old)
    → old.status ≡ approved
    → expired now old ≡ false
    → (consume now id rows).1 ≡ assign_one (where_approved id) spent rows
unfolding consume update
consumed_rows now id rows old e ready fresh = ground arith

at-consumed :
    (now : ℕ) (id : String) (rows : Rows) (old : ApprovalRecord)
    → HasUniqueIds rows
    → at id rows ≡ some old
    → old.status ≡ approved
    → expired now old ≡ false
    → at id (consume now id rows).1 ≡ some (spent old)
at-consumed now id rows old u found ready fresh =
    let row = find_one-with_key id_of id is_approved rows u ∙ ap (keep_if is_approved) found in
    ap (at id) (consumed_rows now id rows old row ready fresh)
    ∙ ground
        (arith, find_key-assign_one id_of spent (λ r. refl) id id is_approved rows u, eq_iff id id)

consume_spent :
    (now : ℕ) (id : String) (rows : Rows) (s : ApprovalRecord)
    → find_one (where_approved id) rows ≡ keep_if is_approved (some s)
    → s.status ≡ consumed
    → consume now id rows ≡ (none, rows)
unfolding consume update
consume_spent now id rows s e ended = ground arith

spent_ended : (old s : ApprovalRecord) → IsLater (spent old) s → s.status ≡ consumed
spent_ended old s l = ground arith

-- An approval that was consumed is never consumed again, whatever operations come between.
pub consume_once :
    (now later : ℕ) (id : String) (rows after : Rows) (r : ApprovalRecord)
    → HasUniqueIds rows
    → (consume now id rows).0 ≡ some r
    → Reach (consume now id rows).1 after
    → consume later id after ≡ (none, after)
consume_once now later id rows after r u h reach =
    let (old, found, ready, fresh, same) = (consume_iff now id rows r u).0 h in
    let after_step = Step-HasUniqueIds (consumes now id) u in
    let (s, there, l) =
      Reach-IsLater id (spent old) after_step (at-consumed now id rows old u found ready fresh)
        reach in
    consume_spent later id after s
      (find_one-with_key id_of id is_approved after (Reach-HasUniqueIds after_step reach)
        ∙ ap (keep_if is_approved) there)
      (spent_ended old s l)
