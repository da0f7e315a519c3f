-- ===== src/Engine/Claim/Ready.antt =====
-- What the loop of claimDueTask keeps from round to round: ids are unique, and the lease ids it will
-- draw are not in use, whatever other clients of the tables do between the rounds.
use mathlib.Core.Path.{subst}
use euroclaw.Storage.Table.{update}
use euroclaw.Engine.Store.{update_run}
use euroclaw.Storage.Table.{assign_one}
use euroclaw.Storage.Table.Keyed.{HasUniqueKeys-assign_one, with_key, find_key, HasUniqueKeys}
use euroclaw.Storage.Table.Rows.{All-filter_rows, All-sort_by, All-take, All-found}
use euroclaw.Engine.Model.{
  TaskStatus, lease_key, RuntimeTask, ClaimTaskInput, Tables, task_key, is_pending,
}
use euroclaw.Engine.Lease.Held.{HasUniqueIds, task_at, lease_at}
use euroclaw.Engine.Claim.{exhausted, bury, is_due, candidates}
use euroclaw.Prelude.{
  ℕ, suc, ◌≤◌, String, ◌≡◌, refl, sym, ap, ◌∙◌, true, none, some, arith, All, All-mono,
}

-- No lease has an id that the loop will draw.
unfoldable pub AreUnused : (ℕ → String × String) → Tables → Type 0
AreUnused fresh s = (i : ℕ) → lease_at (fresh i).0 s ≡ none

-- Other clients of the tables: they keep ids unique, and never use a lease id that this one draws.
pub record AreApart (fresh : ℕ → String × String) (others : ℕ → Tables → Tables) : Type 0 where
  pub keep_unique : (i : ℕ) (s : Tables) → HasUniqueIds s → HasUniqueIds (others i s)
  pub keep_unused :
      (i j : ℕ) (s : Tables)
      → lease_at (fresh j).0 s ≡ none
      → lease_at (fresh j).0 (others i s) ≡ none

pub AreApart-suc :
    (fresh : ℕ → String × String) (others : ℕ → Tables → Tables)
    → AreApart fresh others
    → AreApart (λ i. fresh (suc i)) (λ i. others (suc i))
AreApart-suc fresh others apart = record {
  keep_unique = λ i. apart.keep_unique (suc i);
  keep_unused = λ i j. apart.keep_unused (suc i) (suc j);
}

-- A candidate as `findMany` gave it: the row of its id in the tables it read, pending and due.
pub record IsDueIn (ts : ℕ) (seen : Tables) (c : RuntimeTask) : Type 0 where
  pub found : task_at c.id seen ≡ some c
  pub was_pending : c.status ≡ TaskStatus.pending
  pub was_due : c.due_at ≤ ts

candidate-IsDueIn :
    (ts : ℕ) (s : Tables) (c : RuntimeTask)
    → (task_at c.id s ≡ some c) × (is_due ts c ≡ true)
    → IsDueIn ts s c
candidate-IsDueIn ts s c h = record {
  found = h.0;
  was_pending = ground arith;
  was_due = ground arith;
}

pub candidates-AreDue :
    (ts : ℕ) (input : ClaimTaskInput) (s : Tables)
    → HasUniqueKeys task_key s.tasks
    → All (IsDueIn ts s) (candidates ts input s)
unfolding candidates
candidates-AreDue ts input s u = All-take _ _ _ (
    All-sort_by _ _ _ (
      All-mono _ _ (candidate-IsDueIn ts s) _
        (All-filter_rows _ (is_due ts) s.tasks (All-found task_key s.tasks u))))

-- What the loop keeps from round to round.
pub record IsReady (fresh : ℕ → String × String) (s : Tables) : Type 0 where
  pub unique : HasUniqueIds s
  pub unused : AreUnused fresh s

pub IsReady-others :
    (fresh : ℕ → String × String) (others : ℕ → Tables → Tables) (i : ℕ) (s : Tables)
    → AreApart fresh others
    → IsReady fresh s
    → IsReady fresh (others i s)
unfolding AreUnused
IsReady-others fresh others i s apart ready = record {
  unique = apart.keep_unique i s ready.unique;
  unused = λ j. apart.keep_unused i j s (ready.unused j);
}

pub bury-rows :
    (ts stamp : ℕ) (c : RuntimeTask) (s : Tables)
    → ((bury ts stamp c s).tasks
        ≡ assign_one (with_key task_key c.id is_pending) (exhausted ts) s.tasks)
      × ((bury ts stamp c s).leases ≡ s.leases)
unfolding bury update_run update
bury-rows ts stamp c s = (ground arith, ground arith)

pub IsReady-bury :
    (ts stamp : ℕ) (fresh : ℕ → String × String) (c : RuntimeTask) (s : Tables)
    → IsReady fresh s
    → IsReady (λ i. fresh (suc i)) (bury ts stamp c s)
unfolding AreUnused
IsReady-bury ts stamp fresh c s ready =
    let (tasks_are, leases_are) = bury-rows ts stamp c s in
    record {
      unique = (
        subst (HasUniqueKeys task_key) (sym tasks_are)
            (HasUniqueKeys-assign_one task_key (exhausted ts) (λ t. refl) _ s.tasks ready.unique.0),
        subst (HasUniqueKeys lease_key) (sym leases_are) ready.unique.1,
      );
      unused = λ i. ap (find_key lease_key (fresh (suc i)).0) leases_are ∙ ready.unused (suc i);
    }
