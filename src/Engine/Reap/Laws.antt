-- ===== src/Engine/Reap/Laws.antt =====
-- The tables after reapExpiredLeases.
use mathlib.Core.Path.{subst}
use euroclaw.Storage.Table.{filter_rows, update, delete_one, consume_one}
use euroclaw.Storage.Table.Keyed.{
  with_key, find_key, HasUniqueKeys, find_key-delete_one, HasUniqueKeys-assign_one,
  HasUniqueKeys-delete_one, find-delete_absent,
}
use euroclaw.Engine.Model.{RuntimeTask, LeaseRecord, Tables, task_key, lease_key, is_expired}
use euroclaw.Engine.Store.{given_up, update_run}
use euroclaw.Engine.Reap.{
  reap_expired_leases, settle_run, reap_task, reap_taken, reap_one, reap_all,
}
use euroclaw.Engine.Lease.Held.{HasUniqueIds, lease_at}
use euroclaw.Prelude.{
  ℕ, suc, ◌<◌, String, ◌≡◌, refl, sym, ap, ◌∙◌, true, false, Option, none, some, List, [], ◌∷◌,
  arith, str_eq, any,
}

pub settle_run-tasks :
    (stamp : ℕ) (task : RuntimeTask) (row : Option RuntimeTask) (s : Tables)
    → ((settle_run stamp task row s).tasks ≡ s.tasks)
      × ((settle_run stamp task row s).leases ≡ s.leases)
unfolding update_run update
settle_run-tasks stamp task none s = (refl, refl)
settle_run-tasks stamp task (some row) s = (ground arith, ground arith)

reap_task-leases :
    (ts stamp : ℕ) (lease : LeaseRecord) (found : Option RuntimeTask) (s : Tables)
    → (reap_task ts stamp lease found s).1.leases ≡ s.leases
reap_task-leases ts stamp lease none s = refl
reap_task-leases ts stamp lease (some task) s = (settle_run-tasks stamp task _ _).1

reap_task_unique :
    (ts stamp : ℕ) (lease : LeaseRecord) (found : Option RuntimeTask) (s : Tables)
    → HasUniqueKeys task_key s.tasks
    → HasUniqueKeys task_key (reap_task ts stamp lease found s).1.tasks
unfolding update
reap_task_unique ts stamp lease none s u = u
reap_task_unique ts stamp lease (some task) s u =
    subst (HasUniqueKeys task_key) (sym (settle_run-tasks stamp task _ _).0)
      (HasUniqueKeys-assign_one task_key (given_up "lease expired" ts task) (λ t. refl) _ s.tasks u)

reap_taken-leases :
    (ts stamp : ℕ) (taken : Option LeaseRecord) (s : Tables)
    → (reap_taken ts stamp taken s).1.leases ≡ s.leases
reap_taken-leases ts stamp none s = refl
reap_taken-leases ts stamp (some lease) s = reap_task-leases ts stamp lease _ s

reap_taken_unique :
    (ts stamp : ℕ) (taken : Option LeaseRecord) (s : Tables)
    → HasUniqueKeys task_key s.tasks
    → HasUniqueKeys task_key (reap_taken ts stamp taken s).1.tasks
reap_taken_unique ts stamp none s u = u
reap_taken_unique ts stamp (some lease) s u = reap_task_unique ts stamp lease _ s u

-- A round takes away the candidate's lease and no other.
reap_one-leases :
    (ts stamp : ℕ) (c : LeaseRecord) (s : Tables)
    → (reap_one ts stamp c s).1.leases
      ≡ delete_one (with_key lease_key c.id (is_expired ts)) s.leases
unfolding reap_one consume_one
reap_one-leases ts stamp c s = reap_taken-leases ts stamp _ _

reap_one-HasUniqueIds :
    (ts stamp : ℕ) (c : LeaseRecord) (s : Tables)
    → HasUniqueIds s
    → HasUniqueIds (reap_one ts stamp c s).1
unfolding reap_one consume_one
reap_one-HasUniqueIds ts stamp c s u = (
  reap_taken_unique ts stamp _ _ u.0,
  subst (HasUniqueKeys lease_key) (sym (reap_taken-leases ts stamp _ _))
      (HasUniqueKeys-delete_one lease_key _ s.leases u.1),
)

pub reap_all-HasUniqueIds :
    (ts : ℕ) (clock : ℕ → ℕ) (cs : List LeaseRecord) (s : Tables)
    → HasUniqueIds s
    → HasUniqueIds (reap_all ts clock cs s).1
unfolding reap_all
reap_all-HasUniqueIds ts clock [] s u = u
reap_all-HasUniqueIds ts clock (c ∷ cs) s u =
    reap_all-HasUniqueIds ts (λ i. clock (suc i)) cs _ (reap_one-HasUniqueIds ts (clock 0) c s u)

-- Reaping adds no lease.
pub reap_all-absent :
    (k : String) (ts : ℕ) (clock : ℕ → ℕ) (cs : List LeaseRecord) (s : Tables)
    → lease_at k s ≡ none
    → lease_at k (reap_all ts clock cs s).1 ≡ none
unfolding reap_all
reap_all-absent k ts clock [] s h = h
reap_all-absent k ts clock (c ∷ cs) s h =
    reap_all-absent k ts (λ i. clock (suc i)) cs _
      (ap (find_key lease_key k) (reap_one-leases ts (clock 0) c s)
        ∙ find-delete_absent lease_key k _ s.leases h)

-- The rounds still to come will meet every lease that has expired.
AreListed : ℕ → List LeaseRecord → List LeaseRecord → Type 0
AreListed ts cs leases =
    (k : String) (l : LeaseRecord)
    → find_key lease_key k leases ≡ some l
    → is_expired ts l ≡ true
    → any (λ c. str_eq c.id k) cs ≡ true

AreListed-delete_one :
    (ts : ℕ) (c : LeaseRecord) (cs leases : List LeaseRecord)
    → HasUniqueKeys lease_key leases
    → AreListed ts (c ∷ cs) leases
    → AreListed ts cs (delete_one (with_key lease_key c.id (is_expired ts)) leases)
unfolding AreListed
AreListed-delete_one ts c cs leases u listed k l found expired =
    ground (arith, find_key-delete_one lease_key k c.id (is_expired ts) leases u, listed k l)

AreListed-filter_rows :
    (ts : ℕ) (leases : List LeaseRecord) → AreListed ts (filter_rows (is_expired ts) leases) leases
unfolding AreListed filter_rows find_key
AreListed-filter_rows ts [] k l found expired = ground arith
AreListed-filter_rows ts (r ∷ rs) k l found expired =
    ground (arith, AreListed-filter_rows ts rs k l)

AreFresh : ℕ → Tables → Type 0
AreFresh ts s = (k : String) (l : LeaseRecord) → lease_at k s ≡ some l → is_expired ts l ≡ false

reap_all-fresh :
    (ts : ℕ) (clock : ℕ → ℕ) (cs : List LeaseRecord) (s : Tables)
    → HasUniqueIds s
    → AreListed ts cs s.leases
    → AreFresh ts (reap_all ts clock cs s).1
unfolding reap_all AreListed AreFresh
reap_all-fresh ts clock [] s u listed = λ k l found. ground (arith, listed k l)
reap_all-fresh ts clock (c ∷ cs) s u listed =
    reap_all-fresh ts (λ i. clock (suc i)) cs _ (reap_one-HasUniqueIds ts (clock 0) c s u)
      (subst (AreListed ts cs) (sym (reap_one-leases ts (clock 0) c s))
        (AreListed-delete_one ts c cs s.leases u.1 listed))

-- After `reapExpiredLeases`, where ids are unique, every lease in the table expires later than the
-- time it read, and ids are still unique.
pub reap_expired_leases-fresh :
    (ts : ℕ) (clock : ℕ → ℕ) (s : Tables)
    → HasUniqueIds s
    → HasUniqueIds (reap_expired_leases ts clock s).1
      × ((k : String) (l : LeaseRecord)
          → lease_at k (reap_expired_leases ts clock s).1 ≡ some l
          → ts < l.expires_at)
unfolding reap_expired_leases AreFresh
reap_expired_leases-fresh ts clock s u = (
  reap_all-HasUniqueIds ts clock (filter_rows (is_expired ts) s.leases) s u,
  λ k l found. ground (
    arith,
    reap_all-fresh ts clock (filter_rows (is_expired ts) s.leases) s u
        (AreListed-filter_rows ts s.leases) k l found,
  ),
)
