-- ===== src/Engine/Lease/Passing.antt =====
-- The writes of the queue pass over a task that is neither pending nor leased.
use mathlib.Core.Path.{subst}
use euroclaw.Json.{Json}
use euroclaw.Storage.Table.{find_one, update, assign_one, consume_one}
use euroclaw.Storage.Table.Keyed.{with_key}
use euroclaw.Engine.Model.{
  or_default, default_lease_ttl_ms, RuntimeTask, LeaseRecord, Tables, ClaimTaskInput, is_pending,
  task_key, lease_key, held_by,
}
use euroclaw.Engine.Store.{any_row, given_up, update_run}
use euroclaw.Engine.Reap.{reap_task, reap_taken, reap_one}
use euroclaw.Engine.Reap.Laws.{settle_run-tasks}
use euroclaw.Engine.Claim.{exhausted, claimed, take_task}
use euroclaw.Engine.Claim.Ready.{bury-rows}
use euroclaw.Engine.Lease.{
  finished, check_output, complete_held, complete_checked, complete_task, fail_held, fail_task,
  worked_by, extend_lease, heartbeat_lease,
}
use euroclaw.Prelude.{
  ℕ, ◌+◌, String, ◌≡◌, refl, sym, ◌⊎◌, inl, inr, Bool, false, not, ◌&&◌, Option, none, some, List,
  [], ◌∷◌, arith, str_eq, leb, Bool-cases, Option-cases,
}
use euroclaw.Engine.Lease.Writes.{
  Write, write, write_all, IsIdle, Passes, IsSettled, Passes-IsSettled,
}

module _ (hash_text : String → String) (row : RuntimeTask) (idle : IsIdle row) where
  held-Passes :
      (lease key : String) (f : RuntimeTask → RuntimeTask) (tasks tasks' : List RuntimeTask)
      → ((t : RuntimeTask) → (f t).id ≡ t.id)
      → (tasks' ≡ tasks) ⊎ (tasks' ≡ assign_one (with_key task_key key (held_by lease)) f tasks)
      → Passes row tasks tasks'
  unfolding IsIdle
  held-Passes lease key f tasks tasks' keeps is = record {
    key = key;
    test = held_by lease;
    change = f;
    keeps = keeps;
    fails = ground (arith, idle);
    is = is;
  }

  pending-Passes :
      (key : String) (f : RuntimeTask → RuntimeTask) (tasks tasks' : List RuntimeTask)
      → ((t : RuntimeTask) → (f t).id ≡ t.id)
      → (tasks' ≡ tasks) ⊎ (tasks' ≡ assign_one (with_key task_key key is_pending) f tasks)
      → Passes row tasks tasks'
  unfolding IsIdle
  pending-Passes key f tasks tasks' keeps is = record {
    key = key;
    test = is_pending;
    change = f;
    keeps = keeps;
    fails = idle.0;
    is = is;
  }

  same-Passes : (tasks tasks' : List RuntimeTask) → tasks' ≡ tasks → Passes row tasks tasks'
  same-Passes tasks tasks' e = record {
    key = row.id;
    test = λ t. false;
    change = λ t. t;
    keeps = λ t. refl;
    fails = refl;
    is = inl e;
  }

  complete_held-tasks :
      (output : Option Json) (ts : ℕ) (id lease : String) (s : Tables)
      → ((complete_held output ts id lease s).1.tasks ≡ s.tasks)
        ⊎ ((complete_held output ts id lease s).1.tasks
            ≡ assign_one (with_key task_key id (held_by lease)) (finished output ts) s.tasks)
  unfolding complete_held update
  complete_held-tasks output ts id lease s =
      elim (Option-cases (find_one (with_key task_key id (held_by lease)) s.tasks)) [
        | inl missing ↦ inl (ground arith)
        | inr (r, there) ↦ inr (ground arith)
      ]

  complete_checked-Passes :
      (valid : Json → Bool) (ts : ℕ) (id : String) (output : Option Json)
      (held : Option (RuntimeTask × LeaseRecord)) (s : Tables)
      → Passes row s.tasks (complete_checked hash_text valid ts id output held s).1.tasks
  unfolding complete_checked check_output
  complete_checked-Passes valid ts id output none s = same-Passes _ _ refl
  complete_checked-Passes valid ts id none (some (task, lease)) s =
      held-Passes lease.id id (finished none ts) _ _ (λ t. refl)
        (complete_held-tasks none ts id lease.id s)
  complete_checked-Passes valid ts id (some o) (some (task, lease)) s =
      elim (Bool-cases (valid o)) [
        | inl good ↦
            held-Passes lease.id id (finished (some o) ts) _ _ (λ t. refl)
              (rw good (complete_held-tasks (some o) ts id lease.id s))
        | inr bad ↦ same-Passes _ _ (rw bad refl)
      ]

  fail_held-Passes :
      (reason : String) (ts : ℕ) (id : String) (held : Option (RuntimeTask × LeaseRecord))
      (s : Tables)
      → Passes row s.tasks (fail_held hash_text reason ts id held s).1.tasks
  unfolding update
  fail_held-Passes reason ts id none s = same-Passes _ _ refl
  fail_held-Passes reason ts id (some (task, lease)) s =
      held-Passes lease.id id (given_up reason ts task) _ _ (λ t. refl) (inr refl)

  extend_lease-Passes :
      (ts expires_at : ℕ) (id token : String) (lease : LeaseRecord) (s : Tables)
      → Passes row s.tasks (extend_lease hash_text ts expires_at id token lease s).1.tasks
  unfolding extend_lease update IsIdle
  extend_lease-Passes ts expires_at id token lease s = record {
    key = lease.task_id;
    test = worked_by id lease.worker_id;
    change = λ t. record t { leased_until = some expires_at; updated_at = ts };
    keeps = λ t. refl;
    fails = ground (arith, idle);
    is =
        elim (Option-cases (
          find_one
            (with_key lease_key id
              (λ l. str_eq l.token_hash (hash_text token) && not (leb l.expires_at ts)))
            s.leases)) [ inl missing ↦ inl (ground arith) | inr (l, there) ↦ inr (ground arith) ];
  }

  heartbeat_lease-cases :
      (now ts : ℕ) (id token : String) (ttl : Option ℕ) (s : Tables)
      → ((heartbeat_lease hash_text now ts id token ttl s).1.tasks ≡ s.tasks)
        ⊎ ((lease : LeaseRecord) × (expires_at : ℕ) × ((heartbeat_lease hash_text now ts id token
                ttl s).1
              ≡ (extend_lease hash_text ts expires_at id token lease s).1))
  unfolding heartbeat_lease
  heartbeat_lease-cases now ts id token ttl s =
      elim (Option-cases (find_one (with_key lease_key id any_row) s.leases)) [
        | inl missing ↦ inl (ground arith)
        | inr (lease, there) ↦
            elim (Bool-cases
              (not (leb lease.expires_at now) && str_eq lease.token_hash (hash_text token))) [
                | inl good ↦ inr (lease, ts + or_default ttl default_lease_ttl_ms, ground arith)
                | inr bad ↦ inl (ground arith)
              ]
      ]

  heartbeat_lease-Passes :
      (now ts : ℕ) (id token : String) (ttl : Option ℕ) (s : Tables)
      → Passes row s.tasks (heartbeat_lease hash_text now ts id token ttl s).1.tasks
  heartbeat_lease-Passes now ts id token ttl s =
      elim (heartbeat_lease-cases now ts id token ttl s) [
        | inl same ↦ same-Passes _ _ same
        | inr (lease, expires_at, e) ↦
            subst (λ (x : Tables). Passes row s.tasks x.tasks) (sym e)
              (extend_lease-Passes ts expires_at id token lease s)
      ]

  reap_task-Passes :
      (ts stamp : ℕ) (lease : LeaseRecord) (found : Option RuntimeTask) (s : Tables)
      → Passes row s.tasks (reap_task ts stamp lease found s).1.tasks
  unfolding update
  reap_task-Passes ts stamp lease none s = same-Passes _ _ refl
  reap_task-Passes ts stamp lease (some task) s =
      held-Passes lease.id lease.task_id (given_up "lease expired" ts task) _ _ (λ t. refl)
        (inr (settle_run-tasks stamp task _ _).0)

  reap_taken-Passes :
      (ts stamp : ℕ) (taken : Option LeaseRecord) (s : Tables)
      → Passes row s.tasks (reap_taken ts stamp taken s).1.tasks
  reap_taken-Passes ts stamp none s = same-Passes _ _ refl
  reap_taken-Passes ts stamp (some lease) s = reap_task-Passes ts stamp lease _ s

  reap_one-Passes :
      (ts stamp : ℕ) (c : LeaseRecord) (s : Tables)
      → Passes row s.tasks (reap_one ts stamp c s).1.tasks
  unfolding reap_one consume_one
  reap_one-Passes ts stamp c s = reap_taken-Passes ts stamp _ (record s { leases = _ })

  take_task-Passes :
      (ts : ℕ) (input : ClaimTaskInput) (id token : String) (stamp : ℕ) (c : RuntimeTask)
      (s : Tables)
      → Passes row s.tasks (take_task hash_text ts input id token stamp c s).1.tasks
  unfolding take_task update update_run
  take_task-Passes ts input id token stamp c s =
      pending-Passes c.id (claimed ts input id c) _ _ (λ t. refl)
        (elim (Option-cases (find_one (with_key task_key c.id is_pending) s.tasks)) [
          | inl missing ↦ inl (ground arith)
          | inr (r, there) ↦ inr (ground arith)
        ])

  write-Passes : (w : Write) (s : Tables) → Passes row s.tasks (write hash_text w s).tasks
  unfolding write complete_task fail_task
  write-Passes (Write.complete valid now ts id token output) s =
      complete_checked-Passes valid ts id output _ s
  write-Passes (Write.fail now ts id token reason) s = fail_held-Passes reason ts id _ s
  write-Passes (Write.heartbeat now ts id token ttl) s =
      heartbeat_lease-Passes now ts id token ttl s
  write-Passes (Write.reap ts stamp candidate) s = reap_one-Passes ts stamp candidate s
  write-Passes (Write.bury_one ts stamp candidate) s =
      pending-Passes candidate.id (exhausted ts) _ _ (λ t. refl)
        (inr (bury-rows ts stamp candidate s).0)
  write-Passes (Write.take_one ts input id token stamp candidate) s =
      take_task-Passes ts input id token stamp candidate s

  pub write_all-IsSettled :
      (id : String) (ws : List Write) (s : Tables)
      → IsSettled id row s
      → IsSettled id row (write_all hash_text ws s)
  unfolding write_all
  write_all-IsSettled id [] s settled = settled
  write_all-IsSettled id (w ∷ ws) s settled =
      write_all-IsSettled id ws (write hash_text w s)
        (Passes-IsSettled id row s _ (write-Passes w s) settled)
