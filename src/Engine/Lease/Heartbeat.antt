-- ===== src/Engine/Lease/Heartbeat.antt =====
-- The tables after heartbeatLease.
use mathlib.Core.Path.{subst}
use euroclaw.Storage.Table.{find_one, update, assign_one}
use euroclaw.Storage.Table.Keyed.{find_one_any, with_key, find_one-with_key, find_key-assign_one}
use euroclaw.Engine.Model.{
  RuntimeTask, LeaseRecord, Tables, task_key, lease_key, or_default, default_lease_ttl_ms,
}
use euroclaw.Engine.Store.{any_row}
use euroclaw.Engine.Lease.{extended, worked_by, extend_lease, heartbeat_lease}
use euroclaw.Engine.Lease.Held.{task_at, IsVouched, lease_at, HasUniqueIds}
use euroclaw.Prelude.{
  ℕ, ◌+◌, ◌<◌, String, ◌≡◌, refl, sym, ap, ◌∙◌, inl, inr, Bool, not, ◌&&◌, Option, some, arith,
  str_eq, eq_iff, leb, Bool-cases, Option-cases, some_inj,
}

abbrev pub kept_until : ℕ → ℕ → RuntimeTask → RuntimeTask
kept_until expires_at ts t = record t { leased_until = some expires_at; updated_at = ts }

module _ (hash_text : String → String) where
  beat_parts :
      (now ts : ℕ) (id token : String) (ttl : Option ℕ) (s s' : Tables) (row : LeaseRecord)
      → heartbeat_lease hash_text now ts id token ttl s ≡ (some row, s')
      → (lease : LeaseRecord) × (find_one (with_key lease_key id any_row) s.leases ≡ some lease)
        × (now < lease.expires_at)
        × (lease.token_hash ≡ hash_text token)
        × (extend_lease hash_text ts (ts + or_default ttl default_lease_ttl_ms) id token lease s
            ≡ (some row, s'))
  unfolding heartbeat_lease
  beat_parts now ts id token ttl s s' row h =
      elim (Option-cases (find_one (with_key lease_key id any_row) s.leases)) [
        | inl absent ↦ ground (arith, absent)
        | inr (lease, present) ↦ (
          lease,
          present,
          ground (arith, present),
          ground (arith, present, eq_iff lease.token_hash (hash_text token)),
          ground (arith, present),
        )
      ]

  extend_parts :
      (ts until : ℕ) (id token : String) (lease : LeaseRecord) (s s' : Tables) (row : LeaseRecord)
      → HasUniqueIds s
      → lease_at id s ≡ some lease
      → extend_lease hash_text ts until id token lease s ≡ (some row, s')
      → (row ≡ extended until ts lease)
        × (lease_at id s' ≡ some row)
        × (s'.tasks
            ≡ assign_one
                (with_key task_key lease.task_id (worked_by id lease.worker_id))
                (kept_until until ts)
                s.tasks)
  unfolding extend_lease update
  extend_parts ts until id token lease s s' row u found h =
      let p : LeaseRecord → Bool =
        λ l. str_eq l.token_hash (hash_text token) && not (leb l.expires_at ts) in
      (
        ground (arith, found, find_one-with_key lease_key id p s.leases u.1),
        ground (
          arith,
          found,
          eq_iff id id,
          find_one-with_key lease_key id p s.leases u.1,
          find_key-assign_one lease_key (extended until ts) (λ l. refl) id id p s.leases u.1,
        ),
        ground arith,
      )

  -- After the task's row is written or left: it is there, with its id and lease as before.
  row_after :
      (until ts : ℕ) (id worker : String) (task : RuntimeTask) (s s' : Tables) (k : String)
      → HasUniqueIds s
      → task_at k s ≡ some task
      → s'.tasks
        ≡ assign_one (with_key task_key k (worked_by id worker)) (kept_until until ts) s.tasks
      → (task' : RuntimeTask) × (task_at k s' ≡ some task') × (task'.lease_id ≡ task.lease_id)
  row_after until ts id worker task s s' k u found tasks_are =
      let finds =
        find_key-assign_one task_key (kept_until until ts) (λ t. refl) k k (worked_by id worker)
          s.tasks u.0 in
      elim (Bool-cases (worked_by id worker task)) [
        | inl hit ↦ (
          kept_until until ts task,
          ground (arith, found, hit, tasks_are, finds, eq_iff k k),
          refl,
        )
        | inr miss ↦ (task, ground (arith, found, miss, tasks_are, finds, eq_iff k k), refl)
      ]

  -- A heartbeat that returns a lease, made with a token that vouches for a task: the lease now expires
  -- `ttl` after the time it read, and until then the token vouches for the task under it.
  pub heartbeat_lease-IsVouched :
      (now ts : ℕ) (k token : String) (ttl : Option ℕ) (s s' : Tables) (task : RuntimeTask)
      (lease row : LeaseRecord)
      → HasUniqueIds s
      → IsVouched hash_text now k token s task lease
      → heartbeat_lease hash_text now ts lease.id token ttl s ≡ (some row, s')
      → (row.expires_at ≡ ts + or_default ttl default_lease_ttl_ms)
        × ((now' : ℕ)
            → now' < row.expires_at
            → (task' : RuntimeTask) × IsVouched hash_text now' k token s' task' row)
  heartbeat_lease-IsVouched now ts k token ttl s s' task lease row u v h =
      let (read, found, unexpired, matches, extends) =
        beat_parts now ts lease.id token ttl s s' row h in
      let at_id : lease_at lease.id s ≡ some read =
        sym (find_one_any lease_key lease.id s.leases) ∙ found in
      let same : read ≡ lease = some_inj (sym at_id ∙ v.lease_found) in
      let until = ts + or_default ttl default_lease_ttl_ms in
      let (row_is, stored, tasks_are) =
        extend_parts ts until lease.id token read s s' row u at_id extends in
      let is : row ≡ extended until ts lease = row_is ∙ ap (extended until ts) same in
      let on_task : read.task_id ≡ k = ap (λ (l : LeaseRecord). l.task_id) same ∙ v.on_task in
      let written =
        subst
          (λ x.
            s'.tasks
            ≡ assign_one (with_key task_key x (worked_by lease.id read.worker_id))
                (kept_until until ts) s.tasks)
          on_task tasks_are in
      let (task', there, names) =
        row_after until ts lease.id read.worker_id task s s' k u v.task_found written in
      let same_id : row.id ≡ lease.id = ap (λ (l : LeaseRecord). l.id) is in
      (
        ap (λ (l : LeaseRecord). l.expires_at) is,
        λ now' early. (
          task',
          record {
            task_found = there;
            names_lease = names ∙ (v.names_lease ∙ ap some (sym same_id));
            lease_found = subst (λ x. lease_at x s' ≡ some row) (sym same_id) stored;
            on_task = ap (λ (l : LeaseRecord). l.task_id) is ∙ v.on_task;
            unexpired = early;
            token_matches = ap (λ (l : LeaseRecord). l.token_hash) is ∙ v.token_matches;
          },
        ),
      )
