-- ===== src/Inventory/Jobs/Claims.antt =====
-- What `claim_job` and `create_sync_job` promise.
use sentinel_keyvault.Common.{
  ℕ, suc, ◌≡◌, ◌≤◌, refl, sym, ap, Bool, true, false, inl, inr, none, some, List, [], ◌∷◌, ◌++◌,
  arith, Bool-cases, Option-cases, text_eq_refl, ==-refl, leb→le, find, find-append_one, select,
  All-Has, Has, select-Has, Has-select, order_by, IsOrdered, order_by-IsOrdered, order_by-Has,
  Has-order_by, Has-write_self, Has-write_ne, ◌≢◌, Option,
}
use sentinel_keyvault.Inventory.Models.{SyncJob, JobStatus, Store}
use sentinel_keyvault.Inventory.Models.JobStatus.{queued, running, completed, failed}
use sentinel_keyvault.Inventory.Jobs.{
  JobRequest, is_job, new_job, create_sync_job, claimable, earlier, first, next_job, is_queued,
  started, claim_job,
}

earlier_total : (j k : SyncJob) → earlier j k ≡ false → earlier k j ≡ true
earlier_total j k h = ground arith

earlier_trans : (i j k : SyncJob) → earlier i j ≡ true → earlier j k ≡ true → earlier i k ≡ true
earlier_trans i j k g h = ground arith

first-least :
    (js : List SyncJob) (j : SyncJob)
    → IsOrdered earlier js
    → first js ≡ some j
    → Has j js × ((k : SyncJob) → Has k js → j.requested_at ≤ k.requested_at)
first-least [] j o e = absurd (cc)
first-least (i ∷ js) j o e =
    let q : i ≡ j = cc in
    (
      inl (sym q),
      (λ k m. elim m [
        | inl p ↦ omega (arith, ap (λ x. x.requested_at) q, ap (λ x. x.requested_at) p)
        | inr n ↦
            let le =
              leb→le i.requested_at k.requested_at (All-Has (λ x. earlier i x ≡ true) js o.0 n) in
            omega (arith, ap (λ x. x.requested_at) q, le)
      ]),
    )

-- The next job is a claimable one that was requested no later than any other.
pub next_job_lem :
    (locked : ℕ → Bool) (jobs : List SyncJob) (j : SyncJob)
    → next_job locked jobs ≡ some j
    → Has j jobs
      × (claimable locked j ≡ true)
      × ((k : SyncJob) → Has k jobs → claimable locked k ≡ true → j.requested_at ≤ k.requested_at)
unfolding next_job
next_job_lem locked jobs j e =
    let waiting = select (claimable locked) jobs in
    let (m, least) =
      first-least (order_by earlier waiting) j
        (order_by-IsOrdered earlier earlier_total earlier_trans waiting) e in
    let (h, c) = select-Has (claimable locked) jobs (order_by-Has earlier waiting j m) in
    (
      h,
      c,
      λ k n t. least k (Has-order_by earlier waiting k (Has-select (claimable locked) jobs n t)),
    )

first-none : (js : List SyncJob) (j : SyncJob) → first js ≡ none → ¬ Has j js
first-none [] j e m = m
first-none (i ∷ js) j e m = absurd (cc)

pub next_job-none :
    (locked : ℕ → Bool) (jobs : List SyncJob) (j : SyncJob)
    → next_job locked jobs ≡ none
    → Has j jobs
    → claimable locked j ≡ false
unfolding next_job
next_job-none locked jobs j e m = elim (Bool-cases (claimable locked j)) [
  | inr t ↦ t
  | inl t ↦
      let waiting = select (claimable locked) jobs in
      absurd (
        first-none (order_by earlier waiting) j e
          (Has-order_by earlier waiting j (Has-select (claimable locked) jobs m t)))
]

claimable-fields :
    (locked : ℕ → Bool) (j : SyncJob)
    → claimable locked j ≡ true
    → (j.status ≡ queued) × (locked j.id ≡ false)
claimable-fields locked j e = elim (Bool-cases (locked j.id)) [
  | inl t ↦ absurd (ground arith)
  | inr t ↦ (is_queued-eq j.status (ground arith), t)
]
  where
    is_queued-eq : (s : JobStatus) → is_queued s ≡ true → s ≡ queued
    is_queued-eq queued h = refl
    is_queued-eq running h = absurd (cc)
    is_queued-eq completed h = absurd (cc)
    is_queued-eq failed h = absurd (cc)

fields-claimable :
    (locked : ℕ → Bool) (j : SyncJob)
    → j.status ≡ queued
    → locked j.id ≡ false
    → claimable locked j ≡ true
fields-claimable locked j s l = rw (s, l) refl

-- What a claim promises of the tables that it reads and those that it leaves.
abbrev pub Claims : ℕ → (ℕ → Bool) → Store → Option (SyncJob × Store) → Type 0
Claims now locked store none =
    (k : SyncJob) → Has k store.jobs → k.status ≡ queued → locked k.id ≡ true
Claims now locked store (some (job, after)) =
    (j : SyncJob) × Has j store.jobs
    × (j.status ≡ queued)
    × (locked j.id ≡ false)
    × ((k : SyncJob)
        → Has k store.jobs
        → k.status ≡ queued
        → locked k.id ≡ false
        → j.requested_at ≤ k.requested_at)
    × (job.id ≡ j.id)
    × (job.status ≡ running)
    × (job.started_at ≡ some now)
    × (job.heartbeat_at ≡ some now)
    × Has job after.jobs
    × ((k : SyncJob) → Has k store.jobs → k.id ≢ j.id → Has k after.jobs)

-- A claim takes a queued job that no other transaction holds and than which no such job was
-- requested earlier. It leaves this job in the table as running, started and with its heartbeat at
-- the time of the claim, and every other job as it was. It takes none only if each queued job is
-- held by another transaction.
pub claim_job-Claims :
    (now : ℕ) (locked : ℕ → Bool) (store : Store)
    → Claims now locked store (claim_job now locked store)
unfolding claim_job
claim_job-Claims now locked store = elim (Option-cases (next_job locked store.jobs)) [
  | inl e ↦
      rw (e, claim_job)
        (λ k m q. elim (Bool-cases (locked k.id)) [
          | inl t ↦ t
          | inr t ↦
              absurd (cc (next_job-none locked store.jobs k e m, fields-claimable locked k q t))
        ])
  | inr (j, e) ↦
      let (m, t, least) = next_job_lem locked store.jobs j e in
      let (q, free) = claimable-fields locked j t in
      rw (e, claim_job)
        (
          j,
          m,
          q,
          free,
          λ k n s l. least k n (fields-claimable locked k s l),
          refl,
          refl,
          refl,
          refl,
          Has-write_self (λ j. j.id) (started now j) store.jobs m refl,
          λ k n ne. Has-write_ne (λ j. j.id) (started now j) store.jobs n ne,
        )
]

create_known :
    (q : JobRequest) (store : Store) (job : SyncJob)
    → find (is_job q.tenant_id q.idempotency_key) store.jobs ≡ some job
    → create_sync_job q store ≡ (job, store)
unfolding create_sync_job
create_known q store job e = rw (e, create_sync_job) refl

create_new :
    (q : JobRequest) (store : Store)
    → find (is_job q.tenant_id q.idempotency_key) store.jobs ≡ none
    → create_sync_job q store ≡ (
      new_job store.next_id q,
      record store {
        jobs = store.jobs ++ new_job store.next_id q ∷ [];
        next_id = suc store.next_id;
      },
    )
unfolding create_sync_job
create_new q store e = rw (e, create_sync_job) refl

-- Repeating a request with the tenant and key of an earlier one, whatever else it asks for,
-- returns the job of the earlier one and leaves the tables as they are.
pub create_sync_job_again :
    (q q' : JobRequest) (store : Store)
    → q'.tenant_id ≡ q.tenant_id
    → q'.idempotency_key ≡ q.idempotency_key
    → create_sync_job q' (create_sync_job q store).1 ≡ create_sync_job q store
create_sync_job_again q q' store p k =
    elim (Option-cases (find (is_job q.tenant_id q.idempotency_key) store.jobs)) [
      | inr (job, e) ↦ rw (create_known q store job e) (create_known q' store job (rw (p, k) e))
      | inl e ↦
          let job = new_job store.next_id q in
          let mine : is_job q.tenant_id q.idempotency_key job ≡ true =
            rw (==-refl q.tenant_id, text_eq_refl q.idempotency_key) refl in
          let found =
            find-append_one (is_job q.tenant_id q.idempotency_key) store.jobs job e mine in
          let grown = record store { jobs = store.jobs ++ job ∷ []; next_id = suc store.next_id } in
          rw (create_new q store e) (create_known q' grown job (rw (p, k) found))
    ]
