-- ===== src/Inventory/Worker/Ends.antt =====
-- How a call of `run_once` leaves the job that it claimed, and the others.
use mathlib.Core.Path.{subst}
use sentinel_keyvault.Common.{
  ℕ, ◌≡◌, ◌≢◌, refl, sym, ap, ◌∙◌, Bool, true, false, ◌⊎◌, inl, inr, Option, some, List, [], ◌∷◌,
  Text, ◌==◌, ==-refl, ne→==, ==→eq, find, find-Has, find-write, find-write_other, write, Has,
  Distinct, Distinct-write, Distinct-Has, length, Bool-cases, Option-cases, if◌then◌else◌,
}
use sentinel_keyvault.Inventory.Models.{SyncJob, Store}
use sentinel_keyvault.Inventory.Models.JobStatus.{completed, failed}
use sentinel_keyvault.Inventory.Jobs.{claim_job, next_job, started}
use sentinel_keyvault.Inventory.Jobs.Claims.{next_job_lem}
use sentinel_keyvault.Inventory.Worker.{
  Services, register, collect, set_job, complete, fail, sync, run_once,
}
use sentinel_keyvault.Inventory.Worker.Frame.{register_jobs, collect_jobs}

abbrev pub job_at : ℕ → List SyncJob → Option SyncJob
job_at id = find (λ j. j.id == id)

abbrev Unique : List SyncJob → Type 0
Unique = Distinct (λ j. j.id)

found_id : (id : ℕ) (jobs : List SyncJob) (j : SyncJob) → job_at id jobs ≡ some j → j.id ≡ id
found_id id jobs j e = ==→eq j.id id (find-Has (λ j. j.id == id) jobs e).1

find_self :
    (jobs : List SyncJob) (j : SyncJob) → Unique jobs → Has j jobs → job_at j.id jobs ≡ some j
find_self [] j d m = absurd m
find_self (x ∷ xs) j d m = elim (Bool-cases (x.id == j.id)) [
  | inl e ↦ rw e (ap some (Distinct-Has (λ j. j.id) (x ∷ xs) d (inl refl) m (==→eq x.id j.id e)))
  | inr e ↦ elim m [
    | inl q ↦ absurd (cc (ap (λ y. y.id == j.id) (sym q), ==-refl j.id, e))
    | inr n ↦ rw e (find_self xs j d.1 n)
  ]
]

-- A write to the row of a job.
write_job :
    (jobs : List SyncJob) (j j' : SyncJob)
    → Unique jobs
    → job_at j.id jobs ≡ some j
    → j'.id ≡ j.id
    → (job_at j.id (write (λ j. j.id) j' jobs) ≡ some j')
      × ((id : ℕ) → id ≢ j.id → job_at id (write (λ j. j.id) j' jobs) ≡ job_at id jobs)
write_job jobs j j' d e same = (
  find-write (λ j. j.id) (λ k. k.id == j.id) j j' same jobs d e (rw same (==-refl j.id)),
  (λ id other.
      find-write_other (λ j. j.id) (λ k. k.id == id) j j' same jobs d
        (find-Has (λ k. k.id == j.id) jobs e).0 (ne→== j.id id (λ q. other (sym q)))
        (rw same (ne→== j.id id (λ q. other (sym q))))),
)

-- The job has ended, at the one time or the other.
abbrev pub Over : ℕ → ℕ → SyncJob → Type 0
Over completed_at failed_at j =
    ((j.status ≡ completed) × (j.completed_at ≡ some completed_at))
    ⊎ ((j.status ≡ failed) × (j.completed_at ≡ some failed_at))

-- The job `id` has ended, and the jobs but `id` are those of `jobs`.
abbrev pub Ended : ℕ → ℕ → ℕ → List SyncJob → List SyncJob → Type 0
Ended id completed_at failed_at jobs after =
    ((j : SyncJob) × (job_at id after ≡ some j) × Over completed_at failed_at j)
    × ((other : ℕ) → other ≢ id → job_at other after ≡ job_at other jobs)

set_job_lem :
    (f : SyncJob → SyncJob) (store : Store) (j : SyncJob)
    → Unique store.jobs
    → job_at j.id store.jobs ≡ some j
    → (f j).id ≡ j.id
    → Unique (set_job j.id f store).jobs
      × (job_at j.id (set_job j.id f store).jobs ≡ some (f j))
      × ((id : ℕ) → id ≢ j.id → job_at id (set_job j.id f store).jobs ≡ job_at id store.jobs)
set_job_lem f store j d e same =
    let (hit, rest) = write_job store.jobs j (f j) d e same in
    rw (e, set_job) (Distinct-write (λ j. j.id) (f j) store.jobs d, hit, rest)

-- The tables after the body of the `try`: the job is untouched where an exception came before the
-- end of the second transaction, and completed otherwise.
sync_cases :
    (services : Services) (began now completed_at : ℕ) (job : SyncJob) (store : Store)
    → ((sync services began now completed_at job store).0 ≡ false)
        × ((sync services began now completed_at job store).1.jobs ≡ store.jobs)
      ⊎ ((seen : ℕ) × (changed : ℕ) × (collected : Store) × (collected.jobs ≡ store.jobs)
          × ((sync services began now completed_at job store).1
              ≡ set_job job.id (complete seen changed completed_at) collected))
unfolding sync
sync_cases services began now completed_at job store =
    elim (Option-cases services.list_subscriptions) [
      | inl e ↦ inl (rw (e, sync) (refl, refl))
      | inr (sources, e) ↦
          elim (Option-cases (register job.tenant_id sources job.subscription_ids [] store)) [
            | inl e1 ↦ inl (rw (e, sync) (rw (e1, sync) (refl, refl)))
            | inr ((keys, registered), e1) ↦
                let jobs1 =
                  register_jobs job.tenant_id sources job.subscription_ids [] keys store registered
                    e1 in
                elim (Option-cases (services.query_resources job.subscription_ids)) [
                  | inl e2 ↦ inl (rw (e, sync) (rw (e1, sync) (rw (e2, sync) (refl, jobs1))))
                  | inr (items, e2) ↦
                      elim (Option-cases
                        (collect job.tenant_id keys began now items 0 [] registered)) [
                          | inl e3 ↦ inl (
                              rw (e, sync)
                                (rw (e1, sync) (rw (e2, sync) (rw (e3, sync) (refl, jobs1)))))
                          | inr ((changed, out, collected), e3) ↦
                              let jobs2 =
                                collect_jobs job.tenant_id keys began now items 0 changed [] out
                                  registered collected e3 in
                              inr (
                                length items,
                                changed,
                                collected,
                                jobs2 ∙ jobs1,
                                rw (e, sync) (rw (e1, sync) (rw (e2, sync) (rw (e3, sync) refl))),
                              )
                        ]
                ]
          ]
    ]

-- `jobs` with the row of `j` in place of the one with its key.
abbrev Holds : SyncJob → List SyncJob → List SyncJob → Type 0
Holds j jobs after =
    Unique after
    × (job_at j.id after ≡ some j)
    × ((id : ℕ) → id ≢ j.id → job_at id after ≡ job_at id jobs)

set_job-Holds :
    (f : SyncJob → SyncJob) (store : Store) (j : SyncJob) (jobs : List SyncJob)
    → Holds j jobs store.jobs
    → (f j).id ≡ j.id
    → Holds (f j) jobs (set_job j.id f store).jobs
set_job-Holds f store j jobs (d, e, rest) same =
    let (d', e', rest') = set_job_lem f store j d e same in
    (
      d',
      subst (λ n. job_at n (set_job j.id f store).jobs ≡ some (f j)) (sym same) e',
      (λ id other. rest' id (λ q. other (q ∙ sym same)) ∙ rest id (λ q. other (q ∙ sym same))),
    )

Holds-Ended :
    (j : SyncJob) (completed_at failed_at : ℕ) (jobs after : List SyncJob)
    → Holds j jobs after
    → Over completed_at failed_at j
    → Ended j.id completed_at failed_at jobs after
Holds-Ended j completed_at failed_at jobs after (d, e, rest) over = ((j, e, over), rest)

-- What the exception handler does, or the end of the `try`.
sync-Ended :
    (services : Services) (error : Text) (began now completed_at failed_at : ℕ) (job : SyncJob)
    (store : Store) (jobs : List SyncJob)
    → Holds job jobs store.jobs
    → Ended job.id completed_at failed_at jobs
        (if (sync services began now completed_at job store).0
          then (sync services began now completed_at job store).1
          else set_job job.id
              (fail error failed_at)
              (sync services began now completed_at job store).1).jobs
sync-Ended services error began now completed_at failed_at job store jobs holds =
    let failing = fail error failed_at in
    elim (sync_cases services began now completed_at job store) [
      | inl (no_end, same) ↦
          let after = (sync services began now completed_at job store).1 in
          rw no_end (
            Holds-Ended (failing job) completed_at failed_at jobs
              (set_job job.id failing after).jobs
              (set_job-Holds failing after job jobs (rw same holds) refl) (inr (refl, refl)))
      | inr (seen, changed, collected, same, end) ↦
          let completing = complete seen changed completed_at in
          let done = set_job-Holds completing collected job jobs (rw same holds) refl in
          let after = set_job job.id completing collected in
          elim (Bool-cases (sync services began now completed_at job store).0) [
            | inl ok ↦
                rw (ok, end)
                  (Holds-Ended (completing job) completed_at failed_at jobs after.jobs done
                    (inl (refl, refl)))
            | inr bad ↦
                rw (bad, end)
                  (Holds-Ended (failing (completing job)) completed_at failed_at jobs
                    (set_job job.id failing after).jobs
                    (set_job-Holds failing after (completing job) jobs done refl)
                    (inr (refl, refl)))
          ]
    ]

-- Where a job can be claimed, and keys are unique, `run_once` returns true and ends that job,
-- whatever Azure and the relationship service answer: its status is completed, with the time of the
-- completion, or failed, with that of the failure, and every other job is as it was.
pub run_once_ends :
    (services : Services) (locked : ℕ → Bool) (error : Text)
    (claimed_at began now completed_at failed_at : ℕ) (store : Store) (j : SyncJob)
    → Distinct (λ j. j.id) store.jobs
    → next_job locked store.jobs ≡ some j
    → let (had_job, after) =
        run_once services locked error claimed_at began now completed_at failed_at store in
      (had_job ≡ true) × Ended j.id completed_at failed_at store.jobs after.jobs
unfolding run_once claim_job
run_once_ends services locked error claimed_at began now completed_at failed_at store j d e =
    let found = find_self store.jobs j d (next_job_lem locked store.jobs j e).0 in
    let (hit, rest) = write_job store.jobs j (started claimed_at j) d found refl in
    let claimed = record store { jobs = write (λ j. j.id) (started claimed_at j) store.jobs } in
    let holds : Holds (started claimed_at j) store.jobs claimed.jobs =
      (Distinct-write (λ j. j.id) (started claimed_at j) store.jobs d, hit, rest) in
    rw (e, run_once, claim_job)
      (
        refl,
        sync-Ended services error began now completed_at failed_at (started claimed_at j) claimed
            store.jobs holds,
      )
