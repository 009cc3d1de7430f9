-- ===== src/Audit/History.antt =====
-- The audit log over a whole history of deliveries.
use mathlib.Core.Path.{subst}
use sentinel_keyvault.Common.{
  ℕ, suc, ◌≤◌, ◌<◌, ◌≡◌, refl, ap, ◌∙◌, inl, inr, Option, none, some, List, [], ◌∷◌, ◌++◌, arith,
  Text, ◌==◌, ==→eq, find, last?, All, All-append_one, Bool-cases, Option-cases,
}
use sentinel_keyvault.Platform.Events.{AuditEvent}
use sentinel_keyvault.Audit.Models.{AuditLog, Evidence}
use sentinel_keyvault.Audit.Ingest.{
  Tables, is_event, latest, hash_of, new_log, user_of, ingest, ingest_known, ingest_rejected,
  ingest_new,
}
use sentinel_keyvault.Audit.Chain.{
  of_tenant, IsUnique, IsChain, IsSound, latest-last?, of_tenant-append_same,
  of_tenant-append_other, of_tenant-All, IsRising-append_one, IsUnique-append_one, find-none-All,
  IsChain-append_one,
}

-- A call of `ingest`, with the keys of its rows and the time at which its transaction began.
pub record Delivery : Type 0 where
  pub id : ℕ
  pub activity_id : ℕ
  pub now : ℕ
  pub event : AuditEvent

module _ {Hash : Type 0} (parse_uuid : Text → Option ℕ)
    (sha256 : Evidence → Option Hash → Hash) where
  -- The tables after the unit of work, committed or rolled back.
  unfoldable pub deliver : Delivery → Tables Hash → Tables Hash
  deliver d t = elim (ingest parse_uuid sha256 d.id d.activity_id d.now d.event t) [
    | none ↦ t
    | some (row, t') ↦ t'
  ]

  unfoldable pub deliver_all : List Delivery → Tables Hash → Tables Hash
  unfolding deliver
  deliver_all [] t = t
  deliver_all (d ∷ ds) t = deliver_all ds (deliver d t)

  -- The transactions begin one after the other, from `clock` on.
  abbrev pub IsTimed : ℕ → List Delivery → Type 0
  IsTimed clock [] = Unit
  IsTimed clock (d ∷ ds) = (clock ≤ d.now) × IsTimed (suc d.now) ds

  weaken :
      (a b : ℕ) (rs : List (AuditLog Hash))
      → a ≤ b
      → All (λ r. r.ingested_at < a) rs
      → All (λ r. r.ingested_at < b) rs
  weaken a b [] h k = tt
  weaken a b (r ∷ rs) h k = (omega arith, weaken a b rs h k.1)

  hash_of-tip :
      (o : Option (AuditLog Hash))
      → hash_of o ≡ (elim o [ none ↦ none | some r ↦ some r.record_hash ])
  hash_of-tip none = refl
  hash_of-tip (some r) = refl

  append-IsSound :
      (clock id now : ℕ) (e : AuditEvent) (logs : List (AuditLog Hash))
      → clock ≤ now
      → find (is_event e.tenant_id e.id) logs ≡ none
      → IsSound sha256 clock logs
      → IsSound sha256
          (suc now)
          (logs ++ new_log sha256 id now e (hash_of (latest e.tenant_id logs)) ∷ [])
  append-IsSound clock id now e logs h fresh s =
      let row = new_log sha256 id now e (hash_of (latest e.tenant_id logs)) in
      let lt = weaken clock now logs h s.before in
      record {
        before =
            All-append_one (λ r. r.ingested_at < suc now) logs
              (weaken now (suc now) logs (omega arith) lt) (omega arith);
        unique =
            IsUnique-append_one logs row s.unique
              (find-none-All (is_event e.tenant_id e.id) logs fresh);
        rising = λ t. elim (Bool-cases (e.tenant_id == t)) [
          | inl same ↦ rw (of_tenant-append_same t logs row (==→eq e.tenant_id t same)) (
              IsRising-append_one (of_tenant t logs) row (s.rising t)
                (of_tenant-All (λ r. r.ingested_at < now) t logs lt))
          | inr other ↦ rw (of_tenant-append_other t logs row other) (s.rising t)
        ];
        chain = λ t. elim (Bool-cases (e.tenant_id == t)) [
          | inl same ↦
              let q = ==→eq e.tenant_id t same in
              rw (of_tenant-append_same t logs row q) (
                IsChain-append_one sha256 none (of_tenant t logs) row (s.chain t)
                  (subst
                      (λ k. hash_of (latest e.tenant_id logs) ≡ hash_of (last? (of_tenant k logs)))
                      q (ap hash_of (latest-last? e.tenant_id logs (s.rising e.tenant_id)))
                    ∙ hash_of-tip (last? (of_tenant t logs)))
                  refl)
          | inr other ↦ rw (of_tenant-append_other t logs row other) (s.chain t)
        ];
      }

  later-IsSound :
      (a b : ℕ) (logs : List (AuditLog Hash))
      → a ≤ b
      → IsSound sha256 a logs
      → IsSound sha256 b logs
  later-IsSound a b logs h s = record {
    before = weaken a b logs h s.before;
    unique = s.unique;
    rising = s.rising;
    chain = s.chain;
  }

  deliver-IsSound :
      (clock : ℕ) (d : Delivery) (t : Tables Hash)
      → clock ≤ d.now
      → IsSound sha256 clock t.logs
      → IsSound sha256 (suc d.now) (deliver d t).logs
  unfolding deliver
  deliver-IsSound clock d t h s =
      let e = d.event in
      elim (Option-cases (find (is_event e.tenant_id e.id) t.logs)) [
        | inr (r, known) ↦
            rw (ingest_known parse_uuid sha256 d.id d.activity_id d.now e t r known, deliver)
              (later-IsSound clock (suc d.now) t.logs (omega arith) s)
        | inl fresh ↦ elim (Option-cases (user_of parse_uuid e)) [
          | inl bad ↦
              rw (ingest_rejected parse_uuid sha256 d.id d.activity_id d.now e t fresh bad, deliver)
                (later-IsSound clock (suc d.now) t.logs (omega arith) s)
          | inr (u, ok) ↦
              rw (ingest_new parse_uuid sha256 d.id d.activity_id d.now e t u fresh ok, deliver)
                (append-IsSound clock d.id d.now e t.logs h fresh s)
        ]
      ]

  deliver_all-IsSound :
      (clock : ℕ) (ds : List Delivery) (t : Tables Hash)
      → IsTimed clock ds
      → IsSound sha256 clock t.logs
      → (end : ℕ) × IsSound sha256 end (deliver_all ds t).logs
  unfolding deliver_all
  deliver_all-IsSound clock [] t h s = (clock, s)
  deliver_all-IsSound clock (d ∷ ds) t h s =
      deliver_all-IsSound (suc d.now) ds (deliver d t) h.1 (deliver-IsSound clock d t h.0 s)

-- Whatever events are delivered, if their transactions begin one after the other, then in the end
-- the rows of each tenant, in the order of insertion, form a chain from the first on: each names
-- the hash of the one before it, and its own hash is that of its contents. No event of a tenant
-- has two rows.
pub deliver_all-IsChain :
    {Hash : Type 0} (parse_uuid : Text → Option ℕ) (sha256 : Evidence → Option Hash → Hash)
    (ds : List Delivery) (tenant_id : ℕ)
    → IsTimed parse_uuid sha256 0 ds
    → let logs = (deliver_all parse_uuid sha256 ds (record { logs = []; activity = [] })).logs in
      IsChain sha256 none (of_tenant tenant_id logs) × IsUnique logs
deliver_all-IsChain parse_uuid sha256 ds tenant_id h =
    let (end, s) =
      deliver_all-IsSound parse_uuid sha256 0 ds (record { logs = []; activity = [] }) h
        (record { before = tt; unique = tt; rising = λ t. tt; chain = λ t. tt }) in
    (s.chain tenant_id, s.unique)
