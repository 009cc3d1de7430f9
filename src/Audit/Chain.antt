-- ===== src/Audit/Chain.antt =====
-- The hash chain of each tenant, over any number of ingested events.
use sentinel_keyvault.Common.{
  ℕ, ◌<◌, ◌≡◌, refl, ap, inl, inr, Bool, false, Option, none, some, List, [], ◌∷◌, ◌++◌, arith,
  ◌==◌, ==-refl, find, select, last?, All, All-append_one, All-Has, Has, Bool-cases,
}
use sentinel_keyvault.Audit.Models.{AuditLog, Evidence, evidence_of_row}
use sentinel_keyvault.Audit.Ingest.{is_event, latest, later_of}

module _ {Hash : Type 0} where
  -- The rows of one tenant, in the order of their insertion.
  abbrev pub of_tenant : ℕ → List (AuditLog Hash) → List (AuditLog Hash)
  of_tenant tenant_id = select (λ r. r.tenant_id == tenant_id)

  -- Each row was ingested after those before it.
  abbrev pub IsRising : List (AuditLog Hash) → Type 0
  IsRising [] = Unit
  IsRising (r ∷ rs) = All (λ s. r.ingested_at < s.ingested_at) rs × IsRising rs

  -- No event of a tenant has two rows.
  abbrev pub IsUnique : List (AuditLog Hash) → Type 0
  IsUnique [] = Unit
  IsUnique (r ∷ rs) = All (λ s. is_event s.tenant_id s.event_id r ≡ false) rs × IsUnique rs

  last?-some :
      (s : AuditLog Hash) (rs : List (AuditLog Hash))
      → (z : AuditLog Hash) × Has z (s ∷ rs) × (last? (s ∷ rs) ≡ some z)
  last?-some s [] = (s, inl refl, refl)
  last?-some s (u ∷ rs) = let (z, m, e) = last?-some u rs in (z, inr m, e)

  later_of-last? :
      (r : AuditLog Hash) (rs : List (AuditLog Hash))
      → All (λ s. r.ingested_at < s.ingested_at) rs
      → later_of r (last? rs) ≡ last? (r ∷ rs)
  later_of-last? r [] h = refl
  later_of-last? r (s ∷ rs) h =
      let (z, m, e) = last?-some s rs in
      let lt = All-Has (λ s. r.ingested_at < s.ingested_at) (s ∷ rs) {a = z} h m in
      rw e (ground arith)

  -- Where the times of ingestion rise, the query for the previous row finds the last one.
  pub latest-last? :
      (tenant_id : ℕ) (rs : List (AuditLog Hash))
      → IsRising (of_tenant tenant_id rs)
      → latest tenant_id rs ≡ last? (of_tenant tenant_id rs)
  unfolding latest
  latest-last? tenant_id [] h = refl
  latest-last? tenant_id (r ∷ rs) h = elim (Bool-cases (r.tenant_id == tenant_id)) [
    | inl e ↦
        let (lt, rest) = rw e at h in
        rw e (rw (latest-last? tenant_id rs rest) (later_of-last? r (of_tenant tenant_id rs) lt))
    | inr e ↦ rw e (latest-last? tenant_id rs (rw e at h))
  ]

  pub of_tenant-append_same :
      (tenant_id : ℕ) (rs : List (AuditLog Hash)) (row : AuditLog Hash)
      → row.tenant_id ≡ tenant_id
      → of_tenant tenant_id (rs ++ row ∷ []) ≡ of_tenant tenant_id rs ++ row ∷ []
  of_tenant-append_same tenant_id [] row e = rw (e, ==-refl tenant_id)
  of_tenant-append_same tenant_id (r ∷ rs) row e = elim (Bool-cases (r.tenant_id == tenant_id)) [
    | inl t ↦ rw t (ap (λ l. r ∷ l) (of_tenant-append_same tenant_id rs row e))
    | inr t ↦ rw t (of_tenant-append_same tenant_id rs row e)
  ]

  pub of_tenant-append_other :
      (tenant_id : ℕ) (rs : List (AuditLog Hash)) (row : AuditLog Hash)
      → (row.tenant_id == tenant_id) ≡ false
      → of_tenant tenant_id (rs ++ row ∷ []) ≡ of_tenant tenant_id rs
  of_tenant-append_other tenant_id [] row e = rw e
  of_tenant-append_other tenant_id (r ∷ rs) row e = elim (Bool-cases (r.tenant_id == tenant_id)) [
    | inl t ↦ rw t (ap (λ l. r ∷ l) (of_tenant-append_other tenant_id rs row e))
    | inr t ↦ rw t (of_tenant-append_other tenant_id rs row e)
  ]

  pub of_tenant-All :
      (P : AuditLog Hash → Type 0) (tenant_id : ℕ) (rs : List (AuditLog Hash))
      → All P rs
      → All P (of_tenant tenant_id rs)
  of_tenant-All P tenant_id [] h = tt
  of_tenant-All P tenant_id (r ∷ rs) h = elim (Bool-cases (r.tenant_id == tenant_id)) [
    | inl t ↦ rw t (h.0, of_tenant-All P tenant_id rs h.1)
    | inr t ↦ rw t (of_tenant-All P tenant_id rs h.1)
  ]

  pub IsRising-append_one :
      (rs : List (AuditLog Hash)) (row : AuditLog Hash)
      → IsRising rs
      → All (λ s. s.ingested_at < row.ingested_at) rs
      → IsRising (rs ++ row ∷ [])
  IsRising-append_one [] row h k = (tt, tt)
  IsRising-append_one (r ∷ rs) row h k = (
    All-append_one (λ s. r.ingested_at < s.ingested_at) rs h.0 k.0,
    IsRising-append_one rs row h.1 k.1,
  )

  pub IsUnique-append_one :
      (rs : List (AuditLog Hash)) (row : AuditLog Hash)
      → IsUnique rs
      → All (λ r. is_event row.tenant_id row.event_id r ≡ false) rs
      → IsUnique (rs ++ row ∷ [])
  IsUnique-append_one [] row h k = (tt, tt)
  IsUnique-append_one (r ∷ rs) row h k = (
    All-append_one (λ s. is_event s.tenant_id s.event_id r ≡ false) rs h.0 k.0,
    IsUnique-append_one rs row h.1 k.1,
  )

  pub find-none-All :
      (p : AuditLog Hash → Bool) (rs : List (AuditLog Hash))
      → find p rs ≡ none
      → All (λ r. p r ≡ false) rs
  find-none-All p [] e = tt
  find-none-All p (r ∷ rs) e = elim (Bool-cases (p r)) [
    | inl t ↦ let q : some r ≡ none = rw t at e in absurd (cc)
    | inr t ↦ (t, find-none-All p rs (rw t at e))
  ]

  module _ (sha256 : Evidence → Option Hash → Hash) where
    -- Each row names the hash of the row before it, and its own hash is that of its contents.
    abbrev pub IsChain : Option Hash → List (AuditLog Hash) → Type 0
    IsChain previous [] = Unit
    IsChain previous (r ∷ rs) =
        (r.previous_hash ≡ previous)
        × (r.record_hash ≡ sha256 (evidence_of_row r) r.previous_hash)
        × IsChain (some r.record_hash) rs

    pub IsChain-append_one :
        (previous : Option Hash) (rs : List (AuditLog Hash)) (row : AuditLog Hash)
        → IsChain previous rs
        → row.previous_hash ≡ (elim (last? rs) [ none ↦ previous | some r ↦ some r.record_hash ])
        → row.record_hash ≡ sha256 (evidence_of_row row) row.previous_hash
        → IsChain previous (rs ++ row ∷ [])
    IsChain-append_one previous [] row c p h = (p, h, tt)
    IsChain-append_one previous (r ∷ []) row c p h = (c.0, c.1, (p, h, tt))
    IsChain-append_one previous (r ∷ s ∷ rs) row c p h = (
      c.0,
      c.1,
      IsChain-append_one (some r.record_hash) (s ∷ rs) row c.2
          (let (z, m, e) = last?-some s rs in rw e (rw e at p)) h,
    )

    -- What holds of the tables when every transaction began before `clock`.
    pub record IsSound (clock : ℕ) (logs : List (AuditLog Hash)) : Type 0 where
      pub before : All (λ r. r.ingested_at < clock) logs
      pub unique : IsUnique logs
      pub rising : (tenant_id : ℕ) → IsRising (of_tenant tenant_id logs)
      pub chain : (tenant_id : ℕ) → IsChain none (of_tenant tenant_id logs)
