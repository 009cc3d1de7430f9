-- ===== src/Audit/Fork.antt =====
-- `ingest` where transactions of a tenant overlap. `ingested_at` is the time at which a transaction
-- began, and the advisory lock is taken later.
use mathlib.Core.Path.{subst}
use sentinel_keyvault.Common.{
  ℕ, ◌<◌, ◌≡◌, refl, ap, sym, ◌∙◌, inl, inr, true, false, Option, none, some, List, [], ◌∷◌, ◌++◌,
  arith, Text, ◌==◌, ==-refl, find, Bool-cases, Option-cases, if◌then◌else◌,
}
use sentinel_keyvault.Platform.Events.{AuditEvent}
use sentinel_keyvault.Audit.Models.{AuditLog, Evidence}
use sentinel_keyvault.Audit.Ingest.{
  Tables, latest, later_of, is_later, hash_of, new_log, ingest, is_event, user_of, ingest_rejected,
  appended, ingest_new,
}

module _ {Hash : Type 0} where
  is_later_trans :
      (a b c : AuditLog Hash) → is_later a b ≡ true → is_later b c ≡ true → is_later a c ≡ true
  is_later_trans a b c ab bc = ground arith

  not_later_trans :
      (a b c : AuditLog Hash) → is_later a b ≡ false → is_later b c ≡ false → is_later a c ≡ false
  not_later_trans a b c ab bc = ground arith

  later_of_again :
      (x u row s : AuditLog Hash)
      → later_of x (some u) ≡ some s
      → later_of x (if is_later u row then some u else some row)
        ≡ (if is_later s row then some s else some row)
  later_of_again x u row s q = elim (Bool-cases (is_later x u)) [
    | inl xu ↦
        let eq : some x ≡ some s = rw xu at q in
        let same : x ≡ s = cc in
        elim (Bool-cases (is_later u row)) [
          | inl ur ↦
              let xr = is_later_trans x u row xu ur in
              let sr : is_later s row ≡ true = subst (λ z. is_later z row ≡ true) same xr in
              rw (ur, sr) (rw xu (cc))
          | inr ur ↦ rw ur (
              subst (λ z. later_of x (some row) ≡ (if is_later z row then some z else some row))
                same refl)
        ]
    | inr xu ↦
        let eq : some u ≡ some s = rw xu at q in
        let same : u ≡ s = cc in
        subst
          (λ z.
            later_of x (if is_later u row then some u else some row)
            ≡ (if is_later z row then some z else some row))
          same
          (elim (Bool-cases (is_later u row)) [
            | inl ur ↦ rw ur (rw xu refl)
            | inr ur ↦ rw ur (rw (not_later_trans x u row xu ur) refl)
          ])
  ]

later_of_some :
    {Hash : Type 0} → (x : AuditLog Hash) (o : Option (AuditLog Hash)) → ¬ later_of x o ≡ none
later_of_some x none e = absurd (cc)
later_of_some x (some s) e = elim (Bool-cases (is_later x s)) [
  | inl t ↦ let q : some x ≡ none = rw t at e in absurd (cc)
  | inr t ↦ let q : some s ≡ none = rw t at e in absurd (cc)
]

module _ {Hash : Type 0} (tenant_id : ℕ) (row : AuditLog Hash)
    (own : row.tenant_id ≡ tenant_id) where
  latest-append_none :
      (xs : List (AuditLog Hash))
      → latest tenant_id xs ≡ none
      → latest tenant_id (xs ++ row ∷ []) ≡ some row
  unfolding latest
  latest-append_none [] e = rw (own, ==-refl tenant_id)
  latest-append_none (x ∷ xs) e = elim (Bool-cases (x.tenant_id == tenant_id)) [
    | inl t ↦ absurd (later_of_some x (latest tenant_id xs) (rw t at e))
    | inr t ↦ rw t (latest-append_none xs (rw t at e))
  ]

  latest-append :
      (xs : List (AuditLog Hash)) (s : AuditLog Hash)
      → latest tenant_id xs ≡ some s
      → latest tenant_id (xs ++ row ∷ []) ≡ (if is_later s row then some s else some row)
  unfolding latest
  latest-append [] s e = absurd (cc)
  latest-append (x ∷ xs) s e = elim (Bool-cases (x.tenant_id == tenant_id)) [
    | inr t ↦ rw t (latest-append xs s (rw t at e))
    | inl t ↦ elim (Option-cases (latest tenant_id xs)) [
      | inl n ↦
          let q : some x ≡ some s = rw (t, n) at e in
          let same : x ≡ s = cc in
          rw t (
            rw (latest-append_none xs n) (
              subst (λ z. later_of x (some row) ≡ (if is_later z row then some z else some row))
                same refl))
      | inr (u, n) ↦
          let q : later_of x (some u) ≡ some s = rw (t, n) at e in
          rw t (rw (latest-append xs u n) (later_of_again x u row s q))
    ]
  ]

-- A call that returns for a fresh event has written the new row.
ingest_wrote :
    {Hash : Type 0} (parse_uuid : Text → Option ℕ) (sha256 : Evidence → Option Hash → Hash)
    (id activity now : ℕ) (e : AuditEvent) (t t' : Tables Hash) (row : AuditLog Hash)
    → find (is_event e.tenant_id e.id) t.logs ≡ none
    → ingest parse_uuid sha256 id activity now e t ≡ some (row, t')
    → (row ≡ new_log sha256 id now e (hash_of (latest e.tenant_id t.logs)))
      × (t'.logs ≡ t.logs ++ row ∷ [])
ingest_wrote parse_uuid sha256 id activity now e t t' row fresh h =
    elim (Option-cases (user_of parse_uuid e)) [
      | inl bad ↦ absurd (cc (h, ingest_rejected parse_uuid sha256 id activity now e t fresh bad))
      | inr (u, ok) ↦
          let new = new_log sha256 id now e (hash_of (latest e.tenant_id t.logs)) in
          let after = appended parse_uuid sha256 id activity now e t u in
          let g = ingest_new parse_uuid sha256 id activity now e t u fresh ok in
          let q = sym h ∙ g in
          let r : row ≡ new = cc in
          let a : t' ≡ after = cc in (r, ap (λ z. z.logs) a ∙ ap (λ z. t.logs ++ z ∷ []) (sym r))
    ]

-- If a transaction that began before the newest row of its tenant was ingested inserts a fresh
-- event, then the next fresh event of the tenant, whenever it comes, takes the hash of the same row
-- as its previous hash, as the first one did: the chain forks.
pub ingest_forks :
    {Hash : Type 0} (parse_uuid : Text → Option ℕ) (sha256 : Evidence → Option Hash → Hash)
    (id id' activity activity' now now' : ℕ) (e e' : AuditEvent) (t t' t'' : Tables Hash)
    (last row row' : AuditLog Hash)
    → e'.tenant_id ≡ e.tenant_id
    → latest e.tenant_id t.logs ≡ some last
    → now < last.ingested_at
    → find (is_event e.tenant_id e.id) t.logs ≡ none
    → find (is_event e'.tenant_id e'.id) t'.logs ≡ none
    → ingest parse_uuid sha256 id activity now e t ≡ some (row, t')
    → ingest parse_uuid sha256 id' activity' now' e' t' ≡ some (row', t'')
    → (row.previous_hash ≡ some last.record_hash) × (row'.previous_hash ≡ some last.record_hash)
ingest_forks parse_uuid sha256 id id' activity activity' now now' e e' t t' t'' last row row' same l
      early fresh fresh' h h' =
    let w = ingest_wrote parse_uuid sha256 id activity now e t t' row fresh h in
    let w' = ingest_wrote parse_uuid sha256 id' activity' now' e' t' t'' row' fresh' h' in
    let first : row.previous_hash ≡ some last.record_hash =
      ap (λ z. z.previous_hash) w.0 ∙ ap hash_of l in
    let own : row.tenant_id ≡ e.tenant_id = ap (λ z. z.tenant_id) w.0 in
    let began : row.ingested_at ≡ now = ap (λ z. z.ingested_at) w.0 in
    let ahead : is_later last row ≡ true = ground arith in
    let grown : latest e.tenant_id (t.logs ++ row ∷ []) ≡ some last =
      rw (latest-append e.tenant_id row own t.logs last l, ahead) refl in
    let still : latest e'.tenant_id t'.logs ≡ some last = rw (same, w.1) grown in
    (first, ap (λ z. z.previous_hash) w'.0 ∙ ap hash_of still)
