-- ===== src/Platform/Outbox/Queue.antt =====
-- Which row `claim_outbox` takes.
use sentinel_keyvault.Common.{
  ap, Distinct, Distinct-Has, ℕ, ◌≤◌, ◌<◌, ◌≡◌, ◌≢◌, refl, inl, inr, Bool, true, false, Option,
  none, some, List, [], ◌∷◌, arith, leb, Has, write, Bool-cases, leb→le, leb-false,
}
use sentinel_keyvault.Platform.Outbox.{
  OutboxRecord, claimable, earlier, oldest, claimed, record_id, claim_outbox,
}

-- The outcome of a query for the oldest row: none fits, or this one does and no older one.
abbrev IsOldest : (OutboxRecord → Bool) → List OutboxRecord → Option OutboxRecord → Type 0
IsOldest p rs none = (x : OutboxRecord) → Has x rs → p x ≡ false
IsOldest p rs (some r) =
    Has r rs
    × (p r ≡ true)
    × ((x : OutboxRecord) → Has x rs → p x ≡ true → r.created_at ≤ x.created_at)

module _ (p : OutboxRecord → Bool) where
  earlier-IsOldest :
      (y : OutboxRecord) (rs : List OutboxRecord) (o : Option OutboxRecord)
      → p y ≡ true
      → IsOldest p rs o
      → IsOldest p (y ∷ rs) (earlier y o)
  earlier-IsOldest y rs none t h =
      (inl refl, t, λ x m px. elim m [ inl q ↦ ground arith | inr q ↦ absurd (cc (h x q)) ])
  earlier-IsOldest y rs (some b) t h = elim (Bool-cases (leb y.created_at b.created_at)) [
    | inl e ↦ rw e (
      inl refl,
      t,
      λ x m px. elim m [ inl q ↦ ground arith | inr q ↦ omega (arith, h.2 x q px, leb→le _ _ e) ],
    )
    | inr e ↦ rw e (
      inr h.0,
      h.1,
      λ x m px. elim m [
        | inl q ↦ rw q (omega (arith, leb-false y.created_at b.created_at e))
        | inr q ↦ h.2 x q px
      ],
    )
  ]

  skip-IsOldest :
      (y : OutboxRecord) (rs : List OutboxRecord) (o : Option OutboxRecord)
      → p y ≡ false
      → IsOldest p rs o
      → IsOldest p (y ∷ rs) o
  skip-IsOldest y rs none t h = λ x m. elim m [ inl q ↦ rw q t | inr q ↦ h x q ]
  skip-IsOldest y rs (some b) t h =
      (inr h.0, h.1, λ x m px. elim m [ inl q ↦ absurd (cc) | inr q ↦ h.2 x q px ])

  oldest-IsOldest : (rs : List OutboxRecord) → IsOldest p rs (oldest p rs)
  unfolding oldest
  oldest-IsOldest [] = λ x m. absurd m
  oldest-IsOldest (y ∷ rs) = elim (Bool-cases (p y)) [
    | inl e ↦ rw e (earlier-IsOldest y rs (oldest p rs) e (oldest-IsOldest rs))
    | inr e ↦ rw e (skip-IsOldest y rs (oldest p rs) e (oldest-IsOldest rs))
  ]

-- What a claim promises of the table that it read and the one that it left.
abbrev pub Claims :
    ℕ → (ℕ → Bool) → List OutboxRecord → Option OutboxRecord × List OutboxRecord → Type 0
Claims now locked outbox (none, outbox') =
    (outbox' ≡ outbox) × ((x : OutboxRecord) → Has x outbox → claimable now locked x ≡ false)
Claims now locked outbox (some r', outbox') =
    (r : OutboxRecord) × Has r outbox
    × (claimable now locked r ≡ true)
    × ((x : OutboxRecord)
        → Has x outbox
        → claimable now locked x ≡ true
        → r.created_at ≤ x.created_at)
    × (r' ≡ claimed now r)
    × (outbox' ≡ write record_id r' outbox)

pub claim_outbox-Claims :
    (now : ℕ) (locked : ℕ → Bool) (outbox : List OutboxRecord)
    → Claims now locked outbox (claim_outbox now locked outbox)
unfolding claim_outbox
claim_outbox-Claims now locked outbox =
    go (oldest (claimable now locked) outbox) (oldest-IsOldest (claimable now locked) outbox)
  where
    go :
        (o : Option OutboxRecord)
        → IsOldest (claimable now locked) outbox o
        → Claims now locked outbox (elim o [
          | none ↦ (none, outbox)
          | some r ↦ (some (claimed now r), write record_id (claimed now r) outbox)
        ])
    go none h = (refl, h)
    go (some r) h = (r, h.0, h.1, h.2, refl, refl)

pub claimable-available :
    (now : ℕ) (locked : ℕ → Bool) (r : OutboxRecord)
    → claimable now locked r ≡ true
    → r.available_at ≤ now
unfolding claimable
claimable-available now locked r h = ground arith

pub retaken :
    (later : ℕ) (locked : ℕ → Bool) (table : List OutboxRecord) (r q : OutboxRecord)
    (result : Option OutboxRecord × List OutboxRecord)
    → Claims later locked table result
    → Distinct record_id table
    → Has r table
    → later < r.available_at
    → result.0 ≡ some q
    → q.id ≢ r.id
unfolding claimed
retaken later locked table r q (none, _) c d m soon e = absurd (cc)
retaken later locked table r q (some q', _) (p, mp, ok, _, ep, _) d m soon e =
    let eq : q ≡ claimed later p = cc in
    λ same.
      let x : p ≡ r = Distinct-Has record_id table d mp m (rw eq at same) in
      omega
        (arith, claimable-available later locked p ok, ap (λ (o : OutboxRecord). o.available_at) x)
