-- ===== src/Platform/Outbox/Settled.antt =====
-- What the claim and the settlement of a row leave as they were, and the table of a whole round.
use sentinel_keyvault.Common.{
  ℕ, ◌≡◌, ◌⊎◌, refl, inl, inr, Bool, Option, none, some, List, Text, ltb, write, Bool-cases, true,
  false, ap, sym, ◌∙◌, [], ◌∷◌, text_eq→eq, ==→eq, ◌==◌, Has,
}
use sentinel_keyvault.Platform.Outbox.{
  OutboxRecord, record_id, publishing, published, Outcome, claimed, claim_outbox, settle,
  settle_row, settle_held, column, is_same_error, finish, relay,
}
use sentinel_keyvault.Platform.Outbox.Queue.{Claims, claim_outbox-Claims}

-- A claim takes no row and leaves the table, or takes one.
pub claim_outbox-cases :
    (now : ℕ) (locked : ℕ → Bool) (outbox : List OutboxRecord)
    → (claim_outbox now locked outbox ≡ (none, outbox))
      ⊎ ((r : OutboxRecord) × (outbox' : List OutboxRecord) × (claim_outbox now locked outbox
            ≡ (some r, outbox'))
          × Claims now locked outbox (some r, outbox'))
claim_outbox-cases now locked outbox =
    go (claim_outbox now locked outbox) (claim_outbox-Claims now locked outbox)
  where
    go :
        (c : Option OutboxRecord × List OutboxRecord)
        → Claims now locked outbox c
        → (c ≡ (none, outbox))
          ⊎ ((r : OutboxRecord) × (outbox' : List OutboxRecord) × (c ≡ (some r, outbox'))
              × Claims now locked outbox (some r, outbox'))
    go (none, outbox') (same, _) = inl (rw same refl)
    go (some r, outbox') c = inr (r, outbox', refl, c)

pub claimed-same :
    (now : ℕ) (r : OutboxRecord)
    → ((claimed now r).id ≡ r.id)
      × ((claimed now r).payload ≡ r.payload)
      × ((claimed now r).status ≡ publishing)
unfolding claimed
claimed-same now r = (refl, refl, refl)

pub settle-same :
    (later : ℕ) (outcome : Outcome) (r : OutboxRecord)
    → ((settle later outcome r).id ≡ r.id)
      × ((settle later outcome r).payload ≡ r.payload)
      × ((settle later outcome r).status ≡ published → outcome ≡ none)
unfolding settle
settle-same later none r = (refl, refl, λ e. refl)
settle-same later (some error) r = elim (Bool-cases (ltb r.attempts 20)) [
  | inl e ↦ rw e (refl, refl, λ q. absurd (cc))
  | inr e ↦ rw e (refl, refl, λ q. absurd (cc))
]

column-same :
    {A : Type 0} (b : Bool) (stored assigned : A)
    → (b ≡ true → stored ≡ assigned)
    → column b stored assigned ≡ assigned
column-same true stored assigned h = h refl
column-same false stored assigned h = refl

is_same_error-eq : (e f : Option Text) → is_same_error e f ≡ true → f ≡ e
is_same_error-eq none none h = refl
is_same_error-eq none (some f) h = absurd (cc)
is_same_error-eq (some e) none h = absurd (cc)
is_same_error-eq (some e) (some f) h = ap some (sym (text_eq→eq e f h))

settle_row-same :
    (later : ℕ) (outcome : Outcome) (r : OutboxRecord)
    → settle_row later outcome r r ≡ settle later outcome r
unfolding settle_row settle
settle_row-same later none r =
    let a =
      column-same (r.available_at == r.available_at) r.available_at r.available_at (λ h. refl) in
    let e =
      column-same (is_same_error none r.last_error) r.last_error none
        (is_same_error-eq none r.last_error) in
    cc (a, e)
settle_row-same later (some error) r =
    let settled = settle later (some error) r in
    let a =
      column-same (settled.available_at == r.available_at) r.available_at settled.available_at
        (λ h. sym (==→eq settled.available_at r.available_at h)) in
    let e =
      column-same (is_same_error settled.last_error r.last_error) r.last_error settled.last_error
        (is_same_error-eq settled.last_error r.last_error) in
    cc (a, e)

-- While the table holds the row as the worker claimed it, a settlement writes the settled record.
pub settle_held-eq-write :
    (later : ℕ) (outcome : Outcome) (held : OutboxRecord) (outbox : List OutboxRecord)
    → ((x : OutboxRecord) → Has x outbox → x.id ≡ held.id → x ≡ held)
    → settle_held later outcome held outbox ≡ write record_id (settle later outcome held) outbox
unfolding settle_held
settle_held-eq-write later outcome held [] h = refl
settle_held-eq-write later outcome held (x ∷ xs) h =
    let id = (settle-same later outcome held).0 in
    let rest = settle_held-eq-write later outcome held xs (λ y m. h y (inr m)) in
    elim (Bool-cases (x.id == held.id)) [
      | inl e ↦
          let same = h x (inl refl) (==→eq x.id held.id e) in
          rw (id, e)
            (ap (λ y. y ∷ xs)
              (ap (settle_row later outcome held) same ∙ settle_row-same later outcome held))
      | inr e ↦ rw (id, e) (ap (λ ys. x ∷ ys) rest)
    ]

pub relay-eq-write :
    (now later : ℕ) (locked : ℕ → Bool) (outcome : Outcome) (outbox outbox' : List OutboxRecord)
    (r : OutboxRecord)
    → claim_outbox now locked outbox ≡ (some r, outbox')
    → (relay now later locked outcome outbox).1 ≡ write record_id (settle later outcome r) outbox'
unfolding relay finish
relay-eq-write now later locked outcome outbox outbox' r e = rw (relay, e) refl
