-- ===== src/Platform/Outbox/Workers.antt =====
-- Several workers of outbox_worker.py beside each other: a claim and a settlement are transactions of
-- their own, and a worker holds the record that it claimed in between.
use sentinel_keyvault.Common.{
  ℕ, ◌≤◌, ◌<◌, ◌≡◌, ◌≢◌, refl, sym, ap, inl, inr, Bool, true, false, not, ◌&&◌, Option, none, some,
  List, ◌∷◌, Text, select, select-Has, Distinct-Has, Distinct-append_one, Has-write_self,
  Has-write_ne, Has-append_one, arith, ◌==◌, ==-refl, Has, All, All-append_one,
}
use sentinel_keyvault.Platform.Events.{AuditEvent}
use sentinel_keyvault.Platform.Outbox.{
  OutboxRecord, record_id, is_open, publishing, Outcome, enqueue_audit, claimed, claim_outbox,
  settle_held,
}
use sentinel_keyvault.Platform.Outbox.Queue.{Claims, claimable-available}
use sentinel_keyvault.Platform.Outbox.Settled.{claim_outbox-cases, claimed-same}
use sentinel_keyvault.Platform.Outbox.Lifecycle.{
  IsValid, IsTableSound, IsClosed, claim-IsTableSound, claimed_ne, settle_held-IsTableSound,
  settle_held-Has,
}

-- The table, the records that workers have claimed and not settled, and the time of the last
-- transaction.
pub record Workers : Type 0 where
  pub outbox : List OutboxRecord
  pub held : List OutboxRecord
  pub clock : ℕ

abbrev pub with_claimed : Option OutboxRecord → List OutboxRecord → List OutboxRecord
with_claimed none held = held
with_claimed (some r) held = r ∷ held

-- The claims of a row differ in the number of its attempts.
abbrev pub is_claim : OutboxRecord → OutboxRecord → Bool
is_claim r x = x.id == r.id && x.attempts == r.attempts

abbrev pub settled_from : OutboxRecord → List OutboxRecord → List OutboxRecord
settled_from r = select (λ x. not (is_claim r x))

abbrev pub after_claim : ℕ → Workers → Option OutboxRecord × List OutboxRecord → Workers
after_claim now s (claim, outbox) = record {
  outbox = outbox;
  held = with_claimed claim s.held;
  clock = now;
}

is_claim_self : (r : OutboxRecord) → is_claim r r ≡ true
is_claim_self r = rw (==-refl r.id, ==-refl r.attempts) refl

-- What can happen, at times that do not go back: a service enqueues an event under a new id, a
-- worker claims, or a worker settles what it holds within the five minutes of its claim. A worker
-- that stops never settles.
pub data Step (s : Workers) : Workers → Type 0 where
  enqueues :
      (id now : ℕ) (destination : Text) (event : AuditEvent)
      → All (λ r. r.id ≢ id) s.outbox
      → Step s (record s { outbox = enqueue_audit id now destination event s.outbox })
  claims :
      (now : ℕ) (locked : ℕ → Bool)
      → s.clock ≤ now
      → Step s (after_claim now s (claim_outbox now locked s.outbox))
  settles :
      (later : ℕ) (outcome : Outcome) (r : OutboxRecord)
      → Has r s.held
      → s.clock ≤ later
      → later < r.available_at
      → Step s (record {
        outbox = settle_held later outcome r s.outbox;
        held = settled_from r s.held;
        clock = later;
      })

-- While its lease is in force, a claimed row is in the table as its worker holds it.
abbrev pub Leased : Workers → Type 0
Leased s =
    (x : OutboxRecord)
    → Has x s.held
    → s.clock < x.available_at
    → Has x s.outbox × (x.status ≡ publishing)

pub record IsSound (s : Workers) : Type 0 where
  pub table : IsTableSound s.outbox
  pub leased : Leased s

-- Closed rows stay, and the invariant is kept.
abbrev Keeps : Workers → Workers → Type 0
Keeps s s' = IsSound s' × ((x : OutboxRecord) → Has x s.outbox → IsClosed x → Has x s'.outbox)

claim-Keeps :
    (s : Workers) (now : ℕ) (locked : ℕ → Bool) (r' : OutboxRecord) (outbox' : List OutboxRecord)
    → s.clock ≤ now
    → Claims now locked s.outbox (some r', outbox')
    → IsSound s
    → Keeps s (record { outbox = outbox'; held = r' ∷ s.held; clock = now })
claim-Keeps s now locked r' outbox' le (r, m, ok, old, e, w) i =
    let (id, payload, status) = claimed-same now r in
    let stays : (x : OutboxRecord) → Has x s.outbox → x.id ≢ r.id → Has x outbox' =
      λ x n ne. rw (w, e) (Has-write_ne record_id (claimed now r) s.outbox n (rw id ne)) in
    (
      record {
        table =
            claim-IsTableSound now locked s.outbox (some r', outbox') (r, m, ok, old, e, w) i.table;
        leased = λ x h lease. elim h [
          | inl same ↦
              rw same
                (rw (w, e) (Has-write_self record_id (claimed now r) s.outbox m (sym id), status))
          | inr k ↦
              let (n, publishing') = i.leased x k (omega arith) in
              (
                stays x n (λ q.
                    let p : x ≡ r = Distinct-Has record_id s.outbox i.table.keyed n m q in
                    omega (
                      arith,
                      claimable-available now locked r ok,
                      ap (λ (o : OutboxRecord). o.available_at) p,
                    )),
                publishing',
              )
        ];
      },
      λ x n closed. stays x n (claimed_ne now locked s.outbox r x i.table m ok n closed),
    )

settle-Keeps :
    (s : Workers) (later : ℕ) (outcome : Outcome) (r : OutboxRecord)
    → Has r s.held
    → s.clock ≤ later
    → later < r.available_at
    → IsSound s
    → Keeps s (record {
      outbox = settle_held later outcome r s.outbox;
      held = settled_from r s.held;
      clock = later;
    })
settle-Keeps s later outcome r h le lt i =
    let (m, busy) = i.leased r h (omega arith) in
    (
      record {
        table = settle_held-IsTableSound later outcome r s.outbox m busy i.table;
        leased = λ x k lease.
            let (k', other) = select-Has (λ x. not (is_claim r x)) s.held k in
            let (n, busy') = i.leased x k' (omega arith) in
            (
              settle_held-Has later outcome r s.outbox x m i.table n (λ q.
                  let p : x ≡ r = Distinct-Has record_id s.outbox i.table.keyed n m q in
                  let t : is_claim r x ≡ true = rw p (is_claim_self r) in
                  let no : false ≡ true = rw t at other in cc),
              busy',
            );
      },
      λ x n closed. settle_held-Has later outcome r s.outbox x m i.table n (λ q.
          let p : x ≡ r = Distinct-Has record_id s.outbox i.table.keyed n m q in
          let busy' : is_open x.status ≡ true = rw (p, busy) refl in cc),
    )

Step-Keeps : {s s' : Workers} → Step s s' → IsSound s → Keeps s s'
Step-Keeps {s} (enqueues id now destination event fresh) i =
    unfold enqueue_audit in
    (
      record {
        table = record {
          keyed = Distinct-append_one record_id s.outbox _ i.table.keyed fresh;
          rows = All-append_one IsValid s.outbox i.table.rows (omega arith, refl);
        };
        leased = λ x h lease.
            let (n, busy) = i.leased x h lease in (Has-append_one s.outbox _ x n, busy);
      },
      λ x n closed. Has-append_one s.outbox _ x n,
    )
Step-Keeps {s} (claims now locked le) i = elim (claim_outbox-cases now locked s.outbox) [
  | inl e ↦ rw e (
    record { table = i.table; leased = λ x h lease. i.leased x h (omega arith) },
    λ x n closed. n,
  )
  | inr (r', outbox', e, c) ↦ rw e (claim-Keeps s now locked r' outbox' le c i)
]
Step-Keeps {s} (settles later outcome r h le lt) i = settle-Keeps s later outcome r h le lt i

pub data Reach (s : Workers) : Workers → Type 0 where
  here : Reach s s
  next : {a b : Workers} → Reach s a → Step a b → Reach s b

-- However the claims and settlements of several workers follow each other, if each settlement comes
-- within the lease of its claim: ids stay distinct and each row fits its status, where a pending row
-- has fewer than 20 attempts, a published one its time and no error, a dead one 20 attempts or more
-- and its last error. A row under a lease is in the table as its worker claimed it. A published or
-- dead row is never changed again and never taken off.
pub Reach-IsSound :
    {a b : Workers}
    → Reach a b
    → IsSound a
    → IsSound b × ((x : OutboxRecord) → Has x a.outbox → IsClosed x → Has x b.outbox)
Reach-IsSound here i = (i, λ x m closed. m)
Reach-IsSound (next r t) i =
    let (i', kept) = Reach-IsSound r i in
    let (j, keeps) = Step-Keeps t i' in (j, λ x m closed. keeps x (kept x m closed) closed)
