-- ===== src/Platform/Outbox/Lifecycle.antt =====
-- What each operation that writes to the outbox keeps of its rows.
use sentinel_keyvault.Common.{
  ℕ, ◌≤◌, ◌<◌, ◌≡◌, ◌≢◌, refl, inl, inr, Bool, true, false, Option, none, some, List, Text,
  Distinct, Distinct-Has, Distinct-write, All-write, All-Has, Has-write_ne, ltb→lt, arith, ltb, Has,
  All, Bool-cases, ltb-false,
}
use sentinel_keyvault.Platform.Outbox.{
  OutboxRecord, record_id, is_open, Status, pending, publishing, published, dead, Outcome,
  claimable, claimed, settle, settle_held,
}
use sentinel_keyvault.Platform.Outbox.Queue.{Claims}
use sentinel_keyvault.Platform.Outbox.Settled.{settle-same, settle_held-eq-write}

-- What each status says of the other columns of a row.
abbrev pub Fits : Status → ℕ → Option ℕ → Option Text → Type 0
Fits pending attempts at error = (attempts < 20) × (at ≡ none)
Fits publishing attempts at error = (1 ≤ attempts) × (at ≡ none)
Fits published attempts at error = (1 ≤ attempts) × (at ≢ none) × (error ≡ none)
Fits dead attempts at error = (20 ≤ attempts) × (at ≡ none) × (error ≢ none)

abbrev pub IsValid : OutboxRecord → Type 0
IsValid r = Fits r.status r.attempts r.published_at r.last_error

Fits-open :
    (s : Status) (n : ℕ) (at : Option ℕ) (error : Option Text)
    → is_open s ≡ true
    → Fits s n at error
    → at ≡ none
Fits-open pending n at error h f = f.1
Fits-open publishing n at error h f = f.1
Fits-open published n at error h f = absurd (cc)
Fits-open dead n at error h f = absurd (cc)

claimed-IsValid :
    (now : ℕ) (locked : ℕ → Bool) (r : OutboxRecord)
    → claimable now locked r ≡ true
    → IsValid r
    → IsValid (claimed now r)
unfolding claimed claimable
claimed-IsValid now locked r h v =
    (omega arith, Fits-open r.status r.attempts r.published_at r.last_error (ground arith) v)

settle-IsValid :
    (later : ℕ) (outcome : Outcome) (r : OutboxRecord)
    → Fits publishing r.attempts r.published_at r.last_error
    → IsValid (settle later outcome r)
unfolding settle
settle-IsValid later none r v = (v.0, λ e. cc, refl)
settle-IsValid later (some error) r v = elim (Bool-cases (ltb r.attempts 20)) [
  | inl e ↦ rw e (ltb→lt _ _ e, v.1)
  | inr e ↦ rw e (ltb-false _ _ e, v.1, λ q. cc)
]

pub record IsTableSound (outbox : List OutboxRecord) : Type 0 where
  pub keyed : Distinct record_id outbox
  pub rows : All IsValid outbox

-- A record with a status that no claim takes.
abbrev pub IsClosed : OutboxRecord → Type 0
IsClosed r = is_open r.status ≡ false

pub claim-IsTableSound :
    (now : ℕ) (locked : ℕ → Bool) (outbox : List OutboxRecord)
    (result : Option OutboxRecord × List OutboxRecord)
    → Claims now locked outbox result
    → IsTableSound outbox
    → IsTableSound result.1
claim-IsTableSound now locked outbox (none, outbox') (same, _) s = rw same s
claim-IsTableSound now locked outbox (some r', outbox') (r, m, ok, _, e, w) s =
    rw (w, e)
      (record {
        keyed = Distinct-write record_id (claimed now r) outbox s.keyed;
        rows =
            All-write record_id IsValid (claimed now r) outbox
              (claimed-IsValid now locked r ok (All-Has IsValid outbox s.rows m)) s.rows;
      })

claimable-open :
    (now : ℕ) (locked : ℕ → Bool) (r : OutboxRecord)
    → claimable now locked r ≡ true
    → is_open r.status ≡ true
unfolding claimable
claimable-open now locked r h = ground arith

pub claimed_ne :
    (now : ℕ) (locked : ℕ → Bool) (outbox : List OutboxRecord) (r x : OutboxRecord)
    → IsTableSound outbox
    → Has r outbox
    → claimable now locked r ≡ true
    → Has x outbox
    → IsClosed x
    → x.id ≢ r.id
claimed_ne now locked outbox r x s m ok mx closed e = cc (
  claimable-open now locked r ok,
  closed,
  Distinct-Has record_id outbox {a = x} {b = r} s.keyed mx m e,
)

pub settle_held-IsTableSound :
    (later : ℕ) (outcome : Outcome) (held : OutboxRecord) (outbox : List OutboxRecord)
    → Has held outbox
    → held.status ≡ publishing
    → IsTableSound outbox
    → IsTableSound (settle_held later outcome held outbox)
settle_held-IsTableSound later outcome held outbox m open' s =
    let fits : IsValid held = All-Has IsValid outbox s.rows m in
    let v = rw open' at fits in
    rw
      (settle_held-eq-write later outcome held outbox
        (λ x n e. Distinct-Has record_id outbox s.keyed n m e))
      (record {
        keyed = Distinct-write record_id (settle later outcome held) outbox s.keyed;
        rows =
            All-write record_id IsValid (settle later outcome held) outbox
              (settle-IsValid later outcome held v) s.rows;
      })

-- A row with another id is not touched by a settlement.
pub settle_held-Has :
    (later : ℕ) (outcome : Outcome) (held : OutboxRecord) (outbox : List OutboxRecord)
    (x : OutboxRecord)
    → Has held outbox
    → IsTableSound outbox
    → Has x outbox
    → x.id ≢ held.id
    → Has x (settle_held later outcome held outbox)
settle_held-Has later outcome held outbox x m s n ne =
    rw
      (settle_held-eq-write later outcome held outbox
        (λ y k e. Distinct-Has record_id outbox s.keyed k m e))
      (Has-write_ne record_id (settle later outcome held) outbox n
        (rw (settle-same later outcome held).0 ne))
