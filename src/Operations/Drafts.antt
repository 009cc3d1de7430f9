-- ===== src/Operations/Drafts.antt =====
-- What the tables of the service hold after any sequence of requests.
use sentinel_keyvault.Common.{
  ℕ, suc, ◌≡◌, refl, sym, ap, ◌∙◌, Bool, false, inl, inr, none, some, List, [], ◌∷◌, ◌++◌, arith,
  Text, codes, text_eq, find, length, length-append, All, All-find, All-append_one, Bool-cases,
  Option-cases,
}
use sentinel_keyvault.Platform.Outbox.{enqueue_audit}
use sentinel_keyvault.Operations.{
  Operation, OperationCreate, Tables, definition_of, is_operation, new_operation, create,
}
use sentinel_keyvault.Operations.Catalog.{ActionDefinition, action_catalog}

-- A draft of a catalogued action, of which nothing was executed and no executor is enabled.
abbrev pub IsDraft : Operation → Type 0
IsDraft o =
    (o.status ≡ codes "draft")
    × ((d : ActionDefinition) × (definition_of o.action_type ≡ some d))
    × (o.executor_enabled ≡ false)
    × (o.started_at ≡ none)
    × (o.completed_at ≡ none)

-- No two operations of a tenant have the same idempotency key.
abbrev pub IsKeyed : List Operation → Type 0
IsKeyed [] = Unit
IsKeyed (o ∷ os) = All (λ p. is_operation p.tenant_id p.idempotency_key o ≡ false) os × IsKeyed os

abbrev pub IsSound : Tables → Type 0
IsSound t =
    All IsDraft t.operations × IsKeyed t.operations × (length t.outbox ≡ length t.operations)

catalog_disabled :
    (p : ActionDefinition → Bool) (d : ActionDefinition)
    → find p action_catalog ≡ some d
    → d.enabled ≡ false
catalog_disabled p d e =
    All-find (λ d. d.enabled ≡ false) p action_catalog
      (refl, (refl, (refl, (refl, (refl, (refl, (refl, tt))))))) e

one_more : {A : Type 0} (xs : List A) (x : A) → length (xs ++ x ∷ []) ≡ suc (length xs)
one_more xs x = omega (arith, length-append xs (x ∷ []))

IsKeyed-append :
    (os : List Operation) (o : Operation)
    → IsKeyed os
    → find (is_operation o.tenant_id o.idempotency_key) os ≡ none
    → IsKeyed (os ++ o ∷ [])
IsKeyed-append [] o k e = (tt, tt)
IsKeyed-append (p ∷ os) o k e = elim (Bool-cases (is_operation o.tenant_id o.idempotency_key p)) [
  | inl t ↦ let q : some p ≡ none = rw t at e in absurd (cc)
  | inr t ↦ (
    All-append_one (λ q. is_operation q.tenant_id q.idempotency_key p ≡ false) os k.0 t,
    IsKeyed-append os o k.1 (rw t at e),
  )
]

module _ (print : ℕ → Text) where
  create-IsSound :
      (event_id now : ℕ) (q : OperationCreate) (t : Tables)
      → IsSound t
      → IsSound (create print event_id now q t).1
  unfolding create enqueue_audit
  create-IsSound event_id now q t (drafts, keyed, paired) =
      elim (Option-cases (definition_of q.action_type)) [
        | inl e ↦ rw (e, create) (drafts, keyed, paired)
        | inr (d, e) ↦
            elim (Option-cases (find (is_operation q.tenant_id q.idempotency_key) t.operations)) [
              | inr (o, f) ↦ rw (e, create) (rw (f, create) (drafts, keyed, paired))
              | inl f ↦
                  rw (e, create)
                    (rw (f, create)
                      (
                        All-append_one IsDraft t.operations drafts (
                          refl,
                          (d, e),
                          catalog_disabled (λ d. text_eq d.action_type q.action_type) d e,
                          refl,
                          refl,
                        ),
                        IsKeyed-append t.operations (new_operation t.next_id q d) keyed f,
                        one_more t.outbox _
                            ∙ ap (λ n. suc n) paired
                            ∙ sym (one_more t.operations _),
                      ))
            ]
      ]

  -- The requests that come in, with the fresh ids and the times of their events.
  pub run : List (ℕ × ℕ × OperationCreate) → Tables → Tables
  run [] t = t
  run ((event_id, now, q) ∷ qs) t = run qs (create print event_id now q t).1

  run-IsSound : (qs : List (ℕ × ℕ × OperationCreate)) (t : Tables) → IsSound t → IsSound (run qs t)
  unfolding run
  run-IsSound [] t h = h
  run-IsSound ((event_id, now, q) ∷ qs) t h =
      run-IsSound qs (create print event_id now q t).1 (create-IsSound event_id now q t h)

  -- After any sequence of requests to empty tables, every operation is a draft of a catalogued
  -- action with no executor enabled and nothing started, no two operations of a tenant have the
  -- same idempotency key, and there is one audit record for each operation.
  pub run_drafts :
      (qs : List (ℕ × ℕ × OperationCreate)) (next_id : ℕ)
      → IsSound (run qs (record { operations = []; outbox = []; next_id = next_id }))
  run_drafts qs next_id =
      run-IsSound qs (record { operations = []; outbox = []; next_id = next_id }) (tt, tt, refl)
