-- ===== src/Audit/Tamper.antt =====
-- What the hash chain of the audit log protects.
use sentinel_keyvault.Common.{
  ℕ, Text, ◌≡◌, refl, ap, sym, ◌∙◌, Option, none, some, List, [], ◌∷◌, ◌++◌, map,
}
use mathlib.Core.List.{append-nil}
use sentinel_keyvault.Audit.Models.{AuditLog, Evidence, evidence_of_row}
use sentinel_keyvault.Audit.Chain.{IsChain, of_tenant}
use sentinel_keyvault.Audit.History.{Delivery, IsTimed, deliver_all, deliver_all-IsChain}

abbrev rev_onto : {A : Type 0} → List A → List A → List A
rev_onto acc [] = acc
rev_onto acc (x ∷ xs) = rev_onto (x ∷ acc) xs

rev_onto-rev_onto :
    {A : Type 0} (a b xs : List A) → rev_onto a (rev_onto b xs) ≡ rev_onto (xs ++ a) b
rev_onto-rev_onto a b [] = refl
rev_onto-rev_onto a b (x ∷ xs) = rev_onto-rev_onto a (x ∷ b) xs

map-rev_onto :
    {A B : Type 0} (f : A → B) (acc xs : List A)
    → map f (rev_onto acc xs) ≡ rev_onto (map f acc) (map f xs)
map-rev_onto f acc [] = refl
map-rev_onto f acc (x ∷ xs) = map-rev_onto f (x ∷ acc) xs

rev_onto-twice : {A : Type 0} (xs : List A) → rev_onto [] (rev_onto [] xs) ≡ xs
rev_onto-twice xs = rev_onto-rev_onto [] [] xs ∙ append-nil xs

module _ {Hash : Type 0} where
  -- The hash of the newest row, where the newest stands first.
  abbrev newest_hash : List (AuditLog Hash) → Option Hash
  newest_hash [] = none
  newest_hash (r ∷ rs) = some r.record_hash

  -- The hash of the last row in the order of insertion.
  abbrev pub last_hash : List (AuditLog Hash) → Option Hash
  last_hash rs = newest_hash (rev_onto [] rs)

  module _ (sha256 : Evidence → Option Hash → Hash) where
    abbrev IsBack : List (AuditLog Hash) → Type 0
    IsBack [] = Unit
    IsBack (r ∷ rs) = (r.record_hash ≡ sha256 (evidence_of_row r) (newest_hash rs)) × IsBack rs

    chain-IsBack :
        (p : Option Hash) (acc rs : List (AuditLog Hash))
        → newest_hash acc ≡ p
        → IsBack acc
        → IsChain sha256 p rs
        → IsBack (rev_onto acc rs)
    chain-IsBack p acc [] e b c = b
    chain-IsBack p acc (r ∷ rs) e b c =
        chain-IsBack (some r.record_hash) (r ∷ acc) rs refl
          (c.1 ∙ ap (sha256 (evidence_of_row r)) (c.0 ∙ sym e), b) c.2

    back_same :
        ((a b : Evidence) (p q : Option Hash) → sha256 a p ≡ sha256 b q → (a ≡ b) × (p ≡ q))
        → (xs ys : List (AuditLog Hash)) → IsBack xs
        → IsBack ys
        → newest_hash xs ≡ newest_hash ys
        → map evidence_of_row xs ≡ map evidence_of_row ys
    back_same inj [] [] bx b e = refl
    back_same inj [] (y ∷ ys) bx b e = absurd (cc)
    back_same inj (x ∷ xs) [] bx b e = absurd (cc)
    back_same inj (x ∷ xs) (y ∷ ys) bx b e =
        let q : x.record_hash ≡ y.record_hash = cc in
        let (same, older) =
          inj (evidence_of_row x) (evidence_of_row y) (newest_hash xs) (newest_hash ys)
            (sym bx.0 ∙ q ∙ b.0) in
        cc (same, back_same inj xs ys bx.1 b.1 older)

module _ {Hash : Type 0} where
  -- Everything that the hash of a row is to protect.
  abbrev pub Agrees : AuditLog Hash → AuditLog Hash → Type 0
  Agrees r s =
      (r.event_id ≡ s.event_id)
      × (r.tenant_id ≡ s.tenant_id)
      × (r.occurred_at ≡ s.occurred_at)
      × (r.actor_type ≡ s.actor_type)
      × (r.actor_id ≡ s.actor_id)
      × (r.action ≡ s.action)
      × (r.entity_type ≡ s.entity_type)
      × (r.entity_id ≡ s.entity_id)
      × (r.outcome ≡ s.outcome)
      × (r.source_service ≡ s.source_service)
      × (r.correlation_id ≡ s.correlation_id)
      × (r.metadata_json ≡ s.metadata_json)

  -- As many rows, which agree one by one.
  abbrev pub AllAgree : List (AuditLog Hash) → List (AuditLog Hash) → Type 0
  AllAgree [] [] = Unit
  AllAgree [] (s ∷ ss) = ⊥
  AllAgree (r ∷ rs) [] = ⊥
  AllAgree (r ∷ rs) (s ∷ ss) = Agrees r s × AllAgree rs ss

  evidence-Agrees : (r s : AuditLog Hash) → evidence_of_row r ≡ evidence_of_row s → Agrees r s
  evidence-Agrees r s e = (
    ap (λ (v : Evidence). v.event_id) e,
    ap (λ (v : Evidence). v.tenant_id) e,
    ap (λ (v : Evidence). v.occurred_at) e,
    ap (λ (v : Evidence). v.actor_type) e,
    ap (λ (v : Evidence). v.actor_id) e,
    ap (λ (v : Evidence). v.action) e,
    ap (λ (v : Evidence). v.entity_type) e,
    ap (λ (v : Evidence). v.entity_id) e,
    ap (λ (v : Evidence). v.outcome) e,
    ap (λ (v : Evidence). v.source) e,
    ap (λ (v : Evidence). v.correlation_id) e,
    ap (λ (v : Evidence). v.payload) e,
  )

  evidence-AllAgree :
      (rs ss : List (AuditLog Hash))
      → map evidence_of_row rs ≡ map evidence_of_row ss
      → AllAgree rs ss
  evidence-AllAgree [] [] e = tt
  evidence-AllAgree [] (s ∷ ss) e = absurd (cc)
  evidence-AllAgree (r ∷ rs) [] e = absurd (cc)
  evidence-AllAgree (r ∷ rs) (s ∷ ss) e = (evidence-Agrees r s cc, evidence-AllAgree rs ss cc)

-- The two chains end in the same hash, so they have the same evidence in the same order.
last_hash-map :
    {Hash : Type 0} (sha256 : Evidence → Option Hash → Hash)
    → ((a b : Evidence) (p q : Option Hash) → sha256 a p ≡ sha256 b q → (a ≡ b) × (p ≡ q))
    → (xs ys : List (AuditLog Hash)) → IsChain sha256 none xs
    → IsChain sha256 none ys
    → last_hash xs ≡ last_hash ys
    → map evidence_of_row xs ≡ map evidence_of_row ys
last_hash-map sha256 inj xs ys cx c e =
    let back =
      back_same sha256 inj (rev_onto [] xs) (rev_onto [] ys)
        (chain-IsBack sha256 none [] xs refl tt cx) (chain-IsBack sha256 none [] ys refl tt c) e in
    let flat =
      sym (map-rev_onto evidence_of_row [] xs) ∙ back ∙ map-rev_onto evidence_of_row [] ys in
    sym (rev_onto-twice (map evidence_of_row xs))
    ∙ ap (rev_onto []) flat
    ∙ rev_onto-twice (map evidence_of_row ys)

-- Let the events of any deliveries be ingested, one transaction after the other, and let the hash of
-- a record and a previous hash determine both. Whoever then puts other rows of the tenant in the
-- place of the ingested ones, in a table that is still a chain and ends in the same hash, has as many
-- rows in the same order, and none of the columns that tell what happened differs: the event, the
-- tenant, the time, the actor, the action, the entity, the outcome, the service, the correlation and
-- the metadata.
pub last_hash_determines :
    {Hash : Type 0} (parse_uuid : Text → Option ℕ) (sha256 : Evidence → Option Hash → Hash)
    → ((a b : Evidence) (p q : Option Hash) → sha256 a p ≡ sha256 b q → (a ≡ b) × (p ≡ q))
    → (ds : List Delivery) (tenant_id : ℕ) (altered : List (AuditLog Hash))
    → IsTimed parse_uuid sha256 0 ds
    → IsChain sha256 none altered
    → let logs = (deliver_all parse_uuid sha256 ds (record { logs = []; activity = [] })).logs in
      last_hash altered ≡ last_hash (of_tenant tenant_id logs)
      → AllAgree altered (of_tenant tenant_id logs)
last_hash_determines parse_uuid sha256 inj ds tenant_id altered timed chain e =
    let logs = (deliver_all parse_uuid sha256 ds (record { logs = []; activity = [] })).logs in
    evidence-AllAgree altered (of_tenant tenant_id logs) (
      last_hash-map sha256 inj altered (of_tenant tenant_id logs) chain
        (deliver_all-IsChain parse_uuid sha256 ds tenant_id timed).0 e)
