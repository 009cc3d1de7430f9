-- ===== src/Audit/Search.antt =====
-- `AuditRepository.search` of apps/audit-service/src/sentinel_audit/repository.py. A filter that
-- is absent, or an empty text, is no condition.
pub mod Exact
use sentinel_keyvault.Common.{
  ℕ, ◌≡◌, ◌≤◌, inl, inr, ◌⊎◌, Bool, true, false, ◌&&◌, Option, none, some, List, [], ◌∷◌, arith,
  Text, text_eq, leb, ◌==◌, select, take, Has, order_by, IsOrdered, order_by-Has, Has-order_by,
  order_by-IsOrdered, take-first, take-Has, take-IsOrdered, Has-select, select-Has, length,
  take-short, length-take-le, ◌<◌,
}
use sentinel_keyvault.Audit.Models.{AuditLog}

pub record Filters : Type 0 where
  pub start : Option ℕ
  pub end : Option ℕ
  pub actor_id : Option Text
  pub action : Option Text
  pub entity_type : Option Text
  pub entity_id : Option Text
  pub outcome : Option Text
  pub correlation_id : Option ℕ

abbrev pub text_filter : Option Text → Text → Bool
text_filter none s = true
text_filter (some []) s = true
text_filter (some (c ∷ cs)) s = text_eq s (c ∷ cs)

-- A comparison with a null column does not hold.
abbrev pub null_text_filter : Option Text → Option Text → Bool
null_text_filter none s = true
null_text_filter (some []) s = true
null_text_filter (some (c ∷ cs)) none = false
null_text_filter (some (c ∷ cs)) (some s) = text_eq s (c ∷ cs)

abbrev pub at_least : Option ℕ → ℕ → Bool
at_least none n = true
at_least (some a) n = leb a n

abbrev pub at_most : Option ℕ → ℕ → Bool
at_most none n = true
at_most (some a) n = leb n a

abbrev pub equals : Option ℕ → ℕ → Bool
equals none n = true
equals (some a) n = n == a

module _ {Hash : Type 0} where
  unfoldable pub matches : ℕ → Filters → AuditLog Hash → Bool
  matches tenant_id f r =
      r.tenant_id == tenant_id
      && at_least f.start r.occurred_at
      && at_most f.end r.occurred_at
      && text_filter f.actor_id r.actor_id
      && text_filter f.action r.action
      && text_filter f.entity_type r.entity_type
      && null_text_filter f.entity_id r.entity_id
      && text_filter f.outcome r.outcome
      && equals f.correlation_id r.correlation_id

  -- `occurred_at DESC`
  abbrev pub is_newer : AuditLog Hash → AuditLog Hash → Bool
  is_newer r s = leb s.occurred_at r.occurred_at

  unfoldable pub search : ℕ → Filters → ℕ → List (AuditLog Hash) → List (AuditLog Hash)
  unfolding matches
  search tenant_id f limit logs = take limit (order_by is_newer (select (matches tenant_id f) logs))
