-- ===== src/Audit/Search/Exact.antt =====
-- What `search` returns.
use sentinel_keyvault.Common.{
  ℕ, ◌≡◌, ◌≤◌, inl, inr, ◌⊎◌, Bool, true, false, ◌&&◌, Option, none, some, List, [], ◌∷◌, arith,
  ◌↔◌, refl, ap, text_eq→eq, text_eq_refl, leb→le, ==→eq, ==-refl, Text, ◌==◌, select, Has,
  order_by, IsOrdered, order_by-Has, Has-order_by, order_by-IsOrdered, take-first, take-Has,
  take-IsOrdered, Has-select, select-Has, length, take-short, length-take-le, ◌<◌,
}
use sentinel_keyvault.Audit.Models.{AuditLog}
use sentinel_keyvault.Audit.Search.{
  Filters, text_filter, null_text_filter, at_least, at_most, equals, matches, is_newer, search,
}

-- What each filter asks of a column. An absent one, or an empty text, asks nothing.
abbrev pub AsksText : Option Text → Text → Type 0
AsksText none column = Unit
AsksText (some []) column = Unit
AsksText (some (c ∷ cs)) column = column ≡ c ∷ cs

abbrev pub AsksNullText : Option Text → Option Text → Type 0
AsksNullText none column = Unit
AsksNullText (some []) column = Unit
AsksNullText (some (c ∷ cs)) column = column ≡ some (c ∷ cs)

abbrev pub AsksFrom : Option ℕ → ℕ → Type 0
AsksFrom none column = Unit
AsksFrom (some time) column = time ≤ column

abbrev pub AsksUntil : Option ℕ → ℕ → Type 0
AsksUntil none column = Unit
AsksUntil (some time) column = column ≤ time

abbrev pub AsksEqual : Option ℕ → ℕ → Type 0
AsksEqual none column = Unit
AsksEqual (some n) column = column ≡ n

AsksText-filter : (o : Option Text) (s : Text) → (text_filter o s ≡ true) ↔ AsksText o s
AsksText-filter none s = (λ e. tt, λ a. refl)
AsksText-filter (some []) s = (λ e. tt, λ a. refl)
AsksText-filter (some (c ∷ cs)) s =
    (λ e. text_eq→eq s (c ∷ cs) e, λ a. rw a (text_eq_refl (c ∷ cs)))

AsksNullText-filter : (o s : Option Text) → (null_text_filter o s ≡ true) ↔ AsksNullText o s
AsksNullText-filter none s = (λ e. tt, λ a. refl)
AsksNullText-filter (some []) s = (λ e. tt, λ a. refl)
AsksNullText-filter (some (c ∷ cs)) none = (λ e. absurd (cc), λ a. absurd (cc))
AsksNullText-filter (some (c ∷ cs)) (some s) = (
  λ e. ap some (text_eq→eq s (c ∷ cs) e),
  λ a. let same : s ≡ c ∷ cs = cc in rw same (text_eq_refl (c ∷ cs)),
)

AsksFrom-at_least : (o : Option ℕ) (n : ℕ) → (at_least o n ≡ true) ↔ AsksFrom o n
AsksFrom-at_least none n = (λ e. tt, λ a. refl)
AsksFrom-at_least (some t) n = (λ e. leb→le t n e, λ a. ground arith)

AsksUntil-at_most : (o : Option ℕ) (n : ℕ) → (at_most o n ≡ true) ↔ AsksUntil o n
AsksUntil-at_most none n = (λ e. tt, λ a. refl)
AsksUntil-at_most (some t) n = (λ e. leb→le n t e, λ a. ground arith)

AsksEqual-equals : (o : Option ℕ) (n : ℕ) → (equals o n ≡ true) ↔ AsksEqual o n
AsksEqual-equals none n = (λ e. tt, λ a. refl)
AsksEqual-equals (some t) n = (λ e. ==→eq n t e, λ a. rw a (==-refl t))

both-true : (a b : Bool) → (a && b) ≡ true → (a ≡ true) × (b ≡ true)
both-true true b e = (refl, e)
both-true false b e = absurd (cc)

module _ {Hash : Type 0} where
  -- A row of the tenant that meets every filter.
  abbrev pub IsAsked : ℕ → Filters → AuditLog Hash → Type 0
  IsAsked tenant_id f r =
      (r.tenant_id ≡ tenant_id)
      × AsksFrom f.start r.occurred_at
      × AsksUntil f.end r.occurred_at
      × AsksText f.actor_id r.actor_id
      × AsksText f.action r.action
      × AsksText f.entity_type r.entity_type
      × AsksNullText f.entity_id r.entity_id
      × AsksText f.outcome r.outcome
      × AsksEqual f.correlation_id r.correlation_id

  matches-IsAsked :
      (tenant_id : ℕ) (f : Filters) (r : AuditLog Hash)
      → (matches tenant_id f r ≡ true) ↔ IsAsked tenant_id f r
  unfolding matches
  matches-IsAsked tenant_id f r = (
    λ e.
        let (e1, k) = both-true _ (equals f.correlation_id r.correlation_id) e in
        let (e2, j) = both-true _ (text_filter f.outcome r.outcome) e1 in
        let (e3, i) = both-true _ (null_text_filter f.entity_id r.entity_id) e2 in
        let (e4, h) = both-true _ (text_filter f.entity_type r.entity_type) e3 in
        let (e5, g) = both-true _ (text_filter f.action r.action) e4 in
        let (e6, d) = both-true _ (text_filter f.actor_id r.actor_id) e5 in
        let (e7, c) = both-true _ (at_most f.end r.occurred_at) e6 in
        let (a, b) = both-true (r.tenant_id == tenant_id) (at_least f.start r.occurred_at) e7 in
        (
          ==→eq r.tenant_id tenant_id a,
          (AsksFrom-at_least f.start r.occurred_at).0 b,
          (AsksUntil-at_most f.end r.occurred_at).0 c,
          (AsksText-filter f.actor_id r.actor_id).0 d,
          (AsksText-filter f.action r.action).0 g,
          (AsksText-filter f.entity_type r.entity_type).0 h,
          (AsksNullText-filter f.entity_id r.entity_id).0 i,
          (AsksText-filter f.outcome r.outcome).0 j,
          (AsksEqual-equals f.correlation_id r.correlation_id).0 k,
        ),
    λ (a, b, c, d, g, h, i, j, k).
        rw
          (
            a,
            ==-refl tenant_id,
            (AsksFrom-at_least f.start r.occurred_at).1 b,
            (AsksUntil-at_most f.end r.occurred_at).1 c,
            (AsksText-filter f.actor_id r.actor_id).1 d,
            (AsksText-filter f.action r.action).1 g,
            (AsksText-filter f.entity_type r.entity_type).1 h,
            (AsksNullText-filter f.entity_id r.entity_id).1 i,
            (AsksText-filter f.outcome r.outcome).1 j,
            (AsksEqual-equals f.correlation_id r.correlation_id).1 k,
          )
          refl,
  )

  is_newer_total : (r s : AuditLog Hash) → is_newer r s ≡ false → is_newer s r ≡ true
  is_newer_total r s h = ground arith

  is_newer_trans :
      (q r s : AuditLog Hash) → is_newer q r ≡ true → is_newer r s ≡ true → is_newer q s ≡ true
  is_newer_trans q r s g h = ground arith

  is_newer_le : (r s : AuditLog Hash) → is_newer r s ≡ true → s.occurred_at ≤ r.occurred_at
  is_newer_le r s h = ground arith

  -- A search returns at most `limit` rows, the newest first. They are rows of the tenant, at or after
  -- the start, at or before the end, and with the actor, action, entity, outcome and correlation that
  -- are asked for. Such a row that is left out is no newer than any that is returned, and none is
  -- left out of an answer with fewer rows than `limit`.
  pub search_lem :
      (tenant_id limit : ℕ) (f : Filters) (logs : List (AuditLog Hash))
      → IsOrdered is_newer (search tenant_id f limit logs)
        × (length (search tenant_id f limit logs) ≤ limit)
        × ((r : AuditLog Hash)
            → Has r (search tenant_id f limit logs)
            → Has r logs × IsAsked tenant_id f r)
        × ((r s : AuditLog Hash)
            → Has r (search tenant_id f limit logs)
            → Has s logs
            → IsAsked tenant_id f s
            → Has s (search tenant_id f limit logs) ⊎ (s.occurred_at ≤ r.occurred_at))
        × ((s : AuditLog Hash)
            → length (search tenant_id f limit logs) < limit
            → Has s logs
            → IsAsked tenant_id f s
            → Has s (search tenant_id f limit logs))
  unfolding search
  search_lem tenant_id limit f logs =
      let kept = select (matches tenant_id f) logs in
      let sorted = order_by is_newer kept in
      let in_order = order_by-IsOrdered is_newer is_newer_total is_newer_trans kept in
      let chosen = λ (s : AuditLog Hash) (k : Has s logs) (a : IsAsked tenant_id f s).
        Has-order_by is_newer kept s
          (Has-select (matches tenant_id f) logs k ((matches-IsAsked tenant_id f s).1 a)) in
      (
        take-IsOrdered is_newer limit sorted in_order,
        length-take-le is_newer limit sorted,
        (λ r m.
            let (h, t) =
              select-Has (matches tenant_id f) logs
                (order_by-Has is_newer kept r (take-Has is_newer limit sorted r m)) in
            (h, (matches-IsAsked tenant_id f r).0 t)),
        (λ r s m k a. elim (take-first is_newer limit sorted r s in_order m (chosen s k a)) [
          | inl q ↦ inl q
          | inr q ↦ inr (is_newer_le r s q)
        ]),
        (λ s short k a. take-short is_newer limit sorted s short (chosen s k a)),
      )
