-- ===== src/Relationship/Queries/Listing.antt =====
-- What the listing of edges returns.
use sentinel_keyvault.Common.{
  ℕ, ◌≡◌, ◌≤◌, ◌<◌, ◌⊎◌, inl, inr, Bool, true, false, Option, none, some, List, [], ◌∷◌, arith, ◌↔◌,
  refl, ◌*◌, ◌^◌, ◌&&◌, ◌==◌, ==→eq, ==-refl, text_eq→eq, text_eq_refl, Bool-cases, Text, leb,
  leb→le, select, Has, order_by, IsOrdered, order_by-Has, Has-order_by, order_by-IsOrdered,
  take-first, take-Has, take-IsOrdered, take-short, length-take-le, Has-select, select-Has, length,
}
use sentinel_keyvault.Relationship.Models.{Relationship, Direction, upstream, downstream, both}
use sentinel_keyvault.Relationship.Queries.{
  Decimal, is_listed, is_confident, end_filter, type_filter, by_id, list_edges,
}

by_id_total : (e f : Relationship) → by_id e f ≡ false → by_id f e ≡ true
by_id_total e f h = ground arith

by_id_trans : (d e f : Relationship) → by_id d e ≡ true → by_id e f ≡ true → by_id d f ≡ true
by_id_trans d e f g h = ground arith

-- What the arguments of a listing ask of an edge. An absent resource or type, or an empty type, asks
-- nothing.
abbrev pub EndsAt : Option ℕ → Direction → Relationship → Type 0
EndsAt none direction e = Unit
EndsAt (some i) upstream e = e.target_resource_id ≡ i
EndsAt (some i) downstream e = e.source_resource_id ≡ i
EndsAt (some i) both e = (e.source_resource_id ≡ i) ⊎ (e.target_resource_id ≡ i)

abbrev pub IsOfType : Option Text → Text → Type 0
IsOfType none t = Unit
IsOfType (some []) t = Unit
IsOfType (some (c ∷ cs)) t = t ≡ c ∷ cs

EndsAt-filter :
    (o : Option ℕ) (direction : Direction) (e : Relationship)
    → (end_filter o direction e ≡ true) ↔ EndsAt o direction e
EndsAt-filter none direction e = (λ h. tt, λ h. refl)
EndsAt-filter (some i) upstream e = (λ h. ==→eq e.target_resource_id i h, λ h. rw h (==-refl i))
EndsAt-filter (some i) downstream e = (λ h. ==→eq e.source_resource_id i h, λ h. rw h (==-refl i))
EndsAt-filter (some i) both e = (
  λ h. elim (Bool-cases (e.source_resource_id == i)) [
    | inl t ↦ inl (==→eq e.source_resource_id i t)
    | inr t ↦ inr (==→eq e.target_resource_id i (rw t at h))
  ],
  λ h. elim h [
    | inl q ↦ rw (q, ==-refl i) refl
    | inr q ↦ elim (Bool-cases (e.source_resource_id == i)) [
      | inl t ↦ rw t refl
      | inr t ↦ rw (t, q, ==-refl i) refl
    ]
  ],
)

IsOfType-filter : (o : Option Text) (t : Text) → (type_filter o t ≡ true) ↔ IsOfType o t
IsOfType-filter none t = (λ h. tt, λ h. refl)
IsOfType-filter (some []) t = (λ h. tt, λ h. refl)
IsOfType-filter (some (c ∷ cs)) t =
    (λ h. text_eq→eq t (c ∷ cs) h, λ h. rw h (text_eq_refl (c ∷ cs)))

both_true : (a b : Bool) → (a && b) ≡ true → (a ≡ true) × (b ≡ true)
both_true true b e = (refl, e)
both_true false b e = absurd (cc)

true_both : (a b : Bool) → a ≡ true → b ≡ true → (a && b) ≡ true
true_both a b p q = rw (p, q) refl

eq→== : (m n : ℕ) → m ≡ n → (m == n) ≡ true
eq→== m n e = rw e (==-refl n)

le→leb : (m n : ℕ) → m ≤ n → leb m n ≡ true
le→leb m n h = ground arith

module _ (tenant_id : ℕ) (resource_id : Option ℕ) (direction : Direction)
    (relationship_type : Option Text) (minimum : Decimal) (rows : List Relationship) where
  abbrev listing : List Relationship
  listing = list_edges tenant_id resource_id direction relationship_type minimum rows

  abbrev fits : Relationship → Bool
  fits = is_listed tenant_id resource_id direction relationship_type minimum

  -- An active edge of the tenant, at least as confident as the minimum, at the asked end of the
  -- resource and of the asked type.
  abbrev pub IsAsked : Relationship → Type 0
  IsAsked e =
      (e.tenant_id ≡ tenant_id)
      × (e.is_active ≡ true)
      × (minimum.digits * 1000 ≤ e.confidence * 10 ^ minimum.places)
      × EndsAt resource_id direction e
      × IsOfType relationship_type e.relationship_type

  fits-IsAsked : (e : Relationship) → (fits e ≡ true) ↔ IsAsked e
  fits-IsAsked e = (
    λ h.
        let (h1, t) = both_true _ (type_filter relationship_type e.relationship_type) h in
        let (h2, d) = both_true _ (end_filter resource_id direction e) h1 in
        let (h3, c) = both_true _ (is_confident minimum e.confidence) h2 in
        let (a, b) = both_true (e.tenant_id == tenant_id) e.is_active h3 in
        (
          ==→eq e.tenant_id tenant_id a,
          b,
          leb→le _ _ c,
          (EndsAt-filter resource_id direction e).0 d,
          (IsOfType-filter relationship_type e.relationship_type).0 t,
        ),
    λ (a, b, c, d, t).
        true_both _ _
          (true_both _ _
            (true_both _ _ (true_both _ _ (eq→== e.tenant_id tenant_id a) b) (le→leb _ _ c))
            ((EndsAt-filter resource_id direction e).1 d))
          ((IsOfType-filter relationship_type e.relationship_type).1 t),
  )

  -- A listing is in the order of the ids, has at most 2000 rows, and holds only active edges of the
  -- tenant, at least as confident as the minimum, at the asked end of the asked resource and of the
  -- asked type. Such an edge that is left out has no smaller id than any that is returned, and none
  -- is left out of a listing of fewer than 2000 rows.
  pub list_edges_lem :
      IsOrdered by_id listing
      × (length listing ≤ 2000)
      × ((e : Relationship) → Has e listing → Has e rows × IsAsked e)
      × ((e f : Relationship)
          → Has e listing
          → Has f rows
          → IsAsked f
          → Has f listing ⊎ (e.id ≤ f.id))
      × ((f : Relationship) → length listing < 2000 → Has f rows → IsAsked f → Has f listing)
  unfolding list_edges
  list_edges_lem =
      let kept = select fits rows in
      let sorted = order_by by_id kept in
      let in_order = order_by-IsOrdered by_id by_id_total by_id_trans kept in
      let chosen = λ (f : Relationship) (k : Has f rows) (a : IsAsked f).
        Has-order_by by_id kept f (Has-select fits rows k ((fits-IsAsked f).1 a)) in
      (
        take-IsOrdered by_id 2000 sorted in_order,
        length-take-le by_id 2000 sorted,
        (λ e m.
            let (h, t) =
              select-Has fits rows (order_by-Has by_id kept e (take-Has by_id 2000 sorted e m)) in
            (h, (fits-IsAsked e).0 t)),
        (λ e f m k a. elim (take-first by_id 2000 sorted e f in_order m (chosen f k a)) [
          | inl q ↦ inl q
          | inr q ↦ inr (leb→le e.id f.id q)
        ]),
        (λ f short k a. take-short by_id 2000 sorted f short (chosen f k a)),
      )
