-- ===== src/Relationship/Edges/Whole.antt =====
-- What a whole run of `rebuild_edges` leaves, in terms of the rows alone.
use sentinel_keyvault.Common.{
  ℕ, ◌≡◌, ◌≢◌, ◌⊎◌, refl, inl, inr, Bool, true, false, none, some, List, ◌&&◌, ◌==◌, ==→eq, ==-refl,
  ==-false, text_eq, text_eq→eq, text_eq_refl, Has, find, find-Has, find-none, Distinct, Bool-cases,
  Option-cases,
}
use sentinel_keyvault.Relationship.Models.{ResourceNode, Relationship}
use sentinel_keyvault.Relationship.Extract.{EdgeCandidate}
use sentinel_keyvault.Relationship.Edges.{ExtractorName, in_scope, resolve, connects, rebuild_edges}
use sentinel_keyvault.Relationship.Edges.Rebuild.{edge_id}
use sentinel_keyvault.Relationship.Edges.Exact.{rebuild_edges-Supported}

both_true : (a b : Bool) → (a && b) ≡ true → (a ≡ true) × (b ≡ true)
both_true true b e = (refl, e)
both_true false b e = absurd (cc)

module _ (tenant_id : ℕ) (source : ResourceNode) (extractor : ExtractorName) where
  -- An edge of the tenant from the source, made by the extractor.
  abbrev pub Belongs : Relationship → Type 0
  Belongs e =
      (e.tenant_id ≡ tenant_id)
      × (e.source_resource_id ≡ source.inventory_resource_id)
      × (e.extractor_name ≡ extractor.name)

  -- A stored node of the tenant with the identifier that the candidate names.
  abbrev pub IsNamed : List ResourceNode → EdgeCandidate → ResourceNode → Type 0
  IsNamed nodes c t =
      Has t nodes × (t.tenant_id ≡ tenant_id) × (t.normalized_resource_id ≡ c.target_resource_id)

  in_scope-Belongs : (e : Relationship) → in_scope tenant_id source extractor e ≡ true → Belongs e
  in_scope-Belongs e h =
      let (t, rest) = both_true (e.tenant_id == tenant_id) _ h in
      let (s, x) =
        both_true (e.source_resource_id == source.inventory_resource_id)
          (text_eq e.extractor_name extractor.name) rest in
      (
        ==→eq e.tenant_id tenant_id t,
        ==→eq e.source_resource_id source.inventory_resource_id s,
        text_eq→eq e.extractor_name extractor.name x,
      )

  Belongs-in_scope : (e : Relationship) → Belongs e → in_scope tenant_id source extractor e ≡ true
  Belongs-in_scope e (t, s, x) =
      let a : (e.tenant_id == tenant_id) ≡ true = rw t (==-refl tenant_id) in
      let b : (e.source_resource_id == source.inventory_resource_id) ≡ true =
        rw s (==-refl source.inventory_resource_id) in
      let c : text_eq e.extractor_name extractor.name ≡ true = rw x (text_eq_refl extractor.name) in
      rw (a, b, c) refl

  resolve-IsNamed :
      (nodes : List ResourceNode) (c : EdgeCandidate) (t : ResourceNode)
      → resolve tenant_id source extractor nodes c ≡ some t
      → IsNamed nodes c t × (t.inventory_resource_id ≢ source.inventory_resource_id)
  unfolding resolve
  resolve-IsNamed nodes c t h =
      let p = λ (n : ResourceNode).
        n.tenant_id == tenant_id && text_eq n.normalized_resource_id c.target_resource_id in
      elim (Option-cases (find p nodes)) [
        | inl e ↦ let no : none ≡ some t = rw (e, resolve) at h in absurd (cc)
        | inr (n, e) ↦ elim (Bool-cases (n.inventory_resource_id == source.inventory_resource_id)) [
          | inl own ↦ let no : none ≡ some t = rw (e, resolve, own) at h in absurd (cc)
          | inr other ↦
              let same : some n ≡ some t = rw (e, resolve, other) at h in
              let eq : n ≡ t = cc in
              let (m, k) = find-Has p nodes e in
              let (a, b) = both_true (n.tenant_id == tenant_id) _ k in
              rw (← eq) (
                (
                  m,
                  ==→eq n.tenant_id tenant_id a,
                  text_eq→eq n.normalized_resource_id c.target_resource_id b,
                ),
                ==-false n.inventory_resource_id source.inventory_resource_id other,
              )
        ]
      ]

  IsNamed-resolve :
      (nodes : List ResourceNode) (c : EdgeCandidate) (n : ResourceNode)
      → IsNamed nodes c n
      → (t : ResourceNode) × IsNamed nodes c t
        × ((t.inventory_resource_id ≡ source.inventory_resource_id)
            ⊎ (resolve tenant_id source extractor nodes c ≡ some t))
  unfolding resolve
  IsNamed-resolve nodes c n (m, t, named) =
      let p = λ (n : ResourceNode).
        n.tenant_id == tenant_id && text_eq n.normalized_resource_id c.target_resource_id in
      let a : (n.tenant_id == tenant_id) ≡ true = rw t (==-refl tenant_id) in
      let b : text_eq n.normalized_resource_id c.target_resource_id ≡ true =
        rw named (text_eq_refl c.target_resource_id) in
      let fits : p n ≡ true = rw (a, b) refl in
      elim (Option-cases (find p nodes)) [
        | inl e ↦ absurd (cc (find-none p nodes n e m, fits))
        | inr (x, e) ↦
            let (mx, k) = find-Has p nodes e in
            let (ax, bx) = both_true (x.tenant_id == tenant_id) _ k in
            let stored : IsNamed nodes c x = (
              mx,
              ==→eq x.tenant_id tenant_id ax,
              text_eq→eq x.normalized_resource_id c.target_resource_id bx,
            ) in
            elim (Bool-cases (x.inventory_resource_id == source.inventory_resource_id)) [
              | inl own ↦
                  (x, stored, inl (==→eq x.inventory_resource_id source.inventory_resource_id own))
              | inr other ↦ (x, stored, inr (rw (e, resolve, other) refl))
            ]
      ]

connects-fields :
    (c : EdgeCandidate) (t : ResourceNode) (e : Relationship)
    → connects c t e ≡ true
    → (e.target_resource_id ≡ t.inventory_resource_id) × (e.relationship_type ≡ c.relationship_type)
connects-fields c t e h =
    let (a, b) = both_true (e.target_resource_id == t.inventory_resource_id) _ h in
    (==→eq _ _ a, text_eq→eq _ _ b)

-- After a rebuild of a source's edges, from a table with distinct ids and with new ids for new rows:
-- an edge of the tenant, the source and the extractor is active only if a candidate of its type names
-- a stored node of the tenant, which is its target and not the source; a candidate that resolves to a
-- node has an active edge of its type to that node; a candidate that names a stored node resolves to
-- one of that identifier, unless that one is the source; and a row of another tenant, source or
-- extractor is as it was.
pub rebuild_edges_exact :
    (tenant_id : ℕ) (source : ResourceNode) (extractor : ExtractorName) (uuid4 : ℕ → ℕ) (now : ℕ)
    (nodes : List ResourceNode) (candidates : List EdgeCandidate) (rows : List Relationship)
    → Distinct edge_id rows
    → ((i : ℕ) (f : Relationship) → Has f rows → f.id ≢ uuid4 i)
    → let after = (rebuild_edges tenant_id source extractor uuid4 now nodes candidates rows).0 in
      ((e : Relationship)
        → Has e after
        → Belongs tenant_id source extractor e
        → e.is_active ≡ true
        → (c : EdgeCandidate) × (t : ResourceNode) × Has c candidates
          × IsNamed tenant_id source extractor nodes c t
          × (t.inventory_resource_id ≢ source.inventory_resource_id)
          × (e.target_resource_id ≡ t.inventory_resource_id)
          × (e.relationship_type ≡ c.relationship_type))
      × ((c : EdgeCandidate) (t : ResourceNode)
          → Has c candidates
          → resolve tenant_id source extractor nodes c ≡ some t
          → (e : Relationship) × Has e after
            × Belongs tenant_id source extractor e
            × (e.is_active ≡ true)
            × (e.target_resource_id ≡ t.inventory_resource_id)
            × (e.relationship_type ≡ c.relationship_type))
      × ((c : EdgeCandidate) (n : ResourceNode)
          → IsNamed tenant_id source extractor nodes c n
          → (t : ResourceNode) × IsNamed tenant_id source extractor nodes c t
            × ((t.inventory_resource_id ≡ source.inventory_resource_id)
                ⊎ (resolve tenant_id source extractor nodes c ≡ some t)))
      × ((x : Relationship) → Has x rows → ¬ Belongs tenant_id source extractor x → Has x after)
rebuild_edges_exact tenant_id source extractor uuid4 now nodes candidates rows d fresh =
    let (sound, served, kept) =
      rebuild_edges-Supported tenant_id source extractor uuid4 now nodes candidates rows d fresh in
    (
      λ e m b a.
          let (c, t, k, r, j) = sound e m (Belongs-in_scope tenant_id source extractor e b) a in
          let (named, other) = resolve-IsNamed tenant_id source extractor nodes c t r in
          let (target, type') = connects-fields c t e j in (c, t, k, named, other, target, type'),
      λ c t k r.
          let (e, m, s, a, j) = served c t k r in
          let (target, type') = connects-fields c t e j in
          (e, m, in_scope-Belongs tenant_id source extractor e s, a, target, type'),
      λ c n named. IsNamed-resolve tenant_id source extractor nodes c n named,
      λ x m no. elim (Bool-cases (in_scope tenant_id source extractor x)) [
        | inl s ↦ absurd (no (in_scope-Belongs tenant_id source extractor x s))
        | inr s ↦ kept x m s
      ],
    )
