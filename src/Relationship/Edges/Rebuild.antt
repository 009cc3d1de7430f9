-- ===== src/Relationship/Edges/Rebuild.antt =====
-- What the edges of a source are after `rebuild_edges`.
use sentinel_keyvault.Common.{
  ℕ, ◌≡◌, ◌≢◌, refl, sym, inl, inr, Bool, true, none, some, List, [], ◌∷◌, ◌++◌, arith,
  text_eq_refl, ==→eq, ==-refl, ◌==◌, Has, modify, modify-Has, Has-modify, Has-modify_hit,
  Has-append_one, Has-append_last, append_one-Has,
}
use sentinel_keyvault.Relationship.Models.{ResourceNode, Relationship}
use sentinel_keyvault.Relationship.Extract.{EdgeCandidate}
use sentinel_keyvault.Relationship.Edges.{
  ExtractorName, in_scope, resolve, new_edge, refreshed, connects,
}

abbrev pub edge_id : Relationship → ℕ
edge_id e = e.id

module _ (tenant_id : ℕ) (source : ResourceNode) (extractor : ExtractorName) (uuid4 : ℕ → ℕ)
    (now : ℕ) (nodes : List ResourceNode) where
  -- Some candidate connects the source to the edge's target, under the edge's type.
  abbrev pub Supported : List EdgeCandidate → Relationship → Type 0
  Supported seen e =
      (c : EdgeCandidate) × (t : ResourceNode) × Has c seen
      × (resolve tenant_id source extractor nodes c ≡ some t)
      × (connects c t e ≡ true)

  -- The candidate has an active edge.
  abbrev pub Served : EdgeCandidate → ResourceNode → List Relationship → Type 0
  Served c t rows =
      (e : Relationship) × Has e rows
      × (in_scope tenant_id source extractor e ≡ true)
      × (e.is_active ≡ true)
      × (connects c t e ≡ true)

  -- The row keeps its scope, target and type.
  abbrev pub Same : Relationship → Relationship → Type 0
  Same e f =
      (in_scope tenant_id source extractor e ≡ true)
      × (e.target_resource_id ≡ f.target_resource_id)
      × (e.relationship_type ≡ f.relationship_type)

  module _ (current : List Relationship) where
    -- After the candidates `seen`.
    pub record IsBuilt (seen : List EdgeCandidate) (rows : List Relationship) : Type 0 where
      pub linked : (f e : Relationship) → Has f current → Has e rows → e.id ≡ f.id → Same e f
      pub present :
          (f : Relationship) → Has f current → (e : Relationship) × Has e rows × (e.id ≡ f.id)
      pub sound :
          (e : Relationship)
          → Has e rows
          → in_scope tenant_id source extractor e ≡ true
          → e.is_active ≡ true
          → Supported seen e
      pub served :
          (c : EdgeCandidate) (t : ResourceNode)
          → Has c seen
          → resolve tenant_id source extractor nodes c ≡ some t
          → Served c t rows

    module _ (c : EdgeCandidate) (seen : List EdgeCandidate) (rows : List Relationship)
        (b : IsBuilt seen rows) where
      later : (e : Relationship) → Supported seen e → Supported (c ∷ seen) e
      later e (d, t, m, r, k) = (d, t, inr m, r, k)

      pub skip-IsBuilt : resolve tenant_id source extractor nodes c ≡ none → IsBuilt (c ∷ seen) rows
      skip-IsBuilt e = record {
        linked = b.linked;
        present = b.present;
        sound = λ x m s a. later x (b.sound x m s a);
        served = λ d t m r. elim m [ inl q ↦ absurd (cc) | inr k ↦ b.served d t k r ];
      }

      module _ (t : ResourceNode)
          (found : resolve tenant_id source extractor nodes c ≡ some t) where
        unfoldable pub new : ℕ → Relationship
        new id = new_edge tenant_id source extractor id now c t

        new-in_scope : (id : ℕ) → in_scope tenant_id source extractor (new id) ≡ true
        unfolding new
        new-in_scope id = ground (
          arith,
          ==-refl tenant_id,
          ==-refl source.inventory_resource_id,
          text_eq_refl extractor.name,
        )

        connects-new : (id : ℕ) → connects c t (new id) ≡ true
        unfolding new
        connects-new id =
            ground (arith, ==-refl t.inventory_resource_id, text_eq_refl c.relationship_type)

        pub append-IsBuilt :
            (id : ℕ)
            → ((f : Relationship) → Has f current → f.id ≢ id)
            → IsBuilt (c ∷ seen) (rows ++ new id ∷ [])
        append-IsBuilt id fresh = record {
          linked = λ f x mf mx q. elim (append_one-Has rows (new id) x mx) [
            | inl old ↦ b.linked f x mf old q
            | inr e ↦ absurd (fresh f mf (unfold new in sym (rw e at q)))
          ];
          present =
              λ f mf. let (x, m, q) = b.present f mf in (x, Has-append_one rows (new id) x m, q);
          sound = λ x m s a. elim (append_one-Has rows (new id) x m) [
            | inl old ↦ later x (b.sound x old s a)
            | inr e ↦ (c, t, inl refl, found, rw e (connects-new id))
          ];
          served = λ d u m r. elim m [
            | inl q ↦
                let same : u ≡ t = cc in
                (
                  new id,
                  Has-append_last rows (new id),
                  new-in_scope id,
                  unfold new in refl,
                  rw (q, same) (connects-new id),
                )
            | inr k ↦
                let (x, mx, s, a, j) = b.served d u k r in
                (x, Has-append_one rows (new id) x mx, s, a, j)
          ];
        }

        -- The update of the edge that an old row stands for.
        module _ (f : Relationship) (mf : Has f current) (joins : connects c t f ≡ true) where
          abbrev pub hit : Relationship → Bool
          hit row = row.id == f.id

          unfoldable pub updated : Relationship → Relationship
          updated = refreshed now c

          updated-connects : (x : Relationship) → Same x f → connects c t (updated x) ≡ true
          unfolding updated
          updated-connects x (s, p, q) = rw (p, q) joins

          pub modify-IsBuilt : IsBuilt (c ∷ seen) (modify hit updated rows)
          unfolding updated
          modify-IsBuilt = record {
            linked = λ g x mg mx q. elim (modify-Has hit updated rows mx) [
              | inl old ↦ b.linked g x mg old q
              | inr (y, my, h, e) ↦ rw e (b.linked g y mg my (rw e at q))
            ];
            present = λ g mg.
                let (x, m, q) = b.present g mg in
                elim (Has-modify hit updated rows x m) [
                  | inl k ↦ (x, k, q)
                  | inr k ↦ (updated x, k.0, q)
                ];
            sound = λ x m s a. elim (modify-Has hit updated rows m) [
              | inl old ↦ later x (b.sound x old s a)
              | inr (y, my, h, e) ↦ (
                c,
                t,
                inl refl,
                found,
                rw e (updated-connects y (b.linked f y mf my (==→eq y.id f.id h))),
              )
            ];
            served = λ d u m r. elim m [
              | inl q ↦
                  let same : u ≡ t = cc in
                  let (x, mx, e) = b.present f mf in
                  let (y, my, h, k) = Has-modify_hit hit updated rows x mx (rw e (==-refl f.id)) in
                  let old = b.linked f y mf my (==→eq y.id f.id h) in
                  (updated y, k, old.0, refl, rw (q, same) (updated-connects y old))
              | inr k ↦
                  let (x, mx, s, a, j) = b.served d u k r in
                  elim (Has-modify hit updated rows x mx) [
                    | inl n ↦ (x, n, s, a, j)
                    | inr n ↦ (updated x, n.0, s, refl, j)
                  ]
            ];
          }
