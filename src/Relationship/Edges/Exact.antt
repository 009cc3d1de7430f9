-- ===== src/Relationship/Edges/Exact.antt =====
-- The candidates of an extraction, one after the other, in the terms of `in_scope` and `resolve`.
use mathlib.Core.Path.{subst}
use sentinel_keyvault.Common.{
  ℕ, ◌≡◌, ◌≢◌, refl, sym, ◌∙◌, inl, inr, ◌⊎◌, true, false, some, List, [], ◌∷◌, map, ==→eq, ◌==◌,
  Has, find, find-Has, select, select-Has, Has-modify, Has-append_one, Has-map, map-Has, Distinct,
  Distinct-Has, Bool-cases, Option-cases,
}
use sentinel_keyvault.Relationship.Models.{ResourceNode, Relationship}
use sentinel_keyvault.Relationship.Extract.{EdgeCandidate}
use sentinel_keyvault.Relationship.Edges.{
  ExtractorName, in_scope, resolve, refreshed, connects, place, place_all, deactivate,
  rebuild_edges,
}
use sentinel_keyvault.Relationship.Edges.Rebuild.{
  edge_id, Supported, Served, Same, IsBuilt, skip-IsBuilt, append-IsBuilt, modify-IsBuilt, new,
  updated,
}

module _ (tenant_id : ℕ) (source : ResourceNode) (extractor : ExtractorName) (uuid4 : ℕ → ℕ)
    (now : ℕ) (nodes : List ResourceNode) (current : List Relationship) where
  abbrev Built : List EdgeCandidate → List Relationship → Type 0
  Built = IsBuilt tenant_id source extractor uuid4 now nodes current

  module _ (fresh : (i : ℕ) (f : Relationship) → Has f current → f.id ≢ uuid4 i) where
    place-IsBuilt :
        (c : EdgeCandidate) (seen : List EdgeCandidate) (rows : List Relationship) (changed : ℕ)
        → Built seen rows
        → Built
            (c ∷ seen)
            (place tenant_id source extractor uuid4 now nodes current c (rows, changed)).0
    unfolding place updated new
    place-IsBuilt c seen rows changed b =
        elim (Option-cases (resolve tenant_id source extractor nodes c)) [
          | inl e ↦
              rw (e, place)
                (skip-IsBuilt tenant_id source extractor uuid4 now nodes current c seen rows b e)
          | inr (t, e) ↦ elim (Option-cases (find (connects c t) current)) [
            | inl n ↦
                rw (e, n, place)
                  (append-IsBuilt tenant_id source extractor uuid4 now nodes current c seen rows b t
                    e (uuid4 changed) (fresh changed))
            | inr (f, s) ↦
                let (mf, joins) = find-Has (connects c t) current s in
                rw (e, s, place)
                  (modify-IsBuilt tenant_id source extractor uuid4 now nodes current c seen rows b t
                    e f mf joins)
          ]
        ]

    -- The candidates that have been placed, in some order.
    abbrev Placed : List EdgeCandidate → List EdgeCandidate → List Relationship → Type 0
    Placed cs seen rows =
        (all : List EdgeCandidate) × Built all rows
        × ((c : EdgeCandidate) → Has c cs ⊎ Has c seen → Has c all)
        × ((c : EdgeCandidate) → Has c all → Has c cs ⊎ Has c seen)

    place_all-Placed :
        (cs seen : List EdgeCandidate) (rows : List Relationship) (changed : ℕ)
        → Built seen rows
        → Placed cs seen
            (place_all tenant_id source extractor uuid4 now nodes current cs (rows, changed)).0
    unfolding place_all
    place_all-Placed [] seen rows changed b =
        (seen, b, λ c m. elim m [ inl z ↦ absurd z | inr k ↦ k ], λ c m. inr m)
    place_all-Placed (c ∷ cs) seen rows changed b =
        let (rows', changed') =
          place tenant_id source extractor uuid4 now nodes current c (rows, changed) in
        let (all, built, up, down) =
          place_all-Placed cs (c ∷ seen) rows' changed' (place-IsBuilt c seen rows changed b) in
        (
          all,
          built,
          λ d m. up d (elim m [
            | inl k ↦ elim k [ inl e ↦ inr (inl e) | inr n ↦ inl n ]
            | inr k ↦ inr (inr k)
          ]),
          λ d m. elim (down d m) [
            | inl k ↦ inl (inr k)
            | inr k ↦ elim k [ inl e ↦ inl (inl e) | inr n ↦ inr n ]
          ],
        )

  module _ (x : Relationship) (apart : (f : Relationship) → Has f current → x.id ≢ f.id) where
    place-keeps :
        (c : EdgeCandidate) (rows : List Relationship) (changed : ℕ)
        → Has x rows
        → Has x (place tenant_id source extractor uuid4 now nodes current c (rows, changed)).0
    unfolding place
    place-keeps c rows changed m =
        elim (Option-cases (resolve tenant_id source extractor nodes c)) [
          | inl e ↦ rw (e, place) m
          | inr (t, e) ↦ elim (Option-cases (find (connects c t) current)) [
            | inl n ↦ rw (e, n, place) (Has-append_one rows _ x m)
            | inr (f, s) ↦
                rw (e, s, place)
                  (elim (Has-modify (λ row. row.id == f.id) (refreshed now c) rows x m) [
                    | inl k ↦ k
                    | inr k ↦
                        absurd (apart f (find-Has (connects c t) current s).0 (==→eq x.id f.id k.1))
                  ])
          ]
        ]

    place_all-keeps :
        (cs : List EdgeCandidate) (rows : List Relationship) (changed : ℕ)
        → Has x rows
        → Has x (place_all tenant_id source extractor uuid4 now nodes current cs (rows, changed)).0
    unfolding place_all
    place_all-keeps [] rows changed m = m
    place_all-keeps (c ∷ cs) rows changed m =
        let (rows', changed') =
          place tenant_id source extractor uuid4 now nodes current c (rows, changed) in
        place_all-keeps cs rows' changed' (place-keeps c rows changed m)

module _ (tenant_id : ℕ) (source : ResourceNode) (extractor : ExtractorName) where
  deactivate_lem :
      (y : Relationship)
      → ((deactivate tenant_id source extractor y).id ≡ y.id)
        × (in_scope tenant_id source extractor (deactivate tenant_id source extractor y) ≡ true
            → (deactivate tenant_id source extractor y).is_active ≡ false)
        × (in_scope tenant_id source extractor y ≡ true
            → Same tenant_id source extractor
                (λ i. i)
                0
                []
                (deactivate tenant_id source extractor y)
                y)
        × (in_scope tenant_id source extractor y ≡ false
            → deactivate tenant_id source extractor y ≡ y)
  deactivate_lem y = elim (Bool-cases (in_scope tenant_id source extractor y)) [
    | inl e ↦ rw e (refl, λ s. refl, λ s. (e, refl, refl), λ s. absurd (cc))
    | inr e ↦ rw e (refl, λ s. absurd (cc), λ s. absurd (cc), λ s. refl)
  ]

-- The start: every edge in scope is inactive.
module _ (tenant_id : ℕ) (source : ResourceNode) (extractor : ExtractorName) (uuid4 : ℕ → ℕ)
    (now : ℕ) (nodes : List ResourceNode) (rows : List Relationship) where
  abbrev scope : List Relationship
  scope = select (in_scope tenant_id source extractor) rows

  start-IsBuilt :
      Distinct edge_id rows
      → IsBuilt tenant_id source extractor uuid4 now nodes scope []
          (map (deactivate tenant_id source extractor) rows)
  start-IsBuilt d = record {
    linked = λ f e mf me q.
        let (y, my, same) = map-Has (deactivate tenant_id source extractor) rows e me in
        let (hf, s) = select-Has (in_scope tenant_id source extractor) rows mf in
        let l = deactivate_lem tenant_id source extractor y in
        let x : y ≡ f = Distinct-Has edge_id rows d my hf (sym l.0 ∙ (rw same at q)) in
        rw same (rw (← x) (l.2 (rw x s)));
    present = λ f mf.
        let (hf, s) = select-Has (in_scope tenant_id source extractor) rows mf in
        (
          deactivate tenant_id source extractor f,
          Has-map (deactivate tenant_id source extractor) rows f hf,
          (deactivate_lem tenant_id source extractor f).0,
        );
    sound = λ e m s a.
        let (y, my, same) = map-Has (deactivate tenant_id source extractor) rows e m in
        let off = (deactivate_lem tenant_id source extractor y).1 (rw same at s) in absurd (cc);
    served = λ c t m r. absurd m;
  }

-- A whole rebuild: what is active is supported, what resolves is served, and other rows are kept.
pub rebuild_edges-Supported :
    (tenant_id : ℕ) (source : ResourceNode) (extractor : ExtractorName) (uuid4 : ℕ → ℕ) (now : ℕ)
    (nodes : List ResourceNode) (candidates : List EdgeCandidate) (rows : List Relationship)
    → Distinct edge_id rows
    → ((i : ℕ) (f : Relationship) → Has f rows → f.id ≢ uuid4 i)
    → ((e : Relationship)
        → Has e (rebuild_edges tenant_id source extractor uuid4 now nodes candidates rows).0
        → in_scope tenant_id source extractor e ≡ true
        → e.is_active ≡ true
        → Supported tenant_id source extractor uuid4 now nodes candidates e)
      × ((c : EdgeCandidate) (t : ResourceNode)
          → Has c candidates
          → resolve tenant_id source extractor nodes c ≡ some t
          → Served tenant_id source extractor uuid4 now nodes c t
              (rebuild_edges tenant_id source extractor uuid4 now nodes candidates rows).0)
      × ((x : Relationship)
          → Has x rows
          → in_scope tenant_id source extractor x ≡ false
          → Has x (rebuild_edges tenant_id source extractor uuid4 now nodes candidates rows).0)
unfolding rebuild_edges
rebuild_edges-Supported tenant_id source extractor uuid4 now nodes candidates rows d fresh =
    let current = scope tenant_id source extractor uuid4 now nodes rows in
    let start = map (deactivate tenant_id source extractor) rows in
    let (all, built, up, down) =
      place_all-Placed tenant_id source extractor uuid4 now nodes current
        (λ i f m. fresh i f (select-Has (in_scope tenant_id source extractor) rows m).0) candidates
        [] start 0 (start-IsBuilt tenant_id source extractor uuid4 now nodes rows d) in
    (
      λ e m s a.
          let (c, t, k, r, j) = built.sound e m s a in
          elim (down c k) [ inl h ↦ (c, t, h, r, j) | inr z ↦ absurd z ],
      λ c t m r. built.served c t (up c (inl m)) r,
      λ x m s.
          place_all-keeps tenant_id source extractor uuid4 now nodes current x
            (λ f mf q.
              let (hf, sf) = select-Has (in_scope tenant_id source extractor) rows mf in
              cc (Distinct-Has edge_id rows {a = x} {b = f} d m hf q))
            candidates start 0
            (subst (λ y. Has y start) ((deactivate_lem tenant_id source extractor x).3 s)
              (Has-map (deactivate tenant_id source extractor) rows x m)),
    )
