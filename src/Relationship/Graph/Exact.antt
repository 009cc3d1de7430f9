-- ===== src/Relationship/Graph/Exact.antt =====
-- The nodes that a traversal visits are those that the specification reaches.
use mathlib.Core.Path.{subst}
use sentinel_keyvault.Common.{
  ℕ, zero, suc, ◌+◌, ◌≡◌, refl, inl, inr, ◌⊎◌, true, false, ◌||◌, List, [], ◌∷◌, arith, Has, union,
  minus, Has-union_left, Has-union_right, union-Has, minus-Has, union-minus, Bool-cases, leb,
  leb→le, leb-false, ◌≤◌,
}
use sentinel_keyvault.Relationship.Models.{Relationship, GraphQuery}
use sentinel_keyvault.Relationship.Queries.{edges_for_frontier}
use sentinel_keyvault.Relationship.Graph.{Scan, scan, traverse, traversal, is_empty}
use sentinel_keyvault.Relationship.Graph.Walks.{Adjacent, Within}
use sentinel_keyvault.Relationship.Graph.Frontier.{frontier_edge, frontier_has, scan_new, scan_all}

module _ (rows : List Relationship) (tenant_id : ℕ) (query : GraphQuery) where
  -- After `n` rounds: the nodes within `n` hops are visited, nothing else is, and only nodes of the
  -- frontier may still have a neighbour outside.
  record IsRound (n : ℕ) (frontier visited : List ℕ) : Type 0 where
    sound : (x : ℕ) → Has x visited → Within rows tenant_id query n x
    complete : (x : ℕ) → Within rows tenant_id query n x → Has x visited
    inside : (x : ℕ) → Has x frontier → Has x visited
    closed :
        (x y : ℕ)
        → Has x visited
        → Adjacent rows tenant_id query x y
        → Has x frontier ⊎ Has y visited

  -- The round's scan.
  abbrev touching : List ℕ → List Relationship
  touching frontier = edges_for_frontier tenant_id frontier query.direction rows

  abbrev found : List ℕ → List ℕ → List Relationship → Scan
  found frontier visited edges = scan query visited (touching frontier) [] edges

  abbrev fresh : List ℕ → List ℕ → List Relationship → List ℕ
  fresh frontier visited edges = minus (found frontier visited edges).next_frontier visited

  abbrev visited_after : List ℕ → List ℕ → List Relationship → List ℕ
  visited_after frontier visited edges = union visited (fresh frontier visited edges)

  module _ (n : ℕ) (frontier visited : List ℕ) (edges : List Relationship) where
    round_sound :
        ((x : ℕ) → Has x visited → Within rows tenant_id query n x)
        → ((x : ℕ) → Has x frontier → Has x visited)
        → (x : ℕ) → Has x (visited_after frontier visited edges)
        → Within rows tenant_id query (suc n) x
    round_sound sound inside x m = elim (union-Has x visited (fresh frontier visited edges) m) [
      | inl old ↦ inl (sound x old)
      | inr new ↦
          elim (scan_new query visited (touching frontier) [] edges x
            (minus-Has x (found frontier visited edges).next_frontier visited new)) [
              | inl nothing ↦ absurd nothing
              | inr (e, k, ok, end) ↦
                  let (usable, from) = frontier_edge rows tenant_id query frontier e x k ok end in
                  elim from [
                    | inl here ↦ inl (sound x (inside x here))
                    | inr (y, my, hop) ↦ inr (y, sound y (inside y my), (e, usable, hop))
                  ]
            ]
    ]

    module _ (full : (found frontier visited edges).truncated ≡ false) where
      neighbours :
          (x y : ℕ)
          → Has x frontier
          → Adjacent rows tenant_id query x y
          → Has y (visited_after frontier visited edges)
      neighbours x y m (e, usable, hop) =
          let (k, end) = frontier_has rows tenant_id query frontier e x y usable m hop in
          rw (union-minus visited) (
            Has-union_right y visited (found frontier visited edges).next_frontier
              (scan_all query visited (touching frontier) [] edges e y full k usable.3 end))

      IsRound-next :
          IsRound n frontier visited
          → IsRound (suc n) (fresh frontier visited edges) (visited_after frontier visited edges)
      IsRound-next r = record {
        sound = round_sound r.sound r.inside;
        complete = λ x w. elim w [
          | inl old ↦ Has-union_left x visited (fresh frontier visited edges) (r.complete x old)
          | inr (y, wy, adj) ↦ elim (r.closed y x (r.complete y wy) adj) [
            | inl front ↦ neighbours y x front adj
            | inr m ↦ Has-union_left x visited (fresh frontier visited edges) m
          ]
        ];
        inside = λ x m. Has-union_right x visited (fresh frontier visited edges) m;
        closed = λ x y m adj. elim (union-Has x visited (fresh frontier visited edges) m) [
          | inr new ↦ inl new
          | inl old ↦ elim (r.closed x y old adj) [
            | inl front ↦ inr (neighbours x y front adj)
            | inr k ↦ inr (Has-union_left y visited (fresh frontier visited edges) k)
          ]
        ];
      }

  Within-le :
      (m n x : ℕ) → n ≤ m → Within rows tenant_id query n x → Within rows tenant_id query m x
  Within-le zero n x h w = rw (← n_zero) at w
    where
      n_zero : 0 ≡ n
      n_zero = omega arith
  Within-le (suc m) n x h w = elim (Bool-cases (leb n m)) [
    | inl small ↦ inl (Within-le m n x (leb→le n m small) w)
    | inr big ↦
        let e : n ≡ suc m = omega (arith, leb-false n m big) in
        subst (λ k. Within rows tenant_id query k x) e w
  ]

  traverse_sound :
      (rounds n total : ℕ) (frontier visited : List ℕ) (edges : List Relationship) (x : ℕ)
      → n + rounds ≡ total
      → ((y : ℕ) → Has y visited → Within rows tenant_id query n y)
      → ((y : ℕ) → Has y frontier → Has y visited)
      → Has x (traverse rows tenant_id query rounds frontier visited edges).visited
      → Within rows tenant_id query total x
  unfolding traverse
  traverse_sound zero n total frontier visited edges x e sound inside m =
      Within-le total n x (omega arith) (sound x m)
  traverse_sound (suc rounds) n total frontier visited edges x e sound inside m =
      let sound' = round_sound n frontier visited edges sound inside in
      elim (Bool-cases
        ((found frontier visited edges).truncated || is_empty (fresh frontier visited edges))) [
          | inl done ↦ Within-le total (suc n) x (omega arith) (sound' x (rw (done, traverse) at m))
          | inr more ↦
              traverse_sound rounds (suc n) total (fresh frontier visited edges)
                (visited_after frontier visited edges) (found frontier visited edges).edges x
                (omega arith) sound'
                (λ y k. Has-union_right y visited (fresh frontier visited edges) k)
                (rw (more, traverse) at m)
        ]

  -- With an empty frontier nothing is left to reach.
  saturated :
      (n m : ℕ) (frontier visited : List ℕ) (x : ℕ)
      → frontier ≡ []
      → IsRound n frontier visited
      → Within rows tenant_id query m x
      → Has x visited
  saturated n zero frontier visited x e r w = r.complete x (Within-le n 0 x (omega arith) w)
  saturated n (suc m) frontier visited x e r (inl w) = saturated n m frontier visited x e r w
  saturated n (suc m) frontier visited x e r (inr (y, w, adj)) =
      elim (r.closed y x (saturated n m frontier visited y e r w) adj) [
        | inl front ↦ absurd (rw e at front)
        | inr k ↦ k
      ]

  is_empty→nil : (s : List ℕ) → is_empty s ≡ true → s ≡ []
  is_empty→nil [] h = refl
  is_empty→nil (x ∷ s) h = absurd (cc)

  traverse_complete :
      (rounds n total : ℕ) (frontier visited : List ℕ) (edges : List Relationship) (x : ℕ)
      → n + rounds ≡ total
      → IsRound n frontier visited
      → (traverse rows tenant_id query rounds frontier visited edges).truncated ≡ false
      → Within rows tenant_id query total x
      → Has x (traverse rows tenant_id query rounds frontier visited edges).visited
  unfolding traverse
  traverse_complete zero n total frontier visited edges x e r t w =
      r.complete x (Within-le n total x (omega arith) w)
  traverse_complete (suc rounds) n total frontier visited edges x e r t w =
      elim (Bool-cases (found frontier visited edges).truncated) [
        | inl cut ↦
            let no_cut : (found frontier visited edges).truncated ≡ false =
              rw (cut, traverse) at t in
            absurd (cc)
        | inr full ↦
            let r' = IsRound-next n frontier visited edges full r in
            elim (Bool-cases (is_empty (fresh frontier visited edges))) [
              | inl done ↦
                  rw (full, done, traverse)
                    (saturated (suc n) total (fresh frontier visited edges)
                      (visited_after frontier visited edges) x (is_empty→nil _ done) r' w)
              | inr more ↦
                  rw (full, more, traverse)
                    (traverse_complete rounds (suc n) total (fresh frontier visited edges)
                      (visited_after frontier visited edges) (found frontier visited edges).edges x
                      (omega arith) r' (rw (full, more, traverse) at t) w)
            ]
      ]

  root-IsRound : IsRound 0 (query.root_resource_id ∷ []) (query.root_resource_id ∷ [])
  root-IsRound = record {
    sound = λ x m. elim m [ inl e ↦ e | inr none ↦ absurd none ];
    complete = λ x w. inl w;
    inside = λ x m. m;
    closed = λ x y m adj. inl m;
  }

  pub traversal_sound :
      (x : ℕ)
      → Has x (traversal rows tenant_id query).visited
      → Within rows tenant_id query query.max_depth x
  unfolding traversal
  traversal_sound x m =
      traverse_sound query.max_depth 0 query.max_depth (query.root_resource_id ∷ [])
        (query.root_resource_id ∷ []) [] x (omega arith) root-IsRound.sound root-IsRound.inside m

  pub traversal_complete :
      (x : ℕ)
      → (traversal rows tenant_id query).truncated ≡ false
      → Within rows tenant_id query query.max_depth x
      → Has x (traversal rows tenant_id query).visited
  unfolding traversal
  traversal_complete x t w =
      traverse_complete query.max_depth 0 query.max_depth (query.root_resource_id ∷ [])
        (query.root_resource_id ∷ []) [] x (omega arith) root-IsRound t w
