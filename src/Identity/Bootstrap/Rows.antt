-- ===== src/Identity/Bootstrap/Rows.antt =====
-- The rows that `bootstrap_identity` adds where a query finds none.
use sentinel_keyvault.Common.{
  ℕ, ◌≡◌, inl, inr, refl, Bool, true, some, List, [], ◌∷◌, ◌++◌, Text, text_eq_refl, find,
  find-append_one, Bool-cases, Option-cases,
}
use sentinel_keyvault.Identity.Models.{Permission}
use sentinel_keyvault.Identity.Bootstrap.{ensure, is_permission, ensure_permissions}

find-append_some :
    {A : Type 0} (q : A → Bool) (xs : List A) (y : A) {r : A}
    → find q xs ≡ some r
    → find q (xs ++ y ∷ []) ≡ some r
find-append_some q [] y e = absurd (cc)
find-append_some q (x ∷ xs) y e = elim (Bool-cases (q x)) [
  | inl t ↦ rw t (rw t at e)
  | inr t ↦ rw t (find-append_some q xs y (rw t at e))
]

module _ {A : Type 0} (fits : A → Bool) (make : ℕ → A) (rows : List A) (next_id : ℕ) where
  -- The row is found from then on.
  pub ensure-find :
      ((id : ℕ) → fits (make id) ≡ true)
      → find fits (ensure fits make rows next_id).1 ≡ some (ensure fits make rows next_id).0
  unfolding ensure
  ensure-find h = elim (Option-cases (find fits rows)) [
    | inl e ↦ rw (e, ensure) (find-append_one fits rows (make next_id) e (h next_id))
    | inr (r, e) ↦ rw (e, ensure) e
  ]

  -- What was found is still found.
  ensure-keeps :
      (q : A → Bool) {r : A}
      → find q rows ≡ some r
      → find q (ensure fits make rows next_id).1 ≡ some r
  unfolding ensure
  ensure-keeps q f = elim (Option-cases (find fits rows)) [
    | inl e ↦ rw (e, ensure) (find-append_some q rows (make next_id) f)
    | inr (r, e) ↦ rw (e, ensure) f
  ]

  pub ensure-found :
      {r : A} → find fits rows ≡ some r → ensure fits make rows next_id ≡ (r, rows, next_id)
  unfolding ensure
  ensure-found e = rw (e, ensure) refl

-- Each name's row is in the table.
abbrev pub Found : List (Text × Text) → List Permission → List Permission → Type 0
Found [] ps rows = ps ≡ []
Found ((name, d) ∷ rest) [] rows = ⊥
Found ((name, d) ∷ rest) (p ∷ ps) rows =
    (find (is_permission name) rows ≡ some p) × Found rest ps rows

ensure_permissions-keeps :
    (items : List (Text × Text)) (rows : List Permission) (next_id : ℕ) (q : Permission → Bool)
    {r : Permission}
    → find q rows ≡ some r
    → find q (ensure_permissions items rows next_id).1 ≡ some r
unfolding ensure_permissions
ensure_permissions-keeps [] rows next_id q e = e
ensure_permissions-keeps ((name, d) ∷ rest) rows next_id q e =
    ensure_permissions-keeps rest _ _ q (ensure-keeps (is_permission name) _ rows next_id q e)

pub ensure_permissions-Found :
    (items : List (Text × Text)) (rows : List Permission) (next_id : ℕ)
    → let (ps, after, _) = ensure_permissions items rows next_id in Found items ps after
unfolding ensure_permissions
ensure_permissions-Found [] rows next_id = refl
ensure_permissions-Found ((name, d) ∷ rest) rows next_id = (
  ensure_permissions-keeps rest _ _ (is_permission name)
      (ensure-find (is_permission name) _ rows next_id (λ id. text_eq_refl name)),
  ensure_permissions-Found rest _ _,
)

pub Found-ensure_permissions :
    (items : List (Text × Text)) (ps rows : List Permission) (next_id : ℕ)
    → Found items ps rows
    → ensure_permissions items rows next_id ≡ (ps, rows, next_id)
unfolding ensure_permissions
Found-ensure_permissions [] ps rows next_id f = rw f refl
Found-ensure_permissions ((name, d) ∷ rest) [] rows next_id f = absurd f
Found-ensure_permissions ((name, d) ∷ rest) (p ∷ ps) rows next_id f =
    rw
      (ensure-found (is_permission name)
        (λ (id : ℕ). record { id = id; name = name; description = d }) rows next_id f.0)
      (rw (Found-ensure_permissions rest ps rows next_id f.1) refl)
