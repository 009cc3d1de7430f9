-- ===== src/Common/Lookup.antt =====
-- What a query for one row finds after a row was added or written.
use Prim.Native.Nat.{ℕ}
use mathlib.Core.Path.{◌≡◌, refl, sym, ◌∙◌}
use mathlib.Core.Logic.{inl, inr}
use mathlib.Core.Bool.{Bool, true, false}
use mathlib.Core.Option.{none, some}
use mathlib.Core.List.{List, [], ◌∷◌, ◌++◌}
use sentinel_keyvault.Common.Tests.{◌==◌, Bool-cases, ==→eq, ==-false, ==-refl}
use sentinel_keyvault.Common.Lists.{Has, find, find-Has}
use sentinel_keyvault.Common.Keys.{Distinct, Distinct-Has, write}

pub find-append_one :
    {A : Type 0} (p : A → Bool) (rs : List A) (row : A)
    → find p rs ≡ none
    → p row ≡ true
    → find p (rs ++ row ∷ []) ≡ some row
find-append_one p [] row e t = rw t
find-append_one p (r ∷ rs) row e t = elim (Bool-cases (p r)) [
  | inl u ↦ let q : some r ≡ none = rw u at e in absurd (cc)
  | inr u ↦ rw u (find-append_one p rs row (rw u at e) t)
]

pub find-append_other :
    {A : Type 0} (p : A → Bool) (rs : List A) (row : A)
    → p row ≡ false
    → find p (rs ++ row ∷ []) ≡ find p rs
find-append_other p [] row t = rw t refl
find-append_other p (r ∷ rs) row t = elim (Bool-cases (p r)) [
  | inl u ↦ rw u refl
  | inr u ↦ rw u (find-append_other p rs row t)
]

module _ {A : Type 0} (key : A → ℕ) (p : A → Bool) (r r' : A) (same : key r' ≡ key r) where
  pub find-write :
      (xs : List A)
      → Distinct key xs
      → find p xs ≡ some r
      → p r' ≡ true
      → find p (write key r' xs) ≡ some r'
  find-write [] d e t = absurd (cc)
  find-write (x ∷ xs) d e t = elim (Bool-cases (p x)) [
    | inl u ↦
        let q : some x ≡ some r = rw u at e in
        let xr : x ≡ r = cc in
        let hit : (key x == key r') ≡ true = rw (same, ← xr) (==-refl (key x)) in rw hit (rw t refl)
    | inr u ↦
        let found : find p xs ≡ some r = rw u at e in
        elim (Bool-cases (key x == key r')) [
          | inl k ↦
              let xr =
                Distinct-Has key (x ∷ xs) d (inl refl) (inr (find-Has p xs found).0)
                  (==→eq (key x) (key r') k ∙ same) in
              absurd (cc (xr, u, (find-Has p xs found).1))
          | inr k ↦ rw k (rw u (find-write xs d.1 found t))
        ]
  ]

  pub find-write_other :
      (xs : List A)
      → Distinct key xs
      → Has r xs
      → p r ≡ false
      → p r' ≡ false
      → find p (write key r' xs) ≡ find p xs
  find-write_other [] d m f f' = refl
  find-write_other (x ∷ xs) d m f f' = elim (Bool-cases (key x == key r')) [
    | inl k ↦
        let xr = Distinct-Has key (x ∷ xs) d (inl refl) m (==→eq (key x) (key r') k ∙ same) in
        let g : p x ≡ false = cc (xr, f) in rw k (rw (f', g) refl)
    | inr k ↦ elim m [
      | inl q ↦ absurd (==-false (key x) (key r') k (rw (← q) (sym same)))
      | inr n ↦ elim (Bool-cases (p x)) [
        | inl u ↦ rw k (rw u refl)
        | inr u ↦ rw k (rw u (find-write_other xs d.1 n f f'))
      ]
    ]
  ]
