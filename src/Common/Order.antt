-- ===== src/Common/Order.antt =====
-- `ORDER BY`, as a stable insertion sort, for an order given by its test.
use Prim.Native.Nat.{ℕ, zero, suc, ◌<◌, ◌≤◌}
use mathlib.Core.Path.{◌≡◌, refl}
use mathlib.Core.Logic.{◌⊎◌, inl, inr}
use mathlib.Core.Bool.{Bool, true, false}
use mathlib.Core.List.{List, [], ◌∷◌}
use native.Mathlib.Omega.{arith}
use sentinel_keyvault.Common.Tests.{if◌then◌else◌, Bool-cases}
use sentinel_keyvault.Common.Lists.{All, Has, take, length}
use sentinel_keyvault.Common.Keys.{All-Has}

module _ {A : Type 0} (le : A → A → Bool) where
  unfoldable pub insert_by : A → List A → List A
  insert_by x [] = x ∷ []
  insert_by x (y ∷ ys) = if le x y then x ∷ y ∷ ys else y ∷ insert_by x ys

  unfoldable pub order_by : List A → List A
  unfolding insert_by
  order_by [] = []
  order_by (x ∷ xs) = insert_by x (order_by xs)

  abbrev pub IsOrdered : List A → Type 0
  IsOrdered [] = Unit
  IsOrdered (x ∷ xs) = All (λ y. le x y ≡ true) xs × IsOrdered xs

  length-insert_by : (x : A) (xs : List A) → length (insert_by x xs) ≡ suc (length xs)
  unfolding insert_by
  length-insert_by x [] = refl
  length-insert_by x (y ∷ ys) = elim (Bool-cases (le x y)) [
    | inl e ↦ rw e refl
    | inr e ↦ rw e (omega (arith, length-insert_by x ys))
  ]

  pub length-order_by : (xs : List A) → length (order_by xs) ≡ length xs
  unfolding order_by
  length-order_by [] = refl
  length-order_by (x ∷ xs) = omega (arith, length-insert_by x (order_by xs), length-order_by xs)

  insert_by-Has : (x : A) (xs : List A) (a : A) → Has a (insert_by x xs) → (a ≡ x) ⊎ Has a xs
  unfolding insert_by
  insert_by-Has x [] a m = m
  insert_by-Has x (y ∷ ys) a m = elim (Bool-cases (le x y)) [
    | inl e ↦ rw e at m
    | inr e ↦ elim (rw e at m) [
      | inl q ↦ inr (inl q)
      | inr n ↦ elim (insert_by-Has x ys a n) [ inl q ↦ inl q | inr k ↦ inr (inr k) ]
    ]
  ]

  Has-insert_by : (x : A) (xs : List A) (a : A) → (a ≡ x) ⊎ Has a xs → Has a (insert_by x xs)
  unfolding insert_by
  Has-insert_by x [] a m = m
  Has-insert_by x (y ∷ ys) a m = elim (Bool-cases (le x y)) [
    | inl e ↦ rw e m
    | inr e ↦ rw e (elim m [
      | inl q ↦ inr (Has-insert_by x ys a (inl q))
      | inr n ↦ elim n [ inl q ↦ inl q | inr k ↦ inr (Has-insert_by x ys a (inr k)) ]
    ])
  ]

  pub order_by-Has : (xs : List A) (a : A) → Has a (order_by xs) → Has a xs
  unfolding order_by
  order_by-Has [] a m = m
  order_by-Has (x ∷ xs) a m = elim (insert_by-Has x (order_by xs) a m) [
    | inl q ↦ inl q
    | inr k ↦ inr (order_by-Has xs a k)
  ]

  pub Has-order_by : (xs : List A) (a : A) → Has a xs → Has a (order_by xs)
  unfolding order_by
  Has-order_by [] a m = m
  Has-order_by (x ∷ xs) a (inl q) = Has-insert_by x (order_by xs) a (inl q)
  Has-order_by (x ∷ xs) a (inr m) = Has-insert_by x (order_by xs) a (inr (Has-order_by xs a m))

  pub All-insert_by :
      (P : A → Type 0) (x : A) (xs : List A) → P x → All P xs → All P (insert_by x xs)
  unfolding insert_by
  All-insert_by P x [] p h = (p, tt)
  All-insert_by P x (y ∷ ys) p h = elim (Bool-cases (le x y)) [
    | inl e ↦ rw e (p, h)
    | inr e ↦ rw e (h.0, All-insert_by P x ys p h.1)
  ]

  module _ (total : (a b : A) → le a b ≡ false → le b a ≡ true)
      (trans : (a b c : A) → le a b ≡ true → le b c ≡ true → le a c ≡ true) where
    below :
        (x y : A) (ys : List A)
        → le x y ≡ true
        → All (λ z. le y z ≡ true) ys
        → All (λ z. le x z ≡ true) ys
    below x y [] e h = tt
    below x y (z ∷ ys) e h = (trans x y z e h.0, below x y ys e h.1)

    insert_by-IsOrdered : (x : A) (xs : List A) → IsOrdered xs → IsOrdered (insert_by x xs)
    unfolding insert_by
    insert_by-IsOrdered x [] h = (tt, tt)
    insert_by-IsOrdered x (y ∷ ys) h = elim (Bool-cases (le x y)) [
      | inl e ↦ rw e ((e, below x y ys e h.0), h)
      | inr e ↦
          rw e (
            All-insert_by (λ z. le y z ≡ true) x ys (total x y e) h.0,
            insert_by-IsOrdered x ys h.1,
          )
    ]

    pub order_by-IsOrdered : (xs : List A) → IsOrdered (order_by xs)
    unfolding order_by
    order_by-IsOrdered [] = tt
    order_by-IsOrdered (x ∷ xs) = insert_by-IsOrdered x (order_by xs) (order_by-IsOrdered xs)

  -- `LIMIT n` of an ordered query keeps the first rows: what is left out comes after all of them.
  pub take-first :
      (n : ℕ) (xs : List A) (a b : A)
      → IsOrdered xs
      → Has a (take n xs)
      → Has b xs
      → Has b (take n xs) ⊎ (le a b ≡ true)
  take-first zero xs a b h m k = absurd m
  take-first (suc n) [] a b h m k = absurd m
  take-first (suc n) (x ∷ xs) a b h (inl p) (inl q) = inl (inl q)
  take-first (suc n) (x ∷ xs) a b h (inl p) (inr k) =
      inr (rw p (All-Has (λ y. le x y ≡ true) xs h.0 k))
  take-first (suc n) (x ∷ xs) a b h (inr m) (inl q) = inl (inl q)
  take-first (suc n) (x ∷ xs) a b h (inr m) (inr k) = elim (take-first n xs a b h.1 m k) [
    | inl r ↦ inl (inr r)
    | inr r ↦ inr r
  ]

  pub take-Has : (n : ℕ) (xs : List A) (a : A) → Has a (take n xs) → Has a xs
  take-Has zero xs a m = absurd m
  take-Has (suc n) [] a m = absurd m
  take-Has (suc n) (x ∷ xs) a (inl p) = inl p
  take-Has (suc n) (x ∷ xs) a (inr m) = inr (take-Has n xs a m)

  pub All-take : (P : A → Type 0) (n : ℕ) (xs : List A) → All P xs → All P (take n xs)
  All-take P zero xs h = tt
  All-take P (suc n) [] h = tt
  All-take P (suc n) (x ∷ xs) h = (h.0, All-take P n xs h.1)

  pub take-IsOrdered : (n : ℕ) (xs : List A) → IsOrdered xs → IsOrdered (take n xs)
  take-IsOrdered zero xs h = tt
  take-IsOrdered (suc n) [] h = tt
  take-IsOrdered (suc n) (x ∷ xs) h =
      (All-take (λ y. le x y ≡ true) n xs h.0, take-IsOrdered n xs h.1)

  -- A page that is not full leaves nothing out.
  pub take-short :
      (n : ℕ) (xs : List A) (a : A) → length (take n xs) < n → Has a xs → Has a (take n xs)
  take-short zero xs a h m = absurd (omega (arith, h))
  take-short (suc n) [] a h m = m
  take-short (suc n) (x ∷ xs) a h (inl q) = inl q
  take-short (suc n) (x ∷ xs) a h (inr m) = inr (take-short n xs a (omega (arith, h)) m)

  pub length-take-le : (n : ℕ) (xs : List A) → length (take n xs) ≤ n
  length-take-le zero xs = omega arith
  length-take-le (suc n) [] = omega arith
  length-take-le (suc n) (x ∷ xs) = omega (arith, length-take-le n xs)
