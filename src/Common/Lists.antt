-- ===== src/Common/Lists.antt =====
-- Tables as lists of rows: what a query selects, what an update of one row does, and the
-- predicates by which statements speak of rows.
use Prim.Native.Nat.{ℕ, zero, suc, ◌+◌, ◌≤◌}
use mathlib.Core.Path.{◌≡◌, refl, ap}
use mathlib.Core.Logic.{◌⊎◌, inl, inr}
use mathlib.Core.Bool.{Bool, true, false}
use mathlib.Core.Option.{Option, none, some}
use mathlib.Core.List.{List, [], ◌∷◌, ◌++◌}
use native.Mathlib.Omega.{arith}
use sentinel_keyvault.Common.Tests.{if◌then◌else◌, Bool-cases}

module _ {ℓ} {A : Type ℓ} where
  abbrev pub length : List A → ℕ
  length [] = 0
  length (x ∷ xs) = suc (length xs)

  abbrev pub take : ℕ → List A → List A
  take zero xs = []
  take (suc n) [] = []
  take (suc n) (x ∷ xs) = x ∷ take n xs

  -- The rows that a `where` keeps.
  abbrev pub select : (A → Bool) → List A → List A
  select p [] = []
  select p (x ∷ xs) = if p x then x ∷ select p xs else select p xs

  -- `session.scalar(select(...))`: the first row that fits.
  abbrev pub find : (A → Bool) → List A → Option A
  find p [] = none
  find p (x ∷ xs) = if p x then some x else find p xs

  abbrev pub any : (A → Bool) → List A → Bool
  any p [] = false
  any p (x ∷ xs) = if p x then true else any p xs

  -- Assignments to the fields of the row that `find p` returns.
  abbrev pub modify : (A → Bool) → (A → A) → List A → List A
  modify p f [] = []
  modify p f (x ∷ xs) = if p x then f x ∷ xs else x ∷ modify p f xs

  abbrev pub last? : List A → Option A
  last? [] = none
  last? (x ∷ []) = some x
  last? (x ∷ y ∷ xs) = last? (y ∷ xs)

  pub length-append : (xs ys : List A) → length (xs ++ ys) ≡ length xs + length ys
  length-append [] ys = omega arith
  length-append (x ∷ xs) ys = omega (arith, length-append xs ys)

  pub length-modify : (p : A → Bool) (f : A → A) (xs : List A) → length (modify p f xs) ≡ length xs
  length-modify p f [] = refl
  length-modify p f (x ∷ xs) = ground (arith, length-modify p f xs)

  pub length-select-le : (p : A → Bool) (xs : List A) → length (select p xs) ≤ length xs
  length-select-le p [] = omega arith
  length-select-le p (x ∷ xs) = ground (arith, length-select-le p xs)

-- Membership with its position, so that proofs can branch on it.
module _ {A : Type 0} where
  abbrev pub Has : A → List A → Type 0
  Has a [] = ⊥
  Has a (x ∷ xs) = (a ≡ x) ⊎ Has a xs

  pub find-Has : (p : A → Bool) (xs : List A) {a : A} → find p xs ≡ some a → Has a xs × (p a ≡ true)
  find-Has p [] h = absurd (cc)
  find-Has p (x ∷ xs) {a} h = elim (Bool-cases (p x)) [
    | inl e ↦ ground arith
    | inr e ↦ let ih = find-Has p xs (rw e at h) in (inr ih.0, ih.1)
  ]

  -- A row of an updated table is an old one, or the update of one that fits.
  pub modify-Has :
      (p : A → Bool) (f : A → A) (xs : List A) {a : A}
      → Has a (modify p f xs)
      → Has a xs ⊎ ((b : A) × Has b xs × (p b ≡ true) × (a ≡ f b))
  modify-Has p f [] m = absurd m
  modify-Has p f (x ∷ xs) m = elim (Bool-cases (p x)) [
    | inl e ↦ elim (rw e at m) [ inl q ↦ inr (x, inl refl, e, q) | inr n ↦ inl (inr n) ]
    | inr e ↦ elim (rw e at m) [
      | inl q ↦ inl (inl q)
      | inr n ↦ elim (modify-Has p f xs n) [
        | inl k ↦ inl (inr k)
        | inr (b, k, t, q) ↦ inr (b, inr k, t, q)
      ]
    ]
  ]

  -- A row stays as it is, or is the one that was updated.
  pub Has-modify :
      (p : A → Bool) (f : A → A) (xs : List A) (a : A)
      → Has a xs
      → Has a (modify p f xs) ⊎ (Has (f a) (modify p f xs) × (p a ≡ true))
  Has-modify p f [] a m = absurd m
  Has-modify p f (x ∷ xs) a m = elim (Bool-cases (p x)) [
    | inl e ↦ elim m [ inl q ↦ inr (rw e (inl (ap f q)), rw q e) | inr n ↦ inl (rw e (inr n)) ]
    | inr e ↦ elim m [
      | inl q ↦ inl (rw e (inl q))
      | inr n ↦ elim (Has-modify p f xs a n) [
        | inl k ↦ inl (rw e (inr k))
        | inr k ↦ inr (rw e (inr k.0), k.1)
      ]
    ]
  ]

  -- Where a row fits, one that fits is updated.
  pub Has-modify_hit :
      (p : A → Bool) (f : A → A) (xs : List A) (a : A)
      → Has a xs
      → p a ≡ true
      → (b : A) × Has b xs × (p b ≡ true) × Has (f b) (modify p f xs)
  Has-modify_hit p f [] a m t = absurd m
  Has-modify_hit p f (x ∷ xs) a m t = elim (Bool-cases (p x)) [
    | inl e ↦ (x, inl refl, e, rw e (inl refl))
    | inr e ↦ elim m [
      | inl q ↦ absurd (cc)
      | inr n ↦ let (b, k, u, h) = Has-modify_hit p f xs a n t in (b, inr k, u, rw e (inr h))
    ]
  ]

  pub find-none : (p : A → Bool) (xs : List A) (a : A) → find p xs ≡ none → Has a xs → p a ≡ false
  find-none p [] a e m = absurd m
  find-none p (x ∷ xs) a e m = elim (Bool-cases (p x)) [
    | inl t ↦ let q : some x ≡ none = rw t at e in absurd (cc)
    | inr t ↦ elim m [ inl q ↦ rw q t | inr n ↦ find-none p xs a (rw t at e) n ]
  ]

  pub Has-select :
      (p : A → Bool) (xs : List A) {a : A} → Has a xs → p a ≡ true → Has a (select p xs)
  Has-select p [] h e = h
  Has-select p (x ∷ xs) {a} (inl q) e = rw (← q) (rw e (inl refl))
  Has-select p (x ∷ xs) {a} (inr q) e = elim (Bool-cases (p x)) [
    | inl t ↦ rw t (inr (Has-select p xs q e))
    | inr t ↦ rw t (Has-select p xs q e)
  ]

  pub select-Has :
      (p : A → Bool) (xs : List A) {a : A} → Has a (select p xs) → Has a xs × (p a ≡ true)
  select-Has p [] h = absurd h
  select-Has p (x ∷ xs) {a} h = elim (Bool-cases (p x)) [
    | inl t ↦ elim (rw t at h) [
      | inl q ↦ (inl q, rw q t)
      | inr q ↦ let ih = select-Has p xs q in (inr ih.0, ih.1)
    ]
    | inr t ↦ let ih = select-Has p xs (rw t at h) in (inr ih.0, ih.1)
  ]

module _ {ℓ κ} {A : Type ℓ} where
  abbrev pub All : (A → Type κ) → List A → Type κ
  All P [] = Unit
  All P (x ∷ xs) = P x × All P xs

  pub All-append_one :
      (P : A → Type κ) (xs : List A) {y : A} → All P xs → P y → All P (xs ++ y ∷ [])
  All-append_one P [] h p = (p, tt)
  All-append_one P (x ∷ xs) h p = (h.0, All-append_one P xs h.1 p)

  pub All-modify :
      (P : A → Type κ) (p : A → Bool) (f : A → A) (xs : List A)
      → ((a : A) → p a ≡ true → P a → P (f a))
      → All P xs
      → All P (modify p f xs)
  All-modify P p f [] k h = tt
  All-modify P p f (x ∷ xs) k h = elim (Bool-cases (p x)) [
    | inl e ↦ rw e (k x e h.0, h.1)
    | inr e ↦ rw e (h.0, All-modify P p f xs k h.1)
  ]

  pub All-find :
      (P : A → Type κ) (p : A → Bool) (xs : List A) {a : A} → All P xs → find p xs ≡ some a → P a
  All-find P p [] h e = absurd (cc)
  All-find P p (x ∷ xs) {a} h e = elim (Bool-cases (p x)) [
    | inl t ↦ ground arith
    | inr t ↦ All-find P p xs h.1 (rw t at e)
  ]
