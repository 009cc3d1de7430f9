-- ===== src/Common/Keys.antt =====
-- Rows with a primary key: a write goes to the row with the object's key.
use Prim.Native.Nat.{ℕ}
use mathlib.Core.Path.{◌≡◌, refl, sym, ap, ◌∙◌}
use mathlib.Core.Logic.{◌≢◌, ◌⊎◌, inl, inr}
use mathlib.Core.List.{List, [], ◌∷◌, ◌++◌, map}
use sentinel_keyvault.Common.Tests.{◌==◌, Bool-cases, ==→eq, ==-false}
use sentinel_keyvault.Common.Lists.{All, Has, modify}

pub All-Has {κ} : {A : Type 0} (P : A → Type κ) (xs : List A) {a : A} → All P xs → Has a xs → P a
All-Has P [] h m = absurd m
All-Has P (x ∷ xs) h (inl e) = rw e h.0
All-Has P (x ∷ xs) h (inr m) = All-Has P xs h.1 m

pub Has-append_one : {A : Type 0} (xs : List A) (y a : A) → Has a xs → Has a (xs ++ y ∷ [])
Has-append_one [] y a m = absurd m
Has-append_one (x ∷ xs) y a (inl e) = inl e
Has-append_one (x ∷ xs) y a (inr m) = inr (Has-append_one xs y a m)

pub Has-append_last : {A : Type 0} (xs : List A) (y : A) → Has y (xs ++ y ∷ [])
Has-append_last [] y = inl refl
Has-append_last (x ∷ xs) y = inr (Has-append_last xs y)

pub append_one-Has :
    {A : Type 0} (xs : List A) (y a : A) → Has a (xs ++ y ∷ []) → Has a xs ⊎ (a ≡ y)
append_one-Has [] y a (inl e) = inr e
append_one-Has [] y a (inr m) = inl m
append_one-Has (x ∷ xs) y a (inl e) = inl (inl e)
append_one-Has (x ∷ xs) y a (inr m) = elim (append_one-Has xs y a m) [
  | inl k ↦ inl (inr k)
  | inr e ↦ inr e
]

module _ {A B : Type 0} (f : A → B) where
  pub Has-map : (xs : List A) (x : A) → Has x xs → Has (f x) (map f xs)
  Has-map [] x m = absurd m
  Has-map (y ∷ xs) x (inl e) = inl (ap f e)
  Has-map (y ∷ xs) x (inr m) = inr (Has-map xs x m)

  pub map-Has : (xs : List A) (y : B) → Has y (map f xs) → (x : A) × Has x xs × (y ≡ f x)
  map-Has [] y m = absurd m
  map-Has (x ∷ xs) y (inl e) = (x, inl refl, e)
  map-Has (x ∷ xs) y (inr m) = let (z, k, e) = map-Has xs y m in (z, inr k, e)

module _ {A : Type 0} (key : A → ℕ) where
  abbrev pub Distinct : List A → Type 0
  Distinct [] = Unit
  Distinct (x ∷ xs) = All (λ y. key x ≢ key y) xs × Distinct xs

  -- `UPDATE` of the row with this object's primary key.
  abbrev pub write : A → List A → List A
  write r = modify (λ row. key row == key r) (λ _. r)

  pub Distinct-Has :
      (xs : List A) {a b : A} → Distinct xs → Has a xs → Has b xs → key a ≡ key b → a ≡ b
  Distinct-Has [] d m n e = absurd m
  Distinct-Has (x ∷ xs) d (inl p) (inl q) e = p ∙ sym q
  Distinct-Has (x ∷ xs) {a} {b} d (inl p) (inr n) e =
      absurd (All-Has (λ y. key x ≢ key y) xs d.0 n (rw (← p) e))
  Distinct-Has (x ∷ xs) {a} {b} d (inr m) (inl q) e =
      absurd (All-Has (λ y. key x ≢ key y) xs d.0 m (rw (← q) (sym e)))
  Distinct-Has (x ∷ xs) d (inr m) (inr n) e = Distinct-Has xs d.1 m n e

  pub All-write : (P : A → Type 0) (r : A) (xs : List A) → P r → All P xs → All P (write r xs)
  All-write P r [] p h = tt
  All-write P r (x ∷ xs) p h = elim (Bool-cases (key x == key r)) [
    | inl e ↦ rw e (p, h.1)
    | inr e ↦ rw e (h.0, All-write P r xs p h.1)
  ]

  ne-write :
      (k : ℕ) (r : A) (xs : List A) → All (λ y. k ≢ key y) xs → All (λ y. k ≢ key y) (write r xs)
  ne-write k r [] h = tt
  ne-write k r (x ∷ xs) h = elim (Bool-cases (key x == key r)) [
    | inl e ↦ rw e (rw (← ==→eq (key x) (key r) e) h.0, h.1)
    | inr e ↦ rw e (h.0, ne-write k r xs h.1)
  ]

  pub Distinct-write : (r : A) (xs : List A) → Distinct xs → Distinct (write r xs)
  Distinct-write r [] d = tt
  Distinct-write r (x ∷ xs) d = elim (Bool-cases (key x == key r)) [
    | inl e ↦ rw e (rw (← ==→eq (key x) (key r) e) d.0, d.1)
    | inr e ↦ rw e (ne-write (key x) r xs d.0, Distinct-write r xs d.1)
  ]

  pub Distinct-append_one :
      (xs : List A) (y : A) → Distinct xs → All (λ x. key x ≢ key y) xs → Distinct (xs ++ y ∷ [])
  Distinct-append_one [] y d h = (tt, tt)
  Distinct-append_one (x ∷ xs) y d h = (go xs d.0, Distinct-append_one xs y d.1 h.1)
    where
      go : (zs : List A) → All (λ z. key x ≢ key z) zs → All (λ z. key x ≢ key z) (zs ++ y ∷ [])
      go [] a = (h.0, tt)
      go (z ∷ zs) a = (a.0, go zs a.1)

  -- The written row is there, if its key was.
  pub Has-write_self : (r : A) (xs : List A) {a : A} → Has a xs → key a ≡ key r → Has r (write r xs)
  Has-write_self r [] m q = absurd m
  Has-write_self r (x ∷ xs) {a} m q = elim (Bool-cases (key x == key r)) [
    | inl e ↦ rw e (inl refl)
    | inr e ↦ elim m [
      | inl p ↦ absurd (==-false (key x) (key r) e (rw (← p) q))
      | inr n ↦ rw e (inr (Has-write_self r xs n q))
    ]
  ]

  -- A row with another key stays.
  pub Has-write_ne : (r : A) (xs : List A) {a : A} → Has a xs → key a ≢ key r → Has a (write r xs)
  Has-write_ne r [] m q = absurd m
  Has-write_ne r (x ∷ xs) {a} m q = elim (Bool-cases (key x == key r)) [
    | inl e ↦ elim m [ inl p ↦ absurd (q (rw p (==→eq (key x) (key r) e))) | inr n ↦ rw e (inr n) ]
    | inr e ↦ elim m [ inl p ↦ rw e (inl p) | inr n ↦ rw e (inr (Has-write_ne r xs n q)) ]
  ]
