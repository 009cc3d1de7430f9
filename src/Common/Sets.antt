-- ===== src/Common/Sets.antt =====
-- Python's sets of UUIDs, as lists with no repetition.
use Prim.Native.Nat.{ℕ, suc, ◌≤◌}
use mathlib.Core.Path.{◌≡◌, refl}
use mathlib.Core.Logic.{◌≢◌, ◌⊎◌, inl, inr}
use mathlib.Core.Bool.{Bool, true, false}
use mathlib.Core.List.{List, [], ◌∷◌}
use native.Mathlib.Omega.{arith}
use sentinel_keyvault.Common.Tests.{◌==◌, if◌then◌else◌, Bool-cases, ==→eq, ==-false}
use sentinel_keyvault.Common.Lists.{All, Has, length}
use sentinel_keyvault.Common.Keys.{Distinct}

-- `x in s`
abbrev pub member : ℕ → List ℕ → Bool
member x [] = false
member x (y ∷ s) = if x == y then true else member x s

-- `s.add(x)`
abbrev pub add : ℕ → List ℕ → List ℕ
add x s = if member x s then s else x ∷ s

-- `s | t`
abbrev pub union : List ℕ → List ℕ → List ℕ
union s [] = s
union s (x ∷ t) = add x (union s t)

-- `t - s`
abbrev pub minus : List ℕ → List ℕ → List ℕ
minus [] s = []
minus (x ∷ t) s = if member x s then minus t s else x ∷ minus t s

abbrev pub id_of : ℕ → ℕ
id_of n = n

pub member→Has : (x : ℕ) (s : List ℕ) → member x s ≡ true → Has x s
member→Has x [] h = absurd (cc)
member→Has x (y ∷ s) h = elim (Bool-cases (x == y)) [
  | inl e ↦ inl (==→eq x y e)
  | inr e ↦ inr (member→Has x s (rw e at h))
]

pub Has→member : (x : ℕ) (s : List ℕ) → Has x s → member x s ≡ true
Has→member x [] m = absurd m
Has→member x (y ∷ s) (inl e) = ground arith
Has→member x (y ∷ s) (inr m) = ground (arith, Has→member x s m)

pub Has-add_self : (x : ℕ) (s : List ℕ) → Has x (add x s)
Has-add_self x s = elim (Bool-cases (member x s)) [
  | inl e ↦ rw e (member→Has x s e)
  | inr e ↦ rw e (inl refl)
]

pub Has-add : (x y : ℕ) (s : List ℕ) → Has y s → Has y (add x s)
Has-add x y s m = elim (Bool-cases (member x s)) [ inl e ↦ rw e m | inr e ↦ rw e (inr m) ]

pub add-Has : (x y : ℕ) (s : List ℕ) → Has y (add x s) → (y ≡ x) ⊎ Has y s
add-Has x y s m = elim (Bool-cases (member x s)) [ inl e ↦ inr (rw e at m) | inr e ↦ rw e at m ]

pub Has-union_left : (y : ℕ) (s t : List ℕ) → Has y s → Has y (union s t)
Has-union_left y s [] m = m
Has-union_left y s (x ∷ t) m = Has-add x y (union s t) (Has-union_left y s t m)

pub Has-union_right : (y : ℕ) (s t : List ℕ) → Has y t → Has y (union s t)
Has-union_right y s [] m = absurd m
Has-union_right y s (x ∷ t) (inl e) = rw e (Has-add_self x (union s t))
Has-union_right y s (x ∷ t) (inr m) = Has-add x y (union s t) (Has-union_right y s t m)

pub union-Has : (y : ℕ) (s t : List ℕ) → Has y (union s t) → Has y s ⊎ Has y t
union-Has y s [] m = inl m
union-Has y s (x ∷ t) m = elim (add-Has x y (union s t) m) [
  | inl e ↦ inr (inl e)
  | inr n ↦ elim (union-Has y s t n) [ inl a ↦ inl a | inr b ↦ inr (inr b) ]
]

pub minus-Has : (y : ℕ) (t s : List ℕ) → Has y (minus t s) → Has y t
minus-Has y [] s m = absurd m
minus-Has y (x ∷ t) s m = elim (Bool-cases (member x s)) [
  | inl e ↦ inr (minus-Has y t s (rw e at m))
  | inr e ↦ elim (rw e at m) [ inl p ↦ inl p | inr n ↦ inr (minus-Has y t s n) ]
]

pub add_old : (x : ℕ) (s : List ℕ) → Has x s → add x s ≡ s
add_old x s m = rw (Has→member x s m)

-- Taking `s` off `t` first does not change the union.
pub union-minus : (s t : List ℕ) → union s (minus t s) ≡ union s t
union-minus s [] = refl
union-minus s (x ∷ t) = elim (Bool-cases (member x s)) [
  | inl e ↦
      rw e (rw (add_old x (union s t) (Has-union_left x s t (member→Has x s e))) (union-minus s t))
  | inr e ↦ rw e (rw (union-minus s t))
]

pub length-add-le : (x : ℕ) (s : List ℕ) → length (add x s) ≤ suc (length s)
length-add-le x s = ground arith

Distinct-add : (x : ℕ) (s : List ℕ) → Distinct id_of s → Distinct id_of (add x s)
Distinct-add x s d = elim (Bool-cases (member x s)) [ inl e ↦ rw e d | inr e ↦ rw e (fresh s e, d) ]
  where
    fresh : (t : List ℕ) → member x t ≡ false → All (λ y. x ≢ y) t
    fresh [] h = tt
    fresh (y ∷ t) h = elim (Bool-cases (x == y)) [
      | inl q ↦ absurd (cc)
      | inr q ↦ (==-false x y q, fresh t (rw q at h))
    ]

pub Distinct-union : (s t : List ℕ) → Distinct id_of s → Distinct id_of (union s t)
Distinct-union s [] d = d
Distinct-union s (x ∷ t) d = Distinct-add x (union s t) (Distinct-union s t d)
