-- ===== src/Inventory/Listing/Paging.antt =====
-- A client of `list_resources` that follows the cursors until none is returned.
use mathlib.Core.Path.{subst}
use sentinel_keyvault.Common.{
  ℕ, zero, suc, ◌≡◌, ◌<◌, ◌≢◌, refl, sym, ap, Bool, true, false, inl, inr, some, List, [], ◌∷◌,
  ◌++◌, arith, Bool-cases, select, take, last?, All, All-Has, Has, Distinct, insert_by, order_by,
  All-insert_by, ltb,
}
use sentinel_keyvault.Inventory.Models.{Resource}
use sentinel_keyvault.Inventory.Listing.{by_id, after}

abbrev pub IsRising : List Resource → Type 0
IsRising [] = Unit
IsRising (x ∷ xs) = All (λ y. x.id < y.id) xs × IsRising xs

All-order_by : (P : Resource → Type 0) (xs : List Resource) → All P xs → All P (order_by by_id xs)
unfolding order_by
All-order_by P [] h = tt
All-order_by P (x ∷ xs) h = All-insert_by by_id P x (order_by by_id xs) h.0 (All-order_by P xs h.1)

below :
    (x y : Resource) (ys : List Resource)
    → x.id < y.id
    → All (λ z. y.id < z.id) ys
    → All (λ z. x.id < z.id) ys
below x y [] e h = tt
below x y (z ∷ zs) e h = (omega (arith, e, h.0), below x y zs e h.1)

insert_by-IsRising :
    (x : Resource) (ys : List Resource)
    → All (λ y. x.id ≢ y.id) ys
    → IsRising ys
    → IsRising (insert_by by_id x ys)
unfolding insert_by
insert_by-IsRising x [] d r = (tt, tt)
insert_by-IsRising x (y ∷ ys) d r = elim (Bool-cases (by_id x y)) [
  | inl t ↦ let lt : x.id < y.id = before x y t d.0 in rw t ((lt, below x y ys lt r.0), r)
  | inr t ↦ rw t (
    All-insert_by by_id (λ z. y.id < z.id) x ys (behind x y t) r.0,
    insert_by-IsRising x ys d.1 r.1,
  )
]
  where
    before : (x y : Resource) → by_id x y ≡ true → x.id ≢ y.id → x.id < y.id
    before x y t d = ground arith

    behind : (x y : Resource) → by_id x y ≡ false → y.id < x.id
    behind x y t = ground arith

pub order_by-IsRising :
    (xs : List Resource) → Distinct (λ r. r.id) xs → IsRising (order_by by_id xs)
unfolding order_by
order_by-IsRising [] d = tt
order_by-IsRising (x ∷ xs) d =
    insert_by-IsRising x (order_by by_id xs) (All-order_by (λ y. x.id ≢ y.id) xs d.0)
      (order_by-IsRising xs d.1)

All-select :
    (P : Resource → Type 0) (p : Resource → Bool) (xs : List Resource)
    → All P xs
    → All P (select p xs)
All-select P p [] h = tt
All-select P p (x ∷ xs) h = elim (Bool-cases (p x)) [
  | inl e ↦ rw e (h.0, All-select P p xs h.1)
  | inr e ↦ rw e (All-select P p xs h.1)
]

pub select-IsRising :
    (p : Resource → Bool) (xs : List Resource) → IsRising xs → IsRising (select p xs)
select-IsRising p [] h = tt
select-IsRising p (x ∷ xs) h = elim (Bool-cases (p x)) [
  | inl e ↦ rw e (All-select (λ y. x.id < y.id) p xs h.0, select-IsRising p xs h.1)
  | inr e ↦ rw e (select-IsRising p xs h.1)
]

select-All :
    (p : Resource → Bool) (xs : List Resource) → All (λ x. p x ≡ true) xs → select p xs ≡ xs
select-All p [] h = refl
select-All p (x ∷ xs) h = rw h.0 (ap (λ ys. x ∷ ys) (select-All p xs h.1))

-- A condition that implies another one makes it superfluous.
pub select-narrower :
    (p q : Resource → Bool) (xs : List Resource)
    → ((r : Resource) → q r ≡ true → p r ≡ true)
    → select q (select p xs) ≡ select q xs
select-narrower p q [] h = refl
select-narrower p q (x ∷ xs) h = elim (Bool-cases (q x)) [
  | inl e ↦ rw (h x e, e) (ap (λ ys. x ∷ ys) (select-narrower p q xs h))
  | inr e ↦ elim (Bool-cases (p x)) [
    | inl t ↦ rw (t, e) (select-narrower p q xs h)
    | inr t ↦ rw (t, e) (select-narrower p q xs h)
  ]
]

pub last-Has : (xs : List Resource) (r : Resource) → last? xs ≡ some r → Has r xs
last-Has [] r e = absurd (cc)
last-Has (x ∷ []) r e = let q : x ≡ r = cc in inl (sym q)
last-Has (x ∷ y ∷ xs) r e = inr (last-Has (y ∷ xs) r e)

pub take-Has : (n : ℕ) (xs : List Resource) (r : Resource) → Has r (take n xs) → Has r xs
take-Has zero xs r m = absurd m
take-Has (suc n) [] r m = m
take-Has (suc n) (x ∷ xs) r (inl q) = inl q
take-Has (suc n) (x ∷ xs) r (inr m) = inr (take-Has n xs r m)

pub last-take :
    (n : ℕ) (x : Resource) (xs : List Resource)
    → (r : Resource) × (last? (take (suc n) (x ∷ xs)) ≡ some r)
last-take zero x xs = (x, refl)
last-take (suc n) x [] = (x, refl)
last-take (suc n) x (y ∷ ys) = last-take n y ys

ltb_irrefl : (n : ℕ) → ltb n n ≡ false
ltb_irrefl n = ground arith

not_before : (x r : Resource) → x.id < r.id → ltb r.id x.id ≡ false
not_before x r lt = ground arith

pub lt→ltb : (a b : ℕ) → a < b → ltb a b ≡ true
lt→ltb a b h = ground arith

All-after :
    (x : Resource) (xs : List Resource)
    → All (λ y. x.id < y.id) xs
    → All (λ y. after (some x.id) y ≡ true) xs
All-after x [] h = tt
All-after x (y ∷ ys) h = (lt→ltb x.id y.id h.0, All-after x ys h.1)

-- A page and the rows after its last one make up the list.
pub page-split :
    (n : ℕ) (xs : List Resource) (r : Resource)
    → IsRising xs
    → last? (take (suc n) xs) ≡ some r
    → take (suc n) xs ++ select (after (some r.id)) xs ≡ xs
page-split n [] r h e = absurd (cc)
page-split zero (x ∷ xs) r h e =
    let q : some x ≡ some r = e in
    let same : x ≡ r = cc in
    subst (λ s. take 1 (x ∷ xs) ++ select (after (some s.id)) (x ∷ xs) ≡ x ∷ xs) same
      (rw (ltb_irrefl x.id)
        (ap (λ ys. x ∷ ys) (select-All (after (some x.id)) xs (All-after x xs h.0))))
page-split (suc n) (x ∷ []) r h e =
    let same : x ≡ r = cc in
    subst (λ s. take (suc (suc n)) (x ∷ []) ++ select (after (some s.id)) (x ∷ []) ≡ x ∷ []) same
      (rw (ltb_irrefl x.id) refl)
page-split (suc n) (x ∷ y ∷ ys) r h e =
    let within = take-Has (suc n) (y ∷ ys) r (last-Has (take (suc n) (y ∷ ys)) r e) in
    let lt : x.id < r.id = All-Has (λ z. x.id < z.id) (y ∷ ys) h.0 within in
    rw (not_before x r lt) (ap (λ zs. x ∷ zs) (page-split n (y ∷ ys) r h.1 e))
