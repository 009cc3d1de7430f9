-- ===== src/Inventory/Listing/Sorted.antt =====
-- The rows of `list_resources` in the order of their keys: a condition on the rows and the
-- ordering commute, and the rows after a cursor are the rest of the ordered list.
use sentinel_keyvault.Common.{
  ◌≡◌, refl, sym, Bool, true, false, ◌&&◌, inl, inr, List, [], ◌∷◌, arith, Bool-cases, select, All,
  insert_by, order_by, IsOrdered, order_by-IsOrdered,
}
use sentinel_keyvault.Inventory.Models.{Resource}
use sentinel_keyvault.Inventory.Listing.{by_id}

pub by_id_total : (r s : Resource) → by_id r s ≡ false → by_id s r ≡ true
by_id_total r s h = ground arith

pub by_id_trans : (q r s : Resource) → by_id q r ≡ true → by_id r s ≡ true → by_id q s ≡ true
by_id_trans q r s g h = ground arith

-- A row that comes before all of a list is inserted in front.
insert_first :
    (x : Resource) (ys : List Resource)
    → All (λ y. by_id x y ≡ true) ys
    → insert_by by_id x ys ≡ x ∷ ys
unfolding insert_by
insert_first x [] h = refl
insert_first x (y ∷ ys) h = rw h.0 refl

All-select :
    (P : Resource → Type 0) (p : Resource → Bool) (xs : List Resource)
    → All P xs
    → All P (select p xs)
All-select P p [] h = tt
All-select P p (x ∷ xs) h = elim (Bool-cases (p x)) [
  | inl e ↦ rw e (h.0, All-select P p xs h.1)
  | inr e ↦ rw e (All-select P p xs h.1)
]

All-below :
    (x y : Resource) (ys : List Resource)
    → by_id x y ≡ true
    → All (λ z. by_id y z ≡ true) ys
    → All (λ z. by_id x z ≡ true) ys
All-below x y [] e h = tt
All-below x y (z ∷ zs) e h = (by_id_trans x y z e h.0, All-below x y zs e h.1)

module _ (p : Resource → Bool) where
  select-insert_drop :
      (x : Resource) (ys : List Resource)
      → p x ≡ false
      → select p (insert_by by_id x ys) ≡ select p ys
  unfolding insert_by
  select-insert_drop x [] e = rw e refl
  select-insert_drop x (y ∷ ys) e = elim (Bool-cases (by_id x y)) [
    | inl t ↦ rw t (rw e refl)
    | inr t ↦ rw t (elim (Bool-cases (p y)) [
      | inl u ↦ rw u (rw (select-insert_drop x ys e) refl)
      | inr u ↦ rw u (select-insert_drop x ys e)
    ])
  ]

  select-insert_keep :
      (x : Resource) (ys : List Resource)
      → IsOrdered by_id ys
      → p x ≡ true
      → select p (insert_by by_id x ys) ≡ insert_by by_id x (select p ys)
  unfolding insert_by
  select-insert_keep x [] o e = rw e refl
  select-insert_keep x (y ∷ ys) o e = elim (Bool-cases (by_id x y)) [
    | inl t ↦
        let first =
          insert_first x (select p (y ∷ ys))
            (All-select (λ z. by_id x z ≡ true) p (y ∷ ys) (t, All-below x y ys t o.0)) in
        rw t (rw e (sym first))
    | inr t ↦ rw t (elim (Bool-cases (p y)) [
      | inl u ↦ rw u (rw t (rw (select-insert_keep x ys o.1 e) refl))
      | inr u ↦ rw u (select-insert_keep x ys o.1 e)
    ])
  ]

  -- `WHERE` and `ORDER BY` commute.
  pub order_by-select :
      (xs : List Resource) → order_by by_id (select p xs) ≡ select p (order_by by_id xs)
  unfolding order_by
  order_by-select [] = refl
  order_by-select (x ∷ xs) = elim (Bool-cases (p x)) [
    | inl e ↦
        let sorted = order_by-IsOrdered by_id by_id_total by_id_trans xs in
        rw e (rw (order_by-select xs) (sym (select-insert_keep x (order_by by_id xs) sorted e)))
    | inr e ↦ rw e (rw (order_by-select xs) (sym (select-insert_drop x (order_by by_id xs) e)))
  ]

pub select-select :
    (p q : Resource → Bool) (xs : List Resource)
    → select (λ r. p r && q r) xs ≡ select q (select p xs)
select-select p q [] = refl
select-select p q (x ∷ xs) = elim (Bool-cases (p x)) [
  | inl e ↦ rw e (elim (Bool-cases (q x)) [
    | inl u ↦ rw u (rw (select-select p q xs) refl)
    | inr u ↦ rw u (select-select p q xs)
  ])
  | inr e ↦ rw e (select-select p q xs)
]
