-- ===== src/Inventory/Listing/Walk.antt =====
-- A client of `list_resources` that follows the cursors until none is returned.
use sentinel_keyvault.Common.{
  ℕ, zero, suc, ◌≡◌, ◌<◌, ◌≤◌, refl, ap, ◌∙◌, true, ◌&&◌, inl, inr, Option, none, some, List, [],
  ◌∷◌, ◌++◌, arith, Bool-cases, Text, select, take, last?, length, length-append, Has, Distinct,
  order_by, select-Has, length-select-le, length-order_by, ltb, ltb-false,
}
use sentinel_keyvault.Inventory.Models.{Resource}
use sentinel_keyvault.Inventory.Listing.{
  by_id, after, accepts, ResourceFilters, list_resources, read_cursor, next_cursor,
}
use sentinel_keyvault.Inventory.Listing.Sorted.{order_by-select, select-select}
use sentinel_keyvault.Inventory.Listing.Paging.{
  IsRising, order_by-IsRising, select-IsRising, select-narrower, last-Has, take-Has, last-take,
  page-split,
}

take-more : (n : ℕ) (xs : List Resource) → take n (take (suc n) xs) ≡ take n xs
take-more zero xs = refl
take-more (suc n) [] = refl
take-more (suc n) (x ∷ xs) = ap (λ ys. x ∷ ys) (take-more n xs)

take-all : (n : ℕ) (xs : List Resource) → length (take (suc n) xs) ≤ n → take n xs ≡ xs
take-all zero [] h = refl
take-all zero (x ∷ xs) h = absurd (omega (arith, h))
take-all (suc n) [] h = refl
take-all (suc n) (x ∷ xs) h = ap (λ ys. x ∷ ys) (take-all n xs (omega (arith, h)))

-- Every row that the filters accept, in the order of the keys.
pub listed : ℕ → ResourceFilters → List Resource → List Resource
listed tenant_id f resources = select (accepts tenant_id f) (order_by by_id resources)

module _ (encode : ℕ → Text) (decode : Text → Option ℕ) (tenant_id : ℕ) (f : ResourceFilters)
    (limit : ℕ) (resources : List Resource) where
  -- The rows of the pages, from a cursor on, with a bound on the number of pages.
  pub walk : ℕ → Option Text → List Resource
  walk zero cursor = []
  walk (suc fuel) cursor = elim (list_resources encode decode tenant_id f cursor limit resources) [
    | none ↦ []
    | some (rows, none) ↦ rows
    | some (rows, some next) ↦ rows ++ walk fuel (some next)
  ]

  list_resources_page :
      (cursor : Option Text) (key : Option ℕ)
      → read_cursor encode decode cursor ≡ some key
      → list_resources encode decode tenant_id f cursor limit resources
        ≡ some (
          take limit (select (after key) (listed tenant_id f resources)),
          next_cursor encode decode limit
              (take (suc limit) (select (after key) (listed tenant_id f resources))),
        )
  unfolding list_resources listed
  list_resources_page cursor key e =
      let p : order_by by_id (select (λ r. accepts tenant_id f r && after key r) resources)
          ≡ select (after key) (select (accepts tenant_id f) (order_by by_id resources)) =
        order_by-select (λ r. accepts tenant_id f r && after key r) resources
        ∙ select-select (accepts tenant_id f) (after key) (order_by by_id resources) in
      rw (e, list_resources)
        (rw p (rw (take-more limit (select (after key) (listed tenant_id f resources))) refl))

select-true : (xs : List Resource) → select (after none) xs ≡ xs
select-true [] = refl
select-true (x ∷ xs) = ap (λ ys. x ∷ ys) (select-true xs)

length-listed :
    (tenant_id : ℕ) (f : ResourceFilters) (resources : List Resource)
    → length (listed tenant_id f resources) ≤ length resources
unfolding listed
length-listed tenant_id f resources = omega (
  arith,
  length-select-le (accepts tenant_id f) (order_by by_id resources),
  length-order_by by_id resources,
)

listed-IsRising :
    (tenant_id : ℕ) (f : ResourceFilters) (resources : List Resource)
    → Distinct (λ r. r.id) resources
    → IsRising (listed tenant_id f resources)
unfolding listed
listed-IsRising tenant_id f resources distinct =
    select-IsRising (accepts tenant_id f) (order_by by_id resources)
      (order_by-IsRising resources distinct)

last-long :
    (n : ℕ) (xs : List Resource)
    → ltb (suc n) (length (take (suc (suc n)) xs)) ≡ true
    → ((r : Resource) × (last? (take (suc n) xs) ≡ some r)) × (0 < length (take (suc n) xs))
last-long n [] h = absurd (ground arith)
last-long n (x ∷ xs) h = (last-take n x xs, omega arith)

after-Has :
    (key : Option ℕ) (xs : List Resource) (r : Resource)
    → Has r (select (after key) xs)
    → (s : Resource) → after (some r.id) s ≡ true
    → after key s ≡ true
after-Has none xs r m s t = refl
after-Has (some k) xs r m s t =
    let u : ltb k r.id ≡ true = (select-Has (after (some k)) xs m).1 in ground arith

module _ (encode : ℕ → Text) (decode : Text → Option ℕ)
    (reads : (id : ℕ) → read_cursor encode decode (some (encode id)) ≡ some (some id))
    (tenant_id : ℕ) (f : ResourceFilters) (limit : ℕ) (resources : List Resource) where
  abbrev rest : Option ℕ → List Resource
  rest key = select (after key) (listed tenant_id f resources)

  -- The last row of a full page, the rows after it, and how many they are.
  full_page :
      (key : Option ℕ)
      → IsRising (rest key)
      → ltb (suc limit) (length (take (suc (suc limit)) (rest key))) ≡ true
      → (r : Resource) × (next_cursor encode decode (suc limit) (take (suc (suc limit)) (rest key))
          ≡ some (encode r.id))
        × (take (suc limit) (rest key) ++ rest (some r.id) ≡ rest key)
        × (length (rest (some r.id)) < length (rest key))
  full_page key rising more =
      let ((r, e), some_rows) = last-long limit (rest key) more in
      let within = take-Has (suc limit) (rest key) r (last-Has (take (suc limit) (rest key)) r e) in
      let narrower =
        select-narrower (after key) (after (some r.id)) (listed tenant_id f resources)
          (after-Has key (listed tenant_id f resources) r within) in
      let split : take (suc limit) (rest key) ++ rest (some r.id) ≡ rest key =
        rw (← narrower) (page-split limit (rest key) r rising e) in
      let sizes = ap length split in
      let sum = length-append (take (suc limit) (rest key)) (rest (some r.id)) in
      (
        r,
        rw more (rw (take-more (suc limit) (rest key), e) refl),
        split,
        omega (arith, sizes, sum, some_rows),
      )

  walk_from :
      (fuel : ℕ) (cursor : Option Text) (key : Option ℕ)
      → IsRising (listed tenant_id f resources)
      → read_cursor encode decode cursor ≡ some key
      → length (rest key) < fuel
      → walk encode decode tenant_id f (suc limit) resources fuel cursor ≡ rest key
  unfolding walk
  walk_from zero cursor key rising e short = absurd (omega (arith, short))
  walk_from (suc fuel) cursor key rising e short =
      let page = list_resources_page encode decode tenant_id f (suc limit) resources cursor key e in
      elim (Bool-cases (ltb (suc limit) (length (take (suc (suc limit)) (rest key))))) [
        | inr last ↦
            rw (page, walk)
              (rw last (
                take-all (suc limit) (rest key)
                  (ltb-false (suc limit) (length (take (suc (suc limit)) (rest key))) last)))
        | inl more ↦
            let (r, next, split, fewer) =
              full_page key (select-IsRising (after key) (listed tenant_id f resources) rising)
                more in
            let ih =
              walk_from fuel (some (encode r.id)) (some r.id) rising (reads r.id)
                (omega (arith, short, fewer)) in
            rw (page, walk) (rw next (rw ih split))
      ]

  -- Following the cursors from the first page on returns every row that the filters accept exactly
  -- once, in the order of the keys, when keys are unique and a page has at least one row. As many
  -- requests as there are resources, and one more, are enough.
  pub walk_lem :
      Distinct (λ r. r.id) resources
      → walk encode decode tenant_id f (suc limit) resources (suc (length resources)) none
        ≡ listed tenant_id f resources
  walk_lem distinct =
      let all : rest none ≡ listed tenant_id f resources =
        select-true (listed tenant_id f resources) in
      let few : length (listed tenant_id f resources) ≤ length resources =
        length-listed tenant_id f resources in
      let rising = listed-IsRising tenant_id f resources distinct in
      walk_from (suc (length resources)) none none rising refl (omega (arith, ap length all, few))
      ∙ all
