-- ===== src/Inventory/Listing.antt =====
-- `list_resources` and the other queries of
-- apps/inventory-service/src/sentinel_inventory/repository.py.
pub mod Sorted
pub mod Paging
pub mod Walk
use sentinel_keyvault.Common.{
  text_le, ℕ, zero, suc, ◌+◌, ◌-◌, ◌≡◌, refl, Bool, true, false, ◌&&◌, ◌||◌, Option, none, some,
  List, [], ◌∷◌, ◌++◌, map, Text, codes, text_eq, lower, strip, ltb, leb, ◌==◌, select, find, take,
  length, last?, order_by, if◌then◌else◌,
}
use sentinel_keyvault.Inventory.Models.{
  Resource, ResourceState, Subscription, ResourceGroup, same_state,
}

pub record ResourceFilters : Type 0 where
  pub subscription_id : Option ℕ
  pub resource_group : Option Text
  pub resource_type : Option Text
  pub location : Option Text
  pub state : Option ResourceState
  pub search : Option Text

-- `column = value.lower()` on a lowered column; an absent or empty value is no condition.
abbrev pub lower_filter : Option Text → Text → Bool
lower_filter none s = true
lower_filter (some []) s = true
lower_filter (some (c ∷ cs)) s = text_eq (lower s) (lower (c ∷ cs))

abbrev pub null_lower_filter : Option Text → Option Text → Bool
null_lower_filter none s = true
null_lower_filter (some []) s = true
null_lower_filter (some (c ∷ cs)) none = false
null_lower_filter (some (c ∷ cs)) (some s) = text_eq (lower s) (lower (c ∷ cs))

-- SQL's `LIKE`: `%` is any text, `_` any character, and a backslash escapes the next one.
abbrev pub some_suffix : (Text → Bool) → Text → Bool
some_suffix p [] = p []
some_suffix p (c ∷ s) = p (c ∷ s) || some_suffix p s

abbrev pub like_char : (ℕ → Bool) → (Text → Bool) → Text → Bool
like_char ok rest [] = false
like_char ok rest (c ∷ s) = ok c && rest s

pub like : Bool → Text → Text → Bool
like escaped [] [] = true
like escaped [] (c ∷ s) = false
like true (p ∷ ps) s = like_char (λ c. c == p) (like false ps) s
like false (p ∷ ps) s =
    if p == b'%'
    then some_suffix (like false ps) s
    else if p == b'_'
    then like_char (λ c. true) (like false ps) s
    else if p == b'\\'
    then like true ps s
    else like_char (λ c. c == p) (like false ps) s

-- `column ILIKE pattern`
pub ilike : Text → Text → Bool
unfolding like
ilike s pattern = like false (lower pattern) (lower s)

abbrev pub search_filter : Option Text → Resource → Bool
search_filter none r = true
search_filter (some []) r = true
search_filter (some (c ∷ cs)) r =
    let pattern = codes "%" ++ strip (c ∷ cs) ++ codes "%" in
    ilike r.name pattern || ilike r.azure_resource_id pattern

abbrev pub id_filter : Option ℕ → ℕ → Bool
id_filter none n = true
id_filter (some a) n = n == a

abbrev pub state_filter : Option ResourceState → ResourceState → Bool
state_filter none s = true
state_filter (some a) s = same_state s a

-- The conditions that do not come from the cursor.
unfoldable pub accepts : ℕ → ResourceFilters → Resource → Bool
unfolding ilike
accepts tenant_id f r =
    r.tenant_id == tenant_id
    && id_filter f.subscription_id r.subscription_id
    && lower_filter f.resource_group r.resource_group
    && lower_filter f.resource_type r.resource_type
    && null_lower_filter f.location r.location
    && state_filter f.state r.state
    && search_filter f.search r

-- `Resource.id > decoded`
abbrev pub after : Option ℕ → Resource → Bool
after none r = true
after (some id) r = ltb id r.id

abbrev pub by_id : Resource → Resource → Bool
by_id r s = leb r.id s.id

-- `encode` prints a key as its cursor, `decode` reads one: base64 of the UUID's text. An absent or
-- empty cursor is no condition, and the outer `none` is the `ValueError` of one that cannot be read.
module _ (encode : ℕ → Text) (decode : Text → Option ℕ) where
  abbrev pub read_cursor : Option Text → Option (Option ℕ)
  read_cursor none = some none
  read_cursor (some []) = some none
  read_cursor (some (c ∷ cs)) = elim (decode (c ∷ cs)) [ none ↦ none | some id ↦ some (some id) ]

  -- `rows[limit - 1].id` where `len(rows) > limit`, and no cursor otherwise.
  abbrev pub next_cursor : ℕ → List Resource → Option Text
  next_cursor limit rows =
      if ltb limit (length rows)
      then elim (last? (take limit rows)) [ none ↦ none | some r ↦ some (encode r.id) ]
      else none

  abbrev pub rows_after : ℕ → ResourceFilters → ℕ → Option ℕ → List Resource → List Resource
  rows_after tenant_id f limit cursor resources =
      take (suc limit)
        (order_by by_id (select (λ r. accepts tenant_id f r && after cursor r) resources))

  unfoldable pub list_resources :
      ℕ → ResourceFilters → Option Text → ℕ → List Resource → Option (List Resource × Option Text)
  unfolding accepts
  list_resources tenant_id f cursor limit resources = elim (read_cursor cursor) [
    | none ↦ none
    | some key ↦
        let rows = rows_after tenant_id f limit key resources in
        some (take limit rows, next_cursor limit rows)
  ]

pub get_resource : ℕ → ℕ → List Resource → Option Resource
get_resource tenant_id resource_id = find (λ r. r.tenant_id == tenant_id && r.id == resource_id)

pub list_subscriptions : ℕ → List Subscription → List Subscription
list_subscriptions tenant_id rows =
    order_by (λ r s. text_le r.display_name s.display_name)
      (select (λ r. r.tenant_id == tenant_id) rows)

pub list_resource_groups : ℕ → List ResourceGroup → List ResourceGroup
list_resource_groups tenant_id rows =
    order_by (λ r s. text_le r.name s.name) (select (λ r. r.tenant_id == tenant_id) rows)
