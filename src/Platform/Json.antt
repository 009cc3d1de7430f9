-- ===== src/Platform/Json.antt =====
-- The values of JSON columns and request bodies, `dict[str, object]` in the source. Only texts,
-- lists and objects are looked into; a number is kept as its printed text.
use sentinel_keyvault.Common.{
  ℕ, suc, Bool, true, false, ◌&&◌, Option, none, some, Text, text_eq, ◌==◌, if◌then◌else◌,
}

mutual
  pub data Json : Type 0 where
    null : Json
    bool : Bool → Json
    number : Text → Json
    str : Text → Json
    arr : Items → Json
    obj : Fields → Json

  pub data Items : Type 0 where
    nil : Items
    cons : Json → Items → Items

  pub data Fields : Type 0 where
    end : Fields
    field : Text → Json → Fields → Fields

abbrev same_bool : Bool → Bool → Bool
same_bool true b = b
same_bool false true = false
same_bool false false = true

-- The value of a key.
abbrev pub field_value : Text → Fields → Option Json
field_value key end = none
field_value key (field k v fields) = if text_eq key k then some v else field_value key fields

abbrev count : Fields → ℕ
count end = 0
count (field k v fields) = suc (count fields)

-- `a == b` on values that JSON makes: the order of an object's keys does not count.
unfoldable mutual
  pub json_eq : Json → Json → Bool
  json_eq null null = true
  json_eq (bool a) (bool b) = same_bool a b
  json_eq (number a) (number b) = text_eq a b
  json_eq (str a) (str b) = text_eq a b
  json_eq (arr a) (arr b) = items_eq a b
  json_eq (obj a) (obj b) = count a == count b && fields_in a b
  json_eq _ _ = false

  items_eq : Items → Items → Bool
  items_eq nil nil = true
  items_eq (cons a xs) (cons b ys) = json_eq a b && items_eq xs ys
  items_eq _ _ = false

  fields_in : Fields → Fields → Bool
  fields_in end b = true
  fields_in (field k v fields) b = elim (field_value k b) [
    | none ↦ false
    | some w ↦ json_eq v w && fields_in fields b
  ]
