-- ===== src/Platform/Python.antt =====
-- What the validation of tokens uses of Python, on the values of claims.
use sentinel_keyvault.Common.{
  ℕ, Bool, true, false, ◌&&◌, ◌||◌, not, Option, none, some, List, [], ◌∷◌, Text, codes, leb, ◌==◌,
  if◌then◌else◌,
}
use sentinel_keyvault.Platform.Json.{Json, Items, Fields}
use sentinel_keyvault.Platform.Jwt.{Claim, number, value}

-- The Python that the validation uses: `UUID` of a text, which is `none` for a `ValueError`; `str`
-- of a UUID; and `str` of a number and of any other value that is not a text.
pub record Python : Type 0 where
  pub uuid : Text → Option ℕ
  pub print_uuid : ℕ → Text
  pub print_number : ℕ → Text
  pub print_json : Json → Text

abbrev pub str_of : Python → Claim → Text
str_of python (number n) = python.print_number n
str_of python (value (Json.str t)) = t
str_of python (value j) = python.print_json j

-- The digits of a number up to its exponent: `bool` of a number is whether one is not zero.
abbrev pub nonzero : Text → Bool
nonzero [] = false
nonzero (c ∷ s) = if c == b'e' || c == b'E' then false else (leb b'1' c && leb c b'9') || nonzero s

-- The truth of a value.
abbrev pub is_true : Claim → Bool
is_true (number n) = not (n == 0)
is_true (value Json.null) = false
is_true (value (Json.bool b)) = b
is_true (value (Json.number t)) = nonzero t
is_true (value (Json.str t)) = elim t [ [] ↦ false | c ∷ cs ↦ true ]
is_true (value (Json.arr items)) = elim items [ Items.nil ↦ false | Items.cons j js ↦ true ]
is_true (value (Json.obj fields)) = elim fields [ Fields.end ↦ false | Fields.field k v r ↦ true ]

abbrev pub truthy : Option Claim → Option Claim
truthy none = none
truthy (some c) = if is_true c then some c else none

-- `str(a or b or "User")`
abbrev pub display_name_of : Python → Option Claim → Option Claim → Text
display_name_of python (some c) _ = str_of python c
display_name_of python none (some c) = str_of python c
display_name_of python none none = codes "User"

-- Entra documents `preferred_username` as a text.
abbrev pub text_claim : Option Claim → Option Text
text_claim (some (value (Json.str t))) = some t
text_claim _ = none

abbrev pub str_or_empty : Python → Option Claim → Text
str_or_empty python none = []
str_or_empty python (some c) = str_of python c

abbrev pub is_hashable : Json → Bool
is_hashable (Json.arr items) = false
is_hashable (Json.obj fields) = false
is_hashable j = true

abbrev pub items_of : Items → Option (List Json)
items_of Items.nil = some []
items_of (Items.cons j js) = elim (items_of js) [
  | none ↦ none
  | some rest ↦ if is_hashable j then some (j ∷ rest) else none
]

abbrev pub chars_of : Text → List Json
chars_of [] = []
chars_of (c ∷ s) = Json.str (c ∷ []) ∷ chars_of s

abbrev pub keys_of : Fields → List Json
keys_of Fields.end = []
keys_of (Fields.field k v r) = Json.str k ∷ keys_of r

-- The members of `frozenset(v)`; `none` is a `TypeError`.
abbrev pub set_of : Option Claim → Option (List Json)
set_of none = some []
set_of (some (number n)) = none
set_of (some (value (Json.arr items))) = items_of items
set_of (some (value (Json.str t))) = some (chars_of t)
set_of (some (value (Json.obj fields))) = some (keys_of fields)
set_of (some (value _)) = none
