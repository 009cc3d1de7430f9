-- ===== src/Common/Texts.antt =====
-- Membership of texts, by its test.
use mathlib.Core.Path.{◌≡◌, refl}
use mathlib.Core.Logic.{inl, inr}
use mathlib.Core.Bool.{true}
use mathlib.Core.List.{List, [], ◌∷◌}
use sentinel_keyvault.Common.Tests.{Bool-cases}
use sentinel_keyvault.Common.Lists.{Has}
use sentinel_keyvault.Common.Strings.{Text, text_eq, text_eq→eq, text_eq_refl, text_in}

pub text_in-Has : (t : Text) (ts : List Text) → text_in t ts ≡ true → Has t ts
text_in-Has t [] e = absurd (cc)
text_in-Has t (s ∷ ts) e = elim (Bool-cases (text_eq t s)) [
  | inl h ↦ inl (text_eq→eq t s h)
  | inr h ↦ inr (text_in-Has t ts (rw h at e))
]

pub Has-text_in : (t : Text) (ts : List Text) → Has t ts → text_in t ts ≡ true
Has-text_in t [] m = absurd m
Has-text_in t (s ∷ ts) (inl e) = rw e (rw (text_eq_refl s) refl)
Has-text_in t (s ∷ ts) (inr m) = elim (Bool-cases (text_eq t s)) [
  | inl h ↦ rw h refl
  | inr h ↦ rw h (Has-text_in t ts m)
]
