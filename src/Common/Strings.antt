-- ===== src/Common/Strings.antt =====
-- Python's `str`, as the list of its code points, with the methods that the services call. The
-- case mapping is that of ASCII.
use Prim.Native.Nat.{ℕ, ◌+◌}
use Prim.Native.Char.{code}
use Prim.Native.String.{String}
use mathlib.Core.Path.{◌≡◌, refl}
use mathlib.Core.Bool.{Bool, true, false, ◌&&◌, ◌||◌}
use mathlib.Core.Option.{Option, none, some}
use mathlib.Core.List.{List, [], ◌∷◌, map, reverse}
use native.Mathlib.Omega.{arith}
use sentinel_keyvault.Common.Tests.{leb, ltb, ◌==◌, if◌then◌else◌}

abbrev pub Text : Type 0
Text = List ℕ

-- A literal of the source.
abbrev pub codes : String → Text
codes String.[] = []
codes (String.◌∷◌ c s) = code c ∷ codes s

-- `s == t`
abbrev pub text_eq : Text → Text → Bool
text_eq [] [] = true
text_eq (a ∷ s) (b ∷ t) = a == b && text_eq s t
text_eq _ _ = false

-- The order of texts is that of their code points.
abbrev pub text_le : Text → Text → Bool
text_le [] t = true
text_le (a ∷ s) [] = false
text_le (a ∷ s) (b ∷ t) = ltb a b || (a == b && text_le s t)

-- `a or b`
abbrev pub text_or_else : Option Text → Text → Text
text_or_else none b = b
text_or_else (some []) b = b
text_or_else (some (c ∷ cs)) b = c ∷ cs

abbrev pub lower_char : ℕ → ℕ
lower_char c = if leb b'A' c && leb c b'Z' then c + 32 else c

-- `s.lower()`
unfoldable pub lower : Text → Text
lower = map lower_char

-- `s.startswith(t)`
abbrev pub starts_with : Text → Text → Bool
starts_with s [] = true
starts_with [] (b ∷ t) = false
starts_with (a ∷ s) (b ∷ t) = a == b && starts_with s t

-- `s.endswith(t)`
pub ends_with : Text → Text → Bool
ends_with s t = starts_with (reverse s) (reverse t)

-- `t in s`
pub contains : Text → Text → Bool
contains [] t = starts_with [] t
contains (a ∷ s) t = starts_with (a ∷ s) t || contains s t

abbrev is_space : ℕ → Bool
is_space c = c == 32 || leb 9 c && leb c 13

strip_left : Text → Text
strip_left [] = []
strip_left (a ∷ s) = if is_space a then strip_left s else a ∷ s

-- `s.strip()`
unfoldable pub strip : Text → Text
unfolding strip_left
strip s = reverse (strip_left (reverse (strip_left s)))

drop_char : ℕ → Text → Text
drop_char c [] = []
drop_char c (a ∷ s) = if a == c then drop_char c s else a ∷ s

-- `s.rstrip(c)`, for one character
unfoldable pub rstrip : ℕ → Text → Text
unfolding drop_char
rstrip c s = reverse (drop_char c (reverse s))

-- The first piece before a separator, and the rest of the pieces.
cut : (ℕ → Bool) → Text → Text × List Text
cut p [] = ([], [])
cut p (a ∷ s) =
    let (piece, pieces) = cut p s in if p a then ([], piece ∷ pieces) else (a ∷ piece, pieces)

-- `s.split(c)`
unfoldable pub split : ℕ → Text → List Text
unfolding cut
split c s = let (piece, pieces) = cut (λ a. a == c) s in piece ∷ pieces

-- What of a list of texts is not empty.
abbrev pub nonempty : List Text → List Text
nonempty [] = []
nonempty ([] ∷ ts) = nonempty ts
nonempty ((c ∷ cs) ∷ ts) = (c ∷ cs) ∷ nonempty ts

-- `s.split()`
unfoldable pub words : Text → List Text
unfolding cut
words s = let (piece, pieces) = cut is_space s in nonempty (piece ∷ pieces)

-- `t in ts`
abbrev pub text_in : Text → List Text → Bool
text_in t [] = false
text_in t (s ∷ ts) = text_eq t s || text_in t ts

-- `d.get(k)` of a dictionary, or of the headers or cookies of a request.
abbrev pub get {ℓ} : {A : Type ℓ} → Text → List (Text × A) → Option A
get key [] = none
get key ((k, v) ∷ rest) = if text_eq key k then some v else get key rest

pub text_eq→eq : (s t : Text) → text_eq s t ≡ true → s ≡ t
text_eq→eq [] [] h = refl
text_eq→eq [] (b ∷ t) h = absurd (cc)
text_eq→eq (a ∷ s) [] h = absurd (cc)
text_eq→eq (a ∷ s) (b ∷ t) h = ground (arith, text_eq→eq s t)

pub text_eq_refl : (s : Text) → text_eq s s ≡ true
text_eq_refl [] = refl
text_eq_refl (a ∷ s) = ground (arith, text_eq_refl s)

lower_char_idem : (c : ℕ) → lower_char (lower_char c) ≡ lower_char c
lower_char_idem c = ground arith

pub lower_idem : (s : Text) → lower (lower s) ≡ lower s
unfolding lower
lower_idem [] = refl
lower_idem (c ∷ s) = cc (lower_char_idem c, lower_idem s)
