-- ===== src/Platform/Jwt.antt =====
-- The library PyJWT as the services call it. A token's claims are a dictionary; a claim that is a
-- natural number, as the times are, is kept as one, and any other value is a JSON value.
use sentinel_keyvault.Common.{
  ℕ, ◌+◌, ◌≡◌, Bool, true, false, ◌&&◌, Option, none, some, List, [], ◌∷◌, Text, codes, text_eq,
  get, leb, ltb, if◌then◌else◌,
}
use sentinel_keyvault.Platform.Json.{Json}

pub data Claim : Type 0 where
  number : ℕ → Claim
  value : Json → Claim

abbrev pub Claims : Type 0
Claims = List (Text × Claim)

abbrev pub claim_text : Text → Claim
claim_text t = value (Json.str t)

-- The arguments of `jwt.decode` after the token and the key; an audience is always given.
pub record Checks : Type 0 where
  pub algorithm : Text
  pub audience : Text
  pub issuer : Text
  pub leeway : ℕ
  pub required : List Text

-- `none` is an exception of the class `PyJWTError`. A time is in seconds.
pub record Jwt : Type 0 where
  -- `jwt.get_unverified_header`
  pub header : Text → Option Claims
  -- `jwt.decode` without verification of the signature
  pub unverified : Text → Option Claims
  -- `jwt.decode`: time, token, key and checks
  pub decode : ℕ → Text → Text → Checks → Option Claims
  -- `jwt.encode`: claims, key and algorithm
  pub encode : Claims → Text → Text → Text

abbrev pub time_of : Text → Claims → Option ℕ
time_of name claims = elim (get name claims) [
  | none ↦ none
  | some (number n) ↦ some n
  | some (value v) ↦ none
]

abbrev pub has_claims : List Text → Claims → Bool
has_claims [] claims = true
has_claims (name ∷ names) claims = elim (get name claims) [
  | none ↦ false
  | some c ↦ has_claims names claims
]

abbrev is_text : Text → Option Claim → Bool
is_text t none = false
is_text t (some (number n)) = false
is_text t (some (value (Json.str s))) = text_eq s t
is_text t (some (value _)) = false

abbrev in_time : (ℕ → Bool) → Option ℕ → Bool
in_time p none = true
in_time p (some t) = p t

-- What the documentation of PyJWT says that `jwt.decode` checks beside the signature: the required
-- claims are there, the issuer and the audience are those expected, `exp` lies in the future and
-- `nbf` and `iat` do not.
abbrev pub is_valid_at : ℕ → Checks → Claims → Bool
is_valid_at now checks claims =
    has_claims checks.required claims
    && is_text checks.issuer (get (codes "iss") claims)
    && is_text checks.audience (get (codes "aud") claims)
    && in_time (λ t. ltb now (t + checks.leeway)) (time_of (codes "exp") claims)
    && in_time (λ t. leb t (now + checks.leeway)) (time_of (codes "nbf") claims)
    && in_time (λ t. leb t (now + checks.leeway)) (time_of (codes "iat") claims)

-- The library reads back a token of these claims that it signed with the same key and algorithm, if
-- the claims pass the checks.
pub record ReadsBack (jwt : Jwt) (claims : Claims) : Type 0 where
  pub read_back :
      (now : ℕ) (key : Text) (checks : Checks)
      → jwt.decode now (jwt.encode claims key checks.algorithm) key checks
        ≡ (if is_valid_at now checks claims then some claims else none)

-- Verification of a token does not change what it says.
pub record Agrees (jwt : Jwt) : Type 0 where
  pub verified :
      (now : ℕ) (token key : Text) (checks : Checks) (claims : Claims)
      → jwt.decode now token key checks ≡ some claims
      → jwt.unverified token ≡ some claims
