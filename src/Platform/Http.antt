-- ===== src/Platform/Http.antt =====
-- The middleware of packages/python/sentinel_common/http.py. `CORSMiddleware` and the timing of
-- requests are left aside.
pub mod Csrf
mod Tests
use sentinel_keyvault.Common.{
  ℕ, ◌+◌, Bool, true, false, ◌&&◌, ◌||◌, not, Option, none, some, List, [], ◌∷◌, ◌++◌, map, Text,
  codes, text_eq, text_in, get, rstrip, starts_with, lower, leb, ◌==◌, if◌then◌else◌,
}
use sentinel_keyvault.Platform.Json.{Json}
use sentinel_keyvault.Platform.Reply.{Reply, reply, refused, raised}
use sentinel_keyvault.Platform.Settings.{Settings}

-- The names of headers are in lower case.
pub record Request : Type 0 where
  pub method : Text
  pub headers : List (Text × Text)
  pub cookies : List (Text × Text)

abbrev is_alpha : ℕ → Bool
is_alpha c = (leb b'a' c && leb c b'z') || (leb b'A' c && leb c b'Z')

abbrev is_scheme_char : ℕ → Bool
is_scheme_char c = is_alpha c || (leb b'0' c && leb c b'9') || c == b'+' || c == b'-' || c == b'.'

-- The text before the first `:`, if it can be a scheme, and the text after it.
scheme_of : Text → Option (Text × Text)
scheme_of [] = none
scheme_of (c ∷ s) = if c == b':' then some ([], s) else elim (scheme_of s) [
  | none ↦ none
  | some (scheme, rest) ↦ if is_scheme_char c then some (c ∷ scheme, rest) else none
]

abbrev starts_alpha : Text → Bool
starts_alpha [] = false
starts_alpha (c ∷ s) = is_alpha c

-- What stands before the first of `/?#`.
authority_of : Text → Text
authority_of [] = []
authority_of (c ∷ s) = if c == b'/' || c == b'?' || c == b'#' then [] else c ∷ authority_of s

abbrev netloc_of : Text → Text
netloc_of (a ∷ b ∷ s) = if a == b'/' && b == b'/' then authority_of s else []
netloc_of _ = []

-- `scheme` and `netloc` of `urllib.parse.urlparse`, for texts without control characters.
split_url : Text → Text × Text
unfolding scheme_of authority_of
split_url url = elim (scheme_of url) [
  | none ↦ ([], netloc_of url)
  | some (scheme, rest) ↦
      if starts_alpha scheme then (lower scheme, netloc_of rest) else ([], netloc_of url)
]

-- A bracket without its counterpart raises a `ValueError`.
unfoldable pub urlparse : Text → Option (Text × Text)
unfolding split_url
urlparse url =
    let (scheme, netloc) = split_url url in
    let opened = text_in (b'[' ∷ []) (map (λ c. c ∷ []) netloc) in
    let closed = text_in (b']' ∷ []) (map (λ c. c ∷ []) netloc) in
    if (opened && not closed) || (closed && not opened) then none else some (scheme, netloc)

-- `self._allowed_origins`
abbrev pub allowed_origins : Settings → List Text
allowed_origins settings = map (rstrip b'/') settings.cors_origins

abbrev pub is_safe_method : Text → Bool
is_safe_method method = text_in method (codes "GET" ∷ codes "HEAD" ∷ codes "OPTIONS" ∷ [])

abbrev pub has_key : Text → List (Text × Text) → Bool
has_key key pairs = elim (get key pairs) [ none ↦ false | some v ↦ true ]

abbrev pub referer_origin : Text × Text → Text
referer_origin (scheme, []) = []
referer_origin (scheme, c ∷ cs) = scheme ++ (codes "://" ++ c ∷ cs)

-- The origin that the headers `referer` names; `none` where `urlparse` raises.
unfoldable pub referer_candidate : Option Text → Option Text
referer_candidate none = some []
referer_candidate (some []) = some []
referer_candidate (some (c ∷ cs)) = elim (urlparse (c ∷ cs)) [
  | none ↦ none
  | some parsed ↦ some (referer_origin parsed)
]

-- `candidate`, from the headers `origin` and `referer`.
unfoldable pub candidate_of : Option Text → Option Text → Option Text
unfolding referer_candidate
candidate_of none referer = referer_candidate referer
candidate_of (some []) referer = referer_candidate referer
candidate_of (some (c ∷ cs)) referer = some (rstrip b'/' (c ∷ cs))

abbrev pub candidate : Request → Option Text
candidate request =
    candidate_of (get (codes "origin") request.headers) (get (codes "referer") request.headers)

-- The condition under which the request is looked at.
abbrev pub is_guarded : Settings → Request → Bool
is_guarded settings request =
    not (is_safe_method request.method) && has_key settings.session_cookie_name request.cookies

-- `CookieCSRFMiddleware.dispatch`
unfoldable pub dispatch {ℓ} : {A : Type ℓ} → Settings → (Request → Reply A) → Request → Reply A
dispatch settings call_next request =
    if is_guarded settings request
    then elim (candidate request) [
      | none ↦ raised
      | some origin ↦
          if text_in origin (allowed_origins settings)
          then call_next request
          else refused 403 (Json.str (codes "Cross-site request rejected"))
    ]
    else call_next request

-- The correlation id of `CorrelationMiddleware.dispatch`: that of the header, if it is a UUID, or a
-- fresh one. `parse` is `UUID`, which raises a `ValueError` on other texts.
unfoldable pub correlation_id : (Text → Option ℕ) → ℕ → Request → ℕ
correlation_id parse fresh request = elim (get (codes "x-correlation-id") request.headers) [
  | none ↦ fresh
  | some [] ↦ fresh
  | some (c ∷ cs) ↦ elim (parse (c ∷ cs)) [ none ↦ fresh | some id ↦ id ]
]
