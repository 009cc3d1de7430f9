-- ===== src/Platform/Http/Csrf.antt =====
-- Which requests `CookieCSRFMiddleware` lets through.
use sentinel_keyvault.Common.{
  ℕ, ◌≡◌, ◌≢◌, ◌⊎◌, refl, sym, ap, ◌∙◌, inl, inr, true, false, Option, none, some, [], ◌∷◌, ◌++◌,
  Text, codes, text_in, text_in-Has, Has-text_in, get, rstrip, Has, All, All-Has, Bool-cases,
  Option-cases, map-Has, Has-map,
}
use sentinel_keyvault.Platform.Json.{Json}
use sentinel_keyvault.Platform.Reply.{Reply, refused, raised}
use sentinel_keyvault.Platform.Settings.{Settings}
use sentinel_keyvault.Platform.Http.{
  Request, urlparse, allowed_origins, is_safe_method, has_key, is_guarded, candidate, candidate_of,
  referer_candidate, referer_origin, dispatch,
}

-- The headers `origin` and `referer` name the site `t`: the former, less its closing slashes, or
-- the latter's scheme and host, where the former is absent or empty.
pub data SentFrom (origin referer : Option Text) (t : Text) : Type 0 where
  by_origin :
      (c : ℕ) (cs : Text)
      → origin ≡ some (c ∷ cs)
      → t ≡ rstrip b'/' (c ∷ cs)
      → SentFrom origin referer t
  by_referer :
      (origin ≡ none) ⊎ (origin ≡ some [])
      → (c : ℕ) (cs : Text) → referer ≡ some (c ∷ cs)
      → (scheme : Text) (d : ℕ) (host : Text) → urlparse (c ∷ cs) ≡ some (scheme, d ∷ host)
      → t ≡ scheme ++ (codes "://" ++ d ∷ host)
      → SentFrom origin referer t

referer_candidate-site :
    (origin referer : Option Text) (t : Text)
    → (origin ≡ none) ⊎ (origin ≡ some [])
    → referer_candidate referer ≡ some t
    → t ≢ []
    → SentFrom origin referer t
unfolding referer_candidate
referer_candidate-site origin none t o e n = absurd (n (cc))
referer_candidate-site origin (some []) t o e n = absurd (n (cc))
referer_candidate-site origin (some (c ∷ cs)) t o e n = elim (Option-cases (urlparse (c ∷ cs))) [
  | inl u ↦ let q : none ≡ some t = rw (u, referer_candidate) at e in absurd (cc)
  | inr (parsed, u) ↦
      let q : some (referer_origin parsed) ≡ some t = rw (u, referer_candidate) at e in
      go parsed u (cc)
]
  where
    go :
        (parsed : Text × Text)
        → urlparse (c ∷ cs) ≡ some parsed
        → referer_origin parsed ≡ t
        → SentFrom origin (some (c ∷ cs)) t
    go (scheme, []) u q = absurd (n (sym q))
    go (scheme, d ∷ host) u q = by_referer o c cs refl scheme d host u (sym q)

candidate-site :
    (origin referer : Option Text) (t : Text)
    → candidate_of origin referer ≡ some t
    → t ≢ []
    → SentFrom origin referer t
unfolding candidate_of
candidate-site none referer t e n = referer_candidate-site none referer t (inl refl) e n
candidate-site (some []) referer t e n = referer_candidate-site (some []) referer t (inr refl) e n
candidate-site (some (c ∷ cs)) referer t e n = by_origin c cs refl (cc)

site-candidate :
    (origin referer : Option Text) (t : Text)
    → SentFrom origin referer t
    → candidate_of origin referer ≡ some t
unfolding candidate_of referer_candidate
site-candidate origin referer t (by_origin c cs e q) = rw e (rw q refl)
site-candidate origin referer t (by_referer (inl o) c cs e scheme d host u q) =
    rw o (rw e (rw (u, referer_candidate) (rw q refl)))
site-candidate origin referer t (by_referer (inr o) c cs e scheme d host u q) =
    rw o (rw e (rw (u, referer_candidate) (rw q refl)))

-- The request needs no origin, or comes from the site of a configured origin.
abbrev pub IsTrusted : Settings → Request → Type 0
IsTrusted settings request =
    (is_safe_method request.method ≡ true)
    ⊎ (has_key settings.session_cookie_name request.cookies ≡ false)
    ⊎ ((o : Text) × Has o settings.cors_origins
        × SentFrom (get (codes "origin") request.headers) (get (codes "referer") request.headers)
            (rstrip b'/' o))

module _ {ℓ} {A : Type ℓ} (settings : Settings) (call_next : Request → Reply A)
    (request : Request) where
  passes_unguarded :
      is_guarded settings request ≡ false → dispatch settings call_next request ≡ call_next request
  unfolding dispatch
  passes_unguarded g = rw g refl

  passes_allowed :
      (t : Text)
      → candidate request ≡ some t
      → text_in t (allowed_origins settings) ≡ true
      → dispatch settings call_next request ≡ call_next request
  unfolding dispatch
  passes_allowed t e i = elim (Bool-cases (is_guarded settings request)) [
    | inl g ↦ rw g (rw (e, dispatch) (rw i refl))
    | inr g ↦ rw g refl
  ]

  stops :
      (t : Text)
      → is_guarded settings request ≡ true
      → candidate request ≡ some t
      → text_in t (allowed_origins settings) ≡ false
      → dispatch settings call_next request
        ≡ refused 403 (Json.str (codes "Cross-site request rejected"))
  unfolding dispatch
  stops t g e i = rw g (rw (e, dispatch) (rw i refl))

  fails :
      is_guarded settings request ≡ true
      → candidate request ≡ none
      → dispatch settings call_next request ≡ raised
  unfolding dispatch
  fails g e = rw g (rw (e, dispatch) refl)

  unguarded-IsTrusted : is_guarded settings request ≡ false → IsTrusted settings request
  unguarded-IsTrusted g = elim (Bool-cases (is_safe_method request.method)) [
    | inl s ↦ inl s
    | inr s ↦ elim (Bool-cases (has_key settings.session_cookie_name request.cookies)) [
      | inl k ↦ let q : true ≡ false = rw (s, k) at g in absurd (cc)
      | inr k ↦ inr (inl k)
    ]
  ]

  IsTrusted-unguarded :
      (is_safe_method request.method ≡ true)
        ⊎ (has_key settings.session_cookie_name request.cookies ≡ false)
      → is_guarded settings request ≡ false
  IsTrusted-unguarded (inl s) = rw s refl
  IsTrusted-unguarded (inr k) = elim (Bool-cases (is_safe_method request.method)) [
    | inl s ↦ rw s refl
    | inr s ↦ rw (s, k) refl
  ]

  -- Where no configured origin is empty once its closing slashes are gone: a request reaches the
  -- handler exactly if its method is GET, HEAD or OPTIONS, or it has no session cookie, or its
  -- headers name the site of a configured origin; any other is answered without the handler, by
  -- status 403 or, where the referer is no URL, by an error.
  pub dispatch_lem :
      All (λ o. rstrip b'/' o ≢ []) settings.cors_origins
      → (IsTrusted settings request → dispatch settings call_next request ≡ call_next request)
        × (¬ IsTrusted settings request
            → (dispatch settings call_next request
                ≡ refused 403 (Json.str (codes "Cross-site request rejected")))
              ⊎ (dispatch settings call_next request ≡ raised))
  dispatch_lem h = (trusted, untrusted)
    where
      trusted : IsTrusted settings request → dispatch settings call_next request ≡ call_next request
      trusted (inl s) = passes_unguarded (IsTrusted-unguarded (inl s))
      trusted (inr (inl k)) = passes_unguarded (IsTrusted-unguarded (inr k))
      trusted (inr (inr (o, m, sent))) =
          passes_allowed (rstrip b'/' o)
            (site-candidate (get (codes "origin") request.headers)
              (get (codes "referer") request.headers) (rstrip b'/' o) sent)
            (Has-text_in (rstrip b'/' o) (allowed_origins settings)
              (Has-map (rstrip b'/') settings.cors_origins o m))

      listed :
          (t : Text)
          → candidate request ≡ some t
          → Has t (allowed_origins settings)
          → IsTrusted settings request
      listed t e m =
          let (o, k, q) = map-Has (rstrip b'/') settings.cors_origins t m in
          let site =
            candidate-site (get (codes "origin") request.headers)
              (get (codes "referer") request.headers) (rstrip b'/' o) (e ∙ ap some q)
              (All-Has (λ o. rstrip b'/' o ≢ []) settings.cors_origins h k) in
          inr (inr (o, k, site))

      untrusted :
          ¬ IsTrusted settings request
          → (dispatch settings call_next request
              ≡ refused 403 (Json.str (codes "Cross-site request rejected")))
            ⊎ (dispatch settings call_next request ≡ raised)
      untrusted n = elim (Bool-cases (is_guarded settings request)) [
        | inr g ↦ absurd (n (unguarded-IsTrusted g))
        | inl g ↦ elim (Option-cases (candidate request)) [
          | inl e ↦ inr (fails g e)
          | inr (t, e) ↦ elim (Bool-cases (text_in t (allowed_origins settings))) [
            | inr i ↦ inl (stops t g e i)
            | inl i ↦ absurd (n (listed t e (text_in-Has t (allowed_origins settings) i)))
          ]
        ]
      ]
