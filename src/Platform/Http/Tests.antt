-- ===== src/Platform/Http/Tests.antt =====
-- The guard against cross-site requests at a form that another site posts, and at one of the
-- service's own pages.
use sentinel_keyvault.Common.{
  ◌≡◌, ◌≢◌, ◌⊎◌, refl, none, [], ◌∷◌, Text, codes, rstrip, split, strip, lower,
}
use sentinel_keyvault.Platform.Json.{Json}
use sentinel_keyvault.Platform.Reply.{Reply, reply, refused, raised}
use sentinel_keyvault.Platform.Settings.{split_csv, text}
use sentinel_keyvault.Platform.Samples.{settings}
use sentinel_keyvault.Platform.Http.{Request, urlparse, candidate_of, dispatch, correlation_id}
use sentinel_keyvault.Platform.Http.Csrf.{IsTrusted, dispatch_lem}

abbrev post : Text → Text → Request
post header value = record {
  method = codes "POST";
  headers = (header, value) ∷ [];
  cookies = (codes "sid", codes "x") ∷ [];
}

abbrev handler : Request → Reply Text
handler request = reply request.method

split_csv_test : split_csv (text (codes "http://a/, http://b,")) ≡ settings.cors_origins
unfolding split_csv split strip
split_csv_test = refl

own_referer :
    dispatch settings handler (post (codes "referer") (codes "http://a/x?y")) ≡ reply (codes "POST")
unfolding dispatch candidate_of urlparse lower rstrip
own_referer = refl

own_origin :
    dispatch settings handler (post (codes "origin") (codes "http://b/")) ≡ reply (codes "POST")
unfolding dispatch candidate_of rstrip
own_origin = refl

fresh_id : correlation_id (λ t. none) 7 (post (codes "x-correlation-id") (codes "q")) ≡ 7
unfolding correlation_id
fresh_id = refl

abbrev foreign : Request
foreign = post (codes "origin") (codes "http://c")

foreign_stopped :
    dispatch settings handler foreign ≡ refused 403 (Json.str (codes "Cross-site request rejected"))
unfolding dispatch candidate_of rstrip
foreign_stopped = refl

rstrip_origins : (rstrip b'/' (codes "http://a/") ≢ []) × (rstrip b'/' (codes "http://b") ≢ [])
unfolding rstrip
rstrip_origins = (λ e. cc, λ e. cc)

dispatch_lem_example :
    (IsTrusted settings foreign → dispatch settings handler foreign ≡ handler foreign)
    × (¬ IsTrusted settings foreign
        → (dispatch settings handler foreign
            ≡ refused 403 (Json.str (codes "Cross-site request rejected")))
          ⊎ (dispatch settings handler foreign ≡ raised))
dispatch_lem_example =
    dispatch_lem settings handler foreign (rstrip_origins.0, (rstrip_origins.1, tt))
