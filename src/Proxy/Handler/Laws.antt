-- ===== src/Proxy/Handler/Laws.antt =====
-- Who is forwarded, and what passes the proxy unchanged.
use localx_llama.Prelude.{
  Result, Result-cases, Bool-cases, err, ℕ, ◌≡◌, refl, Bool, true, false, Option, none, some, List,
  [], Option-cases, ok, ◌>>=?◌, ◌||◌, sym, ◌∙◌, inl, inr, ◌⊎◌,
}
use localx_llama.Text.{Text, codes, strip_prefix}
use localx_llama.Json.{Value}
use localx_llama.Proxy.Headers.{HeaderMap, get_header}
use localx_llama.Proxy.Token.{token_matches, IsDigest, token_matches_iff}
use localx_llama.Proxy.Handler.{
  ProxyConfig, ProxyError, Request, Response, ForwardRequest, ForwardResponse, presents,
  is_authorized, prepare, outgoing, proxy_handler, max_body_bytes, status_body,
}

-- The request with another body.
abbrev pub sent : {B : Type 0} → Request B → List ℕ → ForwardRequest
sent req body = record {
  method = req.method;
  path_and_query = req.path_and_query;
  headers = req.headers;
  body = body;
}

module _ (to_str : List ℕ → Option Text) where
  -- The token that a header presents behind a prefix.
  abbrev pub token : Text → Text → HeaderMap → Option Text
  token name prefix headers =
      get_header name headers >>=? λ v. to_str v >>=? λ s. strip_prefix prefix s

  module _ (digest : Text → List ℕ) where
    presented :
        (name prefix expected : Text) (headers : HeaderMap)
        → presents to_str digest name prefix expected headers ≡ true
        → (t : Text) × (token name prefix headers ≡ some t)
          × (token_matches digest t expected ≡ true)
    unfolding presents
    presented name prefix expected headers h = elim (Option-cases (token name prefix headers)) [
      | inl nothing ↦ absurd (cc (refused nothing, h))
      | inr (t, found) ↦ (t, found, sym (given t found) ∙ h)
    ]
      where
        refused :
            token name prefix headers ≡ none
            → presents to_str digest name prefix expected headers ≡ false
        refused e = rw (e, presents) refl

        given :
            (t : Text)
            → token name prefix headers ≡ some t
            → presents to_str digest name prefix expected headers ≡ token_matches digest t expected
        given t e = rw (e, presents) refl

    or_true : (a b : Bool) → (a || b) ≡ true → (a ≡ true) ⊎ (b ≡ true)
    or_true true b h = inl refl
    or_true false b h = inr h

    authorized_token :
        (expected : Text) (headers : HeaderMap)
        → is_authorized to_str digest (some expected) headers ≡ true
        → (t : Text) × ((token (codes "authorization") (codes "Bearer ") headers ≡ some t)
            ⊎ (token (codes "x-api-key") [] headers ≡ some t))
          × (token_matches digest t expected ≡ true)
    unfolding is_authorized
    authorized_token expected headers h = elim (or_true _ _ h) [
      | inl bearer ↦
          let (t, found, same) =
            presented (codes "authorization") (codes "Bearer ") expected headers bearer in
          (t, inl found, same)
      | inr plain ↦
          let (t, found, same) = presented (codes "x-api-key") [] expected headers plain in
          (t, inr found, same)
    ]

    module _ {B : Type 0} (to_bytes : B → ℕ → Option (List ℕ)) (parse : List ℕ → Option Value)
        (print : Value → List ℕ) where
      -- What is prepared for forwarding was authorized and within the limit.
      prepare_ok :
          (config : ProxyConfig) (req : Request B) (fwd : ForwardRequest) (chat : Bool)
          → prepare to_str digest to_bytes parse print config req ≡ ok (fwd, chat)
          → (bytes : List ℕ) × (is_authorized to_str digest config.api_key req.headers ≡ true)
            × (to_bytes req.body max_body_bytes ≡ some bytes)
            × (fwd ≡ sent req (outgoing parse print config.merge_system bytes).0)
      unfolding prepare
      prepare_ok config req fwd chat h =
          elim (Bool-cases (is_authorized to_str digest config.api_key req.headers)) [
            | inr refused ↦ absurd (cc (answer_refused refused, h))
            | inl allowed ↦ elim (Option-cases (to_bytes req.body max_body_bytes)) [
              | inl large ↦ absurd (cc (answer_large allowed large, h))
              | inr (bytes, read) ↦ (bytes, allowed, read, cc (accepted bytes allowed read, h))
            ]
          ]
        where
          answer_refused :
              is_authorized to_str digest config.api_key req.headers ≡ false
              → prepare to_str digest to_bytes parse print config req
                ≡ err (status_body 401 (codes "missing or wrong api key"))
          answer_refused e = rw (e, prepare) refl

          answer_large :
              is_authorized to_str digest config.api_key req.headers ≡ true
              → to_bytes req.body max_body_bytes ≡ none
              → prepare to_str digest to_bytes parse print config req
                ≡ err (status_body 413 (codes "request body too large"))
          answer_large e k = rw (e, prepare) (rw (k, prepare) refl)

          accepted :
              (bytes : List ℕ)
              → is_authorized to_str digest config.api_key req.headers ≡ true
              → to_bytes req.body max_body_bytes ≡ some bytes
              → prepare to_str digest to_bytes parse print config req
                ≡ ok (
                  sent req (outgoing parse print config.merge_system bytes).0,
                  (outgoing parse print config.merge_system bytes).1,
                )
          accepted bytes e k = rw (e, prepare) (rw (k, prepare) refl)

      module _
          (stream_filter : List (Result ProxyError (List ℕ)) → List (Result ProxyError (List ℕ)))
          (strip_json : List ℕ → List ℕ)
          (forward : ForwardRequest → Result ProxyError ForwardResponse) where
        abbrev handle : ProxyConfig → Request B → Option ForwardRequest × Response
        handle config req =
            proxy_handler to_str digest to_bytes parse print stream_filter strip_json forward config
              req

        refused :
            (config : ProxyConfig) (req : Request B) (answer : Response)
            → prepare to_str digest to_bytes parse print config req ≡ err answer
            → handle config req ≡ (none, answer)
        unfolding proxy_handler
        refused config req answer h = rw (h, proxy_handler) refl

        gone_out :
            (config : ProxyConfig) (req : Request B) (fwd : ForwardRequest) (chat : Bool)
            → prepare to_str digest to_bytes parse print config req ≡ ok (fwd, chat)
            → (handle config req).0 ≡ some fwd
        unfolding proxy_handler
        gone_out config req fwd chat h = elim (Result-cases (forward fwd)) [
          | inl (resp, e) ↦ rw (h, proxy_handler) (rw (e, proxy_handler) refl)
          | inr (x, e) ↦ rw (h, proxy_handler) (rw (e, proxy_handler) refl)
        ]

        -- With an API key, for a digest function that gives for every text `n` bytes: what is
        -- forwarded comes from a request that presents, as a bearer token or in `x-api-key`, a
        -- token with the key's digest, and whose body was read within the limit. Its method, path
        -- and headers are the request's, and its body is the one that `outgoing` makes of the
        -- request's.
        pub forwarded_authorized :
            (n : ℕ) (config : ProxyConfig) (key : Text) (req : Request B) (fwd : ForwardRequest)
            → ((t : Text) → IsDigest n (digest t))
            → config.api_key ≡ some key
            → (handle config req).0 ≡ some fwd
            → (t : Text) × (bytes : List ℕ) × ((token
                    (codes "authorization")
                    (codes "Bearer ")
                    req.headers
                  ≡ some t)
                ⊎ (token (codes "x-api-key") [] req.headers ≡ some t))
              × (digest t ≡ digest key)
              × (to_bytes req.body max_body_bytes ≡ some bytes)
              × (fwd ≡ sent req (outgoing parse print config.merge_system bytes).0)
        forwarded_authorized n config key req fwd hd keyed h =
            elim (Result-cases (prepare to_str digest to_bytes parse print config req)) [
              | inr (answer, e) ↦ absurd (cc (refused config req answer e, h))
              | inl ((f, chat), e) ↦
                  let (bytes, allowed, read, same) = prepare_ok config req f chat e in
                  let (t, found, matches) =
                    authorized_token key req.headers (rw (sym keyed) allowed) in
                  (
                    t,
                    bytes,
                    found,
                    (token_matches_iff digest n hd t key).0 matches,
                    read,
                    cc (gone_out config req f chat e, h, same),
                  )
            ]
