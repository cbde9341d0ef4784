-- ===== src/Proxy/Handler.antt =====
-- `proxy_handler`, `build_response` and the forwarding of crates/localx-llama-runtime/src/proxy.rs.
-- What the HTTP libraries do (reading a body, `to_str`, sending a request), SHA-256, and JSON are
-- parameters.
pub mod Laws
pub mod Passing
use localx_llama.Prelude.{
  ℕ, Bool, true, false, ◌&&◌, Option, none, some, List, [], ◌∷◌, ◌++◌, map, if◌then◌else◌, leb,
  Result, err, ok, ◌>>=?◌, ◌>>=◌, ◌*◌, ◌||◌,
}
use localx_llama.Text.{Text, codes, strip_prefix}
use localx_llama.Json.{Value, get_key}
use localx_llama.Nothink.Request.{transform_request}
use localx_llama.Proxy.Headers.{HeaderMap, get_header, copy_headers, is_event_stream}
use localx_llama.Proxy.Token.{token_matches}

abbrev pub max_body_bytes : ℕ
max_body_bytes = 64 * 1024 * 1024

pub data ProxyError : Type 0 where
  upstream_failed : Text → ProxyError
  listen_failed : Text → ProxyError

-- `e.to_string()`
abbrev pub proxy_error_text : ProxyError → Text
proxy_error_text (upstream_failed e) = codes "upstream request failed: " ++ e
proxy_error_text (listen_failed e) = codes "proxy listen failed: " ++ e

pub record ForwardRequest : Type 0 where
  pub method : Text
  pub path_and_query : Text
  pub headers : HeaderMap
  pub body : List ℕ

-- The body is what the stream yields until its end.
pub record ForwardResponse : Type 0 where
  pub status : ℕ
  pub headers : HeaderMap
  pub body : List (Result ProxyError (List ℕ))

pub record ProxyConfig : Type 0 where
  pub target_host : Text
  pub target_port : ℕ
  pub merge_system : Bool
  pub api_key : Option Text

-- A request whose body is of a type that the library reads.
pub record Request (B : Type 0) : Type 0 where
  pub method : Text
  pub path_and_query : Text
  pub headers : HeaderMap
  pub body : B

pub data Body : Type 0 where
  whole : List ℕ → Body
  stream : List (Result ProxyError (List ℕ)) → Body
  message : Text → Body

pub record Response : Type 0 where
  pub status : ℕ
  pub headers : HeaderMap
  pub body : Body

abbrev pub status_body : ℕ → Text → Response
status_body status msg = record { status = status; headers = []; body = message msg }

-- `StatusCode::from_u16(status).unwrap_or(StatusCode::BAD_GATEWAY)`
abbrev pub status_code : ℕ → ℕ
status_code status = if leb 100 status && leb status 999 then status else 502

unfoldable pub collect_stream : List (Result ProxyError (List ℕ)) → Result ProxyError (List ℕ)
collect_stream [] = ok []
collect_stream (chunk ∷ rest) =
    chunk >>= λ bytes. collect_stream rest >>= λ later. ok (bytes ++ later)

module _ (parse : List ℕ → Option Value) (print : Value → List ℕ) where
  -- The body to send, and whether it is a chat body.
  unfoldable pub outgoing : Bool → List ℕ → List ℕ × Bool
  outgoing merge_system bytes = elim (parse bytes) [
    | none ↦ (bytes, false)
    | some v ↦ elim (get_key (codes "messages") v) [
      | none ↦ (bytes, false)
      | some _ ↦ (print (transform_request v merge_system), true)
    ]
  ]

module _ (to_str : List ℕ → Option Text) where
  module _ (digest : Text → List ℕ) where
    -- Whether the header's token, behind the prefix, is the expected one.
    unfoldable pub presents : Text → Text → Text → HeaderMap → Bool
    unfolding get_header token_matches
    presents name prefix expected headers =
        elim (get_header name headers >>=? λ v. to_str v >>=? λ s. strip_prefix prefix s) [
          | none ↦ false
          | some token ↦ token_matches digest token expected
        ]

    unfoldable pub is_authorized : Option Text → HeaderMap → Bool
    unfolding presents
    is_authorized none headers = true
    is_authorized (some expected) headers =
        presents (codes "authorization") (codes "Bearer ") expected headers
        || presents (codes "x-api-key") [] expected headers

    module _ {B : Type 0} (to_bytes : B → ℕ → Option (List ℕ)) (parse : List ℕ → Option Value)
        (print : Value → List ℕ) where
      -- The handler up to the forwarding: a response of its own, or what it forwards and whether
      -- that is a chat body.
      unfoldable pub prepare : ProxyConfig → Request B → Result Response (ForwardRequest × Bool)
      unfolding is_authorized outgoing
      prepare config req =
          if is_authorized config.api_key req.headers
          then elim (to_bytes req.body max_body_bytes) [
            | none ↦ err (status_body 413 (codes "request body too large"))
            | some bytes ↦
                let (body, chat) = outgoing parse print config.merge_system bytes in
                ok (
                  record {
                    method = req.method;
                    path_and_query = req.path_and_query;
                    headers = req.headers;
                    body = body;
                  },
                  chat,
                )
          ]
          else err (status_body 401 (codes "missing or wrong api key"))

  module _ (stream_filter : List (Result ProxyError (List ℕ)) → List (Result ProxyError (List ℕ)))
      (strip_json : List ℕ → List ℕ) where
    -- `sse_think_stream` and `strip_think_json_response` come in as parameters.
    unfoldable pub build_response : ForwardResponse → Bool → Response
    unfolding copy_headers is_event_stream collect_stream
    build_response resp is_chat =
        let headers = copy_headers resp.headers [] in
        let status = status_code resp.status in
        if is_event_stream to_str resp.headers
        then record { status = status; headers = headers; body = stream (stream_filter resp.body) }
        else elim (collect_stream resp.body) [
          | err e ↦ status_body 502 (proxy_error_text e)
          | ok buffered ↦ record {
            status = status;
            headers = headers;
            body = whole (if is_chat then strip_json buffered else buffered);
          }
        ]

-- `ReqwestUpstream::forward`; `send` is the client's, with the URL.
module _
    (send : Text → ForwardRequest → Result Text (ℕ × HeaderMap × List (Result Text (List ℕ)))) where
  abbrev pub upstream_item : Result Text (List ℕ) → Result ProxyError (List ℕ)
  upstream_item (ok bytes) = ok bytes
  upstream_item (err e) = err (upstream_failed e)

  unfoldable pub upstream_forward : Text → ForwardRequest → Result ProxyError ForwardResponse
  unfolding copy_headers
  upstream_forward base_url req =
      let sent : ForwardRequest = record {
        method = req.method;
        path_and_query = req.path_and_query;
        headers = copy_headers req.headers [];
        body = req.body;
      } in
      elim (send (base_url ++ req.path_and_query) sent) [
        | err e ↦ err (upstream_failed e)
        | ok (status, headers, body) ↦
            ok (record { status = status; headers = headers; body = map upstream_item body })
      ]

-- The whole handler: what it forwards, if anything, and what it answers.
module _ {B : Type 0} (to_str : List ℕ → Option Text) (digest : Text → List ℕ)
    (to_bytes : B → ℕ → Option (List ℕ)) (parse : List ℕ → Option Value) (print : Value → List ℕ)
    (stream_filter : List (Result ProxyError (List ℕ)) → List (Result ProxyError (List ℕ)))
    (strip_json : List ℕ → List ℕ)
    (forward : ForwardRequest → Result ProxyError ForwardResponse) where
  unfoldable pub proxy_handler : ProxyConfig → Request B → Option ForwardRequest × Response
  unfolding prepare build_response
  proxy_handler config req = elim (prepare to_str digest to_bytes parse print config req) [
    | err answer ↦ (none, answer)
    | ok (fwd, is_chat) ↦ elim (forward fwd) [
      | ok resp ↦ (some fwd, build_response to_str stream_filter strip_json resp is_chat)
      | err e ↦ (some fwd, status_body 502 (proxy_error_text e))
    ]
  ]
