-- ===== src/Tests/ProxyTests.antt =====
-- The proxy handler of proxy.rs on small requests, with small functions in place of the libraries.
use localx_llama.Proxy.Handler.{
  is_authorized, ProxyConfig, ProxyError, Request, Response, ForwardRequest, ForwardResponse,
  outgoing, proxy_handler, max_body_bytes, whole, status_code,
}
use localx_llama.Proxy.Headers.{
  is_event_stream, HeaderMap, get_header, copy_headers, copy_headers_lem, IsForwarded, is_skipped,
}
use localx_llama.Text.{strip_prefix, Text, codes, concat}
use localx_llama.Prelude.{
  ℕ, ◌-◌, ◌%◌, ◌<◌, ◌≡◌, refl, ◌↔◌, ◌⊎◌, true, Option, none, some, List, [], ◌∷◌, ◌++◌, arith,
  if◌then◌else◌, leb, ◌==◌, All, length, Result, err, ok,
}
use localx_llama.Json.{Value}
use localx_llama.Nothink.Sse.Drain.{SseThinkFilter, fresh, push_chunk, finish_stream}
use localx_llama.Proxy.{sse_think_stream}
use localx_llama.Proxy.Laws.{good, failure}
use localx_llama.Proxy.Filtered.{sse_filter, received, sse_think_stream-push_chunk}
use localx_llama.Proxy.Token.{IsDigest, token_matches, token_matches_iff}
use localx_llama.Proxy.Handler.Laws.{sent, token, forwarded_authorized}
use localx_llama.Proxy.Handler.Passing.{passes_through}

-- A digest of one byte.
unfoldable parity : Text → ℕ
parity [] = 0
parity (c ∷ s) = let p = parity s in if c % 2 == 0 then p else 1 - p

parity_bound : (s : Text) → parity s < 256
unfolding parity
parity_bound [] = omega arith
parity_bound (c ∷ s) = ground (arith, parity_bound s)

abbrev digest : Text → List ℕ
digest s = parity s ∷ []

digest-IsDigest : (t : Text) → IsDigest 1 (digest t)
digest-IsDigest t = (refl, (parity_bound t, tt))

token_matches_iff_example :
    (token_matches digest (codes "ab") (codes "key") ≡ true)
    ↔ (digest (codes "ab") ≡ digest (codes "key"))
token_matches_iff_example = token_matches_iff digest 1 digest-IsDigest (codes "ab") (codes "key")

abbrev request_headers : HeaderMap
request_headers = (codes "host", codes "h") ∷ ((codes "authorization", codes "Bearer key") ∷ [])

copy_headers_lem_example :
    All IsForwarded (copy_headers request_headers [])
    × ((k : Text)
        → get_header k (copy_headers request_headers [])
          ≡ (if is_skipped k then none else get_header k request_headers))
copy_headers_lem_example = copy_headers_lem request_headers

abbrev no_json : List ℕ → Option Value
no_json bytes = none

abbrev no_print : Value → List ℕ
no_print v = []

abbrev config : ProxyConfig
config = record {
  target_host = codes "localhost";
  target_port = 8080;
  merge_system = true;
  api_key = some (codes "key");
}

abbrev request : Request (List ℕ)
request = record {
  method = codes "POST";
  path_and_query = codes "/props";
  headers = request_headers;
  body = codes "body";
}

abbrev answer : ForwardResponse
answer = record { status = 200; headers = []; body = ok (codes "<think>") ∷ (ok (codes "x") ∷ []) }

abbrev upstream : ForwardRequest → Result ProxyError ForwardResponse
upstream req = ok answer

-- Bodies are read whole when they are short enough.
abbrev to_bytes : List ℕ → ℕ → Option (List ℕ)
to_bytes body limit = if leb (length body) limit then some body else none

abbrev handled : Option ForwardRequest × Response
handled =
    proxy_handler (λ v. some v) digest to_bytes no_json no_print (λ s. s) (λ b. b) upstream config
      request

handled_runs : handled.0 ≡ some (sent request (codes "body"))
unfolding proxy_handler strip_prefix parity
handled_runs = refl

forwarded_authorized_example :
    (t : Text) × (bytes : List ℕ) × ((token
          (λ v. some v)
          (codes "authorization")
          (codes "Bearer ")
          request_headers
        ≡ some t)
      ⊎ (token (λ v. some v) (codes "x-api-key") [] request_headers ≡ some t))
    × (digest t ≡ digest (codes "key"))
    × (to_bytes (codes "body") max_body_bytes ≡ some bytes)
    × (sent request (codes "body") ≡ sent request (outgoing no_json no_print true bytes).0)
forwarded_authorized_example =
    forwarded_authorized (λ v. some v) digest to_bytes no_json no_print (λ s. s) (λ b. b) upstream 1
      config (codes "key") request (sent request (codes "body")) digest-IsDigest refl handled_runs

passes_through_example : handled ≡ (
  some (sent request (codes "body")),
  record {
    status = status_code 200;
    headers = copy_headers [] [];
    body = whole (codes "<think>x");
  },
)
unfolding is_authorized strip_prefix parity is_event_stream
passes_through_example =
    passes_through (λ v. some v) digest to_bytes no_json no_print (λ s. s) (λ b. b) upstream config
      request answer (codes "body") (codes "<think>" ∷ (codes "x" ∷ [])) refl refl refl refl refl
      refl

-- An upstream that fails behind two chunks.
abbrev failing : List (Result ℕ Text)
failing = ok (codes "data: ") ∷ (ok (codes "x") ∷ (err 7 ∷ []))

sse_think_stream-push_chunk_example :
    (texts : List Text) × (o : Text) × (f : SseThinkFilter) × (sse_think_stream
        (sse_filter (λ t. none) no_print (λ b. b))
        failing
      ≡ some (good texts ++ failure failing))
    × (push_chunk (λ t. none) no_print (λ b. b) (concat (received failing)) fresh ≡ some (o, f))
    × (concat texts ≡ o ++ (finish_stream (λ t. none) no_print (λ b. b) f).0)
sse_think_stream-push_chunk_example =
    sse_think_stream-push_chunk (λ t. none) no_print (λ b. b) failing
