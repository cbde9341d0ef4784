-- ===== src/Proxy/Handler/Passing.antt =====
-- What passes the proxy unchanged.
use localx_llama.Prelude.{
  ℕ, ◌≡◌, refl, ap, ◌∙◌, Bool, true, false, Option, none, some, List, [], ◌∷◌, map, Option-cases,
  Result, ok, ◌>>=?◌, inl, inr,
}
use localx_llama.Text.{Text, codes, concat}
use localx_llama.Json.{Value, get_key}
use localx_llama.Proxy.Headers.{is_event_stream, copy_headers}
use localx_llama.Proxy.Handler.{
  ProxyConfig, ProxyError, Request, ForwardRequest, ForwardResponse, is_authorized, prepare,
  outgoing, proxy_handler, build_response, collect_stream, max_body_bytes, whole, status_code,
}
use localx_llama.Proxy.Handler.Laws.{sent}

-- A body that is not a chat body.
outgoing-plain :
    (parse : List ℕ → Option Value) (print : Value → List ℕ) (merge : Bool) (bytes : List ℕ)
    → (parse bytes >>=? λ v. get_key (codes "messages") v) ≡ none
    → outgoing parse print merge bytes ≡ (bytes, false)
unfolding outgoing
outgoing-plain parse print merge bytes h = elim (Option-cases (parse bytes)) [
  | inl e ↦ rw (e, outgoing) refl
  | inr (v, e) ↦
      let k : get_key (codes "messages") v ≡ none = rw e at h in
      rw (e, outgoing) (rw (k, outgoing) refl)
]

collect_stream-ok :
    (chunks : List (List ℕ)) → collect_stream (map (λ chunk. ok chunk) chunks) ≡ ok (concat chunks)
unfolding collect_stream
collect_stream-ok [] = refl
collect_stream-ok (chunk ∷ chunks) = rw (collect_stream-ok chunks) refl

module _ {B : Type 0} (to_str : List ℕ → Option Text) (digest : Text → List ℕ)
    (to_bytes : B → ℕ → Option (List ℕ)) (parse : List ℕ → Option Value) (print : Value → List ℕ)
    (stream_filter : List (Result ProxyError (List ℕ)) → List (Result ProxyError (List ℕ)))
    (strip_json : List ℕ → List ℕ)
    (forward : ForwardRequest → Result ProxyError ForwardResponse) where
  prepared :
      (config : ProxyConfig) (req : Request B) (bytes : List ℕ)
      → is_authorized to_str digest config.api_key req.headers ≡ true
      → to_bytes req.body max_body_bytes ≡ some bytes
      → outgoing parse print config.merge_system bytes ≡ (bytes, false)
      → prepare to_str digest to_bytes parse print config req ≡ ok (sent req bytes, false)
  unfolding prepare
  prepared config req bytes h k l = rw (h, prepare) (rw (k, prepare) (rw (l, prepare) refl))

  answered :
      (resp : ForwardResponse) (buffered : List ℕ)
      → is_event_stream to_str resp.headers ≡ false
      → collect_stream resp.body ≡ ok buffered
      → build_response to_str stream_filter strip_json resp false ≡ record {
        status = status_code resp.status;
        headers = copy_headers resp.headers [];
        body = whole buffered;
      }
  unfolding build_response
  answered resp buffered h k = rw (h, build_response) (rw (k, build_response) refl)

  handled :
      (config : ProxyConfig) (req : Request B) (fwd : ForwardRequest) (chat : Bool)
      → (resp : ForwardResponse)
      → prepare to_str digest to_bytes parse print config req ≡ ok (fwd, chat)
      → forward fwd ≡ ok resp
      → proxy_handler to_str digest to_bytes parse print stream_filter strip_json forward config req
        ≡ (some fwd, build_response to_str stream_filter strip_json resp chat)
  unfolding proxy_handler
  handled config req fwd chat resp h k = rw (h, proxy_handler) (rw (k, proxy_handler) refl)

  -- An authorized request whose body is read within the limit, and is not JSON with `messages`, is
  -- forwarded with its own bytes; and if the upstream answers, its answer is no event stream and no
  -- chunk of it is an error, the client is answered with the bytes of all its chunks, in their order
  -- and whatever they hold.
  pub passes_through :
      (config : ProxyConfig) (req : Request B) (resp : ForwardResponse) (bytes : List ℕ)
      → (chunks : List (List ℕ)) → is_authorized to_str digest config.api_key req.headers ≡ true
      → to_bytes req.body max_body_bytes ≡ some bytes
      → (parse bytes >>=? λ v. get_key (codes "messages") v) ≡ none
      → forward (sent req bytes) ≡ ok resp
      → is_event_stream to_str resp.headers ≡ false
      → resp.body ≡ map (λ chunk. ok chunk) chunks
      → proxy_handler to_str digest to_bytes parse print stream_filter strip_json forward config req
        ≡ (
          some (sent req bytes),
          record {
            status = status_code resp.status;
            headers = copy_headers resp.headers [];
            body = whole (concat chunks);
          },
        )
  passes_through config req resp bytes chunks allowed read plain gone unstreamed received =
      handled config req (sent req bytes) false resp
        (prepared config req bytes allowed read
          (outgoing-plain parse print config.merge_system bytes plain))
        gone
      ∙ ap (λ r. (some (sent req bytes), r))
          (answered resp (concat chunks) unstreamed
            (ap collect_stream received ∙ collect_stream-ok chunks))
