-- ===== src/Httpsrv/Proxy/Request.antt =====
-- The request that `ProxyHTTP` of internal/algod/proxy.go sends to a node, and what it passes on of
-- the answer. Texts are lists of bytes. The making of a request and its way to the node are
-- parameters.
use algo_vnode.Prelude.{
  ℕ, zero, suc, ◌-◌, Bool, true, false, List, [], ◌∷◌, ◌++◌, Option, none, some, GoError, Result,
  ok, err, ltb, if◌then◌else◌, codes, bytes_eq, length,
}
use algo_vnode.Algod.State.{NodeCfg}
use algo_vnode.Httpsrv.Handlers.{Body, json_error, blob}
use algo_vnode.Httpsrv.Proxy.{proxy_status, proxy_timeout, proxy404, proxy_all}

-- The names of the headers.
pub data Header : Type 0 where
  x_real_ip x_forwarded_proto x_algo_api_token user_agent x_avn_node_id : Header

abbrev same_header : Header → Header → Bool
same_header x_real_ip x_real_ip = true
same_header x_forwarded_proto x_forwarded_proto = true
same_header x_algo_api_token x_algo_api_token = true
same_header user_agent user_agent = true
same_header x_avn_node_id x_avn_node_id = true
same_header _ _ = false

abbrev pub Headers : Type 0
Headers = List (Header × List ℕ)

-- `Header.Get`, which is empty for a header that is absent.
unfoldable pub get_header : Headers → Header → List ℕ
get_header [] h = []
get_header ((k, v) ∷ hs) h = let rest = get_header hs h in if same_header k h then v else rest

unfoldable pub remove_header : Headers → Header → Headers
remove_header [] h = []
remove_header ((k, v) ∷ hs) h =
    let rest = remove_header hs h in if same_header k h then rest else (k, v) ∷ rest

-- `Header.Set`.
unfoldable pub set_header : Headers → Header → List ℕ → Headers
unfolding remove_header
set_header hs h v = (h, v) ∷ remove_header hs h

-- What `ProxyHTTP` reads of the request of the client.
pub record Incoming : Type 0 where
  pub method : List ℕ
  pub request_uri : List ℕ
  pub real_ip : List ℕ
  pub scheme : List ℕ

-- The request to a node. A body that is nil is empty.
pub record Outgoing : Type 0 where
  pub method : List ℕ
  pub url : List ℕ
  pub headers : Headers
  pub body : List ℕ

-- `NODE_TAG` of internal/algod/ua.go.
abbrev pub node_tag : List ℕ
node_tag = codes "AlgoNodeVN/dev"

-- The headers that are set, on a request that has none.
unfoldable pub request_headers : NodeCfg → Incoming → Headers
unfolding get_header set_header
request_headers cfg c =
    let ip = set_header [] x_real_ip c.real_ip in
    let proto =
      if bytes_eq (get_header ip x_forwarded_proto) []
      then set_header ip x_forwarded_proto c.scheme
      else ip in
    let token =
      if ltb 0 (length (codes cfg.token))
      then set_header proto x_algo_api_token (codes cfg.token)
      else proto in
    set_header token user_agent node_tag

unfoldable pub new_request : NodeCfg → Incoming → Outgoing
unfolding request_headers
new_request cfg c = record {
  method = c.method;
  url = codes cfg.address ++ c.request_uri;
  headers = request_headers cfg c;
  body = [];
}

-- The first `n` of a list.
unfoldable pub take : {A : Type 0} → ℕ → List A → List A
take n [] = []
take zero (x ∷ xs) = []
take (suc n) (x ∷ xs) = x ∷ take n xs

-- The answer of a node; its headers are not read. Of its body, `io.Copy` passes on the first `copied`
-- bytes, up to the end of the body or an error, which is dropped.
pub record Answer : Type 0 where
  pub status : ℕ
  pub body : List ℕ
  pub copied : ℕ

-- What the client gets, with the headers that the program sets itself.
pub record Written : Type 0 where
  pub headers : Headers
  pub status : ℕ
  pub body : Body

-- What `jsonError` of `defaultHandler` writes.
abbrev pub no_upstream : Written
no_upstream = record {
  headers = [];
  status = 502;
  body = json_error "No synced upstream nodes available";
}

-- `ProxyHTTP` after the answer: it is written to the client, or not.
unfoldable pub pass_on : NodeCfg → Option (List ℕ) → Answer → Option Written
unfolding proxy_status set_header take
pass_on cfg statuses a =
    if proxy_status statuses a.status
    then some (record {
      headers = set_header [] x_avn_node_id (codes cfg.id);
      status = a.status;
      body = blob (take a.copied a.body);
    })
    else none

-- The handler returns when a node's answer has been written, and goes on else.
abbrev pub written_or : Option Written → Written → Written
written_or (some w) rest = w
written_or none rest = rest

-- The nodes' configurations and response times; whether a request to a URL can be made; and what
-- a node answers to a request within a timeout.
module _ (cfgs : ℕ → NodeCfg) (rtt : ℕ → ℕ) (unmade : List ℕ → Option GoError)
    (send : ℕ → Outgoing → ℕ → Result Answer) (c : Incoming) where
  -- `ProxyHTTP` of the node `n`: what it writes, if it does.
  unfoldable pub proxy_write : Option (List ℕ) → ℕ → Option Written
  unfolding new_request pass_on proxy_timeout
  proxy_write statuses n =
      let req = new_request (cfgs n) c in
      elim (unmade req.url) [
        | some e ↦ none
        | none ↦ elim (send n req (proxy_timeout statuses (rtt n))) [
          | err e ↦ none
          | ok a ↦ pass_on (cfgs n) statuses a
        ]
      ]

  -- The loop of `defaultHandler`, with what is written.
  unfoldable pub write_loop : ℕ → ℕ → List ℕ → Written
  unfolding proxy_write
  write_loop i len [] = no_upstream
  write_loop i len (n ∷ ns) =
      let rest = write_loop (suc i) len ns in
      written_or (proxy_write (if ltb i (len - 1) then proxy404 else proxy_all) n) rest

  unfoldable pub default_write : List ℕ → Written
  unfolding write_loop
  default_write nodes = write_loop 0 (length nodes) nodes
