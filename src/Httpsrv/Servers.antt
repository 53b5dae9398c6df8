-- ===== src/Httpsrv/Servers.antt =====
-- `NewAlgodProxy` and `NewIndexerProxy` of internal/httpsrv/algod.go and indexer.go. What listens and
-- serves is `net/http` and `echo`; a server here is what they are given.
pub mod Guarded
pub mod Reached
use algo_vnode.Prelude.{
  ℕ, ◌*◌, Bool, List, [], ◌∷◌, ◌++◌, Option, none, some, String, ltb, if◌then◌else◌,
}
use algo_vnode.Config.{AlgodCfg, IdxCfg, HttpCfg}
use algo_vnode.Httpsrv.Routes.{
  Guard, make_auth, Route, register_algod_handlers, register_idx_handlers,
}

-- The middlewares of `e.Use`, in order.
pub data Middleware : Type 0 where
  logger : String → Middleware
  recover cors gzip : Middleware
  rate_limiter : ℕ → Middleware

-- The limits of `http2.Server`, times in nanoseconds.
pub record Http2Server : Type 0 where
  pub max_concurrent_streams : ℕ
  pub max_read_frame_size : ℕ
  pub idle_timeout : ℕ

abbrev pub http2_server : Http2Server
http2_server = record {
  max_concurrent_streams = 250;
  max_read_frame_size = 1_048_576;
  idle_timeout = 10 * 1_000_000_000;
}

-- What `http.Server` is given; `h2c` is there if the handler also takes HTTP/2 without TLS.
pub record Server : Type 0 where
  pub middlewares : List Middleware
  pub routes : List Route
  pub addr : String
  pub read_timeout : ℕ
  pub max_header_bytes : ℕ
  pub h2c : Option Http2Server

abbrev pub middlewares_of : String → ℕ → List Middleware
middlewares_of name rate_limit =
    (logger name ∷ recover ∷ cors ∷ gzip ∷ [])
    ++ (if ltb 0 rate_limit then rate_limiter rate_limit ∷ [] else [])

-- The guards of a server: one, if there are tokens.
unfoldable pub auth_middlewares : String → List String → List Guard
unfolding make_auth
auth_middlewares header [] = []
auth_middlewares header (t ∷ ts) = make_auth header (t ∷ ts) ∷ []

abbrev pub server_of : List Middleware → List Route → HttpCfg → Server
server_of middlewares routes http = record {
  middlewares = middlewares;
  routes = routes;
  addr = http.listen;
  read_timeout = 15 * 1_000_000_000;
  max_header_bytes = 1_048_576;
  h2c = if http.h2c then some http2_server else none;
}

-- `NewAlgodProxy`; `none` where it reads the address of an HTTP part that is nil, which panics.
unfoldable pub new_algod_proxy : AlgodCfg → Option Server
unfolding auth_middlewares register_algod_handlers
new_algod_proxy cfg = elim cfg.http [
  | none ↦ none
  | some http ↦ some (
      server_of (middlewares_of "Algod API" cfg.rate_limit)
        (register_algod_handlers (auth_middlewares "X-Algo-API-Token" cfg.tokens)) http)
]

-- `NewIndexerProxy`, which panics in the same way.
unfoldable pub new_indexer_proxy : IdxCfg → Option Server
unfolding auth_middlewares register_idx_handlers
new_indexer_proxy cfg = elim cfg.http [
  | none ↦ none
  | some http ↦ some (
      server_of (middlewares_of "Indexer API" cfg.rate_limit)
        (register_idx_handlers (auth_middlewares "X-Indexer-API-Token" cfg.tokens)) http)
]
