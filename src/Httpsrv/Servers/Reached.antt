-- ===== src/Httpsrv/Servers/Reached.antt =====
-- Which requests reach a handler of each of the two servers.
use algo_vnode.Prelude.{
  some_unique, String, ◌≡◌, ◌≢◌, ◌⊎◌, inl, inr, refl, sym, ◌∙◌, ap, subst, List, [], ◌∷◌, some,
  arith, Text, codes, map, All, Option-cases,
}
use algo_vnode.Config.{AlgodCfg, IdxCfg}
use algo_vnode.Httpsrv.Auth.Tokens.{Holds}
use algo_vnode.Httpsrv.Routes.{
  block_idx_target, Target, default_target, Guard, make_auth, register_algod_handlers,
  register_idx_handlers, Incoming, Router, reaches, dispatch,
}
use algo_vnode.Httpsrv.Servers.{
  server_of, middlewares_of, Server, auth_middlewares, new_algod_proxy, new_indexer_proxy,
}
use mathlib.Core.List.{Memᴰ}
use mathlib.Core.List.Memᴰ.{head, tail}
use algo_vnode.Httpsrv.Servers.Guarded.{GuardedBy, offered, Found, dispatch-Found, reaches_through}

algod_routes-GuardedBy : (g : Guard) → All (GuardedBy (g ∷ [])) (register_algod_handlers (g ∷ []))
unfolding register_algod_handlers
algod_routes-GuardedBy g = (
  ((λ e. ground arith, tt), inl refl),
  (
    ((λ e. ground arith, tt), inl refl),
    (
      ((λ e. ground arith, tt), inl refl),
      (
        ((λ e. ground arith, tt), inl refl),
        (
          ((λ e. ground arith, tt), inl refl),
          (
            ((λ e. ground arith, tt), inl refl),
            (((λ e. ground arith, tt), inl refl), ((tt, inr (refl, refl, refl, refl)), tt)),
          ),
        ),
      ),
    ),
  ),
)

idx_routes-GuardedBy : (g : Guard) → All (GuardedBy (g ∷ [])) (register_idx_handlers (g ∷ []))
unfolding register_idx_handlers
idx_routes-GuardedBy g = (((λ e. ground arith, tt), inl refl), tt)

-- What the routes of a server are behind, where there are tokens.
auth_middlewares-some :
    (header : String) (tokens : List String)
    → tokens ≢ []
    → auth_middlewares header tokens ≡ make_auth header tokens ∷ []
unfolding auth_middlewares
auth_middlewares-some header [] n = absurd (n refl)
auth_middlewares-some header (t ∷ ts) n = refl

algod_routes :
    (cfg : AlgodCfg) (s : Server)
    → cfg.tokens ≢ []
    → new_algod_proxy cfg ≡ some s
    → s.routes ≡ register_algod_handlers (make_auth "X-Algo-API-Token" cfg.tokens ∷ [])
unfolding new_algod_proxy
algod_routes cfg s n e = elim (Option-cases cfg.http) [
  | inl q ↦ absurd (ground arith)
  | inr (http, q) ↦
      let made : new_algod_proxy cfg
          ≡ some (
              server_of (middlewares_of "Algod API" cfg.rate_limit)
                (register_algod_handlers (auth_middlewares "X-Algo-API-Token" cfg.tokens)) http) =
        rw (q, new_algod_proxy) refl in
      ap (λ x. x.routes) (some_unique e made)
      ∙ ap register_algod_handlers (auth_middlewares-some "X-Algo-API-Token" cfg.tokens n)
]

-- With tokens configured for the node's API, a request that the server passes to a handler is an
-- OPTIONS request, or offers one of the tokens in the header X-Algo-API-Token or as a bearer token,
-- or is `GET /health`; and the handler sees its path unchanged.
pub algod_reaches :
    (router : Router) (cfg : AlgodCfg) (s : Server) (r : Incoming) (t : Target) (p : Text)
    (ps : List (Text × Text))
    → cfg.tokens ≢ []
    → new_algod_proxy cfg ≡ some s
    → dispatch router s.routes r ≡ reaches t p ps
    → (((r.verb ≡ codes "OPTIONS")
          ⊎ Holds (offered (make_auth "X-Algo-API-Token" cfg.tokens) r) (map codes cfg.tokens))
        ⊎ ((r.verb ≡ codes "GET") × (r.path ≡ codes "/health") × (t ≡ default_target)))
      × (p ≡ r.path)
unfolding make_auth
algod_reaches router cfg s r t p ps n e h =
    let g = make_auth "X-Algo-API-Token" cfg.tokens in
    reaches_through router g (register_algod_handlers (g ∷ [])) r t p ps (algod_routes-GuardedBy g)
      (subst (λ rs. dispatch router rs r ≡ reaches t p ps) (algod_routes cfg s n e) h)

idx_routes :
    (cfg : IdxCfg) (s : Server)
    → cfg.tokens ≢ []
    → new_indexer_proxy cfg ≡ some s
    → s.routes ≡ register_idx_handlers (make_auth "X-Indexer-API-Token" cfg.tokens ∷ [])
unfolding new_indexer_proxy
idx_routes cfg s n e = elim (Option-cases cfg.http) [
  | inl q ↦ absurd (ground arith)
  | inr (http, q) ↦
      let made : new_indexer_proxy cfg
          ≡ some (
              server_of (middlewares_of "Indexer API" cfg.rate_limit)
                (register_idx_handlers (auth_middlewares "X-Indexer-API-Token" cfg.tokens)) http) =
        rw (q, new_indexer_proxy) refl in
      ap (λ x. x.routes) (some_unique e made)
      ∙ ap register_idx_handlers (auth_middlewares-some "X-Indexer-API-Token" cfg.tokens n)
]

get_options : ¬ (codes "GET" ≡ codes "OPTIONS")
get_options e = ground arith

idx_default : ¬ (block_idx_target ≡ default_target)
idx_default e = ground arith

-- The one route of the indexer.
idx-Found :
    (m : List Guard) (r : Incoming) (t : Target) (p : Text) (ps : List (Text × Text))
    → Found (register_idx_handlers m) r t p ps
    → (r.verb ≡ codes "GET") × (t ≡ block_idx_target)
unfolding register_idx_handlers
idx-Found m r t p ps f = one f.registered
  where
    one : Memᴰ f.route (register_idx_handlers m) → (r.verb ≡ codes "GET") × (t ≡ block_idx_target)
    one (head e) = (sym f.same_verb ∙ ap (λ x. x.verb) e, f.same_target ∙ ap (λ x. x.target) e)
    one (tail k) = elim k [ ]

-- With tokens configured for the indexer's API, a request that the server passes to a handler is a
-- GET request, is passed to the one for blocks, and offers one of the tokens in the header
-- X-Indexer-API-Token or as a bearer token; and the handler sees its path unchanged.
pub indexer_reaches :
    (router : Router) (cfg : IdxCfg) (s : Server) (r : Incoming) (t : Target) (p : Text)
    (ps : List (Text × Text))
    → cfg.tokens ≢ []
    → new_indexer_proxy cfg ≡ some s
    → dispatch router s.routes r ≡ reaches t p ps
    → (r.verb ≡ codes "GET")
      × (t ≡ block_idx_target)
      × Holds (offered (make_auth "X-Indexer-API-Token" cfg.tokens) r) (map codes cfg.tokens)
      × (p ≡ r.path)
unfolding make_auth
indexer_reaches router cfg s r t p ps n e h =
    let g = make_auth "X-Indexer-API-Token" cfg.tokens in
    let rs = register_idx_handlers (g ∷ []) in
    let h' = subst (λ x. dispatch router x r ≡ reaches t p ps) (idx_routes cfg s n e) h in
    let (way, same) = reaches_through router g rs r t p ps (idx_routes-GuardedBy g) h' in
    let (gets, blocks) = idx-Found (g ∷ []) r t p ps (dispatch-Found router rs r t p ps h') in
    elim way [
      | inl (inl o) ↦ absurd (get_options (sym gets ∙ o))
      | inl (inr token) ↦ (gets, blocks, token, same)
      | inr (_, _, d) ↦ absurd (idx_default (sym blocks ∙ d))
    ]
