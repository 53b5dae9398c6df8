-- ===== src/Tests/Servers.antt =====
-- The two servers at concrete inputs.
use algo_vnode.Prelude.{
  ◌↔◌, length, GoError, some_unique, subst, ℕ, ◌≡◌, ◌≢◌, ◌⊎◌, inl, inr, refl, ap, sym, ◌∙◌, Bool,
  true, false, ◌&&◌, ◌||◌, List, [], ◌∷◌, ◌++◌, Option, none, some, arith, Text, codes, map,
  bytes_eq, bytes_eq_iff, Bool-cases, ◌==◌, if◌then◌else◌,
}
use algo_vnode.Config.{
  AlgoVNodeConfig, default_config, load_config, config_error, AlgodCfg, IdxCfg, default_http,
}
use algo_vnode.Httpsrv.Auth.{handler, provided_token, seen_path, is_token}
use algo_vnode.Httpsrv.Auth.Tokens.{Holds}
use algo_vnode.Httpsrv.Routes.{
  block_target, register_algod_handlers, register_idx_handlers, run_guards, auth_request, param,
  default_target, block_idx_target, make_auth, Route, Incoming, param_names, names_of, Router,
  reaches, dispatch,
}
use algo_vnode.Algod.State.{NodeCfg, config}
use algo_vnode.Main.{Program, start, start_with, start_indexer, present_nodes, runs}
use algo_vnode.Main.Ready
use algo_vnode.Main.Starts
use algo_vnode.Httpsrv.Servers.{Server, auth_middlewares, new_algod_proxy, new_indexer_proxy}
use algo_vnode.Httpsrv.Servers.Reached
use algo_vnode.Httpsrv.Servers.Guarded.{offered}
use algo_vnode.BlockCache.Safety.{UnifiedIsValid}
use algo_vnode.Tests.Instances.{bounded, whole, no_memory}
use algo_vnode.Tests.Nodes.{cluster}
use mathlib.Core.List.{Memᴰ}
use mathlib.Core.List.Memᴰ.{head, tail}

-- A path that starts as the pattern does up to its first parameter.
abbrev starts : Text → Text → Bool
starts [] p = true
starts (c ∷ s) [] = c == b':' || c == b'*'
starts (c ∷ s) (d ∷ p) =
    let rest = starts s p in if c == b':' || c == b'*' then true else c == d && rest

abbrev none_of : List Text → Bool
none_of [] = true
none_of (_ ∷ _) = false

fits : Text → Text → Route → Bool
unfolding bytes_eq
fits m p r =
    bytes_eq r.verb m
    && (if none_of (param_names r.pattern) then bytes_eq p r.pattern else starts r.pattern p)

with_value : Text → List Text → List (Text × Text)
with_value p [] = []
with_value p (k ∷ ks) = (k, p) ∷ with_value p ks

first_fit : List Route → Text → Text → Option (Route × List (Text × Text))
unfolding fits with_value
first_fit [] m p = none
first_fit (r ∷ rs) m p =
    let rest = first_fit rs m p in
    if fits m p r then some (r, with_value p (param_names r.pattern)) else rest

-- What is found is registered, and fits.
first_fit-fits :
    (rs : List Route) (m p : Text) (r : Route) (ps : List (Text × Text))
    → first_fit rs m p ≡ some (r, ps)
    → Memᴰ r rs × (fits m p r ≡ true) × (ps ≡ with_value p (param_names r.pattern))
unfolding first_fit
first_fit-fits [] m p r ps e = absurd (ground arith)
first_fit-fits (x ∷ xs) m p r ps e = elim (Bool-cases (fits m p x)) [
  | inl f ↦
      let here : first_fit (x ∷ xs) m p ≡ some (x, with_value p (param_names x.pattern)) =
        rw (f, first_fit) refl in
      let q = some_unique here e in
      (
        head (sym (ap (λ z. z.0) q)),
        subst (λ z. fits m p z.0 ≡ true) q f,
        sym (ap (λ z. z.1) q) ∙ ap (λ z. with_value p (param_names z.0.pattern)) q,
      )
  | inr f ↦
      let there : first_fit (x ∷ xs) m p ≡ first_fit xs m p = rw (f, first_fit) refl in
      let (a, b, c) = first_fit-fits xs m p r ps (sym there ∙ e) in (tail a, b, c)
]

names_of-with_value : (p : Text) (ks : List Text) → names_of (with_value p ks) ≡ ks
unfolding with_value
names_of-with_value p [] = refl
names_of-with_value p (k ∷ ks) = ap (◌∷◌ k) (names_of-with_value p ks)

fits_verb : (m p : Text) (r : Route) → fits m p r ≡ true → r.verb ≡ m
unfolding fits
fits_verb m p r e = ground (arith, bytes_eq_iff r.verb m)

fits_exact :
    (m p : Text) (r : Route) → fits m p r ≡ true → param_names r.pattern ≡ [] → p ≡ r.pattern
unfolding fits
fits_exact m p r e n = ground (arith, bytes_eq_iff p r.pattern)

abbrev router : Router
router = record {
  find = first_fit;
  found_is_registered = λ rs m p r ps e. (first_fit-fits rs m p r ps e).0;
  found_verb = λ rs m p r ps e. fits_verb m p r (first_fit-fits rs m p r ps e).1;
  found_params =
      λ rs m p r ps e. ap names_of (first_fit-fits rs m p r ps e).2 ∙ names_of-with_value p _;
  found_exact = λ rs m p r ps e n. fits_exact m p r (first_fit-fits rs m p r ps e).1 n;
}

abbrev node_cfg : AlgodCfg
node_cfg = record {
  nodes = [];
  http = some (default_http ":18090");
  https = none;
  cache = 1000;
  rate_limit = 0;
  tokens = "secret" ∷ [];
}

abbrev idx_cfg : IdxCfg
idx_cfg = record {
  http = some (default_http ":18980");
  https = none;
  rate_limit = 10;
  tokens = "secret" ∷ [];
  enabled = true;
}

-- A request for block 5 with a token in its own header.
abbrev asking : Incoming
asking = record {
  verb = codes "GET";
  path = codes "/v2/blocks/5";
  header = λ name. if bytes_eq name (codes "Authorization") then [] else codes "secret";
}

node_server : (s : Server) × (new_algod_proxy node_cfg ≡ some s)
unfolding new_algod_proxy
node_server = (_, refl)

idx_server : (s : Server) × (new_indexer_proxy idx_cfg ≡ some s)
unfolding new_indexer_proxy
idx_server = (_, refl)

asked :
    (ps : List (Text × Text)) × (dispatch router node_server.0.routes asking
      ≡ reaches block_target (codes "/v2/blocks/5") ps)
unfolding dispatch first_fit node_server register_algod_handlers auth_middlewares run_guards
    auth_request param handler provided_token seen_path is_token bytes_eq make_auth fits with_value
asked = (_, refl)

asked_idx :
    (ps : List (Text × Text)) × (dispatch router idx_server.0.routes asking
      ≡ reaches block_idx_target (codes "/v2/blocks/5") ps)
unfolding dispatch first_fit idx_server register_idx_handlers auth_middlewares run_guards
    auth_request param handler provided_token seen_path is_token bytes_eq make_auth fits with_value
asked_idx = (_, refl)

algod_reaches_example :
    (((asking.verb ≡ codes "OPTIONS")
        ⊎ Holds
            (offered (make_auth "X-Algo-API-Token" ("secret" ∷ [])) asking)
            (map codes ("secret" ∷ [])))
      ⊎ ((asking.verb ≡ codes "GET")
          × (asking.path ≡ codes "/health")
          × (block_target ≡ default_target)))
    × (codes "/v2/blocks/5" ≡ asking.path)
algod_reaches_example =
    Reached.algod_reaches router node_cfg node_server.0 asking block_target (codes "/v2/blocks/5")
      asked.0 (λ e. ground arith) node_server.1 asked.1

indexer_reaches_example :
    (asking.verb ≡ codes "GET")
    × (block_idx_target ≡ block_idx_target)
    × Holds
        (offered (make_auth "X-Indexer-API-Token" ("secret" ∷ [])) asking)
        (map codes ("secret" ∷ []))
    × (codes "/v2/blocks/5" ≡ asking.path)
indexer_reaches_example =
    Reached.indexer_reaches router idx_cfg idx_server.0 asking block_idx_target
      (codes "/v2/blocks/5") asked_idx.0 (λ e. ground arith) idx_server.1 asked_idx.1

-- The file names one node; in the second case it has a null beside it.
abbrev pub read_file : AlgoVNodeConfig → AlgoVNodeConfig × Option GoError
read_file cfg = (
  record cfg { algod = some (record node_cfg { nodes = some (cluster.nodes 0).cfg ∷ [] }) },
  none,
)

abbrev read_null : AlgoVNodeConfig → AlgoVNodeConfig × Option GoError
read_null cfg = (
  record cfg { algod = some (record node_cfg { nodes = some (cluster.nodes 0).cfg ∷ none ∷ [] }) },
  none,
)

start_panics_example :
    let (cfg, unread) = read_null default_config in
    (start whole bounded 0 (cluster.nodes 0) no_memory read_null ≡ none) ↔ (
      (unread ≡ none)
      × ((a : AlgodCfg) × (cfg.algod ≡ some a)
          × (a.nodes ≢ [])
          × (Memᴰ none a.nodes
              ⊎ ((a.http ≡ none)
                  ⊎ ((i : IdxCfg) × (cfg.indexer ≡ some i)
                      × (i.enabled ≡ true)
                      × (i.http ≡ none))))))
start_panics_example = Starts.start_panics whole bounded 0 (cluster.nodes 0) no_memory read_null

up :
    (p : Program whole bounded ℕ) × (start whole bounded 0 (cluster.nodes 0) no_memory read_file
      ≡ some (runs p))
unfolding start start_with start_indexer load_config config_error new_algod_proxy new_indexer_proxy
    present_nodes
up = (_, refl)

start_ready_example :
    (a : AlgodCfg) × (cfgs : List NodeCfg) × ((read_file default_config).0.algod ≡ some a)
    × (a.nodes ≡ map some cfgs)
    × UnifiedIsValid bounded up.0.cluster.ucache
    × (up.0.cluster.latest_round ≡ 0)
    × (up.0.cluster.genesis ≡ "")
    × (up.0.cluster.node_count ≡ length cfgs)
    × ((before : List NodeCfg) (cfg : NodeCfg) (after : List NodeCfg)
        → cfgs ≡ before ++ cfg ∷ after
        → let n = up.0.cluster.nodes (length before) in
          (n.cfg ≡ cfg) × (n.genesis ≡ "") × (n.last_status ≡ none) × (n.state ≡ config))
start_ready_example =
    Ready.start_ready whole bounded 0 (cluster.nodes 0) no_memory read_file up.0 refl up.1
