-- ===== src/Config.antt =====
-- internal/config/cfg.go: the configuration, its defaults, and what `LoadConfig` checks of it.
pub mod File
use algo_vnode.Prelude.{
  ℕ, Bool, true, false, List, [], ◌∷◌, Option, none, some, String, GoError, message, ◌≡◌, ◌≢◌, ◌↔◌,
  inl, inr, refl, arith, List-cases, subst,
}
use algo_vnode.Algod.State.{NodeCfg}

pub record HttpCfg : Type 0 where
  pub listen : String
  pub cert_dir : String
  pub autocerts : Bool
  pub enabled : Bool
  pub h2c : Bool

pub record HttpsCfg : Type 0 where
  pub listen : String
  pub enabled : Bool

-- The nodes are pointers, and one that is null in the file is `none`.
pub record AlgodCfg : Type 0 where
  pub nodes : List (Option NodeCfg)
  pub http : Option HttpCfg
  pub https : Option HttpsCfg
  pub cache : ℕ
  pub rate_limit : ℕ
  pub tokens : List String

pub record IdxCfg : Type 0 where
  pub http : Option HttpCfg
  pub https : Option HttpsCfg
  pub rate_limit : ℕ
  pub tokens : List String
  pub enabled : Bool

pub record LoggingCfg : Type 0 where
  pub level : String
  pub format : String

pub record AlgoVNodeConfig : Type 0 where
  pub logging : LoggingCfg
  pub algod : Option AlgodCfg
  pub indexer : Option IdxCfg

abbrev pub default_http : String → HttpCfg
default_http listen = record {
  listen = listen;
  cert_dir = "";
  autocerts = false;
  enabled = true;
  h2c = true;
}

abbrev pub default_config : AlgoVNodeConfig
default_config = record {
  logging = record { level = ""; format = "" };
  indexer = some (record {
    enabled = true;
    http = some (default_http ":18980");
    https = none;
    rate_limit = 0;
    tokens = [];
  });
  algod = some (record {
    http = some (default_http ":18090");
    https = none;
    nodes = [];
    cache = 1000;
    rate_limit = 0;
    tokens = [];
  });
}

-- The error of `LoadConfig`, where `err` is that of reading the file.
unfoldable pub config_error : Option AlgodCfg → Option GoError → Option GoError
config_error none err = some (message "missing algod config")
config_error (some a) err = elim a.nodes [
  | [] ↦ some (message "configure at least one node")
  | n ∷ ns ↦ err
]

-- `LoadConfig`; `load` is `LoadJSONCFromFile` on the configured file: what it makes of a
-- configuration, and its error.
unfoldable pub load_config :
    (AlgoVNodeConfig → AlgoVNodeConfig × Option GoError) → AlgoVNodeConfig × Option GoError
unfolding config_error
load_config load = let (cfg, err) = load default_config in (cfg, config_error cfg.algod err)

-- When there is no error.
pub config_error-eq-none_iff :
    (algod : Option AlgodCfg) (err : Option GoError)
    → (config_error algod err ≡ none)
      ↔ ((err ≡ none) × ((a : AlgodCfg) × (algod ≡ some a) × (a.nodes ≢ [])))
unfolding config_error
config_error-eq-none_iff none err = (λ p. ground arith, λ (_, (a, p, _)). ground arith)
config_error-eq-none_iff (some a) err = elim (List-cases a.nodes) [
  | inl f ↦ (
    λ p. ground arith,
    λ (_, (b, p, n)). let q : a ≡ b = ground arith in absurd (n (subst (λ c. c.nodes ≡ []) q f)),
  )
  | inr (n, ns, f) ↦ (λ p. (ground arith, (a, refl, λ q. ground arith)), λ (p, _). ground arith)
]

-- `LoadConfig` returns no error exactly if the file could be read and the configuration that comes
-- of it has an algod part with at least one node; and it returns that configuration in any case.
pub load_config_succeeds :
    (load : AlgoVNodeConfig → AlgoVNodeConfig × Option GoError)
    → ((load_config load).0 ≡ (load default_config).0)
      × (((load_config load).1 ≡ none) ↔ (
          ((load default_config).1 ≡ none)
          × ((a : AlgodCfg) × ((load default_config).0.algod ≡ some a) × (a.nodes ≢ []))))
unfolding load_config
load_config_succeeds load = (refl, config_error-eq-none_iff _ _)
