-- ===== src/Config/File.antt =====
-- `LoadConfig` of internal/config/cfg.go with the reading of its file.
use algo_vnode.Prelude.{ℕ, ◌≡◌, refl, List, [], Option, some, GoError, message, Result, ok, err}
use algo_vnode.Config.{AlgodCfg, AlgoVNodeConfig, default_config, config_error, load_config}
use algo_vnode.Utils.Json.{load_jsonc}

module _ (to_json : List ℕ → List ℕ)
    (unmarshal : List ℕ → AlgoVNodeConfig → AlgoVNodeConfig × Option GoError) where
  -- `LoadConfig`, with what the file holds.
  unfoldable pub load_config_file : Result (List ℕ) → AlgoVNodeConfig × Option GoError
  unfolding load_config load_jsonc
  load_config_file file = load_config (load_jsonc to_json unmarshal file)

  -- If the file cannot be read, whatever the reason, `LoadConfig` returns the default configuration
  -- and says that a node is missing: the error of the file is lost. If it can be read, and what it
  -- holds is refused when the configuration has no node yet, the error of the refusal is lost too.
  pub load_config_file_masks :
      (e : GoError) (text : List ℕ) (cfg : AlgoVNodeConfig) (a : AlgodCfg)
      → cfg.algod ≡ some a
      → a.nodes ≡ []
      → let masked : Option GoError = some (message "configure at least one node") in
        (load_config_file (err e) ≡ (default_config, masked))
        × (unmarshal (to_json text) default_config ≡ (cfg, some e)
            → load_config_file (ok text) ≡ (cfg, masked))
  unfolding load_config_file load_config load_jsonc config_error
  load_config_file_masks e text cfg a p q = (refl, λ r. rw r (rw p (rw q refl)))
