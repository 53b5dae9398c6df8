-- ===== src/Tests/Ids.antt =====
-- The configuration and the ids of transactions at concrete inputs.
use algo_vnode.Prelude.{
  ℕ, List, err, true, false, [], ◌∷◌, Option, none, some, String, GoError, message, ok, ◌≡◌, ◌≢◌,
  refl, arith, str_eq_iff,
}
use algo_vnode.Algod.TxnId
use algo_vnode.Algod.TxnId.{
  Proto, BlockHeader, Txn, SignedTxnInBlock, is_zero_digest, restore_hash, decode_txn_id,
}
use algo_vnode.Config.File
use algo_vnode.Config.File.{load_config_file}
use algo_vnode.Config.{AlgoVNodeConfig, default_config, default_http}

abbrev future : Proto
future = record { support_signed_txn_in_block = true; require_genesis_hash = true }

abbrev consensus : String → Option Proto
consensus version = some future

abbrev tx_id : Txn ℕ → String
tx_id t = t.genesis_id

abbrev header : BlockHeader
header = record { current_protocol = "future"; genesis_id = "mainnet-v1.0"; genesis_hash = 7 ∷ [] }

abbrev stripped : SignedTxnInBlock ℕ
stripped = record {
  txn = record { genesis_id = ""; genesis_hash = 0 ∷ []; rest = 5 };
  has_genesis_id = true;
  has_genesis_hash = false;
}

decoded : (decode_txn_id consensus tx_id header stripped).1 ≡ ok "mainnet-v1.0"
unfolding decode_txn_id restore_hash is_zero_digest
decoded = refl

decode_txn_id_restores_example :
    let t = (decode_txn_id consensus tx_id header stripped).0.txn in
    ("mainnet-v1.0" ≡ tx_id t)
    × (t.genesis_id ≡ "mainnet-v1.0")
    × (t.genesis_hash ≡ 7 ∷ [])
    × (is_zero_digest (0 ∷ []) ≡ true)
    × (t.rest ≡ 5)
decode_txn_id_restores_example =
    TxnId.decode_txn_id_restores consensus tx_id future header stripped "mainnet-v1.0" refl refl
      decoded

has_name : header.genesis_id ≢ ""
has_name e = let p : false ≡ true = (str_eq_iff header.genesis_id "").1 e in ground arith

abbrev same_text : List ℕ → List ℕ
same_text text = text

abbrev refuses_all : List ℕ → AlgoVNodeConfig → AlgoVNodeConfig × Option GoError
refuses_all text cfg = (cfg, some (message "not valid"))

load_config_file_masks_example :
    let masked : Option GoError = some (message "configure at least one node") in
    (load_config_file same_text refuses_all (err (message "not valid")) ≡ (default_config, masked))
    × (refuses_all (same_text []) default_config ≡ (default_config, some (message "not valid"))
        → load_config_file same_text refuses_all (ok []) ≡ (default_config, masked))
load_config_file_masks_example =
    File.load_config_file_masks same_text refuses_all (message "not valid") [] default_config
      (record {
        http = some (default_http ":18090");
        https = none;
        nodes = [];
        cache = 1000;
        rate_limit = 0;
        tokens = [];
      })
      refl refl
