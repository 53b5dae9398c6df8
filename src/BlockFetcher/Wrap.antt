-- ===== src/BlockFetcher/Wrap.antt =====
-- `BlockWrap` of internal/blockfetcher/sync.go. The block itself, `rpcs.EncodedBlockCert` of
-- go-algorand, is the type parameter `C`; times are numbers.
use algo_vnode.Prelude.{ℕ, String, List, [], Option, none, some, GoError}

pub record BlockWrap (C : Type 0) : Type 0 where
  pub round : ℕ
  pub block_msg_pack : List ℕ
  pub block : Option C
  pub block_json_idx : String
  pub block_json_node : String
  pub src : String
  pub cached_at : ℕ
  pub error : Option GoError

-- `&BlockWrap{Round: round, Error: err}`: the other fields are zero.
abbrev pub error_wrap : {C : Type 0} → ℕ → GoError → BlockWrap C
error_wrap round err = record {
  round = round;
  block_msg_pack = [];
  block = none;
  block_json_idx = "";
  block_json_node = "";
  src = "";
  cached_at = 0;
  error = some err;
}
