-- ===== src/BlockFetcher/Make.antt =====
-- `MakeBlockWrap` of internal/blockfetcher/sync.go. The certified block and its encodings are
-- go-algorand's, and the indexer's form of a block is that of `utils.GenerateBlock`.
use algo_vnode.Prelude.{ℕ, String, List, Option, none, some, Result, ok, err}
use algo_vnode.BlockFetcher.Wrap.{BlockWrap}

-- What the program calls on a block `C`.
pub record Codec (C : Type 0) : Type 1 where
  -- The type of `utils.BlockResponse`.
  pub Idx : Type 0
  pub round_of : C → ℕ
  -- `protocol.Decode`.
  pub decode : List ℕ → Result C
  -- `utils.EncodeJson` of a block, and of its indexer form.
  pub encode_json : C → Result String
  pub encode_idx : Idx → Result String
  -- `utils.GenerateBlock`, with `none` where it panics.
  pub generate_block : C → Option (Result Idx)

infixl 5 ◌>>=◌
abbrev pub ◌>>=◌ {ℓ κ} :
    {A : Type ℓ} {B : Type κ} → Option (Result A) → (A → Option (Result B)) → Option (Result B)
some (ok a) >>= f = f a
some (err e) >>= f = some (err e)
none >>= f = none

-- `MakeBlockWrap`, at the time `now`, with `none` where it panics.
unfoldable pub make_block_wrap :
    {C : Type 0} → Codec C → ℕ → String → C → List ℕ → Option (Result (BlockWrap C))
make_block_wrap cd now src block block_raw = do
  j_block ← some (cd.encode_json block)
  block_idx ← cd.generate_block block
  idx_j_block ← some (cd.encode_idx block_idx)
  some (
      ok (record {
        round = cd.round_of block;
        block_msg_pack = block_raw;
        block = some block;
        block_json_idx = idx_j_block;
        block_json_node = j_block;
        src = src;
        cached_at = now;
        error = none;
      }))
