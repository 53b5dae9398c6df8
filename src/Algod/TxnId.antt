-- ===== src/Algod/TxnId.antt =====
-- `DecodeTxnId` of internal/algod/stxn.go: the id of a transaction of a block, for which the
-- genesis that the block leaves out is put back. The transaction is the caller's, which the function
-- gets by pointer and writes to: it is returned with the result.
use algo_vnode.Prelude.{
  ℕ, Bool, true, false, not, ◌||◌, List, [], ◌∷◌, Option, none, some, String, message, Result, ok,
  err, ◌≡◌, ◌≢◌, arith, ◌==◌, if◌then◌else◌, str_eq, str_eq_iff,
}

-- What of `config.ConsensusParams` the function reads.
pub record Proto : Type 0 where
  pub support_signed_txn_in_block : Bool
  pub require_genesis_hash : Bool

-- `types.BlockHeader` and `types.SignedTxnInBlock`, as far as it reads them; `P` holds the rest of a
-- transaction. A digest is its bytes.
pub record BlockHeader : Type 0 where
  pub current_protocol : String
  pub genesis_id : String
  pub genesis_hash : List ℕ

pub record Txn (P : Type 0) : Type 0 where
  pub genesis_id : String
  pub genesis_hash : List ℕ
  pub rest : P

pub record SignedTxnInBlock (P : Type 0) : Type 0 where
  pub txn : Txn P
  pub has_genesis_id : Bool
  pub has_genesis_hash : Bool

-- A test for `types.Digest{}`.
unfoldable pub is_zero_digest : List ℕ → Bool
is_zero_digest [] = true
is_zero_digest (c ∷ h) = if c == 0 then is_zero_digest h else false

-- `consensus` is `config.Consensus`, and `tx_id` is `crypto.GetTxID`.
module _ {P : Type 0} (consensus : String → Option Proto) (tx_id : Txn P → String) where
  abbrev pub with_genesis_hash : BlockHeader → SignedTxnInBlock P → SignedTxnInBlock P
  with_genesis_hash bh stb = record stb { txn = record stb.txn { genesis_hash = bh.genesis_hash } }

  abbrev pub with_genesis_id : BlockHeader → SignedTxnInBlock P → SignedTxnInBlock P
  with_genesis_id bh stb =
      if stb.has_genesis_id
      then record stb { txn = record stb.txn { genesis_id = bh.genesis_id } }
      else stb

  abbrev pub with_id : SignedTxnInBlock P → SignedTxnInBlock P × Result String
  with_id stb = (stb, ok (tx_id stb.txn))

  -- The part on the genesis hash.
  unfoldable pub restore_hash :
      Proto → BlockHeader → SignedTxnInBlock P → SignedTxnInBlock P × Result String
  restore_hash proto bh stb =
      if not (is_zero_digest stb.txn.genesis_hash)
      then (stb, err (message "GenesisHash <%v> not empty"))
      else (if proto.require_genesis_hash
          then (if stb.has_genesis_hash
              then (
                stb,
                err (message "HasGenesisHash set to true but RequireGenesisHash obviates the flag"),
              )
              else with_id (with_genesis_hash bh stb))
          else (if stb.has_genesis_hash then with_id (with_genesis_hash bh stb) else with_id stb))

  -- `DecodeTxnId`.
  unfoldable pub decode_txn_id :
      BlockHeader → SignedTxnInBlock P → SignedTxnInBlock P × Result String
  unfolding restore_hash
  decode_txn_id bh stb = elim (consensus bh.current_protocol) [
    | none ↦ (stb, err (message "consensus protocol %s not found"))
    | some proto ↦
        if not proto.support_signed_txn_in_block
        then (stb, ok "")
        else (if not (str_eq stb.txn.genesis_id "")
            then (stb, err (message "GenesisID <%s> not empty"))
            else restore_hash proto bh (with_genesis_id bh stb))
  ]

  -- Under a protocol that supports it, an id that is returned is the one of the transaction whose
  -- genesis has been put back: the id of the header's genesis if its flag is set and none
  -- otherwise; and the header's hash if the protocol requires it or its flag is set, and the one it
  -- came with, which is zero, otherwise.
  pub decode_txn_id_restores :
      (proto : Proto) (bh : BlockHeader) (stb : SignedTxnInBlock P) (id : String)
      → consensus bh.current_protocol ≡ some proto
      → proto.support_signed_txn_in_block ≡ true
      → (decode_txn_id bh stb).1 ≡ ok id
      → let t = (decode_txn_id bh stb).0.txn in
        (id ≡ tx_id t)
        × (t.genesis_id ≡ (if stb.has_genesis_id then bh.genesis_id else ""))
        × (t.genesis_hash ≡ (
            if proto.require_genesis_hash || stb.has_genesis_hash
            then bh.genesis_hash
            else stb.txn.genesis_hash))
        × (is_zero_digest stb.txn.genesis_hash ≡ true)
        × (t.rest ≡ stb.txn.rest)
  unfolding decode_txn_id
  decode_txn_id_restores proto bh stb id c s e = ground (arith, str_eq_iff stb.txn.genesis_id "")

  -- The transaction keeps the genesis id that was put back: under such a protocol, after a call that
  -- succeeded for a transaction with the flag, in a chain that has an id, a second call for the same
  -- transaction fails.
  pub decode_txn_id_again :
      (proto : Proto) (bh : BlockHeader) (stb : SignedTxnInBlock P) (id : String)
      → consensus bh.current_protocol ≡ some proto
      → proto.support_signed_txn_in_block ≡ true
      → stb.has_genesis_id ≡ true
      → bh.genesis_id ≢ ""
      → (decode_txn_id bh stb).1 ≡ ok id
      → (decode_txn_id bh (decode_txn_id bh stb).0).1 ≡ err (message "GenesisID <%s> not empty")
  unfolding decode_txn_id
  decode_txn_id_again proto bh stb id c s f n e =
      let r = decode_txn_id_restores proto bh stb id c s e in
      ground (arith, r.1, str_eq_iff (decode_txn_id bh stb).0.txn.genesis_id "")
