-- ===== src/Utils/Blocks.antt =====
-- `genTransactions` and `GenerateBlock` of internal/utils/convert_block.go: a block in the indexer's
-- form. Where the code panics the result is `none`.
pub mod Offsets
use algo_vnode.Prelude.{
  ◌>>=◌, ℕ, zero, suc, ◌+◌, Bool, true, false, ◌&&◌, List, [], ◌∷◌, map, Option, none, some,
  GoError, wrapped, ltb, ◌==◌, if◌then◌else◌, add64, sub64, length, Result, ok, err, Text, codes,
}
use algo_vnode.Utils.Base64.{base64_encode}
use algo_vnode.Utils.Chain.{
  Chain, TxType, payment, key_registration, asset_config, asset_transfer, asset_freeze,
  application_call, OnCompletion, no_op, opt_in, close_out, clear_state, update_application,
  delete_application, StateSchema, ChainAssetParams, Txn, Fields, SignedTxn, signed, InnerTxns,
  no_more, inner, fields_of, ChainHeader, ChainBlock,
}
use algo_vnode.Utils.Deltas.{state_delta_to_state_delta, local_state_delta}
use algo_vnode.Utils.Indexer.{
  AccountStateDelta, AssetParams, IndexerStateSchema, TransactionApplication,
  TransactionAssetConfig, TransactionAssetFreeze, TransactionAssetTransfer, TransactionKeyreg,
  TransactionPayment, TransactionSignature, TransactionFields, Transaction, transaction,
  Transactions, end, item, IndexerBlock,
}
use algo_vnode.Utils.Pointers.{
  uint64_ptr, uint64_ptr_or_nil, byte_slice_ptr, byte_slice_omit_zero_ptr, str_ptr, bool_ptr,
  printable_utf8_or_empty,
}
use algo_vnode.Utils.Signatures.{
  sig_to_transaction_sig, msig_to_transaction_msig, lsig_to_transaction_lsig,
}
use algo_vnode.Utils.Parts.{RowData}
use algo_vnode.Utils.Convert.{to_transaction, transaction_asset_id}

-- `append(results, tx)`, unless a later transaction has an error.
abbrev pub ok_cons : {A : Type 0} → A → Result (List A) → Result (List A)
ok_cons x (err e) = err e
ok_cons x (ok xs) = ok (x ∷ xs)

-- `tx.Id` and `tx.Signature` are set.
abbrev pub with_id_and_signature : Text → TransactionSignature → Transaction → Transaction
with_id_and_signature id sig (transaction n ts) =
    transaction (record n { id = some id; signature = some sig }) ts

module _ (ch : Chain) where
  -- The signature of a transaction of the payset.
  unfoldable pub signature_of : Fields ch → TransactionSignature
  signature_of f = record {
    logicsig = lsig_to_transaction_lsig ch f.lsig;
    multisig = msig_to_transaction_msig ch f.msig;
    sig = sig_to_transaction_sig f.sig;
  }

  -- `decode` is `BlockHeader.DecodeSignedTxn` of go-algorand, `closing` the closing amount of a
  -- transaction of the payset, and `tx_id` the text of a transaction's id.
  module _ {Stib : Type 0} (decode : Stib → Result (SignedTxn ch)) (closing : Stib → ℕ)
      (tx_id : Txn ch → Text) where
    -- The row data of a transaction of the payset.
    unfoldable pub root_extra : ChainBlock ch Stib → Stib → SignedTxn ch → ℕ → RowData
    unfolding transaction_asset_id
    root_extra block stib t intra = record {
      round = block.header.round;
      round_time = block.header.time_stamp;
      intra = intra;
      asset_id =
          transaction_asset_id ch (fields_of ch t) intra block.header.txn_counter
            (length block.payset);
      asset_close_amount = closing stib;
    }

    -- The loop of `genTransactions`, from the position `intra` on.
    unfoldable pub gen_transactions_loop :
        ChainBlock ch Stib → ℕ → List Stib → Option (Result (List Transaction))
    unfolding to_transaction root_extra signature_of
    gen_transactions_loop block intra [] = some (ok [])
    gen_transactions_loop block intra (stib ∷ stibs) = elim (decode stib) [
      | err e ↦ some (err (wrapped "decode signed txn err" e))
      | ok t ↦ to_transaction ch t intra (root_extra block stib t intra) >>= λ (tx, next).
          gen_transactions_loop block next stibs >>= λ rest. some (
            ok_cons
              (with_id_and_signature (tx_id (fields_of ch t).txn) (signature_of (fields_of ch t))
                tx)
              rest)
    ]

    -- `genTransactions`.
    unfoldable pub gen_transactions : ChainBlock ch Stib → Option (Result (List Transaction))
    unfolding gen_transactions_loop
    gen_transactions block = gen_transactions_loop block 0 block.payset

    -- `ret` of `GenerateBlock`, with its transactions.
    unfoldable pub block_response : ChainHeader ch → List Transaction → IndexerBlock
    block_response h txns = record {
      genesis_hash = h.genesis_hash;
      genesis_id = h.genesis_id;
      previous_block_hash = h.branch;
      rewards = some (record {
        fee_sink = ch.address_string h.fee_sink;
        rewards_calculation_round = h.rewards_recalculation_round;
        rewards_level = h.rewards_level;
        rewards_pool = ch.address_string h.rewards_pool;
        rewards_rate = h.rewards_rate;
        rewards_residue = h.rewards_residue;
      });
      round = h.round;
      seed = h.seed;
      timestamp = h.time_stamp;
      transactions = some txns;
      transactions_root = h.native_sha512_256_commitment;
      txn_counter = uint64_ptr h.txn_counter;
      upgrade_state = some (record {
        current_protocol = h.current_protocol;
        next_protocol = str_ptr h.next_protocol;
        next_protocol_approvals = uint64_ptr h.next_protocol_approvals;
        next_protocol_switch_on = uint64_ptr h.next_protocol_switch_on;
        next_protocol_vote_before = uint64_ptr h.next_protocol_vote_before;
      });
      upgrade_vote = some (record {
        upgrade_approve = bool_ptr h.upgrade_approve;
        upgrade_delay = uint64_ptr h.upgrade_delay;
        upgrade_propose = str_ptr h.upgrade_propose;
      });
    }

    -- `GenerateBlock`.
    unfoldable pub generate_block : ChainBlock ch Stib → Option (Result IndexerBlock)
    unfolding gen_transactions block_response
    generate_block block = elim (gen_transactions block) [
      | none ↦ none
      | some (err e) ↦ some (err e)
      | some (ok txns) ↦ some (ok (block_response block.header txns))
    ]
