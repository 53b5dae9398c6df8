-- ===== src/Utils/Convert.antt =====
-- `signedTxnWithAdToTransaction` and `transactionAssetID` of internal/utils/convert_stxn.go. Where
-- the code panics the result is `none`.
pub mod Positions
pub mod Created
use algo_vnode.Prelude.{
  ◌>>=◌, ℕ, zero, suc, ◌+◌, Bool, true, false, ◌&&◌, List, [], ◌∷◌, map, Option, none, some,
  GoError, ltb, ◌==◌, if◌then◌else◌, add64, sub64, length, Result, ok, err, Text, codes,
}
use algo_vnode.Utils.Base64.{base64_encode}
use algo_vnode.Utils.Chain.{
  Chain, TxType, payment, key_registration, asset_config, asset_transfer, asset_freeze,
  application_call, OnCompletion, no_op, opt_in, close_out, clear_state, update_application,
  delete_application, StateSchema, ChainAssetParams, Txn, Fields, SignedTxn, signed, InnerTxns,
  no_more, inner, fields_of, ChainHeader, ChainBlock,
}
use algo_vnode.Utils.Deltas.{state_delta_to_state_delta, local_state_delta}
use algo_vnode.Utils.Indexer.{
  AccountStateDelta, AssetParams, IndexerStateSchema, TransactionApplication,
  TransactionAssetConfig, TransactionAssetFreeze, TransactionAssetTransfer, TransactionKeyreg,
  TransactionPayment, TransactionSignature, TransactionFields, Transaction, transaction,
  Transactions, end, item, IndexerBlock,
}
use algo_vnode.Utils.Pointers.{
  uint64_ptr, uint64_ptr_or_nil, byte_slice_ptr, byte_slice_omit_zero_ptr, str_ptr, bool_ptr,
  printable_utf8_or_empty,
}
use algo_vnode.Utils.Signatures.{
  sig_to_transaction_sig, msig_to_transaction_msig, lsig_to_transaction_lsig,
}
use algo_vnode.Utils.Parts.{
  RowData, is_asset_config, is_application_call, on_completion_to_transaction_on_completion,
  addr_ptr, payment_of, keyreg_of, asset_config_of, asset_transfer_of, asset_freeze_of,
  application_of,
}

module _ (ch : Chain) where
  abbrev pub logs_of : List Text → Option (List Text)
  logs_of [] = none
  logs_of (l ∷ ls) = some (l ∷ ls)

  -- The test for a transaction that creates an asset, and the index.
  unfoldable pub created_asset : Fields ch → RowData → Option ℕ
  created_asset f extra =
      if is_asset_config f.txn.tx_type && f.txn.config_asset == 0
      then uint64_ptr extra.asset_id
      else none

  -- The test for one that creates an application, and the index.
  unfoldable pub created_application : Fields ch → RowData → Option ℕ
  created_application f extra =
      if is_application_call f.txn.tx_type && f.txn.application_id == 0 && ltb 0 extra.asset_id
      then uint64_ptr extra.asset_id
      else none

  -- `txn` at the end of `signedTxnWithAdToTransaction`, less the inner transactions.
  unfoldable pub transaction_fields :
      Fields ch → RowData → Option (List AccountStateDelta) → TransactionFields
  unfolding payment_of keyreg_of asset_config_of asset_transfer_of asset_freeze_of application_of
      created_asset created_application state_delta_to_state_delta
  transaction_fields f extra local_delta = record {
    application_transaction = application_of ch f;
    asset_config_transaction = asset_config_of ch f;
    asset_freeze_transaction = asset_freeze_of ch f;
    asset_transfer_transaction = asset_transfer_of ch f extra;
    payment_transaction = payment_of ch f;
    keyreg_transaction = keyreg_of ch f;
    auth_addr = none;
    closing_amount = uint64_ptr f.apply_data.closing_amount;
    confirmed_round = uint64_ptr extra.round;
    intra_round_offset = uint64_ptr extra.intra;
    round_time = uint64_ptr extra.round_time;
    fee = f.txn.fee;
    first_valid = f.txn.first_valid;
    genesis_hash = byte_slice_omit_zero_ptr f.txn.genesis_hash;
    genesis_id = str_ptr f.txn.genesis_id;
    group = byte_slice_omit_zero_ptr f.txn.group;
    last_valid = f.txn.last_valid;
    lease = byte_slice_omit_zero_ptr f.txn.lease;
    note = byte_slice_omit_zero_ptr f.txn.note;
    sender = ch.address_string f.txn.sender;
    receiver_rewards = uint64_ptr f.apply_data.receiver_rewards;
    close_rewards = uint64_ptr f.apply_data.close_rewards;
    sender_rewards = uint64_ptr f.apply_data.sender_rewards;
    tx_type = ch.type_string f.txn.tx_type;
    rekey_to = addr_ptr ch f.txn.rekey_to;
    global_state_delta = state_delta_to_state_delta f.apply_data.global_delta;
    local_state_delta = local_delta;
    logs = logs_of f.apply_data.logs;
    created_asset_index = created_asset f extra;
    created_application_index = created_application f extra;
    id = none;
    signature = none;
  }

  -- The row data of an inner transaction.
  unfoldable pub inner_extra : Fields ch → RowData → RowData
  inner_extra f extra = record extra {
    asset_id =
        if is_application_call f.txn.tx_type
        then f.apply_data.applied_application_id
        else (if is_asset_config f.txn.tx_type then f.apply_data.applied_config_asset else 0);
    asset_close_amount = f.apply_data.asset_closing_amount;
  }

  abbrev pub deltas_of : Fields ch → Option (Option (List AccountStateDelta))
  deltas_of f = local_state_delta ch f.txn.sender f.txn.accounts f.apply_data.local_deltas

  -- The transaction with its inner ones, if nothing has panicked.
  unfoldable pub with_inners :
      Fields ch
      → RowData
      → Option (Option (List AccountStateDelta))
      → Option (Transactions × ℕ)
      → Option (Transaction × ℕ)
  unfolding transaction_fields
  with_inners f extra (some deltas) (some (ts, next)) =
      some (transaction (transaction_fields f extra deltas) ts, next)
  with_inners f extra _ _ = none

  -- `signedTxnWithAdToTransaction`, with the position of the next transaction. Its error is always
  -- nil.
  unfoldable mutual
    unfolding with_inners inner_extra

    pub to_transaction : SignedTxn ch → ℕ → RowData → Option (Transaction × ℕ)
    to_transaction (signed f is) intra extra =
        with_inners f extra (deltas_of f) (to_inners is (add64 intra 1) extra)

    -- Its loop over the inner transactions.
    pub to_inners : InnerTxns ch → ℕ → RowData → Option (Transactions × ℕ)
    to_inners no_more intra extra = some (end, intra)
    to_inners (inner t is) intra extra =
        to_transaction t intra (inner_extra (fields_of ch t) extra) >>= λ r.
        to_inners is r.1 extra >>= λ rest. some (item r.0 rest.0, rest.1)

  -- `transactionAssetID`, for a block that is there.
  unfoldable pub transaction_asset_id : Fields ch → ℕ → ℕ → ℕ → ℕ
  transaction_asset_id f intra counter payset_length =
      let by_position = add64 (add64 (sub64 counter payset_length) intra) 1 in
      elim f.txn.tx_type [
        | application_call ↦
            if f.txn.application_id == 0
            then (if f.apply_data.applied_application_id == 0
                then by_position
                else f.apply_data.applied_application_id)
            else f.txn.application_id
        | asset_config ↦
            if f.txn.config_asset == 0
            then (if f.apply_data.applied_config_asset == 0
                then by_position
                else f.apply_data.applied_config_asset)
            else f.txn.config_asset
        | asset_transfer ↦ f.txn.xfer_asset
        | asset_freeze ↦ f.txn.freeze_asset
        | _ ↦ 0
      ]
