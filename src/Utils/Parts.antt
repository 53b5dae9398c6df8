-- ===== src/Utils/Parts.antt =====
-- The parts of a transaction of the indexer that its type decides, in
-- `signedTxnWithAdToTransaction` of internal/utils/convert_stxn.go.
use algo_vnode.Prelude.{ℕ, Bool, true, false, map, Option, none, some, if◌then◌else◌, Text, codes}
use algo_vnode.Utils.Base64.{base64_encode}
use algo_vnode.Utils.Chain.{
  Chain, TxType, payment, key_registration, asset_config, asset_transfer, asset_freeze,
  application_call, OnCompletion, no_op, opt_in, close_out, clear_state, update_application,
  delete_application, StateSchema, Fields,
}
use algo_vnode.Utils.Indexer.{
  AssetParams, IndexerStateSchema, TransactionApplication, TransactionAssetConfig,
  TransactionAssetFreeze, TransactionAssetTransfer, TransactionKeyreg, TransactionPayment,
}
use algo_vnode.Utils.Pointers.{
  uint64_ptr, uint64_ptr_or_nil, byte_slice_ptr, byte_slice_omit_zero_ptr, str_ptr, bool_ptr,
  printable_utf8_or_empty,
}

-- `rowData`.
pub record RowData : Type 0 where
  pub round : ℕ
  pub round_time : ℕ
  pub intra : ℕ
  pub asset_id : ℕ
  pub asset_close_amount : ℕ

abbrev pub is_asset_config : TxType → Bool
is_asset_config asset_config = true
is_asset_config _ = false

abbrev pub is_application_call : TxType → Bool
is_application_call application_call = true
is_application_call _ = false

-- `onCompletionToTransactionOnCompletion`.
unfoldable pub on_completion_to_transaction_on_completion : OnCompletion → Text
on_completion_to_transaction_on_completion no_op = codes "noop"
on_completion_to_transaction_on_completion opt_in = codes "optin"
on_completion_to_transaction_on_completion close_out = codes "closeout"
on_completion_to_transaction_on_completion clear_state = codes "clear"
on_completion_to_transaction_on_completion update_application = codes "update"
on_completion_to_transaction_on_completion delete_application = codes "delete"
on_completion_to_transaction_on_completion _ = codes "unknown"

abbrev pub schema_of : StateSchema → IndexerStateSchema
schema_of s = record { num_byte_slice = s.num_byte_slice; num_uint = s.num_uint }

module _ (ch : Chain) where
  -- `addrPtr`.
  unfoldable pub addr_ptr : ch.Address → Option Text
  addr_ptr a = if ch.is_zero_address a then none else some (ch.address_string a)

  abbrev pub printable_ptr : Text → Option Text
  printable_ptr s = str_ptr (printable_utf8_or_empty ch.runes ch.is_print s)

  -- The parts that the type of the transaction decides, each nil for another type.
  unfoldable pub payment_of : Fields ch → Option TransactionPayment
  unfolding addr_ptr
  payment_of f = elim f.txn.tx_type [
    | payment ↦ some (record {
      close_amount = uint64_ptr f.apply_data.closing_amount;
      close_remainder_to = addr_ptr f.txn.close_remainder_to;
      receiver = ch.address_string f.txn.receiver;
      amount = f.txn.amount;
    })
    | _ ↦ none
  ]

  unfoldable pub keyreg_of : Fields ch → Option TransactionKeyreg
  keyreg_of f = elim f.txn.tx_type [
    | key_registration ↦ some (record {
      non_participation = bool_ptr f.txn.nonparticipation;
      selection_participation_key = byte_slice_omit_zero_ptr f.txn.selection_pk;
      vote_first_valid = uint64_ptr f.txn.vote_first;
      vote_last_valid = uint64_ptr f.txn.vote_last;
      vote_key_dilution = uint64_ptr f.txn.vote_key_dilution;
      vote_participation_key = byte_slice_omit_zero_ptr f.txn.vote_pk;
      state_proof_key = byte_slice_omit_zero_ptr f.txn.state_proof_pk;
    })
    | _ ↦ none
  ]

  unfoldable pub asset_params_of : Fields ch → AssetParams
  unfolding addr_ptr
  asset_params_of f =
      let p = f.txn.asset_params in
      record {
        clawback = addr_ptr p.clawback;
        creator = ch.address_string f.txn.sender;
        decimals = p.decimals;
        default_frozen = bool_ptr p.default_frozen;
        freeze = addr_ptr p.freeze;
        manager = addr_ptr p.manager;
        metadata_hash = byte_slice_omit_zero_ptr p.metadata_hash;
        name = printable_ptr p.asset_name;
        name_b64 = byte_slice_ptr p.asset_name;
        reserve = addr_ptr p.reserve;
        total = p.total;
        unit_name = printable_ptr p.unit_name;
        unit_name_b64 = byte_slice_ptr p.unit_name;
        url = printable_ptr p.url;
        url_b64 = byte_slice_ptr p.url;
      }

  unfoldable pub asset_config_of : Fields ch → Option TransactionAssetConfig
  unfolding asset_params_of uint64_ptr
  asset_config_of f = elim f.txn.tx_type [
    | asset_config ↦
        some
          (record { asset_id = uint64_ptr f.txn.config_asset; params = some (asset_params_of f) })
    | _ ↦ none
  ]

  unfoldable pub asset_transfer_of : Fields ch → RowData → Option TransactionAssetTransfer
  unfolding addr_ptr
  asset_transfer_of f extra = elim f.txn.tx_type [
    | asset_transfer ↦ some (record {
      amount = f.txn.asset_amount;
      asset_id = f.txn.xfer_asset;
      close_to = addr_ptr f.txn.asset_close_to;
      receiver = ch.address_string f.txn.asset_receiver;
      sender = addr_ptr f.txn.asset_sender;
      close_amount = uint64_ptr extra.asset_close_amount;
    })
    | _ ↦ none
  ]

  unfoldable pub asset_freeze_of : Fields ch → Option TransactionAssetFreeze
  asset_freeze_of f = elim f.txn.tx_type [
    | asset_freeze ↦ some (record {
      address = ch.address_string f.txn.freeze_account;
      asset_id = f.txn.freeze_asset;
      new_freeze_status = f.txn.asset_frozen;
    })
    | _ ↦ none
  ]

  unfoldable pub application_of : Fields ch → Option TransactionApplication
  unfolding on_completion_to_transaction_on_completion
  application_of f = elim f.txn.tx_type [
    | application_call ↦ some (record {
      accounts = some (map ch.address_string f.txn.accounts);
      application_args = some (map base64_encode f.txn.application_args);
      application_id = f.txn.application_id;
      approval_program = byte_slice_omit_zero_ptr f.txn.approval_program;
      clear_state_program = byte_slice_omit_zero_ptr f.txn.clear_state_program;
      foreign_apps = some f.txn.foreign_apps;
      foreign_assets = some f.txn.foreign_assets;
      global_state_schema = some (schema_of f.txn.global_state_schema);
      local_state_schema = some (schema_of f.txn.local_state_schema);
      on_completion = on_completion_to_transaction_on_completion f.txn.on_completion;
      extra_program_pages = uint64_ptr_or_nil f.txn.extra_program_pages;
    })
    | _ ↦ none
  ]
