-- ===== src/Utils/Chain.antt =====
-- go-algorand's transactions and blocks, as far as internal/utils reads them, and what it calls of
-- that library. Integers are numbers, and byte arrays and slices lists of bytes.
use algo_vnode.Prelude.{ℕ, Bool, List, Text}

-- `protocol.TxType`, as far as the program tells types apart.
pub data TxType : Type 0 where
  payment key_registration asset_config asset_transfer asset_freeze application_call : TxType
  other_type : Text → TxType

-- `transactions.OnCompletion`.
pub data OnCompletion : Type 0 where
  no_op opt_in close_out clear_state update_application delete_application : OnCompletion
  other_completion : ℕ → OnCompletion

-- `basics.StateSchema`.
pub record StateSchema : Type 0 where
  pub num_uint : ℕ
  pub num_byte_slice : ℕ

-- `basics.ValueDelta`, and `basics.StateDelta`: a map from strings, as its entries in an order in
-- which the program may come upon them.
pub record ValueDelta : Type 0 where
  pub action : ℕ
  pub bytes : Text
  pub uint : ℕ

abbrev pub StateDelta : Type 0
StateDelta = List (Text × ValueDelta)

-- `crypto.MultisigSubsig`, `crypto.MultisigSig` and `transactions.LogicSig`.
pub record MultisigSubsig : Type 0 where
  pub key : List ℕ
  pub sig : List ℕ

pub record MultisigSig : Type 0 where
  pub version : ℕ
  pub threshold : ℕ
  pub subsigs : List MultisigSubsig

pub record LogicSig : Type 0 where
  pub logic : List ℕ
  pub sig : List ℕ
  pub msig : MultisigSig
  pub args : List (List ℕ)

-- What the program calls on addresses, signatures and types, and of Go's Unicode tables: `runes` are
-- the code points that Go decodes from a string, and `is_print` is `unicode.IsPrint`.
pub record Chain : Type 1 where
  pub Address : Type 0
  pub is_zero_address : Address → Bool
  pub address_string : Address → Text
  pub msig_blank : MultisigSig → Bool
  pub lsig_blank : LogicSig → Bool
  pub type_string : TxType → Text
  pub runes : Text → List ℕ
  pub is_print : ℕ → Bool

module _ (ch : Chain) where
  -- `basics.AssetParams`.
  pub record ChainAssetParams : Type 0 where
    pub total : ℕ
    pub decimals : ℕ
    pub default_frozen : Bool
    pub unit_name : Text
    pub asset_name : Text
    pub url : Text
    pub metadata_hash : List ℕ
    pub manager : ch.Address
    pub reserve : ch.Address
    pub freeze : ch.Address
    pub clawback : ch.Address

  -- `transactions.Transaction`: the header and the fields of each type, in this order.
  pub record Txn : Type 0 where
    pub tx_type : TxType
    pub sender : ch.Address
    pub fee : ℕ
    pub first_valid : ℕ
    pub last_valid : ℕ
    pub note : List ℕ
    pub genesis_id : Text
    pub genesis_hash : List ℕ
    pub group : List ℕ
    pub lease : List ℕ
    pub rekey_to : ch.Address
    pub vote_pk : List ℕ
    pub selection_pk : List ℕ
    pub state_proof_pk : List ℕ
    pub vote_first : ℕ
    pub vote_last : ℕ
    pub vote_key_dilution : ℕ
    pub nonparticipation : Bool
    pub receiver : ch.Address
    pub amount : ℕ
    pub close_remainder_to : ch.Address
    pub config_asset : ℕ
    pub asset_params : ChainAssetParams
    pub xfer_asset : ℕ
    pub asset_amount : ℕ
    pub asset_sender : ch.Address
    pub asset_receiver : ch.Address
    pub asset_close_to : ch.Address
    pub freeze_account : ch.Address
    pub freeze_asset : ℕ
    pub asset_frozen : Bool
    pub application_id : ℕ
    pub on_completion : OnCompletion
    pub application_args : List (List ℕ)
    pub accounts : List ch.Address
    pub foreign_apps : List ℕ
    pub foreign_assets : List ℕ
    pub local_state_schema : StateSchema
    pub global_state_schema : StateSchema
    pub approval_program : List ℕ
    pub clear_state_program : List ℕ
    pub extra_program_pages : ℕ

  -- `transactions.ApplyData`, with its `EvalDelta` but for the inner transactions; `local_deltas` is a
  -- map from positions in the accounts, as its entries.
  pub record ApplyData : Type 0 where
    pub closing_amount : ℕ
    pub asset_closing_amount : ℕ
    pub sender_rewards : ℕ
    pub receiver_rewards : ℕ
    pub close_rewards : ℕ
    pub global_delta : StateDelta
    pub local_deltas : List (ℕ × StateDelta)
    pub logs : List Text
    pub applied_config_asset : ℕ
    pub applied_application_id : ℕ

  -- `SignedTxnWithAD`, but for the inner transactions.
  pub record Fields : Type 0 where
    pub txn : Txn
    pub apply_data : ApplyData
    pub sig : List ℕ
    pub msig : MultisigSig
    pub lsig : LogicSig

  -- `SignedTxnWithAD`, with the inner transactions of its `EvalDelta`.
  mutual
    pub data SignedTxn : Type 0 where
      signed : Fields → InnerTxns → SignedTxn

    pub data InnerTxns : Type 0 where
      no_more : InnerTxns
      inner : SignedTxn → InnerTxns → InnerTxns

  abbrev pub fields_of : SignedTxn → Fields
  fields_of (signed f is) = f

  -- `bookkeeping.BlockHeader`.
  pub record ChainHeader : Type 0 where
    pub round : ℕ
    pub branch : List ℕ
    pub seed : List ℕ
    pub native_sha512_256_commitment : List ℕ
    pub time_stamp : ℕ
    pub genesis_id : Text
    pub genesis_hash : List ℕ
    pub fee_sink : ch.Address
    pub rewards_pool : ch.Address
    pub rewards_level : ℕ
    pub rewards_rate : ℕ
    pub rewards_residue : ℕ
    pub rewards_recalculation_round : ℕ
    pub current_protocol : Text
    pub next_protocol : Text
    pub next_protocol_approvals : ℕ
    pub next_protocol_vote_before : ℕ
    pub next_protocol_switch_on : ℕ
    pub upgrade_propose : Text
    pub upgrade_delay : ℕ
    pub upgrade_approve : Bool
    pub txn_counter : ℕ

  -- `bookkeeping.Block`, where `Stib` is `transactions.SignedTxnInBlock`.
  pub record ChainBlock (Stib : Type 0) : Type 0 where
    pub header : ChainHeader
    pub payset : List Stib
