-- ===== src/Utils/Indexer.antt =====
-- The types of internal/utils/indexer_block.go that a block is converted to. A pointer is an option.
use algo_vnode.Prelude.{ℕ, Bool, List, Option, Text}

pub record EvalDelta : Type 0 where
  pub action : ℕ
  pub bytes : Option Text
  pub uint : Option ℕ

pub record EvalDeltaKeyValue : Type 0 where
  pub key : Text
  pub value : EvalDelta

pub record AccountStateDelta : Type 0 where
  pub address : Text
  pub delta : List EvalDeltaKeyValue

pub record AssetParams : Type 0 where
  pub clawback : Option Text
  pub creator : Text
  pub decimals : ℕ
  pub default_frozen : Option Bool
  pub freeze : Option Text
  pub manager : Option Text
  pub metadata_hash : Option (List ℕ)
  pub name : Option Text
  pub name_b64 : Option (List ℕ)
  pub reserve : Option Text
  pub total : ℕ
  pub unit_name : Option Text
  pub unit_name_b64 : Option (List ℕ)
  pub url : Option Text
  pub url_b64 : Option (List ℕ)

pub record BlockRewards : Type 0 where
  pub fee_sink : Text
  pub rewards_calculation_round : ℕ
  pub rewards_level : ℕ
  pub rewards_pool : Text
  pub rewards_rate : ℕ
  pub rewards_residue : ℕ

pub record BlockUpgradeState : Type 0 where
  pub current_protocol : Text
  pub next_protocol : Option Text
  pub next_protocol_approvals : Option ℕ
  pub next_protocol_switch_on : Option ℕ
  pub next_protocol_vote_before : Option ℕ

pub record BlockUpgradeVote : Type 0 where
  pub upgrade_approve : Option Bool
  pub upgrade_delay : Option ℕ
  pub upgrade_propose : Option Text

pub record IndexerStateSchema : Type 0 where
  pub num_byte_slice : ℕ
  pub num_uint : ℕ

pub record TransactionApplication : Type 0 where
  pub accounts : Option (List Text)
  pub application_args : Option (List Text)
  pub application_id : ℕ
  pub approval_program : Option (List ℕ)
  pub clear_state_program : Option (List ℕ)
  pub extra_program_pages : Option ℕ
  pub foreign_apps : Option (List ℕ)
  pub foreign_assets : Option (List ℕ)
  pub global_state_schema : Option IndexerStateSchema
  pub local_state_schema : Option IndexerStateSchema
  pub on_completion : Text

pub record TransactionAssetConfig : Type 0 where
  pub asset_id : Option ℕ
  pub params : Option AssetParams

pub record TransactionAssetFreeze : Type 0 where
  pub address : Text
  pub asset_id : ℕ
  pub new_freeze_status : Bool

pub record TransactionAssetTransfer : Type 0 where
  pub amount : ℕ
  pub asset_id : ℕ
  pub close_amount : Option ℕ
  pub close_to : Option Text
  pub receiver : Text
  pub sender : Option Text

pub record TransactionKeyreg : Type 0 where
  pub non_participation : Option Bool
  pub selection_participation_key : Option (List ℕ)
  pub state_proof_key : Option (List ℕ)
  pub vote_first_valid : Option ℕ
  pub vote_key_dilution : Option ℕ
  pub vote_last_valid : Option ℕ
  pub vote_participation_key : Option (List ℕ)

pub record TransactionPayment : Type 0 where
  pub amount : ℕ
  pub close_amount : Option ℕ
  pub close_remainder_to : Option Text
  pub receiver : Text

pub record TransactionSignatureMultisigSubsignature : Type 0 where
  pub public_key : Option (List ℕ)
  pub signature : Option (List ℕ)

pub record TransactionSignatureMultisig : Type 0 where
  pub subsignature : Option (List TransactionSignatureMultisigSubsignature)
  pub threshold : Option ℕ
  pub version : Option ℕ

pub record TransactionSignatureLogicsig : Type 0 where
  pub args : Option (List Text)
  pub logic : List ℕ
  pub multisig_signature : Option TransactionSignatureMultisig
  pub signature : Option (List ℕ)

pub record TransactionSignature : Type 0 where
  pub logicsig : Option TransactionSignatureLogicsig
  pub multisig : Option TransactionSignatureMultisig
  pub sig : Option (List ℕ)

-- `Transaction`, but for the inner transactions.
pub record TransactionFields : Type 0 where
  pub application_transaction : Option TransactionApplication
  pub asset_config_transaction : Option TransactionAssetConfig
  pub asset_freeze_transaction : Option TransactionAssetFreeze
  pub asset_transfer_transaction : Option TransactionAssetTransfer
  pub auth_addr : Option Text
  pub close_rewards : Option ℕ
  pub closing_amount : Option ℕ
  pub confirmed_round : Option ℕ
  pub created_application_index : Option ℕ
  pub created_asset_index : Option ℕ
  pub fee : ℕ
  pub first_valid : ℕ
  pub genesis_hash : Option (List ℕ)
  pub genesis_id : Option Text
  pub global_state_delta : Option (List EvalDeltaKeyValue)
  pub group : Option (List ℕ)
  pub id : Option Text
  pub intra_round_offset : Option ℕ
  pub keyreg_transaction : Option TransactionKeyreg
  pub last_valid : ℕ
  pub lease : Option (List ℕ)
  pub local_state_delta : Option (List AccountStateDelta)
  pub logs : Option (List Text)
  pub note : Option (List ℕ)
  pub payment_transaction : Option TransactionPayment
  pub receiver_rewards : Option ℕ
  pub rekey_to : Option Text
  pub round_time : Option ℕ
  pub sender : Text
  pub sender_rewards : Option ℕ
  pub signature : Option TransactionSignature
  pub tx_type : Text

-- `Transaction`: the fields, and the inner transactions, where none at all stand for a nil pointer.
mutual
  pub data Transaction : Type 0 where
    transaction : TransactionFields → Transactions → Transaction

  pub data Transactions : Type 0 where
    end : Transactions
    item : Transaction → Transactions → Transactions

abbrev pub main_of : Transaction → TransactionFields
main_of (transaction n ts) = n

abbrev pub inners_of : Transaction → Transactions
inners_of (transaction n ts) = ts

-- `Block`, and `BlockResponse`, which is the same.
pub record IndexerBlock : Type 0 where
  pub genesis_hash : List ℕ
  pub genesis_id : Text
  pub previous_block_hash : List ℕ
  pub rewards : Option BlockRewards
  pub round : ℕ
  pub seed : List ℕ
  pub timestamp : ℕ
  pub transactions : Option (List Transaction)
  pub transactions_root : List ℕ
  pub txn_counter : Option ℕ
  pub upgrade_state : Option BlockUpgradeState
  pub upgrade_vote : Option BlockUpgradeVote
