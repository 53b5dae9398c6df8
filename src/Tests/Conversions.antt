-- ===== src/Tests/Conversions.antt =====
-- The conversion of blocks at concrete inputs.
use algo_vnode.Prelude.{
  ℕ, ◌≡◌, ◌≢◌, refl, Bool-cases, inl, inr, subst, true, false, ◌&&◌, List, [], ◌∷◌, none, some, map,
  arith, message, wrapped, Result, ok, err, Text, codes, ◌==◌, if◌then◌else◌,
}
use algo_vnode.Utils.Blocks.{generate_block}
use algo_vnode.Utils.Blocks.Offsets
use algo_vnode.Utils.Blocks.Offsets.{offsets, total, decode_all}
use algo_vnode.Utils.Chain.{
  Chain, payment, application_call, no_op, Txn, Fields, SignedTxn, signed, inner, no_more,
  ChainHeader, ChainBlock, StateDelta, ValueDelta, MultisigSig, StateSchema,
}
use algo_vnode.Utils.Convert.{to_transaction, transaction_asset_id}
use algo_vnode.Utils.Convert.Created
use algo_vnode.Utils.Convert.Created.{index_created}
use algo_vnode.Utils.Convert.Positions
use algo_vnode.Utils.Convert.Positions.{InRange, InnersInRange, size, size_inners, offset_of}
use algo_vnode.Utils.Deltas.{state_delta_to_state_delta, local_state_delta}
use algo_vnode.Utils.Deltas.Converted
use algo_vnode.Utils.Deltas.Order.{swapped, DistinctKeys}
use algo_vnode.Utils.Indexer.{Transaction, IndexerBlock, main_of}
use algo_vnode.Utils.Parts.{RowData, is_asset_config, is_application_call}

-- Addresses are numbers here, and the zero address is 0.
abbrev chain : Chain
chain = record {
  Address = ℕ;
  is_zero_address = λ a. a == 0;
  address_string = λ a. a ∷ [];
  msig_blank = λ m. m.version == 0;
  lsig_blank = λ l. true;
  type_string = λ t. codes "pay";
  runes = λ s. s;
  is_print = λ c. true;
}

abbrev no_schema : StateSchema
no_schema = record { num_uint = 0; num_byte_slice = 0 }

abbrev no_msig : MultisigSig
no_msig = record { version = 0; threshold = 0; subsigs = [] }

abbrev call_txn : Txn chain
call_txn = record {
  tx_type = application_call;
  sender = 3;
  fee = 1000;
  first_valid = 1;
  last_valid = 9;
  note = [];
  genesis_id = codes "mainnet";
  genesis_hash = 7 ∷ [];
  group = [];
  lease = [];
  rekey_to = 0;
  vote_pk = [];
  selection_pk = [];
  state_proof_pk = [];
  vote_first = 0;
  vote_last = 0;
  vote_key_dilution = 0;
  nonparticipation = false;
  receiver = 0;
  amount = 0;
  close_remainder_to = 0;
  config_asset = 0;
  asset_params = record {
    total = 0;
    decimals = 0;
    default_frozen = false;
    unit_name = [];
    asset_name = [];
    url = [];
    metadata_hash = [];
    manager = 0;
    reserve = 0;
    freeze = 0;
    clawback = 0;
  };
  xfer_asset = 0;
  asset_amount = 0;
  asset_sender = 0;
  asset_receiver = 0;
  asset_close_to = 0;
  freeze_account = 0;
  freeze_asset = 0;
  asset_frozen = false;
  application_id = 0;
  on_completion = no_op;
  application_args = [];
  accounts = 5 ∷ [];
  foreign_apps = [];
  foreign_assets = [];
  local_state_schema = no_schema;
  global_state_schema = no_schema;
  approval_program = 1 ∷ [];
  clear_state_program = 1 ∷ [];
  extra_program_pages = 0;
}

abbrev counted : ValueDelta
counted = record { action = 2; bytes = []; uint = 1 }

abbrev named : ValueDelta
named = record { action = 1; bytes = codes "v"; uint = 0 }

-- A delta with two keys, met in either order.
abbrev delta : StateDelta
delta = (codes "count", counted) ∷ (codes "name", named) ∷ []

abbrev delta_again : StateDelta
delta_again = (codes "name", named) ∷ (codes "count", counted) ∷ []

c_is_not_n : codes "name" ≢ codes "count"
c_is_not_n e = ground arith

delta_distinct : DistinctKeys delta
delta_distinct = ((c_is_not_n, tt), (tt, tt))

state_delta_to_state_delta-Reordered_example :
    state_delta_to_state_delta delta ≡ state_delta_to_state_delta delta_again
state_delta_to_state_delta-Reordered_example =
    Converted.state_delta_to_state_delta-Reordered delta delta_again swapped delta_distinct

-- Deltas of the sender and of its only account.
abbrev locals : List (ℕ × StateDelta)
locals = (0, delta) ∷ (1, delta) ∷ []

abbrev locals_again : List (ℕ × StateDelta)
locals_again = (1, delta) ∷ (0, delta) ∷ []

one_is_not_zero : ◌≢◌ {A = ℕ} 1 0
one_is_not_zero e = ground arith

locals_distinct : DistinctKeys locals
locals_distinct = ((one_is_not_zero, tt), (tt, tt))

local_state_delta-Reordered_example :
    local_state_delta chain 3 (5 ∷ []) locals ≡ local_state_delta chain 3 (5 ∷ []) locals_again
local_state_delta-Reordered_example =
    Converted.local_state_delta-Reordered chain 3 (5 ∷ []) locals locals_again swapped
      locals_distinct (omega arith)

abbrev call : Fields chain
call = record {
  txn = call_txn;
  apply_data = record {
    closing_amount = 0;
    asset_closing_amount = 0;
    sender_rewards = 0;
    receiver_rewards = 0;
    close_rewards = 0;
    global_delta = delta;
    local_deltas = locals;
    logs = [];
    applied_config_asset = 0;
    applied_application_id = 9;
  };
  sig = 0 ∷ [];
  msig = no_msig;
  lsig = record { logic = []; sig = []; msig = no_msig; args = [] };
}

abbrev pays : Fields chain
pays = record call {
  txn = record call_txn { tx_type = payment };
  apply_data = record call.apply_data { local_deltas = []; applied_application_id = 0 };
}

-- A call with two payments inside.
abbrev nested : SignedTxn chain
nested = signed call (inner (signed pays no_more) (inner (signed pays no_more) no_more))

nested-InRange : InRange chain nested
unfolding InRange InnersInRange
nested-InRange = (omega arith, ((tt, tt), ((tt, tt), tt)))

abbrev third : RowData
third = record { round = 5; round_time = 0; intra = 2; asset_id = 9; asset_close_amount = 0 }

converted : (tx : Transaction) × (to_transaction chain nested 2 third ≡ some (tx, 5))
unfolding size size_inners
converted =
    let p = Positions.to_transaction_position chain nested 2 third nested-InRange (omega arith) in
    (p.0, p.1)

same_id : third.asset_id ≡ transaction_asset_id chain call 2 20 4
unfolding transaction_asset_id
same_id = refl

created_by_root_example :
    ((main_of converted.0).created_asset_index ≡ (
      if is_asset_config call.txn.tx_type && call.txn.config_asset == 0
      then some (index_created chain call.apply_data.applied_config_asset 20 4 2)
      else none))
    × ((main_of converted.0).created_application_index ≡ (
        if is_application_call call.txn.tx_type && call.txn.application_id == 0
        then some (index_created chain call.apply_data.applied_application_id 20 4 2)
        else none))
created_by_root_example =
    Created.created_by_root chain nested 2 20 4 third converted.0 5 (omega arith) (omega arith)
      same_id converted.1

-- The payset holds positions in a list of transactions that go-algorand decodes.
abbrev decode : ℕ → Result (SignedTxn chain)
decode n = if n == 0 then ok nested else err (message "unknown")

decode_sound : (n : ℕ) (t : SignedTxn chain) → decode n ≡ ok t → InRange chain t
decode_sound n t e = elim (Bool-cases (n == 0)) [
  | inl z ↦ let q : nested ≡ t = ground arith in subst (InRange chain) q nested-InRange
  | inr z ↦ absurd (ground arith)
]

abbrev closing : ℕ → ℕ
closing n = 0

abbrev tx_id : Txn chain → Text
tx_id t = codes "ID"

abbrev header : ChainHeader chain
header = record {
  round = 5;
  branch = [];
  seed = [];
  native_sha512_256_commitment = [];
  time_stamp = 0;
  genesis_id = codes "mainnet";
  genesis_hash = 7 ∷ [];
  fee_sink = 1;
  rewards_pool = 2;
  rewards_level = 0;
  rewards_rate = 0;
  rewards_residue = 0;
  rewards_recalculation_round = 0;
  current_protocol = codes "future";
  next_protocol = [];
  next_protocol_approvals = 0;
  next_protocol_vote_before = 0;
  next_protocol_switch_on = 0;
  upgrade_propose = [];
  upgrade_delay = 0;
  upgrade_approve = false;
  txn_counter = 9;
}

abbrev two_calls : ChainBlock chain ℕ
two_calls = record { header = header; payset = 0 ∷ 0 ∷ [] }

all_decoded : decode_all chain decode two_calls.payset ≡ ok (nested ∷ nested ∷ [])
unfolding decode_all
all_decoded = refl

generate_block-offsets_example :
    (b : IndexerBlock) × (txs : List Transaction) × (generate_block chain decode closing tx_id
        two_calls
      ≡ some (ok b))
    × (b.round ≡ 5)
    × (b.transactions ≡ some txs)
    × (map (offset_of chain) txs ≡ some 0 ∷ some 3 ∷ [])
unfolding offsets total size size_inners
generate_block-offsets_example =
    Offsets.generate_block-offsets chain decode closing tx_id decode_sound two_calls
      (nested ∷ nested ∷ []) all_decoded (omega arith)

abbrev one_unknown : ChainBlock chain ℕ
one_unknown = record two_calls { payset = 0 ∷ 1 ∷ [] }

not_decoded : decode_all chain decode one_unknown.payset ≡ err (message "unknown")
unfolding decode_all
not_decoded = refl

generate_block_fails_example :
    generate_block chain decode closing tx_id one_unknown
    ≡ some (err (wrapped "decode signed txn err" (message "unknown")))
generate_block_fails_example =
    Offsets.generate_block_fails chain decode closing tx_id decode_sound one_unknown
      (message "unknown") not_decoded
