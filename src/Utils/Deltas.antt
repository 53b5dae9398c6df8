-- ===== src/Utils/Deltas.antt =====
-- The state deltas of internal/utils/convert_stxn.go: stateDeltaToStateDelta, and the local deltas of
-- signedTxnWithAdToTransaction. Go comes upon the entries of a map in any order: a map is the list of
-- its entries in that order.
pub mod Order
pub mod Converted
pub mod Range
use algo_vnode.Prelude.{
  ◌>>=◌, ℕ, ◌-◌, Bool, true, false, List, [], ◌∷◌, Option, none, some, map, Text, ltb, ◌==◌,
  if◌then◌else◌, bytes_eq, bytes_lt, sort_stable,
}
use algo_vnode.Utils.Base64.{base64_encode}
use algo_vnode.Utils.Chain.{ValueDelta, StateDelta, Chain}
use algo_vnode.Utils.Indexer.{EvalDelta, EvalDeltaKeyValue, AccountStateDelta}
use algo_vnode.Utils.Pointers.{str_ptr, uint64_ptr}

-- `d[k]` of a map: the zero value where there is no entry.
unfoldable pub get_entry {ℓ κ} :
    {K : Type ℓ} {V : Type κ} → (K → K → Bool) → V → List (K × V) → K → V
get_entry same zero_value [] k = zero_value
get_entry same zero_value ((j, v) ∷ d) k =
    let rest = get_entry same zero_value d k in if same j k then v else rest

abbrev pub zero_delta : ValueDelta
zero_delta = record { action = 0; bytes = []; uint = 0 }

unfoldable pub key_value : Text → ValueDelta → EvalDeltaKeyValue
unfolding base64_encode str_ptr uint64_ptr
key_value k v = record {
  key = base64_encode k;
  value = record {
    action = v.action;
    bytes = str_ptr (base64_encode v.bytes);
    uint = uint64_ptr v.uint;
  };
}

-- The keys of a map, and the loop over some keys of a state delta.
abbrev pub keys_of {ℓ κ} : {K : Type ℓ} {V : Type κ} → List (K × V) → List K
keys_of [] = []
keys_of ((k, v) ∷ d) = k ∷ keys_of d

unfoldable pub key_values : StateDelta → List Text → List EvalDeltaKeyValue
unfolding key_value get_entry
key_values d [] = []
key_values d (k ∷ ks) = key_value k (get_entry bytes_eq zero_delta d k) ∷ key_values d ks

-- `stateDeltaToStateDelta`.
unfoldable pub state_delta_to_state_delta : StateDelta → Option (List EvalDeltaKeyValue)
unfolding key_values
state_delta_to_state_delta [] = none
state_delta_to_state_delta (e ∷ d) =
    some (key_values (e ∷ d) (sort_stable bytes_lt (keys_of (e ∷ d))))

module _ (ch : Chain) where
  -- `accounts[i]`, which panics out of range.
  unfoldable pub account_at : List ch.Address → ℕ → Option ch.Address
  account_at [] i = none
  account_at (a ∷ rest) i = if i == 0 then some a else account_at rest (i - 1)

  -- The address for a key: the sender for 0, and `Accounts[k-1]` for another.
  unfoldable pub delta_address : ch.Address → List ch.Address → ℕ → Option ch.Address
  unfolding account_at
  delta_address sender accounts k = if k == 0 then some sender else account_at accounts (k - 1)

  -- The loop that makes the tuples; `none` where it panics.
  unfoldable pub delta_tuples :
      ch.Address → List ch.Address → List ℕ → Option (List (ℕ × ch.Address))
  unfolding delta_address
  delta_tuples sender accounts [] = some []
  delta_tuples sender accounts (k ∷ ks) = delta_address sender accounts k >>= λ a.
      delta_tuples sender accounts ks >>= λ ts. some ((k, a) ∷ ts)

  abbrev pub by_key : ℕ × ch.Address → ℕ × ch.Address → Bool
  by_key s t = ltb s.0 t.0

  abbrev pub same_key : ℕ → ℕ → Bool
  same_key i j = i == j

  -- The end of a turn of the loop over the sorted tuples: an empty delta is left out.
  abbrev pub with_delta :
      ch.Address → Option (List EvalDeltaKeyValue) → List AccountStateDelta → List AccountStateDelta
  with_delta a none rest = rest
  with_delta a (some delta) rest = record { address = ch.address_string a; delta = delta } ∷ rest

  -- That loop.
  unfoldable pub account_deltas :
      List (ℕ × StateDelta) → List (ℕ × ch.Address) → List AccountStateDelta
  unfolding state_delta_to_state_delta get_entry
  account_deltas d [] = []
  account_deltas d (t ∷ ts) =
      with_delta t.1 (state_delta_to_state_delta (get_entry same_key [] d t.0))
        (account_deltas d ts)

  -- `localStateDelta`, of a transaction from `sender` with these accounts; `none` where the code
  -- panics.
  unfoldable pub local_state_delta :
      ch.Address
      → List ch.Address
      → List (ℕ × StateDelta)
      → Option (Option (List AccountStateDelta))
  unfolding delta_tuples account_deltas
  local_state_delta sender accounts [] = some none
  local_state_delta sender accounts (e ∷ d) =
      elim (delta_tuples sender accounts (keys_of (e ∷ d))) [
        | none ↦ none
        | some ts ↦ some (some (account_deltas (e ∷ d) (sort_stable by_key ts)))
      ]
