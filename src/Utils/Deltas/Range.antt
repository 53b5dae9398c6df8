-- ===== src/Utils/Deltas/Range.antt =====
-- Local deltas of the sender and its accounts are converted without a panic.
use algo_vnode.Prelude.{
  sort_stable, ℕ, ◌-◌, ◌<◌, ◌≤◌, ◌≡◌, refl, List, [], ◌∷◌, Option, none, some, arith, ◌==◌, All,
  length, Bool-cases, inl, inr,
}
use algo_vnode.Utils.Chain.{Chain, StateDelta}
use algo_vnode.Utils.Deltas.{
  keys_of, account_at, delta_address, delta_tuples, local_state_delta, account_deltas, by_key,
}
use algo_vnode.Utils.Indexer.{AccountStateDelta}

module _ (ch : Chain) where
  account_at_returns :
      (accounts : List ch.Address) (i : ℕ)
      → i < length accounts
      → (a : ch.Address) × (account_at ch accounts i ≡ some a)
  unfolding account_at
  account_at_returns [] i h = absurd (omega arith)
  account_at_returns (a ∷ rest) i h = elim (Bool-cases (i == 0)) [
    | inl e ↦ (a, ground arith)
    | inr e ↦ let (b, p) = account_at_returns rest (i - 1) (ground arith) in (b, ground (arith, p))
  ]

  delta_address_returns :
      (sender : ch.Address) (accounts : List ch.Address) (k : ℕ)
      → k ≤ length accounts
      → (a : ch.Address) × (delta_address ch sender accounts k ≡ some a)
  unfolding delta_address
  delta_address_returns sender accounts k h = elim (Bool-cases (k == 0)) [
    | inl e ↦ (sender, ground arith)
    | inr e ↦
        let (b, p) = account_at_returns accounts (k - 1) (ground arith) in (b, ground (arith, p))
  ]

  pub delta_tuples_returns :
      (sender : ch.Address) (accounts : List ch.Address) (ks : List ℕ)
      → All (λ k. k ≤ length accounts) ks
      → (ts : List (ℕ × ch.Address)) × (delta_tuples ch sender accounts ks ≡ some ts)
  unfolding delta_tuples
  delta_tuples_returns sender accounts [] h = ([], refl)
  delta_tuples_returns sender accounts (k ∷ ks) h =
      let (a, p) = delta_address_returns sender accounts k h.0 in
      let (ts, q) = delta_tuples_returns sender accounts ks h.1 in
      ((k, a) ∷ ts, rw (p, q, delta_tuples) refl)

  pub local_state_delta_returns :
      (sender : ch.Address) (accounts : List ch.Address) (d : List (ℕ × StateDelta))
      → All (λ k. k ≤ length accounts) (keys_of d)
      → (r : Option (List AccountStateDelta)) × (local_state_delta ch sender accounts d ≡ some r)
  unfolding local_state_delta
  local_state_delta_returns sender accounts [] h = (none, refl)
  local_state_delta_returns sender accounts (e ∷ d) h =
      let (ts, p) = delta_tuples_returns sender accounts (keys_of (e ∷ d)) h in
      (
        some (account_deltas ch (e ∷ d) (sort_stable (by_key ch) ts)),
        rw (p, local_state_delta) refl,
      )
