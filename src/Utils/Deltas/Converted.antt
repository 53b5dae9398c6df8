-- ===== src/Utils/Deltas/Converted.antt =====
-- The converted deltas do not depend on the order in which Go meets the entries of a map.
use algo_vnode.Prelude.{
  ℕ, ◌≤◌, ◌≡◌, refl, sym, ◌∙◌, ap, Bool, true, false, Bool-cases, Option-cases, List, [], ◌∷◌, none,
  some, Text, arith, ltb, ==_iff, if◌then◌else◌, bytes_eq, bytes_lt, bytes_eq_iff, insert_stable,
  sort_stable, All, inl, inr, length,
}
use algo_vnode.Utils.Chain.{StateDelta, Chain}
use algo_vnode.Utils.Deltas.{
  get_entry, zero_delta, keys_of, key_values, state_delta_to_state_delta, delta_address,
  delta_tuples, by_key, same_key, account_deltas, local_state_delta,
}
use algo_vnode.Utils.Deltas.Order.{
  Reordered, IsTotal, sort_stable-Reordered, bytes_lt-IsTotal, DistinctKeys, All-Reordered,
  keys_of-Reordered, get_entry-Reordered, same, kept, swapped, reordered,
}
use algo_vnode.Utils.Deltas.Range.{delta_tuples_returns}

key_values-eq :
    (d d' : StateDelta) (ks : List Text)
    → ((k : Text) → get_entry bytes_eq zero_delta d k ≡ get_entry bytes_eq zero_delta d' k)
    → key_values d ks ≡ key_values d' ks
unfolding key_values
key_values-eq d d' [] h = refl
key_values-eq d d' (k ∷ ks) h = rw (h k, key_values-eq d d' ks h) refl

module _ {A : Type 0} where
  abbrev is_nil : List A → Bool
  is_nil [] = true
  is_nil (x ∷ xs) = false

  is_nil-Reordered : {xs ys : List A} → Reordered xs ys → is_nil xs ≡ is_nil ys
  is_nil-Reordered same = refl
  is_nil-Reordered (kept r) = refl
  is_nil-Reordered swapped = refl
  is_nil-Reordered (reordered r s) = is_nil-Reordered r ∙ is_nil-Reordered s

by_nil :
    (d : StateDelta)
    → state_delta_to_state_delta d
      ≡ (if is_nil d then none else some (key_values d (sort_stable bytes_lt (keys_of d))))
unfolding state_delta_to_state_delta
by_nil [] = refl
by_nil (e ∷ d) = refl

-- `stateDeltaToStateDelta` of a map gives the same in whatever order its entries are met.
pub state_delta_to_state_delta-Reordered :
    (d d' : StateDelta)
    → Reordered d d'
    → DistinctKeys d
    → state_delta_to_state_delta d ≡ state_delta_to_state_delta d'
state_delta_to_state_delta-Reordered d d' r h =
    let entries =
      key_values-eq d d' (sort_stable bytes_lt (keys_of d))
        (λ k. get_entry-Reordered bytes_eq bytes_eq_iff zero_delta k r h) in
    let keys = sort_stable-Reordered bytes_lt bytes_lt-IsTotal (keys_of-Reordered r) in
    by_nil d ∙ rw (is_nil-Reordered r, entries, keys) refl ∙ sym (by_nil d')

ltb-IsTotal : IsTotal ltb
ltb-IsTotal = record {
  asym = λ x y h. ground arith;
  trans = λ x y z h k. ground arith;
  connex = λ x y h k. ground arith;
}

module _ (ch : Chain) (sender : ch.Address) (accounts : List ch.Address) where
  insert_tuple :
      (k : ℕ) (a : ch.Address) (ks : List ℕ) (ts : List (ℕ × ch.Address))
      → delta_address ch sender accounts k ≡ some a
      → delta_tuples ch sender accounts ks ≡ some ts
      → delta_tuples ch sender accounts (insert_stable ltb k ks)
        ≡ some (insert_stable (by_key ch) (k, a) ts)
  unfolding delta_tuples insert_stable
  insert_tuple k a [] ts p q = rw (p, delta_tuples) (ground (arith, q))
  insert_tuple k a (j ∷ ks) ts p q = elim (Option-cases (delta_address ch sender accounts j)) [
    | inl n ↦ absurd (ground arith)
    | inr (b, u) ↦ elim (Option-cases (delta_tuples ch sender accounts ks)) [
      | inl n ↦ absurd (ground arith)
      | inr (rest, v) ↦
          let whole : (j, b) ∷ rest ≡ ts = ground arith in
          let ih = insert_tuple k a ks rest p v in
          elim (Bool-cases (ltb j k)) [
            | inl e ↦ rw (sym whole, e, u, ih) refl
            | inr e ↦ rw (sym whole, e, p, u, v) refl
          ]
    ]
  ]

  sort_tuples :
      (ks : List ℕ) (ts : List (ℕ × ch.Address))
      → delta_tuples ch sender accounts ks ≡ some ts
      → delta_tuples ch sender accounts (sort_stable ltb ks) ≡ some (sort_stable (by_key ch) ts)
  unfolding delta_tuples sort_stable
  sort_tuples [] ts q = ground arith
  sort_tuples (j ∷ ks) ts q = elim (Option-cases (delta_address ch sender accounts j)) [
    | inl n ↦ absurd (ground arith)
    | inr (b, u) ↦ elim (Option-cases (delta_tuples ch sender accounts ks)) [
      | inl n ↦ absurd (ground arith)
      | inr (rest, v) ↦
          let whole : (j, b) ∷ rest ≡ ts = ground arith in
          insert_tuple j b (sort_stable ltb ks) (sort_stable (by_key ch) rest) u
            (sort_tuples ks rest v)
          ∙ ap (λ l. some (sort_stable (by_key ch) l)) whole
    ]
  ]

  account_deltas-eq :
      (d d' : List (ℕ × StateDelta)) (ts : List (ℕ × ch.Address))
      → ((k : ℕ) → get_entry (same_key ch) [] d k ≡ get_entry (same_key ch) [] d' k)
      → account_deltas ch d ts ≡ account_deltas ch d' ts
  unfolding account_deltas
  account_deltas-eq d d' [] h = refl
  account_deltas-eq d d' (t ∷ ts) h = rw (account_deltas, h t.0, account_deltas-eq d d' ts h) refl

  by_tuples :
      (d : List (ℕ × StateDelta)) (ts : List (ℕ × ch.Address))
      → delta_tuples ch sender accounts (keys_of d) ≡ some ts
      → local_state_delta ch sender accounts d
        ≡ some (if is_nil d then none else some (account_deltas ch d (sort_stable (by_key ch) ts)))
  unfolding local_state_delta
  by_tuples [] ts q = refl
  by_tuples (e ∷ d) ts q = rw (q, local_state_delta) refl

  -- The local deltas of a transaction are converted to the same in whatever order their accounts are
  -- met, if all are the sender or one of the accounts.
  pub local_state_delta-Reordered :
      (d d' : List (ℕ × StateDelta))
      → Reordered d d'
      → DistinctKeys d
      → All (λ k. k ≤ length accounts) (keys_of d)
      → local_state_delta ch sender accounts d ≡ local_state_delta ch sender accounts d'
  local_state_delta-Reordered d d' r h inside =
      let keys = keys_of-Reordered r in
      let (ts, p) = delta_tuples_returns ch sender accounts (keys_of d) inside in
      let (ts', p') =
        delta_tuples_returns ch sender accounts (keys_of d')
          (All-Reordered (λ k. k ≤ length accounts) keys inside) in
      let sorted : some (sort_stable (by_key ch) ts) ≡ some (sort_stable (by_key ch) ts') =
        sym (sort_tuples (keys_of d) ts p)
        ∙ ap (delta_tuples ch sender accounts) (sort_stable-Reordered ltb ltb-IsTotal keys)
        ∙ sort_tuples (keys_of d') ts' p' in
      let tuples : sort_stable (by_key ch) ts ≡ sort_stable (by_key ch) ts' = ground arith in
      let entries =
        account_deltas-eq d d' (sort_stable (by_key ch) ts)
          (λ k. get_entry-Reordered (same_key ch) ==_iff [] k r h) in
      by_tuples d ts p ∙ rw (is_nil-Reordered r, entries, tuples) refl ∙ sym (by_tuples d' ts' p')
