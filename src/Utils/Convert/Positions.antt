-- ===== src/Utils/Convert/Positions.antt =====
-- Which transactions are converted without a panic, and how far one reaches.
use algo_vnode.Prelude.{
  ℕ, suc, ◌+◌, ◌%◌, ◌<◌, ◌≤◌, ◌≡◌, refl, ◌∙◌, ap, Option, some, arith, add64, u64_mod, All, length,
}
use algo_vnode.Utils.Chain.{Chain, Fields, SignedTxn, signed, InnerTxns, no_more, inner, fields_of}
use algo_vnode.Utils.Deltas.Range.{local_state_delta_returns}
use algo_vnode.Utils.Deltas.{keys_of}
use algo_vnode.Utils.Indexer.{Transaction, transaction, Transactions, end, item, main_of}
use algo_vnode.Utils.Parts.{RowData}
use algo_vnode.Utils.Convert.{
  with_inners, to_transaction, to_inners, transaction_fields, inner_extra,
}

module _ (ch : Chain) where
  -- Every local delta of the transaction is the sender's or one of its accounts'.
  abbrev pub AccountsInRange : Fields ch → Type 0
  AccountsInRange f = All (λ k. k ≤ length f.txn.accounts) (keys_of f.apply_data.local_deltas)

  unfoldable mutual
    pub InRange : SignedTxn ch → Type 0
    InRange (signed f is) = AccountsInRange f × InnersInRange is

    pub InnersInRange : InnerTxns ch → Type 0
    InnersInRange no_more = Unit {0}
    InnersInRange (inner t is) = InRange t × InnersInRange is

  -- A transaction and all its inner ones.
  unfoldable mutual
    pub size : SignedTxn ch → ℕ
    size (signed f is) = suc (size_inners is)

    pub size_inners : InnerTxns ch → ℕ
    size_inners no_more = 0
    size_inners (inner t is) = size t + size_inners is

  abbrev pub offset_of : Transaction → Option ℕ
  offset_of t = (main_of t).intra_round_offset

  -- A conversion that returns, with the next position and the position of the transaction.
  abbrev pub Converts : SignedTxn ch → ℕ → RowData → Type 0
  Converts t intra extra =
      (tx : Transaction) × (next : ℕ) × (to_transaction ch t intra extra ≡ some (tx, next))
      × (next ≡ (intra + size t) % u64_mod)
      × (offset_of tx ≡ some extra.intra)

  mutual
    unfolding InRange InnersInRange to_transaction to_inners size size_inners with_inners
        transaction_fields

    pub to_transaction-Converts :
        (t : SignedTxn ch) (intra : ℕ) (extra : RowData)
        → InRange t
        → intra < u64_mod
        → Converts t intra extra
    to_transaction-Converts (signed f is) intra extra h l =
        let (d, p) =
          local_state_delta_returns ch f.txn.sender f.txn.accounts f.apply_data.local_deltas h.0 in
        let (ts, next, q, e) = to_inners_converts is (add64 intra 1) extra h.1 (omega arith) in
        (
          transaction (transaction_fields ch f extra d) ts,
          next,
          rw (p, q) refl,
          omega (arith, e),
          refl,
        )

    to_inners_converts :
        (is : InnerTxns ch) (intra : ℕ) (extra : RowData)
        → InnersInRange is
        → intra < u64_mod
        → (ts : Transactions) × (next : ℕ) × (to_inners ch is intra extra ≡ some (ts, next))
          × (next ≡ (intra + size_inners is) % u64_mod)
    to_inners_converts no_more intra extra h l = (end, intra, refl, omega arith)
    to_inners_converts (inner t is) intra extra h l =
        let (tx, next, p, e, o) =
          to_transaction-Converts t intra (inner_extra ch (fields_of ch t) extra) h.0 l in
        let (ts, last, q, f) = to_inners_converts is next extra h.1 (omega (arith, e)) in
        (item tx ts, last, rw (p, q, to_inners) refl, omega (arith, e, f))

  -- The conversion of a transaction returns, if it and its inner ones have local deltas of their
  -- sender and accounts alone; the transaction stands where its row data says; and, with room for
  -- its positions, the next position is its own plus one and one for every transaction inside it,
  -- at any depth.
  pub to_transaction_position :
      (t : SignedTxn ch) (intra : ℕ) (extra : RowData)
      → InRange t
      → intra + size t < u64_mod
      → (tx : Transaction) × (to_transaction ch t intra extra ≡ some (tx, intra + size t))
        × (offset_of tx ≡ some extra.intra)
  to_transaction_position t intra extra h room =
      let (tx, next, p, e, o) = to_transaction-Converts t intra extra h (omega arith) in
      let here : next ≡ intra + size t = omega (arith, e) in
      (tx, p ∙ ap (λ n. some (tx, n)) here, o)
