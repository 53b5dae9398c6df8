-- ===== src/Utils/Convert/Created.antt =====
-- The assets and applications that a transaction is said to have created.
use algo_vnode.Prelude.{
  ℕ, ◌+◌, ◌-◌, ◌<◌, ◌≤◌, ◌≡◌, refl, ◌∙◌, Option, none, some, arith, ◌==◌, if◌then◌else◌, u64_mod,
  ◌&&◌,
}
use algo_vnode.Utils.Pointers.{uint64_ptr}
use algo_vnode.Utils.Chain.{
  TxType, payment, key_registration, asset_transfer, asset_freeze, other_type, Chain, Fields,
  SignedTxn, signed, fields_of, asset_config, application_call,
}
use algo_vnode.Utils.Indexer.{Transaction, main_of}
use algo_vnode.Utils.Parts.{RowData, is_asset_config, is_application_call}
use algo_vnode.Utils.Convert.{
  to_transaction, with_inners, transaction_fields, transaction_asset_id, created_asset,
  created_application,
}

module _ (ch : Chain) where
  created_fields :
      (f : Fields ch) (extra : RowData) (ds : _) (is : _) (tx : Transaction) (next : ℕ)
      → with_inners ch f extra ds is ≡ some (tx, next)
      → ((main_of tx).created_asset_index ≡ created_asset ch f extra)
        × ((main_of tx).created_application_index ≡ created_application ch f extra)
  unfolding with_inners transaction_fields
  created_fields f extra none is tx next e = absurd (ground arith)
  created_fields f extra (some d) none tx next e = absurd (ground arith)
  created_fields f extra (some d) (some (ts, n)) tx next e = ground arith

  created_by :
      (t : SignedTxn ch) (intra : ℕ) (extra : RowData) (tx : Transaction) (next : ℕ)
      → to_transaction ch t intra extra ≡ some (tx, next)
      → ((main_of tx).created_asset_index ≡ created_asset ch (fields_of ch t) extra)
        × ((main_of tx).created_application_index ≡ created_application ch (fields_of ch t) extra)
  unfolding to_transaction
  created_by (signed f is) intra extra tx next e = created_fields f extra _ _ tx next e

  -- The index of what the `intra`-th transaction of a block creates, where `applied` is the one that
  -- was recorded for it, if that is not 0.
  abbrev pub index_created : ℕ → ℕ → ℕ → ℕ → ℕ
  index_created applied counter payset_length intra =
      if applied == 0 then counter - payset_length + intra + 1 else applied

  abbrev CreatedRight : Fields ch → ℕ → ℕ → ℕ → Option ℕ → Option ℕ → Type 0
  CreatedRight f intra counter payset_length asset application =
      (asset ≡ (
        if is_asset_config f.txn.tx_type && f.txn.config_asset == 0
        then some (index_created f.apply_data.applied_config_asset counter payset_length intra)
        else none))
      × (application ≡ (
          if is_application_call f.txn.tx_type && f.txn.application_id == 0
          then some (index_created f.apply_data.applied_application_id counter payset_length intra)
          else none))

  created_by_type :
      (type : TxType) (f : Fields ch) (intra counter payset_length : ℕ) (extra : RowData)
      → f.txn.tx_type ≡ type
      → payset_length ≤ counter
      → counter - payset_length + intra + 1 < u64_mod
      → extra.asset_id ≡ transaction_asset_id ch f intra counter payset_length
      → CreatedRight f intra counter payset_length
          (created_asset ch f extra)
          (created_application ch f extra)
  unfolding transaction_asset_id created_asset created_application uint64_ptr
  created_by_type payment f intra counter n extra q m room e =
      let a : extra.asset_id ≡ _ = rw (q, transaction_asset_id) at e in
      rw (q, created_asset, created_application) (refl, refl)
  created_by_type key_registration f intra counter n extra q m room e =
      let a : extra.asset_id ≡ _ = rw (q, transaction_asset_id) at e in
      rw (q, created_asset, created_application) (refl, refl)
  created_by_type asset_config f intra counter n extra q m room e =
      let a : extra.asset_id ≡ _ = rw (q, transaction_asset_id) at e in
      rw (q, created_asset, created_application) (ground arith, refl)
  created_by_type asset_transfer f intra counter n extra q m room e =
      let a : extra.asset_id ≡ _ = rw (q, transaction_asset_id) at e in
      rw (q, created_asset, created_application) (refl, refl)
  created_by_type asset_freeze f intra counter n extra q m room e =
      let a : extra.asset_id ≡ _ = rw (q, transaction_asset_id) at e in
      rw (q, created_asset, created_application) (refl, refl)
  created_by_type application_call f intra counter n extra q m room e =
      let a : extra.asset_id ≡ _ = rw (q, transaction_asset_id) at e in
      rw (q, created_asset, created_application) (refl, ground arith)
  created_by_type (other_type s) f intra counter n extra q m room e =
      let a : extra.asset_id ≡ _ = rw (q, transaction_asset_id) at e in
      rw (q, created_asset, created_application) (refl, refl)

  -- The indices of what a transaction is said to have created, if it is given the asset id that
  -- genTransactions computes for its position `intra`, and no sum wraps. An asset index is there
  -- exactly for a configuration of asset 0, an application index exactly for a call of application
  -- 0, and each is the applied index of the block if that is not 0, and otherwise the position of
  -- the transaction counted from the counter before the block.
  pub created_by_root :
      (t : SignedTxn ch) (intra counter payset_length : ℕ) (extra : RowData) (tx : Transaction)
      (next : ℕ)
      → payset_length ≤ counter
      → counter - payset_length + intra + 1 < u64_mod
      → extra.asset_id ≡ transaction_asset_id ch (fields_of ch t) intra counter payset_length
      → to_transaction ch t intra extra ≡ some (tx, next)
      → let f = fields_of ch t in
        ((main_of tx).created_asset_index ≡ (
          if is_asset_config f.txn.tx_type && f.txn.config_asset == 0
          then some (index_created f.apply_data.applied_config_asset counter payset_length intra)
          else none))
        × ((main_of tx).created_application_index ≡ (
            if is_application_call f.txn.tx_type && f.txn.application_id == 0
            then some
                (index_created f.apply_data.applied_application_id counter payset_length intra)
            else none))
  unfolding transaction_asset_id created_asset created_application
  created_by_root t intra counter payset_length extra tx next m room e p =
      let c = created_by t intra extra tx next p in
      let f = fields_of ch t in
      let r = created_by_type f.txn.tx_type f intra counter payset_length extra refl m room e in
      (c.0 ∙ r.0, c.1 ∙ r.1)
