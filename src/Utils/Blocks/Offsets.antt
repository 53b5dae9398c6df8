-- ===== src/Utils/Blocks/Offsets.antt =====
-- The positions of the transactions of a block, inner ones counted.
use algo_vnode.Prelude.{
  ℕ, ◌+◌, ◌%◌, ◌<◌, ◌≡◌, refl, ap, ◌∙◌, subst, List, [], ◌∷◌, map, Option, some, GoError, wrapped,
  arith, u64_mod, Result, ok, err, Result-cases, inl, inr, ◌>>=◌, Text,
}
use algo_vnode.Utils.Chain.{Chain, Txn, SignedTxn, fields_of, ChainBlock}
use algo_vnode.Utils.Indexer.{Transaction, transaction, IndexerBlock, TransactionSignature}
use algo_vnode.Utils.Convert.Positions.{InRange, size, offset_of, to_transaction-Converts}
use algo_vnode.Utils.Blocks.{
  ok_cons, with_id_and_signature, signature_of, root_extra, gen_transactions_loop, gen_transactions,
  generate_block, block_response,
}

cons-eq : {A : Type 0} {x y : A} {xs ys : List A} → x ≡ y → xs ≡ ys → x ∷ xs ≡ y ∷ ys
cons-eq e es = cc

module _ (ch : Chain) where
  -- The positions of transactions that stand one after the other.
  unfoldable pub offsets : ℕ → List (SignedTxn ch) → List (Option ℕ)
  offsets intra [] = []
  offsets intra (t ∷ ts) = some intra ∷ offsets (intra + size ch t) ts

  unfoldable pub total : List (SignedTxn ch) → ℕ
  total [] = 0
  total (t ∷ ts) = size ch t + total ts

  -- What the loop makes of a payset, by what `decode` makes of it.
  abbrev pub Placed : ℕ → Result (List (SignedTxn ch)) → Option (Result (List Transaction)) → Type 0
  Placed intra (err e) r = r ≡ some (err (wrapped "decode signed txn err" e))
  Placed intra (ok ts) r =
      intra + total ts < u64_mod
      → (txs : List Transaction) × (r ≡ some (ok txs)) × (map (offset_of ch) txs ≡ offsets intra ts)

  offset_of-with_id_and_signature :
      (id : Text) (sig : TransactionSignature) (tx : Transaction)
      → offset_of ch (with_id_and_signature id sig tx) ≡ offset_of ch tx
  offset_of-with_id_and_signature id sig (transaction n ts) = refl

  cons-Placed :
      (t : SignedTxn ch) (tx : Transaction) (intra next : ℕ) (ds : Result (List (SignedTxn ch)))
      (r : Option (Result (List Transaction)))
      → offset_of ch tx ≡ some intra
      → next ≡ (intra + size ch t) % u64_mod
      → Placed next ds r
      → Placed intra (ok_cons t ds) (r >>= λ rest. some (ok_cons tx rest))
  unfolding offsets total
  cons-Placed t tx intra next (err e) r at_intra step h = rw h refl
  cons-Placed t tx intra next (ok ts) r at_intra step h = λ room.
      let here : next ≡ intra + size ch t = omega arith in
      let (txs, p, o) = h (omega arith) in
      (tx ∷ txs, (rw p refl), cons-eq at_intra (o ∙ ap (λ k. offsets k ts) here))

  -- The transactions of a payset, decoded one by one up to the first error.
  unfoldable pub decode_all :
      {Stib : Type 0} → (Stib → Result (SignedTxn ch)) → List Stib → Result (List (SignedTxn ch))
  decode_all decode [] = ok []
  decode_all decode (stib ∷ stibs) = elim (decode stib) [
    | err e ↦ err e
    | ok t ↦ ok_cons t (decode_all decode stibs)
  ]

  -- `tx_id` is the text of a transaction's id, `closing` the closing amount that the payset has, and
  -- `sound` says of `DecodeSignedTxn` that its transactions have local deltas of their sender and
  -- accounts alone, as those of a block that consensus has accepted do.
  module _ {Stib : Type 0} (decode : Stib → Result (SignedTxn ch)) (closing : Stib → ℕ)
      (tx_id : Txn ch → Text)
      (sound : (stib : Stib) (t : SignedTxn ch) → decode stib ≡ ok t → InRange ch t) where
    loop-Placed :
        (block : ChainBlock ch Stib) (intra : ℕ) (stibs : List Stib)
        → intra < u64_mod
        → Placed intra
            (decode_all decode stibs)
            (gen_transactions_loop ch decode closing tx_id block intra stibs)
    unfolding decode_all gen_transactions_loop offsets total root_extra
    loop-Placed block intra [] l = λ h. ([], refl, refl)
    loop-Placed block intra (stib ∷ stibs) l = elim (Result-cases (decode stib)) [
      | inl (e, q) ↦ rw (q, decode_all, gen_transactions_loop) refl
      | inr (t, q) ↦
          let extra = root_extra ch decode closing tx_id block stib t intra in
          let (tx, next, p, e, o) = to_transaction-Converts ch t intra extra (sound stib t q) l in
          let ih = loop-Placed block next stibs (omega (arith, e)) in
          let f = fields_of ch t in
          rw (q, decode_all, gen_transactions_loop, p)
            (cons-Placed t (with_id_and_signature (tx_id f.txn) (signature_of ch f) tx) intra next
              (decode_all decode stibs)
              (gen_transactions_loop ch decode closing tx_id block next stibs)
              (offset_of-with_id_and_signature (tx_id f.txn) (signature_of ch f) tx ∙ o) e ih)
    ]

    -- Where every transaction of a payset can be decoded, in a block with room for its positions,
    -- `GenerateBlock` succeeds with the round of the block, and each transaction stands at the sum of
    -- the sizes of those before it, inner ones counted at any depth. The transactions that
    -- `DecodeSignedTxn` makes have local deltas of their sender and accounts alone.
    pub generate_block-offsets :
        (block : ChainBlock ch Stib) (ts : List (SignedTxn ch))
        → decode_all decode block.payset ≡ ok ts
        → total ts < u64_mod
        → (b : IndexerBlock) × (txs : List Transaction) × (generate_block ch decode closing tx_id
              block
            ≡ some (ok b))
          × (b.round ≡ block.header.round)
          × (b.transactions ≡ some txs)
          × (map (offset_of ch) txs ≡ offsets 0 ts)
    unfolding generate_block gen_transactions block_response
    generate_block-offsets block ts e room =
        let placed =
          subst
            (λ d. Placed 0 d (gen_transactions_loop ch decode closing tx_id block 0 block.payset)) e
            (loop-Placed block 0 block.payset (omega arith)) in
        let (txs, p, o) = placed (omega arith) in
        (
          block_response ch decode closing tx_id block.header txs,
          txs,
          rw (p, generate_block) refl,
          refl,
          refl,
          o,
        )

    -- Where one cannot be decoded, `GenerateBlock` fails with the error of the first such one, wrapped,
    -- if the transactions that `DecodeSignedTxn` makes have local deltas of their sender and accounts alone.
    pub generate_block_fails :
        (block : ChainBlock ch Stib) (e : GoError)
        → decode_all decode block.payset ≡ err e
        → generate_block ch decode closing tx_id block
          ≡ some (err (wrapped "decode signed txn err" e))
    unfolding generate_block gen_transactions
    generate_block_fails block e p =
        let failed =
          subst
            (λ d. Placed 0 d (gen_transactions_loop ch decode closing tx_id block 0 block.payset)) p
            (loop-Placed block 0 block.payset (omega arith)) in
        rw (failed, generate_block) refl
