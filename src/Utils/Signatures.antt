-- ===== src/Utils/Signatures.antt =====
-- The signatures of internal/utils/convert_stxn.go.
use algo_vnode.Prelude.{
  ℕ, Bool, true, false, List, [], ◌∷◌, Option, none, some, map, ◌==◌, if◌then◌else◌,
}
use algo_vnode.Utils.Base64.{base64_encode}
use algo_vnode.Utils.Chain.{Chain, MultisigSubsig, MultisigSig, LogicSig}
use algo_vnode.Utils.Indexer.{
  TransactionSignatureMultisigSubsignature, TransactionSignatureMultisig,
  TransactionSignatureLogicsig,
}
use algo_vnode.Utils.Pointers.{byte_slice_omit_zero_ptr, uint64_ptr}

-- `sig == (crypto.Signature{})`.
unfoldable pub is_zero_bytes : List ℕ → Bool
is_zero_bytes [] = true
is_zero_bytes (c ∷ s) = if c == 0 then is_zero_bytes s else false

unfoldable pub sig_to_transaction_sig : List ℕ → Option (List ℕ)
unfolding is_zero_bytes
sig_to_transaction_sig sig = if is_zero_bytes sig then none else some sig

unfoldable pub subsig_to_subsignature : MultisigSubsig → TransactionSignatureMultisigSubsignature
unfolding byte_slice_omit_zero_ptr sig_to_transaction_sig
subsig_to_subsignature s = record {
  public_key = byte_slice_omit_zero_ptr s.key;
  signature = sig_to_transaction_sig s.sig;
}

module _ (ch : Chain) where
  unfoldable pub msig_to_transaction_msig : MultisigSig → Option TransactionSignatureMultisig
  unfolding subsig_to_subsignature uint64_ptr
  msig_to_transaction_msig msig =
      if ch.msig_blank msig
      then none
      else some (record {
        subsignature = some (map subsig_to_subsignature msig.subsigs);
        threshold = uint64_ptr msig.threshold;
        version = uint64_ptr msig.version;
      })

  unfoldable pub lsig_to_transaction_lsig : LogicSig → Option TransactionSignatureLogicsig
  unfolding msig_to_transaction_msig sig_to_transaction_sig base64_encode
  lsig_to_transaction_lsig lsig =
      if ch.lsig_blank lsig
      then none
      else some (record {
        args = some (map base64_encode lsig.args);
        logic = lsig.logic;
        multisig_signature = msig_to_transaction_msig lsig.msig;
        signature = sig_to_transaction_sig lsig.sig;
      })
