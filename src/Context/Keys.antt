-- ===== src/Context/Keys.antt =====
-- The rest of src/chain/context/signing_scheme.rs and signing_provider.rs: keys from bytes, the
-- comparison of signatures, the traits of the signature scheme, and what the provider does not implement.
use rem_poc.Prelude.{ℕ, ◌≡◌, ◌↔◌, List, [], ◌∷◌, compare, Ordering, Bool, true, arith, Option, some}
use rem_poc.Prelude.Run.{Run, ok, panic}
use rem_poc.Context.Malachite.{Malachite}
use rem_poc.Context.PeerSet.{BasePeer}
use rem_poc.Context.Vote.{BaseVote, BaseProposal, BaseProposalPart}
use rem_poc.Context.Signing.{
  PrivateKey, PublicKey, Signature, BaseSigningProvider, SignedMessage, VerifyError, public_key,
  verify,
}

-- `BaseProposalPart`, of src/chain/context/proposals.rs; `is_last` is `unimplemented!()`.
unfoldable new_proposal_part : ℕ → BaseProposalPart
new_proposal_part h = record { height = h }

unfoldable is_first : BaseProposalPart → Bool
is_first part = true

unfoldable is_last : BaseProposalPart → Run VerifyError Bool
is_last part = panic

-- The comparison of arrays of bytes, `[u8; 64]`.
unfoldable cmp_bytes : List ℕ → List ℕ → Ordering
cmp_bytes [] [] = Ordering.eq
cmp_bytes [] (b ∷ ys) = Ordering.lt
cmp_bytes (a ∷ xs) [] = Ordering.gt
cmp_bytes (a ∷ xs) (b ∷ ys) =
    let rest = cmp_bytes xs ys in
    elim (compare a b) [
      | Ordering.lt ↦ Ordering.lt
      | Ordering.gt ↦ Ordering.gt
      | Ordering.eq ↦ rest
    ]

module _ (M : Malachite) where
  -- `From<[u8; 32]>` for keys
  unfoldable private_key_of_bytes : List ℕ → PrivateKey M
  private_key_of_bytes bytes = record { key = M.signing_key_of_bytes bytes }

module _ {M : Malachite} where
  unfoldable pub as_bytes : Signature M → List ℕ
  as_bytes s = M.signature_bytes s.raw

  -- `Ord` for signatures
  unfoldable pub signature_cmp : Signature M → Signature M → Ordering
  unfolding cmp_bytes
  signature_cmp s t = cmp_bytes (M.signature_bytes s.raw) (M.signature_bytes t.raw)

  -- `PartialOrd` for signatures
  unfoldable signature_partial_cmp : Signature M → Signature M → Option Ordering
  unfolding signature_cmp
  signature_partial_cmp s t = some (signature_cmp s t)

  -- `Signer`, `Keypair` and `Verifier`
  unfoldable pub try_sign : PrivateKey M → List ℕ → Run VerifyError (Signature M)
  try_sign k msg = ok (record { raw = M.sign k.key msg })

  unfoldable pub verifying_key : PrivateKey M → PublicKey M
  unfolding public_key
  verifying_key k = public_key k

  unfoldable verifier_verify : PublicKey M → List ℕ → Signature M → Run VerifyError (Unit {0})
  unfolding verify
  verifier_verify k msg signature = verify k msg signature

  unfoldable provider_public_key : BaseSigningProvider M → PublicKey M
  unfolding public_key
  provider_public_key p = public_key p.private_key

  -- The methods of the provider that are `todo!()`.
  unfoldable verify_signed_vote :
      BaseSigningProvider M → BaseVote M → Signature M → PublicKey M → Run VerifyError Bool
  verify_signed_vote p vote signature key = panic

  unfoldable verify_signed_proposal :
      {Transaction : Type 0}
      → BaseSigningProvider M
      → BaseProposal M Transaction
      → Signature M
      → PublicKey M
      → Run VerifyError Bool
  verify_signed_proposal p proposal signature key = panic

  unfoldable sign_proposal_part :
      BaseSigningProvider M → BaseProposalPart → Run VerifyError (SignedMessage M BaseProposalPart)
  sign_proposal_part p part = panic

  unfoldable verify_signed_proposal_part :
      BaseSigningProvider M → BaseProposalPart → Signature M → PublicKey M → Run VerifyError Bool
  verify_signed_proposal_part p part signature key = panic

  -- for a certificate and its signature, of the consensus library
  unfoldable verify_commit_signature :
      {Certificate CommitSignature CertificateError : Type 0}
      → BaseSigningProvider M
      → Certificate
      → CommitSignature
      → BasePeer (PublicKey M)
      → Run CertificateError ℕ
  verify_commit_signature p certificate signature validator = panic

cmp_bytes-eq : (xs ys : List ℕ) → (cmp_bytes xs ys ≡ Ordering.eq) ↔ (xs ≡ ys)
unfolding cmp_bytes
cmp_bytes-eq [] [] = ground arith
cmp_bytes-eq [] (b ∷ ys) = ground arith
cmp_bytes-eq (a ∷ xs) [] = ground arith
cmp_bytes-eq (a ∷ xs) (b ∷ ys) = ground (arith, cmp_bytes-eq xs ys)
