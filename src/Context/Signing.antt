-- ===== src/Context/Signing.antt =====
-- src/chain/context/signing_scheme.rs and src/chain/context/signing_provider.rs. The checks that the provider
-- leaves as `todo!()` panic.
use rem_poc.Prelude.{refl, ℕ, ◌<◌, ◌≡◌, ◌↔◌, sym, ap, ◌∙◌, List, u64_mod}
use rem_poc.Prelude.Run.{map_err-ok, Run, ok, map_err, ◌>>=◌}
use rem_poc.Context.Malachite.{Malachite}
use rem_poc.Context.Vote.{
  BaseVote, BaseProposal, vote_bytes, proposal_bytes, to_be_bytes, of_be_bytes,
  of_be_bytes-to_be_bytes,
}

module _ (M : Malachite) where
  pub record PrivateKey : Type 0 where
    pub key : M.SigningKey

  pub record PublicKey : Type 0 where
    pub key : M.VerificationKey

  pub record Signature : Type 0 where
    pub raw : M.RawSignature

  pub record BaseSigningProvider : Type 0 where
    pub private_key : PrivateKey

-- `SignedMessage` of the consensus library
pub record SignedMessage (M : Malachite) (A : Type 0) : Type 0 where
  pub message : A
  pub signature : Signature M

-- `signature::Error`, which says nothing of the failure
pub data VerifyError : Type 0 where
  verify_error : VerifyError

module _ {M : Malachite} where
  -- `PrivateKey::public_key`
  unfoldable pub public_key : PrivateKey M → PublicKey M
  public_key k = record { key = M.verification_key k.key }

  -- `PrivateKey::sign`
  unfoldable pub sign : PrivateKey M → List ℕ → Signature M
  sign k msg = record { raw = M.sign k.key msg }

  -- `PublicKey::verify`
  unfoldable pub verify : PublicKey M → List ℕ → Signature M → Run VerifyError (Unit {0})
  verify k msg signature = map_err (λ _. verify_error) (M.verify k.key signature.raw msg)

  unfoldable pub encode_signature : Signature M → List ℕ
  encode_signature s = M.signature_bytes s.raw

  unfoldable pub sign_vote : BaseSigningProvider M → BaseVote M → SignedMessage M (BaseVote M)
  unfolding sign
  sign_vote p vote = record { message = vote; signature = sign p.private_key (vote_bytes vote) }

  unfoldable pub sign_proposal :
      {Transaction : Type 0}
      → BaseSigningProvider M
      → BaseProposal M Transaction
      → SignedMessage M (BaseProposal M Transaction)
  unfolding sign
  sign_proposal p proposal = record {
    message = proposal;
    signature = sign p.private_key (proposal_bytes proposal);
  }

module _ (M : Malachite) where
  -- `PrivateKey::generate`, from the randomness that the generator draws
  unfoldable generate : ℕ → PrivateKey M
  generate random = record { key = M.new_signing_key random }

  unfoldable generate_keypair : ℕ → PrivateKey M
  unfolding generate
  generate_keypair random = generate random

  -- `BaseSigningProvider::new`, from the randomness that the generator draws
  unfoldable pub new_signing_provider : ℕ → BaseSigningProvider M
  unfolding generate_keypair
  new_signing_provider random = record { private_key = generate_keypair random }

  -- `TryFrom<&[u8]>` for signatures
  unfoldable signature_try_from : List ℕ → Run M.SignatureError (Signature M)
  signature_try_from bytes = do raw ← M.signature_of_bytes bytes; ok (record { raw = raw })

  unfoldable pub decode_signature : List ℕ → Run M.SignatureError (Signature M)
  unfolding signature_try_from
  decode_signature bytes = signature_try_from bytes

  -- What ed25519 promises: a signature verifies under the key of its signer, for the message that was
  -- signed and for no other, and is read back from its bytes.
  pub record IsSound : Type 0 where
    pub verify-sign :
        (k : M.SigningKey) (msg : List ℕ)
        → M.verify (M.verification_key k) (M.sign k msg) msg ≡ ok tt
    pub verify-binds :
        (k : M.SigningKey) (msg msg' : List ℕ)
        → M.verify (M.verification_key k) (M.sign k msg) msg' ≡ ok tt
        → msg ≡ msg'
    pub of_bytes-bytes : (s : M.RawSignature) → M.signature_of_bytes (M.signature_bytes s) ≡ ok s

-- A signature is decoded from its encoding.
pub decode_signature-encode_signature :
    {M : Malachite} (sound : IsSound M) (s : Signature M)
    → decode_signature M (encode_signature s) ≡ ok s
unfolding decode_signature signature_try_from encode_signature
decode_signature-encode_signature sound s = rw (sound.of_bytes-bytes s.raw)

to_be_bytes_inj : (n m : ℕ) → n < u64_mod → m < u64_mod → to_be_bytes n ≡ to_be_bytes m → n ≡ m
to_be_bytes_inj n m hn hm e =
    sym (of_be_bytes-to_be_bytes n hn) ∙ (ap (of_be_bytes 0) e ∙ of_be_bytes-to_be_bytes m hm)

verify-signed :
    {M : Malachite} (sound : IsSound M) (k : PrivateKey M) (n m : ℕ)
    → n < u64_mod
    → m < u64_mod
    → (verify (public_key k) (to_be_bytes m) (sign k (to_be_bytes n)) ≡ ok tt) ↔ (n ≡ m)
unfolding verify public_key sign
verify-signed {M} sound k n m hn hm = (
  (λ e.
      to_be_bytes_inj n m hn hm
        (sound.verify-binds k.key (to_be_bytes n) (to_be_bytes m) (map_err-ok _ _ tt e))),
  λ e. rw (sym e, sound.verify-sign k.key (to_be_bytes n)) refl,
)

-- The provider's signature of a vote verifies under its public key for exactly the votes for the same
-- height, whatever their type, round, value, voter and extension; and its signature of a proposal, for
-- exactly the proposals of a value with the same id, whatever else they hold. Heights and ids are in the
-- range of a `u64`, and a signature is taken to verify for the message that was signed and for no other.
pub verify-sign_vote :
    {M : Malachite} {Transaction : Type 0} (sound : IsSound M) (p : BaseSigningProvider M)
    → ((v w : BaseVote M)
        → v.height < u64_mod
        → w.height < u64_mod
        → (verify (public_key p.private_key) (vote_bytes w) (sign_vote p v).signature ≡ ok tt)
          ↔ (v.height ≡ w.height))
      × ((v w : BaseProposal M Transaction)
          → v.value.id < u64_mod
          → w.value.id < u64_mod
          → (verify (public_key p.private_key) (proposal_bytes w) (sign_proposal p v).signature
              ≡ ok tt)
            ↔ (v.value.id ≡ w.value.id))
unfolding sign_vote sign_proposal vote_bytes proposal_bytes
verify-sign_vote sound p = (
  (λ v w. verify-signed sound p.private_key v.height w.height),
  λ v w. verify-signed sound p.private_key v.value.id w.value.id,
)
