-- ===== src/Context/Malachite.antt =====
-- The types of the consensus library (`malachite_core_types`) and of the signature scheme
-- (`ed25519_consensus`, wrapped by src/chain/context/signing_scheme.rs) that the program handles as they
-- are, and the functions on them that it calls.
use rem_poc.Prelude.{ℕ, List, Bool}
use rem_poc.Prelude.Run.{Run}

pub record Malachite : Type 1 where
  pub Round : Type 0
  pub nil_round : Round
  -- `NilOrVal<BaseValueId>`
  pub NilOrVal : Type 0
  pub SignedExtension : Type 0
  pub TimeoutKind : Type 0
  pub is_commit : TimeoutKind → Bool
  pub ThresholdParams : Type 0
  pub default_threshold_params : ThresholdParams
  pub ValuePayload : Type 0
  pub proposal_only : ValuePayload
  pub ValueOrigin : Type 0
  pub consensus_origin : ValueOrigin
  pub Validity : Type 0
  pub valid : Validity
  -- `Height::increment`, a method that the trait provides
  pub increment : ℕ → ℕ
  -- ed25519: keys, signatures and the checks on them
  pub SigningKey : Type 0
  pub VerificationKey : Type 0
  pub RawSignature : Type 0
  pub SignatureError : Type 0
  pub new_signing_key : ℕ → SigningKey
  pub signing_key_of_bytes : List ℕ → SigningKey
  pub verification_key : SigningKey → VerificationKey
  pub sign : SigningKey → List ℕ → RawSignature
  pub verify : VerificationKey → RawSignature → List ℕ → Run SignatureError (Unit {0})
  pub signature_bytes : RawSignature → List ℕ
  pub signature_of_bytes : List ℕ → Run SignatureError RawSignature
