-- ===== src/Recovery/AggregateSigner.antt =====
-- mpc-recovery/src/sign_node/aggregate_signer.rs: how a sign node commits to a nonce, reveals it and
-- signs its share; mpc-recovery/src/error.rs and transaction.rs, as far as it uses them.
pub mod Zipped
use mpc_recovery.Prelude.{
  ℕ, zero, suc, ◌≡◌, refl, ◌⊎◌, inl, inr, Bool, true, false, List, [], ◌∷◌, ◌++◌, Option, none,
  some, map, length, ◌==◌, not, if◌then◌else◌,
}
use mpc_recovery.Collections.HashMap
use mpc_recovery.Collections.HashMap.{number, pair}
pub use mpc_recovery.Recovery.Answer.{Answer, ok, err, panicked, ◌>>=◌, Answer-cases}
use mpc_recovery.Recovery.Answer.{ok_or, unwrap, check}
use mpc_recovery.Recovery.EdDsa.{EdDsa, EphemeralKey, SignSecondMsg, KeyAgg}

pub data AggregateSigningError : Type 0 where
  invalid_commitment_numbers : ℕ → ℕ → AggregateSigningError
  invalid_reveal_numbers : ℕ → ℕ → AggregateSigningError
  commitment_not_found : ℕ → AggregateSigningError
  reveal_not_found : SignSecondMsg → AggregateSigningError
  invalid_commitment : ℕ → ℕ → ℕ → ℕ → AggregateSigningError
  node_keys_unavailable : AggregateSigningError
  signature_verification_failed : AggregateSigningError
  data_conversion_failure : AggregateSigningError

abbrev pub Signing : Type 0 → Type 0
Signing T = Answer AggregateSigningError T

pub record SignedCommitment : Type 0 where
  pub commitment : ℕ
  pub signing_public_key : ℕ
  pub signing_public_key_sig : ℕ
  pub signature : ℕ

pub record Committed : Type 0 where
  pub ephemeral_key : EphemeralKey
  pub our_signature : SignSecondMsg
  pub message : List ℕ
  pub our_key : ℕ

pub record Revealed : Type 0 where
  pub commitments : List ℕ
  pub signing_public_keys : List ℕ
  pub committed : Committed

pub record NodeInfo : Type 0 where
  pub nodes_public_keys : Option (List ℕ)
  pub our_index : ℕ

-- The key of a reveal is the pair of its parts.
pub record SigningState : Type 0 where
  pub committed : List (ℕ × Committed)
  pub revealed : List ((ℕ × ℕ) × Revealed)

abbrev pub new : SigningState
new = record { committed = []; revealed = [] }

abbrev pub key_of : SignSecondMsg → ℕ × ℕ
key_of m = (m.r, m.blind_factor)

-- `list.get(i)`
unfoldable pub get : {A : Type 0} → List A → ℕ → Option A
get [] i = none
get (x ∷ xs) zero = some x
get (x ∷ xs) (suc i) = get xs i

-- The bytes of `SignedCommitment::serialize`.
abbrev pub own_name : List ℕ
own_name =
    83 ∷ 105 ∷ 103 ∷ 110 ∷ 101 ∷ 100 ∷ 67 ∷ 111 ∷ 109 ∷ 109 ∷ 105 ∷ 116 ∷ 109 ∷ 101 ∷ 110 ∷ 116 ∷ 58
    ∷ 58 ∷ 115 ∷ 101 ∷ 114 ∷ 105 ∷ 97 ∷ 108 ∷ 105 ∷ 122 ∷ 101 ∷ []

module _ (C : EdDsa) where
  unfoldable pub to_dalek_signature : ℕ → Signing ℕ
  to_dalek_signature s = ok_or data_conversion_failure (C.dalek_signature s)

  unfoldable pub to_dalek_public_key : ℕ → Signing ℕ
  to_dalek_public_key p = ok_or data_conversion_failure (C.dalek_public_key p)

  -- `SignedCommitment::serialize`: the content behind the bytes of its own name.
  unfoldable pub serialize : ℕ → ℕ → Signing (List ℕ)
  serialize commitment pk = do
    content ← ok_or data_conversion_failure (C.to_vec commitment pk)
    ok (own_name ++ content)

  -- `SignedCommitment::create`
  unfoldable pub create : ℕ → ℕ → ℕ → Signing SignedCommitment
  unfolding serialize to_dalek_signature
  create commitment node_key signing_keys = do
    to_sign ← serialize commitment (C.public_key signing_keys)
    signing_public_key_sig ← to_dalek_signature (C.sign_single [] signing_keys)
    signature ← to_dalek_signature (C.sign_single to_sign node_key)
    ok (record {
      commitment = commitment;
      signing_public_key = C.public_key signing_keys;
      signing_public_key_sig = signing_public_key_sig;
      signature = signature;
    })

  -- `SignedCommitment::verify`
  unfoldable pub verify : SignedCommitment → ℕ → Signing (ℕ × ℕ)
  unfolding serialize to_dalek_public_key
  verify s public_key = do
    node_key ← to_dalek_public_key public_key
    message ← serialize s.commitment s.signing_public_key
    _ ← check signature_verification_failed (C.verify node_key message s.signature)
    signing_public_key ← to_dalek_public_key s.signing_public_key
    _ ←
        check signature_verification_failed
          (C.verify signing_public_key [] s.signing_public_key_sig)
    ok (s.commitment, s.signing_public_key)

  -- `zip`, `map` and `collect`: the pairs in their order, up to the first error.
  unfoldable pub verify_all : List ℕ → List SignedCommitment → Signing (List (ℕ × ℕ))
  unfolding verify
  verify_all [] signed = ok []
  verify_all (_ ∷ _) [] = ok []
  verify_all (public_key ∷ keys) (s ∷ signed) = do
    pair ← verify s public_key
    rest ← verify_all keys signed
    ok (pair ∷ rest)

  -- `NodeInfo::signed_by_every_node`
  unfoldable pub signed_by_every_node : NodeInfo → List SignedCommitment → Signing (List (ℕ × ℕ))
  unfolding verify_all
  signed_by_every_node info signed = do
    keys ← ok_or node_keys_unavailable info.nodes_public_keys
    verify_all keys signed

  -- `Committed::commit`
  unfoldable pub commit : ℕ → ℕ → List ℕ → ℕ → Signing (SignedCommitment × Committed)
  unfolding create
  commit our_key node_key message random =
      let (ephemeral_key, commitment, our_signature) =
        C.create_ephemeral_key_and_commit our_key message random in
      create commitment node_key our_key >>= (λ sc. ok (
        sc,
        record {
          ephemeral_key = ephemeral_key;
          our_signature = our_signature;
          message = message;
          our_key = our_key;
        },
      ))

  -- `Committed::reveal`
  unfoldable pub reveal :
      NodeInfo → List SignedCommitment → Committed → Signing (SignSecondMsg × Revealed)
  unfolding signed_by_every_node
  reveal info commitments c = do
    signed ← signed_by_every_node info commitments
    ok (
      c.our_signature,
      record {
        commitments = map (λ p. p.0) signed;
        signing_public_keys = map (λ p. p.1) signed;
        committed = c;
      },
    )

  unfoldable pub check_commitment : ℕ → ℕ → ℕ → Signing (Unit {0})
  check_commitment r blind_factor comm = do
    y ← unwrap (C.y_coord r)
    let computed = C.create_commitment_with_user_defined_randomness y blind_factor
    check (invalid_commitment r blind_factor computed comm) (computed == comm)

  -- The loop of `combine` over the zipped commitments and parts.
  unfoldable pub check_all : List ℕ → List SignSecondMsg → Signing (Unit {0})
  unfolding check_commitment
  check_all [] parts = ok tt
  check_all (_ ∷ _) [] = ok tt
  check_all (comm ∷ commitments) (part ∷ parts) = do
    _ ← check_commitment part.r part.blind_factor comm
    check_all commitments parts

  -- `Revealed::combine`
  unfoldable pub combine : Revealed → List SignSecondMsg → NodeInfo → Signing ℕ
  unfolding check_all
  combine s parts info = do
    _ ← check_all s.commitments parts
    agg ← unwrap (C.key_aggregation_n s.signing_public_keys info.our_index)
    ok (
        C.partial_sign s.committed.ephemeral_key.r s.committed.our_key agg.hash
          (C.get_r_tot (map (λ p. p.r) parts)) agg.apk s.committed.message)
