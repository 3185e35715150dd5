-- ===== src/Recovery/EdDsa.antt =====
-- The interface of the libraries for keys, signatures and commitments (curv, multi-party-eddsa,
-- ed25519-dalek and serde_json), as far as mpc-recovery/src calls them.
use mpc_recovery.Prelude.{ℕ, Bool, List, Option}

-- Points, big numbers, keys and signatures stand as numbers, bytes as lists of numbers.
pub record EphemeralKey : Type 0 where
  pub r : ℕ
  pub big_r : ℕ

-- `aggsig::SignSecondMsg`
pub record SignSecondMsg : Type 0 where
  pub r : ℕ
  pub blind_factor : ℕ

-- `KeyAgg`
pub record KeyAgg : Type 0 where
  pub apk : ℕ
  pub hash : ℕ

pub record EdDsa : Type 0 where
  pub public_key : ℕ → ℕ
  -- the key pair, the message and what the random generator gives: the ephemeral key, the commitment
  -- and what it commits to
  pub create_ephemeral_key_and_commit : ℕ → List ℕ → ℕ → EphemeralKey × ℕ × SignSecondMsg
  pub sign_single : List ℕ → ℕ → ℕ
  -- `ed25519_dalek::{Signature, PublicKey}::from_bytes`; `none` is a failed conversion
  pub dalek_signature : ℕ → Option ℕ
  pub dalek_public_key : ℕ → Option ℕ
  -- key, message, signature
  pub verify : ℕ → List ℕ → ℕ → Bool
  -- `serde_json::to_vec` of a commitment and a point
  pub to_vec : ℕ → ℕ → Option (List ℕ)
  -- `none` is a point without the coordinate
  pub y_coord : ℕ → Option ℕ
  pub create_commitment_with_user_defined_randomness : ℕ → ℕ → ℕ
  pub get_r_tot : List ℕ → ℕ
  -- `none` is a panic
  pub key_aggregation_n : List ℕ → ℕ → Option KeyAgg
  -- r, key pair, hash, total R, aggregated key, message
  pub partial_sign : ℕ → ℕ → ℕ → ℕ → ℕ → List ℕ → ℕ
