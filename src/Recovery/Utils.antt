-- ===== src/Recovery/Utils.antt =====
-- mpc-recovery/src/utils.rs, primitives.rs: the digests that the users sign.
use mpc_recovery.Prelude.{ℕ, ◌+◌, Bool, List, [], ◌∷◌}
use mpc_recovery.Recovery.Oauth.{Text}

pub data HashSalt : Type 0 where
  claim_oidc_request : HashSalt
  claim_oidc_response : HashSalt
  user_credentials_request : HashSalt
  sign_request : HashSalt

unfoldable pub get_salt : HashSalt → ℕ
get_salt claim_oidc_request = 3177899144 + 0
get_salt claim_oidc_response = 3177899144 + 1
get_salt user_credentials_request = 3177899144 + 2
get_salt sign_request = 3177899144 + 3

-- What the hasher is fed with: a serialized salt, hash, key, signature or action, which stands as a
-- number; a serialized token, and a token's bytes as they are.
pub data Part : Type 0 where
  number : ℕ → Part
  text : Text → Part
  raw : Text → Part

-- The hash function, and the test of a near signature: key, digest, signature.
pub record Digests : Type 0 where
  pub sha256 : List Part → ℕ
  pub verify : ℕ → ℕ → ℕ → Bool

-- Writing to a hasher does not fail.
module _ (D : Digests) where
  unfoldable pub claim_oidc_request_digest : ℕ → ℕ → ℕ
  unfolding get_salt
  claim_oidc_request_digest oidc_token_hash frp_public_key =
      D.sha256
        (number (get_salt claim_oidc_request) ∷ number oidc_token_hash ∷ number frp_public_key ∷ [])

  unfoldable pub claim_oidc_response_digest : ℕ → ℕ
  unfolding get_salt
  claim_oidc_response_digest users_signature =
      D.sha256 (number (get_salt claim_oidc_response) ∷ number users_signature ∷ [])

  unfoldable pub sign_request_digest : ℕ → Text → ℕ → ℕ
  unfolding get_salt
  sign_request_digest delegate_action oidc_token frp_public_key = D.sha256 (
      number (get_salt sign_request)
      ∷ number delegate_action
      ∷ text oidc_token
      ∷ number frp_public_key
      ∷ [])

  unfoldable pub user_credentials_request_digest : Text → ℕ → ℕ
  unfolding get_salt
  user_credentials_request_digest oidc_token frp_public_key =
      D.sha256
        (number (get_salt user_credentials_request) ∷ text oidc_token ∷ number frp_public_key ∷ [])

  unfoldable pub check_digest_signature : ℕ → ℕ → ℕ → Bool
  check_digest_signature public_key signature digest = D.verify public_key digest signature

  -- `OidcToken::digest_hash`
  unfoldable pub digest_hash : Text → ℕ
  digest_hash token = D.sha256 (raw token ∷ [])
