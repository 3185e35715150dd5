-- ===== src/Recovery/SignNode.antt =====
-- mpc-recovery/src/sign_node/mod.rs, msg.rs, oidc.rs: the state and the requests of a sign node, with
-- the datastore (mpc-recovery/src/gcp/mod.rs) as maps; mpc-recovery/src/error.rs: its errors.
pub mod Process
pub mod Handlers
pub mod Claims
pub mod Owners
pub mod Keys
use mpc_recovery.Prelude.{
  ℕ, ◌≡◌, Bool, true, false, ◌&&◌, List, [], ◌∷◌, Option, none, some, ◌==◌, is_some, if◌then◌else◌,
}
use mpc_recovery.Collections.HashMap
use mpc_recovery.Collections.HashMap.{Equality, number, pair, both}
use mpc_recovery.Recovery.Answer.{Answer, ok, err, panicked, map_err}
use mpc_recovery.Recovery.EdDsa.{EdDsa, SignSecondMsg}
use mpc_recovery.Recovery.AggregateSigner.{SignedCommitment, NodeInfo, SigningState, get}
use mpc_recovery.Recovery.SigningState.{get_commitment}
use mpc_recovery.Recovery.Oauth.{
  Text, eq_text, eq_text_sound, eq_text_same, IdTokenClaims, OidcError, Jwt, verify_oidc_token,
  get_internal_account_id,
}
use mpc_recovery.Recovery.Utils.{
  Digests, claim_oidc_request_digest, claim_oidc_response_digest, sign_request_digest,
  user_credentials_request_digest, check_digest_signature, digest_hash,
}
use mpc_recovery.Recovery.UserCredentials
use mpc_recovery.Recovery.UserCredentials.{
  EncryptedUserCredentials, Cipher, Other, decrypt_key_pair,
}

pub record OidcDigest : Type 0 where
  pub node_id : ℕ
  pub digest : ℕ
  pub public_key : ℕ

-- `==` of two digests
abbrev pub eq_digest : OidcDigest → OidcDigest → Bool
eq_digest a b = (a.node_id == b.node_id) && (a.digest == b.digest) && (a.public_key == b.public_key)

pub data SignNodeError : Type 0 where
  digest_signature_verification_failed : SignNodeError
  oidc_verification_failed : OidcError → SignNodeError
  oidc_token_already_claimed : OidcDigest → SignNodeError
  oidc_token_claimed_with_another_key : OidcDigest → SignNodeError
  oidc_token_not_claimed : OidcDigest → SignNodeError
  other : SignNodeError

abbrev pub text : Equality Text
text = record { test = eq_text; sound = eq_text_sound; same = eq_text_same }

-- The names of the digests and of the credentials are pairs: the number of the node, and the digest or
-- the account. The datastore may be shared with other nodes.
pub record Datastore : Type 0 where
  pub digests : List ((ℕ × ℕ) × OidcDigest)
  pub credentials : List ((ℕ × Text) × EncryptedUserCredentials)
  pub pk_sets : List (ℕ × List ℕ)

pub record SignNodeState : Type 0 where
  pub gcp_service : Datastore
  pub signing_state : SigningState
  pub node_info : NodeInfo

pub record ClaimOidcNodeRequest : Type 0 where
  pub oidc_token_hash : ℕ
  pub public_key : ℕ
  pub signature : ℕ

pub record SignShareNodeRequest : Type 0 where
  pub oidc_token : Text
  pub delegate_action : ℕ
  pub frp_signature : ℕ
  pub frp_public_key : ℕ

pub record PublicKeyNodeRequest : Type 0 where
  pub oidc_token : Text
  pub frp_signature : ℕ
  pub frp_public_key : ℕ

-- What a request meets: the public keys for tokens, if they can be fetched; whether the datastore
-- answers; what the random generators give: a key pair for a new user, and the nonce.
pub record Meeting : Type 0 where
  pub fetched : Option (List Text)
  pub reads_digest : Bool
  pub writes_digest : Bool
  pub reads_credentials : Bool
  pub writes_credentials : Bool
  pub writes_pk_set : Bool
  pub key_pair : ℕ
  pub random : ℕ

-- The libraries and the key of the node. `signable_hash` is the hash of the signable message of an
-- action; `none` is a failed serialization.
pub record Services : Type 0 where
  pub eddsa : EdDsa
  pub jwt : Jwt
  pub digests : Digests
  pub cipher : Cipher
  pub signable_hash : ℕ → Option ℕ
  pub node_key : ℕ

-- A handler's answer, and the state after it, which a failure leaves as it then is.
abbrev pub Handled : Type 0 → Type 0
Handled T = SignNodeState × Answer SignNodeError T

unfoldable pub and_then :
    {A B : Type 0} → SignNodeState → Answer SignNodeError A → (A → Handled B) → Handled B
and_then s (ok a) next = next a
and_then s (err e) next = (s, err e)
and_then s panicked next = (s, panicked)

-- `GcpService::get`
abbrev pub read : {T : Type 0} → Bool → Option T → Answer SignNodeError (Option T)
read true found = ok found
read false found = err other
