-- ===== src/Recovery/LeaderNode.antt =====
-- mpc-recovery/src/leader_node/mod.rs, transaction.rs, key_recovery.rs, nar.rs: the leader node, which
-- asks all sign nodes and puts their answers together; mpc-recovery/src/firewall/allowed.rs: the
-- partners; mpc-recovery/src/error.rs: its errors.
pub mod Refusals
pub mod Accounts
pub mod Start
pub mod Recoverable
use mpc_recovery.Prelude.{
  ℕ, zero, suc, ◌==◌, ◌&&◌, Bool, true, false, List, [], ◌∷◌, Option, none, some, map, leb,
  if◌then◌else◌,
}
use mpc_recovery.Recovery.Answer.{Answer, ok, err, panicked, ◌>>=◌, ok_or, unwrap, check, map_err}
use mpc_recovery.Recovery.EdDsa.{EdDsa, SignSecondMsg}
use mpc_recovery.Recovery.AggregateSigner.{
  AggregateSigningError, SignedCommitment, to_dalek_signature, to_dalek_public_key,
}
use mpc_recovery.Recovery.Oauth.{
  Text, eq_text, IdTokenClaims, OidcError, OidcProvider, Jwt, verify_oidc_token,
}
use mpc_recovery.Recovery.SignNode.{
  ClaimOidcNodeRequest, SignShareNodeRequest, PublicKeyNodeRequest,
}
use mpc_recovery.Recovery.SignNode.Handlers.{
  SignNodeRequest, claim_oidc, sign_share, aggregate_code,
}

pub data LeaderNodeError : Type 0 where
  client_error : ℕ → LeaderNodeError
  server_error : LeaderNodeError
  data_conversion_failure : LeaderNodeError
  aggregate_signing_failed : AggregateSigningError → LeaderNodeError
  malformed_delegate_action : LeaderNodeError
  signature_verification_failed : LeaderNodeError
  relayer_error : LeaderNodeError
  timeout_gathering_public_keys : LeaderNodeError
  oidc_verification_failed : OidcError → LeaderNodeError
  recovery_key_can_not_be_deleted : ℕ → LeaderNodeError
  account_deletion_unsupported : LeaderNodeError
  failed_to_retrieve_recovery_pk : LeaderNodeError
  network_rejection : Option ℕ → LeaderNodeError
  other : LeaderNodeError

-- `LeaderNodeError::code`
unfoldable pub leader_code : LeaderNodeError → ℕ
unfolding aggregate_code
leader_code (client_error status) = status
leader_code server_error = 500
leader_code data_conversion_failure = 400
leader_code (aggregate_signing_failed e) = aggregate_code e
leader_code malformed_delegate_action = 400
leader_code signature_verification_failed = 400
leader_code relayer_error = 424
leader_code timeout_gathering_public_keys = 500
leader_code (oidc_verification_failed e) = 401
leader_code (recovery_key_can_not_be_deleted key) = 400
leader_code account_deletion_unsupported = 400
leader_code failed_to_retrieve_recovery_pk = 401
leader_code (network_rejection none) = 408
leader_code (network_rejection (some status)) = status
leader_code other = 500

abbrev pub Leader : Type 0 → Type 0
Leader T = Answer LeaderNodeError T

-- What comes back of a call: nothing, with a status of the error if there is one; a body that cannot
-- be read; a result; or an error under a status.
pub data Reply (T : Type 0) : Type 0 where
  unreachable : Option ℕ → Reply T
  unreadable : Reply T
  good : T → Reply T
  bad : ℕ → Reply T

unfoldable pub read_reply : {T : Type 0} → Reply T → Leader T
read_reply (unreachable status) = err (network_rejection status)
read_reply unreadable = err data_conversion_failure
read_reply (good t) = ok t
read_reply (bad status) =
    if leb 400 status && leb status 499 then err (client_error status) else err server_error

-- `call_all_nodes`: the results of all nodes in their order, or the first error.
unfoldable pub call_all_nodes : {T : Type 0} → (ℕ → Reply T) → List ℕ → Leader (List T)
unfolding read_reply
call_all_nodes call [] = ok []
call_all_nodes call (node ∷ nodes) = do
  result ← read_reply (call node)
  results ← call_all_nodes call nodes
  ok (result ∷ results)

-- `nar::retry`, with a number of further attempts; the task is given the number of the attempt.
unfoldable pub retry : {T : Type 0} → (ℕ → Leader T) → ℕ → ℕ → Leader T
retry task zero attempt = task attempt
retry task (suc more) attempt = elim (task attempt) [
  | ok t ↦ ok t
  | err e ↦ retry task more (suc attempt)
  | panicked ↦ panicked
]

-- `DeleteKey`, `DeleteAccount` and the other actions of a delegate action.
pub data Action : Type 0 where
  delete_key : ℕ → Action
  delete_account : ℕ → Action
  another : ℕ → Action

unfoldable pub delete_key_actions : List Action → List ℕ
delete_key_actions [] = []
delete_key_actions (delete_key key ∷ actions) = key ∷ delete_key_actions actions
delete_key_actions (_ ∷ actions) = delete_key_actions actions

unfoldable pub delete_account_actions : List Action → List ℕ
delete_account_actions [] = []
delete_account_actions (delete_account beneficiary ∷ actions) =
    beneficiary ∷ delete_account_actions actions
delete_account_actions (_ ∷ actions) = delete_account_actions actions

pub record SignRequest : Type 0 where
  pub delegate_action : ℕ
  pub oidc_token : Text
  pub frp_signature : ℕ
  pub user_credentials_frp_signature : ℕ
  pub frp_public_key : ℕ

pub record FastAuthPartner : Type 0 where
  pub oidc_provider : OidcProvider
  pub relayer : ℕ

abbrev pub oidc_providers : List FastAuthPartner → List OidcProvider
oidc_providers partners = map (λ p. p.oidc_provider) partners

-- The libraries, and what each sign node replies at an attempt. A delegate action stands as a number
-- with its actions; `none` is bytes that are not one. `add_signature_parts` panics without parts.
pub record Network : Type 0 where
  pub eddsa : EdDsa
  pub jwt : Jwt
  pub add_signature_parts : List ℕ → Option ℕ
  pub try_from_slice : ℕ → Option ℕ
  pub actions : ℕ → List Action
  pub commit : ℕ → SignNodeRequest → ℕ → Reply SignedCommitment
  pub reveal : ℕ → List SignedCommitment → ℕ → Reply SignSecondMsg
  pub signature_share : ℕ → List SignSecondMsg → ℕ → Reply ℕ
  pub public_key : ℕ → PublicKeyNodeRequest → ℕ → Reply ℕ

pub record LeaderState : Type 0 where
  pub sign_nodes : List ℕ
  pub partners : List FastAuthPartner
  pub fetched : Option (List Text)

module _ (N : Network) where
  unfoldable pub sign_payload_with_mpc : List ℕ → SignNodeRequest → ℕ → Leader ℕ
  unfolding call_all_nodes to_dalek_signature
  sign_payload_with_mpc sign_nodes request attempt = do
    commitments ← call_all_nodes (N.commit attempt request) sign_nodes
    reveals ← call_all_nodes (N.reveal attempt commitments) sign_nodes
    signature_shares ← call_all_nodes (N.signature_share attempt reveals) sign_nodes
    raw_sig ← unwrap (N.add_signature_parts signature_shares)
    map_err aggregate_signing_failed (to_dalek_signature N.eddsa raw_sig)

  -- `get_user_recovery_pk`
  unfoldable pub get_user_recovery_pk : List ℕ → PublicKeyNodeRequest → ℕ → Leader ℕ
  unfolding call_all_nodes to_dalek_public_key
  get_user_recovery_pk sign_nodes request attempt = do
    res ← call_all_nodes (N.public_key attempt request) sign_nodes
    agg ← unwrap (N.eddsa.key_aggregation_n res 0)
    map_err aggregate_signing_failed (to_dalek_public_key N.eddsa agg.apk)

  -- The loop over the keys that are to be deleted.
  unfoldable pub check_delete_keys : ℕ → List ℕ → Leader (Unit {0})
  check_delete_keys recovery_pk [] = ok tt
  check_delete_keys recovery_pk (key ∷ keys) =
      let rest = check_delete_keys recovery_pk keys in
      if key == recovery_pk then err (recovery_key_can_not_be_deleted key) else rest

  unfoldable pub check_delete_accounts : List ℕ → Leader (Unit {0})
  check_delete_accounts [] = ok tt
  check_delete_accounts (_ ∷ _) = err account_deletion_unsupported

  unfoldable pub verified : LeaderState → Text → Leader IdTokenClaims
  unfolding verify_oidc_token
  verified s token =
      map_err oidc_verification_failed
        (verify_oidc_token N.jwt token (some (oidc_providers s.partners)) s.fetched)

  abbrev pub credentials_of : SignRequest → PublicKeyNodeRequest
  credentials_of request = record {
    oidc_token = request.oidc_token;
    frp_signature = request.user_credentials_frp_signature;
    frp_public_key = request.frp_public_key;
  }

  -- The recovery key, for which there are five attempts.
  unfoldable pub recovery_pk : LeaderState → PublicKeyNodeRequest → Leader ℕ
  unfolding retry get_user_recovery_pk
  recovery_pk s request = retry (get_user_recovery_pk s.sign_nodes request) 4 0

  -- `process_user_credentials`
  unfoldable pub process_user_credentials : LeaderState → PublicKeyNodeRequest → Leader ℕ
  unfolding verified recovery_pk
  process_user_credentials s request = do _ ← verified s request.oidc_token; recovery_pk s request

  -- `get_mpc_signature`
  unfoldable pub get_mpc_signature : LeaderState → SignRequest → ℕ → ℕ → Leader ℕ
  unfolding sign_payload_with_mpc
  get_mpc_signature s request delegate_action attempt =
      sign_payload_with_mpc s.sign_nodes
        (sign_share (record {
          oidc_token = request.oidc_token;
          delegate_action = delegate_action;
          frp_signature = request.frp_signature;
          frp_public_key = request.frp_public_key;
        }))
        attempt

  -- `process_sign`
  unfoldable pub process_sign : LeaderState → SignRequest → Leader ℕ
  unfolding verified recovery_pk check_delete_keys check_delete_accounts delete_key_actions
      delete_account_actions retry get_mpc_signature
  process_sign s request = do
    delegate_action ← ok_or malformed_delegate_action (N.try_from_slice request.delegate_action)
    _ ← verified s request.oidc_token
    key ← map_err (λ _. failed_to_retrieve_recovery_pk) (recovery_pk s (credentials_of request))
    _ ← check_delete_keys key (delete_key_actions (N.actions delegate_action))
    _ ← check_delete_accounts (delete_account_actions (N.actions delegate_action))
    retry (get_mpc_signature s request delegate_action) 4 0

  -- `claim_oidc`, `sign` and `user_credentials`, with the status of the response; a panic gives none.
  unfoldable pub claim_oidc_response : LeaderState → ClaimOidcNodeRequest → Option ℕ × Leader ℕ
  unfolding sign_payload_with_mpc
  claim_oidc_response s request =
      let res = sign_payload_with_mpc s.sign_nodes (claim_oidc request) 0 in
      (elim res [ ok _ ↦ some 200 | err _ ↦ some 400 | panicked ↦ none ], res)

  unfoldable pub with_status : Leader ℕ → Option ℕ × Leader ℕ
  unfolding leader_code
  with_status res =
      (elim res [ ok _ ↦ some 200 | err e ↦ some (leader_code e) | panicked ↦ none ], res)

  abbrev pub sign_response : LeaderState → SignRequest → Option ℕ × Leader ℕ
  sign_response s request = with_status (process_sign s request)

  abbrev pub user_credentials_response : LeaderState → PublicKeyNodeRequest → Option ℕ × Leader ℕ
  user_credentials_response s request = with_status (process_user_credentials s request)
