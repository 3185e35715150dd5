-- ===== src/Recovery/LeaderNode/Accounts.antt =====
-- mpc-recovery/src/leader_node/mod.rs, transaction.rs: the creation of an account by the leader node.
use mpc_recovery.Prelude.{
  ℕ, ◌+◌, ◌++◌, ◌&&◌, Bool, List, [], ◌∷◌, Option, none, some, u64, if◌then◌else◌,
}
use mpc_recovery.Recovery.Answer.{ok, ◌>>=◌, ok_or, check}
use mpc_recovery.Recovery.Oauth.{Text, eq_text, IdTokenClaims, get_internal_account_id}
use mpc_recovery.Recovery.Utils.{Digests, user_credentials_request_digest, check_digest_signature}
use mpc_recovery.Recovery.SignNode.{PublicKeyNodeRequest}
use mpc_recovery.Recovery.LeaderNode.{
  Leader, signature_verification_failed, relayer_error, other, FastAuthPartner, Network,
  LeaderState, retry, verified, recovery_pk,
}

pub record CreateAccountOptions : Type 0 where
  pub full_access_keys : Option (List ℕ)
  pub limited_access_keys : Option (List ℕ)
  pub contract_bytes : Option (List ℕ)

pub record NewAccountRequest : Type 0 where
  pub near_account_id : ℕ
  pub create_account_options : CreateAccountOptions
  pub oidc_token : Text
  pub user_credentials_frp_signature : ℕ
  pub frp_public_key : ℕ

-- The call of `create_account_advanced`, with its arguments.
pub record CreateAccountAction : Type 0 where
  pub new_account_id : ℕ
  pub options : CreateAccountOptions
  pub gas : ℕ
  pub deposit : ℕ

-- `DelegateAction`, of the one action.
pub record DelegateAction : Type 0 where
  pub sender_id : ℕ
  pub receiver_id : ℕ
  pub action : CreateAccountAction
  pub nonce : ℕ
  pub max_block_height : ℕ
  pub public_key : ℕ

pub record SignedDelegateAction : Type 0 where
  pub delegate_action : DelegateAction
  pub signature : ℕ

pub record CreateAccountAtomicRequest : Type 0 where
  pub account_id : ℕ
  pub allowance : ℕ
  pub oauth_token : Text
  pub signed_delegate_action : SignedDelegateAction

pub record NewAccount : Type 0 where
  pub create_account_options : CreateAccountOptions
  pub user_recovery_public_key : ℕ
  pub near_account_id : ℕ

-- What the leader is given at an attempt: the signer whose turn it is, an account and its key; the
-- height and the nonce that it finds for them; and whether the relayer creates the account. `signs`
-- gives the signature of a delegate action by the key of an account.
pub record Chain : Type 0 where
  pub digests : Digests
  pub near_root_account : ℕ
  pub signer : ℕ → ℕ × ℕ
  pub access_key : ℕ → ℕ × ℕ → Option (ℕ × ℕ)
  pub is_non_delegate : CreateAccountAction → Bool
  pub signs : ℕ × ℕ → DelegateAction → ℕ
  pub create_account_atomic : ℕ → CreateAccountAtomicRequest → ℕ → Bool

-- `PartnerList::find`
unfoldable pub find : Text → Text → List FastAuthPartner → Option FastAuthPartner
unfolding eq_text
find issuer audience [] = none
find issuer audience (p ∷ partners) =
    let rest = find issuer audience partners in
    if eq_text p.oidc_provider.issuer issuer && eq_text p.oidc_provider.audience audience
    then some p
    else rest

-- The recovery key becomes the last of the keys with full access.
abbrev pub with_key : ℕ → Option (List ℕ) → List ℕ
with_key key none = key ∷ []
with_key key (some keys) = keys ++ key ∷ []

module _ (N : Network) (K : Chain) where
  -- `new_create_account_delegate_action`
  unfoldable pub new_create_account_delegate_action :
      ℕ × ℕ → ℕ → CreateAccountOptions → ℕ → ℕ → ℕ → Leader SignedDelegateAction
  new_create_account_delegate_action signer new_account_id options near_root_account nonce
        max_block_height =
      let create_acc_action : CreateAccountAction = record {
        new_account_id = new_account_id;
        options = options;
        gas = 300000000000000;
        deposit = 0;
      } in
      let delegate_action : DelegateAction = record {
        sender_id = signer.0;
        receiver_id = near_root_account;
        action = create_acc_action;
        nonce = nonce;
        max_block_height = max_block_height;
        public_key = signer.1;
      } in
      check other (K.is_non_delegate create_acc_action) >>= (λ _.
        ok (record {
          delegate_action = delegate_action;
          signature = K.signs signer delegate_action;
        }))

  abbrev pub options_for : NewAccountRequest → ℕ → CreateAccountOptions
  options_for request key = record request.create_account_options {
    full_access_keys = some (with_key key request.create_account_options.full_access_keys);
  }

  -- One attempt to create the account.
  unfoldable pub create_account :
      NewAccountRequest → IdTokenClaims → FastAuthPartner → ℕ → ℕ → Leader NewAccount
  unfolding new_create_account_delegate_action get_internal_account_id
  create_account request claims partner key attempt = do
    (block_height, nonce) ← ok_or relayer_error (K.access_key attempt (K.signer attempt))
    signed ←
        new_create_account_delegate_action (K.signer attempt) request.near_account_id
          (options_for request key) K.near_root_account nonce (u64 (block_height + 100))
    _ ← check relayer_error (
        K.create_account_atomic attempt
          (record {
            account_id = request.near_account_id;
            allowance = 300000000000000;
            oauth_token = get_internal_account_id claims;
            signed_delegate_action = signed;
          })
          partner.relayer)
    ok (record {
      create_account_options = options_for request key;
      user_recovery_public_key = key;
      near_account_id = request.near_account_id;
    })

  abbrev pub credentials_for : NewAccountRequest → PublicKeyNodeRequest
  credentials_for request = record {
    oidc_token = request.oidc_token;
    frp_signature = request.user_credentials_frp_signature;
    frp_public_key = request.frp_public_key;
  }

  abbrev pub is_from_user : NewAccountRequest → Bool
  is_from_user request =
      check_digest_signature K.digests request.frp_public_key request.user_credentials_frp_signature
        (user_credentials_request_digest K.digests request.oidc_token request.frp_public_key)

  -- `process_new_account`
  unfoldable pub process_new_account : LeaderState → NewAccountRequest → Leader NewAccount
  unfolding verified check_digest_signature user_credentials_request_digest find recovery_pk retry
      create_account
  process_new_account s request = do
    claims ← verified N s request.oidc_token
    _ ← check signature_verification_failed (is_from_user request)
    partner ← ok_or other (find claims.iss claims.aud s.partners)
    key ← recovery_pk N s (credentials_for request)
    retry (create_account request claims partner key) 4 0
