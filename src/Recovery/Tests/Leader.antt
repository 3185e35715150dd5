-- ===== src/Recovery/Tests/Leader.antt =====
-- A leader with two sign nodes (mpc-recovery/src/leader_node/mod.rs).
use mpc_recovery.Prelude.{◌≡◌, refl, [], ◌∷◌, none, some, true, ◌==◌, length, zero, suc}
use mpc_recovery.Recovery.Answer.{ok}
use mpc_recovery.Recovery.AggregateSigner.{to_dalek_signature, to_dalek_public_key}
use mpc_recovery.Recovery.Oauth.{
  eq_text, contains, get_internal_account_id, verify_oidc_token, validate_any, validate_jwt, decode,
  rsplit, check_provider,
}
use mpc_recovery.Recovery.LeaderNode.{
  unreachable, good, read_reply, call_all_nodes, retry, delete_key, another, delete_key_actions,
  delete_account_actions, SignRequest, Network, LeaderState, sign_payload_with_mpc,
  get_user_recovery_pk, check_delete_keys, check_delete_accounts, verified, recovery_pk,
  get_mpc_signature, process_sign,
}
use mpc_recovery.Recovery.Utils.{check_digest_signature, user_credentials_request_digest}
use mpc_recovery.Recovery.LeaderNode.Accounts.{
  Chain, NewAccountRequest, NewAccount, process_new_account, create_account,
  new_create_account_delegate_action, find,
}
use mpc_recovery.Recovery.LeaderNode.Recoverable.{IsRecoverable, new_account-IsRecoverable}
use mpc_recovery.Recovery.LeaderNode.Refusals.{IsAuthorized, sign-IsAuthorized}
use mpc_recovery.Recovery.Tests.{toy, reader, token, ours}

-- The first attempt to commit fails. The recovery key is 7, and the action deletes the key 5.
abbrev network : Network
network = record {
  eddsa = toy;
  jwt = reader;
  add_signature_parts = λ shares. some (length shares);
  try_from_slice = λ bytes. some bytes;
  actions = λ action. another action ∷ delete_key 5 ∷ [];
  commit =
      λ attempt request node. elim attempt [ zero ↦ unreachable (some 503) | suc n ↦ good ours ];
  reveal = λ attempt commitments node. good (record { r = 11; blind_factor = 12 });
  signature_share = λ attempt reveals node. good 9;
  public_key = λ attempt request node. good 30;
}

abbrev leader : LeaderState
leader = record {
  sign_nodes = 0 ∷ 1 ∷ [];
  partners =
      record { oidc_provider = record { issuer = 1 ∷ []; audience = 3 ∷ [] }; relayer = 0 } ∷ [];
  fetched = some ((8 ∷ []) ∷ []);
}

abbrev request : SignRequest
request = record {
  delegate_action = 40;
  oidc_token = token;
  frp_signature = 1;
  user_credentials_frp_signature = 2;
  frp_public_key = 3;
}

signs : process_sign network leader request ≡ ok 2
unfolding process_sign verified recovery_pk check_delete_keys check_delete_accounts
    delete_key_actions delete_account_actions retry get_mpc_signature get_user_recovery_pk
    sign_payload_with_mpc call_all_nodes read_reply to_dalek_signature to_dalek_public_key
    verify_oidc_token validate_any validate_jwt decode rsplit check_provider contains eq_text
signs = refl

sign-IsAuthorized_example : IsAuthorized network leader request 2
sign-IsAuthorized_example = sign-IsAuthorized network leader request 2 signs

-- The first attempt finds no access key.
abbrev chain : Chain
chain = record {
  digests = record { sha256 = λ parts. length parts; verify = λ key digest signature. digest == 3 };
  near_root_account = 90;
  signer = λ attempt. (91, 92);
  access_key = λ attempt signer. elim attempt [ zero ↦ none | suc n ↦ some (1000, 5) ];
  is_non_delegate = λ action. true;
  signs = λ signer action. 93;
  create_account_atomic = λ attempt request relayer. true;
}

abbrev new_account : NewAccountRequest
new_account = record {
  near_account_id = 50;
  create_account_options = record {
    full_access_keys = some (20 ∷ []);
    limited_access_keys = none;
    contract_bytes = none;
  };
  oidc_token = token;
  user_credentials_frp_signature = 2;
  frp_public_key = 3;
}

abbrev made : NewAccount
made = record {
  create_account_options = record {
    full_access_keys = some (20 ∷ 7 ∷ []);
    limited_access_keys = none;
    contract_bytes = none;
  };
  user_recovery_public_key = 7;
  near_account_id = 50;
}

makes : process_new_account network chain leader new_account ≡ ok made
unfolding process_new_account create_account new_create_account_delegate_action find
    check_digest_signature user_credentials_request_digest verified recovery_pk retry
    get_user_recovery_pk call_all_nodes read_reply to_dalek_public_key verify_oidc_token
    validate_any validate_jwt decode rsplit check_provider contains eq_text get_internal_account_id
makes = refl

new_account-IsRecoverable_example : IsRecoverable network chain leader new_account made
new_account-IsRecoverable_example =
    new_account-IsRecoverable network chain leader new_account made makes
