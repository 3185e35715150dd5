-- ===== src/Recovery/Tests/Nodes.antt =====
-- A user who claims a token and asks for a share (mpc-recovery/src/sign_node/mod.rs).
use mpc_recovery.Prelude.{◌≡◌, refl, true, false, [], ◌∷◌, none, some, length}
use mpc_recovery.Collections.HashMap
use mpc_recovery.Collections.HashMap.{number}
use mpc_recovery.Recovery.Answer.{ok}
use mpc_recovery.Recovery.AggregateSigner.{
  SignedCommitment, get, commit, create, serialize, to_dalek_signature,
}
use mpc_recovery.Recovery.SigningState.{get_commitment, keep_committed}
use mpc_recovery.Recovery.Oauth.{
  verify_oidc_token, validate_any, validate_jwt, decode, rsplit, check_provider,
  get_internal_account_id, eq_text,
}
use mpc_recovery.Recovery.Utils.{
  digest_hash, check_digest_signature, claim_oidc_request_digest, claim_oidc_response_digest,
  sign_request_digest, get_salt,
}
use mpc_recovery.Recovery.UserCredentials
use mpc_recovery.Recovery.UserCredentials.{decrypt_key_pair}
use mpc_recovery.Recovery.SignNode.{
  SignNodeState, ClaimOidcNodeRequest, SignShareNodeRequest, Meeting, Services, and_then,
}
use mpc_recovery.Recovery.SignNode.Process.{
  claim, commit_to, process_claim, check_claimed, get_or_generate_user_creds, check_request,
  process_share,
}
use mpc_recovery.Recovery.SignNode.Handlers.{
  keys_not_saved, already_initialized, starts, run, step, start, responds, accept_pk_set,
}
use mpc_recovery.Recovery.SignNode.Owners.{claim_is_exclusive}
use mpc_recovery.Recovery.SignNode.Keys.{unsaved_keys_forgotten}
use mpc_recovery.Recovery.Tests.{toy, info, reader, token}

abbrev services : Services
services = record {
  eddsa = toy;
  jwt = reader;
  digests = record { sha256 = λ parts. length parts; verify = λ key digest signature. true };
  cipher = record {
    encrypt = λ nonce content. some content;
    decrypt = λ nonce content. some content;
    to_vec = λ k. some (k ∷ []);
    from_slice = λ b. some (length b);
  };
  signable_hash = λ action. some action;
  node_key = 5;
}

abbrev meeting : Meeting
meeting = record {
  fetched = some ((8 ∷ []) ∷ []);
  reads_digest = true;
  writes_digest = true;
  reads_credentials = true;
  writes_credentials = true;
  writes_pk_set = false;
  key_pair = 3;
  random = 10;
}

abbrev ready : SignNodeState
ready = record {
  gcp_service = record { digests = []; credentials = []; pk_sets = (0, 105 ∷ 106 ∷ []) ∷ [] };
  signing_state = record { committed = []; revealed = [] };
  node_info = info;
}

-- The hash of the token is 1, as it has one part.
abbrev claims_token : ClaimOidcNodeRequest
claims_token = record { oidc_token_hash = 1; public_key = 40; signature = 41 }

abbrev asks_share : SignShareNodeRequest
asks_share = record {
  oidc_token = token;
  delegate_action = 9;
  frp_signature = 42;
  frp_public_key = 40;
}

evaluation : Unit {0}
unfolding HashMap.get HashMap.insert HashMap.remove commit create serialize to_dalek_signature
    get_commitment keep_committed verify_oidc_token validate_any validate_jwt decode rsplit
    check_provider get_internal_account_id eq_text digest_hash check_digest_signature
    claim_oidc_request_digest claim_oidc_response_digest sign_request_digest get_salt
    UserCredentials.new decrypt_key_pair and_then claim commit_to process_claim check_claimed
    get_or_generate_user_creds check_request process_share run step start
evaluation = tt

-- The node signs the answer to the claim with its own key.
abbrev answer : SignedCommitment
answer = record {
  commitment = 60;
  signing_public_key = 105;
  signing_public_key_sig = 5;
  signature = 5;
}

abbrev share_answer : SignedCommitment
share_answer = record {
  commitment = 60;
  signing_public_key = 101;
  signing_public_key_sig = 1;
  signature = 5;
}

is_claimed : (process_claim services meeting claims_token ready).1 ≡ ok answer
unfolding evaluation
is_claimed = refl

same_hash : digest_hash services.digests token ≡ 1
unfolding evaluation
same_hash = refl

is_signed :
    (process_share services meeting asks_share
      (run services (starts true ∷ []) (process_claim services meeting claims_token ready).0)).1
    ≡ ok share_answer
unfolding evaluation
is_signed = refl

claim_is_exclusive_example : asks_share.frp_public_key ≡ claims_token.public_key
claim_is_exclusive_example =
    claim_is_exclusive services meeting meeting claims_token asks_share (starts true ∷ []) ready
      answer share_answer is_claimed same_hash is_signed

abbrev unset : SignNodeState
unset = record {
  gcp_service = record { digests = []; credentials = []; pk_sets = [] };
  signing_state = record { committed = []; revealed = [] };
  node_info = record { nodes_public_keys = none; our_index = 0 };
}

abbrev set : SignNodeState
set = record unset {
  node_info = record { nodes_public_keys = some (105 ∷ 106 ∷ []); our_index = 0 };
}

unsaved_keys_forgotten_example :
    (accept_pk_set services meeting (105 ∷ 106 ∷ []) unset
      ≡ (set, responds 500 (some keys_not_saved)))
    × (accept_pk_set services meeting (105 ∷ 106 ∷ []) set
        ≡ (set, responds 200 (some already_initialized)))
    × ((start services true set.gcp_service 0).node_info.nodes_public_keys ≡ none)
unfolding get HashMap.get
unsaved_keys_forgotten_example =
    unsaved_keys_forgotten services meeting meeting (105 ∷ 106 ∷ []) unset true refl refl refl refl
