-- ===== src/Recovery/SignNode/Handlers.antt =====
-- mpc-recovery/src/sign_node/mod.rs, pk_set.rs: the handlers of the sign node, and its start;
-- mpc-recovery/src/error.rs: the codes of its errors.
use mpc_recovery.Prelude.{
  ◌&&◌, not, ◌∷◌, ℕ, Bool, false, List, [], Option, none, some, ◌==◌, is_some, if◌then◌else◌,
}
use mpc_recovery.Collections.HashMap
use mpc_recovery.Collections.HashMap.{Equality, number, pair, both}
use mpc_recovery.Recovery.Answer.{Answer, ok, err, panicked}
use mpc_recovery.Recovery.EdDsa.{SignSecondMsg}
use mpc_recovery.Recovery.AggregateSigner.{SignedCommitment, SigningState, get}
use mpc_recovery.Recovery.Oauth.{eq_text}
use mpc_recovery.Recovery.SignNode.{
  SignNodeError, Datastore, SignNodeState, ClaimOidcNodeRequest, SignShareNodeRequest,
  PublicKeyNodeRequest, Meeting, Services, Handled, digest_signature_verification_failed,
  oidc_verification_failed, oidc_token_already_claimed, oidc_token_claimed_with_another_key,
  oidc_token_not_claimed, other,
}
use mpc_recovery.Recovery.SignNode.Process.{process_claim, process_share, process_public_key}
use mpc_recovery.Recovery.AggregateSigner.{AggregateSigningError}
use mpc_recovery.Recovery.SigningState.{get_reveal, get_signature_share}

-- `AggregateSigningError::code`: each is a bad request.
unfoldable pub aggregate_code : AggregateSigningError → ℕ
aggregate_code e = 400

-- `SignNodeError::code`
unfoldable pub code : SignNodeError → ℕ
code digest_signature_verification_failed = 401
code (oidc_verification_failed _) = 400
code (oidc_token_already_claimed _) = 401
code (oidc_token_claimed_with_another_key _) = 401
code (oidc_token_not_claimed _) = 401
code other = 500

-- A response: its status, and the value if there is one. A panic closes the connection.
pub data Response (T : Type 0) : Type 0 where
  responds : ℕ → Option T → Response T
  breaks : Response T

unfoldable pub respond : {E T : Type 0} → (E → ℕ) → Answer E T → Response T
respond code (ok t) = responds 200 (some t)
respond code (err e) = responds (code e) none
respond code panicked = breaks

pub data SignNodeRequest : Type 0 where
  claim_oidc : ClaimOidcNodeRequest → SignNodeRequest
  sign_share : SignShareNodeRequest → SignNodeRequest

-- The texts with which `accept_pk_set` answers where it does not refuse.
pub data PkSetAnswer : Type 0 where
  already_initialized keys_set keys_not_saved : PkSetAnswer

pub data Event : Type 0 where
  commits : Meeting → SignNodeRequest → Event
  reveals : List SignedCommitment → Event
  shares : List SignSecondMsg → Event
  asks_public_key : Meeting → PublicKeyNodeRequest → Event
  accepts : Meeting → List ℕ → Event
  starts : Bool → Event

-- `pk_set == &request.public_keys`
unfoldable pub eq_keys : List ℕ → List ℕ → Bool
unfolding eq_text
eq_keys a b = eq_text a b

abbrev pub is_key : Option ℕ → ℕ → Bool
is_key none key = false
is_key (some k) key = k == key

module _ (S : Services) where
  unfoldable pub process_commit :
      Meeting → SignNodeRequest → SignNodeState → Handled SignedCommitment
  unfolding process_claim process_share
  process_commit m (claim_oidc request) s = process_claim S m request s
  process_commit m (sign_share request) s = process_share S m request s

  -- The answer, if the keys of the nodes are known.
  unfoldable pub when_ready :
      {T : Type 0} → SignNodeState → SignNodeState × Response T → SignNodeState × Response T
  when_ready s handled =
      if is_some s.node_info.nodes_public_keys then handled else (s, responds 500 none)

  unfoldable pub commit :
      Meeting → SignNodeRequest → SignNodeState → SignNodeState × Response SignedCommitment
  unfolding when_ready process_commit respond code
  commit m request s =
      let (s', answer) = process_commit m request s in when_ready s (s', respond code answer)

  abbrev pub with_signing : SignNodeState → SigningState → SignNodeState
  with_signing s signing_state = record s { signing_state = signing_state }

  unfoldable pub reveal :
      List SignedCommitment → SignNodeState → SignNodeState × Response SignSecondMsg
  unfolding when_ready get_reveal respond aggregate_code
  reveal commitments s =
      let (signing, answer) = get_reveal S.eddsa s.node_info commitments s.signing_state in
      when_ready s (with_signing s signing, respond aggregate_code answer)

  unfoldable pub signature_share : List SignSecondMsg → SignNodeState → SignNodeState × Response ℕ
  unfolding when_ready get_signature_share respond aggregate_code
  signature_share parts s =
      let (signing, answer) = get_signature_share S.eddsa s.node_info parts s.signing_state in
      when_ready s (with_signing s signing, respond aggregate_code answer)

  unfoldable pub public_key :
      Meeting → PublicKeyNodeRequest → SignNodeState → SignNodeState × Response ℕ
  unfolding process_public_key respond code
  public_key m request s =
      let (s', answer) = process_public_key S m request s in (s', respond code answer)

  -- The keys are set before they are stored, and stay set where that fails: where the storage does not
  -- answer, or has a set already.
  unfoldable pub set_keys : Meeting → List ℕ → SignNodeState → SignNodeState × Response PkSetAnswer
  unfolding HashMap.get HashMap.insert
  set_keys m keys s =
      let s' : SignNodeState = record s {
        node_info = record s.node_info { nodes_public_keys = some keys };
      } in
      if m.writes_pk_set
        && not (is_some (HashMap.get number s.node_info.our_index s.gcp_service.pk_sets))
      then (
        record s' {
          gcp_service = record s.gcp_service {
            pk_sets = HashMap.insert number s.node_info.our_index keys s.gcp_service.pk_sets;
          };
        },
        responds 200 (some keys_set),
      )
      else (s', responds 500 (some keys_not_saved))

  unfoldable pub accept_pk_set :
      Meeting → List ℕ → SignNodeState → SignNodeState × Response PkSetAnswer
  unfolding get set_keys eq_keys
  accept_pk_set m keys s =
      if is_key (get keys s.node_info.our_index) (S.eddsa.public_key S.node_key)
      then (elim s.node_info.nodes_public_keys [
        | some known ↦ (
          s,
          if eq_keys known keys then responds 200 (some already_initialized) else responds 400 none,
        )
        | none ↦ set_keys m keys s
      ])
      else (s, responds 400 none)

  -- `run`: the state after a start, with the stored keys if they can be read.
  unfoldable pub start : Bool → Datastore → ℕ → SignNodeState
  unfolding HashMap.get
  start reads datastore our_index = record {
    gcp_service = datastore;
    signing_state = record { committed = []; revealed = [] };
    node_info = record {
      nodes_public_keys = if reads then HashMap.get number our_index datastore.pk_sets else none;
      our_index = our_index;
    };
  }

  -- What happens to a node: a request to one of its handlers, or a start anew.
  unfoldable pub step : Event → SignNodeState → SignNodeState
  unfolding commit reveal signature_share public_key accept_pk_set start
  step (commits m request) s = (commit m request s).0
  step (reveals commitments) s = (reveal commitments s).0
  step (shares parts) s = (signature_share parts s).0
  step (asks_public_key m request) s = (public_key m request s).0
  step (accepts m keys) s = (accept_pk_set m keys s).0
  step (starts reads) s = start reads s.gcp_service s.node_info.our_index

  unfoldable pub run : List Event → SignNodeState → SignNodeState
  unfolding step
  run [] s = s
  run (event ∷ events) s = run events (step event s)
