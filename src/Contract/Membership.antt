-- ===== src/Contract/Membership.antt =====
-- contract/src/lib.rs, the methods that change who takes part: `init`, `join`, `vote_join`,
-- `vote_leave`, `vote_pk`, `vote_reshared`, `public_key`. Each is its match on the protocol state,
-- with a function for the branch that does the work. A method returns the new contract and its
-- result.
use mpc_recovery.Prelude.{
  ℕ, ◌+◌, Bool, true, false, [], none, some, leb, ◌==◌, if◌then◌else◌, length, u64,
}
use mpc_recovery.Collections.Map
use mpc_recovery.Collections.HashSet
use mpc_recovery.Contract.Primitives.{
  AccountId, PublicKey, Participants, Candidates, CandidateInfo, participant_of_candidate,
  participants_of_candidates, voters, cast_vote,
}
use mpc_recovery.Contract.State.{
  InitializingContractState, RunningContractState, ResharingContractState, ProtocolContractState,
  not_initialized, initializing, running, resharing, MpcContract, Result, ok, panic, Env,
  already_participant, cannot_accept, cannot_kick, not_participant, not_old_participant,
  candidate_not_registered, leaver_not_participant, cannot_change_public_key, mismatched_epochs,
  not_resharing, public_key_not_available,
}

-- `init` ignores the state that it finds, but the storage behind `pending_requests` stays.
unfoldable pub init : ℕ → Candidates → MpcContract → MpcContract
init threshold candidates c = record c {
  protocol_state =
      initializing (record { candidates = candidates; threshold = threshold; pk_votes = [] });
}

unfoldable pub join_running :
    Env → ℕ → ℕ → PublicKey → RunningContractState → Result ProtocolContractState
join_running env url cipher_pk sign_pk r =
    if Map.contains_key env.signer r.participants
    then panic already_participant
    else ok (
        running (record r {
          candidates =
              Map.insert env.signer
                (record {
                  account_id = env.signer;
                  url = url;
                  cipher_pk = cipher_pk;
                  sign_pk = sign_pk;
                })
                r.candidates;
        }))

unfoldable pub join : Env → ℕ → ℕ → PublicKey → ProtocolContractState → Result ProtocolContractState
unfolding join_running
join env url cipher_pk sign_pk (running r) = join_running env url cipher_pk sign_pk r
join env url cipher_pk sign_pk _ = panic cannot_accept

-- The state in which the participants reshare towards `new_participants`.
unfoldable pub start_resharing : RunningContractState → Participants → ResharingContractState
start_resharing r new_participants = record {
  old_epoch = r.epoch;
  old_participants = r.participants;
  new_participants = new_participants;
  threshold = r.threshold;
  public_key = r.public_key;
  finished_votes = [];
}

-- The vote itself, once the guards have passed and the candidate's entry has been read.
unfoldable pub count_join :
    Env → AccountId → CandidateInfo → RunningContractState → ProtocolContractState × Bool
unfolding start_resharing
count_join env candidate info r =
    let votes = cast_vote candidate env.signer r.join_votes in
    if leb r.threshold (length (voters candidate votes))
    then (
      resharing
          (start_resharing r (Map.insert candidate (participant_of_candidate info) r.participants)),
      true,
    )
    else (running (record r { join_votes = votes }), false)

unfoldable pub vote_join_running :
    Env → AccountId → RunningContractState → Result (ProtocolContractState × Bool)
unfolding count_join
vote_join_running env candidate r =
    if Map.contains_key env.signer r.participants
    then (elim (Map.get candidate r.candidates) [
      | none ↦ panic candidate_not_registered
      | some info ↦ ok (count_join env candidate info r)
    ])
    else panic not_participant

unfoldable pub vote_join :
    Env → AccountId → ProtocolContractState → Result (ProtocolContractState × Bool)
unfolding vote_join_running
vote_join env candidate (running r) = vote_join_running env candidate r
vote_join env candidate _ = panic cannot_accept

unfoldable pub count_leave : Env → AccountId → RunningContractState → ProtocolContractState × Bool
unfolding start_resharing
count_leave env leaver r =
    let votes = cast_vote leaver env.signer r.leave_votes in
    if leb r.threshold (length (voters leaver votes))
    then (resharing (start_resharing r (Map.remove leaver r.participants)), true)
    else (running (record r { leave_votes = votes }), false)

unfoldable pub vote_leave_running :
    Env → AccountId → RunningContractState → Result (ProtocolContractState × Bool)
unfolding count_leave
vote_leave_running env leaver r =
    if Map.contains_key env.signer r.participants
    then (if Map.contains_key leaver r.participants
        then ok (count_leave env leaver r)
        else panic leaver_not_participant)
    else panic not_participant

unfoldable pub vote_leave :
    Env → AccountId → ProtocolContractState → Result (ProtocolContractState × Bool)
unfolding vote_leave_running
vote_leave env leaver (running r) = vote_leave_running env leaver r
vote_leave env leaver _ = panic cannot_kick

-- The first running state, and the state after a resharing: no candidates and no votes.
unfoldable pub fresh_running : ℕ → Participants → ℕ → PublicKey → RunningContractState
fresh_running epoch participants threshold public_key = record {
  epoch = epoch;
  participants = participants;
  threshold = threshold;
  public_key = public_key;
  candidates = [];
  join_votes = [];
  leave_votes = [];
}

unfoldable pub vote_pk_initializing :
    Env → PublicKey → InitializingContractState → Result (ProtocolContractState × Bool)
unfolding fresh_running
vote_pk_initializing env public_key i =
    let votes = cast_vote public_key env.signer i.pk_votes in
    if Map.contains_key env.signer i.candidates
    then (if leb i.threshold (length (voters public_key votes))
        then ok (
          running
              (fresh_running 0 (participants_of_candidates i.candidates) i.threshold public_key),
          true,
        )
        else ok (initializing (record i { pk_votes = votes }), false))
    else panic not_participant

unfoldable pub vote_pk :
    Env → PublicKey → ProtocolContractState → Result (ProtocolContractState × Bool)
unfolding vote_pk_initializing
vote_pk env public_key (initializing i) = vote_pk_initializing env public_key i
vote_pk env public_key (running r) =
    if r.public_key == public_key then ok (running r, true) else panic cannot_change_public_key
vote_pk env public_key (resharing r) =
    if r.public_key == public_key then ok (resharing r, true) else panic cannot_change_public_key
vote_pk env public_key not_initialized = panic cannot_change_public_key

unfoldable pub vote_reshared_resharing :
    Env → ℕ → ResharingContractState → Result (ProtocolContractState × Bool)
unfolding fresh_running
vote_reshared_resharing env epoch r =
    let votes = HashSet.insert env.signer r.finished_votes in
    if u64 (r.old_epoch + 1) == epoch
    then (if Map.contains_key env.signer r.old_participants
        then (if leb r.threshold (length votes)
            then ok (
              running (
                  fresh_running (u64 (r.old_epoch + 1)) r.new_participants r.threshold
                    r.public_key),
              true,
            )
            else ok (resharing (record r { finished_votes = votes }), false))
        else panic not_old_participant)
    else panic mismatched_epochs

unfoldable pub vote_reshared :
    Env → ℕ → ProtocolContractState → Result (ProtocolContractState × Bool)
unfolding vote_reshared_resharing
vote_reshared env epoch (resharing r) = vote_reshared_resharing env epoch r
vote_reshared env epoch (running r) =
    if r.epoch == epoch then ok (running r, true) else panic not_resharing
vote_reshared env epoch _ = panic not_resharing

-- The root public key.
unfoldable pub public_key : ProtocolContractState → Result PublicKey
public_key (running r) = ok r.public_key
public_key (resharing r) = ok r.public_key
public_key _ = panic public_key_not_available
