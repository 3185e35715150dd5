-- ===== src/Contract/Invariant.antt =====
-- What holds of the contract's protocol state (contract/src/lib.rs) between two calls.
use mpc_recovery.Prelude.{
  u64, ◌+◌, ◌==◌, inl, inr, Bool-cases, ℕ, ◌≡◌, Bool, true, false, List, [], ◌∷◌, arith,
  if◌then◌else◌,
}
use mpc_recovery.Collections.Map
use mpc_recovery.Contract.Primitives.{
  AccountId, PublicKey, Candidates, Participants, CandidateInfo, participant_of_candidate,
  participants_of_candidates,
}
use mpc_recovery.Contract.State.{
  InitializingContractState, RunningContractState, ResharingContractState, ProtocolContractState,
  not_initialized, initializing, running, resharing, MpcContract, ok, panic, Env, Panic,
}
use mpc_recovery.Contract.Membership.{
  init, join, join_running, vote_join, vote_join_running, count_join, vote_leave,
  vote_leave_running, count_leave, vote_pk, vote_pk_initializing, vote_reshared,
  vote_reshared_resharing, start_resharing, fresh_running,
}
use mpc_recovery.Contract.Calls.{
  Call, inits, cleans, collect, joins, votes_join, votes_leave, votes_pk, votes_reshared, commit,
  commit_state, step_protocol, step, run,
}
use mpc_recovery.Contract.Requests.{clean}
use mpc_recovery.Contract.Ballots.{IsOpenBallot, cast_vote-Values, insert-IsOpenBallot}
use mpc_recovery.Contract.Conversion.{participants_of_candidates-IsSorted}

pub record IsValidInitializing (i : InitializingContractState) : Type 0 where
  pub candidates_sorted : Map.IsSorted i.candidates
  pub pk_ballots : Map.Values (IsOpenBallot i.candidates i.threshold) i.pk_votes

-- No candidate is a participant.
abbrev pub Apart : Candidates → Participants → Type 0
Apart candidates participants =
    (account : AccountId)
    → Map.contains_key account candidates ≡ true
    → Map.contains_key account participants ≡ false

pub record IsValidRunning (r : RunningContractState) : Type 0 where
  pub participants_sorted : Map.IsSorted r.participants
  pub candidates_sorted : Map.IsSorted r.candidates
  pub candidates_new : Apart r.candidates r.participants
  pub join_ballots : Map.Values (IsOpenBallot r.participants r.threshold) r.join_votes
  pub leave_ballots : Map.Values (IsOpenBallot r.participants r.threshold) r.leave_votes

pub record IsValidResharing (r : ResharingContractState) : Type 0 where
  pub old_sorted : Map.IsSorted r.old_participants
  pub new_sorted : Map.IsSorted r.new_participants
  pub ballot : IsOpenBallot r.old_participants r.threshold r.finished_votes

abbrev pub IsValid : ProtocolContractState → Type 0
IsValid not_initialized = Unit
IsValid (initializing i) = IsValidInitializing i
IsValid (running r) = IsValidRunning r
IsValid (resharing r) = IsValidResharing r

pub init-IsValid :
    (threshold : ℕ) (candidates : Candidates) (c : MpcContract)
    → Map.IsSorted candidates
    → IsValid (init threshold candidates c).protocol_state
unfolding init
init-IsValid threshold candidates c s = record { candidates_sorted = s; pk_ballots = tt }

start_resharing-IsValid :
    (r : RunningContractState) (new : Participants)
    → IsValidRunning r
    → Map.IsSorted new
    → IsValidResharing (start_resharing r new)
unfolding start_resharing
start_resharing-IsValid r new v s = record {
  old_sorted = v.participants_sorted;
  new_sorted = s;
  ballot = record { distinct = tt; within = tt; short = omega arith };
}

no_candidates : (p : Participants) → Apart [] p
unfolding Map.get
no_candidates p account h = absurd (ground arith)

fresh_running-IsValid :
    (epoch threshold : ℕ) (p : Participants) (key : PublicKey)
    → Map.IsSorted p
    → IsValidRunning (fresh_running epoch p threshold key)
unfolding fresh_running
fresh_running-IsValid epoch threshold p key s = record {
  participants_sorted = s;
  candidates_sorted = tt;
  candidates_new = no_candidates p;
  join_ballots = tt;
  leave_ballots = tt;
}

count_join-IsValid :
    (env : Env) (candidate : AccountId) (info : CandidateInfo) (r : RunningContractState)
    → Map.contains_key env.signer r.participants ≡ true
    → IsValidRunning r
    → IsValid (count_join env candidate info r).0
unfolding count_join start_resharing
count_join-IsValid env candidate info r member v = ground (
  arith,
  Map.From-insert 0 candidate (participant_of_candidate info) r.participants (omega arith)
      v.participants_sorted,
  cast_vote-Values r.participants r.threshold candidate env.signer r.join_votes member
      v.join_ballots,
)

count_leave-IsValid :
    (env : Env) (leaver : AccountId) (r : RunningContractState)
    → Map.contains_key env.signer r.participants ≡ true
    → IsValidRunning r
    → IsValid (count_leave env leaver r).0
unfolding count_leave start_resharing
count_leave-IsValid env leaver r member v = ground (
  arith,
  Map.From-remove 0 leaver r.participants v.participants_sorted,
  cast_vote-Values r.participants r.threshold leaver env.signer r.leave_votes member
      v.leave_ballots,
)

join-Apart :
    (env : Env) (info : CandidateInfo) (r : RunningContractState)
    → Map.contains_key env.signer r.participants ≡ false
    → Apart r.candidates r.participants
    → Apart (Map.insert env.signer info r.candidates) r.participants
join-Apart env info r new apart account h =
    ground (arith, apart account, Map.get-insert env.signer account info r.candidates)

join-IsValid :
    (env : Env) (url cipher_pk : ℕ) (sign_pk : PublicKey) (r : RunningContractState)
    → IsValidRunning r
    → IsValid (commit_state (running r) (join_running env url cipher_pk sign_pk r))
unfolding join_running
join-IsValid env url cipher_pk sign_pk r v = ground (
  arith,
  λ (new : Map.contains_key env.signer r.participants ≡ false).
      join-Apart env
        (record { account_id = env.signer; url = url; cipher_pk = cipher_pk; sign_pk = sign_pk }) r
        new v.candidates_new,
  Map.From-insert 0 env.signer
      (record { account_id = env.signer; url = url; cipher_pk = cipher_pk; sign_pk = sign_pk })
      r.candidates (omega arith) v.candidates_sorted,
)

vote_join-IsValid :
    (env : Env) (candidate : AccountId) (r : RunningContractState)
    → IsValidRunning r
    → IsValid (commit (running r) (vote_join_running env candidate r))
unfolding vote_join_running
vote_join-IsValid env candidate r v = grind (arith, count_join-IsValid)

vote_leave-IsValid :
    (env : Env) (leaver : AccountId) (r : RunningContractState)
    → IsValidRunning r
    → IsValid (commit (running r) (vote_leave_running env leaver r))
unfolding vote_leave_running
vote_leave-IsValid env leaver r v = grind (arith, count_leave-IsValid)

vote_pk-IsValid :
    (env : Env) (key : PublicKey) (i : InitializingContractState)
    → IsValidInitializing i
    → IsValid (commit (initializing i) (vote_pk_initializing env key i))
unfolding vote_pk_initializing
vote_pk-IsValid env key i v = ground (
  arith,
  fresh_running-IsValid 0 i.threshold (participants_of_candidates i.candidates) key
      (participants_of_candidates-IsSorted i.candidates v.candidates_sorted),
  λ (m : Map.contains_key env.signer i.candidates ≡ true).
      cast_vote-Values i.candidates i.threshold key env.signer i.pk_votes m v.pk_ballots,
)

vote_reshared-IsValid :
    (env : Env) (epoch : ℕ) (r : ResharingContractState)
    → IsValidResharing r
    → IsValid (commit (resharing r) (vote_reshared_resharing env epoch r))
unfolding vote_reshared_resharing
vote_reshared-IsValid env epoch r v = ground (
  arith,
  fresh_running-IsValid (u64 (r.old_epoch + 1)) r.threshold r.new_participants r.public_key
      v.new_sorted,
  λ (m : Map.contains_key env.signer r.old_participants ≡ true).
      insert-IsOpenBallot r.old_participants r.threshold env.signer r.finished_votes m v.ballot,
)

same-IsValid :
    (s : ProtocolContractState) (b : Bool) (p : Panic)
    → IsValid s
    → IsValid (commit s (if b then ok (s, true) else panic p))
same-IsValid s true p v = v
same-IsValid s false p v = v

collect-IsSorted :
    (entries : List (AccountId × CandidateInfo)) (collected : Candidates)
    → Map.IsSorted collected
    → Map.IsSorted (collect entries collected)
unfolding collect
collect-IsSorted [] collected s = s
collect-IsSorted ((account, info) ∷ entries) collected s =
    collect-IsSorted entries (Map.insert account info collected)
      (Map.From-insert 0 account info collected (omega arith) s)

clean-IsValid :
    (env : Env) (storage_key : ℕ → ℕ) (keys : List ℕ) (s : ProtocolContractState)
    → IsValid s
    → IsValid (step_protocol env (cleans storage_key keys) s)
unfolding step_protocol clean
clean-IsValid env storage_key keys s v = elim (Bool-cases (env.predecessor == env.current)) [
  | inl itself ↦ ground arith
  | inr refused ↦ ground arith
]

-- Every call, by anyone and in every state, keeps the protocol state valid.
pub step_protocol-IsValid :
    (env : Env) (call : Call) (s : ProtocolContractState)
    → IsValid s
    → IsValid (step_protocol env call s)
unfolding step_protocol join vote_join vote_leave vote_pk vote_reshared
step_protocol-IsValid env (inits threshold entries) s v =
    init-IsValid threshold (collect entries [])
      (record { protocol_state = s; pending_requests = [] }) (collect-IsSorted entries [] tt)
step_protocol-IsValid env (cleans storage_key keys) s v = clean-IsValid env storage_key keys s v
step_protocol-IsValid env (joins url cipher_pk sign_pk) (running r) v =
    join-IsValid env url cipher_pk sign_pk r v
step_protocol-IsValid env (votes_join candidate) (running r) v = vote_join-IsValid env candidate r v
step_protocol-IsValid env (votes_leave leaver) (running r) v = vote_leave-IsValid env leaver r v
step_protocol-IsValid env (votes_pk key) (initializing i) v = vote_pk-IsValid env key i v
step_protocol-IsValid env (votes_pk key) (running r) v = same-IsValid (running r) _ _ v
step_protocol-IsValid env (votes_pk key) (resharing r) v = same-IsValid (resharing r) _ _ v
step_protocol-IsValid env (votes_reshared epoch) (resharing r) v =
    vote_reshared-IsValid env epoch r v
step_protocol-IsValid env (votes_reshared epoch) (running r) v = same-IsValid (running r) _ _ v
step_protocol-IsValid env _ _ v = v

run-IsValid :
    (calls : List (Env × Call)) (c : MpcContract)
    → IsValid c.protocol_state
    → IsValid (run calls c).protocol_state
unfolding run step
run-IsValid [] c v = v
run-IsValid ((env, call) ∷ calls) c v =
    run-IsValid calls (step env call c) (step_protocol-IsValid env call c.protocol_state v)

-- After `init` with a map of candidates, and any calls by anyone, `init` and `clean` among them, the
-- protocol state is valid: the sets are maps in order, no candidate is a participant, and each ballot that is still open holds different members only, fewer
-- than the threshold, or none if the threshold is zero.
pub run-init-IsValid :
    (threshold : ℕ) (candidates : Candidates) (c : MpcContract) (calls : List (Env × Call))
    → Map.IsSorted candidates
    → IsValid (run calls (init threshold candidates c)).protocol_state
run-init-IsValid threshold candidates c calls s =
    run-IsValid calls (init threshold candidates c) (init-IsValid threshold candidates c s)
