-- ===== src/Contract/Quorum.antt =====
-- Who can move the contract (contract/src/lib.rs) from one phase to the next.
use mpc_recovery.Prelude.{
  ◌+◌, ◌≡◌, refl, inl, inr, some, false, true, List, [], arith, u64, leb, length, Option-cases,
}
use mpc_recovery.Collections.Map
use mpc_recovery.Collections.HashSet
use mpc_recovery.Contract.Primitives.{
  AccountId, Participants, CandidateInfo, participant_of_candidate, voters, cast_vote,
}
use mpc_recovery.Contract.State.{
  InitializingContractState, RunningContractState, ResharingContractState, initializing, running,
  resharing, Env,
}
use mpc_recovery.Contract.Requests.{clean}
use mpc_recovery.Contract.Membership.{
  init, join, join_running, vote_join, vote_join_running, count_join, vote_leave,
  vote_leave_running, count_leave, vote_pk, vote_pk_initializing, vote_reshared,
  vote_reshared_resharing, start_resharing,
}
use mpc_recovery.Contract.Calls.{
  Call, inits, cleans, joins, votes_join, votes_leave, votes_pk, votes_reshared, commit,
  step_protocol,
}
use mpc_recovery.Contract.Ballots.{IsQuorum, cast_vote-IsQuorum, insert-IsQuorum}
use mpc_recovery.Contract.Conversion.{convert, participants_of_candidates-convert}
use mpc_recovery.Contract.Invariant.{IsValidInitializing, IsValidRunning, IsValidResharing}

-- What a vote changes: the candidate that is voted for, who is no participant yet, has been added with
-- its URL and keys, or the participant that is voted on has been removed.
abbrev pub Changes : Call → RunningContractState → Participants → Type 0
Changes (votes_join candidate) r new =
    (info : CandidateInfo) × (Map.get candidate r.candidates ≡ some info)
    × (Map.contains_key candidate r.participants ≡ false)
    × (new ≡ Map.insert candidate (participant_of_candidate info) r.participants)
Changes (votes_leave leaver) r new =
    (Map.contains_key leaver r.participants ≡ true) × (new ≡ Map.remove leaver r.participants)
Changes _ r new = ⊥

-- The resharing state continues the running one after a vote.
pub record Continues (call : Call) (r : RunningContractState) (q : ResharingContractState)
    : Type 0 where
  pub epoch : q.old_epoch ≡ r.epoch
  pub participants : q.old_participants ≡ r.participants
  pub change : Changes call r q.new_participants
  pub threshold : q.threshold ≡ r.threshold
  pub public_key : q.public_key ≡ r.public_key
  pub no_votes : q.finished_votes ≡ []

-- The voters on the matter of a call, its own voter included.
abbrev pub ballot : Env → Call → RunningContractState → List AccountId
ballot env (votes_join candidate) r = voters candidate (cast_vote candidate env.signer r.join_votes)
ballot env (votes_leave leaver) r = voters leaver (cast_vote leaver env.signer r.leave_votes)
ballot env _ r = []

-- What a vote that starts a resharing has found.
join_starts :
    (env : Env) (candidate : AccountId) (r : RunningContractState) (q : ResharingContractState)
    → commit (running r) (vote_join env candidate (running r)) ≡ resharing q
    → (info : CandidateInfo) × (Map.get candidate r.candidates ≡ some info)
      × (Map.contains_key env.signer r.participants ≡ true)
      × (leb r.threshold (length (ballot env (votes_join candidate) r)) ≡ true)
      × (q
          ≡ start_resharing r (Map.insert candidate (participant_of_candidate info) r.participants))
unfolding vote_join vote_join_running count_join
join_starts env candidate r q e = elim (Option-cases (Map.get candidate r.candidates)) [
  | inl missing ↦ absurd (ground arith)
  | inr (info, known) ↦ (info, known, ground arith, ground arith, ground arith)
]

pub leave_starts :
    (env : Env) (leaver : AccountId) (r : RunningContractState) (q : ResharingContractState)
    → commit (running r) (vote_leave env leaver (running r)) ≡ resharing q
    → (Map.contains_key env.signer r.participants ≡ true)
      × (Map.contains_key leaver r.participants ≡ true)
      × (leb r.threshold (length (ballot env (votes_leave leaver) r)) ≡ true)
      × (q ≡ start_resharing r (Map.remove leaver r.participants))
unfolding vote_leave vote_leave_running count_leave
leave_starts env leaver r q e = ground arith

start_resharing-Continues :
    (call : Call) (r : RunningContractState) (new : Participants) {q : ResharingContractState}
    → Changes call r new
    → q ≡ start_resharing r new
    → Continues call r q
unfolding start_resharing
start_resharing-Continues call r new c e = rw e (record {
  epoch = refl;
  participants = refl;
  change = c;
  threshold = refl;
  public_key = refl;
  no_votes = refl;
})

-- A running contract starts to reshare only by a vote to let one account join or leave, with which
-- a quorum of different participants has voted on that account: as many as the threshold, if that
-- is positive. Epoch, threshold and public key are kept, and the new participants are the old ones
-- with that very account: a registered candidate, who was no participant, added with its URL and keys,
-- or a participant removed.
pub resharing-IsQuorum :
    (env : Env) (call : Call) (r : RunningContractState) (q : ResharingContractState)
    → IsValidRunning r
    → step_protocol env call (running r) ≡ resharing q
    → IsQuorum r.participants r.threshold (ballot env call r) × Continues call r q
unfolding step_protocol join join_running vote_pk vote_reshared init clean
resharing-IsQuorum env (votes_join candidate) r q v e =
    let (info, known, member, enough, made) = join_starts env candidate r q e in
    (
      cast_vote-IsQuorum r.participants r.threshold candidate env.signer r.join_votes member
          v.join_ballots enough,
      start_resharing-Continues (votes_join candidate) r _
          (info, known, v.candidates_new candidate (ground arith), refl) made,
    )
resharing-IsQuorum env (votes_leave leaver) r q v e =
    let (member, known, enough, made) = leave_starts env leaver r q e in
    (
      cast_vote-IsQuorum r.participants r.threshold leaver env.signer r.leave_votes member
          v.leave_ballots enough,
      start_resharing-Continues (votes_leave leaver) r _ (known, refl) made,
    )
resharing-IsQuorum env (inits threshold entries) r q v e = absurd (ground arith)
resharing-IsQuorum env (cleans storage_key keys) r q v e = absurd (ground arith)
resharing-IsQuorum env (joins url cipher_pk sign_pk) r q v e = absurd (ground arith)
resharing-IsQuorum env (votes_pk key) r q v e = absurd (ground arith)
resharing-IsQuorum env (votes_reshared epoch) r q v e = absurd (ground arith)
resharing-IsQuorum env _ r q v e = absurd (ground arith)

-- The running state that follows a resharing: the new participants, one epoch later, with the same
-- threshold and key, and with no candidates and no votes.
pub record Completes (q : ResharingContractState) (r : RunningContractState) : Type 0 where
  pub epoch : r.epoch ≡ u64 (q.old_epoch + 1)
  pub participants : r.participants ≡ q.new_participants
  pub threshold : r.threshold ≡ q.threshold
  pub public_key : r.public_key ≡ q.public_key
  pub no_candidates : r.candidates ≡ []
  pub no_join_votes : r.join_votes ≡ []
  pub no_leave_votes : r.leave_votes ≡ []

-- A resharing ends only when a quorum of different old participants has reported it finished, with
-- the new participants in the next epoch.
pub running-IsQuorum :
    (env : Env) (call : Call) (q : ResharingContractState) (r : RunningContractState)
    → IsValidResharing q
    → step_protocol env call (resharing q) ≡ running r
    → IsQuorum q.old_participants q.threshold (HashSet.insert env.signer q.finished_votes)
      × Completes q r
unfolding step_protocol join vote_join vote_leave vote_pk vote_reshared vote_reshared_resharing init
    clean
running-IsQuorum env (votes_reshared epoch) q r v e = ground (
  arith,
  λ (m : Map.contains_key env.signer q.old_participants ≡ true).
      insert-IsQuorum q.old_participants q.threshold env.signer q.finished_votes m v.ballot,
)
running-IsQuorum env (inits threshold entries) q r v e = absurd (ground arith)
running-IsQuorum env (cleans storage_key keys) q r v e = absurd (ground arith)
running-IsQuorum env (votes_pk key) q r v e = absurd (ground arith)
running-IsQuorum env _ q r v e = absurd (ground arith)

-- The first running state has the candidates as its participants, in the order of their accounts,
-- and the key on which a quorum of different candidates has voted.
pub founding-IsQuorum :
    (env : Env) (call : Call) (i : InitializingContractState) (r : RunningContractState)
    → IsValidInitializing i
    → step_protocol env call (initializing i) ≡ running r
    → IsQuorum i.candidates i.threshold
        (voters r.public_key (cast_vote r.public_key env.signer i.pk_votes))
      × (r.participants ≡ convert i.candidates)
      × (r.threshold ≡ i.threshold)
      × (r.epoch ≡ 0)
unfolding step_protocol join vote_join vote_leave vote_pk vote_reshared vote_pk_initializing init
    clean
founding-IsQuorum env (votes_pk key) i r v e = ground (
  arith,
  participants_of_candidates-convert i.candidates v.candidates_sorted,
  λ (m : Map.contains_key env.signer i.candidates ≡ true).
      cast_vote-IsQuorum i.candidates i.threshold key env.signer i.pk_votes m v.pk_ballots,
)
founding-IsQuorum env (inits threshold entries) i r v e = absurd (ground arith)
founding-IsQuorum env (cleans storage_key keys) i r v e = absurd (ground arith)
founding-IsQuorum env (votes_join _) i r v e = absurd (ground arith)
founding-IsQuorum env _ i r v e = absurd (ground arith)
