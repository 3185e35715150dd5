-- ===== src/Contract/Tests.antt =====
-- Accounts, callers and calls, on which the theorems about contract/src apply.
pub mod Transitions
mod Departure
mod Signatures
mod Progress
use mpc_recovery.Prelude.{
  ℕ, refl, ◌≡◌, ◌≤◌, ◌<◌, ◌+◌, List, [], ◌∷◌, Option, none, some, arith, true, false, length, ◌&&◌,
  ◌||◌, ◌==◌, All, if◌then◌else◌,
}
use mpc_recovery.Collections.Map
use mpc_recovery.Collections.HashSet
use mpc_recovery.Contract.Primitives.{
  ParticipantInfo, CandidateInfo, Participants, Candidates, participant_of_candidate, voters,
  cast_vote, participants_of_candidates, insert_candidates,
}
use mpc_recovery.Contract.State.{
  InitializingContractState, RunningContractState, ResharingContractState, ProtocolContractState,
  not_initialized, initializing, running, resharing, MpcContract, Response, ok, panic, Env,
  already_requested,
}
use mpc_recovery.Contract.Membership.{
  init, join, join_running, vote_join, vote_join_running, count_join, vote_leave,
  vote_leave_running, count_leave, vote_pk, vote_pk_initializing, vote_reshared,
  vote_reshared_resharing, start_resharing, fresh_running, public_key,
}
use mpc_recovery.Contract.Requests.{Pending, value, sign, sign_helper, help, respond}
use mpc_recovery.Contract.Calls.{
  Call, joins, votes_join, votes_leave, votes_pk, votes_reshared, signs, helps, responds,
  step_protocol, step_requests, step, run, IsReset,
}
use mpc_recovery.Contract.Conversion.{convert}
use mpc_recovery.Contract.Ballots.{IsQuorum}
use mpc_recovery.Contract.Invariant.{
  IsValid, IsValidInitializing, IsValidRunning, IsValidResharing, step_protocol-IsValid,
  run-init-IsValid,
}
use mpc_recovery.Contract.Quorum.{
  ballot, Continues, Completes, resharing-IsQuorum, running-IsQuorum, founding-IsQuorum,
}
use mpc_recovery.Contract.Constancy.{threshold, epoch, run-public_key, run-epoch}
use mpc_recovery.Contract.Stuck.{Same}
use mpc_recovery.Contract.Pending.{sign-respond-sign_helper, respond_unrequested}

unfoldable pub evaluation : Unit {0}
unfolding step_protocol join join_running vote_join vote_join_running count_join vote_leave
    vote_leave_running count_leave vote_pk vote_pk_initializing vote_reshared
    vote_reshared_resharing start_resharing fresh_running public_key Map.get Map.insert Map.remove
    voters cast_vote HashSet.insert HashSet.contains participants_of_candidates insert_candidates
    sign sign_helper help respond
evaluation = tt

abbrev pub candidate : ℕ → CandidateInfo
candidate a = record { account_id = a; url = 10 + a; cipher_pk = 20 + a; sign_pk = 30 + a }

abbrev pub participant : ℕ → ParticipantInfo
participant a = participant_of_candidate (candidate a)

abbrev pub three : Candidates
three = (1, candidate 1) ∷ (2, candidate 2) ∷ (3, candidate 3) ∷ []

abbrev pub by : ℕ → Env
by a = record { signer = a; predecessor = a; current = 100 }

abbrev pub by_itself : Env
by_itself = record { signer = 1; predecessor = 100; current = 100 }

abbrev pub empty_contract : MpcContract
empty_contract = record { protocol_state = not_initialized; pending_requests = [] }

abbrev pub some_calls : List (Env × Call)
some_calls =
    (by 1, votes_pk 7)
    ∷ (by 2, votes_pk 7)
    ∷ (by 4, joins 0 0 0)
    ∷ (by 1, votes_join 4)
    ∷ (by 3, votes_join 4)
    ∷ (by 2, votes_reshared 1)
    ∷ []

-- Nobody starts over.
pub nothing_resets : All (λ call. ¬ IsReset call) some_calls
nothing_resets = ((λ x. x), ((λ x. x), ((λ x. x), ((λ x. x), ((λ x. x), ((λ x. x), tt))))))
