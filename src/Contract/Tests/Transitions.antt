-- ===== src/Contract/Tests/Transitions.antt =====
-- Three accounts with a threshold of two: the key, a new participant, and votes
-- (contract/src/lib.rs).
use mpc_recovery.Prelude.{
  ℕ, refl, ◌≡◌, ◌≤◌, ◌+◌, ◌⊎◌, List, [], ◌∷◌, some, Any, arith, false, length,
}
use mpc_recovery.Collections.HashSet
use mpc_recovery.Contract.Primitives.{AccountId, CandidateInfo, voters, cast_vote}
use mpc_recovery.Contract.State.{
  InitializingContractState, RunningContractState, ResharingContractState, initializing, running,
  resharing, MpcContract, ok, panic, public_key_not_available, Env,
}
use mpc_recovery.Contract.Membership.{init, vote_join, public_key}
use mpc_recovery.Contract.Calls.{
  inits, votes_join, votes_pk, votes_reshared, step_protocol, step, run, IsReset,
}
use mpc_recovery.Contract.Conversion.{convert}
use mpc_recovery.Contract.Ballots.{IsQuorum}
use mpc_recovery.Contract.Invariant.{
  IsValid, IsValidInitializing, IsValidRunning, IsValidResharing, run-init-IsValid,
}
use mpc_recovery.Contract.Quorum.{
  ballot, Continues, Completes, resharing-IsQuorum, running-IsQuorum, founding-IsQuorum,
}
use mpc_recovery.Contract.Constancy.{threshold, epoch, run-public_key, run-epoch}
use mpc_recovery.Contract.Tests.{
  evaluation, candidate, participant, three, by, empty_contract, some_calls, nothing_resets,
}

run-init-IsValid_example : IsValid (run some_calls (init 2 three empty_contract)).protocol_state
run-init-IsValid_example =
    run-init-IsValid 2 three empty_contract some_calls
      (omega arith, (omega arith, (omega arith, tt)))

-- One vote for the key 7 has been cast.
abbrev pub before_key : InitializingContractState
before_key = record { candidates = three; threshold = 2; pk_votes = (7, 1 ∷ []) ∷ [] }

before_key-IsValid : IsValidInitializing before_key
unfolding evaluation
before_key-IsValid = record {
  candidates_sorted = (omega arith, (omega arith, (omega arith, tt)));
  pk_ballots = (record { distinct = (refl, tt); within = (refl, tt); short = omega arith }, tt);
}

abbrev after_key : RunningContractState
after_key = record {
  epoch = 0;
  participants = (1, participant 1) ∷ (2, participant 2) ∷ (3, participant 3) ∷ [];
  threshold = 2;
  public_key = 7;
  candidates = [];
  join_votes = [];
  leave_votes = [];
}

founded : step_protocol (by 2) (votes_pk 7) (initializing before_key) ≡ running after_key
unfolding evaluation
founded = refl

founding-IsQuorum_example :
    IsQuorum three 2 (voters 7 (cast_vote 7 2 ((7, 1 ∷ []) ∷ [])))
    × (after_key.participants ≡ convert three)
    × (after_key.threshold ≡ 2)
    × (after_key.epoch ≡ 0)
founding-IsQuorum_example =
    founding-IsQuorum (by 2) (votes_pk 7) before_key after_key before_key-IsValid founded

-- The account 4 has joined as a candidate, and 1 has voted for it.
abbrev pub before_join : RunningContractState
before_join = record {
  epoch = 3;
  participants = (1, participant 1) ∷ (2, participant 2) ∷ [];
  threshold = 2;
  public_key = 7;
  candidates = (4, candidate 4) ∷ [];
  join_votes = (4, 1 ∷ []) ∷ [];
  leave_votes = (1, 2 ∷ []) ∷ [];
}

before_join-IsValid : IsValidRunning before_join
unfolding evaluation
before_join-IsValid = record {
  participants_sorted = (omega arith, (omega arith, tt));
  candidates_sorted = (omega arith, tt);
  candidates_new = λ account h. ground arith;
  join_ballots = (record { distinct = (refl, tt); within = (refl, tt); short = omega arith }, tt);
  leave_ballots = (record { distinct = (refl, tt); within = (refl, tt); short = omega arith }, tt);
}

abbrev pub joining_four : ResharingContractState
joining_four = record {
  old_epoch = 3;
  old_participants = (1, participant 1) ∷ (2, participant 2) ∷ [];
  new_participants = (1, participant 1) ∷ (2, participant 2) ∷ (4, participant 4) ∷ [];
  threshold = 2;
  public_key = 7;
  finished_votes = [];
}

starts : step_protocol (by 2) (votes_join 4) (running before_join) ≡ resharing joining_four
unfolding evaluation
starts = refl

resharing-IsQuorum_example :
    IsQuorum before_join.participants 2 (ballot (by 2) (votes_join 4) before_join)
    × Continues (votes_join 4) before_join joining_four
resharing-IsQuorum_example =
    resharing-IsQuorum (by 2) (votes_join 4) before_join joining_four before_join-IsValid starts

-- The participant 2 has reported that the resharing is finished.
abbrev pub nearly_joined : ResharingContractState
nearly_joined = record joining_four { finished_votes = 2 ∷ [] }

pub nearly_joined-IsValid : IsValidResharing nearly_joined
unfolding evaluation
nearly_joined-IsValid = record {
  old_sorted = (omega arith, (omega arith, tt));
  new_sorted = (omega arith, (omega arith, (omega arith, tt)));
  ballot = record { distinct = (refl, tt); within = (refl, tt); short = omega arith };
}

abbrev pub joined_four : RunningContractState
joined_four = record {
  epoch = 4;
  participants = (1, participant 1) ∷ (2, participant 2) ∷ (4, participant 4) ∷ [];
  threshold = 2;
  public_key = 7;
  candidates = [];
  join_votes = [];
  leave_votes = [];
}

pub finishes :
    step_protocol (by 1) (votes_reshared 4) (resharing nearly_joined) ≡ running joined_four
unfolding evaluation
finishes = refl

running-IsQuorum_example :
    IsQuorum nearly_joined.old_participants 2 (HashSet.insert 1 (2 ∷ []))
    × Completes nearly_joined joined_four
running-IsQuorum_example =
    running-IsQuorum (by 1) (votes_reshared 4) nearly_joined joined_four nearly_joined-IsValid
      finishes

abbrev running_contract : MpcContract
running_contract = record { protocol_state = running before_join; pending_requests = [] }

has_key : public_key (running before_join) ≡ ok 7
unfolding evaluation
has_key = refl

run-public_key_example :
    (public_key (run some_calls running_contract).protocol_state ≡ ok 7)
    × (threshold (run some_calls running_contract).protocol_state ≡ some 2)
    × ((env : Env) (new_threshold : ℕ) (entries : List (AccountId × CandidateInfo))
        → (public_key
              (step env
                (inits new_threshold entries)
                (run some_calls running_contract)).protocol_state
            ≡ panic public_key_not_available)
          × (threshold
                (step env
                  (inits new_threshold entries)
                  (run some_calls running_contract)).protocol_state
              ≡ some new_threshold))
run-public_key_example = run-public_key some_calls running_contract 7 nothing_resets has_key

run-epoch_example :
    (epoch (run some_calls running_contract).protocol_state ≤ 3 + length some_calls)
    × ((3 ≤ epoch (run some_calls running_contract).protocol_state) ⊎ Any IsReset some_calls)
run-epoch_example = run-epoch some_calls running_contract (omega arith)

-- The first vote for the account 4, of the two that are needed.
abbrev pub before_vote : RunningContractState
before_vote = record before_join { join_votes = [] }

abbrev after_vote : RunningContractState
after_vote = record before_join { join_votes = (4, 1 ∷ []) ∷ [] }

votes : vote_join (by 1) 4 (running before_vote) ≡ ok (running after_vote, false)
unfolding evaluation
votes = refl
