-- ===== src/Contract/Tests/Progress.antt =====
-- Votes that are enough (contract/src/lib.rs).
use mpc_recovery.Prelude.{◌≡◌, refl, [], ◌∷◌, map}
use mpc_recovery.Collections.Map
use mpc_recovery.Contract.State.{running, resharing, ProtocolContractState, MpcContract}
use mpc_recovery.Contract.Membership.{start_resharing}
use mpc_recovery.Contract.Calls.{run}
use mpc_recovery.Contract.Progress.{votes_for, enough_votes_join}
use mpc_recovery.Contract.Tests.{evaluation, candidate, participant}
use mpc_recovery.Contract.Tests.Transitions.{before_vote}

abbrev in_state : ProtocolContractState → MpcContract
in_state s = record { protocol_state = s; pending_requests = [] }

enough_votes_join_example :
    (run (map (votes_for 100 4) (1 ∷ 2 ∷ [])) (in_state (running before_vote))).protocol_state
    ≡ resharing
        (start_resharing before_vote (Map.insert 4 (participant 4) before_vote.participants))
unfolding evaluation
enough_votes_join_example =
    enough_votes_join 100 4 1 (candidate 4) (2 ∷ []) before_vote (in_state (running before_vote))
      refl refl (refl, (refl, tt)) (refl, (refl, tt)) (refl, (refl, tt)) refl
