-- ===== src/Contract/Votes.antt =====
-- What one vote does, on its own ballot and on the others (contract/src/lib.rs).
use mpc_recovery.Prelude.{◌&&◌, ◌≡◌, false, arith, ◌==◌, ◌||◌}
use mpc_recovery.Collections.HashSet
use mpc_recovery.Contract.Primitives.{AccountId, voters, cast_vote}
use mpc_recovery.Contract.State.{RunningContractState, running, Env, ok}
use mpc_recovery.Contract.Membership.{vote_join, vote_join_running, count_join}
use mpc_recovery.Contract.Ballots.{contains-cast_vote, cast_vote-cast_vote}

counted :
    (env : Env) (candidate : AccountId) (r r' : RunningContractState)
    → vote_join env candidate (running r) ≡ ok (running r', false)
    → r' ≡ record r { join_votes = cast_vote candidate env.signer r.join_votes }
unfolding vote_join vote_join_running count_join
counted env candidate r r' h = ground arith

-- A vote for a candidate that is not decisive adds the voter to that candidate's ballot, and leaves
-- every other ballot and the rest of the state as they were.
vote_join_counts :
    (env : Env) (candidate other a : AccountId) (r r' : RunningContractState)
    → vote_join env candidate (running r) ≡ ok (running r', false)
    → (r' ≡ record r { join_votes = cast_vote candidate env.signer r.join_votes })
      × (HashSet.contains a (voters other r'.join_votes) ≡ (
          (candidate == other && a == env.signer)
          || HashSet.contains a (voters other r.join_votes)))
vote_join_counts env candidate other a r r' h =
    let e = counted env candidate r r' h in
    (e, rw e (contains-cast_vote candidate env.signer other a r.join_votes))

-- A voter who repeats a vote changes nothing.
vote_join_again :
    (env : Env) (candidate : AccountId) (r r' : RunningContractState)
    → vote_join env candidate (running r) ≡ ok (running r', false)
    → vote_join env candidate (running r') ≡ ok (running r', false)
unfolding vote_join vote_join_running count_join
vote_join_again env candidate r r' h =
    ground (arith, cast_vote-cast_vote candidate env.signer r.join_votes)
