-- ===== src/Contract/Tests/Departure.antt =====
-- Contracts with too few participants (contract/src/lib.rs).
use mpc_recovery.Prelude.{[], ◌∷◌}
use mpc_recovery.Contract.State.{RunningContractState, ResharingContractState, running, MpcContract}
use mpc_recovery.Contract.Tests.{participant}
use mpc_recovery.Contract.Tests.Transitions.{before_join, joined_four}

-- The threshold is one: the vote to leave, of the only participant, is final at once.
abbrev single : RunningContractState
single = record before_join {
  participants = (1, participant 1) ∷ [];
  threshold = 1;
  join_votes = [];
  leave_votes = [];
}

abbrev emptying : ResharingContractState
emptying = record {
  old_epoch = 3;
  old_participants = (1, participant 1) ∷ [];
  new_participants = [];
  threshold = 1;
  public_key = 7;
  finished_votes = [];
}

abbrev emptied : RunningContractState
emptied = record joined_four { participants = []; threshold = 1 }

abbrev emptied_contract : MpcContract
emptied_contract = record { protocol_state = running emptied; pending_requests = [] }
