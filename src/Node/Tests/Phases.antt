-- ===== src/Node/Tests/Phases.antt =====
-- The node of the account 1, with contracts of one or two accounts (node/src/protocol/consensus.rs).
use mpc_recovery.Prelude.{◌≡◌, refl, true, false, [], ◌∷◌, none, some, arith}
use mpc_recovery.Node.Participants.{find_participant, contains_account_id, eq_participants}
use mpc_recovery.Node.ContractState.{ProtocolState, RunningContractState, ResharingContractState}
use mpc_recovery.Node.State.{
  PersistentNodeData, WaitingForConsensusState, RunningState, JoiningState, waiting_for_consensus,
  running, joining, started,
}
use mpc_recovery.Node.Consensus.{
  advanced, panicked, refused, has_been_kicked, quietly, start_running,
}
use mpc_recovery.Node.Consensus.Phases.{advance, advance_waiting, reach_consensus}
use mpc_recovery.Node.Consensus.Agreement.{Agrees, running-Agrees}
use mpc_recovery.Node.Consensus.Rollback.{IsRefusal, rollback_refused}
use mpc_recovery.Node.Consensus.Resharing.{
  ResharesWith, waiting_member_gives_up_share, started_kicked_panics,
}
use mpc_recovery.Node.Tests.{counts, info, node}

abbrev pub waiting : WaitingForConsensusState counts
waiting = record {
  epoch = 3;
  participants = (0, info 0 1) ∷ [];
  threshold = 1;
  private_share = 5;
  public_key = 6;
  messages = [];
}

abbrev pub running_contract : RunningContractState
running_contract = record {
  epoch = 3;
  participants = (0, info 0 1) ∷ [];
  threshold = 1;
  public_key = 6;
  candidates = [];
  join_votes = [];
  leave_votes = [];
}

abbrev pub running_node : RunningState counts
running_node = start_running counts 3 waiting.participants 1 5 6 6 0 []

runs :
    (advance counts node
      (waiting_for_consensus waiting)
      (ProtocolState.running running_contract)).outcome
    ≡ advanced (running running_node)
unfolding advance advance_waiting reach_consensus find_participant eq_participants
runs = refl

running-Agrees_example :
    (c : RunningContractState) × (ProtocolState.running running_contract ≡ ProtocolState.running c)
    × Agrees counts running_node c
running-Agrees_example =
    running-Agrees counts node (waiting_for_consensus waiting)
      (ProtocolState.running running_contract) running_node runs

abbrev earlier_contract : RunningContractState
earlier_contract = record running_contract { epoch = 2 }

rollback_refused_example :
    IsRefusal counts
      (advance counts node (waiting_for_consensus waiting) (ProtocolState.running earlier_contract))
rollback_refused_example =
    rollback_refused counts node (waiting_for_consensus waiting) earlier_contract 3 refl
      (omega arith)

-- The account 2 joins the account 1.
abbrev resharing_contract : ResharingContractState
resharing_contract = record {
  old_epoch = 3;
  old_participants = (0, info 0 1) ∷ [];
  new_participants = (0, info 0 1) ∷ (1, info 1 2) ∷ [];
  threshold = 1;
  public_key = 6;
  finished_votes = [];
}

is_member : contains_account_id 1 resharing_contract.new_participants ≡ true
unfolding contains_account_id
is_member = refl

abbrev staying_contract : ResharingContractState
staying_contract = record resharing_contract {
  old_participants = (0, info 0 1) ∷ (1, info 1 2) ∷ [];
}

was_member : contains_account_id 1 staying_contract.old_participants ≡ true
unfolding contains_account_id
was_member = refl

is_first : find_participant 1 staying_contract.new_participants ≡ some 0
unfolding find_participant
is_first = refl

same_epoch : running_node.epoch ≡ 3
unfolding start_running
same_epoch = refl

same_share : running_node.private_share ≡ 5
unfolding start_running
same_share = refl

same_key : running_node.public_key ≡ 6
unfolding start_running
same_key = refl

waiting_member_gives_up_share_example :
    ResharesWith counts node (some waiting.private_share) (running running_node) staying_contract
    × ((j : JoiningState) × (advance counts node
            (waiting_for_consensus waiting)
            (ProtocolState.resharing staying_contract)
          ≡ quietly counts (advanced (joining j)))
        × ResharesWith counts node none (joining j) staying_contract)
waiting_member_gives_up_share_example =
    waiting_member_gives_up_share counts node waiting running_node staying_contract 0 2 2 refl
      (omega arith) same_epoch same_share same_key was_member is_member is_first refl refl

-- The account 1 is removed.
abbrev removing_contract : ResharingContractState
removing_contract = record resharing_contract { new_participants = (0, info 0 2) ∷ [] }

is_removed : contains_account_id 1 removing_contract.new_participants ≡ false
unfolding contains_account_id
is_removed = refl

abbrev stored : PersistentNodeData counts
stored = record { epoch = 3; private_share = 5; public_key = 6 }

started_kicked_panics_example :
    (advance counts node (started (some stored)) (ProtocolState.resharing removing_contract)
      ≡ quietly counts panicked)
    × (advance counts node (running running_node) (ProtocolState.resharing removing_contract)
        ≡ quietly counts (refused has_been_kicked))
started_kicked_panics_example =
    started_kicked_panics counts node stored running_node removing_contract refl refl same_epoch
      is_removed
