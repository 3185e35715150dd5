-- ===== src/Node/Tests/Turns.antt =====
-- Turns of the loop of a node, in its first life (node/src/protocol/mod.rs).
use mpc_recovery.Prelude.{◌≡◌, refl, true, false, List, [], ◌∷◌, none, some, arith}
use mpc_recovery.Collections.Map
use mpc_recovery.Node.Participants.{
  find_participant, find_participant_info, eq_participants, enumerate_candidates,
  participants_of_candidates, info_of_candidate,
}
use mpc_recovery.Node.ContractState.{ProtocolState, RunningContractState}
use mpc_recovery.Node.State.{PersistentNodeData, waiting_for_consensus, running, started, find_info}
use mpc_recovery.Node.Outbox.{send_encrypted}
use mpc_recovery.Node.Drive.{drive, send_many_to, to_others}
use mpc_recovery.Node.Drive as Drive
use mpc_recovery.Node.Consensus.{
  quietly, join_again, started_without, start_running, begin_keygen, new_keygen,
}
use mpc_recovery.Node.Consensus.Phases.{advance, advance_waiting, reach_consensus}
use mpc_recovery.Node.Consensus.Agreement.{Agrees}
use mpc_recovery.Node.Cryptography.{
  progress_generating, settle_generating, flush_then, progress_waiting,
}
use mpc_recovery.Node.Cryptography.Rounds.{progress}
use mpc_recovery.Node.Running.{handle}
use mpc_recovery.Node.Protocol.{
  MpcSignProtocol, Meeting, stored, init, turn, attend, take_part, work, after_progress, go_on,
  finish, kept_after, receive, add_all, get_my_participant, run,
}
use mpc_recovery.Node.Protocol.Agreement.{turn_running-Agrees}
use mpc_recovery.Node.Protocol.Storage.{lives, reshared_share_forgotten}
use mpc_recovery.Node.Tests.{counts, node}
use mpc_recovery.Node.Tests.KeyGeneration.{read_before}
use mpc_recovery.Node.Tests.Phases.{waiting, running_contract, running_node}
use mpc_recovery.Node.Tests.Progress.{ctx, no_requests}

abbrev meets : ProtocolState → Meeting counts
meets contract = record {
  requested = [];
  contract = some contract;
  received = [];
  disconnected = false;
  loads = true;
  near_key = λ p. p;
  succeeds = λ e. true;
  work = ctx;
}

abbrev waits : MpcSignProtocol counts
waits = record (init counts no_requests none) { state = waiting_for_consensus waiting }

runs : (turn counts 1 (meets (ProtocolState.running running_contract)) waits).verdict ≡ stored
unfolding turn attend take_part work after_progress go_on finish add_all receive get_my_participant
    find_info progress progress_waiting flush_then send_encrypted advance advance_waiting
    reach_consensus find_participant find_participant_info Map.get eq_participants handle
runs = refl

runs_state :
    (turn counts 1 (meets (ProtocolState.running running_contract)) waits).protocol.state
    ≡ running running_node
unfolding turn attend take_part work after_progress go_on finish add_all receive get_my_participant
    find_info progress progress_waiting flush_then send_encrypted advance advance_waiting
    reach_consensus find_participant find_participant_info Map.get eq_participants handle
    start_running
runs_state = refl

turn_running-Agrees_example :
    (c : RunningContractState) × (some (ProtocolState.running running_contract)
      ≡ some (ProtocolState.running c))
    × Agrees counts running_node c
turn_running-Agrees_example =
    turn_running-Agrees counts 1 (meets (ProtocolState.running running_contract)) waits running_node
      runs runs_state

-- The contract waits for the key through the whole life, in which the node generates its share.
abbrev life : List (Meeting counts)
life =
    meets (ProtocolState.initializing read_before)
    ∷ meets (ProtocolState.initializing read_before)
    ∷ meets (ProtocolState.initializing read_before)
    ∷ []

abbrev share : PersistentNodeData counts
share = record { epoch = 0; private_share = 5; public_key = 6 }

keeps : lives counts 1 ((no_requests, life) ∷ []) none ≡ some share
unfolding lives run turn attend take_part work after_progress go_on finish add_all receive
    get_my_participant find_info progress progress_generating settle_generating flush_then
    send_encrypted advance handle started_without begin_keygen new_keygen participants_of_candidates
    enumerate_candidates info_of_candidate find_participant Map.insert drive Drive.turn send_many_to
    to_others kept_after find_participant_info Map.get
keeps = refl

reshared_share_forgotten_example :
    advance counts node (started (some share)) (ProtocolState.running running_contract)
    ≡ quietly counts (join_again counts running_contract.participants 6)
reshared_share_forgotten_example =
    reshared_share_forgotten counts 1 ((no_requests, life) ∷ []) share node running_contract keeps
      (omega arith)
