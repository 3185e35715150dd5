-- ===== src/Node/Tests/Resharing.antt =====
-- The account 4 joins the accounts 1 and 2: contract/src/lib.rs and
-- node/src/protocol/{cryptography,consensus}.rs.
use mpc_recovery.Prelude.{◌≡◌, refl, [], ◌∷◌, some}
use mpc_recovery.Collections.Map
use mpc_recovery.Contract.Calls.{votes_reshared}
use mpc_recovery.Contract.Tests.{by}
use mpc_recovery.Contract.Tests.Transitions.{
  nearly_joined, nearly_joined-IsValid, joined_four, finishes,
}
use mpc_recovery.Node.Participants.{find_participant, eq_participants}
use mpc_recovery.Node.ContractState.{
  ProtocolState, ResharingContractState, RunningContractState, resharing_from, running_from,
  candidates_from, collect_candidates, participants_from, enumerate_participants,
}
use mpc_recovery.Node.State.{
  ResharingState, WaitingForConsensusState, resharing, waiting_for_consensus, running,
}
use mpc_recovery.Node.Outbox.{send_encrypted}
use mpc_recovery.Node.Drive.{drive, turn, send_many_to, to_others}
use mpc_recovery.Node.Cryptography.{progressed, progress_resharing, settle_resharing, flush_then}
use mpc_recovery.Node.Consensus.{advanced, quietly, start_running}
use mpc_recovery.Node.Consensus.Phases.{advance_waiting, advance_resharing}
use mpc_recovery.Node.Resharing.{resharing_agrees}
use mpc_recovery.Node.Tests.{counts, info, node}
use mpc_recovery.Node.Tests.KeyGeneration.{conversions}
use mpc_recovery.Node.Tests.Progress.{ctx}

abbrev read : ResharingContractState
read = record {
  old_epoch = 3;
  old_participants = (0, info 0 1) ∷ (1, info 1 2) ∷ [];
  new_participants = (0, info 0 1) ∷ (1, info 1 2) ∷ (2, info 2 4) ∷ [];
  threshold = 2;
  public_key = 7;
  finished_votes = 2 ∷ [];
}

abbrev read_after : RunningContractState
read_after = record {
  epoch = 4;
  participants = read.new_participants;
  threshold = 2;
  public_key = 7;
  candidates = [];
  join_votes = [];
  leave_votes = [];
}

-- The account 1 has nothing left to send.
abbrev reshares : ResharingState counts
reshares = record {
  old_epoch = 3;
  old_participants = read.old_participants;
  new_participants = read.new_participants;
  threshold = 2;
  public_key = 7;
  protocol = record {
    old_participants = 0 ∷ 1 ∷ [];
    new_participants = 0 ∷ 1 ∷ 2 ∷ [];
    me = 0;
    threshold = 2;
    private_share = some 5;
    protocol = 0;
    root_pk = 7;
  };
  messages = [];
}

abbrev waits : WaitingForConsensusState counts
waits = record {
  epoch = 4;
  participants = read.new_participants;
  threshold = 2;
  private_share = 5;
  public_key = 7;
  messages = [];
}

reads : resharing_from conversions nearly_joined ≡ some read
unfolding resharing_from participants_from enumerate_participants Map.insert
reads = refl

reads_after : running_from conversions joined_four ≡ some read_after
unfolding running_from participants_from enumerate_participants candidates_from collect_candidates
    Map.insert
reads_after = refl

keeps :
    advance_resharing counts reshares (ProtocolState.resharing read) ≡ advanced (resharing reshares)
unfolding advance_resharing eq_participants
keeps = refl

ends : (progress_resharing counts ctx reshares).outcome ≡ progressed (waiting_for_consensus waits)
unfolding progress_resharing settle_resharing flush_then send_encrypted drive turn send_many_to
    to_others
ends = refl

is_member : find_participant 1 read_after.participants ≡ some 0
unfolding find_participant
is_member = refl

resharing_agrees_example :
    advance_waiting counts node waits (ProtocolState.running read_after)
    ≡ quietly counts
        (advanced (running (start_running counts 4 read_after.participants 2 5 7 7 0 [])))
resharing_agrees_example =
    resharing_agrees conversions counts node (by 1) (votes_reshared 4) nearly_joined joined_four
      read read_after ctx reshares waits 0 nearly_joined-IsValid reads keeps ends finishes
      reads_after is_member
