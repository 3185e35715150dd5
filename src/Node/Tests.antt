-- ===== src/Node/Tests.antt =====
-- A protocol library that sends what is left of a count, for the tests of node/src/protocol.
mod Managers
mod Phases
mod KeyGeneration
mod Progress
mod Turns
mod Envelopes
mod Resharing
use mpc_recovery.Prelude.{
  ℕ, zero, suc, ◌≡◌, refl, ◌<◌, ◌+◌, true, false, List, [], ◌∷◌, Option, none, some, arith, ◌⊎◌,
  ◌||◌, ◌==◌, if◌then◌else◌,
}
use mpc_recovery.Collections.Map
use mpc_recovery.Collections.HashSet
use mpc_recovery.Contract.Primitives as OnChain
use mpc_recovery.Contract.State.{
  InitializingContractState as OnChainInitializing, RunningContractState as OnChainRunning,
  ProtocolContractState, Env,
}
use mpc_recovery.Contract.Membership.{vote_pk, vote_pk_initializing, fresh_running}
use mpc_recovery.Contract.Calls.{votes_pk, step_protocol}
use mpc_recovery.Contract.Invariant.{IsValidInitializing}
use mpc_recovery.Node.Participants.{
  ParticipantInfo, Participants, CandidateInfo, info_of_candidate, enumerate_candidates,
  participants_of_candidates, find_participant, contains_account_id, eq_participants,
}
use mpc_recovery.Node.CaitSith.{
  CaitSith, Protocol, Poked, acted, send_many, send_private, return, ok, PresignOutput,
}
use mpc_recovery.Node.Message.{TripleMessage}
use mpc_recovery.Node.Poke.{poke_loop, turn}
use mpc_recovery.Node.Triple.{
  Triple, TripleManager, take_two, taken, missing, poke, poke_all, poke_one, settle, complete,
  owner, report, to_all, message, potential_len,
}
use mpc_recovery.Node.Triple.Conservation.{IsValidTriples}
use mpc_recovery.Node.Triple.Spending.{equal_triples_panic, taken_by_peer_panics}
use mpc_recovery.Node.Presignature.{
  Presignature, PresignatureManager, Joined, Picked, get_or_generate, take, take_mine,
}
use mpc_recovery.Node.ContractState.{
  Conversions, ProtocolState, InitializingContractState, RunningContractState,
  ResharingContractState, initializing_from, running_from, candidates_from, collect_candidates,
  collect_pk_votes, participants_from, enumerate_participants,
}
use mpc_recovery.Node.State.{
  PersistentNodeData, GeneratingState, WaitingForConsensusState, RunningState, JoiningState,
  KeygenProtocol, generating, waiting_for_consensus, running, joining, started,
}
use mpc_recovery.Node.Consensus.{
  Ctx, advanced, panicked, refused, has_been_kicked, quietly, started_with, started_without,
  begin_keygen, new_keygen, resume, start_running, start_resharing, advance_generating,
}
use mpc_recovery.Node.Consensus.Phases.{advance, advance_waiting, reach_consensus}
use mpc_recovery.Node.Consensus.Agreement.{Agrees, running-Agrees}
use mpc_recovery.Node.Consensus.Rollback.{IsRefusal, rollback_refused}
use mpc_recovery.Node.Consensus.Resharing.{waiting_member_gives_up_share, started_kicked_panics}
use mpc_recovery.Node.KeyGeneration.{generating_agrees}

-- Sends the rest of the count to all until it is spent, and then returns.
abbrev pub countdown : {Output : Type 0} → Output → Protocol ℕ ℕ Output
countdown output = record {
  State = ℕ;
  poke = λ s. elim s [ zero ↦ (acted (return output), zero) | suc n ↦ (acted (send_many n), n) ];
  message = λ s from d. s;
}

abbrev pub counts : CaitSith
counts = record {
  Data = ℕ;
  InitializationError = ℕ;
  ProtocolError = ℕ;
  Scalar = ℕ;
  TripleShare = ℕ;
  TriplePub = ℕ;
  FullSignature = ℕ;
  keygen = countdown (5, 6);
  reshare = countdown 5;
  triple = countdown (8, 9);
  presign = countdown (record { big_r = 1; k = 2; sigma = 3 });
  sign = countdown 4;
  new_keygen = λ participants me threshold. ok 2;
  new_reshare = λ old old_threshold new new_threshold me share key. ok 2;
  new_triple = λ participants me threshold. ok 2;
  new_presign = λ participants me t0 t1 share key threshold. ok 2;
  new_sign = λ participants me key presignature hash. ok 2;
  entropy = λ t. t;
  add = λ a b. a + b;
  mul = λ a b. a + b;
  invert = λ a. some a;
  scalar_of_bytes = λ b. b;
  generator = 1;
  scale = λ point a. point + a;
  add_points = λ p q. p + q;
}

abbrev pub info : ℕ → ℕ → ParticipantInfo
info position a = record {
  id = position;
  account_id = a;
  url = 10 + a;
  cipher_pk = 20 + a;
  sign_pk = 30 + a;
}

-- The node of the account 1.
abbrev pub node : Ctx counts
node = record { my_account_id = 1; load = none; near_key = λ p. p; succeeds = λ e. true }
