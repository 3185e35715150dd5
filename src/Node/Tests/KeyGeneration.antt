-- ===== src/Node/Tests/KeyGeneration.antt =====
-- Two candidates generate the key: contract/src/lib.rs and node/src/protocol/consensus.rs.
use mpc_recovery.Prelude.{ℕ, ◌≡◌, refl, ◌+◌, [], ◌∷◌, some, arith}
use mpc_recovery.Collections.Map
use mpc_recovery.Collections.HashSet
use mpc_recovery.Contract.Primitives as OnChain
use mpc_recovery.Contract.State.{
  InitializingContractState as OnChainInitializing, RunningContractState as OnChainRunning,
  ProtocolContractState, Env,
}
use mpc_recovery.Contract.Membership.{vote_pk, vote_pk_initializing, fresh_running}
use mpc_recovery.Contract.Calls.{votes_pk, step_protocol}
use mpc_recovery.Contract.Invariant.{IsValidInitializing}
use mpc_recovery.Node.Participants.{
  CandidateInfo, info_of_candidate, enumerate_candidates, participants_of_candidates,
  find_participant,
}
use mpc_recovery.Node.ContractState.{
  Conversions, ProtocolState, InitializingContractState, RunningContractState, initializing_from,
  running_from, candidates_from, collect_candidates, collect_pk_votes, participants_from,
  enumerate_participants,
}
use mpc_recovery.Node.State.{GeneratingState, generating}
use mpc_recovery.Node.Consensus.{
  advanced, started_without, begin_keygen, new_keygen, advance_generating,
}
use mpc_recovery.Node.KeyGeneration.{generating_agrees}
use mpc_recovery.Node.Tests.{counts, info, node}

abbrev on_chain_candidate : ℕ → OnChain.CandidateInfo
on_chain_candidate a = record { account_id = a; url = 10 + a; cipher_pk = 20 + a; sign_pk = 30 + a }

-- The accounts 1 and 4 are the candidates, and 4 has voted for the key 7.
abbrev initializing_contract : OnChainInitializing
initializing_contract = record {
  candidates = (1, on_chain_candidate 1) ∷ (4, on_chain_candidate 4) ∷ [];
  threshold = 2;
  pk_votes = (7, 4 ∷ []) ∷ [];
}

abbrev founded_contract : OnChainRunning
founded_contract = record {
  epoch = 0;
  participants =
      (1, OnChain.participant_of_candidate (on_chain_candidate 1))
      ∷ (4, OnChain.participant_of_candidate (on_chain_candidate 4))
      ∷ [];
  threshold = 2;
  public_key = 7;
  candidates = [];
  join_votes = [];
  leave_votes = [];
}

abbrev pub conversions : Conversions
conversions = record { sign_key = λ k. some k; affine_point = λ k. some k; secp256k1 = λ k. some k }

abbrev by_first : Env
by_first = record { signer = 1; predecessor = 1; current = 100 }

initializing_contract-IsValid : IsValidInitializing initializing_contract
unfolding Map.get HashSet.contains
initializing_contract-IsValid = record {
  candidates_sorted = (omega arith, (omega arith, tt));
  pk_ballots = (record { distinct = (refl, tt); within = (refl, tt); short = omega arith }, tt);
}

founded :
    step_protocol by_first (votes_pk 7) (ProtocolContractState.initializing initializing_contract)
    ≡ ProtocolContractState.running founded_contract
unfolding step_protocol vote_pk vote_pk_initializing fresh_running Map.get Map.insert OnChain.voters
    OnChain.cast_vote OnChain.participants_of_candidates OnChain.insert_candidates HashSet.insert
    HashSet.contains
founded = refl

abbrev node_candidate : ℕ → CandidateInfo
node_candidate a = record { account_id = a; url = 10 + a; cipher_pk = 20 + a; sign_pk = 30 + a }

abbrev pub read_before : InitializingContractState
read_before = record {
  candidates = (1, node_candidate 1) ∷ (4, node_candidate 4) ∷ [];
  threshold = 2;
  pk_votes = (7, 4 ∷ []) ∷ [];
}

abbrev read_after : RunningContractState
read_after = record {
  epoch = 0;
  participants = (0, info 0 1) ∷ (1, info 1 4) ∷ [];
  threshold = 2;
  public_key = 7;
  candidates = [];
  join_votes = [];
  leave_votes = [];
}

abbrev generates : GeneratingState counts
generates = record {
  participants = (0, info 0 1) ∷ (1, info 1 4) ∷ [];
  threshold = 2;
  protocol = record { me = 0; threshold = 2; participants = 0 ∷ 1 ∷ []; protocol = 2 };
  messages = [];
}

reads_before : initializing_from conversions initializing_contract ≡ some read_before
unfolding initializing_from candidates_from collect_candidates collect_pk_votes Map.insert
reads_before = refl

reads_after : running_from conversions founded_contract ≡ some read_after
unfolding running_from participants_from enumerate_participants candidates_from collect_candidates
    Map.insert
reads_after = refl

begins :
    started_without counts node (ProtocolState.initializing read_before)
    ≡ advanced (generating generates)
unfolding started_without begin_keygen new_keygen participants_of_candidates enumerate_candidates
    info_of_candidate find_participant Map.insert
begins = refl

generating_agrees_example :
    advance_generating counts generates (ProtocolState.running read_after)
    ≡ advanced (generating generates)
generating_agrees_example =
    generating_agrees conversions counts node by_first (votes_pk 7) initializing_contract
      founded_contract read_before read_after generates initializing_contract-IsValid
      (refl, (refl, tt)) reads_before begins founded reads_after
