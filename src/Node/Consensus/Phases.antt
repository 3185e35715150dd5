-- ===== src/Node/Consensus/Phases.antt =====
-- node/src/protocol/consensus.rs: how the waiting, running, resharing and joining node advances, and
-- the node in any phase.
use Prim.Native.Nat.{compare, Ordering}
use mpc_recovery.Prelude.{
  ℕ, ◌+◌, Bool, false, not, ◌||◌, List, [], ◌∷◌, Option, none, some, ◌==◌, if◌then◌else◌, u64,
}
use mpc_recovery.Collections.Map
use mpc_recovery.Collections.Map.{Map}
use mpc_recovery.Collections.HashSet
use mpc_recovery.Node.Participants.{
  AccountId, Participant, Participants, find_participant, contains_account_id, eq_participants,
}
use mpc_recovery.Node.CaitSith.{CaitSith}
use mpc_recovery.Node.ContractState.{
  ProtocolState, RunningContractState, ResharingContractState, Votes,
}
use mpc_recovery.Node.State.{
  WaitingForConsensusState, RunningState, ResharingState, JoiningState, NodeState, starting,
  started, generating, waiting_for_consensus, running, resharing, joining,
}
use mpc_recovery.Node.Consensus.{
  contract_state_rollback, epoch_rollback, mismatched_public_key, mismatched_threshold,
  mismatched_participants, has_been_kicked, secret_storage_error, Outcome, advanced, refused,
  panicked, vote_for_public_key, vote_reshared, send_join, request_join, Ctx, Advance, perform,
  quietly, start_resharing, join_again, start_running, started_with, started_without,
  advance_generating,
}

-- `votes.get(key).map(|s| s.contains(account)).unwrap_or_default()`
abbrev pub has_voted : ℕ → AccountId → Votes → Bool
has_voted key account votes = elim (Map.get key votes) [
  | none ↦ false
  | some s ↦ HashSet.contains account s
]

-- The three comparisons that most branches make, in their order, and then the next state.
abbrev pub agreeing : {C : CaitSith} → Bool → Bool → Bool → Outcome C → Outcome C
agreeing participants threshold public_key next =
    if not participants
    then refused mismatched_participants
    else (if not threshold
        then refused mismatched_threshold
        else (if not public_key then refused mismatched_public_key else next))

module _ (C : CaitSith) where
  -- The end of `waiting(running)`: `find_participant(..).unwrap()`.
  unfoldable pub reach_consensus : WaitingForConsensusState C → Option Participant → Outcome C
  unfolding start_running
  reach_consensus w none = panicked
  reach_consensus w (some me) = advanced (
      running (
        start_running C w.epoch w.participants w.threshold w.private_share w.public_key w.public_key
          me w.messages))

  -- `waiting(resharing)` in the epoch that is being made: an old participant who has not voted
  -- reports that the resharing is complete.
  unfoldable pub report_reshared :
      Ctx C → WaitingForConsensusState C → Bool → Option Participant → Advance C
  unfolding perform
  report_reshared ctx w false (some _) =
      perform C ctx (vote_reshared w.epoch) (quietly C (advanced (waiting_for_consensus w)))
  report_reshared ctx w _ _ = quietly C (advanced (waiting_for_consensus w))

  unfoldable pub waiting_resharing :
      Ctx C → WaitingForConsensusState C → ResharingContractState → Advance C
  unfolding report_reshared start_resharing
  waiting_resharing ctx w s = elim (compare (u64 (s.old_epoch + 1)) w.epoch) [
    | Ordering.gt ↦
        if u64 (s.old_epoch + 2) == w.epoch
        then quietly C (
            agreeing (eq_participants s.old_participants w.participants)
              (s.threshold == w.threshold) (s.public_key == w.public_key)
              (start_resharing C (some w.private_share) ctx s))
        else quietly C (join_again C s.old_participants s.public_key)
    | Ordering.lt ↦ quietly C (refused epoch_rollback)
    | Ordering.eq ↦
        report_reshared ctx w (HashSet.contains ctx.my_account_id s.finished_votes)
          (find_participant ctx.my_account_id s.old_participants)
  ]

  unfoldable pub advance_waiting : Ctx C → WaitingForConsensusState C → ProtocolState → Advance C
  unfolding perform reach_consensus waiting_resharing
  advance_waiting ctx w (ProtocolState.initializing s) =
      if has_voted (ctx.near_key w.public_key) ctx.my_account_id s.pk_votes
      then quietly C (advanced (waiting_for_consensus w))
      else perform C ctx (vote_for_public_key (ctx.near_key w.public_key))
          (quietly C (advanced (waiting_for_consensus w)))
  advance_waiting ctx w (ProtocolState.running s) = elim (compare s.epoch w.epoch) [
    | Ordering.gt ↦ quietly C (join_again C s.participants s.public_key)
    | Ordering.lt ↦ quietly C (refused epoch_rollback)
    | Ordering.eq ↦ quietly C (
        agreeing (eq_participants s.participants w.participants) (s.threshold == w.threshold)
          (s.public_key == w.public_key)
          (reach_consensus w (find_participant ctx.my_account_id s.participants)))
  ]
  advance_waiting ctx w (ProtocolState.resharing s) = waiting_resharing ctx w s

  unfoldable pub advance_running : Ctx C → RunningState C → ProtocolState → Outcome C
  unfolding start_resharing
  advance_running ctx r (ProtocolState.initializing s) = refused contract_state_rollback
  advance_running ctx r (ProtocolState.running s) = elim (compare s.epoch r.epoch) [
    | Ordering.gt ↦ join_again C s.participants s.public_key
    | Ordering.lt ↦ refused epoch_rollback
    | Ordering.eq ↦
        agreeing (eq_participants s.participants r.participants) (s.threshold == r.threshold)
          (s.public_key == r.public_key) (advanced (running r))
  ]
  advance_running ctx r (ProtocolState.resharing s) = elim (compare s.old_epoch r.epoch) [
    | Ordering.gt ↦ join_again C s.old_participants s.public_key
    | Ordering.lt ↦ refused epoch_rollback
    | Ordering.eq ↦
        if not (contains_account_id ctx.my_account_id s.old_participants)
          || not (contains_account_id ctx.my_account_id s.new_participants)
        then refused has_been_kicked
        else (if not (s.public_key == r.public_key)
            then refused mismatched_public_key
            else start_resharing C (some r.private_share) ctx s)
  ]

  unfoldable pub advance_resharing : ResharingState C → ProtocolState → Outcome C
  advance_resharing q (ProtocolState.initializing s) = refused contract_state_rollback
  advance_resharing q (ProtocolState.running s) = elim (compare s.epoch (u64 (q.old_epoch + 1))) [
    | Ordering.gt ↦ join_again C s.participants s.public_key
    | Ordering.lt ↦ refused epoch_rollback
    | Ordering.eq ↦
        agreeing (eq_participants s.participants q.new_participants) (s.threshold == q.threshold)
          (s.public_key == q.public_key) (advanced (resharing q))
  ]
  advance_resharing q (ProtocolState.resharing s) = elim (compare s.old_epoch q.old_epoch) [
    | Ordering.gt ↦ join_again C s.old_participants s.public_key
    | Ordering.lt ↦ refused epoch_rollback
    | Ordering.eq ↦
        if not (eq_participants s.old_participants q.old_participants)
        then refused mismatched_participants
        else agreeing (eq_participants s.new_participants q.new_participants)
            (s.threshold == q.threshold) (s.public_key == q.public_key) (advanced (resharing q))
  ]

  -- The loop over the participants: each that has not voted is asked to.
  unfoldable pub ask_votes :
      Ctx C → AccountId → List AccountId → Participants → Advance C → Advance C
  unfolding perform
  ask_votes ctx candidate voted [] next = next
  ask_votes ctx candidate voted ((_, info) ∷ rest) next =
      let others = ask_votes ctx candidate voted rest next in
      if HashSet.contains info.account_id voted
      then others
      else perform C ctx (request_join info.url candidate) others

  unfoldable pub joining_running : Ctx C → JoiningState → RunningContractState → Advance C
  unfolding ask_votes perform
  joining_running ctx j s = elim (Map.get ctx.my_account_id s.candidates) [
    | none ↦ perform C ctx send_join (quietly C (advanced (joining j)))
    | some info ↦
        ask_votes ctx info.account_id
          (elim (Map.get ctx.my_account_id s.join_votes) [ none ↦ [] | some voted ↦ voted ])
          s.participants (quietly C (advanced (joining j)))
  ]

  unfoldable pub advance_joining : Ctx C → JoiningState → ProtocolState → Advance C
  unfolding joining_running start_resharing
  advance_joining ctx j (ProtocolState.initializing s) = quietly C (refused contract_state_rollback)
  advance_joining ctx j (ProtocolState.running s) = joining_running ctx j s
  advance_joining ctx j (ProtocolState.resharing s) =
      if contains_account_id ctx.my_account_id s.new_participants
      then quietly C (start_resharing C none ctx s)
      else quietly C (advanced (joining j))

  unfoldable pub advance : Ctx C → NodeState C → ProtocolState → Advance C
  unfolding started_with started_without advance_generating advance_waiting advance_running
      advance_resharing advance_joining
  advance ctx starting s = elim ctx.load [
    | none ↦ quietly C (refused secret_storage_error)
    | some stored ↦ quietly C (advanced (started stored))
  ]
  advance ctx (started (some d)) s = quietly C (started_with C ctx d s)
  advance ctx (started none) s = quietly C (started_without C ctx s)
  advance ctx (generating g) s = quietly C (advance_generating C g s)
  advance ctx (waiting_for_consensus w) s = advance_waiting ctx w s
  advance ctx (running r) s = quietly C (advance_running ctx r s)
  advance ctx (resharing q) s = quietly C (advance_resharing q s)
  advance ctx (joining j) s = advance_joining ctx j s
