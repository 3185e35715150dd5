-- ===== src/Node/Consensus/Agreement.antt =====
-- A node runs only in agreement with the contract (node/src/protocol/consensus.rs).
use mpc_recovery.Prelude.{
  ℕ, ◌≡◌, refl, inl, inr, Option, none, some, arith, List, [], ◌∷◌, Option-cases, subst,
}
use mpc_recovery.Collections.Map
use mpc_recovery.Node.Participants.{AccountId, Participants}
use mpc_recovery.Node.Participants.Laws.{eq_participants_sound}
use mpc_recovery.Node.CaitSith.{CaitSith}
use mpc_recovery.Node.ContractState.{
  ProtocolState, InitializingContractState, RunningContractState, ResharingContractState,
}
use mpc_recovery.Node.State.{
  NodeState, PersistentNodeData, GeneratingState, WaitingForConsensusState, ResharingState,
  RunningState, JoiningState, started, starting, generating, waiting_for_consensus, running,
  resharing, joining,
}
use mpc_recovery.Node.Consensus.{
  new_keygen, Ctx, Outcome, Advance, advanced, perform, quietly, started_with, started_without,
  resume, start_running, start_resharing, start_resharing_as, begin_keygen, advance_generating,
}
use mpc_recovery.Node.Consensus.Phases.{
  advance, advance_waiting, waiting_resharing, reach_consensus, report_reshared, advance_running,
  advance_resharing, advance_joining, joining_running, ask_votes,
}

module _ (C : CaitSith) where
  -- The running node works in the contract's epoch, with its participants, threshold and key.
  pub record Agrees (r : RunningState C) (s : RunningContractState) : Type 0 where
    pub epoch : r.epoch ≡ s.epoch
    pub participants : r.participants ≡ s.participants
    pub threshold : r.threshold ≡ s.threshold
    pub public_key : r.public_key ≡ s.public_key

  -- An outcome that is a running state agrees with the running contract.
  abbrev pub AgreesWith : ProtocolState → Outcome C → Type 0
  AgreesWith (ProtocolState.running s) (advanced (running r)) = Agrees r s
  AgreesWith _ (advanced (running r)) = ⊥
  AgreesWith _ _ = Unit

  start_resharing-AgreesWith :
      (private_share : Option C.Scalar) (ctx : Ctx C) (s : ResharingContractState)
      (t : ProtocolState)
      → AgreesWith t (start_resharing C private_share ctx s)
  unfolding start_resharing start_resharing_as
  start_resharing-AgreesWith private_share ctx s (ProtocolState.running _) = ground arith
  start_resharing-AgreesWith private_share ctx s t = ground arith

  started_with-AgreesWith :
      (ctx : Ctx C) (d : PersistentNodeData C) (s : ProtocolState)
      → AgreesWith s (started_with C ctx d s)
  unfolding started_with resume start_running
  started_with-AgreesWith ctx d (ProtocolState.initializing s) = tt
  started_with-AgreesWith ctx d (ProtocolState.running s) = ground arith
  started_with-AgreesWith ctx d (ProtocolState.resharing s) =
      ground
        (arith, start_resharing-AgreesWith (some d.private_share) ctx s (ProtocolState.resharing s))

  begin_keygen-AgreesWith :
      (s : InitializingContractState) (ps : Participants) (me : Option ℕ) (t : ProtocolState)
      → AgreesWith t (begin_keygen C s ps me)
  unfolding begin_keygen new_keygen
  begin_keygen-AgreesWith s ps me (ProtocolState.running t) = ground arith
  begin_keygen-AgreesWith s ps me t = ground arith

  started_without-AgreesWith :
      (ctx : Ctx C) (s : ProtocolState) → AgreesWith s (started_without C ctx s)
  unfolding started_without
  started_without-AgreesWith ctx (ProtocolState.initializing s) =
      begin_keygen-AgreesWith s _ _ (ProtocolState.initializing s)
  started_without-AgreesWith ctx (ProtocolState.running s) = tt
  started_without-AgreesWith ctx (ProtocolState.resharing s) = tt

  advance_waiting-AgreesWith :
      (ctx : Ctx C) (w : WaitingForConsensusState C) (s : ProtocolState)
      → AgreesWith s (advance_waiting C ctx w s).outcome
  unfolding advance_waiting waiting_resharing reach_consensus start_running report_reshared perform
  advance_waiting-AgreesWith ctx w (ProtocolState.initializing s) = ground arith
  advance_waiting-AgreesWith ctx w (ProtocolState.running s) =
      ground (arith, eq_participants_sound s.participants w.participants)
  advance_waiting-AgreesWith ctx w (ProtocolState.resharing s) =
      ground
        (arith, start_resharing-AgreesWith (some w.private_share) ctx s (ProtocolState.resharing s))

  advance_running-AgreesWith :
      (ctx : Ctx C) (r : RunningState C) (s : ProtocolState)
      → AgreesWith s (advance_running C ctx r s)
  unfolding advance_running
  advance_running-AgreesWith ctx r (ProtocolState.initializing s) = tt
  advance_running-AgreesWith ctx r (ProtocolState.running s) =
      ground (arith, eq_participants_sound s.participants r.participants)
  advance_running-AgreesWith ctx r (ProtocolState.resharing s) =
      ground
        (arith, start_resharing-AgreesWith (some r.private_share) ctx s (ProtocolState.resharing s))

  advance_generating-AgreesWith :
      (g : GeneratingState C) (s : ProtocolState) → AgreesWith s (advance_generating C g s)
  unfolding advance_generating
  advance_generating-AgreesWith g (ProtocolState.initializing s) = tt
  advance_generating-AgreesWith g (ProtocolState.running s) = ground arith
  advance_generating-AgreesWith g (ProtocolState.resharing s) = ground arith

  advance_resharing-AgreesWith :
      (q : ResharingState C) (s : ProtocolState) → AgreesWith s (advance_resharing C q s)
  unfolding advance_resharing
  advance_resharing-AgreesWith q (ProtocolState.initializing s) = tt
  advance_resharing-AgreesWith q (ProtocolState.running s) = ground arith
  advance_resharing-AgreesWith q (ProtocolState.resharing s) = ground arith

  ask_votes-AgreesWith :
      (ctx : Ctx C) (candidate : AccountId) (voted : List AccountId) (ps : Participants)
      (next : Advance C) (s : RunningContractState)
      → AgreesWith (ProtocolState.running s) next.outcome
      → AgreesWith (ProtocolState.running s) (ask_votes C ctx candidate voted ps next).outcome
  unfolding ask_votes perform
  ask_votes-AgreesWith ctx candidate voted [] next s h = h
  ask_votes-AgreesWith ctx candidate voted ((_, info) ∷ ps) next s h =
      ground (arith, ask_votes-AgreesWith ctx candidate voted ps next s h)

  advance_joining-AgreesWith :
      (ctx : Ctx C) (j : JoiningState) (s : ProtocolState)
      → AgreesWith s (advance_joining C ctx j s).outcome
  unfolding advance_joining joining_running perform
  advance_joining-AgreesWith ctx j (ProtocolState.initializing s) = tt
  advance_joining-AgreesWith ctx j (ProtocolState.running s) =
      elim (Option-cases (Map.get ctx.my_account_id s.candidates)) [
        | inl e ↦ ground arith
        | inr (info, e) ↦ ground (
          arith,
          ask_votes-AgreesWith ctx info.account_id
              (elim (Map.get ctx.my_account_id s.join_votes) [ none ↦ [] | some voted ↦ voted ])
              s.participants (quietly C (advanced (joining j))) s tt,
        )
      ]
  advance_joining-AgreesWith ctx j (ProtocolState.resharing s) =
      ground (arith, start_resharing-AgreesWith none ctx s (ProtocolState.resharing s))

  pub outcome-AgreesWith :
      (ctx : Ctx C) (n : NodeState C) (s : ProtocolState) → AgreesWith s (advance C ctx n s).outcome
  unfolding advance
  outcome-AgreesWith ctx starting (ProtocolState.running s) = ground arith
  outcome-AgreesWith ctx starting (ProtocolState.initializing s) = ground arith
  outcome-AgreesWith ctx starting (ProtocolState.resharing s) = ground arith
  outcome-AgreesWith ctx (started (some d)) s = started_with-AgreesWith ctx d s
  outcome-AgreesWith ctx (started none) s = started_without-AgreesWith ctx s
  outcome-AgreesWith ctx (generating g) s = advance_generating-AgreesWith g s
  outcome-AgreesWith ctx (waiting_for_consensus w) s = advance_waiting-AgreesWith ctx w s
  outcome-AgreesWith ctx (running r) s = advance_running-AgreesWith ctx r s
  outcome-AgreesWith ctx (resharing q) s = advance_resharing-AgreesWith q s
  outcome-AgreesWith ctx (joining j) s = advance_joining-AgreesWith ctx j s

  -- Whatever phase a node is in: if it advances to running, the contract is running, and the node
  -- works in the contract's epoch, with its participants, its threshold and its public key.
  pub running-Agrees :
      (ctx : Ctx C) (n : NodeState C) (s : ProtocolState) (r : RunningState C)
      → (advance C ctx n s).outcome ≡ advanced (running r)
      → (c : RunningContractState) × (s ≡ ProtocolState.running c) × Agrees r c
  running-Agrees ctx n (ProtocolState.running c) r e = (
    c,
    refl,
    subst (AgreesWith (ProtocolState.running c)) e
        (outcome-AgreesWith ctx n (ProtocolState.running c)),
  )
  running-Agrees ctx n (ProtocolState.initializing c) r e = absurd (
      subst (AgreesWith (ProtocolState.initializing c)) e
        (outcome-AgreesWith ctx n (ProtocolState.initializing c)))
  running-Agrees ctx n (ProtocolState.resharing c) r e = absurd (
      subst (AgreesWith (ProtocolState.resharing c)) e
        (outcome-AgreesWith ctx n (ProtocolState.resharing c)))
