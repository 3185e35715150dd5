-- ===== src/Node/Consensus/Resharing.antt =====
-- How a node enters a resharing (node/src/protocol/consensus.rs).
use mpc_recovery.Prelude.{◌+◌, ◌<◌, ◌≡◌, refl, true, false, [], Option, none, some, arith}
use mpc_recovery.Node.Participants.{Participant, keys, find_participant, contains_account_id}
use mpc_recovery.Node.Participants.Laws.{contains_account_id-find_participant}
use mpc_recovery.Node.CaitSith.{CaitSith, ok}
use mpc_recovery.Node.ContractState.{ProtocolState, ResharingContractState}
use mpc_recovery.Node.State.{
  PersistentNodeData, WaitingForConsensusState, RunningState, ResharingState, JoiningState,
  NodeState, started, waiting_for_consensus, running, resharing, joining,
}
use mpc_recovery.Node.Consensus.{
  Ctx, advanced, refused, panicked, has_been_kicked, quietly, start_resharing, start_resharing_as,
  new_reshare, started_with,
}
use mpc_recovery.Node.Consensus.Phases.{
  advance, advance_waiting, waiting_resharing, advance_running, advance_joining,
}

module _ (C : CaitSith) (ctx : Ctx C) where
  -- The node reshares with this share, or without one.
  abbrev pub ResharesWith : Option C.Scalar → NodeState C → ResharingContractState → Type 0
  ResharesWith share n s =
      (q : ResharingState C) × (advance C ctx n (ProtocolState.resharing s)
        ≡ quietly C (advanced (resharing q)))
      × (q.protocol.private_share ≡ share)

  abbrev reshares :
      Option C.Scalar → Participant → C.reshare.State → ResharingContractState → ResharingState C
  reshares share me protocol s = record {
    old_epoch = s.old_epoch;
    old_participants = s.old_participants;
    new_participants = s.new_participants;
    threshold = s.threshold;
    public_key = s.public_key;
    protocol = record {
      old_participants = keys s.old_participants;
      new_participants = keys s.new_participants;
      me = me;
      threshold = s.threshold;
      private_share = share;
      protocol = protocol;
      root_pk = s.public_key;
    };
    messages = [];
  }

  start_resharing-reshares :
      (share : Option C.Scalar) (me : Participant) (protocol : C.reshare.State)
      (s : ResharingContractState)
      → find_participant ctx.my_account_id s.new_participants ≡ some me
      → C.new_reshare
          (keys s.old_participants)
          s.threshold
          (keys s.new_participants)
          s.threshold
          me
          share
          s.public_key
        ≡ ok protocol
      → start_resharing C share ctx s ≡ advanced (resharing (reshares share me protocol s))
  unfolding start_resharing start_resharing_as new_reshare
  start_resharing-reshares share me protocol s found starts =
      rw found (rw (starts, start_resharing_as) refl)

  -- The bug: the branch for a resharing that starts from the epoch in which the node waits asks for
  -- `old_epoch + 2 == epoch` where `old_epoch + 1 > epoch`, so it is never taken. Of two old and new
  -- participants in that epoch with the same share and key, the one that runs already reshares with
  -- its share; the one that still waits joins anew, and then reshares without a share, as a new
  -- participant does. The library starts either protocol.
  pub waiting_member_gives_up_share :
      (w : WaitingForConsensusState C) (r : RunningState C) (s : ResharingContractState)
      (me : Participant) (with_share without : C.reshare.State)
      → s.old_epoch ≡ w.epoch
      → s.old_epoch + 2 < 18446744073709551616
      → r.epoch ≡ w.epoch
      → r.private_share ≡ w.private_share
      → r.public_key ≡ s.public_key
      → contains_account_id ctx.my_account_id s.old_participants ≡ true
      → contains_account_id ctx.my_account_id s.new_participants ≡ true
      → find_participant ctx.my_account_id s.new_participants ≡ some me
      → C.new_reshare
          (keys s.old_participants)
          s.threshold
          (keys s.new_participants)
          s.threshold
          me
          (some w.private_share)
          s.public_key
        ≡ ok with_share
      → C.new_reshare
          (keys s.old_participants)
          s.threshold
          (keys s.new_participants)
          s.threshold
          me
          none
          s.public_key
        ≡ ok without
      → ResharesWith (some w.private_share) (running r) s
        × ((j : JoiningState) × (advance C ctx (waiting_for_consensus w) (ProtocolState.resharing s)
              ≡ quietly C (advanced (joining j)))
            × ResharesWith none (joining j) s)
  unfolding advance advance_waiting waiting_resharing advance_joining advance_running
  waiting_member_gives_up_share w r s me with_share without same small same_epoch share key old new
        found starts starts_without =
      (
        (
          reshares (some w.private_share) me with_share s,
          ground
              (arith, start_resharing-reshares (some w.private_share) me with_share s found starts),
          refl,
        ),
        (
          record { participants = s.old_participants; public_key = s.public_key },
          ground arith,
          (
            reshares none me without s,
            ground (arith, start_resharing-reshares none me without s found starts_without),
            refl,
          ),
        ),
      )

  -- The bug: a node that starts again with its share, while the contract reshares from its epoch to
  -- participants without it, panics; a node that runs at that time is refused as kicked.
  pub started_kicked_panics :
      (d : PersistentNodeData C) (r : RunningState C) (s : ResharingContractState)
      → s.old_epoch ≡ d.epoch
      → s.public_key ≡ d.public_key
      → r.epoch ≡ d.epoch
      → contains_account_id ctx.my_account_id s.new_participants ≡ false
      → (advance C ctx (started (some d)) (ProtocolState.resharing s) ≡ quietly C panicked)
        × (advance C ctx (running r) (ProtocolState.resharing s)
            ≡ quietly C (refused has_been_kicked))
  unfolding advance started_with start_resharing start_resharing_as advance_running
  started_kicked_panics d r s same key running_too kicked =
      ground (arith, contains_account_id-find_participant ctx.my_account_id s.new_participants)
