-- ===== src/Node/Cryptography/Running.antt =====
-- node/src/protocol/cryptography.rs: how the running node makes triples and presignatures.
use mpc_recovery.Prelude.{ℕ, ◌&&◌, List, [], ◌∷◌, Option, none, some, ltb, if◌then◌else◌}
use mpc_recovery.Collections.Map
use mpc_recovery.Collections.Map.{Map}
use mpc_recovery.Node.Participants.{Participant, Participants}
use mpc_recovery.Node.CaitSith.{CaitSith, Result, ok, err}
use mpc_recovery.Node.Message.{MpcMessage, MessageQueue}
use mpc_recovery.Node.Poke.{PokeError, protocol_error, spent}
use mpc_recovery.Node.Triple
use mpc_recovery.Node.Triple.{TripleManager, Mine}
use mpc_recovery.Node.Presignature
use mpc_recovery.Node.Presignature.Pass as PresignaturePass
use mpc_recovery.Node.Presignature.{Presignature, PresignatureManager, Picked}
use mpc_recovery.Node.SignQueue.{SignQueue}
use mpc_recovery.Node.Signature.{SignatureManager}
use mpc_recovery.Node.State.{RunningState}
use mpc_recovery.Node.Outbox.{push}
use mpc_recovery.Node.Cryptography.{
  CryptographicError, unknown_participant, cait_sith_initialization_error, cait_sith_protocol_error,
}

-- The node's state, with its managers and messages; the queue of requests, which is shared with the
-- indexer; the signatures sent to the contract.
pub record Working (C : CaitSith) : Type 0 where
  pub state : RunningState C
  pub queue : SignQueue C
  pub published : List (ℕ × ℕ × C.FullSignature)

-- A part of the work: it is done, or it ends early with an error, a panic or the end of the fuel. What
-- was done stays.
pub data Step (C : CaitSith) : Type 0 where
  done : Working C → Step C
  fails : CryptographicError C → Working C → Step C
  panics : Working C → Step C
  -- the fuel is spent
  stalls : Working C → Step C

-- The messages are queued one by one, up to one for an unknown participant.
pub record Queued (C : CaitSith) : Type 0 where
  pub messages : MessageQueue C
  pub unknown : Option Participant

module _ (C : CaitSith) where
  -- The parts in their order, each where the one before it is done.
  abbrev pub and_then : Step C → (Working C → Step C) → Step C
  and_then (done w) next = next w
  and_then (fails e w) next = fails e w
  and_then (panics w) next = panics w
  and_then (stalls w) next = stalls w

  abbrev pub with_messages : Working C → MessageQueue C → Working C
  with_messages w messages = record w { state = record w.state { messages = messages } }

  abbrev pub with_triples : Working C → TripleManager C → Working C
  with_triples w m = record w { state = record w.state { triple_manager = m } }

  abbrev pub with_presignatures : Working C → PresignatureManager C → Working C
  with_presignatures w m = record w { state = record w.state { presignature_manager = m } }

  abbrev pub with_signatures : Working C → SignatureManager C → Working C
  with_signatures w m = record w { state = record w.state { signature_manager = m } }

  -- `for (p, msg) in .. { let info = self.fetch_participant(&p)?; messages.push(info, msg) }`
  unfoldable pub push_to :
      {M : Type 0}
      → Participants
      → (M → MpcMessage C)
      → List (Participant × M)
      → MessageQueue C
      → Queued C
  unfolding push
  push_to participants wrap [] queue = record { messages = queue; unknown = none }
  push_to participants wrap ((p, message) ∷ rest) queue = elim (Map.get p participants) [
    | none ↦ record { messages = queue; unknown = some p }
    | some info ↦ push_to participants wrap rest (push C info (wrap message) queue)
  ]

  unfoldable pub queue_messages :
      {M : Type 0}
      → (M → MpcMessage C)
      → Result (PokeError C.ProtocolError) (List (Participant × M))
      → Working C
      → Step C
  unfolding push_to
  queue_messages wrap (err (protocol_error e)) w = fails (cait_sith_protocol_error e) w
  queue_messages wrap (err spent) w = stalls w
  queue_messages wrap (ok messages) w =
      let q = push_to w.state.participants wrap messages w.state.messages in
      elim q.unknown [
        | none ↦ done (with_messages w q.messages)
        | some p ↦ fails (unknown_participant p) (with_messages w q.messages)
      ]

  -- A triple is begun while there are fewer than two own ones and fewer than ten in all.
  unfoldable pub begin_triple : ℕ → Working C → Step C
  unfolding Triple.generate
  begin_triple id w =
      let m = w.state.triple_manager in
      if ltb (Triple.my_len C m) 2 && ltb (Triple.potential_len C m) 10
      then (elim (Triple.generate C id m) [
        | err e ↦ fails (cait_sith_initialization_error e) w
        | ok m' ↦ done (with_triples w m')
      ])
      else done w

  unfoldable pub poke_triples : ℕ → Working C → Step C
  unfolding Triple.poke queue_messages
  poke_triples fuel w =
      let (m, result) = Triple.poke C fuel w.state.triple_manager in
      queue_messages MpcMessage.triple result (with_triples w m)

  unfoldable pub spend_triples : ℕ → Mine C → Working C → Step C
  unfolding Presignature.generate
  spend_triples id Mine.nothing w = done w
  spend_triples id Mine.crashed w = panics w
  spend_triples id (Mine.pair t0 t1) w =
      elim (Presignature.generate C id t0 t1 w.state.public_key w.state.private_share
        w.state.presignature_manager) [
          | err e ↦ fails (cait_sith_initialization_error e) w
          | ok m ↦ done (with_presignatures w m)
        ]

  -- A presignature is begun in the same measure, with two own triples.
  unfoldable pub begin_presignature : ℕ → Working C → Step C
  unfolding spend_triples Triple.take_two_mine
  begin_presignature id w =
      let m = w.state.presignature_manager in
      if ltb (Presignature.my_len C m) 2 && ltb (Presignature.potential_len C m) 10
      then (let (t, found) = Triple.take_two_mine C w.state.triple_manager in
          spend_triples id found (with_triples w t))
      else done w

  unfoldable pub poke_presignatures : ℕ → Working C → Step C
  unfolding PresignaturePass.poke queue_messages
  poke_presignatures fuel w =
      let (m, result) = PresignaturePass.poke C fuel w.state.presignature_manager in
      queue_messages MpcMessage.presignature result (with_presignatures w m)
