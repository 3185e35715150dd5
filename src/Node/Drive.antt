-- ===== src/Node/Drive.antt =====
-- The loop that pokes the protocol of the key until it waits, returns or fails, as the generating and
-- the resharing node do it in node/src/protocol/cryptography.rs.
pub mod Endings
use mpc_recovery.Prelude.{
  ℕ, zero, suc, List, [], ◌∷◌, ◌++◌, Option, none, some, ◌==◌, if◌then◌else◌,
}
use mpc_recovery.Collections.Map
use mpc_recovery.Node.CaitSith.{
  wait, send_many, send_private, return, Poked, acted, failed, Protocol,
}
use mpc_recovery.Node.Participants.{Participant, Participants, ParticipantInfo}

-- How the loop ends, with the protocol as it is left behind.
pub data Halt (P E Output : Type 0) : Type 0 where
  waits : P → Halt P E Output
  returns : P → Output → Halt P E Output
  fails : P → E → Halt P E Output
  -- a private message to a participant who is not known
  unknown : P → Participant → Halt P E Output
  -- this node's own number is not known, which panics
  lost : P → Halt P E Output
  -- the fuel is spent
  exhausted : P → Halt P E Output

pub data Addressed (M : Type 0) : Type 0 where
  to : M → Addressed M
  unknown_participant : Addressed M
  unknown_sender : Addressed M

module _ {M : Type 0} where
  -- A message to every participant but the node itself.
  unfoldable pub to_others :
      Participant → (Participant → M) → Participants → List (ParticipantInfo × M)
  to_others me message [] = []
  to_others me message ((p, info) ∷ participants) =
      let others = to_others me message participants in
      if p == me then others else (info, message me) ∷ others

  -- The node's number is asked for only if there is a participant; `none` is a panic.
  unfoldable pub send_many_to :
      Option Participant → Participants → (Participant → M) → Option (List (ParticipantInfo × M))
  unfolding to_others
  send_many_to me [] message = some []
  send_many_to none (_ ∷ _) message = none
  send_many_to (some me) participants message = some (to_others me message participants)

  unfoldable pub send_private_to :
      Option Participant
      → Participants
      → Participant
      → (Participant → M)
      → Addressed (ParticipantInfo × M)
  send_private_to me participants receiver message = elim (Map.get receiver participants) [
    | none ↦ unknown_participant
    | some info ↦ elim me [ none ↦ unknown_sender | some from ↦ to (info, message from) ]
  ]

module _ {E D Output M : Type 0} (π : Protocol E D Output) (many : D → Option (List M))
    (one : Participant → D → Addressed M) where
  abbrev Loop : Type 0
  Loop = π.State → List M → Halt π.State E Output × List M

  unfoldable pub turn : Loop → Poked E D Output × π.State → List M → Halt π.State E Output × List M
  turn again (failed e, s) queue = (fails s e, queue)
  turn again (acted wait, s) queue = (waits s, queue)
  turn again (acted (send_many d), s) queue = elim (many d) [
    | none ↦ (lost s, queue)
    | some messages ↦ again s (queue ++ messages)
  ]
  turn again (acted (send_private p d), s) queue = elim (one p d) [
    | to message ↦ again s (queue ++ message ∷ [])
    | unknown_participant ↦ (unknown s p, queue)
    | unknown_sender ↦ (lost s, queue)
  ]
  turn again (acted (return output), s) queue = (returns s output, queue)

  unfoldable pub drive : ℕ → π.State → List M → Halt π.State E Output × List M
  unfolding turn
  drive zero s queue = (exhausted s, queue)
  drive (suc fuel) s queue = turn (drive fuel) (π.poke s) queue
