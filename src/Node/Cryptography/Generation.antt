-- ===== src/Node/Cryptography/Generation.antt =====
-- The generating node at its last round: `GeneratingState::progress` of
-- node/src/protocol/cryptography.rs.
use mpc_recovery.Prelude.{◌≡◌, List, [], ◌∷◌, ◌++◌, some}
use mpc_recovery.Collections.Map
use mpc_recovery.Node.CaitSith.{CaitSith}
use mpc_recovery.Node.Message.{MessageQueue}
use mpc_recovery.Node.Participants.{Participant, Participants, ParticipantInfo}
use mpc_recovery.Node.Poke.{Request, to_many, to_one}
use mpc_recovery.Node.Drive.{to_others}
use mpc_recovery.Node.Cryptography.{generating_message}

module _ (C : CaitSith) where
  -- The receiver of a private message is a participant, with this information.
  abbrev pub IsKnown : Participants → (Participant → ParticipantInfo) → Request C.Data → Type 0
  IsKnown participants info (to_many d) = Unit
  IsKnown participants info (to_one p d) = Map.get p participants ≡ some (info p)

  -- The messages that the protocol asks for, addressed.
  abbrev pub addressed :
      Participant
      → Participants
      → (Participant → ParticipantInfo)
      → List (Request C.Data)
      → MessageQueue C
  addressed me participants info [] = []
  addressed me participants info (to_many d ∷ requests) =
      to_others me (generating_message C d) participants ++ addressed me participants info requests
  addressed me participants info (to_one p d ∷ requests) =
      (info p, generating_message C d me) ∷ addressed me participants info requests
