-- ===== src/Node/Outbox.antt =====
-- node/src/http_client.rs: the queue of messages to be sent.
use mpc_recovery.Prelude.{Bool, true, false, List, [], ◌∷◌, ◌++◌}
use mpc_recovery.Node.CaitSith.{CaitSith}
use mpc_recovery.Node.Message.{MpcMessage, MessageQueue}
use mpc_recovery.Node.Participants.{ParticipantInfo}

-- What is left of a queue, and what has been sent.
pub record Flush (C : CaitSith) : Type 0 where
  pub left : MessageQueue C
  pub sent : MessageQueue C

module _ (C : CaitSith) where
  -- `MessageQueue::push`
  unfoldable pub push : ParticipantInfo → MpcMessage C → MessageQueue C → MessageQueue C
  push info msg queue = queue ++ (info, msg) ∷ []

  -- `MessageQueue::send_encrypted`: the messages from the front on, until one cannot be sent. The
  -- list says how each attempt ends; where it is over, the next one fails.
  unfoldable pub send_encrypted : List Bool → MessageQueue C → Flush C
  send_encrypted attempts [] = record { left = []; sent = [] }
  send_encrypted [] (entry ∷ queue) = record { left = entry ∷ queue; sent = [] }
  send_encrypted (false ∷ attempts) (entry ∷ queue) = record { left = entry ∷ queue; sent = [] }
  send_encrypted (true ∷ attempts) (entry ∷ queue) =
      let rest = send_encrypted attempts queue in
      record { left = rest.left; sent = entry ∷ rest.sent }
