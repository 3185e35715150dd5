-- ===== src/Node/Presignature/Pass.antt =====
-- node/src/protocol/presignature.rs: `PresignatureManager::poke`, a pass over the running protocols.
use mpc_recovery.Prelude.{ℕ, List, [], ◌∷◌, ◌++◌, Option, none, some, map, if◌then◌else◌}
use mpc_recovery.Collections.Map
use mpc_recovery.Collections.Map.{Map}
use mpc_recovery.Node.Participants.{Participant}
use mpc_recovery.Node.CaitSith.{CaitSith, PresignOutput, Result, ok, err}
use mpc_recovery.Node.Message.{PresignatureMessage}
use mpc_recovery.Node.Poke.{
  Ending, waits, returns, fails, exhausted, PokeError, protocol_error, spent, poke_loop,
}
use mpc_recovery.Node.Presignature.{Presignature, PresignatureGenerator, PresignatureManager}

pub record Round (C : CaitSith) : Type 0 where
  pub presignatures : Map (Presignature C)
  pub mine : List ℕ
  pub messages : List (Participant × PresignatureMessage C)
  pub result : Option (PokeError C.ProtocolError)

abbrev pub Messages : CaitSith → Type 0
Messages C = Result (PokeError C.ProtocolError) (List (Participant × PresignatureMessage C))

module _ (C : CaitSith) where
  unfoldable pub message :
      PresignatureManager C → ℕ → PresignatureGenerator C → C.Data → PresignatureMessage C
  message m id g d = record {
    id = id;
    triple0 = g.triple0;
    triple1 = g.triple1;
    epoch = m.epoch;
    from = m.me;
    body = d;
  }

  unfoldable pub to_all :
      PresignatureManager C
      → ℕ
      → PresignatureGenerator C
      → C.Data
      → List (Participant × PresignatureMessage C)
  unfolding message
  to_all m id g d = map (λ p. (p, message m id g d)) m.participants

  -- A finished protocol: the presignature is stored, and queued if this node proposed it.
  unfoldable pub complete : ℕ → PresignatureGenerator C → PresignOutput C.Scalar → Round C → Round C
  complete id g output r = record r {
    presignatures = Map.insert id (record { id = id; output = output }) r.presignatures;
    mine = if g.mine then r.mine ++ id ∷ [] else r.mine;
  }

  -- The closure of `retain`: whether the generator stays, and the round after it.
  unfoldable pub settle :
      ℕ
      → PresignatureGenerator C
      → Ending C.presign.State C.ProtocolError (PresignOutput C.Scalar)
        × List (Participant × PresignatureMessage C)
      → Round C
      → Option (PresignatureGenerator C) × Round C
  unfolding complete
  settle id g (waits s, sent) r = (some (record g { protocol = s }), record r { messages = sent })
  settle id g (exhausted s, sent) r =
      (some (record g { protocol = s }), record r { messages = sent; result = some spent })
  settle id g (fails e, sent) r =
      (none, record r { messages = sent; result = some (protocol_error e) })
  settle id g (returns output, sent) r = (none, complete id g output (record r { messages = sent }))

  unfoldable pub poke_one :
      ℕ
      → PresignatureManager C
      → ℕ
      → PresignatureGenerator C
      → Round C
      → Option (PresignatureGenerator C) × Round C
  unfolding settle to_all message poke_loop
  poke_one fuel m id g r =
      settle id g
        (poke_loop C.presign (to_all m id g) (λ p d. (p, message m id g d)) fuel g.protocol
          r.messages)
        r

  abbrev pub keep :
      ℕ
      → Option (PresignatureGenerator C)
      → Map (PresignatureGenerator C)
      → Map (PresignatureGenerator C)
  keep id (some g) rest = (id, g) ∷ rest
  keep id none rest = rest

  unfoldable pub poke_all :
      ℕ
      → PresignatureManager C
      → Map (PresignatureGenerator C)
      → Round C
      → Map (PresignatureGenerator C) × Round C
  unfolding poke_one
  poke_all fuel m [] r = ([], r)
  poke_all fuel m ((id, g) ∷ rest) r =
      let (kept, r') = poke_one fuel m id g r in
      let (others, r'') = poke_all fuel m rest r' in (keep id kept others, r'')

  unfoldable pub report :
      Option (PokeError C.ProtocolError) → List (Participant × PresignatureMessage C) → Messages C
  report none messages = ok messages
  report (some e) messages = err e

  unfoldable pub poke : ℕ → PresignatureManager C → PresignatureManager C × Messages C
  unfolding poke_all report
  poke fuel m =
      let (left, r) =
        poke_all fuel m m.generators (record {
          presignatures = m.presignatures;
          mine = m.mine;
          messages = [];
          result = none;
        }) in
      (
        record m { generators = left; presignatures = r.presignatures; mine = r.mine },
        report r.result r.messages,
      )
