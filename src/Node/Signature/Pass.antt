-- ===== src/Node/Signature/Pass.antt =====
-- node/src/protocol/signature.rs: `SignatureManager::poke`, a pass over the running protocols.
use mpc_recovery.Prelude.{ℕ, List, [], ◌∷◌, ◌++◌, Option, none, some, map, ◌==◌, if◌then◌else◌}
use mpc_recovery.Collections.Map.{Map}
use mpc_recovery.Node.Participants.{Participant}
use mpc_recovery.Node.CaitSith.{CaitSith, Result, ok, err}
use mpc_recovery.Node.Message.{SignatureMessage}
use mpc_recovery.Node.Poke.{
  Ending, waits, returns, fails, exhausted, PokeError, protocol_error, spent, poke_loop,
}
use mpc_recovery.Node.Signature.{SignatureGenerator, SignatureManager}

pub record Round (C : CaitSith) : Type 0 where
  pub signatures : List (ℕ × ℕ × C.FullSignature)
  pub messages : List (Participant × SignatureMessage C)
  pub result : Option (PokeError C.ProtocolError)

abbrev pub Messages : CaitSith → Type 0
Messages C = Result (PokeError C.ProtocolError) (List (Participant × SignatureMessage C))

module _ (C : CaitSith) where
  unfoldable pub message :
      SignatureManager C → ℕ → SignatureGenerator C → C.Data → SignatureMessage C
  message m receipt_id g d = record {
    receipt_id = receipt_id;
    proposer = g.proposer;
    presignature_id = g.presignature_id;
    msg_hash = g.msg_hash;
    epsilon = g.epsilon;
    delta = g.delta;
    epoch = m.epoch;
    from = m.me;
    body = d;
  }

  unfoldable pub to_all :
      SignatureManager C
      → ℕ
      → SignatureGenerator C
      → C.Data
      → List (Participant × SignatureMessage C)
  unfolding message
  to_all m receipt_id g d = map (λ p. (p, message m receipt_id g d)) m.participants

  -- A finished protocol: the proposer keeps the signature to publish it.
  unfoldable pub complete :
      SignatureManager C → ℕ → SignatureGenerator C → C.FullSignature → Round C → Round C
  complete m receipt_id g output r = record r {
    signatures =
        if g.proposer == m.me
        then r.signatures ++ (receipt_id, g.msg_hash, output) ∷ []
        else r.signatures;
  }

  unfoldable pub settle :
      SignatureManager C
      → ℕ
      → SignatureGenerator C
      → Ending C.sign.State C.ProtocolError C.FullSignature
        × List (Participant × SignatureMessage C)
      → Round C
      → Option (SignatureGenerator C) × Round C
  unfolding complete
  settle m id g (waits s, sent) r = (some (record g { protocol = s }), record r { messages = sent })
  settle m id g (exhausted s, sent) r =
      (some (record g { protocol = s }), record r { messages = sent; result = some spent })
  settle m id g (fails e, sent) r =
      (none, record r { messages = sent; result = some (protocol_error e) })
  settle m id g (returns output, sent) r =
      (none, complete m id g output (record r { messages = sent }))

  unfoldable pub poke_one :
      ℕ
      → SignatureManager C
      → ℕ
      → SignatureGenerator C
      → Round C
      → Option (SignatureGenerator C) × Round C
  unfolding settle to_all message poke_loop
  poke_one fuel m id g r =
      settle m id g
        (poke_loop C.sign (to_all m id g) (λ p d. (p, message m id g d)) fuel g.protocol r.messages)
        r

  abbrev pub keep :
      ℕ → Option (SignatureGenerator C) → Map (SignatureGenerator C) → Map (SignatureGenerator C)
  keep id (some g) rest = (id, g) ∷ rest
  keep id none rest = rest

  unfoldable pub poke_all :
      ℕ
      → SignatureManager C
      → Map (SignatureGenerator C)
      → Round C
      → Map (SignatureGenerator C) × Round C
  unfolding poke_one
  poke_all fuel m [] r = ([], r)
  poke_all fuel m ((id, g) ∷ rest) r =
      let (kept, r') = poke_one fuel m id g r in
      let (others, r'') = poke_all fuel m rest r' in (keep id kept others, r'')

  unfoldable pub report :
      Option (PokeError C.ProtocolError) → List (Participant × SignatureMessage C) → Messages C
  report none messages = ok messages
  report (some e) messages = err e

  unfoldable pub poke : ℕ → SignatureManager C → SignatureManager C × Messages C
  unfolding poke_all report
  poke fuel m =
      let (left, r) =
        poke_all fuel m m.generators
          (record { signatures = m.signatures; messages = []; result = none }) in
      (record m { generators = left; signatures = r.signatures }, report r.result r.messages)
