-- ===== src/Node/Intake.antt =====
-- node/src/protocol/message.rs: the loops of `RunningState::handle` over the presignatures' and the
-- signatures' messages.
use mpc_recovery.Prelude.{ℕ, List, [], ◌∷◌, ◌++◌, Option, none, some}
use mpc_recovery.Collections.Map
use mpc_recovery.Collections.Map.{Map}
use mpc_recovery.Node.CaitSith.{CaitSith}
use mpc_recovery.Node.Message.{PresignatureMessage, SignatureMessage}
use mpc_recovery.Node.Triple.{TripleManager}
use mpc_recovery.Node.Presignature
use mpc_recovery.Node.Presignature.{PresignatureManager}
use mpc_recovery.Node.Signature
use mpc_recovery.Node.Signature.{SignatureManager}

-- Why the handler ended early: an error that it returns, or a panic.
pub data Stop (C : CaitSith) : Type 0 where
  failed : C.InitializationError → Stop C
  crashed : Stop C

-- After the messages of one bin, or of several: the managers, what stays in the bins, and whether
-- the handler ended early. On an early end the messages that were put aside are lost.
pub record PresignaturePass (C : CaitSith) (B : Type 0) : Type 0 where
  pub triples : TripleManager C
  pub manager : PresignatureManager C
  pub left : B
  pub stop : Option (Stop C)

pub record SignaturePass (C : CaitSith) (B : Type 0) : Type 0 where
  pub presignatures : PresignatureManager C
  pub manager : SignatureManager C
  pub left : B
  pub stop : Option (Stop C)

module _ (C : CaitSith) where
  -- A protocol after a message, put back in its generator.
  unfoldable pub put_presignature :
      ℕ → C.presign.State → PresignatureManager C → PresignatureManager C
  put_presignature id s m = elim (Map.get id m.generators) [
    | none ↦ m
    | some g ↦ record m { generators = Map.insert id (record g { protocol = s }) m.generators }
  ]

  unfoldable pub put_signature : ℕ → C.sign.State → SignatureManager C → SignatureManager C
  put_signature id s m = elim (Map.get id m.generators) [
    | none ↦ m
    | some g ↦ record m { generators = Map.insert id (record g { protocol = s }) m.generators }
  ]

  -- The messages of one presignature, with those put aside so far.
  unfoldable pub read_presignatures :
      ℕ
      → C.Scalar
      → ℕ
      → List (PresignatureMessage C)
      → List (PresignatureMessage C)
      → TripleManager C
      → PresignatureManager C
      → PresignaturePass C (List (PresignatureMessage C))
  unfolding put_presignature Presignature.get_or_generate
  read_presignatures public_key private_share id [] leftover t m = record {
    triples = t;
    manager = m;
    left = leftover;
    stop = none;
  }
  read_presignatures public_key private_share id (a ∷ rest) leftover t m =
      let (t', m', outcome) =
        Presignature.get_or_generate C id a.triple0 a.triple1 t public_key private_share m in
      elim outcome [
        | Presignature.Joined.joined s ↦
            read_presignatures public_key private_share id rest leftover t'
              (put_presignature id (C.presign.message s a.from a.body) m')
        | Presignature.Joined.already_generated ↦
            read_presignatures public_key private_share id rest leftover t' m'
        | Presignature.Joined.triple_is_missing _ ↦
            read_presignatures public_key private_share id rest (leftover ++ a ∷ []) t' m'
        | Presignature.Joined.initialization_error e ↦ record {
          triples = t';
          manager = m';
          left = rest;
          stop = some (failed e);
        }
        | Presignature.Joined.crashed ↦ record {
          triples = t';
          manager = m';
          left = rest;
          stop = some crashed;
        }
      ]

  unfoldable pub handle_presignatures :
      ℕ
      → C.Scalar
      → Map (List (PresignatureMessage C))
      → TripleManager C
      → PresignatureManager C
      → PresignaturePass C (Map (List (PresignatureMessage C)))
  unfolding read_presignatures
  handle_presignatures public_key private_share [] t m = record {
    triples = t;
    manager = m;
    left = [];
    stop = none;
  }
  handle_presignatures public_key private_share ((id, messages) ∷ rest) t m =
      let p = read_presignatures public_key private_share id messages [] t m in
      elim p.stop [
        | some stop ↦ record {
          triples = p.triples;
          manager = p.manager;
          left = (id, p.left) ∷ rest;
          stop = some stop;
        }
        | none ↦
            let others = handle_presignatures public_key private_share rest p.triples p.manager in
            record {
              triples = others.triples;
              manager = others.manager;
              left = (id, p.left) ∷ others.left;
              stop = others.stop;
            }
      ]

  -- The messages of one signature, with those put aside so far.
  unfoldable pub read_signatures :
      ℕ
      → List (SignatureMessage C)
      → List (SignatureMessage C)
      → PresignatureManager C
      → SignatureManager C
      → SignaturePass C (List (SignatureMessage C))
  unfolding put_signature Signature.get_or_generate
  read_signatures receipt_id [] leftover t m = record {
    presignatures = t;
    manager = m;
    left = leftover;
    stop = none;
  }
  read_signatures receipt_id (a ∷ rest) leftover t m =
      let (t', m', outcome) =
        Signature.get_or_generate C receipt_id a.proposer a.presignature_id a.msg_hash a.epsilon
          a.delta t m in
      elim outcome [
        | Signature.Joined.joined s ↦
            read_signatures receipt_id rest leftover t'
              (put_signature receipt_id (C.sign.message s a.from a.body) m')
        | Signature.Joined.presignature_is_missing ↦
            read_signatures receipt_id rest (leftover ++ a ∷ []) t' m'
        | Signature.Joined.initialization_error e ↦ record {
          presignatures = t';
          manager = m';
          left = rest;
          stop = some (failed e);
        }
        | Signature.Joined.crashed ↦ record {
          presignatures = t';
          manager = m';
          left = rest;
          stop = some crashed;
        }
      ]

  unfoldable pub handle_signatures :
      Map (List (SignatureMessage C))
      → PresignatureManager C
      → SignatureManager C
      → SignaturePass C (Map (List (SignatureMessage C)))
  unfolding read_signatures
  handle_signatures [] t m = record { presignatures = t; manager = m; left = []; stop = none }
  handle_signatures ((receipt_id, messages) ∷ rest) t m =
      let p = read_signatures receipt_id messages [] t m in
      elim p.stop [
        | some stop ↦ record {
          presignatures = p.presignatures;
          manager = p.manager;
          left = (receipt_id, p.left) ∷ rest;
          stop = some stop;
        }
        | none ↦
            let others = handle_signatures rest p.presignatures p.manager in
            record {
              presignatures = others.presignatures;
              manager = others.manager;
              left = (receipt_id, p.left) ∷ others.left;
              stop = others.stop;
            }
      ]
