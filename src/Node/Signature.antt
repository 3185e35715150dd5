-- ===== src/Node/Signature.antt =====
-- node/src/protocol/signature.rs: the manager of the signatures;
-- node/src/kdf.rs: the derivation of keys.
pub mod Pass
use mpc_recovery.Prelude.{
  ℕ, Bool, true, false, List, [], ◌∷◌, ◌++◌, Option, none, some, map, ◌==◌, if◌then◌else◌,
}
use mpc_recovery.Collections.Map
use mpc_recovery.Collections.Map.{Map}
use mpc_recovery.Collections.HashSet
use mpc_recovery.Node.Participants.{Participant}
use mpc_recovery.Node.CaitSith.{CaitSith, PresignOutput, Result, ok, err}
use mpc_recovery.Node.Message.{SignatureMessage}
use mpc_recovery.Node.Poke.{Ending, waits, returns, fails, exhausted, poke_loop}
use mpc_recovery.Node.Presignature
use mpc_recovery.Node.Presignature.{Presignature, PresignatureManager}

pub record SignatureGenerator (C : CaitSith) : Type 0 where
  pub protocol : C.sign.State
  pub proposer : Participant
  pub presignature_id : ℕ
  pub msg_hash : ℕ
  pub epsilon : C.Scalar
  pub delta : C.Scalar

pub record SignatureManager (C : CaitSith) : Type 0 where
  pub generators : Map (SignatureGenerator C)
  pub signatures : List (ℕ × ℕ × C.FullSignature)
  pub participants : List Participant
  pub me : Participant
  pub public_key : ℕ
  pub epoch : ℕ

-- `Result<SignatureGenerator, InitializationError>`, or the panic of `delta.invert().unwrap()`.
pub data Started (C : CaitSith) : Type 0 where
  started : SignatureGenerator C → Started C
  initialization_error : C.InitializationError → Started C
  crashed : Started C

-- `Result<Option<&mut SignatureProtocol>, InitializationError>`, or that panic.
pub data Joined (C : CaitSith) : Type 0 where
  joined : C.sign.State → Joined C
  presignature_is_missing : Joined C
  initialization_error : C.InitializationError → Joined C
  crashed : Joined C

module _ (C : CaitSith) where
  -- `kdf::derive_key`
  unfoldable pub derive_key : ℕ → C.Scalar → ℕ
  derive_key public_key epsilon = C.add_points (C.scale C.generator epsilon) public_key

  unfoldable pub new : List Participant → Participant → ℕ → ℕ → SignatureManager C
  new participants me public_key epoch = record {
    generators = [];
    signatures = [];
    participants = participants;
    me = me;
    public_key = public_key;
    epoch = epoch;
  }

  -- The presignature rerandomised by delta and moved by epsilon; `inverse` is `delta.invert()`.
  unfoldable pub tweak :
      PresignOutput C.Scalar → C.Scalar → C.Scalar → C.Scalar → PresignOutput C.Scalar
  tweak output epsilon delta inverse = record {
    big_r = C.scale output.big_r delta;
    k = C.mul output.k inverse;
    sigma = C.mul (C.add output.sigma (C.mul epsilon output.k)) inverse;
  }

  unfoldable pub generate_internal :
      List Participant
      → Participant
      → ℕ
      → Participant
      → Presignature C
      → ℕ
      → C.Scalar
      → C.Scalar
      → Started C
  unfolding tweak derive_key
  generate_internal participants me public_key proposer presignature msg_hash epsilon delta =
      elim (C.invert delta) [
        | none ↦ crashed
        | some inverse ↦
            (elim (C.new_sign participants me (derive_key public_key epsilon)
              (tweak presignature.output epsilon delta inverse) (C.scalar_of_bytes msg_hash)) [
                | err e ↦ initialization_error e
                | ok protocol ↦ started (record {
                  protocol = protocol;
                  proposer = proposer;
                  presignature_id = presignature.id;
                  msg_hash = msg_hash;
                  epsilon = epsilon;
                  delta = delta;
                })
              ])
      ]

  -- `generators.insert`, unless the start failed.
  unfoldable pub store : ℕ → Started C → SignatureManager C → SignatureManager C × Joined C
  store receipt_id (started g) m =
      (record m { generators = Map.insert receipt_id g m.generators }, joined g.protocol)
  store receipt_id (initialization_error e) m = (m, initialization_error e)
  store receipt_id crashed m = (m, crashed)

  unfoldable pub generate :
      ℕ
      → Presignature C
      → ℕ
      → ℕ
      → C.Scalar
      → C.Scalar
      → SignatureManager C
      → SignatureManager C × Joined C
  unfolding generate_internal store
  generate receipt_id presignature public_key msg_hash epsilon delta m =
      store receipt_id
        (generate_internal m.participants m.me public_key m.me presignature msg_hash epsilon delta)
        m

  unfoldable pub get_or_generate :
      ℕ
      → Participant
      → ℕ
      → ℕ
      → C.Scalar
      → C.Scalar
      → PresignatureManager C
      → SignatureManager C
      → PresignatureManager C × SignatureManager C × Joined C
  unfolding generate_internal store Presignature.take
  get_or_generate receipt_id proposer presignature_id msg_hash epsilon delta presignatures m =
      elim (Map.get receipt_id m.generators) [
        | some g ↦ (presignatures, m, joined g.protocol)
        | none ↦
            let (presignatures', found) = Presignature.take C presignature_id presignatures in
            (elim found [
              | none ↦ (presignatures', m, presignature_is_missing)
              | some presignature ↦
                  let (m', outcome) =
                    store receipt_id
                      (generate_internal m.participants m.me m.public_key proposer presignature
                        msg_hash epsilon delta)
                      m in
                  (presignatures', m', outcome)
            ])
      ]
