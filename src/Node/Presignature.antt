-- ===== src/Node/Presignature.antt =====
-- node/src/protocol/presignature.rs: the manager of the presignatures.
pub mod Pass
use mpc_recovery.Prelude.{
  ℕ, ◌+◌, Bool, true, false, List, [], ◌∷◌, ◌++◌, Option, none, some, map, if◌then◌else◌, length,
}
use mpc_recovery.Collections.Map
use mpc_recovery.Collections.Map.{Map}
use mpc_recovery.Node.Participants.{Participant}
use mpc_recovery.Node.CaitSith.{CaitSith, PresignOutput, Result, ok, err}
use mpc_recovery.Node.Message.{PresignatureMessage}
use mpc_recovery.Node.Poke.{Ending, waits, returns, fails, exhausted, poke_loop}
use mpc_recovery.Node.Triple
use mpc_recovery.Node.Triple.{Triple, TripleManager, Taken, taken, missing, panicked}

pub record Presignature (C : CaitSith) : Type 0 where
  pub id : ℕ
  pub output : PresignOutput C.Scalar

pub record PresignatureGenerator (C : CaitSith) : Type 0 where
  pub protocol : C.presign.State
  pub triple0 : ℕ
  pub triple1 : ℕ
  pub mine : Bool

pub record PresignatureManager (C : CaitSith) : Type 0 where
  pub presignatures : Map (Presignature C)
  pub generators : Map (PresignatureGenerator C)
  pub mine : List ℕ
  pub participants : List Participant
  pub me : Participant
  pub threshold : ℕ
  pub epoch : ℕ

-- `Result<&mut PresignatureProtocol, GenerationError>`, or the panic of `take_two`.
pub data Joined (C : CaitSith) : Type 0 where
  joined : C.presign.State → Joined C
  already_generated : Joined C
  triple_is_missing : ℕ → Joined C
  initialization_error : C.InitializationError → Joined C
  crashed : Joined C

-- `take_mine`: `None`, a presignature, or the panic of an `unwrap`.
pub data Picked (C : CaitSith) : Type 0 where
  picked : Presignature C → Picked C
  nothing : Picked C
  crashed : Picked C

abbrev pub unwrap : {C : CaitSith} → Option (Presignature C) → Picked C
unwrap (some p) = picked p
unwrap none = crashed

module _ (C : CaitSith) where
  unfoldable pub new : List Participant → Participant → ℕ → ℕ → PresignatureManager C
  new participants me threshold epoch = record {
    presignatures = [];
    generators = [];
    mine = [];
    participants = participants;
    me = me;
    threshold = threshold;
    epoch = epoch;
  }

  abbrev pub len : PresignatureManager C → ℕ
  len m = length m.presignatures

  abbrev pub my_len : PresignatureManager C → ℕ
  my_len m = length m.mine

  abbrev pub potential_len : PresignatureManager C → ℕ
  potential_len m = length m.presignatures + length m.generators

  unfoldable pub generate_internal :
      PresignatureManager C
      → Triple C
      → Triple C
      → ℕ
      → C.Scalar
      → Bool
      → Result C.InitializationError (PresignatureGenerator C)
  generate_internal m t0 t1 public_key private_share mine =
      elim (C.new_presign m.participants m.me (t0.share, t0.public) (t1.share, t1.public)
        private_share public_key m.threshold) [
          | err e ↦ err e
          | ok protocol ↦
              ok (record { protocol = protocol; triple0 = t0.id; triple1 = t1.id; mine = mine })
        ]

  -- The random id is an argument.
  unfoldable pub generate :
      ℕ
      → Triple C
      → Triple C
      → ℕ
      → C.Scalar
      → PresignatureManager C
      → Result C.InitializationError (PresignatureManager C)
  unfolding generate_internal
  generate id t0 t1 public_key private_share m =
      elim (generate_internal m t0 t1 public_key private_share true) [
        | err e ↦ err e
        | ok generator ↦ ok (record m { generators = Map.insert id generator m.generators })
      ]

  -- The vacant entry: both triples are taken, then the protocol is started with them.
  unfoldable pub join_with :
      ℕ → Taken C → ℕ → C.Scalar → PresignatureManager C → PresignatureManager C × Joined C
  unfolding generate_internal
  join_with id (taken t0 t1) public_key private_share m =
      elim (generate_internal m t0 t1 public_key private_share false) [
        | err e ↦ (m, initialization_error e)
        | ok generator ↦ (
          record m { generators = Map.insert id generator m.generators },
          joined generator.protocol,
        )
      ]
  join_with id (missing triple) public_key private_share m = (m, triple_is_missing triple)
  join_with id panicked public_key private_share m = (m, crashed)

  unfoldable pub get_or_generate :
      ℕ
      → ℕ
      → ℕ
      → TripleManager C
      → ℕ
      → C.Scalar
      → PresignatureManager C
      → TripleManager C × PresignatureManager C × Joined C
  unfolding join_with Triple.take_two
  get_or_generate id triple0 triple1 triples public_key private_share m =
      if Map.contains_key id m.presignatures
      then (triples, m, already_generated)
      else (elim (Map.get id m.generators) [
        | some generator ↦ (triples, m, joined generator.protocol)
        | none ↦
            let (triples', result) = Triple.take_two C triple0 triple1 triples in
            let (m', outcome) = join_with id result public_key private_share m in
            (triples', m', outcome)
      ])

  unfoldable pub take_queued : List ℕ → PresignatureManager C → PresignatureManager C × Picked C
  take_queued [] m = (m, nothing)
  take_queued (id ∷ rest) m = (
    record m { mine = rest; presignatures = Map.remove id m.presignatures },
    unwrap (Map.get id m.presignatures),
  )

  unfoldable pub take_mine : PresignatureManager C → PresignatureManager C × Picked C
  unfolding take_queued
  take_mine m = take_queued m.mine m

  unfoldable pub take : ℕ → PresignatureManager C → PresignatureManager C × Option (Presignature C)
  take id m =
      (record m { presignatures = Map.remove id m.presignatures }, Map.get id m.presignatures)
