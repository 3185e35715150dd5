-- ===== src/Node/Triple.antt =====
-- node/src/protocol/triple.rs: the manager of the Beaver triples.
pub mod Spending
pub mod Conservation
pub mod Passes
use mpc_recovery.Prelude.{
  ℕ, suc, ◌+◌, ◌%◌, ◌<◌, Bool, true, false, List, [], ◌∷◌, ◌++◌, Option, none, some, map, ltb, ◌==◌,
  if◌then◌else◌, length, get_or,
}
use mpc_recovery.Collections.Map
use mpc_recovery.Collections.Map.{Map}
use mpc_recovery.Node.Participants.{Participant}
use mpc_recovery.Node.CaitSith.{CaitSith, Result, ok, err}
use mpc_recovery.Node.Message.{TripleMessage}
use mpc_recovery.Node.Poke.{
  Ending, waits, returns, fails, exhausted, PokeError, protocol_error, spent, poke_loop,
}

pub record Triple (C : CaitSith) : Type 0 where
  pub id : ℕ
  pub share : C.TripleShare
  pub public : C.TriplePub

pub record TripleManager (C : CaitSith) : Type 0 where
  pub triples : Map (Triple C)
  pub generators : Map C.triple.State
  pub mine : List ℕ
  pub participants : List Participant
  pub me : Participant
  pub threshold : ℕ
  pub epoch : ℕ

-- `Result<(Triple, Triple), TripleId>`; `panicked` is the `unwrap` of a triple that is not there.
pub data Taken (C : CaitSith) : Type 0 where
  taken : Triple C → Triple C → Taken C
  missing : ℕ → Taken C
  panicked : Taken C

-- What `take_two_mine` gives: `Option<(Triple, Triple)>`, or the panic inside it.
pub data Mine (C : CaitSith) : Type 0 where
  pair : Triple C → Triple C → Mine C
  nothing : Mine C
  crashed : Mine C

-- `Result::ok`
abbrev pub ok_of : {C : CaitSith} → Taken C → Mine C
ok_of (taken t0 t1) = pair t0 t1
ok_of (missing id) = nothing
ok_of panicked = crashed

-- A removed entry, by `remove(&id).unwrap()` twice.
abbrev pub both : {C : CaitSith} → Option (Triple C) → Option (Triple C) → Taken C
both (some t0) (some t1) = taken t0 t1
both (some t0) none = panicked
both none _ = panicked

-- What a pass over the generators has done so far.
pub record Round (C : CaitSith) : Type 0 where
  pub triples : Map (Triple C)
  pub mine : List ℕ
  pub messages : List (Participant × TripleMessage C)
  pub result : Option (PokeError C.ProtocolError)

-- `Result<Vec<(Participant, TripleMessage)>, ProtocolError>`
abbrev pub Messages : CaitSith → Type 0
Messages C = Result (PokeError C.ProtocolError) (List (Participant × TripleMessage C))

module _ (C : CaitSith) where
  unfoldable pub new : List Participant → Participant → ℕ → ℕ → TripleManager C
  new participants me threshold epoch = record {
    triples = [];
    generators = [];
    mine = [];
    participants = participants;
    me = me;
    threshold = threshold;
    epoch = epoch;
  }

  abbrev pub len : TripleManager C → ℕ
  len m = length m.triples

  abbrev pub my_len : TripleManager C → ℕ
  my_len m = length m.mine

  abbrev pub potential_len : TripleManager C → ℕ
  potential_len m = len m + length m.generators

  -- The random id is an argument.
  unfoldable pub generate : ℕ → TripleManager C → Result C.InitializationError (TripleManager C)
  generate id m = elim (C.new_triple m.participants m.me m.threshold) [
    | err e ↦ err e
    | ok protocol ↦ ok (record m { generators = Map.insert id protocol m.generators })
  ]

  unfoldable pub take_two : ℕ → ℕ → TripleManager C → TripleManager C × Taken C
  take_two id0 id1 m =
      if Map.contains_key id0 m.triples
      then (if Map.contains_key id1 m.triples
          then (
            record m { triples = Map.remove id1 (Map.remove id0 m.triples) },
            both (Map.get id0 m.triples) (Map.get id1 (Map.remove id0 m.triples)),
          )
          else (m, missing id1))
      else (m, missing id0)

  -- The match on the front of `mine`: both ids are popped before either triple is looked up.
  unfoldable pub take_queued : List ℕ → TripleManager C → TripleManager C × Mine C
  unfolding take_two
  take_queued (id0 ∷ id1 ∷ rest) m =
      let (m', result) = take_two id0 id1 (record m { mine = rest }) in (m', ok_of result)
  take_queued _ m = (m, nothing)

  unfoldable pub take_two_mine : TripleManager C → TripleManager C × Mine C
  unfolding take_queued
  take_two_mine m = take_queued m.mine m

  -- Whether there is a protocol to hand messages to: `some protocol` or `none`.
  unfoldable pub get_or_generate :
      ℕ → TripleManager C → Result C.InitializationError (TripleManager C × Option C.triple.State)
  get_or_generate id m =
      if Map.contains_key id m.triples then ok (m, none) else (elim (Map.get id m.generators) [
        | some protocol ↦ ok (m, some protocol)
        | none ↦ (elim (C.new_triple m.participants m.me m.threshold) [
          | err e ↦ err e
          | ok protocol ↦
              ok (record m { generators = Map.insert id protocol m.generators }, some protocol)
        ])
      ])

  unfoldable pub message : TripleManager C → ℕ → C.Data → TripleMessage C
  message m id d = record { id = id; epoch = m.epoch; from = m.me; body = d }

  unfoldable pub to_all : TripleManager C → ℕ → C.Data → List (Participant × TripleMessage C)
  unfolding message
  to_all m id d = map (λ p. (p, message m id d)) m.participants

  -- The participant to whom a new triple is assigned. The participants include the node itself, so
  -- the index is in range and `me` is never the fallback.
  unfoldable pub owner : TripleManager C → C.TriplePub → Participant
  owner m public = get_or m.participants (C.entropy public % length m.participants) m.me

  -- A finished protocol: the triple is stored, and queued if it is assigned to this node.
  unfoldable pub complete : TripleManager C → ℕ → C.TripleShare × C.TriplePub → Round C → Round C
  unfolding owner
  complete m id (share, public) r = record r {
    mine = if owner m public == m.me then r.mine ++ id ∷ [] else r.mine;
    triples = Map.insert id (record { id = id; share = share; public = public }) r.triples;
  }

  -- The closure of `retain`: whether the generator stays, and the round after it.
  unfoldable pub settle :
      TripleManager C
      → ℕ
      → Ending C.triple.State C.ProtocolError (C.TripleShare × C.TriplePub)
        × List (Participant × TripleMessage C)
      → Round C
      → Option C.triple.State × Round C
  unfolding complete
  settle m id (waits s, sent) r = (some s, record r { messages = sent })
  settle m id (exhausted s, sent) r = (some s, record r { messages = sent; result = some spent })
  settle m id (fails e, sent) r =
      (none, record r { messages = sent; result = some (protocol_error e) })
  settle m id (returns output, sent) r = (none, complete m id output (record r { messages = sent }))

  unfoldable pub poke_one :
      ℕ → TripleManager C → ℕ → C.triple.State → Round C → Option C.triple.State × Round C
  unfolding settle to_all message poke_loop
  poke_one fuel m id protocol r =
      settle m id
        (poke_loop C.triple (to_all m id) (λ p d. (p, message m id d)) fuel protocol r.messages) r

  -- An entry that `retain` keeps, or drops.
  abbrev pub keep : ℕ → Option C.triple.State → Map C.triple.State → Map C.triple.State
  keep id (some protocol) rest = (id, protocol) ∷ rest
  keep id none rest = rest

  unfoldable pub poke_all :
      ℕ → TripleManager C → Map C.triple.State → Round C → Map C.triple.State × Round C
  unfolding poke_one
  poke_all fuel m [] r = ([], r)
  poke_all fuel m ((id, protocol) ∷ rest) r =
      let (kept, r') = poke_one fuel m id protocol r in
      let (others, r'') = poke_all fuel m rest r' in (keep id kept others, r'')

  -- `result.map(|_| messages)`
  unfoldable pub report :
      Option (PokeError C.ProtocolError) → List (Participant × TripleMessage C) → Messages C
  report none messages = ok messages
  report (some e) messages = err e

  unfoldable pub poke : ℕ → TripleManager C → TripleManager C × Messages C
  unfolding poke_all report
  poke fuel m =
      let (left, r) =
        poke_all fuel m m.generators
          (record { triples = m.triples; mine = m.mine; messages = []; result = none }) in
      (
        record m { generators = left; triples = r.triples; mine = r.mine },
        report r.result r.messages,
      )
