-- ===== src/Node/Triple/Passes.antt =====
-- What a pass over the running protocols does in all: `TripleManager::poke` of
-- node/src/protocol/triple.rs against what each of the protocols does when it is poked on its own.
use mpc_recovery.Prelude.{
  ℕ, ◌<◌, ◌≡◌, refl, ◌==◌, if◌then◌else◌, List, [], ◌∷◌, ◌++◌, map, append-nil, append_assoc,
  Option, none, some, Option-cases, inl, inr, Bool, true, false, All, length,
}
use mpc_recovery.Collections.Map
use mpc_recovery.Collections.Map.{Map}
use mpc_recovery.Node.Participants.{Participant}
use mpc_recovery.Node.CaitSith.{CaitSith, ok, err}
use mpc_recovery.Node.Message.{TripleMessage}
use mpc_recovery.Node.Poke.{
  Ending, waits, returns, fails, exhausted, Request, PokeError, protocol_error, Runs, wrapped,
  never_exhausted, poke_loop-Runs,
}
use mpc_recovery.Node.Triple.{
  Triple, TripleManager, Round, poke, poke_all, poke_one, settle, complete, report, keep, to_all,
  message, owner,
}

-- What one of the protocols does, poked until it waits, returns or fails.
pub record Course (C : CaitSith) : Type 0 where
  pub id : ℕ
  pub start : C.triple.State
  pub requests : List (Request C.Data)
  pub ending : Ending C.triple.State C.ProtocolError (C.TripleShare × C.TriplePub)

module _ (C : CaitSith) where
  abbrev pub entry : Course C → ℕ × C.triple.State
  entry c = (c.id, c.start)

  -- It takes less pokes than the fuel.
  abbrev pub IsCourse : ℕ → Course C → Type 0
  IsCourse fuel c = Runs C.triple c.requests c.start c.ending × length c.requests < fuel

  abbrev pub Ended : Type 0
  Ended = Ending C.triple.State C.ProtocolError (C.TripleShare × C.TriplePub)

  -- The protocols that wait.
  abbrev pub waiting_one : ℕ → Ended → Map C.triple.State → Map C.triple.State
  waiting_one id (waits s) rest = (id, s) ∷ rest
  waiting_one id _ rest = rest

  abbrev pub waiting : List (Course C) → Map C.triple.State
  waiting [] = []
  waiting (c ∷ courses) = waiting_one c.id c.ending (waiting courses)

  -- The triples that are made, by their ids.
  abbrev pub made_one : ℕ → Ended → List (Triple C) → List (Triple C)
  made_one id (returns (share, public)) rest =
      record { id = id; share = share; public = public } ∷ rest
  made_one id _ rest = rest

  abbrev pub made : List (Course C) → List (Triple C)
  made [] = []
  made (c ∷ courses) = made_one c.id c.ending (made courses)

  abbrev pub store : List (Triple C) → Map (Triple C) → Map (Triple C)
  store [] triples = triples
  store (t ∷ made) triples = store made (Map.insert t.id t triples)

  -- The ids of those that are assigned to this node.
  abbrev pub assigned : TripleManager C → List (Triple C) → List ℕ
  assigned m [] = []
  assigned m (t ∷ made) =
      let rest = assigned m made in if owner C m t.public == m.me then t.id ∷ rest else rest

  -- The error of the last protocol that fails.
  abbrev pub last_error :
      List (Course C) → Option (PokeError C.ProtocolError) → Option (PokeError C.ProtocolError)
  last_error [] found = found
  last_error (c ∷ courses) found = elim c.ending [
    | fails e ↦ last_error courses (some (protocol_error e))
    | _ ↦ last_error courses found
  ]

  abbrev pub sent_by : TripleManager C → List (Course C) → List (Participant × TripleMessage C)
  sent_by m [] = []
  sent_by m (c ∷ courses) =
      wrapped C.triple (to_all C m c.id) (λ p d. (p, message C m c.id d)) c.requests
      ++ sent_by m courses

  abbrev after : TripleManager C → List (Course C) → Round C → Round C
  after m courses r = record {
    triples = store (made courses) r.triples;
    mine = r.mine ++ assigned m (made courses);
    messages = r.messages ++ sent_by m courses;
    result = last_error courses r.result;
  }

  assigned_after :
      (b : Bool) (id : ℕ) (queue rest : List ℕ)
      → (if b then queue ++ id ∷ [] else queue) ++ rest ≡ queue ++ (if b then id ∷ rest else rest)
  assigned_after true id queue rest = append_assoc queue (id ∷ []) rest
  assigned_after false id queue rest = refl

  abbrev outbox : TripleManager C → Course C → List (Participant × TripleMessage C)
  outbox m c = wrapped C.triple (to_all C m c.id) (λ p d. (p, message C m c.id d)) c.requests

  abbrev then_rest :
      ℕ
      → TripleManager C
      → ℕ
      → Map C.triple.State
      → Option C.triple.State × Round C
      → Map C.triple.State × Round C
  then_rest fuel m id gs (kept, r) =
      let (others, r') = poke_all C fuel m gs r in (keep C id kept others, r')

  -- One protocol, and then the others.
  settle-after :
      (fuel : ℕ) (m : TripleManager C) (c : Course C) (ending : Ended) (courses : List (Course C))
      (r : Round C)
      → c.ending ≡ ending
      → Runs C.triple c.requests c.start ending
      → ((r' : Round C)
          → poke_all C fuel m (map entry courses) r' ≡ (waiting courses, after m courses r'))
      → then_rest fuel m c.id
          (map entry courses)
          (settle C m c.id (ending, r.messages ++ outbox m c) r)
        ≡ (waiting (c ∷ courses), after m (c ∷ courses) r)
  unfolding settle complete
  settle-after fuel m c (waits s) courses r e runs rest =
      rw (rest (record r { messages = r.messages ++ outbox m c }))
        (rw e (rw (append_assoc r.messages (outbox m c) (sent_by m courses)) refl))
  settle-after fuel m c (returns (share, public)) courses r e runs rest =
      rw
        (rest
          (complete C m c.id (share, public) (record r { messages = r.messages ++ outbox m c })))
        (rw e (
          rw (append_assoc r.messages (outbox m c) (sent_by m courses)) (
            rw (assigned_after (owner C m public == m.me) c.id r.mine (assigned m (made courses)))
              refl)))
  settle-after fuel m c (fails x) courses r e runs rest =
      rw (rest (record r { messages = r.messages ++ outbox m c; result = some (protocol_error x) }))
        (rw e (rw (append_assoc r.messages (outbox m c) (sent_by m courses)) refl))
  settle-after fuel m c (exhausted s) courses r e runs rest =
      absurd (never_exhausted C.triple c.requests c.start s runs)

  poke_all-after :
      (fuel : ℕ) (m : TripleManager C) (courses : List (Course C)) (r : Round C)
      → All (IsCourse fuel) courses
      → poke_all C fuel m (map entry courses) r ≡ (waiting courses, after m courses r)
  unfolding poke_all poke_one
  poke_all-after fuel m [] r h = rw (append-nil r.mine) (rw (append-nil r.messages) refl)
  poke_all-after fuel m (c ∷ courses) r (h, hs) =
      rw
        (poke_loop-Runs C.triple (to_all C m c.id) (λ p d. (p, message C m c.id d)) fuel c.requests
          c.start c.ending r.messages h.0 h.1)
        (settle-after fuel m c c.ending courses r refl h.0
          λ r'. poke_all-after fuel m courses r' hs)

  -- With one round of fuel more than any of the running protocols has messages to send, a pass of the
  -- manager does what the protocols do: those that wait are kept as they are left, the triples of
  -- those that return are stored in their order, and queued where they are assigned to this node.
  -- The messages of all are handed out in their order, unless a protocol fails: then nothing is handed
  -- out but the error of the last that fails, and the messages that all of them gave are lost.
  pub poke-gives :
      (fuel : ℕ) (m : TripleManager C) (courses : List (Course C))
      → m.generators ≡ map entry courses
      → All (IsCourse fuel) courses
      → ((poke C fuel m).0 ≡ record m {
        generators = waiting courses;
        triples = store (made courses) m.triples;
        mine = m.mine ++ assigned m (made courses);
      })
        × ((poke C fuel m).1
            ≡ (elim (last_error courses none) [ none ↦ ok (sent_by m courses) | some e ↦ err e ]))
  unfolding poke report
  poke-gives fuel m courses e h =
      let r : Round C = record {
        triples = m.triples;
        mine = m.mine;
        messages = [];
        result = none;
      } in
      rw e (
        rw (poke_all-after fuel m courses r h) (
          refl,
          elim (Option-cases (last_error courses none)) [
            | inl well ↦ rw well refl
            | inr (x, failure) ↦ rw failure refl
          ],
        ))
