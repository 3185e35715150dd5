-- ===== src/Node/Triple/Conservation.antt =====
-- A pass over the generators loses no triple (node/src/protocol/triple.rs).
use mpc_recovery.Prelude.{
  ℕ, suc, ◌+◌, ◌≤◌, ◌<◌, ◌≡◌, refl, sym, ap, ◌∙◌, List, [], ◌∷◌, Option, none, some, arith, All,
  length, ◌⊎◌, inl, inr,
}
use mpc_recovery.Collections.Map.{
  Map, From, IsSorted, insert, get, get-insert, From-insert, From-mono, length-insert_new,
}
use mpc_recovery.Node.Participants.{Participant}
use mpc_recovery.Node.Message.{TripleMessage}
use mpc_recovery.Node.CaitSith.{CaitSith, ok}
use mpc_recovery.Node.Poke.{Ending, waits, returns, fails, exhausted, PokeError, protocol_error}
use mpc_recovery.Node.Triple.{
  TripleManager, Triple, Round, poke, poke_all, poke_one, settle, complete, keep, report,
  potential_len,
}

module _ (C : CaitSith) where
  -- The ids are not among the triples.
  abbrev pub Fresh : Map C.triple.State → Map (Triple C) → Type 0
  Fresh generators triples = All (λ g. get g.0 triples ≡ none) generators

  -- No id is both a triple's and a running protocol's.
  pub record IsValidTriples (m : TripleManager C) : Type 0 where
    pub triples_sorted : IsSorted m.triples
    pub generators_sorted : IsSorted m.generators
    pub fresh : Fresh m.generators m.triples

  -- What one generator's turn does: it stays, it fails, or it becomes a triple.
  abbrev Turned : ℕ → Option C.triple.State × Round C → Round C → Type 0
  Turned id (some s, r') r = (r'.triples ≡ r.triples) × (r'.result ≡ none → r.result ≡ none)
  Turned id (none, r') r =
      ((e : PokeError C.ProtocolError) × (r'.triples ≡ r.triples) × (r'.result ≡ some e))
      ⊎ ((t : Triple C) × (r'.triples ≡ insert id t r.triples) × (r'.result ≡ r.result))

  settle-Turned :
      (m : TripleManager C) (id : ℕ)
      (ending : Ending C.triple.State C.ProtocolError (C.TripleShare × C.TriplePub)
        × List (Participant × TripleMessage C))
      (r : Round C)
      → Turned id (settle C m id ending r) r
  unfolding settle complete
  settle-Turned m id (waits s, sent) r = (refl, λ e. e)
  settle-Turned m id (exhausted s, sent) r = (refl, λ e. absurd (ground arith))
  settle-Turned m id (fails e, sent) r = inl (protocol_error e, refl, refl)
  settle-Turned m id (returns (share, public), sent) r = inr (_, refl, refl)

  poke_one-Turned :
      (fuel : ℕ) (m : TripleManager C) (id : ℕ) (s : C.triple.State) (r : Round C)
      → Turned id (poke_one C fuel m id s r) r
  unfolding poke_one
  poke_one-Turned fuel m id s r = settle-Turned m id _ r

  -- What a pass over `gs`, whose ids are from `n` on, makes of the round `r`.
  record Passed (n : ℕ) (gs : Map C.triple.State) (r : Round C)
      (after : Map C.triple.State × Round C) : Type 0 where
    left_sorted : From n after.0
    triples_sorted : IsSorted after.1.triples
    fresh : Fresh after.0 after.1.triples
    below : (j : ℕ) → j < n → get j after.1.triples ≡ get j r.triples
    clean : after.1.result ≡ none → r.result ≡ none
    count :
        after.1.result ≡ none
        → length after.0 + length after.1.triples ≡ length gs + length r.triples

  Fresh-insert :
      (id : ℕ) (t : Triple C) (gs : Map C.triple.State) (m : Map (Triple C))
      → From (suc id) gs
      → Fresh gs m
      → Fresh gs (insert id t m)
  Fresh-insert id t [] m sorted fresh = tt
  Fresh-insert id t ((j, s) ∷ gs) m sorted fresh = (
    ground (arith, get-insert id j t m),
    Fresh-insert id t gs m (From-mono (suc j) (suc id) gs (omega arith) sorted.1) fresh.1,
  )

  -- The first generator has had its turn, and the others their pass after it.
  turn-Passed :
      (n id : ℕ) (s : C.triple.State) (gs : Map C.triple.State) (r : Round C)
      (kept : Option C.triple.State) (r' : Round C) (rest : Map C.triple.State × Round C)
      → n ≤ id
      → From (suc id) gs
      → IsSorted r.triples
      → Fresh ((id, s) ∷ gs) r.triples
      → Turned id (kept, r') r
      → (IsSorted r'.triples → Fresh gs r'.triples → Passed (suc id) gs r' rest)
      → Passed n ((id, s) ∷ gs) r (keep C id kept rest.0, rest.1)
  turn-Passed n id s gs r (some s') r' rest le gs_sorted sorted fresh (same, result) pass =
      let p = pass (rw same sorted) (rw same fresh.1) in
      record {
        left_sorted = (le, p.left_sorted);
        triples_sorted = p.triples_sorted;
        fresh = (p.below id (omega arith) ∙ ap (get id) same ∙ fresh.0, p.fresh);
        below = λ j lt. p.below j (omega arith) ∙ ap (get j) same;
        clean = λ e. result (p.clean e);
        count = λ e. ground (arith, p.count e, ap length same);
      }
  turn-Passed n id s gs r none r' rest le gs_sorted sorted fresh (inl (e, same, result)) pass =
      let p = pass (rw same sorted) (rw same fresh.1) in
      record {
        left_sorted = From-mono (suc id) n rest.0 (omega arith) p.left_sorted;
        triples_sorted = p.triples_sorted;
        fresh = p.fresh;
        below = λ j lt. p.below j (omega arith) ∙ ap (get j) same;
        clean = λ failed. absurd (ground (arith, p.clean failed));
        count = λ failed. absurd (ground (arith, p.clean failed));
      }
  turn-Passed n id s gs r none r' rest le gs_sorted sorted fresh (inr (t, added, result)) pass =
      let p =
        pass (rw added (From-insert 0 id t r.triples (omega arith) sorted))
          (rw added (Fresh-insert id t gs r.triples gs_sorted fresh.1)) in
      record {
        left_sorted = From-mono (suc id) n rest.0 (omega arith) p.left_sorted;
        triples_sorted = p.triples_sorted;
        fresh = p.fresh;
        below = λ j lt.
            p.below j (omega arith)
            ∙ ap (get j) added
            ∙ ground (arith, get-insert id j t r.triples);
        clean = λ e. sym result ∙ p.clean e;
        count = λ e.
            ground (arith, p.count e, ap length added, length-insert_new id t r.triples fresh.0);
      }

  poke_all-Passed :
      (n fuel : ℕ) (m : TripleManager C) (gs : Map C.triple.State) (r : Round C)
      → From n gs
      → IsSorted r.triples
      → Fresh gs r.triples
      → Passed n gs r (poke_all C fuel m gs r)
  unfolding poke_all
  poke_all-Passed n fuel m [] r gs_sorted sorted fresh = record {
    left_sorted = tt;
    triples_sorted = sorted;
    fresh = tt;
    below = λ j lt. refl;
    clean = λ e. e;
    count = λ e. refl;
  }
  poke_all-Passed n fuel m ((id, s) ∷ gs) r gs_sorted sorted fresh =
      let turned = poke_one C fuel m id s r in
      turn-Passed n id s gs r turned.0 turned.1 (poke_all C fuel m gs turned.1) gs_sorted.0
        gs_sorted.1 sorted fresh (poke_one-Turned fuel m id s r)
        λ sorted' fresh'. poke_all-Passed (suc id) fuel m gs turned.1 gs_sorted.1 sorted' fresh'

  report-ok :
      (result : Option (PokeError C.ProtocolError))
      (messages sent : List (Participant × TripleMessage C))
      → report C result messages ≡ ok sent
      → result ≡ none
  unfolding report
  report-ok none messages sent e = refl
  report-ok (some failure) messages sent e = absurd (ground arith)

  abbrev start : TripleManager C → Round C
  start m = record { triples = m.triples; mine = m.mine; messages = []; result = none }

  -- A pass keeps the ids of triples and running protocols apart, and both maps in order.
  poke-IsValidTriples :
      (fuel : ℕ) (m : TripleManager C) → IsValidTriples m → IsValidTriples (poke C fuel m).0
  unfolding poke
  poke-IsValidTriples fuel m v =
      let p =
        poke_all-Passed 0 fuel m m.generators (start m) v.generators_sorted v.triples_sorted
          v.fresh in
      record {
        triples_sorted = p.triples_sorted;
        generators_sorted = p.left_sorted;
        fresh = p.fresh;
      }

  -- A pass that reports no error leaves the number of triples that there will be as it is: each
  -- protocol goes on, or has become one triple under a new id.
  poke-potential_len :
      (fuel : ℕ) (m : TripleManager C) (sent : List (Participant × TripleMessage C))
      → IsValidTriples m
      → (poke C fuel m).1 ≡ ok sent
      → potential_len C (poke C fuel m).0 ≡ potential_len C m
  unfolding poke
  poke-potential_len fuel m sent v e =
      let p =
        poke_all-Passed 0 fuel m m.generators (start m) v.generators_sorted v.triples_sorted
          v.fresh in
      ground (arith, p.count (report-ok _ _ sent e))
