-- ===== src/Node/Tests/Managers.antt =====
-- The managers of node/src/protocol/{triple,presignature}.rs, with a few triples and protocols.
use mpc_recovery.Prelude.{ℕ, ◌≡◌, refl, List, [], ◌∷◌, none, some, arith}
use mpc_recovery.Collections.Map
use mpc_recovery.Collections.HashSet
use mpc_recovery.Node.CaitSith.{ok}
use mpc_recovery.Node.Message.{TripleMessage}
use mpc_recovery.Node.Poke.{poke_loop, turn, returns, to_many}
use mpc_recovery.Node.Triple.{
  Triple, TripleManager, take_two, poke, poke_all, poke_one, settle, complete, owner, report,
  to_all, message,
}
use mpc_recovery.Node.Triple.Passes.{Course, made, store, assigned, sent_by, poke-gives}
use mpc_recovery.Node.Triple.Conservation.{IsValidTriples}
use mpc_recovery.Node.Triple.Spending.{equal_triples_panic, taken_by_peer_panics}
use mpc_recovery.Node.Presignature.{
  Presignature, PresignatureManager, Joined, Picked, get_or_generate, take, take_mine,
}
use mpc_recovery.Node.Tests.{counts}

abbrev a_triple : ℕ → Triple counts
a_triple id = record { id = id; share = 8; public = 9 }

-- The triples 3 and 5 are there, and two protocols run: the first is at its end.
abbrev triples : TripleManager counts
triples = record {
  triples = (3, a_triple 3) ∷ (5, a_triple 5) ∷ [];
  generators = (4, 0) ∷ (7, 2) ∷ [];
  mine = 5 ∷ [];
  participants = 0 ∷ 1 ∷ [];
  me = 1;
  threshold = 2;
  epoch = 0;
}

evaluation : Unit {0}
unfolding Map.get Map.insert Map.remove HashSet.contains poke poke_all poke_one settle complete
    owner report to_all message poke_loop turn take_two
evaluation = tt

triples-IsValidTriples : IsValidTriples counts triples
unfolding evaluation
triples-IsValidTriples = record {
  triples_sorted = (omega arith, (omega arith, tt));
  generators_sorted = (omega arith, (omega arith, tt));
  fresh = (refl, (refl, tt));
}

abbrev sends : ℕ → ℕ → ℕ × TripleMessage counts
sends to body = (to, record { id = 7; epoch = 0; from = 1; body = body })

abbrev sent : List (ℕ × TripleMessage counts)
sent = sends 0 1 ∷ sends 1 1 ∷ sends 0 0 ∷ sends 1 0 ∷ []

poked : (poke counts 9 triples).1 ≡ ok sent
unfolding evaluation
poked = refl

-- The first protocol returns at once, and the second sends two messages to all before that.
abbrev courses : List (Course counts)
courses =
    record { id = 4; start = 0; requests = []; ending = returns (8, 9) }
    ∷ record { id = 7; start = 2; requests = to_many 1 ∷ to_many 0 ∷ []; ending = returns (8, 9) }
    ∷ []

poke-gives_example :
    ((poke counts 9 triples).0 ≡ record triples {
      generators = [];
      triples = store counts (made counts courses) triples.triples;
      mine = 5 ∷ assigned counts triples (made counts courses);
    })
    × ((poke counts 9 triples).1 ≡ ok (sent_by counts triples courses))
poke-gives_example =
    poke-gives counts 9 triples courses refl
      (((0, refl), omega arith), (((1, refl, (0, refl, (0, refl))), omega arith), tt))

abbrev triples_after : TripleManager counts
triples_after = record triples { triples = [] }

abbrev presignature : Presignature counts
presignature = record { id = 20; output = record { big_r = 1; k = 2; sigma = 3 } }

abbrev presignatures : PresignatureManager counts
presignatures = record {
  presignatures = (20, presignature) ∷ [];
  generators = [];
  mine = 20 ∷ [];
  participants = 0 ∷ 1 ∷ [];
  me = 1;
  threshold = 2;
  epoch = 0;
}

has_three : Map.get 3 triples.triples ≡ some (a_triple 3)
unfolding evaluation
has_three = refl

is_unknown : Map.get 21 presignatures.presignatures ≡ none
unfolding evaluation
is_unknown = refl

is_idle : Map.get 21 presignatures.generators ≡ none
unfolding evaluation
is_idle = refl

equal_triples_panic_example :
    (get_or_generate counts 21 3 3 triples 6 5 presignatures).2 ≡ Joined.crashed
equal_triples_panic_example =
    equal_triples_panic counts 21 3 6 5 (a_triple 3) triples presignatures
      triples-IsValidTriples.triples_sorted has_three is_unknown is_idle

taken_by_peer_panics_example :
    (take_mine counts (take counts 20 presignatures).0).1 ≡ Picked.crashed
taken_by_peer_panics_example =
    taken_by_peer_panics counts 20 [] presignatures (omega arith, tt) refl
