-- ===== src/Node/Poke.antt =====
-- The loop that pokes one protocol until it waits, returns or fails, as in the managers' `poke` of
-- node/src/protocol/{triple,presignature,signature}.rs. `many` and `one` wrap what it sends.
use mpc_recovery.Prelude.{
  ℕ, zero, suc, ◌<◌, ◌≡◌, refl, List, [], ◌∷◌, ◌++◌, length, append_assoc, append-nil, arith,
}
use mpc_recovery.Node.CaitSith.{
  wait, send_many, send_private, return, Poked, acted, failed, Protocol,
}

pub data Ending (P E Output : Type 0) : Type 0 where
  waits : P → Ending P E Output
  returns : Output → Ending P E Output
  fails : E → Ending P E Output
  -- the fuel is spent
  exhausted : P → Ending P E Output

-- Why a pass over protocols ends without messages: one of them has failed, or the fuel is spent.
pub data PokeError (E : Type 0) : Type 0 where
  protocol_error : E → PokeError E
  spent : PokeError E

module _ {E D Output M : Type 0} (π : Protocol E D Output) (many : D → List M)
    (one : ℕ → D → M) where
  -- One round; `again` is the rest of the loop.
  unfoldable pub turn :
      (π.State → List M → Ending π.State E Output × List M)
      → Poked E D Output × π.State
      → List M
      → Ending π.State E Output × List M
  turn again (failed e, s) sent = (fails e, sent)
  turn again (acted wait, s) sent = (waits s, sent)
  turn again (acted (send_many d), s) sent = again s (sent ++ many d)
  turn again (acted (send_private p d), s) sent = again s (sent ++ one p d ∷ [])
  turn again (acted (return output), s) sent = (returns output, sent)

  unfoldable pub poke_loop : ℕ → π.State → List M → Ending π.State E Output × List M
  unfolding turn
  poke_loop zero s sent = (exhausted s, sent)
  poke_loop (suc fuel) s sent = turn (poke_loop fuel) (π.poke s) sent

-- What a protocol asks to be sent: to all, or to one participant.
pub data Request (D : Type 0) : Type 0 where
  to_many : D → Request D
  to_one : ℕ → D → Request D

-- Poked from the state `s` on, the protocol asks for these messages, one with each poke, and then
-- waits, returns or fails.
module _ {E D Output : Type 0} (π : Protocol E D Output) where
  abbrev pub Runs : List (Request D) → π.State → Ending π.State E Output → Type 0
  Runs [] s (waits s') = π.poke s ≡ (acted wait, s')
  Runs [] s (returns output) = (s' : π.State) × (π.poke s ≡ (acted (return output), s'))
  Runs [] s (fails e) = (s' : π.State) × (π.poke s ≡ (failed e, s'))
  Runs [] s (exhausted s') = ⊥
  Runs (to_many d ∷ requests) s ending =
      (s' : π.State) × (π.poke s ≡ (acted (send_many d), s')) × Runs requests s' ending
  Runs (to_one p d ∷ requests) s ending =
      (s' : π.State) × (π.poke s ≡ (acted (send_private p d), s')) × Runs requests s' ending

module _ {E D Output : Type 0} (π : Protocol E D Output) where
  pub never_exhausted :
      (requests : List (Request D)) (s s' : π.State) → ¬ Runs π requests s (exhausted s')
  never_exhausted [] s s' h = h
  never_exhausted (to_many d ∷ requests) s s' (t, e, h) = never_exhausted requests t s' h
  never_exhausted (to_one p d ∷ requests) s s' (t, e, h) = never_exhausted requests t s' h

module _ {E D Output M : Type 0} (π : Protocol E D Output) (many : D → List M)
    (one : ℕ → D → M) where
  abbrev pub wrapped : List (Request D) → List M
  wrapped [] = []
  wrapped (to_many d ∷ requests) = many d ++ wrapped requests
  wrapped (to_one p d ∷ requests) = one p d ∷ wrapped requests

  -- With one round of fuel more than the protocol has messages, the loop sends them all, in their
  -- order, and ends as the protocol does.
  pub poke_loop-Runs :
      (fuel : ℕ) (requests : List (Request D)) (s : π.State) (ending : Ending π.State E Output)
      (sent : List M)
      → Runs π requests s ending
      → length requests < fuel
      → poke_loop π many one fuel s sent ≡ (ending, sent ++ wrapped requests)
  unfolding poke_loop turn
  poke_loop-Runs zero requests s ending sent r h = absurd (omega arith)
  poke_loop-Runs (suc fuel) [] s (waits s') sent r h = rw r (rw (append-nil sent) refl)
  poke_loop-Runs (suc fuel) [] s (returns output) sent r h = rw r.1 (rw (append-nil sent) refl)
  poke_loop-Runs (suc fuel) [] s (fails e) sent r h = rw r.1 (rw (append-nil sent) refl)
  poke_loop-Runs (suc fuel) [] s (exhausted s') sent r h = absurd r
  poke_loop-Runs (suc fuel) (to_many d ∷ requests) s ending sent (s', e, r) h = rw e (
      rw (poke_loop-Runs fuel requests s' ending (sent ++ many d) r (omega arith))
        (rw (append_assoc sent (many d) (wrapped requests)) refl))
  poke_loop-Runs (suc fuel) (to_one p d ∷ requests) s ending sent (s', e, r) h = rw e (
      rw (poke_loop-Runs fuel requests s' ending (sent ++ one p d ∷ []) r (omega arith))
        (rw (append_assoc sent (one p d ∷ []) (wrapped requests)) refl))
