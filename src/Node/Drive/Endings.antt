-- ===== src/Node/Drive/Endings.antt =====
-- The loop of node/src/protocol/cryptography.rs against what the protocol does when it is poked.
use mpc_recovery.Prelude.{
  ℕ, zero, suc, ◌<◌, ◌≡◌, refl, List, [], ◌∷◌, ◌++◌, append-nil, append_assoc, Option, some, length,
  arith,
}
use mpc_recovery.Node.CaitSith.{Protocol}
use mpc_recovery.Node.Participants.{Participant}
use mpc_recovery.Node.Poke.{Ending, Request, to_many, to_one, Runs, wrapped}
use mpc_recovery.Node.Drive.{returns, Addressed, to, turn, drive}

module _ {E D Output M : Type 0} (π : Protocol E D Output) (many : D → Option (List M))
    (one : Participant → D → Addressed M) (to_each : D → List M)
    (to_him : Participant → D → M) where
  -- The message can be addressed.
  abbrev pub IsSent : Request D → Type 0
  IsSent (to_many d) = many d ≡ some (to_each d)
  IsSent (to_one p d) = one p d ≡ to (to_him p d)

  abbrev pub AllSent : List (Request D) → Type 0
  AllSent [] = Unit
  AllSent (request ∷ requests) = IsSent request × AllSent requests

  pub drive-returns :
      (fuel : ℕ) (requests : List (Request D)) (s : π.State) (output : Output) (queue : List M)
      → Runs π requests s (Ending.returns output)
      → AllSent requests
      → length requests < fuel
      → (s' : π.State) × (drive π many one fuel s queue
          ≡ (returns s' output, queue ++ wrapped π to_each to_him requests))
  unfolding drive turn
  drive-returns zero requests s output queue r known h = absurd (omega arith)
  drive-returns (suc fuel) [] s output queue (s', e) known h =
      (s', rw e (rw (append-nil queue) refl))
  drive-returns (suc fuel) (to_many d ∷ requests) s output queue (t, e, r) (known, others) h =
      let (s', end) =
        drive-returns fuel requests t output (queue ++ to_each d) r others (omega arith) in
      (
        s',
        rw e (
            rw (known, turn)
              (rw end
                (rw (append_assoc queue (to_each d) (wrapped π to_each to_him requests)) refl))),
      )
  drive-returns (suc fuel) (to_one p d ∷ requests) s output queue (t, e, r) (known, others) h =
      let (s', end) =
        drive-returns fuel requests t output (queue ++ to_him p d ∷ []) r others (omega arith) in
      (
        s',
        rw e (
            rw (known, turn)
              (rw end (
                rw (append_assoc queue (to_him p d ∷ []) (wrapped π to_each to_him requests))
                  refl))),
      )
