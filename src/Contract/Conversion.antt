-- ===== src/Contract/Conversion.antt =====
-- `From<Candidates> for Participants` of contract/src/primitives.rs.
use mpc_recovery.Prelude.{ℕ, suc, ◌≤◌, ◌<◌, ◌≡◌, sym, ◌∙◌, [], ◌∷◌, ◌++◌, map, arith, All}
use mathlib.Core.List.{append-nil, append_assoc}
use mpc_recovery.Collections.Map
use mpc_recovery.Contract.Primitives.{
  Participants, Candidates, ParticipantInfo, participant_of_candidate, insert_candidates,
  participants_of_candidates,
}

-- The candidates' entries, each under its own key.
abbrev pub convert : Candidates → Participants
convert = map (λ e. (e.0, participant_of_candidate e.1))

All-append-last :
    (n k : ℕ) (info : ParticipantInfo) (m : Participants)
    → All (λ e. e.0 < n) m
    → n ≤ k
    → All (λ e. e.0 < suc k) (m ++ (k, info) ∷ [])
All-append-last n k info [] h le = (omega arith, tt)
All-append-last n k info ((j, w) ∷ m) h le = (omega arith, All-append-last n k info m h.1 le)

insert_candidates-append :
    (n : ℕ) (acc : Participants) (c : Candidates)
    → All (λ e. e.0 < n) acc
    → Map.From n c
    → insert_candidates acc c ≡ acc ++ convert c
unfolding insert_candidates
insert_candidates-append n acc [] below sorted = sym (append-nil acc)
insert_candidates-append n acc ((k, info) ∷ c) below sorted =
    rw (Map.insert-last n k (participant_of_candidate info) acc below sorted.0) (
      insert_candidates-append (suc k) (acc ++ (k, participant_of_candidate info) ∷ []) c
        (All-append-last n k (participant_of_candidate info) acc below sorted.0) sorted.1
      ∙ append_assoc acc ((k, participant_of_candidate info) ∷ []) (convert c))

-- Inserting one after the other copies the candidates of a sorted map, in their order.
pub participants_of_candidates-convert :
    (c : Candidates) → Map.IsSorted c → participants_of_candidates c ≡ convert c
unfolding participants_of_candidates
participants_of_candidates-convert c s = insert_candidates-append 0 [] c tt s

From-convert : (n : ℕ) (c : Candidates) → Map.From n c → Map.From n (convert c)
From-convert n [] s = tt
From-convert n ((k, info) ∷ c) s = (s.0, From-convert (suc k) c s.1)

pub participants_of_candidates-IsSorted :
    (c : Candidates) → Map.IsSorted c → Map.IsSorted (participants_of_candidates c)
participants_of_candidates-IsSorted c s =
    rw (participants_of_candidates-convert c s) (From-convert 0 c s)
