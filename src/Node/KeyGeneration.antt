-- ===== src/Node/KeyGeneration.antt =====
-- The participants that a node generates the key with, and those of the contract afterwards:
-- contract/src/primitives.rs, node/src/protocol/contract/primitives.rs and the generating phase of
-- node/src/protocol/consensus.rs together.
use mathlib.Core.List.{append_assoc, append-nil}
use mpc_recovery.Prelude.{
  ℕ, suc, ◌≤◌, ◌<◌, ◌≡◌, ap, inl, inr, [], ◌∷◌, ◌++◌, Option, some, arith, All, Option-cases, u32,
}
use mpc_recovery.Collections.Map
use mpc_recovery.Collections.Map.{insert-last}
use mpc_recovery.Contract.Primitives as OnChain
use mpc_recovery.Contract.State.{
  InitializingContractState as OnChainInitializing, RunningContractState as OnChainRunning,
  ProtocolContractState, Env,
}
use mpc_recovery.Contract.Conversion.{convert}
use mpc_recovery.Contract.Calls.{Call, step_protocol}
use mpc_recovery.Contract.Invariant.{IsValidInitializing}
use mpc_recovery.Contract.Quorum.{founding-IsQuorum}
use mpc_recovery.Node.Participants.{
  Participants, Candidates, CandidateInfo, enumerate_candidates, participants_of_candidates,
  info_of_candidate,
}
use mpc_recovery.Node.Participants.Laws.{eq_participants_refl}
use mpc_recovery.Node.CaitSith.{CaitSith}
use mpc_recovery.Node.ContractState.{
  Conversions, InitializingContractState, RunningContractState, ProtocolState, ◌>>=◌,
  enumerate_participants, participants_from, collect_candidates, candidates_from, initializing_from,
  running_from, collect_pk_votes,
}
use mpc_recovery.Node.State.{GeneratingState, generating}
use mpc_recovery.Node.Consensus.{Ctx, advanced, advance_generating, started_without, begin_keygen}

-- Each candidate is registered under its own account.
abbrev pub IsKeyed : OnChain.Candidates → Type 0
IsKeyed = All (λ e. e.1.account_id ≡ e.0)

abbrev decoded : OnChain.CandidateInfo → ℕ → CandidateInfo
decoded info pk = record {
  account_id = info.account_id;
  url = info.url;
  cipher_pk = info.cipher_pk;
  sign_pk = pk;
}

module _ (k : Conversions) where
  -- The candidates with their converted keys, in the same order.
  decode : OnChain.Candidates → Option Candidates
  decode [] = some []
  decode ((account_id, info) ∷ rest) = do
    sign_pk ← k.sign_key info.sign_pk
    others ← decode rest
    some ((account_id, decoded info sign_pk) ∷ others)

  All-append-last :
      (n key : ℕ) (info : CandidateInfo) (m : Candidates)
      → All (λ e. e.0 < n) m
      → n ≤ key
      → All (λ e. e.0 < suc key) (m ++ (key, info) ∷ [])
  All-append-last n key info [] h le = (omega arith, tt)
  All-append-last n key info ((j, w) ∷ m) h le = (omega arith, All-append-last n key info m h.1 le)

  collect-decode :
      (n : ℕ) (on_chain : OnChain.Candidates) (collected : Candidates)
      → Map.From n on_chain
      → All (λ e. e.0 < n) collected
      → collect_candidates k on_chain collected ≡ (do c ← decode on_chain; some (collected ++ c))
  unfolding collect_candidates decode
  collect-decode n [] collected sorted below = simp append-nil
  collect-decode n ((key, info) ∷ rest) collected sorted below =
      elim (Option-cases (k.sign_key info.sign_pk)) [
        | inl e ↦ rw e
        | inr (pk, e) ↦
            let next = collected ++ (key, decoded info pk) ∷ [] in
            let extended = insert-last n key (decoded info pk) collected below sorted.0 in
            let on =
              collect-decode (suc key) rest next sorted.1
                (All-append-last n key (decoded info pk) collected below sorted.0) in
            elim (Option-cases (decode rest)) [
              | inl missing ↦ rw (e, extended, on, missing)
              | inr (others, found) ↦
                  rw (e, extended, on, found)
                    (ap some (append_assoc collected ((key, decoded info pk) ∷ []) others))
            ]
      ]

  enumerate-decode :
      (position : ℕ) (on_chain : OnChain.Candidates) (c : Candidates) (collected : Participants)
      → IsKeyed on_chain
      → decode on_chain ≡ some c
      → enumerate_participants k position (convert on_chain) collected
        ≡ some (enumerate_candidates position c collected)
  unfolding enumerate_participants enumerate_candidates decode
  enumerate-decode position [] c collected keyed e = ground arith
  enumerate-decode position ((key, info) ∷ rest) c collected keyed e =
      elim (Option-cases (k.sign_key info.sign_pk)) [
        | inl missing ↦ absurd (ground arith)
        | inr (pk, found) ↦ elim (Option-cases (decode rest)) [
          | inl missing ↦ absurd (ground arith)
          | inr (others, rest_found) ↦ ground (
            arith,
            enumerate-decode (suc position) rest others
                (Map.insert (u32 position) (info_of_candidate position key (decoded info pk))
                  collected)
                keyed.1 rest_found,
          )
        ]
      ]

  candidates_from-decode :
      (on_chain : OnChain.Candidates)
      → Map.IsSorted on_chain
      → candidates_from k on_chain ≡ (do c ← decode on_chain; some c)
  unfolding candidates_from
  candidates_from-decode on_chain sorted = collect-decode 0 on_chain [] sorted tt

  participants_from-convert :
      (on_chain : OnChain.Candidates) (c : Candidates)
      → Map.IsSorted on_chain
      → IsKeyed on_chain
      → candidates_from k on_chain ≡ some c
      → participants_from k (convert on_chain) ≡ some (participants_of_candidates c)
  unfolding participants_from participants_of_candidates
  participants_from-convert on_chain c sorted keyed e = elim (Option-cases (decode on_chain)) [
    | inl missing ↦ absurd (ground (arith, candidates_from-decode on_chain sorted))
    | inr (d, found) ↦ ground (
      arith,
      candidates_from-decode on_chain sorted,
      enumerate-decode 0 on_chain d [] keyed found,
    )
  ]

  initializing_from-candidates :
      (i : OnChainInitializing) (read : InitializingContractState)
      → initializing_from k i ≡ some read
      → (candidates_from k i.candidates ≡ some read.candidates) × (read.threshold ≡ i.threshold)
  unfolding initializing_from
  initializing_from-candidates i read e = elim (Option-cases (candidates_from k i.candidates)) [
    | inl missing ↦ absurd (ground arith)
    | inr (c, found) ↦ elim (Option-cases (collect_pk_votes k i.pk_votes [])) [
      | inl no_votes ↦ absurd (ground arith)
      | inr (votes, counted) ↦ ground arith
    ]
  ]

  running_from-participants :
      (r : OnChainRunning) (read : RunningContractState)
      → running_from k r ≡ some read
      → (participants_from k r.participants ≡ some read.participants)
        × (read.threshold ≡ r.threshold)
        × (read.epoch ≡ r.epoch)
  unfolding running_from
  running_from-participants r read e = elim (Option-cases (participants_from k r.participants)) [
    | inl missing ↦ absurd (ground arith)
    | inr (ps, found) ↦ elim (Option-cases (k.affine_point r.public_key)) [
      | inl no_point ↦ absurd (ground arith)
      | inr (point, decoded_key) ↦ elim (Option-cases (candidates_from k r.candidates)) [
        | inl missing ↦ absurd (ground arith)
        | inr (c, candidates) ↦ ground arith
      ]
    ]
  ]

module _ (k : Conversions) (C : CaitSith) (ctx : Ctx C) where
  started_without-generating :
      (read : InitializingContractState) (g : GeneratingState C)
      → started_without C ctx (ProtocolState.initializing read) ≡ advanced (generating g)
      → (g.participants ≡ participants_of_candidates read.candidates)
        × (g.threshold ≡ read.threshold)
  unfolding started_without begin_keygen
  started_without-generating read g e = ground arith

  -- A node that begins to generate the key with the candidates that it has read from the initializing
  -- contract does not find itself in disagreement with the contract that a vote then makes running:
  -- what the contract turns these candidates into and the node reads back are the participants and
  -- the threshold with which it generates. Each candidate is registered under its own account.
  pub generating_agrees :
      (env : Env) (call : Call) (i : OnChainInitializing) (r : OnChainRunning)
      (read : InitializingContractState) (read_after : RunningContractState) (g : GeneratingState C)
      → IsValidInitializing i
      → IsKeyed i.candidates
      → initializing_from k i ≡ some read
      → started_without C ctx (ProtocolState.initializing read) ≡ advanced (generating g)
      → step_protocol env call (ProtocolContractState.initializing i)
        ≡ ProtocolContractState.running r
      → running_from k r ≡ some read_after
      → advance_generating C g (ProtocolState.running read_after) ≡ advanced (generating g)
  unfolding advance_generating
  generating_agrees env call i r read read_after g v keyed before began e after =
      let (_, made, threshold, epoch) = founding-IsQuorum env call i r v e in
      let (candidates, read_threshold) = initializing_from-candidates k i read before in
      let (participants, after_threshold, after_epoch) =
        running_from-participants k r read_after after in
      let (generated_with, generated_threshold) = started_without-generating read g began in
      ground (
        arith,
        participants_from-convert k i.candidates read.candidates v.candidates_sorted keyed
            candidates,
        eq_participants_refl read_after.participants,
      )
