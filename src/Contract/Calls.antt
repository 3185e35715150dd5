-- ===== src/Contract/Calls.antt =====
-- One call of the contract, by anyone and of any method that changes it, and a history of calls. A
-- call that panics leaves the contract as it was.
use mpc_recovery.Prelude.{ℕ, ◌≡◌, List, [], ◌∷◌}
use mpc_recovery.Collections.Map
use mpc_recovery.Contract.Primitives.{AccountId, PublicKey, CandidateInfo, Candidates}
use mpc_recovery.Contract.State.{
  not_initialized, MpcContract, ProtocolContractState, Response, Result, ok, panic, Env,
}
use mpc_recovery.Contract.Membership.{init, join, vote_join, vote_leave, vote_pk, vote_reshared}
use mpc_recovery.Contract.Requests.{Pending, sign, sign_helper, respond, clean}

-- `init` is given its candidates as the entries of a JSON object. `clean` is given the storage keys,
-- with the key under which the SDK stores the entry of a payload.
pub data Call : Type 0 where
  inits : ℕ → List (AccountId × CandidateInfo) → Call
  cleans : (ℕ → ℕ) → List ℕ → Call
  joins : ℕ → ℕ → PublicKey → Call
  votes_join votes_leave : AccountId → Call
  votes_pk : PublicKey → Call
  votes_reshared : ℕ → Call
  signs : ℕ → Call
  helps : ℕ → ℕ → Call
  responds : ℕ → Response → Call

-- A panic rolls back.
abbrev pub commit {ℓ κ} : {S : Type ℓ} {R : Type κ} → S → Result (S × R) → S
commit s (ok (t, _)) = t
commit s (panic _) = s

abbrev pub commit_state {ℓ} : {S : Type ℓ} → S → Result S → S
commit_state s (ok t) = t
commit_state s (panic _) = s

-- The entries are inserted into a `BTreeMap` in their order.
unfoldable pub collect : List (AccountId × CandidateInfo) → Candidates → Candidates
collect [] collected = collected
collect ((account, info) ∷ entries) collected = collect entries (Map.insert account info collected)

-- What a call does to the protocol state.
unfoldable pub step_protocol : Env → Call → ProtocolContractState → ProtocolContractState
unfolding init clean collect
step_protocol env (inits threshold entries) s =
    let c : MpcContract = record { protocol_state = s; pending_requests = [] } in
    (init threshold (collect entries []) c).protocol_state
step_protocol env (cleans storage_key keys) s =
    let c : MpcContract = record { protocol_state = s; pending_requests = [] } in
    (commit_state c (clean storage_key env keys c)).protocol_state
step_protocol env (joins url cipher_pk sign_pk) s =
    commit_state s (join env url cipher_pk sign_pk s)
step_protocol env (votes_join candidate) s = commit s (vote_join env candidate s)
step_protocol env (votes_leave leaver) s = commit s (vote_leave env leaver s)
step_protocol env (votes_pk key) s = commit s (vote_pk env key s)
step_protocol env (votes_reshared epoch) s = commit s (vote_reshared env epoch s)
step_protocol env _ s = s

-- What a call does to the pending requests.
unfoldable pub step_requests : Env → Call → Pending → Pending
unfolding clean
step_requests env (cleans storage_key keys) p =
    let c : MpcContract = record { protocol_state = not_initialized; pending_requests = p } in
    (commit_state c (clean storage_key env keys c)).pending_requests
step_requests env (signs payload) p = commit p (sign payload p)
step_requests env (helps payload depth) p = commit p (sign_helper env payload depth p)
step_requests env (responds payload response) p = respond payload response p
step_requests env _ p = p

unfoldable pub step : Env → Call → MpcContract → MpcContract
unfolding step_protocol step_requests
step env call c = record {
  protocol_state = step_protocol env call c.protocol_state;
  pending_requests = step_requests env call c.pending_requests;
}

unfoldable pub run : List (Env × Call) → MpcContract → MpcContract
run [] c = c
run ((env, call) ∷ calls) c = run calls (step env call c)

-- A call that starts over: `init` by anyone, or `clean` by the contract itself.
abbrev pub IsReset : Env × Call → Type 0
IsReset (env, inits _ _) = Unit
IsReset (env, cleans _ _) = env.predecessor ≡ env.current
IsReset _ = ⊥
