-- ===== src/Contract/Constancy.antt =====
-- What calls leave as it is in contract/src/lib.rs: the public key, the threshold, the order of epochs.
-- `init`, which anyone may call, and `clean` start over.
use mpc_recovery.Prelude.{
  ℕ, ◌+◌, ◌≤◌, ◌<◌, ◌≡◌, ◌≢◌, refl, ap, ◌==◌, Bool-cases, ◌⊎◌, inl, inr, List, [], ◌∷◌, Option,
  none, some, All, Any, arith, u64, length,
}
use mpc_recovery.Contract.Primitives.{AccountId, PublicKey, CandidateInfo}
use mpc_recovery.Contract.State.{
  ProtocolContractState, not_initialized, initializing, running, resharing, MpcContract, ok, panic,
  public_key_not_available, Env,
}
use mpc_recovery.Contract.Membership.{
  init, join, join_running, vote_join, vote_join_running, count_join, vote_leave,
  vote_leave_running, count_leave, vote_pk, vote_pk_initializing, vote_reshared,
  vote_reshared_resharing, start_resharing, fresh_running, public_key,
}
use mpc_recovery.Contract.Requests.{clean}
use mpc_recovery.Contract.Calls.{
  Call, inits, cleans, votes_join, votes_leave, step_protocol, step, run, IsReset,
}

abbrev pub threshold : ProtocolContractState → Option ℕ
threshold not_initialized = none
threshold (initializing i) = some i.threshold
threshold (running r) = some r.threshold
threshold (resharing r) = some r.threshold

-- The epoch of the last finished key; 0 before there is one.
abbrev pub epoch : ProtocolContractState → ℕ
epoch (running r) = r.epoch
epoch (resharing r) = r.old_epoch
epoch _ = 0

protocol_calls : Unit {0}
unfolding step_protocol join join_running vote_join vote_join_running count_join vote_leave
    vote_leave_running count_leave vote_pk vote_pk_initializing vote_reshared
    vote_reshared_resharing start_resharing fresh_running public_key init clean
protocol_calls = tt

-- What is left as it was by a call that does not start over.
pub clean-refused :
    (env : Env) (storage_key : ℕ → ℕ) (keys : List ℕ) (s : ProtocolContractState)
    → (env.predecessor ≢ env.current)
    → step_protocol env (cleans storage_key keys) s ≡ s
unfolding protocol_calls
clean-refused env storage_key keys s other = ground arith

step-public_key :
    (env : Env) (call : Call) (s : ProtocolContractState) (key : PublicKey)
    → ¬ IsReset (env, call)
    → public_key s ≡ ok key
    → public_key (step_protocol env call s) ≡ ok key
unfolding protocol_calls
step-public_key env (inits new_threshold entries) s key goes h = absurd (goes tt)
step-public_key env (cleans storage_key keys) s key goes h =
    rw (clean-refused env storage_key keys s goes) h
step-public_key env (votes_join candidate) (running r) key goes h = ground arith
step-public_key env (votes_leave leaver) (running r) key goes h = ground arith
step-public_key env _ (running r) key goes h = ground arith
step-public_key env call s key goes h = ground arith

step-threshold :
    (env : Env) (call : Call) (s : ProtocolContractState)
    → ¬ IsReset (env, call)
    → threshold (step_protocol env call s) ≡ threshold s
unfolding protocol_calls
step-threshold env (inits new_threshold entries) s goes = absurd (goes tt)
step-threshold env (cleans storage_key keys) s goes =
    ap threshold (clean-refused env storage_key keys s goes)
step-threshold env (votes_join candidate) (running r) goes = ground arith
step-threshold env (votes_leave leaver) (running r) goes = ground arith
step-threshold env call s goes = ground arith

step-epoch :
    (env : Env) (call : Call) (s : ProtocolContractState)
    → (epoch (step_protocol env call s) ≡ epoch s)
      ⊎ (epoch (step_protocol env call s) ≡ u64 (epoch s + 1))
      ⊎ (IsReset (env, call) × (epoch (step_protocol env call s) ≡ 0))
unfolding protocol_calls
step-epoch env (inits new_threshold entries) s = inr (inr (tt, refl))
step-epoch env (cleans storage_key keys) s = elim (Bool-cases (env.predecessor == env.current)) [
  | inl itself ↦ inr (inr (ground arith, ground arith))
  | inr other ↦ inl (ground arith)
]
step-epoch env (votes_join candidate) (running r) = ground arith
step-epoch env (votes_leave leaver) (running r) = ground arith
step-epoch env call s = ground arith

-- Any history of calls by anyone without `init`, and without `clean` by the contract itself, keeps the
-- public key of the network, once it has one, and the threshold.
-- The bug: `init` may be called by anyone at any time, and one call of it after such a history loses
-- the key and sets the threshold.
pub run-public_key :
    (calls : List (Env × Call)) (c : MpcContract) (key : PublicKey)
    → All (λ call. ¬ IsReset call) calls
    → public_key c.protocol_state ≡ ok key
    → (public_key (run calls c).protocol_state ≡ ok key)
      × (threshold (run calls c).protocol_state ≡ threshold c.protocol_state)
      × ((env : Env) (new_threshold : ℕ) (entries : List (AccountId × CandidateInfo))
          → (public_key (step env (inits new_threshold entries) (run calls c)).protocol_state
              ≡ panic public_key_not_available)
            × (threshold (step env (inits new_threshold entries) (run calls c)).protocol_state
                ≡ some new_threshold))
unfolding run step step_protocol init public_key
run-public_key [] c key go h = (h, refl, λ env new_threshold entries. (refl, refl))
run-public_key ((env, call) ∷ calls) c key go h =
    rw (← step-threshold env call c.protocol_state go.0) (
      run-public_key calls (step env call c) key go.1
        (step-public_key env call c.protocol_state key go.0 h))

later :
    {A B : Type 0} (call : Env × Call) (calls : List (Env × Call))
    → A ⊎ Any IsReset calls
    → (A → B)
    → B ⊎ Any IsReset (call ∷ calls)
later call calls (inl a) f = inl (f a)
later call calls (inr reset) f = inr (inr reset)

-- A history of `n` calls moves the epoch forward by at most `n`, while it stays below 2^64; and it
-- moves it back only if `init` is called, or `clean` by the contract itself.
pub run-epoch :
    (calls : List (Env × Call)) (c : MpcContract)
    → epoch c.protocol_state + length calls < 18446744073709551616
    → (epoch (run calls c).protocol_state ≤ epoch c.protocol_state + length calls)
      × ((epoch c.protocol_state ≤ epoch (run calls c).protocol_state) ⊎ Any IsReset calls)
unfolding run step
run-epoch [] c h = (omega arith, inl (omega arith))
run-epoch ((env, call) ∷ calls) c h = elim (step-epoch env call c.protocol_state) [
  | inl same ↦
      let (most, least) = run-epoch calls (step env call c) (omega arith) in
      (omega arith, later (env, call) calls least (λ le. omega arith))
  | inr (inl next) ↦
      let (most, least) = run-epoch calls (step env call c) (omega arith) in
      (omega arith, later (env, call) calls least (λ le. omega arith))
  | inr (inr (reset, zero)) ↦
      let (most, least) = run-epoch calls (step env call c) (omega arith) in
      (omega arith, inr (inl reset))
]
