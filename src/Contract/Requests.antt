-- ===== src/Contract/Requests.antt =====
-- contract/src/lib.rs, the requests for signatures: `sign`, `sign_helper`, `respond`, `clean`.
-- A payload is 32 bytes that the contract only compares. Logs, gas and the random seed are left out.
use mpc_recovery.Prelude.{ℕ, ◌+◌, List, [], ◌∷◌, Option, none, some, ◌==◌, if◌then◌else◌, u32}
use mpc_recovery.Collections.Map
use mpc_recovery.Collections.Map.{Map}
use mpc_recovery.Collections.HashSet
use mpc_recovery.Contract.State.{
  not_initialized, MpcContract, Response, Result, ok, panic, Env, already_requested,
  unexpected_request, private_method,
}

-- The promise of a later call `sign_helper(payload, depth)` on the contract itself.
pub record Promise : Type 0 where
  pub payload : ℕ
  pub depth : ℕ

-- `PromiseOrValue<(String, String)>`
pub data PromiseOrValue : Type 0 where
  value : Response → PromiseOrValue
  promise : Promise → PromiseOrValue

abbrev pub Pending : Type 0
Pending = Map (Option Response)

unfoldable pub sign : ℕ → Pending → Result (Pending × Promise)
sign payload pending = elim (Map.get payload pending) [
  | none ↦ ok (Map.insert payload none pending, record { payload = payload; depth = 0 })
  | some _ ↦ panic already_requested
]

unfoldable pub help : ℕ → ℕ → Option (Option Response) → Pending → Result (Pending × PromiseOrValue)
help payload depth none pending = panic unexpected_request
help payload depth (some none) pending =
    ok (pending, promise (record { payload = payload; depth = u32 (depth + 1) }))
help payload depth (some (some signature)) pending =
    ok (Map.remove payload pending, value signature)

-- `#[private]`: only the contract itself may call.
unfoldable pub sign_helper : Env → ℕ → ℕ → Pending → Result (Pending × PromiseOrValue)
unfolding help
sign_helper env payload depth pending =
    if env.predecessor == env.current
    then help payload depth (Map.get payload pending) pending
    else panic private_method

unfoldable pub respond : ℕ → Response → Pending → Pending
respond payload response pending = Map.insert payload (some response) pending

-- `env::storage_remove` of each key: `storage_key` is the key under which the map of the SDK stores
-- a payload's entry.
unfoldable pub remove_stored : (ℕ → ℕ) → List ℕ → Pending → Pending
remove_stored storage_key keys [] = []
remove_stored storage_key keys ((payload, entry) ∷ rest) =
    let kept = remove_stored storage_key keys rest in
    if HashSet.contains (storage_key payload) keys then kept else (payload, entry) ∷ kept

unfoldable pub clean : (ℕ → ℕ) → Env → List ℕ → MpcContract → Result MpcContract
unfolding remove_stored
clean storage_key env keys c =
    if env.predecessor == env.current
    then ok (record {
      protocol_state = not_initialized;
      pending_requests = remove_stored storage_key keys c.pending_requests;
    })
    else panic private_method
