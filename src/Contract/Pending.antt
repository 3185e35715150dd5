-- ===== src/Contract/Pending.antt =====
-- The life of a request for a signature (contract/src/lib.rs: `sign`, `respond`, `sign_helper`).
use mpc_recovery.Prelude.{ℕ, ◌≡◌, none, some, arith, ◌==◌, if◌then◌else◌}
use mpc_recovery.Collections.Map
use mpc_recovery.Contract.State.{Response, Env, ok, panic, already_requested}
use mpc_recovery.Contract.Requests.{Promise, Pending, value, sign, help, sign_helper, respond}

sign_inserts :
    (payload : ℕ) (p p' : Pending) (first : Promise)
    → sign payload p ≡ ok (p', first)
    → (Map.get payload p ≡ none) × (p' ≡ Map.insert payload none p)
unfolding sign
sign_inserts payload p p' first h = ground arith

respond_frees :
    (payload other : ℕ) (response : Response) (p : Pending)
    → Map.IsSorted p
    → Map.get other (Map.remove payload (respond payload response (Map.insert payload none p)))
      ≡ (if other == payload then none else Map.get other p)
unfolding respond
respond_frees payload other response p sorted =
    let requested = Map.From-insert 0 payload none p (omega arith) sorted in
    ground (
      arith,
      Map.get-remove_ne payload other
          (Map.insert payload (some response) (Map.insert payload none p)),
      Map.get-insert payload other (some response) (Map.insert payload none p),
      Map.get-insert payload other none p,
      Map.get-remove_self 0 payload _ (
          Map.From-insert 0 payload (some response) (Map.insert payload none p) (omega arith)
            requested),
    )

-- A request that is signed, answered and then helped by the contract itself yields exactly the
-- answer, and leaves the payload free and every other payload as it was before the request.
pub sign-respond-sign_helper :
    (env : Env) (payload depth other : ℕ) (response : Response) (p p' : Pending) (first : Promise)
    → Map.IsSorted p
    → env.predecessor ≡ env.current
    → sign payload p ≡ ok (p', first)
    → (p'' : Pending) × (sign_helper env payload depth (respond payload response p')
        ≡ ok (p'', value response))
      × (Map.get other p'' ≡ (if other == payload then none else Map.get other p))
unfolding sign_helper help respond
sign-respond-sign_helper env payload depth other response p p' first sorted self h =
    let (free, made) = sign_inserts payload p p' first h in
    rw made (
      Map.remove payload (respond payload response (Map.insert payload none p)),
      ground (arith, Map.get-insert payload payload (some response) (Map.insert payload none p)),
      respond_frees payload other response p sorted,
    )

-- `respond` asks neither who calls nor whether there is a request: after an answer that nobody asked
-- for, `sign` of that payload panics, and the contract's own `sign_helper` hands that answer out.
pub respond_unrequested :
    (env : Env) (payload depth : ℕ) (response : Response) (p : Pending)
    → Map.get payload p ≡ none
    → env.predecessor ≡ env.current
    → (sign payload (respond payload response p) ≡ panic already_requested)
      × (sign_helper env payload depth (respond payload response p)
          ≡ ok (Map.remove payload (respond payload response p), value response))
unfolding sign sign_helper help respond
respond_unrequested env payload depth response p free self =
    ground (arith, Map.get-insert payload payload (some response) p)
