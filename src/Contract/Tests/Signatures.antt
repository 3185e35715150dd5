-- ===== src/Contract/Tests/Signatures.antt =====
-- Requests for signatures (contract/src/lib.rs).
use mpc_recovery.Prelude.{refl, ◌≡◌, [], ◌∷◌, none, arith, true, ◌==◌, if◌then◌else◌}
use mpc_recovery.Collections.Map
use mpc_recovery.Contract.State.{Response, ok, panic, already_requested}
use mpc_recovery.Contract.Requests.{Pending, value, sign, sign_helper, respond}
use mpc_recovery.Contract.Pending.{sign-respond-sign_helper, respond_unrequested}
use mpc_recovery.Contract.Tests.{evaluation, by_itself}

abbrev answer : Response
answer = record { big_r = 50; s = 51 }

abbrev waiting : Pending
waiting = (60, none) ∷ []

signs_it : sign 61 waiting ≡ ok ((60, none) ∷ (61, none) ∷ [], record { payload = 61; depth = 0 })
unfolding evaluation
signs_it = refl

sign-respond-sign_helper_example :
    (p'' : Pending) × (sign_helper by_itself 61 5 (respond 61 answer ((60, none) ∷ (61, none) ∷ []))
      ≡ ok (p'', value answer))
    × (Map.get 60 p'' ≡ (if 60 == 61 then none else Map.get 60 waiting))
sign-respond-sign_helper_example =
    sign-respond-sign_helper by_itself 61 5 60 answer waiting ((60, none) ∷ (61, none) ∷ [])
      (record { payload = 61; depth = 0 }) (omega arith, tt) refl signs_it

is_waiting : Map.contains_key 60 waiting ≡ true
unfolding evaluation
is_waiting = refl

is_free : Map.get 61 waiting ≡ none
unfolding evaluation
is_free = refl

respond_unrequested_example :
    (sign 61 (respond 61 answer waiting) ≡ panic already_requested)
    × (sign_helper by_itself 61 0 (respond 61 answer waiting)
        ≡ ok (Map.remove 61 (respond 61 answer waiting), value answer))
respond_unrequested_example = respond_unrequested by_itself 61 0 answer waiting is_free refl
