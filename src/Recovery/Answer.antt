-- ===== src/Recovery/Answer.antt =====
-- `Result<T, E>`, or a panic, in mpc-recovery/src.
use mpc_recovery.Prelude.{◌≡◌, refl, ◌⊎◌, inl, inr, Bool, true, false, Option, none, some}

pub data Answer (E T : Type 0) : Type 0 where
  ok : T → Answer E T
  err : E → Answer E T
  panicked : Answer E T

pub Answer-cases :
    {E T : Type 0} (r : Answer E T)
    → ((t : T) × (r ≡ ok t)) ⊎ ((e : E) × (r ≡ err e)) ⊎ (r ≡ panicked)
Answer-cases (ok t) = inl (t, refl)
Answer-cases (err e) = inr (inl (e, refl))
Answer-cases panicked = inr (inr refl)

-- `?`
infixl 20 ◌>>=◌
abbrev pub ◌>>=◌ : {E A B : Type 0} → Answer E A → (A → Answer E B) → Answer E B
(ok a) >>= f = f a
(err e) >>= f = err e
panicked >>= f = panicked

-- `ok_or`
abbrev pub ok_or : {E A : Type 0} → E → Option A → Answer E A
ok_or e none = err e
ok_or e (some a) = ok a

-- `unwrap`
abbrev pub unwrap : {E A : Type 0} → Option A → Answer E A
unwrap none = panicked
unwrap (some a) = ok a

abbrev pub check : {E : Type 0} → E → Bool → Answer E (Unit {0})
check e true = ok tt
check e false = err e

-- `map_err`
abbrev pub map_err : {E F A : Type 0} → (E → F) → Answer E A → Answer F A
map_err f (ok a) = ok a
map_err f (err e) = err (f e)
map_err f panicked = panicked
