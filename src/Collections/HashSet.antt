-- ===== src/Collections/HashSet.antt =====
-- `HashSet<AccountId>` as a list without repetitions; its order carries no meaning.
use mpc_recovery.Prelude.{
  ℕ, suc, ◌≤◌, ◌≡◌, Bool, true, false, ◌||◌, List, [], ◌∷◌, arith, ◌==◌, if◌then◌else◌, length, All,
}
use mpc_recovery.Collections.Map
use mpc_recovery.Collections.Map.{Map}

unfoldable pub contains : ℕ → List ℕ → Bool
contains a [] = false
contains a (b ∷ s) = a == b || contains a s

unfoldable pub insert : ℕ → List ℕ → List ℕ
insert a s = if contains a s then s else a ∷ s

abbrev pub IsDistinct : List ℕ → Type 0
IsDistinct [] = Unit
IsDistinct (a ∷ s) = (contains a s ≡ false) × IsDistinct s

-- Every member is a key of the map.
abbrev pub Within {ℓ} : {V : Type ℓ} → Map V → List ℕ → Type 0
Within m s = All (λ a. Map.contains_key a m ≡ true) s

pub insert-IsDistinct : (a : ℕ) (s : List ℕ) → IsDistinct s → IsDistinct (insert a s)
unfolding insert
insert-IsDistinct a s h = ground arith

pub insert-Within {ℓ} :
    {V : Type ℓ} (m : Map V) (a : ℕ) (s : List ℕ)
    → Map.contains_key a m ≡ true
    → Within m s
    → Within m (insert a s)
unfolding insert
insert-Within m a s h w = ground arith

pub insert-insert : (a : ℕ) (s : List ℕ) → insert a (insert a s) ≡ insert a s
unfolding insert contains
insert-insert a s = ground arith

pub contains-insert : (a b : ℕ) (s : List ℕ) → contains b (insert a s) ≡ (b == a || contains b s)
unfolding insert contains
contains-insert a b s = ground arith

pub length-insert-le : (a : ℕ) (s : List ℕ) → length (insert a s) ≤ suc (length s)
unfolding insert
length-insert-le a s = ground arith

Within-remove {ℓ} :
    {V : Type ℓ} (m : Map V) (a : ℕ) (s : List ℕ)
    → contains a s ≡ false
    → Within m s
    → Within (Map.remove a m) s
unfolding contains
Within-remove m a [] d w = tt
Within-remove m a (b ∷ s) d w = ground (arith, Within-remove m a s, Map.get-remove_ne a b m)

-- The pigeonhole principle: distinct members of a map are no more than its entries.
pub length-le_of_Within {ℓ} :
    {V : Type ℓ} (m : Map V) (s : List ℕ) → IsDistinct s → Within m s → length s ≤ length m
length-le_of_Within m [] d w = omega arith
length-le_of_Within m (a ∷ s) d w = omega (
  arith,
  Map.length-remove a m w.0,
  length-le_of_Within (Map.remove a m) s d.1 (Within-remove m a s d.0 w.1),
)
