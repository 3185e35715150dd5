-- ===== src/Collections/Map.antt =====
-- `BTreeMap<K, V>` as its entries in ascending order of keys. A key is the number that stands for
-- it. A `HashMap` is read by key alone, so it is a `Map` too.
use mpc_recovery.Prelude.{
  All, ◌++◌, subst, Bool-cases, inl, inr, ℕ, suc, ◌≤◌, ◌<◌, ◌≡◌, refl, ◌≢◌, Bool, true, List, [],
  ◌∷◌, Option, none, some, arith, ltb, ◌==◌, if◌then◌else◌, is_some, length,
}

abbrev pub Map {ℓ} : Type ℓ → Type ℓ
Map V = List (ℕ × V)

module _ {ℓ} {V : Type ℓ} where
  unfoldable pub get : ℕ → Map V → Option V
  get k [] = none
  get k ((j, v) ∷ m) = if k == j then some v else get k m

  abbrev pub contains_key : ℕ → Map V → Bool
  contains_key k m = is_some (get k m)

  unfoldable pub insert : ℕ → V → Map V → Map V
  insert k v [] = (k, v) ∷ []
  insert k v ((j, w) ∷ m) =
      if k == j
      then (k, v) ∷ m
      else (if ltb k j then (k, v) ∷ (j, w) ∷ m else (j, w) ∷ insert k v m)

  unfoldable pub remove : ℕ → Map V → Map V
  remove k [] = []
  remove k ((j, w) ∷ m) = if k == j then m else (j, w) ∷ remove k m

  -- The keys ascend from `n` on.
  abbrev pub From : ℕ → Map V → Type 0
  From n [] = Unit
  From n ((j, v) ∷ m) = (n ≤ j) × From (suc j) m

  abbrev pub IsSorted : Map V → Type 0
  IsSorted m = From 0 m

module _ {ℓ} {V : Type ℓ} where
  pub From-mono : (n k : ℕ) (m : Map V) → k ≤ n → From n m → From k m
  From-mono n k [] h s = tt
  From-mono n k ((j, v) ∷ m) h s = (omega arith, s.1)

  pub get_below : (n k : ℕ) (m : Map V) → From n m → k < n → get k m ≡ none
  unfolding get
  get_below n k [] s h = refl
  get_below n k ((j, v) ∷ m) s h = ground (arith, get_below (suc j) k m s.1)

  pub get-insert :
      (k j : ℕ) (v : V) (m : Map V) → get j (insert k v m) ≡ (if k == j then some v else get j m)
  unfolding get insert
  get-insert k j v [] = ground arith
  get-insert k j v ((i, w) ∷ m) = ground (arith, get-insert k j v m)

  pub From-insert : (n k : ℕ) (v : V) (m : Map V) → n ≤ k → From n m → From n (insert k v m)
  unfolding insert
  From-insert n k v [] h s = (h, tt)
  From-insert n k v ((j, w) ∷ m) h s =
      ground (arith, From-insert (suc j) k v m, From-mono (suc j) (suc k) m)

  pub From-remove : (n k : ℕ) (m : Map V) → From n m → From n (remove k m)
  unfolding remove
  From-remove n k [] s = tt
  From-remove n k ((j, w) ∷ m) s =
      ground (arith, From-remove (suc j) k m s.1, From-mono (suc j) n m)

  pub get-remove_self : (n k : ℕ) (m : Map V) → From n m → get k (remove k m) ≡ none
  unfolding get remove
  get-remove_self n k [] s = refl
  get-remove_self n k ((j, w) ∷ m) s =
      ground (arith, get-remove_self (suc j) k m s.1, get_below (suc j) k m s.1)

  pub get-remove_ne : (k j : ℕ) (m : Map V) → k ≢ j → get j (remove k m) ≡ get j m
  unfolding get remove
  get-remove_ne k j [] h = refl
  get-remove_ne k j ((i, w) ∷ m) h = ground (arith, get-remove_ne k j m)

  pub length-remove :
      (k : ℕ) (m : Map V) → contains_key k m ≡ true → suc (length (remove k m)) ≡ length m
  unfolding get remove
  length-remove k [] h = ground arith
  length-remove k ((j, w) ∷ m) h = ground (arith, length-remove k m)

  pub length-insert_new :
      (k : ℕ) (v : V) (m : Map V) → get k m ≡ none → length (insert k v m) ≡ suc (length m)
  unfolding get insert
  length-insert_new k v [] h = refl
  length-insert_new k v ((j, w) ∷ m) h = ground (arith, length-insert_new k v m)

module _ {ℓ} {V : Type ℓ} where
  abbrev pub Values {κ} : (V → Type κ) → Map V → Type κ
  Values P [] = Unit
  Values P ((j, v) ∷ m) = P v × Values P m

  pub Values-insert {κ} :
      (P : V → Type κ) (k : ℕ) (v : V) (m : Map V) → P v → Values P m → Values P (insert k v m)
  unfolding insert
  Values-insert P k v [] p h = (p, tt)
  Values-insert P k v ((j, w) ∷ m) p h = ground (arith, Values-insert P k v m p h.1)

  pub Values-get {κ} :
      (P : V → Type κ) (k : ℕ) (m : Map V) {v : V} → Values P m → get k m ≡ some v → P v
  unfolding get
  Values-get P k [] h e = absurd (ground arith)
  Values-get P k ((j, w) ∷ m) {v} h e = elim (Bool-cases (k == j)) [
    | inl hit ↦ subst P (ground arith) h.0
    | inr miss ↦ Values-get P k m h.1 (ground arith)
  ]

  pub insert-insert : (k : ℕ) (v w : V) (m : Map V) → insert k v (insert k w m) ≡ insert k v m
  unfolding insert
  insert-insert k v w [] = ground arith
  insert-insert k v w ((j, u) ∷ m) = ground (arith, insert-insert k v w m)

  -- A key above all others goes to the end.
  pub insert-last :
      (n k : ℕ) (v : V) (m : Map V) → All (λ e. e.0 < n) m → n ≤ k → insert k v m ≡ m ++ (k, v) ∷ []
  unfolding insert
  insert-last n k v [] h le = refl
  insert-last n k v ((j, w) ∷ m) h le = ground (arith, insert-last n k v m h.1)
