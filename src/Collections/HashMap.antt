-- ===== src/Collections/HashMap.antt =====
-- `HashMap<K, V>` for a key that has a test for equality, as its entries in no particular order.
use mpc_recovery.Prelude.{
  ℕ, suc, ◌≤◌, ◌≡◌, refl, Bool, true, false, ◌&&◌, List, [], ◌∷◌, Option, none, some, arith, ◌==◌,
  if◌then◌else◌, length, ==_iff, inl, inr, Bool-cases, subst,
}

pub record Equality (K : Type 0) : Type 0 where
  pub test : K → K → Bool
  pub sound : (a b : K) → test a b ≡ true → a ≡ b
  pub same : (a : K) → test a a ≡ true

abbrev pub number : Equality ℕ
number = record {
  test = λ a b. a == b;
  sound = λ a b. (==_iff a b).0;
  same = λ a. (==_iff a a).1 refl;
}

module _ {A B : Type 0} (E : Equality A) (F : Equality B) where
  pub both_sound : (a b : A × B) → (E.test a.0 b.0 && F.test a.1 b.1) ≡ true → a ≡ b
  both_sound (a, b) (c, d) h = ground (arith, E.sound a c, F.sound b d)

  pub both_same : (a : A × B) → (E.test a.0 a.0 && F.test a.1 a.1) ≡ true
  both_same (a, b) = ground (arith, E.same a, F.same b)

  abbrev pub both : Equality (A × B)
  both = record {
    test = λ a b. E.test a.0 b.0 && F.test a.1 b.1;
    sound = both_sound;
    same = both_same;
  }

abbrev pub pair : Equality (ℕ × ℕ)
pair = both number number

module _ {K V : Type 0} (E : Equality K) where
  unfoldable pub get : K → List (K × V) → Option V
  get k [] = none
  get k ((j, v) ∷ m) = if E.test k j then some v else get k m

  unfoldable pub remove : K → List (K × V) → List (K × V)
  remove k [] = []
  remove k ((j, v) ∷ m) = let rest = remove k m in if E.test k j then rest else (j, v) ∷ rest

  unfoldable pub insert : K → V → List (K × V) → List (K × V)
  unfolding remove
  insert k v m = (k, v) ∷ remove k m

  pub get-remove_same : (k : K) (m : List (K × V)) → get k (remove k m) ≡ none
  unfolding get remove
  get-remove_same k [] = refl
  get-remove_same k ((j, v) ∷ m) = ground (arith, get-remove_same k m)

  pub get-remove-none : (k j : K) (m : List (K × V)) → get j m ≡ none → get j (remove k m) ≡ none
  unfolding get remove
  get-remove-none k j [] h = refl
  get-remove-none k j ((i, v) ∷ m) h = ground (arith, get-remove-none k j m)

  pub get-insert_other :
      (k j : K) (v : V) (m : List (K × V))
      → E.test j k ≡ false
      → get j m ≡ none
      → get j (insert k v m) ≡ none
  unfolding get insert
  get-insert_other k j v m other h = ground (arith, get-remove-none k j m h)

  pub get-remove_other :
      (k j : K) (m : List (K × V)) → E.test j k ≡ false → get j (remove k m) ≡ get j m
  unfolding get remove
  get-remove_other k j [] other = refl
  get-remove_other k j ((i, v) ∷ m) other = elim (Bool-cases (E.test k i)) [
    | inl e ↦
        let away : E.test j i ≡ false = subst (λ x. E.test j x ≡ false) (E.sound k i e) other in
        ground (arith, get-remove_other k j m other)
    | inr e ↦ ground (arith, get-remove_other k j m other)
  ]

  pub get-insert_same : (k : K) (v : V) (m : List (K × V)) → get k (insert k v m) ≡ some v
  unfolding get insert
  get-insert_same k v m = rw (E.same k) refl

  pub get-insert_kept :
      (k j : K) (v w : V) (m : List (K × V))
      → E.test j k ≡ false
      → get j m ≡ some w
      → get j (insert k v m) ≡ some w
  unfolding get insert
  get-insert_kept k j v w m other h = ground (arith, get-remove_other k j m other)

  pub length-remove_le : (k : K) (m : List (K × V)) → length (remove k m) ≤ length m
  unfolding remove
  length-remove_le k [] = omega arith
  length-remove_le k ((j, v) ∷ m) = ground (arith, length-remove_le k m)

  -- An entry that is found is gone after it is removed.
  pub length-remove_found :
      (k : K) (v : V) (m : List (K × V)) → get k m ≡ some v → suc (length (remove k m)) ≤ length m
  unfolding get remove
  length-remove_found k v [] h = absurd (ground arith)
  length-remove_found k v ((j, w) ∷ m) h =
      ground (arith, length-remove_found k v m, length-remove_le k m)

  pub length-insert_le : (k : K) (v : V) (m : List (K × V)) → length (insert k v m) ≤ suc (length m)
  unfolding insert
  length-insert_le k v m = ground (arith, length-remove_le k m)
