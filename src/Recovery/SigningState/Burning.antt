-- ===== src/Recovery/SigningState/Burning.antt =====
-- A commitment can be opened once (mpc-recovery/src/sign_node/aggregate_signer.rs).
use mpc_recovery.Prelude.{
  ℕ, ◌≡◌, refl, ap, false, List, [], ◌∷◌, Option, none, some, arith, inl, inr, Option-cases, ◌==◌,
  ◌∙◌,
}
use mpc_recovery.Collections.HashMap
use mpc_recovery.Collections.HashMap.{
  number, pair, get-remove_same, get-remove-none, get-insert_other,
}
use mpc_recovery.Recovery.EdDsa.{EdDsa, SignSecondMsg}
use mpc_recovery.Recovery.AggregateSigner.{
  Signing, ok, err, panicked, commitment_not_found, SignedCommitment, Committed, Revealed, NodeInfo,
  SigningState, get, commit, create, reveal, serialize, to_dalek_signature, Answer-cases, key_of,
}
use mpc_recovery.Recovery.SigningState.{
  Call, asks_commitment, asks_reveal, asks_share, keep_committed, get_commitment, keep_revealed,
  reveal_ours, get_reveal, sign_ours, get_signature_share, step, run,
}

module _ (C : EdDsa) where
  -- No call of the history draws a nonce that makes the commitment again.
  abbrev pub IsFresh : ℕ → List Call → Type 0
  IsFresh c [] = Unit
  IsFresh c (asks_commitment our_key node_key message random ∷ calls) =
      ((c == (C.create_ephemeral_key_and_commit our_key message random).1) ≡ false)
      × IsFresh c calls
  IsFresh c (_ ∷ calls) = IsFresh c calls

  abbrev pub held : ℕ → SigningState → Option Committed
  held c s = HashMap.get number c s.committed

  -- The commitment that is signed is that of the nonce.
  create-commitment :
      (c node_key keys : ℕ) (sc : SignedCommitment)
      → create C c node_key keys ≡ ok sc
      → sc.commitment ≡ c
  unfolding create serialize to_dalek_signature
  create-commitment c node_key keys sc e = ground arith

  keep_revealed-held :
      (c : ℕ) (made : Signing (SignSecondMsg × Revealed)) (s : SigningState)
      → held c (keep_revealed C made s).0 ≡ held c s
  unfolding keep_revealed
  keep_revealed-held c (ok r) s = refl
  keep_revealed-held c (err e) s = refl
  keep_revealed-held c panicked s = refl

  get_commitment-held :
      (c our_key node_key : ℕ) (message : List ℕ) (random : ℕ) (s : SigningState)
      → (c == (C.create_ephemeral_key_and_commit our_key message random).1) ≡ false
      → held c s ≡ none
      → held c (get_commitment C our_key node_key message random s).0 ≡ none
  unfolding get_commitment commit keep_committed
  get_commitment-held c our_key node_key message random s other h =
      let made = (C.create_ephemeral_key_and_commit our_key message random).1 in
      elim (Answer-cases (create C made node_key our_key)) [
        | inl (sc, e) ↦
            let same = create-commitment made node_key our_key sc e in
            let away : (c == sc.commitment) ≡ false = rw same other in
            rw e (get-insert_other number sc.commitment c _ s.committed away h)
        | inr (inl (x, e)) ↦ rw e h
        | inr (inr e) ↦ rw e h
      ]

  get_reveal-held :
      (c : ℕ) (info : NodeInfo) (received : List SignedCommitment) (s : SigningState)
      → held c s ≡ none
      → held c (get_reveal C info received s).0 ≡ none
  unfolding get_reveal reveal_ours
  get_reveal-held c info received s h = elim (Option-cases (get received info.our_index)) [
    | inl e ↦ rw (get_reveal, e) h
    | inr (ours, e) ↦ elim (Option-cases (held ours.commitment s)) [
      | inl missing ↦ rw (get_reveal, e, reveal_ours, missing) h
      | inr (state, found) ↦
          rw (get_reveal, e, reveal_ours, found)
            (keep_revealed-held c (reveal C info received state) _
              ∙ get-remove-none number ours.commitment c s.committed h)
    ]
  ]

  get_signature_share-held :
      (c : ℕ) (info : NodeInfo) (parts : List SignSecondMsg) (s : SigningState)
      → held c (get_signature_share C info parts s).0 ≡ held c s
  unfolding get_signature_share sign_ours
  get_signature_share-held c info parts s = elim (Option-cases (get parts info.our_index)) [
    | inl e ↦ rw (get_signature_share, e) refl
    | inr (ours, e) ↦ elim (Option-cases (HashMap.get pair (key_of ours) s.revealed)) [
      | inl missing ↦ rw (get_signature_share, e, sign_ours, missing) refl
      | inr (state, found) ↦ rw (get_signature_share, e, sign_ours, found) refl
    ]
  ]

  run-held :
      (c : ℕ) (calls : List Call) (s : SigningState)
      → IsFresh c calls
      → held c s ≡ none
      → held c (run C calls s) ≡ none
  unfolding run step
  run-held c [] s fresh h = h
  run-held c (asks_commitment our_key node_key message random ∷ calls) s fresh h =
      run-held c calls _ fresh.1 (get_commitment-held c our_key node_key message random s fresh.0 h)
  run-held c (asks_reveal info received ∷ calls) s fresh h =
      run-held c calls _ fresh (get_reveal-held c info received s h)
  run-held c (asks_share info parts ∷ calls) s fresh h =
      run-held c calls _ fresh (get_signature_share-held c info parts s ∙ h)

  get_reveal-burns :
      (info : NodeInfo) (received : List SignedCommitment) (ours : SignedCommitment)
      (s : SigningState)
      → get received info.our_index ≡ some ours
      → held ours.commitment (get_reveal C info received s).0 ≡ none
  unfolding get_reveal reveal_ours
  get_reveal-burns info received ours s e = elim (Option-cases (held ours.commitment s)) [
    | inl missing ↦ rw (get_reveal, e, reveal_ours, missing) missing
    | inr (state, found) ↦
        rw (get_reveal, e, reveal_ours, found)
          (keep_revealed-held ours.commitment (reveal C info received state) _
            ∙ get-remove_same number ours.commitment s.committed)
  ]

  -- A commitment can be opened once: after a call to open it, whether that went well or not, and
  -- whatever calls follow that do not draw its nonce anew, another call to open it is refused.
  pub commitment_burned :
      (info info' : NodeInfo) (received received' : List SignedCommitment)
      (ours ours' : SignedCommitment) (calls : List Call) (s : SigningState)
      → get received info.our_index ≡ some ours
      → get received' info'.our_index ≡ some ours'
      → ours'.commitment ≡ ours.commitment
      → IsFresh ours.commitment calls
      → (get_reveal C info' received' (run C calls (get_reveal C info received s).0)).1
        ≡ err (commitment_not_found ours.commitment)
  unfolding get_reveal reveal_ours
  commitment_burned info info' received received' ours ours' calls s e e' same fresh =
      let burnt = get_reveal-burns info received ours s e in
      let gone = run-held ours.commitment calls (get_reveal C info received s).0 fresh burnt in
      let gone' : held ours'.commitment (run C calls (get_reveal C info received s).0) ≡ none =
        rw same gone in
      rw (get_reveal, e', reveal_ours, gone') (ap (λ c. err (commitment_not_found c)) same)
