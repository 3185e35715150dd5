-- ===== src/Recovery/AggregateSigner/Zipped.antt =====
-- What is checked of the commitments and of the reveals of the other nodes, which are compared pair by
-- pair (mpc-recovery/src/sign_node/aggregate_signer.rs).
use mpc_recovery.Prelude.{
  ℕ, ◌≤◌, ◌≡◌, ◌↔◌, refl, sym, ap, ◌∙◌, List, [], ◌∷◌, ◌++◌, some, true, map, arith, inl, inr,
  Option-cases, length, All,
}
use mpc_recovery.Recovery.EdDsa.{EdDsa, SignSecondMsg, KeyAgg}
use mpc_recovery.Recovery.AggregateSigner.{
  ok, Answer-cases, SignedCommitment, Revealed, NodeInfo, own_name, serialize, to_dalek_public_key,
  verify, verify_all, signed_by_every_node, check_all, combine,
}

abbrev pub zip : {A B : Type 0} → List A → List B → List (A × B)
zip [] ys = []
zip (_ ∷ _) [] = []
zip (x ∷ xs) (y ∷ ys) = (x, y) ∷ zip xs ys

abbrev pub contents : SignedCommitment → ℕ × ℕ
contents s = (s.commitment, s.signing_public_key)

module _ (C : EdDsa) where
  -- The node has signed the commitment together with the signing key, under the name of the message,
  -- and the signing key has signed the empty message.
  pub record IsSigned (p : ℕ × SignedCommitment) : Type 0 where
    pub node_key : ℕ
    pub content : List ℕ
    pub signing_key : ℕ
    pub node : C.dalek_public_key p.0 ≡ some node_key
    pub serialized : C.to_vec p.1.commitment p.1.signing_public_key ≡ some content
    pub by_node : C.verify node_key (own_name ++ content) p.1.signature ≡ true
    pub signing : C.dalek_public_key p.1.signing_public_key ≡ some signing_key
    pub by_signing_key : C.verify signing_key [] p.1.signing_public_key_sig ≡ true

  verify_sound :
      (s : SignedCommitment) (key : ℕ) (p : ℕ × ℕ)
      → verify C s key ≡ ok p
      → IsSigned (key, s) × (p ≡ contents s)
  unfolding verify serialize to_dalek_public_key
  verify_sound s key p e = elim (Option-cases (C.dalek_public_key key)) [
    | inl missing ↦ absurd (ground arith)
    | inr (node_key, node) ↦ elim (Option-cases (C.to_vec s.commitment s.signing_public_key)) [
      | inl missing ↦ absurd (ground arith)
      | inr (content, serialized) ↦ (elim (Option-cases (C.dalek_public_key s.signing_public_key)) [
        | inl missing ↦ absurd (ground arith)
        | inr (signing_key, signing) ↦ (
          record {
            node_key = node_key;
            content = content;
            signing_key = signing_key;
            node = node;
            serialized = serialized;
            by_node = ground arith;
            signing = signing;
            by_signing_key = ground arith;
          },
          ground arith,
        )
      ])
    ]
  ]

  verify_complete :
      (s : SignedCommitment) (key : ℕ) → IsSigned (key, s) → verify C s key ≡ ok (contents s)
  unfolding verify serialize to_dalek_public_key
  verify_complete s key h =
      ground (arith, h.node, h.serialized, h.by_node, h.signing, h.by_signing_key)

  verify_all_sound :
      (keys : List ℕ) (signed : List SignedCommitment) (l : List (ℕ × ℕ))
      → verify_all C keys signed ≡ ok l
      → All IsSigned (zip keys signed) × (l ≡ map (λ p. contents p.1) (zip keys signed))
  unfolding verify_all
  verify_all_sound [] signed l e = (tt, ground arith)
  verify_all_sound (_ ∷ _) [] l e = (tt, ground arith)
  verify_all_sound (key ∷ keys) (s ∷ signed) l e = elim (Answer-cases (verify C s key)) [
    | inl (p, good) ↦ elim (Answer-cases (verify_all C keys signed)) [
      | inl (rest, all) ↦
          let (signed_here, same) = verify_sound s key p good in
          let (goods, listed) = verify_all_sound keys signed rest all in
          let now : l ≡ p ∷ rest = ground arith in
          ((signed_here, goods), now ∙ rw (same, listed) refl)
      | inr (inl (x, bad)) ↦ absurd (ground arith)
      | inr (inr bad) ↦ absurd (ground arith)
    ]
    | inr (inl (x, bad)) ↦ absurd (ground arith)
    | inr (inr bad) ↦ absurd (ground arith)
  ]

  verify_all_complete :
      (keys : List ℕ) (signed : List SignedCommitment)
      → All IsSigned (zip keys signed)
      → verify_all C keys signed ≡ ok (map (λ p. contents p.1) (zip keys signed))
  unfolding verify_all
  verify_all_complete [] signed h = refl
  verify_all_complete (_ ∷ _) [] h = refl
  verify_all_complete (key ∷ keys) (s ∷ signed) h =
      rw (verify_complete s key h.0, verify_all_complete keys signed h.1) refl

  -- With the keys of the nodes known, the commitments are accepted exactly if each that stands
  -- opposite a key is signed with it, and its signing key has signed the empty message; they are then
  -- taken in their order. A commitment without a key, and a key without a commitment, are passed over.
  pub signed_by_every_node_iff :
      (keys : List ℕ) (our_index : ℕ) (signed : List SignedCommitment) (l : List (ℕ × ℕ))
      → (signed_by_every_node C
            (record { nodes_public_keys = some keys; our_index = our_index })
            signed
          ≡ ok l)
        ↔ (All IsSigned (zip keys signed) × (l ≡ map (λ p. contents p.1) (zip keys signed)))
  unfolding signed_by_every_node
  signed_by_every_node_iff keys our_index signed l =
      (verify_all_sound keys signed l, λ h. verify_all_complete keys signed h.0 ∙ ap ok (sym h.1))

  check_all-extra :
      (commitments : List ℕ) (parts extra : List SignSecondMsg)
      → length commitments ≤ length parts
      → check_all C commitments (parts ++ extra) ≡ check_all C commitments parts
  unfolding check_all
  check_all-extra [] parts extra h = refl
  check_all-extra (c ∷ commitments) [] extra h = absurd (omega arith)
  check_all-extra (c ∷ commitments) (part ∷ parts) extra h =
      rw (check_all-extra commitments parts extra (omega arith)) refl

  -- The bug: parts behind those of the nodes are not compared with any commitment. Where the parts of
  -- all nodes are accepted, they are accepted with any parts added behind them, and what is then
  -- signed is for a total nonce that includes the added ones.
  pub extra_reveals_signed :
      (s : Revealed) (parts extra : List SignSecondMsg) (info : NodeInfo) (share : ℕ)
      → length s.commitments ≤ length parts
      → combine C s parts info ≡ ok share
      → (agg : KeyAgg) × (C.key_aggregation_n s.signing_public_keys info.our_index ≡ some agg)
        × (combine C s (parts ++ extra) info
            ≡ ok (
                C.partial_sign s.committed.ephemeral_key.r s.committed.our_key agg.hash
                  (C.get_r_tot (map (λ p. p.r) (parts ++ extra)))
                  agg.apk
                  s.committed.message))
  unfolding combine
  extra_reveals_signed s parts extra info share h e =
      let same = check_all-extra s.commitments parts extra h in
      elim (Answer-cases (check_all C s.commitments parts)) [
        | inl (_, good) ↦
            (elim (Option-cases (C.key_aggregation_n s.signing_public_keys info.our_index)) [
              | inl missing ↦ absurd (ground arith)
              | inr (agg, found) ↦ (agg, found, rw (combine, same, good, found) refl)
            ])
        | inr (inl (x, bad)) ↦ absurd (ground arith)
        | inr (inr bad) ↦ absurd (ground arith)
      ]
