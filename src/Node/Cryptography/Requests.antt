-- ===== src/Node/Cryptography/Requests.antt =====
-- What becomes of the requests and of the presignatures in the signing loop of
-- node/src/protocol/cryptography.rs.
use mpc_recovery.Prelude.{
  ℕ, suc, ◌+◌, ◌≡◌, ◌⊎◌, refl, sym, ap, ◌∙◌, true, List, [], ◌∷◌, arith, inl, inr, Option-cases,
  Bool-cases, length, ◌==◌,
}
use mpc_recovery.Collections.Map
use mpc_recovery.Collections.Map.{Map, get-insert}
use mpc_recovery.Node.CaitSith.{CaitSith}
use mpc_recovery.Node.Presignature.{Presignature, Picked, unwrap, take_queued, take_mine}
use mpc_recovery.Node.SignQueue.{SignRequest}
use mpc_recovery.Node.Signature
use mpc_recovery.Node.Signature.{Started, SignatureGenerator, generate_internal, store}
use mpc_recovery.Node.Cryptography.{CryptographicError}
use mpc_recovery.Node.Cryptography.Running.{
  Working, Step, done, fails, panics, stalls, with_presignatures,
}
use mpc_recovery.Node.Cryptography.Signing.{begin_signature, spend_mine, begin_signatures}

module _ (C : CaitSith) where
  Started-cases :
      (s : Started C)
      → ((g : SignatureGenerator C) × (s ≡ Started.started g))
        ⊎ ((e : C.InitializationError) × (s ≡ Started.initialization_error e))
        ⊎ (s ≡ Started.crashed)
  Started-cases (Started.started g) = inl (g, refl)
  Started-cases (Started.initialization_error e) = inr (inl (e, refl))
  Started-cases Started.crashed = inr (inr refl)

  Picked-cases :
      (p : Picked C)
      → ((x : Presignature C) × (p ≡ Picked.picked x)) ⊎ (p ≡ Picked.nothing) ⊎ (p ≡ Picked.crashed)
  Picked-cases (Picked.picked x) = inl (x, refl)
  Picked-cases Picked.nothing = inr (inl refl)
  Picked-cases Picked.crashed = inr (inr refl)

  Step-cases :
      (s : Step C)
      → ((w : Working C) × (s ≡ done w))
        ⊎ ((e : CryptographicError C) × (w : Working C) × (s ≡ fails e w))
        ⊎ ((w : Working C) × (s ≡ panics w))
        ⊎ ((w : Working C) × (s ≡ stalls w))
  Step-cases (done w) = inl (w, refl)
  Step-cases (fails e w) = inr (inl (e, w, refl))
  Step-cases (panics w) = inr (inr (inl (w, refl)))
  Step-cases (stalls w) = inr (inr (inr (w, refl)))

  abbrev pub running_signatures : Working C → Map (SignatureGenerator C)
  running_signatures w = w.state.signature_manager.generators

  abbrev pub own_presignatures : Working C → List ℕ
  own_presignatures w = w.state.presignature_manager.mine

  -- A signature that is begun is the only change.
  begin_signature-done :
      (id : ℕ) (request : SignRequest C) (p : Presignature C) (w w' : Working C)
      → begin_signature C id request p w ≡ done w'
      → (own_presignatures w' ≡ own_presignatures w)
        × ((g : SignatureGenerator C) × (running_signatures w'
              ≡ Map.insert id g (running_signatures w)))
  unfolding begin_signature Signature.generate store
  begin_signature-done id request p w w' e =
      let m = w.state.signature_manager in
      elim (Started-cases (
        generate_internal C m.participants m.me w.state.public_key m.me p request.msg_hash
          request.epsilon request.delta)) [
            | inl (g, started) ↦ (ground arith, (g, ground arith))
            | inr (inl (x, started)) ↦ absurd (ground arith)
            | inr (inr started) ↦ absurd (ground arith)
          ]

  contains-insert :
      (k j : ℕ) (g : SignatureGenerator C) (m : Map (SignatureGenerator C))
      → (k ≡ j) ⊎ (Map.contains_key j m ≡ true)
      → Map.contains_key j (Map.insert k g m) ≡ true
  contains-insert k j g m (inl e) = ground (arith, get-insert k j g m)
  contains-insert k j g m (inr e) = elim (Bool-cases (k == j)) [
    | inl h ↦ ground (arith, get-insert k j g m)
    | inr h ↦ ground (arith, get-insert k j g m)
  ]

  List-cases : (xs : List ℕ) → (xs ≡ []) ⊎ ((x : ℕ) × (rest : List ℕ) × (xs ≡ x ∷ rest))
  List-cases [] = inl refl
  List-cases (x ∷ xs) = inr (x, xs, refl)

  -- One round of the loop that is done: no presignature is left, or one is spent on the request.
  abbrev pub Round : ℕ → SignRequest C → Map (SignRequest C) → Working C → Type 0
  Round id request rest w =
      ((own_presignatures w ≡ [])
        × (begin_signatures C ((id, request) ∷ rest) w
            ≡ record { left = (id, request) ∷ rest; step = done w }))
      ⊎ ((w' : Working C) × (length (own_presignatures w) ≡ suc (length (own_presignatures w')))
          × ((g : SignatureGenerator C) × (running_signatures w'
                ≡ Map.insert id g (running_signatures w)))
          × (begin_signatures C ((id, request) ∷ rest) w ≡ begin_signatures C rest w'))

  round-cases :
      (id : ℕ) (request : SignRequest C) (rest : Map (SignRequest C)) (w end : Working C)
      → (begin_signatures C ((id, request) ∷ rest) w).step ≡ done end
      → Round id request rest w
  unfolding begin_signatures take_mine take_queued spend_mine
  round-cases id request rest w end e =
      let m = w.state.presignature_manager in
      elim (List-cases m.mine) [
        | inl none_left ↦ inl (ground arith)
        | inr (x, others, mine) ↦
            let w1 : Working C =
              with_presignatures C w
                (record m { mine = others; presignatures = Map.remove x m.presignatures }) in
            let now : begin_signatures C ((id, request) ∷ rest) w
                ≡ spend_mine C (begin_signatures C rest) id request rest w1
                    (unwrap (Map.get x m.presignatures)) =
              ground arith in
            (elim (Option-cases (Map.get x m.presignatures)) [
              | inl missing ↦ absurd (ground arith)
              | inr (p, found) ↦ (elim (Step-cases (begin_signature C id request p w1)) [
                | inl (w', ok) ↦
                    let (spent, begun) = begin_signature-done id request p w1 w' ok in
                    inr (w', ground arith, begun, ground arith)
                | inr (inl (x, w', failed)) ↦ absurd (ground arith)
                | inr (inr (inl (w', failed))) ↦ absurd (ground arith)
                | inr (inr (inr (w', failed))) ↦ absurd (ground arith)
              ])
            ])
      ]

  running_stays :
      (requests : Map (SignRequest C)) (w end : Working C) (j : ℕ)
      → (begin_signatures C requests w).step ≡ done end
      → Map.contains_key j (running_signatures w) ≡ true
      → Map.contains_key j (running_signatures end) ≡ true
  unfolding begin_signatures
  running_stays [] w end j e h = ground arith
  running_stays ((id, request) ∷ rest) w end j e h = elim (round-cases id request rest w end e) [
    | inl (_, now) ↦ ground arith
    | inr (w', _, (g, begun), now) ↦
        let still : Map.contains_key j (running_signatures w') ≡ true =
          rw begun (contains-insert id j g (running_signatures w) (inr h)) in
        running_stays rest w' end j (ap (λ s. s.step) (sym now) ∙ e) still
  ]

  -- The signing loop that is done has spent one own presignature on each request that it has taken,
  -- and it has stopped because there are no more requests or no more own presignatures.
  pub signing_spends :
      (requests : Map (SignRequest C)) (w end : Working C)
      → (begin_signatures C requests w).step ≡ done end
      → (length (begin_signatures C requests w).left + length (own_presignatures w)
          ≡ length requests + length (own_presignatures end))
        × (((begin_signatures C requests w).left ≡ []) ⊎ (own_presignatures end ≡ []))
  unfolding begin_signatures
  signing_spends [] w end e = ground arith
  signing_spends ((id, request) ∷ rest) w end e = elim (round-cases id request rest w end e) [
    | inl (spent, now) ↦
        let same : w ≡ end = ground arith in
        let over : own_presignatures end ≡ [] = ground arith in (ground arith, inr over)
    | inr (w', spent, _, now) ↦
        let (balance, why) = signing_spends rest w' end (ap (λ s. s.step) (sym now) ∙ e) in
        (ground arith, ground arith)
  ]

  -- Each request that the signing loop has met is, where the loop is done, still left for the next
  -- turn, or a protocol runs for it.
  signing_keeps :
      (requests : Map (SignRequest C)) (w end : Working C) (j : ℕ)
      → (begin_signatures C requests w).step ≡ done end
      → Map.contains_key j requests ≡ true
      → (Map.contains_key j (begin_signatures C requests w).left ≡ true)
        ⊎ (Map.contains_key j (running_signatures end) ≡ true)
  unfolding begin_signatures Map.get
  signing_keeps [] w end j e h = inl h
  signing_keeps ((id, request) ∷ rest) w end j e h = elim (round-cases id request rest w end e) [
    | inl (_, now) ↦ inl (ground arith)
    | inr (w', _, (g, begun), now) ↦
        let on = ap (λ s. s.step) (sym now) ∙ e in
        (elim (Bool-cases (j == id)) [
          | inl same ↦ inr (
              running_stays rest w' end j on
                (rw begun (contains-insert id j g (running_signatures w) (inl (ground arith)))))
          | inr other ↦ ground (arith, signing_keeps rest w' end j on)
        ])
  ]
