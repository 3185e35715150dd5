-- ===== src/Node/Running/Postponed.antt =====
-- Messages that a running node keeps for later (node/src/protocol/message.rs).
use mathlib.Core.List.{append-nil, append_assoc}
use mpc_recovery.Prelude.{
  ℕ, ◌≡◌, ◌≢◌, refl, sym, ap, ◌∙◌, List, [], ◌∷◌, ◌++◌, none, All, arith, Option-cases, inl, inr,
}
use mpc_recovery.Collections.Map
use mpc_recovery.Node.CaitSith.{CaitSith}
use mpc_recovery.Node.Message.{PresignatureMessage}
use mpc_recovery.Node.Triple.{TripleManager, take_two}
use mpc_recovery.Node.Presignature.{
  PresignatureManager, triple_is_missing, get_or_generate, join_with,
}
use mpc_recovery.Node.State.{RunningState}
use mpc_recovery.Node.Queue.{MpcMessageQueue, bin, handle_triples}
use mpc_recovery.Node.Intake.{handle_presignatures, read_presignatures}
use mpc_recovery.Node.Running.{
  handle_running, handle_running_presignatures, handle_running_signatures,
}

bin-insert_other :
    {A : Type 0} (key e : ℕ) (a : List A) (bins : Map.Map (List A))
    → e ≢ key
    → bin e (Map.insert key a bins) ≡ bin e bins
bin-insert_other key e a bins other = ground (arith, Map.get-insert key e a bins)

module _ (C : CaitSith) where
  waits :
      (public_key : ℕ) (private_share : C.Scalar) (id triple0 triple1 : ℕ) (t : TripleManager C)
      (m : PresignatureManager C)
      → Map.get id m.presignatures ≡ none
      → Map.get id m.generators ≡ none
      → Map.get triple0 t.triples ≡ none
      → get_or_generate C id triple0 triple1 t public_key private_share m
        ≡ (t, m, triple_is_missing triple0)
  unfolding get_or_generate join_with take_two
  waits public_key private_share id triple0 triple1 t m unknown idle gone = ground arith

  -- The messages about a presignature that a node has not begun, and for whose triples it still
  -- waits, are all kept in their order, and neither manager changes.
  read_presignatures_postpones :
      (public_key : ℕ) (private_share : C.Scalar) (id : ℕ) (messages : List (PresignatureMessage C))
      (leftover : List (PresignatureMessage C)) (t : TripleManager C) (m : PresignatureManager C)
      → Map.get id m.presignatures ≡ none
      → Map.get id m.generators ≡ none
      → All (λ a. Map.get a.triple0 t.triples ≡ none) messages
      → read_presignatures C public_key private_share id messages leftover t m
        ≡ record { triples = t; manager = m; left = leftover ++ messages; stop = none }
  unfolding read_presignatures
  read_presignatures_postpones public_key private_share id [] leftover t m unknown idle missing =
      ap (λ left. record { triples = t; manager = m; left = left; stop = none })
        (sym (append-nil leftover))
  read_presignatures_postpones public_key private_share id (a ∷ rest) leftover t m unknown idle
        missing =
      let now = waits public_key private_share id a.triple0 a.triple1 t m unknown idle missing.0 in
      rw (read_presignatures, ap (λ x. x.2) now, ap (λ x. x.0) now, ap (λ x. x.1) now)
        (read_presignatures_postpones public_key private_share id rest (leftover ++ a ∷ []) t m
            unknown idle missing.1
          ∙ ap (λ left. record { triples = t; manager = m; left = left; stop = none })
              (append_assoc leftover (a ∷ []) rest))

  -- The bins of an epoch, of all three kinds.
  pub record SameBins (e : ℕ) (q q' : MpcMessageQueue C) : Type 0 where
    pub triples : bin e q'.triple_bins ≡ bin e q.triple_bins
    pub presignatures : bin e q'.presignature_bins ≡ bin e q.presignature_bins
    pub signatures : bin e q'.signature_bins ≡ bin e q.signature_bins

  SameBins-trans :
      (e : ℕ) (q q' q'' : MpcMessageQueue C)
      → SameBins e q q'
      → SameBins e q' q''
      → SameBins e q q''
  SameBins-trans e q q' q'' a b = record {
    triples = b.triples ∙ a.triples;
    presignatures = b.presignatures ∙ a.presignatures;
    signatures = b.signatures ∙ a.signatures;
  }

  signatures_kept :
      (r : RunningState C) (q : MpcMessageQueue C) (e : ℕ)
      → e ≢ r.epoch
      → SameBins e q (handle_running_signatures C r q).queue
  unfolding handle_running_signatures
  signatures_kept r q e other = record {
    triples = refl;
    presignatures = refl;
    signatures = bin-insert_other r.epoch e _ q.signature_bins other;
  }

  presignatures_kept :
      (r : RunningState C) (q : MpcMessageQueue C) (e : ℕ)
      → e ≢ r.epoch
      → SameBins e q (handle_running_presignatures C r q).queue
  unfolding handle_running_presignatures
  presignatures_kept r q e other =
      let p =
        handle_presignatures C r.public_key r.private_share (bin r.epoch q.presignature_bins)
          r.triple_manager r.presignature_manager in
      let r' = record r { triple_manager = p.triples; presignature_manager = p.manager } in
      let q' = record q { presignature_bins = Map.insert r.epoch p.left q.presignature_bins } in
      let kept : SameBins e q q' = record {
        triples = refl;
        presignatures = bin-insert_other r.epoch e p.left q.presignature_bins other;
        signatures = refl;
      } in
      elim (Option-cases p.stop) [
        | inr (s, stopped) ↦ rw (handle_running_presignatures, stopped) kept
        | inl goes_on ↦
            rw (handle_running_presignatures, goes_on)
              (SameBins-trans e q q' (handle_running_signatures C r' q').queue kept
                (signatures_kept r' q' e other))
      ]

  -- Whatever a running node does with its messages, those of every other epoch stay as they are.
  handle_running_other_epochs :
      (r : RunningState C) (q : MpcMessageQueue C) (e : ℕ)
      → e ≢ r.epoch
      → SameBins e q (handle_running C r q).queue
  unfolding handle_running
  handle_running_other_epochs r q e other =
      let h = handle_triples C (bin r.epoch q.triple_bins) r.triple_manager in
      let r' = record r { triple_manager = h.manager } in
      let q' = record q { triple_bins = Map.insert r.epoch h.bins q.triple_bins } in
      let kept : SameBins e q q' = record {
        triples = bin-insert_other r.epoch e h.bins q.triple_bins other;
        presignatures = refl;
        signatures = refl;
      } in
      elim (Option-cases h.error) [
        | inr (s, stopped) ↦ rw (handle_running, stopped) kept
        | inl goes_on ↦
            rw (handle_running, goes_on)
              (SameBins-trans e q q' (handle_running_presignatures C r' q').queue kept
                (presignatures_kept r' q' e other))
      ]
