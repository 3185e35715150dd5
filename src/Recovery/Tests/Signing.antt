-- ===== src/Recovery/Tests/Signing.antt =====
-- Two nodes sign one message (mpc-recovery/src/sign_node/aggregate_signer.rs).
use mpc_recovery.Prelude.{ℕ, ◌≡◌, ◌↔◌, refl, List, [], ◌∷◌, ◌++◌, some, map, arith, All}
use mpc_recovery.Collections.HashMap
use mpc_recovery.Recovery.EdDsa.{SignSecondMsg, KeyAgg}
use mpc_recovery.Recovery.AggregateSigner.{
  ok, err, commitment_not_found, Revealed, new, get, commit, create, verify, verify_all,
  signed_by_every_node, check_all, check_commitment, combine, reveal, serialize, to_dalek_signature,
  to_dalek_public_key,
}
use mpc_recovery.Recovery.AggregateSigner.Zipped.{
  zip, contents, IsSigned, signed_by_every_node_iff, extra_reveals_signed,
}
use mpc_recovery.Recovery.SigningState.{
  Call, asks_commitment, asks_reveal, asks_share, get_commitment, get_reveal, get_signature_share,
  keep_committed, keep_revealed, reveal_ours, sign_ours, step, run,
}
use mpc_recovery.Recovery.SigningState.Shares.{shares}
use mpc_recovery.Recovery.SigningState.Burning.{commitment_burned}
use mpc_recovery.Recovery.Tests.{toy, info, ours, theirs}

evaluation : Unit {0}
unfolding HashMap.get HashMap.insert HashMap.remove get commit create verify verify_all
    signed_by_every_node check_all check_commitment combine reveal serialize to_dalek_signature
    to_dalek_public_key get_commitment get_reveal get_signature_share keep_committed keep_revealed
    reveal_ours sign_ours step run shares
evaluation = tt

abbrev our_reveal : SignSecondMsg
our_reveal = record { r = 11; blind_factor = 12 }

abbrev their_reveal : SignSecondMsg
their_reveal = record { r = 21; blind_factor = 22 }

abbrev calls : List Call
calls =
    asks_commitment 3 5 (1 ∷ []) 10
    ∷ asks_reveal info (ours ∷ theirs ∷ [])
    ∷ asks_share info (our_reveal ∷ their_reveal ∷ [])
    ∷ []

one_share : shares toy calls new ≡ 1
unfolding evaluation
one_share = refl

commitment_burned_example :
    (get_reveal toy info (ours ∷ theirs ∷ []) (
      run toy
        (asks_commitment 3 5 (2 ∷ []) 11 ∷ [])
        (get_reveal toy info (ours ∷ theirs ∷ []) (get_commitment toy 3 5 (1 ∷ []) 10 new).0).0)).1
    ≡ err (commitment_not_found 60)
unfolding get
commitment_burned_example =
    commitment_burned toy info info (ours ∷ theirs ∷ []) (ours ∷ theirs ∷ []) ours ours
      (asks_commitment 3 5 (2 ∷ []) 11 ∷ []) (get_commitment toy 3 5 (1 ∷ []) 10 new).0 refl refl
      refl (refl, tt)

abbrev keys : List ℕ
keys = 105 ∷ 106 ∷ []

abbrev accepted : List (ℕ × ℕ)
accepted = (60, 103) ∷ (70, 104) ∷ []

signed_by_every_node_iff_example :
    (signed_by_every_node toy info (ours ∷ theirs ∷ []) ≡ ok accepted) ↔ (
      All (IsSigned toy) (zip keys (ours ∷ theirs ∷ []))
      × (accepted ≡ map (λ p. contents p.1) (zip keys (ours ∷ theirs ∷ []))))
signed_by_every_node_iff_example = signed_by_every_node_iff toy keys 0 (ours ∷ theirs ∷ []) accepted

abbrev revealed : Revealed
revealed = record {
  commitments = 60 ∷ 70 ∷ [];
  signing_public_keys = 103 ∷ 104 ∷ [];
  committed = record {
    ephemeral_key = record { r = 10; big_r = 11 };
    our_signature = our_reveal;
    message = 1 ∷ [];
    our_key = 3;
  };
}

signs : combine toy revealed (our_reveal ∷ their_reveal ∷ []) info ≡ ok 12
unfolding evaluation
signs = refl

abbrev third : SignSecondMsg
third = record { r = 99; blind_factor = 98 }

extra_reveals_signed_example :
    (agg : KeyAgg) × (toy.key_aggregation_n (103 ∷ 104 ∷ []) 0 ≡ some agg)
    × (combine toy revealed ((our_reveal ∷ their_reveal ∷ []) ++ third ∷ []) info
        ≡ ok (
            toy.partial_sign 10 3 agg.hash
              (toy.get_r_tot (map (λ p. p.r) ((our_reveal ∷ their_reveal ∷ []) ++ third ∷ [])))
              agg.apk
              (1 ∷ [])))
extra_reveals_signed_example =
    extra_reveals_signed toy revealed (our_reveal ∷ their_reveal ∷ []) (third ∷ []) info 12
      (omega arith) signs
