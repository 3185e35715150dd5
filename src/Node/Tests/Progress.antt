-- ===== src/Node/Tests/Progress.antt =====
-- A node at work (node/src/protocol/cryptography.rs).
use mpc_recovery.Prelude.{
  ℕ, ◌+◌, ◌≡◌, ◌⊎◌, refl, true, false, [], ◌∷◌, some, length, ltb, if◌then◌else◌,
}
use mpc_recovery.Collections.Map
use mpc_recovery.Node.Message.{MpcMessage}
use mpc_recovery.Node.SignQueue.{SignRequest, SignQueue}
use mpc_recovery.Node.Presignature
use mpc_recovery.Node.Signature
use mpc_recovery.Node.State.{GeneratingState, WaitingForConsensusState, waiting_for_consensus}
use mpc_recovery.Node.Outbox.{send_encrypted}
use mpc_recovery.Node.Drive.{drive, turn, send_many_to, to_others}
use mpc_recovery.Node.Cryptography.{
  CryptographicCtx, rpc_error, progressed, progress_generating, settle_generating, flush_then,
}
use mpc_recovery.Node.Cryptography.Running.{Working, done, Step}
use mpc_recovery.Node.Cryptography.Signing.{
  begin_signatures, begin_signature, spend_mine, publish_signatures,
}
use mpc_recovery.Node.Cryptography.Requests.{own_presignatures, signing_spends}
use mpc_recovery.Node.Cryptography.Handover.{
  HandsOver, first, successes, generated_share_stored, unpublished_lost,
}
use mpc_recovery.Node.Tests.{counts, info}

-- The second message cannot be sent.
abbrev pub ctx : CryptographicCtx
ctx = record {
  me = some 0;
  before = [];
  after = true ∷ false ∷ [];
  stores = true;
  published = [];
  triple_id = 50;
  presignature_id = 60;
  chooser = record {
    subset = λ entropy participants threshold. participants;
    proposer = λ entropy participants threshold. some 0;
  };
  fuel = 9;
}

abbrev g : GeneratingState counts
g = record {
  participants = (0, info 0 1) ∷ (1, info 1 4) ∷ [];
  threshold = 2;
  protocol = record { me = 0; threshold = 2; participants = 0 ∷ 1 ∷ []; protocol = 2 };
  messages = [];
}

abbrev pub no_requests : SignQueue counts
no_requests = record { unorganized_requests = []; requests = [] }

-- It has the share 5 of the key 6, and one message is left.
abbrev w : WaitingForConsensusState counts
w = record {
  epoch = 0;
  participants = g.participants;
  threshold = 2;
  private_share = 5;
  public_key = 6;
  messages = (info 1 4, MpcMessage.generating (record { from = 0; body = 0 })) ∷ [];
}

generates : (progress_generating counts ctx g).outcome ≡ progressed (waiting_for_consensus w)
unfolding progress_generating settle_generating flush_then send_encrypted drive turn send_many_to
    to_others
generates = refl

generated_share_stored_example : HandsOver counts ctx g w (progress_generating counts ctx g)
generated_share_stored_example = generated_share_stored counts ctx g w generates

abbrev request : ℕ → SignRequest counts
request id = record { receipt_id = id; msg_hash = 7; epsilon = 1; delta = 2; entropy = 3 }

-- Two requests, and one presignature.
abbrev at_work : Working counts
at_work = record {
  state = record {
    epoch = 0;
    participants = g.participants;
    threshold = 2;
    private_share = 5;
    public_key = 6;
    triple_manager = record {
      triples = [];
      generators = [];
      mine = [];
      participants = 0 ∷ 1 ∷ [];
      me = 0;
      threshold = 2;
      epoch = 0;
    };
    presignature_manager = record {
      presignatures =
          (20, record { id = 20; output = record { big_r = 1; k = 2; sigma = 3 } }) ∷ [];
      generators = [];
      mine = 20 ∷ [];
      participants = 0 ∷ 1 ∷ [];
      me = 0;
      threshold = 2;
      epoch = 0;
    };
    signature_manager = record {
      generators = [];
      signatures = (30, 7, 4) ∷ [];
      participants = 0 ∷ 1 ∷ [];
      me = 0;
      public_key = 6;
      epoch = 0;
    };
    messages = [];
  };
  queue = no_requests;
  published = [];
}

abbrev requests : Map.Map (SignRequest counts)
requests = (30, request 30) ∷ (31, request 31) ∷ []

abbrev worked : Working counts
worked = record at_work {
  state = record at_work.state {
    presignature_manager = record at_work.state.presignature_manager {
      presignatures = [];
      mine = [];
    };
    signature_manager = record at_work.state.signature_manager {
      generators =
          (
            30,
            record {
              protocol = 2;
              proposer = 0;
              presignature_id = 20;
              msg_hash = 7;
              epsilon = 1;
              delta = 2;
            },
          )
          ∷ [];
    };
  };
}

works : (begin_signatures counts requests at_work).step ≡ done worked
unfolding begin_signatures spend_mine begin_signature Presignature.take_mine
    Presignature.take_queued Map.get Map.remove Map.insert Signature.generate
    Signature.generate_internal Signature.store Signature.tweak Signature.derive_key
works = refl

signing_spends_example :
    (length (begin_signatures counts requests at_work).left
        + length (own_presignatures counts at_work)
      ≡ length requests + length (own_presignatures counts worked))
    × (((begin_signatures counts requests at_work).left ≡ [])
        ⊎ (own_presignatures counts worked ≡ []))
signing_spends_example = signing_spends counts requests at_work worked works

abbrev unpublished : Working counts
unpublished = record at_work {
  state = record at_work.state {
    signature_manager = record at_work.state.signature_manager {
      signatures = (30, 7, 4) ∷ (31, 7, 4) ∷ (32, 7, 4) ∷ [];
    };
  };
}

-- The second transaction fails.
unpublished_lost_example :
    let signatures = unpublished.state.signature_manager.signatures in
    (w' : Working counts) × (publish_signatures counts (true ∷ false ∷ true ∷ []) unpublished ≡ (
      if ltb (successes counts (true ∷ false ∷ true ∷ [])) (length signatures)
      then Step.fails rpc_error w'
      else done w'))
    × (w'.published ≡ first counts (successes counts (true ∷ false ∷ true ∷ [])) signatures)
    × (w'.state.signature_manager.signatures ≡ [])
    × (w'.queue ≡ no_requests)
unpublished_lost_example = unpublished_lost counts (true ∷ false ∷ true ∷ []) unpublished
