-- ===== src/Node/CaitSith.antt =====
-- The interface of the cait-sith library and of the elliptic curve, as far as node/src calls them.
use mpc_recovery.Prelude.{ℕ, List, Option}

-- What a protocol asks its caller to do when it is poked.
pub data Action (D Output : Type 0) : Type 0 where
  wait : Action D Output
  send_many : D → Action D Output
  send_private : ℕ → D → Action D Output
  return : Output → Action D Output

pub data Poked (E D Output : Type 0) : Type 0 where
  acted : Action D Output → Poked E D Output
  failed : E → Poked E D Output

-- `Result<T, E>`
pub data Result (E T : Type 0) : Type 0 where
  ok : T → Result E T
  err : E → Result E T

-- A running protocol: `poke` gives the next action and the protocol after it, and `message` feeds in
-- what a participant has sent.
pub record Protocol (E D Output : Type 0) : Type 1 where
  pub State : Type 0
  pub poke : State → Poked E D Output × State
  pub message : State → ℕ → D → State

-- The part of a presignature that a node holds. A point of the curve stands as a number.
pub record PresignOutput (Scalar : Type 0) : Type 0 where
  pub big_r : ℕ
  pub k : Scalar
  pub sigma : Scalar

pub record CaitSith : Type 1 where
  pub Data : Type 0
  pub InitializationError : Type 0
  pub ProtocolError : Type 0
  pub Scalar : Type 0
  pub TripleShare : Type 0
  pub TriplePub : Type 0
  pub FullSignature : Type 0
  pub keygen : Protocol ProtocolError Data (Scalar × ℕ)
  pub reshare : Protocol ProtocolError Data Scalar
  pub triple : Protocol ProtocolError Data (TripleShare × TriplePub)
  pub presign : Protocol ProtocolError Data (PresignOutput Scalar)
  pub sign : Protocol ProtocolError Data FullSignature
  -- participants, me, threshold
  pub new_keygen : List ℕ → ℕ → ℕ → Result InitializationError keygen.State
  -- old participants, old threshold, new participants, new threshold, me, share, public key
  pub new_reshare :
      List ℕ → ℕ → List ℕ → ℕ → ℕ → Option Scalar → ℕ → Result InitializationError reshare.State
  pub new_triple : List ℕ → ℕ → ℕ → Result InitializationError triple.State
  -- participants, me, both triples, private share, public key, threshold
  pub new_presign :
      List ℕ
      → ℕ
      → TripleShare × TriplePub
      → TripleShare × TriplePub
      → Scalar
      → ℕ
      → ℕ
      → Result InitializationError presign.State
  -- participants, me, public key, presignature, message hash
  pub new_sign :
      List ℕ → ℕ → ℕ → PresignOutput Scalar → Scalar → Result InitializationError sign.State
  -- `hash64` of the bytes of a triple's `big_c`
  pub entropy : TriplePub → ℕ
  pub add : Scalar → Scalar → Scalar
  pub mul : Scalar → Scalar → Scalar
  pub invert : Scalar → Option Scalar
  -- the scalar whose little-endian bytes these are
  pub scalar_of_bytes : ℕ → Scalar
  pub generator : ℕ
  pub scale : ℕ → Scalar → ℕ
  pub add_points : ℕ → ℕ → ℕ
