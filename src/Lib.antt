-- ===== src/Lib.antt =====
-- The state machines of a multi-party signing network: the contract on the NEAR chain that
-- records who takes part, the node that follows it, and the leader and sign nodes of the service
-- that recovers accounts.
--
-- The parts, and how they interact:
-- * contract/src (files Contract/): accounts vote on the public key (`vote_pk`), on who joins
--   (`join`, `vote_join`) or leaves (`vote_leave`), and report a finished resharing
--   (`vote_reshared`); `sign`, `sign_helper` and `respond` keep the pending requests for
--   signatures. Contract/Primitives.antt is contract/src/primitives.rs; Contract/State.antt has
--   the structs of contract/src/lib.rs; Contract/Membership.antt and Contract/Requests.antt have
--   its methods, a function each, with a function of the same name and `_running`,
--   `_initializing` or `_resharing` for the branch that does the work; Contract/Calls.antt has
--   one call of any method that changes the contract, `init` and `clean` with them, with its
--   rollback on a panic, and a history of calls.
--   Contract/{Conversion,Ballots,Invariant,Quorum,Constancy,Progress,Stuck,Votes,Pending}.antt are about
--   them.
-- * node/src/protocol/contract (Node/Participants.antt, Node/ContractState.antt): the contract's
--   state as the node reads it; an account's position in the contract's map becomes the
--   participant's number.
-- * node/src/protocol/{state,consensus}.rs and node/src/types.rs (Node/State.antt,
--   Node/Consensus.antt, Node/Consensus/Phases.antt): the phases of a node and `advance`, which
--   takes the contract's state to the next phase, to an error or to a panic, with the calls to
--   the outside that it makes. Node/Consensus/{Agreement,Rollback,Resharing}.antt and
--   Node/KeyGeneration.antt are about them; the last also goes through the contract.
-- * node/src/protocol/{triple,presignature,signature}.rs and node/src/kdf.rs (Node/Triple.antt,
--   Node/Presignature.antt, Node/SignQueue.antt, Node/Signature.antt; the `poke` of presignatures
--   and signatures is in Node/{Presignature,Signature}/Pass.antt): what a running node keeps of
--   protocols under way and of their results. A presignature uses up two triples, a signature one
--   presignature. Node/Poke.antt is the loop inside each `poke`, and
--   Node/Triple/{Conservation,Spending,Passes}.antt are about the managers.
-- * node/src/protocol/message.rs (Node/Message.antt, Node/Queue.antt, Node/Intake.antt,
--   Node/Running.antt): the messages that the managers emit; the queue of received ones, by kind,
--   epoch and id; and `handle`, by which the generating, resharing and running node feed them to
--   their protocols and keep those that come too early. Node/Queue/{Filing,Delivery}.antt and
--   Node/Running/Postponed.antt are about them.
-- * node/src/protocol/cryptography.rs, with `publish` of node/src/protocol/signature.rs and the
--   outgoing queue of node/src/http_client.rs (Node/Outbox.antt, Node/Drive.antt,
--   Node/Cryptography.antt, Node/Cryptography/{Running,Signing,Rounds}.antt): `progress`, by which
--   a node sends what waits, pokes its protocols and begins new ones. Node/Drive.antt is the loop
--   of the generating and of the resharing node, and `drive` its fuel; Node/Drive/Endings.antt and
--   Node/Cryptography/{Requests,Handover,Generation}.antt are about them. Node/Resharing.antt goes from the
--   end of a resharing through the contract to the running node.
-- * node/src/indexer.rs and node/src/kdf.rs (Node/Indexer.antt): the calls of `sign` in the blocks of
--   the chain become requests in the sign queue.
-- * keys/src/hpke.rs (Node/Hpke.antt) and `SignedMessage` of node/src/protocol/message.rs
--   (Node/SignedMessage.antt): the envelopes in which the messages travel.
-- * node/src/protocol/mod.rs and node/src/storage.rs (Node/Protocol.antt): one turn of the loop, in
--   which messages are received and `progress`, `advance` and `handle` follow each other, and the
--   turns of a life. Node/Protocol/{Agreement,Storage}.antt are about them.
-- * mpc-recovery/src/leader_node/mod.rs with transaction.rs, key_recovery.rs and nar.rs
--   (Recovery/LeaderNode.antt): the node that users call, which asks all sign nodes and puts their
--   answers together; a task is tried five times at most. Recovery/LeaderNode/Accounts.antt
--   creates accounts, and Recovery/LeaderNode/Start.antt gathers and sends the public keys.
--   Recovery/LeaderNode/{Refusals,Recoverable}.antt are about them.
-- * mpc-recovery/src/sign_node (files Recovery/): a user claims an OIDC token for a key, and the
--   sign nodes then sign together for the user. Recovery/AggregateSigner.antt and
--   Recovery/SigningState.antt are aggregate_signer.rs: commitment, reveal and share of a
--   signature, each of which takes what the one before has kept. Recovery/Oauth.antt and
--   Recovery/Utils.antt are the tokens (mpc-recovery/src/oauth.rs, oidc.rs) and the signed digests
--   (mpc-recovery/src/utils.rs). Recovery/SignNode.antt, Recovery/SignNode/{Process,Handlers}.antt
--   and Recovery/UserCredentials.antt are the handlers of mod.rs with the state that they share and
--   the datastore. Recovery/Gcp.antt and Recovery/Gcp/Records.antt are the values that the
--   datastore keeps (mpc-recovery/src/gcp/value.rs) and the records made of them.
--   Recovery/SigningState/{Burning,Shares}.antt, Recovery/AggregateSigner/Zipped.antt,
--   Recovery/Oauth/Validity.antt, Recovery/SignNode/{Claims,Owners,Keys}.antt and
--   Recovery/Gcp/{RoundTrip,Storing}.antt are about them.
--
-- How the code is translated:
-- * Account ids, keys, URLs, payloads, hashes and points of the curve are numbers that are
--   compared and ordered as the code compares them; what is computed on them is a parameter.
-- * A BTreeMap or HashMap is a list of entries in ascending order of its keys
--   (Collections/Map.antt), a HashSet a list without repetition (Collections/HashSet.antt). Where
--   the code goes through a HashMap, the order of its entries is that of the keys.
-- * A u64 or u32 wraps around (`u64`, `u32`); `votes.len()` and the threshold are plain numbers.
-- * A method that panics on the chain leaves the state as it was. A panic of a node is an outcome
--   of its own: `panicked`, `crashed` or `none`.
-- * The loops in `poke` and `drive` run on fuel, a round for each poke. What a protocol does when it is
--   poked until it waits, returns or fails is a list of requests with an ending (`Runs`, in
--   Node/Poke.antt), and enough is one round more than the list is long. A node whose loop runs out
--   of fuel, in a manager or in the protocol of the key, stalls (`spent`, `stalled`).
-- * cait-sith and the curve (Node/CaitSith.antt), the conversions of keys (`Conversions`), the
--   seeded choice of signers (`Chooser`), the storage and the success of calls to the outside
--   (`Ctx`) are parameters; a random id is an argument. The sign queue, which the indexer shares,
--   stands beside the node's state. Logs and gas are left out.
-- * The curve and the hashes of the sign node (`EdDsa`, `Digests`), its cipher (`Cipher`), the
--   parsing of tokens (`Jwt`) and of texts (`Texts`) are parameters too. The maps of the sign node
--   are lists with one entry for each key (Collections/HashMap.antt). What a handler meets outside,
--   as a failing datastore, is an argument (`Meeting`). Requests are handled one after the other.
--
-- Not modelled: the transport of messages, the web server and command line of the node;
-- requests that a sign node handles at the same time, and the locks that a panic poisons; of the crate
-- mpc-recovery the client of the relayer, the migration of keys, logging, metrics and the client of the
-- datastore; the crates for tests. But for the migration these are input and output,
-- and glue to libraries.
pub mod Prelude
pub mod Collections
pub mod Contract
pub mod Node
pub mod Recovery
