-- ===== src/Lib.antt =====
-- Konvo, an end-to-end encrypted messenger: a client library of cryptography (packages/crypto), a
-- wire protocol (packages/protocol), a blind router of ciphertexts (apps/api) and a web client
-- (apps/web), modelled from the TypeScript sources.
--
-- A message starts in the Double Ratchet of the sending device, is wrapped in an envelope, encoded
-- by the codec and sent on the WebSocket. The gateway decodes the frame, checks that the sender is
-- the device of the token, asks the rate limiter, stores the envelope under its nonce, publishes
-- the id on the recipient's channel and answers with it. The recipient's ratchet opens the
-- ciphertext. The session of two devices starts with X3DH on the prekeys that the recipient keeps
-- uploaded; the token of the WebSocket comes from the account's login or refresh.
--
-- Shared: the names that the other modules use, with results, maps and native numbers.
-- Crypto: the primitives that the ratchet is given (@noble/curves, @noble/hashes, WebCrypto) as a
--   record of operations, and the laws that the ratchet relies on: agreement of X25519, that AES-GCM
--   opens what it sealed, and lengths. Crypto.Toy is an instance of both, for the tests.
-- Ratchet: packages/crypto/src/ratchet.ts. State has `RatchetState` and the results, Keys the key
--   derivations, Skipped the store of skipped keys, Send `initSenderRatchet`, `initReceiverRatchet`
--   and `encryptToDevice`, Receive `decryptFromDevice` and the functions it calls. The random bytes
--   that the code draws are arguments, and a throw is the error of a result. The other modules
--   prove: Chain and Steps what a chain of keys is and how a receiver follows it, Delivery and
--   AnyOrder delivery on one chain, Sending the sender's side, OldChain, Turns and Conversation the
--   change of chains, Bounds, Atomicity and Loss what a call can do whatever arrives.
-- Protocol: packages/protocol/src/codec.ts, ws-messages.ts and envelopes.ts. Value has the values
--   that msgpack decodes, Messages the typed messages, Codec the checks in the order of the code,
--   Shapes, ClientFrames and ServerFrames the relation of a value to a typed message, Frames and
--   RoundTrip the theorems. @msgpack/msgpack is a parameter.
-- RateLimit: apps/api/src/ws/rate-limit.ts, with Entries and Capacity on what a call leaves in the
--   buckets, and Burst on the calls of one millisecond. A count of tokens is the double of the code:
--   a multiple of 2^-62, rounded to 53 bits where the code rounds. Times are whole milliseconds, the
--   capacity and the rate whole numbers.
-- Gateway: apps/api/src/ws/gateway.ts. State has the server's tables, registries and counters and
--   the `WSContext` of a connection, Envelopes `onSendEnvelope` with its INSERT and SELECT on
--   `ciphertext_envelopes` (infra/postgres), Hello `authenticate`, `queuedCountForDevice` and
--   `handleHello`, Rooms the subscriptions, Dispatch `handleClientMessage`, Connection the events of
--   a socket in `handleConnection`. Outcome, Ledger and Retry follow the table over sends, Reply and
--   Push what a send answers and whom it wakes, Handshake, Senders and Access who gets in and what a
--   frame can reach, Listed and Lifetime the rooms and the gauge of a connection. Inbox is
--   apps/api/src/ws/redis-fanout.ts, with what its SELECTs answer as arguments. What the clock,
--   Postgres and Redis answer during a call is an argument (`Outside`, `HelloOutside`,
--   `PresenceOutside`, `Moment`), with a failure of each call as a case. Calls are handled one after
--   the other; what other writers do to the table between the two statements of a retry is a
--   function of `Outside`. `connectedDevices` is always given, as the plugin gives it, and a
--   listener is known by its slug. Frames that a closing socket swallows are not in `sent`.
-- Outbox: apps/web/src/db/repositories/outbox.ts, the queue of frames that the server has not
--   confirmed, and its coordinator apps/web/src/ws/outbox.ts. Dexie's table is the interface
--   `OutboxTable` with the laws `TableLaws` (Outbox.Rows); Outbox.Memory is an instance. Sweeps,
--   Enqueue and Acknowledge prove what each operation leaves of the rows, Coordinator has the replay
--   with what the connection and other writers do at each wait as a `Turn`, Replay its theorems. A
--   transaction of the store is one step.
-- Auth: apps/api/src/services/auth/tokens.ts and routes/auth.ts. Tokens has the store of refresh
--   tokens over the rows of `refresh_tokens`, one function per call, with the hash of a token, the
--   time and the new id as arguments; a call is one transaction. Model is the store as a map of
--   grants, Keys and Refinement relate the two, Table and Spent follow one token over calls. Routes
--   has the handlers of signup, login, refresh and logout with their replies and cookies; a body is
--   given parsed, or as none where zod refuses it. Handles are compared by the lower case of the
--   `citext` column, and each call of `argon2.verify` is noted with its hash. Answers and Signup prove what they answer.
-- Session: packages/crypto/src/identity.ts (Identity), session.ts (X3dh) and prekeys.ts (PreKeys, over
--   the interface `PreKeyStore` with the laws `PreKeyStoreLaws`). Dexie is that interface over
--   apps/web/src/db/repositories/prekeys.ts and `markOpkUsed` of sessions.ts, Stored its laws. Upkeep
--   has the two checks of apps/web/src/features/auth/opkReplenishment.ts. Agreement, Minting and
--   Retries are their theorems. Random bytes and times are arguments; the draws of a registration id
--   are a list, and without a fit one the call gives an error.
-- Client: apps/web/src/ws/client.ts. State has the fields of `WsClient`, each call of the caller and each
--   event of the browser as a step, and the step functions; Pending, Closing, Attempts and Backoff prove what
--   runs of steps keep. A step is what runs between two waits. The client's calls that wait for a
--   token are counted, and a socket is known by its number.
-- Publisher: apps/api/src/ws/redis-publisher.ts. Channels has the registry of listeners, with a map of
--   arrays by number, since a waiting call holds on to its array, and what Redis is subscribed to;
--   Listening, Delivery and Races what listeners receive, one call after another or interleaved.
-- Trust: apps/web/src/db/repositories/remote-identities.ts. Pins has the store, Keys shows that the
--   composite ids of UUIDs differ, Pinning that the store is one register for each device.
-- Dm: apps/web/src/features/dm. Wire is wire.ts, Tables has the rows of messages.ts, threads.ts and
--   the sessions of sessions.ts (apps/web/src/db/repositories), Controller is controller.ts, with
--   what the resolvers answer as arguments; Exchange is a message from one controller to
--   another, Retry the retry of a failed one.
-- Calls: apps/web/src/features/calls/signaling.ts. Inner has the call payloads and their values on
--   the wire, Signaling the functions, Binding and Guard what an inbound envelope can do, Arrival a
--   signal from one device to another. Fingerprint has `extractDtlsFingerprint` of peer.ts with its
--   regular expression, and the trimming and folding of spaces; `Texts` is `toLowerCase`.
-- Tests: concrete inputs of the theorems.
--
-- Each loop of the modelled code is a recursion on a list, a text or a number. Only `bits` of the
-- rounding has fuel, the number itself, which has no more digits than its value.
--
-- Not modelled: overwriting of used key material (values have no identity here), logging and
-- metrics that no behaviour depends on, the reading of HTTP headers, the JSON of room posts, the
-- subscriptions of start and stop of the coordinator and of the message controller, the timers of
-- prekey maintenance, access tokens (jose), the other REST routes (requests over SQL), attachments,
-- broadcast rooms and voice notes, the state machine of a call around RTCPeerConnection, and the
-- web application's components.
pub mod Shared
pub mod Auth
pub mod Crypto
pub mod Ratchet
pub mod Protocol
pub mod RateLimit
pub mod Gateway
pub mod Session
pub mod Publisher
pub mod Outbox
pub mod Client
pub mod Trust
pub mod Dm
pub mod Calls
mod Tests
