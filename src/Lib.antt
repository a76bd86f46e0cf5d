-- ===== src/Lib.antt =====
-- thrussh, an SSH library: the two ends of a connection as state machines over packets.
--
-- Parts. A packet is read off the stream and written to a buffer by src/cipher/mod.rs, with one of
-- the ciphers of src/cipher. The first packets are the negotiation of the algorithms
-- (src/negotiation.rs) and the key exchange (src/server/kex.rs); then the client authenticates
-- itself (src/server/encrypted.rs), and the session (src/session.rs) has channels and pending
-- packets, which flushing encrypts. The client (src/client) is the other end of each of these, and
-- both ends have a loop that hands the packets on (src/server/mod.rs, src/client/mod.rs).
--
-- Files. Base: tests, lists, the errors of src/lib.rs (Base/Fallible) and a hash map as an
-- association list (Base/Assoc). Protocol: src/msg.rs, src/pty.rs and the enumerations of
-- src/lib.rs, with what reads them back (Protocol/RoundTrip). Wire: the encodings of the crates
-- byteorder, cryptovec and thrussh-keys as an interface, `push_packet!` of src/lib.rs, and what it
-- appends (Wire/Frames). Cipher: src/sshbuffer.rs and src/cipher: Keys has the traits of both
-- ciphers, Packet has `read` and `write`, and Padding, Seal, Stages, Write, Sealed, RoundTrip and
-- Failure their proofs. Negotiation: src/negotiation.rs in Select and ReadKex, proofs in Agree and
-- Follows. Auth: src/auth.rs. Session: src/session.rs: State has the records, Channels the
-- numbers, the short messages and the windows, Data the sending of data, Flush the flushing;
-- Numbers, Windows, DataLaws, FlushRound and FlushLaws have the proofs. Server: src/server: the
-- key exchange (Kex) with what comes of new keys (Rekey); the authentication of src/server/encrypted.rs in
-- Login (answers), Requests and Encrypted (the states of a session), with proofs in Granted,
-- LetIn, Guarded and Probe. Channels has the messages of an authenticated client (Parse: the requests,
-- Modes: terminal modes, Opens: new channels, Messages and Dispatch: the rest). Senders has what
-- src/server/session.rs pushes, Commands these calls as values, with proofs in Whole and Pending;
-- Flush is its flush. Exchange has the reply of src/server/kex.rs, Reply and Loop are `reply` and
-- the loop of src/server/mod.rs, with Tampered and Queues; Connection is the whole connection from
-- its first line on, with Stage, Beginning, Entry and Admission (who is let in), and
-- Defaults, Refusal and Refused for the methods that a handler has by default; Handle is the
-- handle of src/server/session.rs. Dh: src/kex.rs, in Algorithm, with the secrets of both
-- ends (Secrets) and their keys (Mirror, Done). Rounds: the loops of both ends, with Blame
-- for what holds of all their rounds. Key: src/key.rs. Ident: src/ssh_read.rs.
-- Client: src/client: State has the session and the messages of a handle; Senders and Opens are
-- client/session.rs, Kex and Exchange the key exchange, with Trust and Rekey, Login and Messages
-- are client/encrypted.rs, with Late; Reply, Loop, Connection, Handle and Defaults are
-- client/mod.rs, with Unkeyed and Faith for whom a client has keys with. Ends: what one end sends
-- and the other makes of it.
-- Tests: concrete instances.
--
-- Correspondence. A definition has the name of the function that it models; `&mut self` is a state
-- that is passed and returned, a Result is an Outcome, whose value `panic` stands for an
-- assertion, an unwrap or an index that fails. Numbers are natural numbers, with the wrap-around
-- of 32 bits written out where the source wraps. Logging and the clearing of secrets are left out.
--
-- Fuel. The loop of `compute_keys` that lengthens a key has a round for each byte, and a hash has
-- 32. The loop for a new channel number has one round more than there are channels: as many
-- numbers as there are rounds cannot all be taken. The loop of `data` has a round for each byte,
-- and the loop of `flush` one for each pending byte: a round that takes anything takes one byte at
-- least.
--
-- The queue of ten messages between a handle of the client and its session is a list of all that
-- is sent: a call that waits for room goes on when the session has taken a message; what it sends and
-- in which order does not depend on the wait, as long as the session does not end meanwhile.
--
-- Not modelled: sockets, timers and tasks, which are I/O; proxy commands (src/client/proxy.rs);
-- what thrussh-libsodium, thrussh-keys and openssl compute, which are parameters with the laws that
-- their documentation states.
pub mod Base
pub mod Protocol
pub mod Wire
pub mod Cipher
pub mod Negotiation
pub mod Auth
pub mod Rounds
pub mod Session
pub mod Client
pub mod Dh
pub mod Ends
pub mod Key
pub mod Ident
pub mod Server
pub mod Tests
