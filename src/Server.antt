-- ===== src/Server.antt =====
-- The server: its key exchange (src/server/kex.rs), authentication and packets
-- (src/server/encrypted.rs), what a session sends (src/server/session.rs) and its loop
-- (src/server/mod.rs).
pub mod Kex
pub mod Exchange
pub mod Reply
pub mod Loop
pub mod Tampered
pub mod Queues
pub mod Stage
pub mod Entry
pub mod Connection
pub mod Beginning
pub mod Admission
pub mod Handle
pub mod Rekey
pub mod Login
pub mod Requests
pub mod Encrypted
pub mod Granted
pub mod Probe
pub mod LetIn
pub mod Defaults
pub mod Refusal
pub mod Refused
pub mod Guarded
pub mod Senders
pub mod Commands
pub mod Whole
pub mod Pending
pub mod Channels
pub mod Flush
