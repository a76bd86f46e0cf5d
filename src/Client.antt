-- ===== src/Client.antt =====
-- The client: what its session pushes (src/client/session.rs), and what it does with the packets of
-- the server (src/client/encrypted.rs).
pub mod State
pub mod Senders
pub mod Opens
pub mod Kex
pub mod Exchange
pub mod Trust
pub mod Login
pub mod Messages
pub mod Reply
pub mod Loop
pub mod Connection
pub mod Unkeyed
pub mod Faith
pub mod Handle
pub mod Defaults
pub mod Late
pub mod Rekey
