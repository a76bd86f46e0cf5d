-- ===== src/Session.antt =====
-- The session that both ends share, src/session.rs: its state, the channels and their windows, the
-- sending of data, the flushing of packets and the key exchange's states.
pub mod State
pub mod Channels
pub mod Numbers
pub mod Windows
pub mod Data
pub mod DataLaws
pub mod Flush
pub mod FlushRound
pub mod FlushLaws
