-- ===== src/Protocol.antt =====
-- The numbers and names of the protocol: message numbers (src/msg.rs), terminal codes (src/pty.rs),
-- and the reasons, signals and channel parameters of src/lib.rs.
pub mod Msg
pub mod Pty
pub mod Names
pub mod RoundTrip
