-- ===== src/Tests.antt =====
-- Concrete instances of the theorems.
pub mod Toy
pub mod Keys
pub mod Ends
pub mod Joint
pub mod Lines
pub mod Packets
pub mod Agreement
pub mod Sessions
pub mod Logins
pub mod Exchanges
pub mod Calls
pub mod Connections
pub mod Dialogue
pub mod Handles
