-- ===== src/Ends.antt =====
-- The two ends together: what one pushes, and what the other makes of it.
pub mod Modes
pub mod Texts
pub mod Asks
pub mod Requests
pub mod Calls
pub mod Halves
pub mod Sides
pub mod Exchange
pub mod Openings
pub mod Heard
pub mod Opens
pub mod Login
pub mod Reports
pub mod Signals
