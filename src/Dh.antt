-- ===== src/Dh.antt =====
-- The key exchange of src/kex.rs: shared secrets, the exchange hash and the derived keys.
pub mod Algorithm
pub mod Secrets
pub mod Mirror
pub mod Done
