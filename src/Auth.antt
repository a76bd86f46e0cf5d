-- ===== src/Auth.antt =====
-- Authentication methods, src/auth.rs. A MethodSet is its bits, and the operations of the crate
-- bitflags on it are the bitwise ones that it documents.
pub mod Methods
pub mod Sets
