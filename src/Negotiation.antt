-- ===== src/Negotiation.antt =====
-- Algorithm negotiation, src/negotiation.rs: the preference lists, both `select` functions,
-- `read_kex` and `write_kex`. The random cookie is an argument.
pub mod Select
pub mod Agree
pub mod ReadKex
pub mod Follows
