-- ===== src/Cipher.antt =====
-- The packet layer: src/sshbuffer.rs, src/cipher/mod.rs, src/cipher/clear.rs and
-- src/cipher/chacha20poly1305.rs. The crate thrussh-libsodium is the parameter `Sodium`.
pub mod Keys
pub mod Packet
pub mod Padding
pub mod Seal
pub mod Stages
pub mod Write
pub mod Sealed
pub mod RoundTrip
pub mod Failure
