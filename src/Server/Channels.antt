-- ===== src/Server/Channels.antt =====
-- What a server does with the packets of an authenticated client: `server_read_authenticated` and
-- `server_handle_channel_open` of src/server/encrypted.rs.
pub mod Events
pub mod Modes
pub mod Parse
pub mod Messages
pub mod Opens
pub mod Dispatch
