-- ===== src/Message.antt =====
-- inc/message.h, the protocol that the server and the clients share.
pub mod Types
pub mod Bytes
pub mod Layout
pub mod Symbol
pub mod Codec
