-- ===== src/Network.antt =====
-- Two machines: what one proxy process writes on a connection, the other reads on its end of it.
pub mod Direct
pub mod Link
pub mod Sync
pub mod Handshake
pub mod Broadcast
pub mod Channel
pub mod Conversation
