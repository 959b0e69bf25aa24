-- ===== src/Server.antt =====
-- src/server.rs: the server process, one child for each part of it.
pub mod Watermark
pub mod Headers
pub mod Metadata
pub mod Background
