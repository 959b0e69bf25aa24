-- ===== src/Tests.antt =====
-- Runs of the definitions, and uses of the theorems at concrete inputs.
pub mod Tuples
pub mod Database
pub mod Kv
pub mod Pubsub
pub mod Stream
pub mod Package
pub mod Server
pub mod ReliableChannel
pub mod Aead
pub mod Dom
pub mod Exec
pub mod Ipc
pub mod Mysql
pub mod LogService
pub mod Registry
pub mod Wpbl
pub mod Layout
pub mod Loader
