-- ===== src/Lib.antt =====
-- Blueboat, a runtime for web backends: a server process (src/server.rs) that takes HTTP requests and
-- runs applications in worker processes with V8.
--
-- A request comes to `handle` (Server/Headers), which cleans its headers, and `raw_handle`
-- (Server/Metadata), which loads the application's metadata through a cache and asks a worker. An
-- application's code is a package (Package), whose modules the worker loads (Package/Modules). A worker
-- calls the server over a reliable channel (ReliableChannel): the key-value store (Kv), with keys that
-- the metadata service packs (Mds), and the publishing of messages (Pubsub/Publish) to the message queue
-- (Pubsub), which clients read as server-sent events (Pubsub/Sse). Log entries and background tasks go to
-- the server as low-priority messages (Server/Background), and a watermark of the free memory sets how
-- many workers an application may have (Server/Watermark).
--
-- In the worker a request (Ipc) runs in an executor (Exec), which waits for the answer that the
-- application completes it with, or for the end of its asynchronous tasks. The worker loads the
-- package through a cache (Loader) and holds the host's objects by symbols (Registry); an
-- application reaches databases (Mysql), searches documents (Dom), places boxes with Z3 (Layout)
-- and encrypts messages (Aead). The server writes logs to Kafka (LogService) and looks addresses
-- up in a blocklist (Wpbl).
--
-- The files and the code:
--   Kv, Kv/Limits, Kv/Reads     src/api/kv/mod.rs; `cas_handle` is
--                               KvCompareAndSetManyRequest::handle, `get_many_handle` and
--                               `prefix_list_handle` those of the other requests, `check_*` what
--                               api_kv_* check in the worker
--   Mds, Mds/Config             src/mds/mod.rs, src/mds/config_v2.rs
--   Pubsub, Pubsub/Hot,         src/pubsub/mq.rs, src/api/pubsub/mod.rs, src/pubsub/sse.rs
--     Pubsub/Publish, Pubsub/Sse,
--     Pubsub/Sse/Stream
--   Package, Package/Modules    src/package.rs
--   ReliableChannel             src/reliable_channel.rs
--   Server/*                    src/server.rs, src/headers.rs, src/metadata.rs, src/lpch.rs
--   Exec, Exec/Fence            src/exec.rs, `handle_with_cancellation` of src/ipc.rs
--   Ipc                         src/ipc.rs: header maps, conversions, build_invocation
--   Mysql, Mysql/Sessions       src/app_mysql.rs, src/api/mysql.rs
--   LogService                  src/logsvc.rs
--   Registry                    src/registry.rs, src/api/host_object.rs
--   Loader                      src/package_loader.rs, src/kvutil.rs
--   Wpbl                        src/wpbl.rs
--   Aead                        src/api/crypto/aead.rs
--   Dom, Dom/Query              src/api/text/dom/
--   Layout, Layout/Engine       src/api/graphics/layout/mod.rs; Layout/Meaning is the independent meaning
--   Fdb                         FoundationDB: a record of the calls and records of their laws
--   Prelude/*                   numbers, lists, byte strings, maps, results, UTF-8
--   Tests/*                     a database that has the laws, runs, and the theorems at concrete inputs
-- The other files hold the proofs of the part that they stand under.
--
-- How the code is modelled. Texts are lists of their bytes. A HashMap is an association list whose
-- order nothing depends on, but for the order in which errors are found. A handler is a function
-- to Result, with an error as its message. The calls of other crates are parameters: FoundationDB
-- by its laws, of which one is that a read of a range may stop before its limit, V8 by its
-- compiler and the requests of a module, S3, hex, UUID, GeoIP and the blocklist by functions. A
-- flush of the hot topics gets the topics that pushes mark while it awaits its commits as an
-- argument. A transaction is a snapshot and the mutations buffered in it; a loop of retries is
-- recursion on the list of attempts that the database grants, each with its snapshot and outcome,
-- so that it is `none` only while the database asks for more. The loader of modules takes fuel,
-- and for every package some fuel is enough, since a round loads one of the package's files or
-- shortens the work list. The reliable channel is one state that the threads of both processes
-- change by atomic events; its ids are those of the 64-bit counter. The executor of a request is
-- one state that the events of the worker's single-threaded runtime change, and what V8 runs in it
-- is the list of its host calls and its ending; the fence of `enter` and the thread that waits for
-- it are two threads' steps. A value of MySQL, of V8, of hyper or of Kafka is of a type that is a
-- parameter, with the conversions that the code calls. The nodes of a document are a heap; the
-- callback of a search may do every operation on documents, and a depth above the height of the
-- document is enough for `walk`. Z3 is its terms, a check and its models, with laws that say how a
-- model interprets a term.
--
-- Not modelled: the start-up of the server and its signals, the set-up of V8's isolates and of the
-- worker's process, the other cryptography, drawing and codecs, which call libraries, and the
-- JavaScript library.
pub mod Aead
pub mod Dom
pub mod Exec
pub mod Fdb
pub mod Ipc
pub mod Kv
pub mod Layout
pub mod Loader
pub mod LogService
pub mod Mds
pub mod Mysql
pub mod Package
pub mod Prelude
pub mod Pubsub
pub mod Registry
pub mod ReliableChannel
pub mod Server
pub mod Tests
pub mod Wpbl
