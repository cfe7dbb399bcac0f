-- ===== src/Lib.antt =====
-- A model of LQS, a local message queue with the interface of SQS over SQLite, and what it keeps true.
--
-- The program keeps queues and messages in SQLite tables (src/sqlite_lqs.rs, with parts in src/fifo.rs,
-- src/management.rs and src/security_sqlite.rs). Each operation of `Lqs` runs in one transaction. The
-- model has the tables as lists of rows (`Db`), and an operation is a function from the tables and its
-- arguments, the clock's time among them, to new tables and a `Result`; `transaction` keeps the old
-- tables on an error. A sequence of operations is a path of `Reachable`.
--
-- The parts and their files:
--   Error             `LqsError` of src/sqlite_lqs.rs
--   Attributes/*      src/message_attributes.rs: validation, numbers, sizes, the digest's input
--   Security/*        src/security.rs: principals, wildcards, policies, authorization, permissions
--   Queue/*           the types and validations of src/sqlite_lqs.rs, src/fifo.rs and src/management.rs,
--                     and `prepare_send`; Queue/External holds the parameters
--   Store/Tables      the schema
--   Store/Read        what is read about a queue, `ms`, transactions
--   Store/Messages    the statements on `messages`, their triggers and cascades, `move_message`
--   Store/Send        `send`, `find_duplicate`, `insert_message`
--   Store/Receive/*   `receive_page`, `collect_received`, `next_receivable`, `candidate_action`,
--                     `deliver_candidate`, `redrive_candidate`, `replay_attempt`, `save_attempt`
--   Store/Visibility  `delete`, `change_visibility`
--   Store/Redrive     redrive policies, `redrive_dead_letters`
--   Store/Settings    `create_queue`, `set_queue_attributes`, src/security_sqlite.rs
--   Store/Manage      src/management.rs: listing, metrics, tags
--   Store/Remove      src/management.rs: purging and deleting queues
--   Batch             src/batch.rs
--   Http/Wire, Names, Maps, Settings, Messages, Requests, Lists, Entries
--                     the parameters of a request: src/http_server.rs, src/attributes_http.rs,
--                     src/management_http.rs, src/security_http.rs, src/batch_http.rs
--   Http/Identity     the authorization hooks of src/security_http.rs
--   Http/Access       `access_context` and `authorize` of src/security_http.rs
--   Http/Handler      `lock_lqs`, and handlers as functions of the tables
--   Http/Actions      the handlers of src/http_server.rs; Http/Configuration: what they compare and show
--   Http/Management   the handlers of src/management_http.rs, and `permission` of src/security_http.rs
--   Http/BatchActions src/batch_http.rs
--   Http/Dispatch     `dispatch`; Http/Poll: `poll_receive`; Http/Serve: `handle_request`
--   Http/Reply, Answer, Xml, Body, Response
--                     `ApiError`, `ApiSuccess` and the responses that they become
--   Http/Config       `ServerConfig` and what `serve` makes of it
-- Store/Sound/*, Store/Laws/*, Security/Glob/*, Security/Authorize/*, Security/Settings/*,
-- Queue/Validate/*, Batch/* and Http/Laws/* hold the proofs;
-- Samples, Scenario and Examples hold inputs, runs and instances; Runs lists what they unfold.
--
-- Text is its UTF-8 bytes. Times and sizes are natural numbers; `ms` clamps a time to a signed 64-bit
-- integer, additions saturate where the source says so, and a receive count wraps at 2^32. An SQL
-- comparison `created <= now - retention` is written as a sum, for signed integers do not stop at 0.
-- Two loops run on fuel: `glob_loop` on (|value| + 1) * (|pattern| + 1), since each retry starts behind
-- the one before it and runs through the pattern once; `collect` on the limit plus the number of
-- messages in the queue plus one, since each round delivers a message or moves one away. A loop out of
-- fuel is `none` or `out_of_fuel`, which the source does not have.
--
-- A request over HTTP becomes a `WireRequest`, a hook says who sends it, and `dispatch` runs the
-- handler of its action. A handler takes the lock, checks the queue's policy under it, and works on the
-- store until it ends, so it is a function of the tables (`Handler`). `done`, `refused` and `stuck` are
-- a result with an `ApiError`; `stuck` is `out_of_fuel` passed on. A long poll is a list of passes, each
-- with the instants that it reads and a function for what others did to the tables before it; `none`
-- is a request that still waits when the list ends.
--
-- Parameters: the digests, serde_json, serde_urlencoded, base64, axum's header texts, socket addresses
-- and Rust's character tables (`External`, `Web`, `Host`); a theorem holds for any of them, and says so
-- where it asks more. Not modelled: opening, encrypting and migrating the database, the semaphore and
-- the floating-point token bucket of `Admission` (their outcome is a field of `Arrival`), /health and
-- /status, sockets, a poisoned lock, the clock, and SQLite's own failures such as a busy or damaged
-- file. Concurrent callers are serialized by the lock and by SQLite's write lock, so their
-- interleavings are sequences of operations. The order in which Rust iterates over a hash map is that
-- of the entries that the form decoder gives; it decides at most which of several errors is reported,
-- and the order of `TagKeys`.
pub mod Prelude
pub mod Error
pub mod Attributes
pub mod Security
pub mod Queue
pub mod Store
pub mod Batch
pub mod Http
pub mod Runs
pub mod Samples
pub mod Scenario
pub mod Examples
