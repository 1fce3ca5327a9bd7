-- ===== src/Lib.antt =====
-- A model of the stores, the window and the sends of xous-app-signal, a Signal client for Xous.
--
-- The program. A worker thread runs the Signal protocol over a store; a UI thread keeps the
-- messages and the list of conversations. The store is a key-value seam, `trait KvBackend`: an
-- in-memory backend for hosted runs and tests, and on the device a backend over the PDDB, the
-- operating system's encrypted database, reached by messages of one page. A write-buffering
-- wrapper collects the writes of one send and commits them in one message.
--
-- The files, and the code they model (paths from the repository's root):
--   Backend         crates/presage-store-pddb/src/lib.rs (`trait KvBackend`) and error.rs; a
--                   backend is a record of functions on a state. Backend/Laws states what the trait
--                   documents of its entries as laws of a view; Backend/Mock is backend_mock.rs.
--   Buffering       buffering_backend.rs of the same crate: `begin_batch`, the overlay of reads,
--                   `commit_internal` with its fallback, the guard's `commit` and `drop`.
--   Pddb            crates/xous-pddb-ipc/src/api.rs: limits, requests, codes, pages. Pddb/Client,
--                   Pddb/Requests, Pddb/Listing and Pddb/Handle are client.rs: the packing of a
--                   batch, the requests, the listing, and the streaming handle.
--   Pddb/Store      backend_pddb.rs of presage-store-pddb: the backend over that client.
--   Sessions        the session cache of crates/presage-store-pddb: protocol/session_store.rs,
--                   protocol/session_store_ext.rs and `flush_sessions` of lib.rs, over any backend.
--   KeyStores       the key stores of that crate, over any backend: protocol/mod.rs and the JSON and
--                   listing helpers of lib.rs; Identity (identity_key_store.rs), Kyber
--                   (kyber_pre_key_store.rs and kyber_pre_key_store_ext.rs), PreKeys
--                   (pre_key_store.rs, pre_keys_store.rs), RecordKeys (signed_pre_key_store.rs,
--                   sender_key_store.rs).
--   AccountStore    the account: state.rs, `Store::clear` of store.rs with the clearing methods of
--                   content.rs, and `has_account_state` of lib.rs.
--   Contents        content.rs: messages and their keys, threads, contacts, groups, profiles.
--   Labels          the text helpers of crates/xous-app-signal/src/dialogue.rs.
--   Dialogue        the rest of dialogue.rs: messages, summaries, `rebuild_summaries`.
--   MessageStore    crates/xous-app-signal/src/store.rs: the message buffer of the UI.
--   App             crates/xous-app-signal/src/gam_app.rs: the screens and the state of the window,
--                   with the commands and events of crates/xous-signal-worker/src/cmd.rs. App/Keys is
--                   `handle_keys` with the dialogues it drives, App/Events `handle_worker_event`, and
--                   App/Session the loop of `run`, a list of keys and events in any order.
--   Worker          crates/xous-signal-worker/src/lib.rs: `handle_send` with its retries, the delivery
--                   receipts and the sweep of the sends that wait for one.
--   Redaction       crates/presage-store-pddb/src/redact.rs, crates/xous-app-signal/src/log_filter.rs.
--   Http            crates/xous-net-bridge/src/http.rs: the request, the exchange and the parser of
--                   the response.
--   Collections     the standard library's HashMap and BTreeSet, as far as the code uses them.
--   Prelude         shared notation and lemmas.
--
-- State. A method that takes `&self` and writes through a lock is a function from the state to the
-- state and its result; a mutex that may be poisoned is a flag of the state, and tracing and
-- timing are left out. An error is a value of the code's own error type; a panic (an index out of
-- range, `remove(0)` on an empty vector) is `none`.
--
-- How they meet. A key of the window gives a state and the commands it sends; the worker answers
-- with events, which change the message store through `apply`; a send of the worker opens a batch on
-- the store, and the stores see only the backend of the batch.
--
-- Parameters. The order in which a HashMap is walked is an `Iteration`, any order of the map's
-- entries; the hexadecimal form of a UUID is a function `simple`; `str::from_utf8` is a test
-- `is_utf8`; the codecs of session records are a `Codec`, serde_json on one type is a `Json`, the
-- codec of a record of libsignal a `Coding`; SHA-256, base64, the tests of Unicode and the parser of
-- the `uuid` crate are functions. The PDDB server and the kernel are a `Transport`, functions on the
-- server's state; what the rest of the device answers the window is a `World`, and what libsignal,
-- presage and the clock answer a send is a `Network`. The stream and the `http` crate are `Stream`
-- and `HttpTypes`. What a theorem needs of them is a hypothesis of its own: the laws of `Keeps` say
-- that a server keeps under one key what it is sent, those of `Laws` what a backend does to its
-- entries.
--
-- Numbers are natural numbers with the width of the source written out: `% 2 ^ 64` where a
-- position advances, `% 256` where a length becomes a byte, and a saturating count of unread
-- messages. Loops over the pages of a server run on fuel: 4065 steps for a page of 4064 bytes, a
-- read per as many bytes as the server is sure to serve and one for the end of file, a write per
-- byte at most; the number of pages of a listing is the server's, so the theorems on it say how
-- many there are. A send makes at most six attempts, as many as its constants allow, and the id that
-- comes next wraps at 2 ^ 32.
--
-- Not modelled: the threads, the TLS and the web sockets of the network bridge, the drawing of the
-- window, the start of the program, the worker's task that drives presage and its queue, the
-- conversion of stored messages to the UI's, the transport of the log, the build and the scripts.
-- They do I/O, run on the crates of the Signal protocol, or draw.
pub mod Pddb
pub mod Sessions
pub mod Contents
pub mod Worker
pub mod Prelude
pub mod Collections
pub mod Backend
pub mod Buffering
pub mod AccountStore
pub mod App
pub mod Http
pub mod KeyStores
pub mod Labels
pub mod Dialogue
pub mod MessageStore
pub mod Redaction
