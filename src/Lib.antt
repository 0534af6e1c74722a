-- ===== src/Lib.antt =====
-- A model of krymux, a tunnel that multiplexes many streams over one connection, with the theorems
-- that make its core correct.
--
-- The program. `crates/krymux` is the library: `frame.rs` is the wire format, `mux.rs` the session
-- that carries many streams over one ordered byte stream with credit for flow control, and
-- `compress.rs` the per-stream compression that both sides negotiate. `router.rs` decides where the
-- target of a stream may go. `ws.rs` lets a browser carry a session over WebSocket, after an exchange of
-- signatures. The server and the proxies are clients of these. `apps/krymux-sync` keeps
-- two directory trees alike over one stream: the client compares the server's listing with its own and
-- then downloads, uploads and deletes, and both sides remember deletions as tombstones.
--
-- The files.
--   Base      shared helpers: Boolean tests, lists, bytes, JSON values and the `str` methods in use.
--   Frame     crates/krymux/src/frame.rs: `parse`, `frame_header`, `encode_frame`. Codec has its laws.
--   Compress  crates/krymux/src/compress.rs: the registry of dictionaries, `supported`, `negotiate`,
--             `parse_level`, `looks_precompressed`. Negotiation has its laws.
--   Router    crates/krymux/src/router.rs: host and port patterns, `resolve`. Matching and Decisions have
--             their laws. Text is ASCII.
--   Config    crates/krymux/src/config.rs: ports, upstreams, listen addresses, `load_server_cfg`; and
--             `normalize_fingerprint` of keys.rs. Policy and Fingerprints have their laws.
--   Socks     crates/krymux/src/socks5.rs, the UDP relay: the frames of a UDP stream, the headers of
--             datagrams. Codec has its laws.
--   Mux       crates/krymux/src/mux.rs.
--     State     Shared and StreamInner, the map of streams, the queues, the control frames, retiring
--               and teardown.
--     Handle    `build_stream`, and `handle_frame` with a function for each frame type.
--     Inbound   `inbound_pump` and `maybe_grow_window`.
--     Outbound  `outbound_pump` and `acquire_credits`.
--     Tasks     `writer_task`, `reader_task`, `credit_ticker`, `keepalive_task`.
--     Session   `start`, `open_stream` as `open_check` and `open_register`, `close`, `ping`, `accept`,
--               `reject`.
--     The other modules hold proofs, each named for what it proves.
--   Sync      apps/krymux-sync/src/sync.
--     Protocol    protocol.rs: frames, `SyncParser::push`, and in Messages the constructors. Splitting,
--                 Splits, Frames, Chunks and RoundTrip have the laws of the parser.
--     Tombstones  tombstones.rs. Merging has its laws.
--     Scanner     scanner.rs: `FileEntry`, `is_sync_metadata`, `cache_hit`.
--     Collect     mod.rs, the handshake of `run_sync_client` and the listing it collects. Bounds and
--                 Listed have its laws.
--     Plan        mod.rs, the diff of `run_sync_client`. Decisions, Settled, Warranted and Readonly have
--                 its laws.
--     Server      mod.rs, `handle_sync_server`: Paths has `safe_join`, State the variables, Scan, Files and
--                 Upload the handlers, Session the loops. The other modules hold proofs.
--     Transfer    mod.rs, the rest of `run_sync_client`: State has the variables of a pass, Download,
--                 Apply and Run the loops and their composition. The other modules hold proofs:
--                 Verified, Steps, Apart and Quiet about the client alone, Delivery, Exchange,
--                 Readonly, Mirrored and Mirror about a client and a server.
--     Disk, Float the file system and f64 as records of operations; Memory has an instance of each.
--   Ws        crates/krymux/src/ws.rs. Codec has `ws_encode` and `ws_decode`, Http the request head and the
--             static routes, Identity the keys and signatures, Auth `auth_phase`, Bridge
--             `handle_http_or_ws`, the slots and the two tasks of the bridge. The other modules hold proofs.
--
-- How state is modelled. A session is one record, Shared. The `Arc<StreamInner>` values that the map,
-- the handles and the pumps share live in a heap, a function from places to streams, and the map holds
-- places. A channel is a list, oldest first, with a flag for a receiver that is gone; a bounded send
-- that has to wait is a result of its own. Each pump is a machine whose phases are its await points, so
-- that its steps can interleave with those of any other task. `open_stream` is two steps, since it gives up
-- the lock on the map between its check of the limit and its insert. Atomics of 32 and 64 bits wrap.
--
-- Parameters. Parsing and printing of JSON, the codecs, the clock, and whether a write to a socket
-- or to the application goes through are arguments of the definitions that use them. So are, in
-- Sync, the file system, f64, SHA-1, the JSON of the tombstone file and `scan_and_hash`. A theorem
-- that needs the file system to do what it is told names the laws of Disk.IsLawful, Disk.IsLocal,
-- Disk.IsFlushLocal or Installed.IsHealthy. In Ws they are the signature scheme, the hashes, the random source, the
-- encodings and the reads; in Config the deserialized file and the fingerprints of key files.
--
-- Bounds and fuel. The reader's loop runs on fuel; one more than the bytes of its input is enough,
-- since each frame takes at least ten. A pass of the sync client reads a list of messages, which
-- its loops take one by one, and fails where the list ends. The parser of the sync protocol takes
-- five bytes or more per turn, so the length of its buffer is enough, which push-Frames shows; so
-- is that of `ws_decode`, which takes two bytes or more. The accounting of credit takes one message
-- of less than 2^31 logical bytes per step; the program bounds a decoded chunk by 2^25 and a DATA
-- payload by 2^16.
--
-- Not modelled: tracing and logging, the delegation of reads and writes to the in-memory duplex, the
-- codecs behind the compression wrappers, TLS, the proxies, the server's sockets, and
-- the command line programs, which are I/O around this core. In Sync: the walk of a directory and its
-- hashing workers, notifications, the pause between two tries of a download, a write to the stream that
-- fails, and changes that other programs make to the tree while a handler runs.
pub mod Base
pub mod Compress
pub mod Config
pub mod Frame
pub mod Mux
pub mod Router
pub mod Socks
pub mod Sync
pub mod Ws
