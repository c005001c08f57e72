-- ===== src/Lib.antt =====
-- The bridge from a Meshtastic radio to CalTopo. A serial port brings bytes; the framer cuts them
-- into frames; each frame is a message whose packet the decoder turns into a record and perhaps a
-- position; the store keeps both, drops repeated positions, and queues a delivery for each new one;
-- the worker takes the queue up, smooths and thins the positions of each node, and publishes them.
--
-- Which file models which part:
-- - Meshtastic/Framer: internal/meshtastic/framer.go. `push` is `Push`, `round` is one turn of its
--   loop, `find_start` is `findStart`, `encode_frame` is `EncodeFrame`. Loop, Scan, Stream, Wire and
--   Bounds hold the proofs.
-- - Meshtastic/Serial: internal/meshtastic/serial.go. `run` is `Run`, `consume` is `consume`, whose
--   loops are `read_loop`, `handle_frames` and `retry`, and `write_all` is `writeAll`. What an attempt
--   to open the port gives, and each read, stands in a list.
-- - Model: internal/model/model.go, with `node_id` for `NodeID`.
-- - Tak: internal/tak/decoder.go. `decode_with_options` is `DecodeWithOptions`; the functions of the
--   protobuf packages are the record `Protobuf`, and a message is what its getters return.
-- - Store: internal/store/store.go. `Db` has a list of rows for each table of the schema, Archive
--   has `Archive`, Deliveries has `PendingDeliveries`, `MarkDelivered` and `MarkFailed`, Nodes has
--   `UpsertNode` and `NodeCallsign`, Positions has `Positions`, Tracks has `TrackID` and `SaveTrack`.
--   Invariant has the keys and references that the schema declares. History has sequences of calls.
--   Migrate has `initialize` and `migrate`.
-- - Caltopo: internal/caltopo/worker.go. Filter has `prepare`, `complete` and what they call; Worker
--   has `drain`, and Worker/Loop has `Run` and `Wake` as moves. Caltopo/Adapter:
--   internal/caltopo/adapter.go, with `publish` for `Publish`, over a record of the client's methods.
-- - Ingest: internal/ingest/service.go. `handle` is `Handle`, over a record for each interface of the
--   source; Stored connects it to the store as cmd/bridge/main.go does.
-- - Config: internal/config/config.go, with `validate` for `Validate`: the list of the errors that it
--   joins. Config/Parse has `Parse`, over a record of what it takes from the system.
-- - Web: internal/web/server.go. A handler is the list of its calls on the response writer.
-- - Bridge: cmd/bridge/main.go. `run` is the list of the calls that `run` makes, in their order,
--   with the error of `Shutdown`.
-- - Go: what the source uses of Go's library: times and their texts (`format_time` is `formatTime`,
--   `parse_time` is `parseTime`), byte strings, and float64 and SHA-256 as parameters.
-- - Prelude: shared names and lemmas. Scenarios: the theorems on concrete values.
--
-- A text is a list of bytes. A time is a number of nanoseconds since the start of year 1, for the
-- years 1 to 9999; `parse_time` reads the texts that `format_time` writes, in UTC and with at most
-- nine digits of a fraction. SQL statements are functions on lists of rows; a TEXT column is compared
-- byte by byte, as SQLite does. A method takes a predicate that says which calls of the driver fail;
-- a commit that fails has not committed. Float64 is a type with operations; the one law that a
-- theorem asks for is that the comparison is asymmetric and false on a NaN. SQLite makes a NULL of a
-- NaN: a column that is NOT NULL refuses it, a nullable one stores it. A run-time panic is `none`.
--
-- In the loop of the worker one delivery is one move: writes of other goroutines, and the tracks that
-- the publisher saves, do not fall between a publication and its mark. The service has the function
-- that wakes the worker, as it does when CalTopo is enabled.
--
-- The loop of `Push` runs on fuel, one more than the length of the buffer: each turn but the last
-- takes a byte off. `trim_left` and `write_all` have the length as fuel, since each turn takes a byte
-- off. `retry` has fuel for the attempts at one message; a theorem about it has a handler that fails
-- fewer times in a row, or holds for every fuel of the runs that it is enough for.
--
-- Not modelled: opening the database file and the port, making the client of CalTopo, the log, and
-- the generated messages (internal/takproto): they are input and output, or made by a tool. The client
-- of CalTopo and the messages of Meshtastic are not in this repository.
pub mod Bridge
pub mod Caltopo
pub mod Config
pub mod Go
pub mod Ingest
pub mod Meshtastic
pub mod Model
pub mod Prelude
pub mod Scenarios
pub mod Store
pub mod Tak
pub mod Web
