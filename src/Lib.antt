-- ===== src/Lib.antt =====
-- KoraDB: a document database in Go. Documents are protobuf messages, stored in buckets of one bbolt
-- file, with secondary indexes in buckets beside them and queries over both.
--
-- The layers, and the modules that model them (paths from the repository's root):
-- - internal/storage/storage.go, the transactions over bbolt: Storage. bbolt is the parameter `Bolt`,
--   its documented behaviour `IsBolt` (Storage/Laws), and Storage/Memory a state that meets it. `put`,
--   `get`, `has`, `delete`, `scan`, `prefix_scan`, `next_sequence` are the methods of Txn, `update` and
--   `view` those of Store. A transaction is a function of the state; a callback gets the variables that
--   it captures as a state.
-- - internal/index/index.go, the keys of index entries: Index, with Index/Entries.
-- - internal/engine/values.go, scalars as text and their order: Engine/Values.
-- - internal/engine/engine.go: Engine/Meta (the definition of a collection, the names of the buckets),
--   Engine/Keys (encodeKey, IDFromStorageKey, deriveKey), Engine/Collections (CreateCollection, getMeta,
--   ListCollections) and Engine/Documents (Insert, Get, Update, Delete, Each, FetchByKey).
-- - internal/engine/index.go, the maintenance of indexes and the lookup: Engine/Indexing.
-- - internal/query/query.go: Query/Filter (filters, their evaluation, signature and index seed) and
--   Query/Page (pages, page tokens, ExecutePageContext, ExecuteWithLimitContext). Query/Page/Select
--   states the answer to a query without pages, Query/Page/Traversal a client that asks for page after
--   page, and Query/Page/Resume two successive pages with writes between them.
-- - internal/auth/auth.go and rbac.go, tokens, revocation and the roles of the methods: Auth; new keys,
--   the names of principals and ParseRole: Auth/Create.
-- - internal/server/server.go and keys.go: Server (the conversions of filters, operators, roles and
--   errors, with Server/Limits) and Server/Handlers (the handlers, as functions of the file).
-- - internal/server/interceptors.go: Server/Access (AuthInterceptor and the audit record, around a
--   handler), Server/Concurrency (ConcurrencyInterceptor, as steps that interleave, and the token bucket)
--   and Server/Deadlines (DeadlineInterceptor).
-- - internal/server/metrics.go: Server/Metrics (the counters).
-- - internal/schema/registry.go: Schema (the lookup of a message type), Schema/Compat (the tests from
--   ensureFileCompatible to ensureEnumsCompatible), Schema/Files (collectFiles, topoSort) and
--   Schema/Registry (NewRegistry, Register, ListSchemas, SchemaHistory). A file's descriptor is data:
--   the part of it that the tests read.
-- - internal/recovery/restore.go: Recovery (Restore), with the documented behaviour of the files in
--   Recovery/Kept.
--
-- A query runs the engine's lookup or scan inside one read transaction, the engine's writes run the
-- index maintenance and the storage calls inside one write transaction, and each write stands or falls
-- as a whole.
--
-- Parameters: `Bolt` (bbolt), `Proto` with `IsProto` (the protobuf runtime: descriptors, dynamic
-- messages and their two encodings, and the platform's floats), `Codec` (JSON of one type of records)
-- and `Tokens` with `IsTokens` (JSON, Base64 and SHA-256 of page tokens); `Compiler` (protocompile,
-- protodesc, protoregistry, SHA-256 and JSON, as Register calls them); the digest of a key's secret,
-- random bytes and the time are arguments, `Floats` is the platform's floats where the token bucket uses
-- them, and `Files` with `IsFiles` the calls of os, io and bbolt that Restore makes. Proto/Sample,
-- Storage/Memory and Tests/Pack are instances of them. Strconv is what the code uses of Go's strconv,
-- encoding/binary and unicode; a uint64 is a number below 2 ^ 64, an int64 one of ℤ in its range.
--
-- Errors are the constructors of `Error`; an error that the source wraps is the one that errors.Is
-- finds. Loops are structural recursion over lists. Decimal digits are printed on a fuel of 20, which is
-- enough for every number below 2 ^ 64. Strings that JSON carries are taken to be
-- UTF-8 where a theorem needs them back, since encoding/json replaces other bytes. The depth of topoSort's visits is bounded by one more than the
-- number of files, and the bound is never reached.
--
-- Not modelled: NewMessage, which hands a descriptor on to dynamicpb; the text of the server's metrics,
-- RestoreFile (it opens the snapshot for Restore), the commands and the clients; opening, closing and
-- copying the database file. Concurrency comes in as the interleaving of requests in Server/Concurrency
-- and as the cancellation of a query's context: bbolt runs one writer at a time, and a reader on a
-- snapshot.
pub mod Base
pub mod Strconv
pub mod Proto
pub mod Storage
pub mod Schema
pub mod Index
pub mod Engine
pub mod Query
pub mod Auth
pub mod Server
mod Tests
pub mod Recovery
