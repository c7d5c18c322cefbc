-- ===== src/Lib.antt =====
-- A model of the server of my-no-sql-server-grpc, an in-memory key-value server with a write-behind queue and
-- readers that mirror its tables, and the theorems that its parts promise.
--
-- How the program works. A write enters a table, which belongs to a namespace. Then the partitions that it
-- touched are marked in the queue of the namespace, with the moment by which they have to be on disk, and the sessions
-- of the readers that follow the table get chunks into their queues. A timer takes one due task at a time out of the
-- queue of the disk and writes the partition, as it is at that moment, into a slot of a page file. At the start the page
-- files are scanned, and the tables made of them again. A reader asks for its next chunk, and is told to start
-- over when its backlog has grown past a ceiling and was thrown away.
--
-- Which file models what (paths from the root of the repository):
--   Operations/Write      server/src/db_operations/write (rows.rs, bulk.rs, transaction.rs, partitions.rs, persist_marks.rs,
--                         clean_table and set_table_attributes of table.rs) and db_operations/gc.rs. The state is
--                         `World`: the sessions, the queue of the disk and the table. The table is `DbTable` of the crate
--                         my_no_sql_grpc_core and so a parameter, `DbTableOps` of Operations/Core, with what the writes
--                         rely on named in `IsDbTable` of Operations/Laws; Operations/Example is a table of which it holds.
--   Operations/Sync       server/src/db_operations/sync.rs. Some functions are named apart from the constructors of
--                         `AppliedChange`: `rows_deleted_told` is `rows_deleted`, and so on. Operations/Sync/Mirror is a subscriber of one
--                         table, the description against which the chunks are judged; it is not code of the server.
--   Operations/Schemas    server/src/db_operations/write/build_db_row.rs and write_row_request.rs. Parsing an entity and making a
--                         row of it are the crates', and parameters (`Entities`).
--   Operations/Disk       server/src/operations/persist.rs and shutdown.rs, over a repository that is two maps. Operations/Disk/Stored
--                         has the same tasks as calls on Persist/Repo, and relates the two.
--   Operations/Init       `load_namespace` of server/src/operations/init.rs. The parser of an entity, the table and the partition are
--                         the crates', and parameters (`Restores`, with what is relied on in `IsRestoring`,
--                         and in `IsOfRows` of Operations/Init/Rows).
--   Persist/Files         server/src/persist/files_repo_inner.rs. The state is `FilesRepoInner`: the slots that each page file
--                         holds in use and free, the index from keys to slots, the counter of versions and the page
--                         files, each a list of its slots' bytes. `saved` of Persist/Files/Consistent is what it promises, a
--                         map from a table and a partition to a payload, and Persist/Files/History a run against that map.
--                         Persist/Files/Vacuum is `vacuum` and `compact_class`. The file-system calls are taken to succeed, but
--                         for the removal of a page file, the outcome of which is an argument.
--   Persist/Repo          server/src/persist/persist_repo.rs, over files_repo.rs, whose lock makes each call one step;
--                         Persist/Repo/History is a run of it against a map of rows and a map of attributes.
--   Persist/TablesMeta    `tables.meta` of files_repo_inner.rs, with the yaml as a parameter that reads what it wrote.
--   Reader/Chunker        server/src/reader/chunker.rs. `split_partition_rows` and `split_partition_row_keys` have one loop, in
--                         which an item has a size, that of a row key being 0.
--   Reader/Session        server/src/reader/reader_session.rs; Reader/Sessions is reader_sessions.rs, Reader/SyncChunk is
--                         sync_chunk.rs.
--   Registry              what reader_sessions.rs and server/src/transactions/registry.rs have in common.
--   Transactions          server/src/transactions.
--   Persist/Markers       server/src/persist/markers.
--   Persist/Slot          server/src/persist/slot.rs, with the crc as a parameter below 2 ^ 32.
--   Persist/SizeClass     server/src/persist/size_class.rs.
--   Persist/BinaryReader  server/src/persist/binary_reader.rs.
--   Persist/PartitionBlob server/src/persist/partition_blob.rs, with zstd as a parameter.
--   Codec/Base64Url       server/src/persist/base64url.rs; Codec/Base64 is server/src/json_view/base64.rs.
--   App/WriteWindow       server/src/app/write_window.rs; App/Settings is ui_settings.rs; App/Periods is
--                         server/src/data_sync_period.rs; App/Namespaces is app/db_namespaces.rs, with the names of
--                         server/src/persist/layout.rs.
--   Base                  the shared names: lists, texts as UTF-8 bytes, hash maps as association lists, machine words, and
--                         results of code that can fail or panic.
--
-- Conventions. Numbers are the natural numbers, with the wrap-around of a machine word written out where the code
-- has one; moments are microseconds since 1970. Code that panics is an `Outcome`. What stands behind a lock is a value, and a
-- call under the lock a function of it; an interleaving is a sequence of such calls. The order of a hash map is that
-- of its association list, on which no theorem depends. The clock's readings are arguments.
--
-- Bounds and fuel. `double_until` takes 23 doublings, from 512 to 2 ^ 31, after which `checked_mul` has nothing left to
-- give; `drain` takes the number of marks, each pass taking one at least; `digits` takes as many steps as the number, and its
-- successor is enough for its digits. All other loops are recursion on their data.
--
-- Not modelled: the listing of the namespaces at the start; the opening and moving of tables and
-- namespaces; the JSON view, backups and migration; the gRPC, HTTP and MCP surfaces, the monitoring and the web UI, which carry
-- requests to the operations. File I/O, sockets and timers are outside of the model.
pub mod Base
pub mod Codec
pub mod Persist
pub mod Reader
pub mod Registry
pub mod Operations
pub mod App
pub mod Transactions
