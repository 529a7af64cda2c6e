-- ===== src/Lib.antt =====
-- minetest-map-analyzer reads the blocks of a Minetest map from a database and records who owns what
-- and which blocks a player has built in. A producer thread enqueues the numbers of the blocks, consumer
-- threads load and deserialize the blocks and look at their nodes, and the blocks near a block of
-- interest are marked so that they are preserved.
--
-- The files and the code that they model:
--   Pos: src/lib/map_reader/pos.h and pos.cc. Boxes and their corners, block numbers (MapBlockId and the
--     constructor from a number), the positions of nodes and their keys, text (Pos.Text) and hashes
--     (Pos.Hash). A coordinate is an integer (Prelude.Int), and a conversion to a machine width is written
--     out by the bit pattern.
--   Exceptions: src/lib/exceptions/exceptions.h. A throw is a value of `Result`; an access outside a
--     vector is `undefined`, which is no exception of the program.
--   Blob: src/lib/map_reader/blob_reader.h and blob_reader.cc. A reader is its bytes and the offset of
--     `_ptr`; a read returns the reader behind it.
--   Compression: decompress_zlib and decompress_zstd of the same file. zlib and zstd are the parameters
--     `Zlib` and `Zstd`: what one call takes and writes, and that a call with Z_OK makes progress.
--   Decimal, Minegeld: strtoul, the %d of sscanf and std::to_string, and src/lib/map_reader/minegeld.cc.
--   Inventory, Node: src/lib/map_reader/inventory.cc and node.cc.
--   IdMap, IdMap.Local: src/lib/id_map/id_map.h. The shared map between names and numbers, and the cache
--     of a thread, whose pointers are taken to stay good. A method of the shared map holds its mutex, so that it is one step.
--   MapBlock: src/lib/map_reader/mapblock.h and mapblock.cc. An action reads from the blob and changes the
--     cache of names, which a throw keeps. Parts has the nodes, the metadata, the objects and the timers,
--     Names the mapping of names, Formats the two formats and MapBlock::deserialize.
--   NameFilter: src/lib/name_filter/name_filter.cc, over a parameter for std::regex.
--   HashMap: src/lib/hashmap/hashmap.h. Buckets of entries; Ref is a read or a write through its reference.
--   Sqlite: src/lib/database/db-sqlite3.h and db-sqlite3.cc. A database is a parameter with what is bound to
--     each statement; Sqlite.Rows has statements that are used again against new ones.
--   Sqlite.Opened: the constructors of SqliteStmt and SqliteDb, src/app/schema/schema.cc, and the
--     constructors of the two writers.
--   MapDb: LoadMapBlock of src/lib/database/db-map-sqlite3.cc, over the statement that reads a block.
--     MapDb.Postgresql has the reads of src/lib/database/db-map-postgresql.cc.
--   App.BlockQueue: src/app/mapblock_queue.h, a method being one step. App.BlockQueue.Threads has the calls of
--     a producer and any number of consumers, interleaved in any order.
--   App.Producer: src/app/producer.cc with ProduceMapBlocks of src/lib/database/db-map-sqlite3.cc, over the
--     statement that lists the blocks.
--   App.Consumer, App.NodeScan: src/app/consumer.cc. The load of a block is a parameter, which MapDb
--     fills. A consumer runs on a queue to which no other thread adds; its end is a state, an exception, or
--     a wait that never ends (`none`).
--   App.Preserve: src/app/preserve_queue.h and preserve_queue.cc.
--   App.State, App.BlockData, App.Config: src/app/app.h, stats.h, mapblock_data.h, config.h and config.cc.
--   App.DataWriter, App.BlockWriter: src/app/data_writer.cc and mapblock_writer.cc.
--   App.Run: the phases of src/app/app.cc on one thread. The producer fills the queue of keys, the consumer
--     empties it and fills those of the writers and of the positions to preserve, the data writer is flushed, the
--     positions are merged, the flags are set, and the block writer is flushed.
--   App.Threaded: RunThreaded of src/app/app.cc. The producer, the consumers, the merging thread and the
--     main thread take steps in any order; a step is a call that holds a mutex, or what one thread alone can
--     reach. App.Threaded.Consuming has the steps of a consumer, with every outcome of a block: they are more
--     than the code can take, which is enough for what holds of every run. A throw that no thread catches ends
--     the program, and is no step. The laws are on a view of the App (Views): Fed and Orderly follow the keys
--     and the counters, Covered the marked positions, Ending a run that has come to its end, Progress how long
--     a run can be and where it can stand still, and Serial compares a consumer on its own.
--   App.Main: src/app/main.cc, on what getopt_long returns.
--   Tests: runs on small inputs.
--
-- Fuel: the loop of an inventory has one round for each byte of the blob and one more, since each line
-- takes a byte at least; the loops of the decompression have one round more than the parameter's bound on
-- what is pending. A loop that ran out of fuel would throw `out_of_fuel`. All other loops are structural.
--
-- Not modelled: the progress display, the statistics file, the log, the times and the memory statistics, which
-- are output; the wake-ups of the condition variables, so that a wait ends whenever its condition holds; the
-- choice of a driver, DeleteMapBlocks, which throws in both drivers, and the reads of columns, which only call
-- sqlite and libpqxx; the text of messages.
pub mod Prelude
pub mod Pos
pub mod Exceptions
pub mod Blob
pub mod Decimal
pub mod Minegeld
pub mod Inventory
pub mod Node
pub mod IdMap
pub mod Compression
pub mod MapBlock
pub mod HashMap
pub mod Sqlite
pub mod MapDb
pub mod App
pub mod NameFilter
pub mod Tests
