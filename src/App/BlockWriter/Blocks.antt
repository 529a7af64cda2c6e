-- ===== src/App/BlockWriter/Blocks.antt =====
-- src/app/mapblock_writer.cc: the statements that FlushBlockQueue executes.
use minetest_map_analyzer.Prelude.{◌≡◌, refl, sym, ◌∙◌, List, [], ◌∷◌}
use minetest_map_analyzer.Prelude.Int.{pos}
use minetest_map_analyzer.Exceptions.{Result, ok, throw, bind_result}
use minetest_map_analyzer.Pos.{Pos, map_block_id}
use minetest_map_analyzer.Sqlite.{
  Sqlite, SqliteDb, Value, int, bool_value, write_block, write_row, begin_transaction,
  commit_transaction,
}
use minetest_map_analyzer.Sqlite.Bound.{IsReady}
use minetest_map_analyzer.Sqlite.Rows.{
  Row, values_of, beside, execute, Writes, Writes-ok, Writes-bind_result, Writes-write_row,
  Writes-execute, bind_result_assoc,
}
use minetest_map_analyzer.App.BlockData.{MapBlockData, MapBlockHashMap, data_at, ref_data}
use minetest_map_analyzer.App.BlockData.Laws.{data_at-ref_data, ref_data_lem}
use minetest_map_analyzer.App.State.{App}
use minetest_map_analyzer.App.BlockWriter.{block_row, block_loop, flush_block_queue}
use minetest_map_analyzer.App.DataWriter.Flushes.{transaction, Writes-transaction}

-- The columns of the table `blocks` of src/app/schema/schema-data.sql.
pub data Column : Type 0 where
  mapblock_id mapblock_x mapblock_y mapblock_z uniform anthropocene preserve : Column

-- What each column is for.
abbrev pub column_value : Pos → MapBlockData → Column → Value
column_value p block mapblock_id = int (map_block_id p)
column_value p block mapblock_x = int p.x
column_value p block mapblock_y = int p.y
column_value p block mapblock_z = int p.z
column_value p block uniform = int (pos block.uniform)
column_value p block anthropocene = bool_value block.anthropocene
column_value p block preserve = bool_value block.preserve

-- The columns in the order of the parameters of kSqlWriteBlocks.
abbrev pub insert_columns : List Column
insert_columns =
    mapblock_id ∷ mapblock_x ∷ mapblock_y ∷ mapblock_z ∷ uniform ∷ anthropocene ∷ preserve ∷ []

-- Each block, with its data.
abbrev pub block_rows : List Pos → MapBlockHashMap → List Row
block_rows [] m = []
block_rows (p ∷ queue) m =
    (write_block, values_of (column_value p (data_at p m)) insert_columns) ∷ block_rows queue m

block_rows-ref_data :
    (p : Pos) (queue : List Pos) (m : MapBlockHashMap)
    → block_rows queue (ref_data p m).1 ≡ block_rows queue m
block_rows-ref_data p [] m = refl
block_rows-ref_data p (q ∷ queue) m = λ i.
    (write_block, values_of (column_value q (data_at-ref_data p q m i)) insert_columns)
    ∷ block_rows-ref_data p queue m i

module _ {D : Type 0} (sqlite : Sqlite D) where
  Writes-block_loop :
      (queue : List Pos) (m : MapBlockHashMap)
      → Writes sqlite
          (λ db. bind_result (block_loop sqlite queue m db) λ r. ok r.1)
          (block_rows queue m)
  unfolding block_loop
  Writes-block_loop [] m = Writes-ok sqlite
  Writes-block_loop (p ∷ queue) m = λ db r.
      rw
        (
          bind_result_assoc (write_row sqlite write_block (block_row p (ref_data p m).0) db) _ _,
          ref_data_lem p m,
          sym (block_rows-ref_data p queue m),
        )
        (Writes-bind_result sqlite (write_row sqlite write_block (block_row p (data_at p m))) _
          ((write_block, block_row p (data_at p m)) ∷ []) _
          (Writes-write_row sqlite write_block (block_row p (data_at p m)) refl)
          (Writes-block_loop queue (ref_data p m).1) db r)

  module _ (ended : MapBlockHashMap → App) where
    last_lem :
        (m : MapBlockHashMap) (o : Result (SqliteDb D))
        → bind_result (bind_result o λ db. ok (beside (ended m) db)) (λ r. ok r.1.database)
          ≡ bind_result o (λ db. ok db.database)
    last_lem m (ok db) = refl
    last_lem m (throw e) = refl

    loop_lem :
        (o : Result (MapBlockHashMap × SqliteDb D)) (last : SqliteDb D → Result (SqliteDb D))
        → bind_result
            (bind_result o λ w. bind_result (last w.1) λ db. ok (beside (ended w.0) db))
            (λ r. ok r.1.database)
          ≡ bind_result (bind_result (bind_result o λ w. ok w.1) last) (λ db. ok db.database)
    loop_lem (ok (m, db)) last = last_lem m (last db)
    loop_lem (throw e) last = refl

    begun_lem :
        (o : Result (SqliteDb D)) (loop : SqliteDb D → Result (MapBlockHashMap × SqliteDb D))
        (last : SqliteDb D → Result (SqliteDb D))
        → bind_result
            (bind_result o λ begun.
              bind_result (loop begun) λ w. bind_result (last w.1) λ db. ok (beside (ended w.0) db))
            (λ r. ok r.1.database)
          ≡ bind_result
              (bind_result o λ begun. bind_result (bind_result (loop begun) λ w. ok w.1) last)
              (λ db. ok db.database)
    begun_lem (ok db) loop last = loop_lem (loop db) last
    begun_lem (throw e) loop last = refl

  -- On a database each of whose statements has nothing or all of its values bound, FlushBlockQueue
  -- does to the database, or throws, what a transaction does that inserts one row for each
  -- position of the queue, in its order, each by a new statement. The columns of the row, in the order of the
  -- insert statement, hold the number and the coordinates of the position, and what the map of blocks has of
  -- it, `uniform`, `anthropocene` and `preserve`, which are 0 and false where it has nothing.
  pub flush_block_queue-execute :
      (app : App) (db : SqliteDb D)
      → IsReady db
      → bind_result (flush_block_queue sqlite app db) (λ r. ok r.1.database)
        ≡ execute sqlite (transaction (block_rows app.block_queue app.block_data)) db.database
  unfolding flush_block_queue
  flush_block_queue-execute app db r =
      begun_lem (λ m. record app { block_queue = []; block_data = m }) (begin_transaction sqlite db)
        (block_loop sqlite app.block_queue app.block_data) (commit_transaction sqlite)
      ∙ Writes-execute sqlite _ (transaction (block_rows app.block_queue app.block_data)) db
          (Writes-transaction sqlite _ (block_rows app.block_queue app.block_data)
            (Writes-block_loop app.block_queue app.block_data))
          r
