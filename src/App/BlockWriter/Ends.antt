-- ===== src/App/BlockWriter/Ends.antt =====
-- src/app/mapblock_writer.cc: how FlushBlockQueue ends.
use minetest_map_analyzer.Prelude.{◌≡◌, refl, List, [], ◌∷◌}
use minetest_map_analyzer.Exceptions.{Ends, Any, Ends-bind_result}
use minetest_map_analyzer.Pos.{Pos}
use minetest_map_analyzer.Sqlite.{
  Sqlite, SqliteDb, write_block, write_row, begin, commit, begin_transaction, commit_transaction,
}
use minetest_map_analyzer.Sqlite.Rows.{Ends-step_and_reset, Ends-write_row}
use minetest_map_analyzer.App.BlockData.{MapBlockHashMap, ref_data}
use minetest_map_analyzer.App.State.{App}
use minetest_map_analyzer.App.BlockWriter.{block_row, block_loop, flush_block_queue}

module _ {D : Type 0} (sqlite : Sqlite D) where
  Ends-block_loop :
      (queue : List Pos) (m : MapBlockHashMap) (db : SqliteDb D)
      → Ends Any (block_loop sqlite queue m db)
  unfolding block_loop
  Ends-block_loop [] m db = tt
  Ends-block_loop (p ∷ queue) m db =
      Ends-bind_result Any Any (write_row sqlite write_block (block_row p (ref_data p m).0) db) _
        (Ends-write_row sqlite write_block _ db) λ db' u. Ends-block_loop queue (ref_data p m).1 db'

  -- Behind FlushBlockQueue, the App has no queue of blocks, and some map of blocks.
  pub Ends-flush_block_queue_holds :
      (P : App → Type 0) (app : App) (db : SqliteDb D)
      → ((m : MapBlockHashMap) → P (record app { block_queue = []; block_data = m }))
      → Ends (λ r. P r.0) (flush_block_queue sqlite app db)
  unfolding flush_block_queue begin_transaction commit_transaction
  Ends-flush_block_queue_holds P app db h =
      let Q : App × SqliteDb D → Type 0 = λ r. P r.0 in
      Ends-bind_result Any Q (begin_transaction sqlite db) _ (Ends-step_and_reset sqlite begin db)
        λ begun u.
          Ends-bind_result Any Q (block_loop sqlite app.block_queue app.block_data begun) _
            (Ends-block_loop app.block_queue app.block_data begun)
            λ written v.
              Ends-bind_result Any Q (commit_transaction sqlite written.1) _
                (Ends-step_and_reset sqlite commit written.1) λ db' w. h written.0

  abbrev pub SameStats : App → App × SqliteDb D → Type 0
  SameStats app (app', db) = app'.stats ≡ app.stats

  pub Ends-flush_block_queue :
      (app : App) (db : SqliteDb D) → Ends (SameStats app) (flush_block_queue sqlite app db)
  Ends-flush_block_queue app db =
      Ends-flush_block_queue_holds (λ a. a.stats ≡ app.stats) app db λ m. refl
