-- ===== src/App/BlockWriter.antt =====
-- src/app/mapblock_writer.cc: what is written of the blocks.
pub mod Blocks
pub mod Ends
use minetest_map_analyzer.Prelude.{ℕ, List, [], ◌∷◌}
use minetest_map_analyzer.Prelude.Int.{pos}
use minetest_map_analyzer.Exceptions.{Result, ok, bind_result}
use minetest_map_analyzer.Pos.{Pos, map_block_id}
use minetest_map_analyzer.Sqlite.{
  Sqlite, SqliteDb, Value, int, bool_value, write_block, write_row, begin_transaction,
  commit_transaction,
}
use minetest_map_analyzer.App.BlockData.{MapBlockData, MapBlockHashMap, ref_data}
use minetest_map_analyzer.App.State.{App}

-- The values of a block.
abbrev pub block_row : Pos → MapBlockData → List Value
block_row p block =
    int (map_block_id p)
    ∷ int p.x
    ∷ int p.y
    ∷ int p.z
    ∷ int (pos block.uniform)
    ∷ bool_value block.anthropocene
    ∷ bool_value block.preserve
    ∷ []

module _ {D : Type 0} (sqlite : Sqlite D) where
  -- The loop of FlushBlockQueue, in which Ref adds the data of a position that has none.
  unfoldable pub block_loop :
      List Pos → MapBlockHashMap → SqliteDb D → Result (MapBlockHashMap × SqliteDb D)
  block_loop [] m db = ok (m, db)
  block_loop (p ∷ queue) m db =
      let (block, m') = ref_data p m in
      bind_result (write_row sqlite write_block (block_row p block) db)
        λ db'. block_loop queue m' db'

  -- MapBlockWriter::FlushBlockQueue
  unfoldable pub flush_block_queue : App → SqliteDb D → Result (App × SqliteDb D)
  flush_block_queue app db = bind_result (begin_transaction sqlite db) λ begun.
      bind_result (block_loop app.block_queue app.block_data begun) λ written.
        bind_result (commit_transaction sqlite written.1)
          λ db'. ok (record app { block_queue = []; block_data = written.0 }, db')
