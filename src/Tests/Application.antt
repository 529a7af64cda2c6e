-- ===== src/Tests/Application.antt =====
-- The consumer, the phases, and the blocks that are written.
use minetest_map_analyzer.Prelude.{
  ℕ, ◌≡◌, refl, ◌↔◌, ◌⊎◌, inl, true, false, Bool, Option, some, List, [], ◌∷◌, ◌++◌, Memᴰ,
  if◌then◌else◌, arith,
}
use minetest_map_analyzer.Prelude.Int.{leb_ℤ, ℤ, pos, negsuc}
use minetest_map_analyzer.Exceptions.{Result, ok, bind_result}
use minetest_map_analyzer.Pos.{Pos}
use minetest_map_analyzer.Pos.Text.{str, parse, parse-str}
use minetest_map_analyzer.Pos.Hash.{map_block_key}
use minetest_map_analyzer.HashMap
use minetest_map_analyzer.Minegeld.{codes}
use minetest_map_analyzer.MapDb.{MapDb, load_map_block, Ends-load_map_block}
use minetest_map_analyzer.Sqlite.{Sqlite, SqliteDb, Statement, Bindings}
use minetest_map_analyzer.Sqlite.Rows.{execute, fresh, beside, database_only}
use minetest_map_analyzer.Tests.Blocks.{stored_zlib, stored_zstd}
use minetest_map_analyzer.App.BlockQueue.{set_tombstone}
use minetest_map_analyzer.App.BlockData.{new_data, data_at, modify_data}
use minetest_map_analyzer.App.NodeScan.{NodeIdMapExtraInfo, DataWriterNode}
use minetest_map_analyzer.App.Preserve.Radius.{Near}
use minetest_map_analyzer.App.Config.{new_config}
use minetest_map_analyzer.App.State.{App, new_app}
use minetest_map_analyzer.App.Consumer.{run_consumer}
use minetest_map_analyzer.App.Consumer.Ending.{RunEnds}
use minetest_map_analyzer.App.Consumer.Counts.{IsCounted, run_consumer-counts}
use minetest_map_analyzer.App.Consumer.Marked.{IsQueued, run_consumer-IsQueued}
use minetest_map_analyzer.App.DataWriter.{flush_node_queue, flush_node_id_map}
use minetest_map_analyzer.App.DataWriter.Flushes.{
  transaction, unless_empty, queue_rows, flush_node_queue-execute,
}
use minetest_map_analyzer.App.DataWriter.Names.{name_rows, taken, flush_node_id_map-execute}
use minetest_map_analyzer.App.BlockWriter.{flush_block_queue}
use minetest_map_analyzer.App.BlockWriter.Blocks.{block_rows, flush_block_queue-execute}
use minetest_map_analyzer.App.Run.{
  preregister_content_ids, run_serially, merge, set_preserve_tombstone, apply_preserve_flags,
}
use minetest_map_analyzer.App.Run.Preserved.{merge-preserve}
use minetest_map_analyzer.App.Run.Phases.{IsFinished}
use minetest_map_analyzer.App.Run.Serially.{SeriallyEnds, run_serially-IsFinished}

abbrev home : Pos
home = record { x = pos 0; y = pos 0; z = pos 0 }

abbrev near_home : Pos
near_home = record { x = pos 1; y = negsuc 0; z = pos 0 }

-- A database that keeps the rows of its statements, and refuses none.
abbrev pub logging : Sqlite (List (Statement × Bindings))
logging = record {
  bind = λ stmt i v d. 0;
  step = λ stmt bindings d. (101, d ++ (stmt, bindings) ∷ []);
}

abbrev pub lookup : List ℕ → NodeIdMapExtraInfo
lookup name = record { anthropocene = true }

-- A map with the blocks 0 and 1, of which the first has a version that is unknown, and the second is missing.
abbrev rows : ℤ → ℤ → List ℤ
rows lo hi = pos 0 ∷ pos 1 ∷ []

abbrev pub map_db : MapDb
map_db = record {
  bind = λ id. 0;
  step = λ id. if leb_ℤ (pos 1) id then 101 else 100;
  column_blob = λ id. 7 ∷ [];
}

abbrev pub load : Pos → Result (Option (List ℕ))
load p = load_map_block map_db p

pub nothing_found :
    (p : Pos) → (data_at p (HashMap.new_map map_block_key new_data)).anthropocene ≡ false
unfolding HashMap.find HashMap.find_in
nothing_found p = refl

not_both : {b : Bool} → b ≡ true → b ≡ false → ⊥
not_both e f = cc

new_app-IsQueued : IsQueued new_app
new_app-IsQueued = (
  record { listed = λ p marked. absurd (not_both marked (nothing_found p)); blocks = tt },
  record { packets = tt; unmerged = refl },
)

abbrev waiting_app : App
waiting_app = record new_app { map_block_queue = set_tombstone (pos 0 ∷ pos 1 ∷ []) }

abbrev pub fresh_database : SqliteDb (List (Statement × Bindings))
fresh_database = fresh logging []

run_serially-IsFinished_example :
    SeriallyEnds (IsFinished logging new_config stored_zlib stored_zstd lookup rows load new_app) (
      run_serially logging new_config stored_zlib stored_zstd lookup rows load new_app
        fresh_database)
run_serially-IsFinished_example =
    run_serially-IsFinished logging new_config stored_zlib stored_zstd lookup rows load new_app
      fresh_database (omega arith) (Ends-load_map_block map_db) refl new_app-IsQueued
      (λ stmt. inl refl)

run_consumer-counts_example :
    RunEnds
      (IsCounted (pos 0 ∷ pos 1 ∷ []) waiting_app)
      (run_consumer 2048 true stored_zlib stored_zstd lookup load waiting_app)
run_consumer-counts_example =
    run_consumer-counts 2048 true stored_zlib stored_zstd lookup load (Ends-load_map_block map_db)
      (pos 0 ∷ pos 1 ∷ []) waiting_app (refl, (refl, tt)) refl

run_consumer-IsQueued_example :
    RunEnds IsQueued (run_consumer 0 true stored_zlib stored_zstd lookup load waiting_app)
run_consumer-IsQueued_example =
    run_consumer-IsQueued 0 true stored_zlib stored_zstd lookup load (pos 0 ∷ pos 1 ∷ [])
      waiting_app (Ends-load_map_block map_db) (refl, (refl, tt)) refl new_app-IsQueued

-- Two blocks are to be written, of which one is marked.
abbrev home_marked : App
home_marked = record new_app {
  block_data =
      modify_data home (λ d. record d { anthropocene = true })
        (HashMap.new_map map_block_key new_data);
  preserve_queue = record { merge_queue = (home ∷ []) ∷ []; final_queue = [] };
  block_queue = home ∷ near_home ∷ [];
}

merge-preserve_example :
    (m : App) × (merge (pos 2) (set_preserve_tombstone home_marked) ≡ some m)
    × (((data_at near_home (apply_preserve_flags m).block_data).preserve ≡ true) ↔ (
        ((p : Pos) × Memᴰ p (home ∷ []) × Near (pos 2) p near_home)
        ⊎ ((data_at near_home home_marked.block_data).preserve ≡ true)))
merge-preserve_example =
    merge-preserve (pos 2) (omega arith) home_marked
      (record { packets = (tt, tt); unmerged = refl }) near_home (omega arith, tt)

flush_block_queue-execute_example :
    bind_result (flush_block_queue logging home_marked fresh_database) (λ r. ok r.1.database)
    ≡ execute logging (transaction (block_rows (home ∷ near_home ∷ []) home_marked.block_data)) []
flush_block_queue-execute_example =
    flush_block_queue-execute logging home_marked fresh_database (λ stmt. inl refl)

-- A chest with one item, of an owner.
abbrev chest : DataWriterNode
chest = record {
  pos = home;
  owner_id = 1;
  node_id = 3;
  minegeld = 0;
  inventory = (codes "main", codes "default:stone 3" ∷ [] ∷ []) ∷ [];
}

abbrev one_chest : App
one_chest = record new_app { node_queue = chest ∷ [] }

flush_node_queue-execute_example :
    bind_result (flush_node_queue logging one_chest fresh_database) (λ r. ok (database_only r))
    ≡ bind_result
        (execute logging (unless_empty (queue_rows (chest ∷ []))) [])
        (λ d. ok (beside (record one_chest { node_queue = [] }) d))
flush_node_queue-execute_example =
    flush_node_queue-execute logging one_chest fresh_database (λ stmt. inl refl)

abbrev three_names : App
three_names = preregister_content_ids lookup new_app

flush_node_id_map-execute_example :
    bind_result (flush_node_id_map logging three_names fresh_database) (λ r. ok (database_only r))
    ≡ bind_result (name_rows (taken three_names.node_ids) three_names.node_ids.dirty) λ names.
      bind_result
        (execute logging (unless_empty names) [])
        λ d. ok (beside (record three_names { node_ids = taken three_names.node_ids }) d)
flush_node_id_map-execute_example =
    flush_node_id_map-execute logging three_names fresh_database (λ stmt. inl refl)

parse-str_example : parse (str near_home) home ≡ (true, near_home)
parse-str_example = parse-str near_home home (omega arith)
