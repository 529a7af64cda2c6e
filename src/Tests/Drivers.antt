-- ===== src/Tests/Drivers.antt =====
-- The two drivers on a table of two blocks, and an output file that has no table of actors yet.
use minetest_map_analyzer.Prelude.{ℕ, ◌+◌, ◌≡◌, refl, Bool, true, List, [], ◌∷◌, ◌++◌, arith}
use minetest_map_analyzer.Prelude.Int.{pos, negsuc}
use minetest_map_analyzer.Exceptions.{ok}
use minetest_map_analyzer.Pos.{Pos, min_block_pos, max_block_pos}
use minetest_map_analyzer.App.Producer
use minetest_map_analyzer.MapDb.Postgresql
use minetest_map_analyzer.MapDb.Postgresql.Equivalent.{
  select_ids, select_rows, produce_map_blocks-select_ids,
}
use minetest_map_analyzer.Sqlite.{
  Sqlite, SqliteDb, write_block, step, step_result, step_and_reset, begin_transaction,
  commit_transaction,
}
use minetest_map_analyzer.Sqlite.Bound.{IsReady}
use minetest_map_analyzer.Sqlite.Opened.{
  Library, prepare, prepare_all, opened_db, open_db, executed, exec_schema, create_schema,
  check_schema, verify_schema, connect,
}
use minetest_map_analyzer.Sqlite.Opened.Schema.{
  Table, schema_tables, actor_count, with_schema, IsDocumented, connect-with_schema,
}

abbrev block : Pos
block = record { x = pos 3; y = negsuc 1; z = pos 0 }

-- It lies outside the box, though its number is between those of the corners.
abbrev corner_block : Pos
corner_block = record { x = pos 2047; y = pos 0; z = pos 0 }

-- The number of calls.
abbrev count_call : Pos → ℕ → Bool × ℕ
count_call p n = (true, n + 1)

produce_map_blocks-select_ids_example :
    Postgresql.produce_map_blocks
      (select_rows (block ∷ corner_block ∷ []))
      min_block_pos
      max_block_pos
      count_call
      0
    ≡ Producer.produce_map_blocks
        (select_ids (block ∷ corner_block ∷ []))
        min_block_pos
        max_block_pos
        count_call
        0
produce_map_blocks-select_ids_example =
    produce_map_blocks-select_ids min_block_pos max_block_pos count_call (block ∷ corner_block ∷ [])
      0 (omega arith) (omega arith) (omega arith, (omega arith, tt))

-- A file is the list of its tables.
abbrev file : Sqlite (List Table)
file = record { bind = λ stmt i v d. 0; step = λ stmt bindings d. (101, d) }

abbrev file_library : Library (List Table)
file_library = record {
  opened = λ filename d. (0, d);
  prepared = λ stmt d. 0;
  check_prepared = λ d. 0;
  check_stepped = λ d. 100;
  check_column = λ d. pos (actor_count d);
  schema_executed = λ d. (0, d ++ schema_tables);
}

file-IsDocumented : IsDocumented file file_library (λ d. d)
file-IsDocumented = record {
  counted = λ d h. refl;
  opened = λ filename d h. refl;
  begun = λ bindings d h. refl;
  committed = λ bindings d h. refl;
  created = λ d h. refl;
}

-- The schema is created beside a table that is there.
abbrev connected : SqliteDb (List Table)
connected = record { database = Table.blocks ∷ schema_tables; bound = λ stmt. [] }

opens_without_actor :
    connect file file_library (write_block ∷ []) [] (Table.blocks ∷ []) ≡ ok connected
unfolding connect verify_schema check_schema create_schema exec_schema executed open_db opened_db
    prepare_all prepare step step_result step_and_reset begin_transaction commit_transaction
opens_without_actor = refl

connect-with_schema_example :
    (Table.blocks ∷ schema_tables ≡ with_schema (Table.blocks ∷ [])) × IsReady connected
connect-with_schema_example =
    connect-with_schema file file_library (λ d. d) file-IsDocumented (write_block ∷ []) []
      (Table.blocks ∷ []) connected opens_without_actor
