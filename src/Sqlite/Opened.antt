-- ===== src/Sqlite/Opened.antt =====
-- The opening of the output file: the constructors of src/lib/database/db-sqlite3.cc, src/app/schema/schema.cc, and
-- those of src/app/data_writer.cc and mapblock_writer.cc. The calls of sqlite3 are parameters; a connection is
-- closed at the end of VerifySchema, which changes nothing.
pub mod Schema
use minetest_map_analyzer.Prelude.{ℕ, Bool, true, false, List, [], ◌∷◌, ◌==◌, if◌then◌else◌}
use minetest_map_analyzer.Prelude.Int.{ℤ, pos, ltb_ℤ}
use minetest_map_analyzer.Exceptions.{Result, ok, throw, sqlite3_error, bind_result}
use minetest_map_analyzer.Sqlite.{
  Sqlite, SqliteDb, Statement, begin, commit, rollback, write_actor, write_node, write_nodes,
  write_inventory, write_block, step_result, begin_transaction, commit_transaction,
}

-- sqlite3_open_v2 on a file name, sqlite3_prepare_v2 on the text of a statement and on that of the check of
-- the schema, sqlite3_step and the first column of that check, and sqlite3_exec on the schema.
pub record Library (D : Type 0) : Type 0 where
  pub opened : List ℕ → D → ℕ × D
  pub prepared : Statement → D → ℕ
  pub check_prepared : D → ℕ
  pub check_stepped : D → ℕ
  pub check_column : D → ℤ
  pub schema_executed : D → ℕ × D

module _ {D : Type 0} (sqlite : Sqlite D) (library : Library D) where
  -- SqliteStmt::SqliteStmt
  unfoldable pub prepare : Statement → SqliteDb D → Result (SqliteDb D)
  prepare stmt db = if library.prepared stmt db.database == 0 then ok db else throw sqlite3_error

  -- Statements that are prepared one after the other.
  unfoldable pub prepare_all : List Statement → SqliteDb D → Result (SqliteDb D)
  prepare_all [] db = ok db
  prepare_all (stmt ∷ statements) db =
      bind_result (prepare stmt db) λ db'. prepare_all statements db'

  -- The part of SqliteDb::SqliteDb behind sqlite3_open_v2, whose result code is `r`.
  unfoldable pub opened_db : ℕ → D → Result (SqliteDb D)
  opened_db r database =
      if r == 0
      then prepare_all (begin ∷ commit ∷ rollback ∷ [])
          (record { database = database; bound = λ stmt. [] })
      else throw sqlite3_error

  -- SqliteDb::SqliteDb
  unfoldable pub open_db : List ℕ → D → Result (SqliteDb D)
  open_db filename d = let (r, database) = library.opened filename d in opened_db r database

  unfoldable pub executed : ℕ → D → SqliteDb D → Result (SqliteDb D)
  executed r database db =
      if r == 0 then ok (record db { database = database }) else throw sqlite3_error

  -- SqliteDb::Exec, on the schema.
  unfoldable pub exec_schema : SqliteDb D → Result (SqliteDb D)
  exec_schema db = let (r, database) = library.schema_executed db.database in executed r database db

  -- The transaction that creates the schema.
  unfoldable pub create_schema : SqliteDb D → Result (SqliteDb D)
  create_schema db =
      bind_result (begin_transaction sqlite db)
        λ begun. bind_result (exec_schema begun) λ created. commit_transaction sqlite created

  -- VerifySchema, behind the opening of the file. Whether the step has found a row is not asked.
  unfoldable pub check_schema : SqliteDb D → Result (SqliteDb D)
  check_schema db =
      if library.check_prepared db.database == 0
      then (bind_result (step_result sqlite (library.check_stepped db.database) db) λ stepped.
          if ltb_ℤ (pos 0) (library.check_column db.database) then ok db else create_schema db)
      else throw sqlite3_error

  -- VerifySchema
  unfoldable pub verify_schema : List ℕ → D → Result D
  verify_schema filename d =
      bind_result (open_db filename d)
        λ db. bind_result (check_schema db) λ checked. ok checked.database

  -- VerifySchema, and a connection with its statements.
  unfoldable pub connect : List Statement → List ℕ → D → Result (SqliteDb D)
  connect statements filename d =
      bind_result (verify_schema filename d)
        λ verified. bind_result (open_db filename verified) λ db. prepare_all statements db

  -- DataWriter::DataWriter
  unfoldable pub new_data_writer : List ℕ → D → Result (SqliteDb D)
  new_data_writer filename d =
      connect (write_actor ∷ write_node ∷ write_nodes ∷ write_inventory ∷ []) filename d

  -- MapBlockWriter::MapBlockWriter
  unfoldable pub new_block_writer : List ℕ → D → Result (SqliteDb D)
  new_block_writer filename d = connect (write_block ∷ []) filename d
