-- ===== src/Sqlite.antt =====
-- src/lib/database/db-sqlite3.h and db-sqlite3.cc: the wrappers around the statements of sqlite3.
-- A statement is named by the constant that holds its text. What a statement returns and does to its database
-- is a parameter, and so is what a call that binds a value returns.
pub mod Bound
pub mod Rows
pub mod Opened
use minetest_map_analyzer.Prelude.{
  ℕ, ◌+◌, ◌||◌, Bool, true, false, List, [], ◌∷◌, ◌==◌, if◌then◌else◌,
}
use minetest_map_analyzer.Prelude.Int.{ℤ, pos}
use minetest_map_analyzer.Exceptions.{Result, ok, throw, sqlite3_error, bind_result}

-- The statements of src/app/data_writer.cc and mapblock_writer.cc, and those of a SqliteDb.
pub data Statement : Type 0 where
  begin commit rollback : Statement
  write_actor write_node write_nodes write_inventory write_block : Statement

abbrev pub code : Statement → ℕ
code begin = 0
code commit = 1
code rollback = 2
code write_actor = 3
code write_node = 4
code write_nodes = 5
code write_inventory = 6
code write_block = 7

-- What is bound: sqlite3_bind_int and sqlite3_bind_int64 bind a number, sqlite3_bind_text a text.
pub data Value : Type 0 where
  int : ℤ → Value
  text : List ℕ → Value

-- The values of a statement, by their index.
abbrev pub Bindings : Type 0
Bindings = List (ℕ × Value)

-- sqlite3: the result code of a call that binds, and that of sqlite3_step with the database behind it.
pub record Sqlite (D : Type 0) : Type 0 where
  pub bind : Statement → ℕ → Value → D → ℕ
  pub step : Statement → Bindings → D → ℕ × D

-- A SqliteDb, with what is bound to each of its statements.
pub record SqliteDb (D : Type 0) : Type 0 where
  pub database : D
  pub bound : Statement → Bindings

-- A value of a bool.
abbrev pub bool_value : Bool → Value
bool_value true = int (pos 1)
bool_value false = int (pos 0)

-- A binding replaces an earlier one at its index.
unfoldable pub set_binding : ℕ → Value → Bindings → Bindings
set_binding i v [] = (i, v) ∷ []
set_binding i v ((j, old) ∷ rest) =
    if j == i then (i, v) ∷ rest else (j, old) ∷ set_binding i v rest

module _ {D : Type 0} (sqlite : Sqlite D) where
  abbrev pub with_bound : Statement → Bindings → SqliteDb D → SqliteDb D
  with_bound stmt bindings db = record db {
    bound = λ other. if code other == code stmt then bindings else db.bound other;
  }

  -- SqliteStmt::BindBool, BindInt and BindText
  unfoldable pub bind : Statement → ℕ → Value → SqliteDb D → Result (SqliteDb D)
  bind stmt i v db =
      if sqlite.bind stmt i v db.database == 0
      then ok (with_bound stmt (set_binding i v (db.bound stmt)) db)
      else throw sqlite3_error

  -- The switch of SqliteStmt::Step, on SQLITE_OK, SQLITE_ROW and SQLITE_DONE.
  unfoldable pub step_result : ℕ → SqliteDb D → Result (Bool × SqliteDb D)
  step_result rc db =
      if rc == 0 || rc == 100
      then ok (true, db)
      else if rc == 101
      then ok (false, db)
      else throw sqlite3_error

  -- SqliteStmt::Step
  unfoldable pub step : Statement → SqliteDb D → Result (Bool × SqliteDb D)
  step stmt db =
      let (rc, database) = sqlite.step stmt (db.bound stmt) db.database in
      step_result rc (record db { database = database })

  -- SqliteStmt::Reset, which keeps what is bound.
  abbrev pub reset : Statement → SqliteDb D → SqliteDb D
  reset stmt db = db

  -- Step and Reset, where the row is not read.
  unfoldable pub step_and_reset : Statement → SqliteDb D → Result (SqliteDb D)
  step_and_reset stmt db = bind_result (step stmt db) λ stepped. ok (reset stmt stepped.1)

  -- The calls that bind values at the indices from `i` on.
  unfoldable pub bind_from : Statement → ℕ → List Value → SqliteDb D → Result (SqliteDb D)
  bind_from stmt i [] db = ok db
  bind_from stmt i (v ∷ values) db =
      bind_result (bind stmt i v db) λ db'. bind_from stmt (i + 1) values db'

  -- The calls that bind values from the index 1 on, then Step and Reset.
  unfoldable pub write_row : Statement → List Value → SqliteDb D → Result (SqliteDb D)
  write_row stmt values db = bind_result (bind_from stmt 1 values db) λ db'. step_and_reset stmt db'

  -- SqliteDb::Begin, Commit and Rollback
  unfoldable pub begin_transaction : SqliteDb D → Result (SqliteDb D)
  begin_transaction db = step_and_reset begin db

  unfoldable pub commit_transaction : SqliteDb D → Result (SqliteDb D)
  commit_transaction db = step_and_reset commit db

  unfoldable pub rollback_transaction : SqliteDb D → Result (SqliteDb D)
  rollback_transaction db = step_and_reset rollback db
