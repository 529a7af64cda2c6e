-- ===== src/MapDb.antt =====
-- LoadMapBlock of src/lib/database/db-map-sqlite3.cc. `select data from blocks where pos = :pos` is a
-- parameter: the result codes of the calls that bind its number and that step it, with the bytes of its row.
pub mod Postgresql
use minetest_map_analyzer.Prelude.{
  ℕ, ◌||◌, Option, none, some, List, ◌==◌, if◌then◌else◌, Bool-cases, inl, inr,
}
use minetest_map_analyzer.Prelude.Int.{ℤ}
use minetest_map_analyzer.Exceptions.{Result, ok, throw, sqlite3_error, Ends, Any}
use minetest_map_analyzer.Pos.{Pos, map_block_id}

pub record MapDb : Type 0 where
  pub bind : ℤ → ℕ
  pub step : ℤ → ℕ
  pub column_blob : ℤ → List ℕ

-- What SqliteStmt::Step and ColumnBlob give, by the result code.
unfoldable pub loaded : ℕ → List ℕ → Result (Option (List ℕ))
loaded rc blob =
    if rc == 0 || rc == 100
    then ok (some blob)
    else if rc == 101
    then ok none
    else throw sqlite3_error

-- MapInterfaceSqlite3::LoadMapBlock
unfoldable pub load_map_block : MapDb → Pos → Result (Option (List ℕ))
load_map_block map p =
    let id = map_block_id p in
    if map.bind id == 0 then loaded (map.step id) (map.column_blob id) else throw sqlite3_error

Ends-loaded : (rc : ℕ) (blob : List ℕ) → Ends Any (loaded rc blob)
unfolding loaded
Ends-loaded rc blob = elim (Bool-cases (rc == 0 || rc == 100)) [
  | inl e ↦ rw e tt
  | inr e ↦ rw e (elim (Bool-cases (rc == 101)) [ inl e' ↦ rw e' tt | inr e' ↦ rw e' tt ])
]

-- Loading a block throws an Sqlite3Error or nothing.
pub Ends-load_map_block : (map : MapDb) (p : Pos) → Ends Any (load_map_block map p)
unfolding load_map_block
Ends-load_map_block map p = elim (Bool-cases (map.bind (map_block_id p) == 0)) [
  | inl e ↦ rw e (Ends-loaded (map.step (map_block_id p)) (map.column_blob (map_block_id p)))
  | inr e ↦ rw e tt
]
