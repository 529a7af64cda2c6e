-- ===== src/MapDb/Postgresql.antt =====
-- src/lib/database/db-map-postgresql.cc: the reads from a map in PostgreSQL. What libpqxx returns for the two
-- prepared statements is a parameter; an exception of libpqxx is left out.
pub mod Equivalent
use minetest_map_analyzer.Prelude.{
  ℕ, ◌%◌, ◌^◌, Bool, true, Option, none, some, List, [], ◌∷◌, if◌then◌else◌,
}
use minetest_map_analyzer.Prelude.Int.{ℤ, to_u64, signed32}
use minetest_map_analyzer.Pos.{Pos, inside}
use minetest_map_analyzer.App.Preserve.{block_at}
use minetest_map_analyzer.App.Producer.{unless_stopped}

-- A row of the statement that lists the blocks: three columns, each an int64_t.
pub record PositionRow : Type 0 where
  pub posx : ℤ
  pub posy : ℤ
  pub posz : ℤ

-- The conversion of an int64_t to an int.
abbrev pub as_int : ℤ → ℤ
as_int v = signed32 (to_u64 v % 2 ^ 32)

-- `MapBlockPos pos(x, y, z)`
unfoldable pub row_pos : PositionRow → Pos
row_pos row = block_at (as_int row.posx) (as_int row.posy) (as_int row.posz)

module _ {S : Type 0} (min max : Pos) (callback : Pos → S → Bool × S) where
  -- The loop over the rows of the result.
  unfoldable pub result_loop : List PositionRow → S → Bool × S
  result_loop [] s = (true, s)
  result_loop (row ∷ rows) s =
      if inside (row_pos row) min max
      then unless_stopped (result_loop rows) (callback (row_pos row) s)
      else result_loop rows s

-- The rows of `select posx, posy, posz from blocks where ...` between the two corners.
module _ {S : Type 0} (select : Pos → Pos → List PositionRow) where
  -- MapInterfacePostgresql::ProduceMapBlocks
  unfoldable pub produce_map_blocks : Pos → Pos → (Pos → S → Bool × S) → S → Bool × S
  produce_map_blocks min max callback s = result_loop min max callback (select min max) s

-- The first row of the result, if it has one.
abbrev pub first_row : List (List ℕ) → Option (List ℕ)
first_row [] = none
first_row (bytes ∷ rows) = some bytes

-- MapInterfacePostgresql::LoadMapBlock, over the rows of `select data from blocks where ...`.
unfoldable pub load_map_block : (ℤ → ℤ → ℤ → List (List ℕ)) → Pos → Option (List ℕ)
load_map_block select p = first_row (select p.x p.y p.z)
