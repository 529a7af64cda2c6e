-- ===== src/App/Run/Serially.antt =====
-- App::RunSerially of src/app/app.cc: how it ends.
use minetest_map_analyzer.Prelude.{ℕ, ◌≡◌, Option, none, some, List, []}
use minetest_map_analyzer.Prelude.Int.{ℤ, pos, ◌≤ℤ◌}
use minetest_map_analyzer.Exceptions.{
  Exception, Result, ok, throw, serialization, out_of_range, sqlite3_error, undefined, out_of_fuel,
  Ends, Any,
}
use minetest_map_analyzer.Compression.{Zlib, Zstd}
use minetest_map_analyzer.Pos.{Pos}
use minetest_map_analyzer.Sqlite.{Sqlite, SqliteDb}
use minetest_map_analyzer.Sqlite.Bound.{IsReady}
use minetest_map_analyzer.App.NodeScan.{NodeIdMapExtraInfo}
use minetest_map_analyzer.App.Config.{Config}
use minetest_map_analyzer.App.State.{App}
use minetest_map_analyzer.App.Consumer.Ending.{RunEnds}
use minetest_map_analyzer.App.Consumer.Marked.{IsQueued}
use minetest_map_analyzer.App.Run.{run_phases, run_serially, caught_run}
use minetest_map_analyzer.App.Run.Phases.{IsFinished, run_phases-IsFinished}

-- What RunSerially lets through: neither of the two exceptions that the program catches.
abbrev IsFatal : Exception → Type 0
IsFatal (serialization e) = ⊥
IsFatal out_of_range = Unit
IsFatal sqlite3_error = ⊥
IsFatal undefined = Unit
IsFatal out_of_fuel = Unit

-- The run does not wait: it ends in `P`, with an Sqlite3Error that is logged, or with an exception that is
-- caught nowhere.
abbrev pub SeriallyEnds : {A : Type 0} → (A → Type 0) → Option (Result (Option A)) → Type 0
SeriallyEnds P none = ⊥
SeriallyEnds P (some (ok none)) = Unit
SeriallyEnds P (some (ok (some a))) = P a
SeriallyEnds P (some (throw e)) = IsFatal e

module _ {D : Type 0} (sqlite : Sqlite D) (config : Config) (zlib : Zlib) (zstd : Zstd)
    (lookup : List ℕ → NodeIdMapExtraInfo) (list_blocks : ℤ → ℤ → List ℤ)
    (load : Pos → Result (Option (List ℕ))) where
  caught_lem :
      {A : Type 0} (P : A → Type 0) (o : Option (Result A))
      → RunEnds P o
      → SeriallyEnds P (caught_run sqlite config zlib zstd lookup list_blocks load o)
  caught_lem P none h = h
  caught_lem P (some (ok a)) h = h
  caught_lem P (some (throw (serialization e))) h = h
  caught_lem P (some (throw out_of_range)) h = h
  caught_lem P (some (throw sqlite3_error)) h = h
  caught_lem P (some (throw undefined)) h = h
  caught_lem P (some (throw out_of_fuel)) h = h

  -- From an empty queue of keys and a preserve queue that has every marked position, with a database
  -- that is ready, a radius of at most 30000, and a map whose LoadMapBlock throws no SerializationError,
  -- RunSerially ends, and does not wait: with an Sqlite3Error that it logs, with an exception that is neither
  -- that nor a SerializationError, or behind all phases. Then each key that the producer found has been counted
  -- as a good or as a bad block, and the last transaction has written the blocks that were queued before, and
  -- one for each key that was counted as good, in their order, from a map of blocks in which every position
  -- within the radius of a marked one is preserved.
  pub run_serially-IsFinished :
      (app : App) (db : SqliteDb D)
      → config.preserve_radius ≤ℤ pos 30000
      → ((p : Pos) → Ends Any (load p))
      → app.map_block_queue ≡ []
      → IsQueued app
      → IsReady db
      → SeriallyEnds
          (IsFinished sqlite config zlib zstd lookup list_blocks load app)
          (run_serially sqlite config zlib zstd lookup list_blocks load app db)
  unfolding run_serially
  run_serially-IsFinished app db hr ends e h ready =
      caught_lem (IsFinished sqlite config zlib zstd lookup list_blocks load app)
        (run_phases sqlite config zlib zstd lookup list_blocks load app db)
        (run_phases-IsFinished sqlite config zlib zstd lookup list_blocks load hr app db ends e h
          ready)
