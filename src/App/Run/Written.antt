-- ===== src/App/Run/Written.antt =====
-- src/app/app.cc: the rows of blocks that the end of RunSerially writes.
use minetest_map_analyzer.Prelude.{ℕ, ◌≡◌, sym, ◌∙◌, inl, true, Option, none, some, List}
use minetest_map_analyzer.Prelude.Int.{ℤ, pos, ◌≤ℤ◌}
use minetest_map_analyzer.Exceptions.{Result, ok, bind_result}
use minetest_map_analyzer.Compression.{Zlib, Zstd}
use minetest_map_analyzer.Pos.{Pos}
use minetest_map_analyzer.Sqlite.{Sqlite, SqliteDb}
use minetest_map_analyzer.Sqlite.Bound.{IsReady}
use minetest_map_analyzer.Sqlite.Rows.{execute}
use minetest_map_analyzer.App.BlockData.{MapBlockHashMap, data_at}
use minetest_map_analyzer.App.Preserve.Radius.{Near}
use minetest_map_analyzer.App.NodeScan.{NodeIdMapExtraInfo}
use minetest_map_analyzer.App.Config.{Config}
use minetest_map_analyzer.App.State.{App}
use minetest_map_analyzer.App.Consumer.Marked.{IsQueued}
use minetest_map_analyzer.App.DataWriter.Flushes.{transaction}
use minetest_map_analyzer.App.BlockWriter.Blocks.{block_rows, flush_block_queue-execute}
use minetest_map_analyzer.App.Run.{run_preserve, apply_preserve_flags}
use minetest_map_analyzer.App.Preserve.{surrender_final_set}
use minetest_map_analyzer.App.Run.Preserved.{
  merged_app, merge_lem, flagged, flagged-preserve, flagged-anthropocene,
}

-- The run did not wait, and did to the database, or threw, what the rows do.
abbrev pub Wrote : {D : Type 0} → Option (Result (App × SqliteDb D)) → Result D → Type 0
Wrote none d = ⊥
Wrote (some result) d = bind_result result (λ r. ok r.1.database) ≡ d

-- Every position within the radius of a marked one is preserved.
abbrev pub IsPreserving : ℤ → MapBlockHashMap → Type 0
IsPreserving r m =
    (p q : Pos) → (data_at p m).anthropocene ≡ true → Near r p q → (data_at q m).preserve ≡ true

-- From a state in which every marked position is in the preserve queue, and with a radius of at most
-- 30000, the end of RunSerially does not wait. It writes the queue of blocks, in its order, in a transaction:
-- one row for each position, from a map of blocks with the same marks, in which every position within the
-- radius of a marked one is preserved.
pub run_preserve-Wrote :
    {D : Type 0} (sqlite : Sqlite D) (config : Config) (zlib : Zlib) (zstd : Zstd)
    (lookup : List ℕ → NodeIdMapExtraInfo) (list_blocks : ℤ → ℤ → List ℤ)
    (load : Pos → Result (Option (List ℕ))) (app : App) (db : SqliteDb D)
    → config.preserve_radius ≤ℤ pos 30000
    → IsQueued app
    → IsReady db
    → (m : MapBlockHashMap) × Wrote
        (run_preserve sqlite config zlib zstd lookup list_blocks load app db)
        (execute sqlite (transaction (block_rows app.block_queue m)) db.database)
      × ((q : Pos) → (data_at q m).anthropocene ≡ (data_at q app.block_data).anthropocene)
      × IsPreserving config.preserve_radius m
unfolding run_preserve apply_preserve_flags surrender_final_set
run_preserve-Wrote sqlite config zlib zstd lookup list_blocks load app db hr (covered, packed)
      ready =
    let r = config.preserve_radius in
    let m = flagged r hr app packed in
    let marks = flagged-anthropocene r hr app packed in
    (
      m,
      rw (merge_lem r hr app packed) (
          flush_block_queue-execute sqlite (apply_preserve_flags (merged_app r hr app packed)) db
            ready),
      marks,
      λ p q marked near.
          (flagged-preserve r hr app packed q covered.blocks).1
            (inl (p, covered.listed p (sym (marks p) ∙ marked), near)),
    )
