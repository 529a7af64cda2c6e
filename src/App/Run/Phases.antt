-- ===== src/App/Run/Phases.antt =====
-- App::RunSerially of src/app/app.cc: from the table of the blocks to the rows that are written.
use minetest_map_analyzer.Prelude.{
  refl, ℕ, ◌+◌, ◌≡◌, sym, ap, ◌∙◌, Option, none, some, List, [], ◌∷◌, ◌++◌, length,
}
use minetest_map_analyzer.Prelude.Int.{ℤ, pos, ◌≤ℤ◌}
use minetest_map_analyzer.Exceptions.{Result, ok, throw, Ends, Any}
use minetest_map_analyzer.Compression.{Zlib, Zstd}
use minetest_map_analyzer.Pos.{Pos, map_block_id}
use minetest_map_analyzer.Sqlite.{Sqlite, SqliteDb}
use minetest_map_analyzer.Sqlite.Bound.{IsReady}
use minetest_map_analyzer.App.BlockQueue.{tombstone, set_tombstone}
use minetest_map_analyzer.Sqlite.Rows.{execute}
use minetest_map_analyzer.App.BlockData.{MapBlockHashMap}
use minetest_map_analyzer.App.NodeScan.{NodeIdMapExtraInfo}
use minetest_map_analyzer.App.Preserve.{surrender_final_set}
use minetest_map_analyzer.App.Config.{Config}
use minetest_map_analyzer.App.State.{App}
use minetest_map_analyzer.App.Producer.{run_producer}
use minetest_map_analyzer.App.Consumer.{run_consumer}
use minetest_map_analyzer.App.Consumer.Ending.{RunEnds}
use minetest_map_analyzer.App.Consumer.Counts.{
  IsAmong, IsCounted, IsCounted-Kept, run_consumer-counts,
}
use minetest_map_analyzer.App.Consumer.Marked.{IsQueued, run_consumer-IsQueued}
use minetest_map_analyzer.App.DataWriter.{flush_actor_id_map, flush_node_id_map, flush_node_queue}
use minetest_map_analyzer.App.DataWriter.Flushes.{transaction}
use minetest_map_analyzer.App.DataWriter.Ends.{
  Holds, Ends-flush_actor_id_map, Ends-flush_node_id_map, Ends-flush_node_queue,
}
use minetest_map_analyzer.App.BlockWriter.Blocks.{block_rows}
use minetest_map_analyzer.App.BlockWriter.Ends.{SameStats, Ends-flush_block_queue}
use minetest_map_analyzer.App.Run.{with_producing, run_preserve, run_phases, apply_preserve_flags}
use minetest_map_analyzer.App.Run.Preserved.{merged_app, merge_lem}
use minetest_map_analyzer.App.Run.Runs.{ids_inside-NoTombstone, RunEnds-bind_run, RunEnds-both}
use minetest_map_analyzer.App.Run.Written.{Wrote, IsPreserving, run_preserve-Wrote}
use minetest_map_analyzer.App.Producer.Batches.{rows_inside, run_producer_lem}

module _ {D : Type 0} (sqlite : Sqlite D) (config : Config) (zlib : Zlib) (zstd : Zstd)
    (lookup : List ℕ → NodeIdMapExtraInfo) (list_blocks : ℤ → ℤ → List ℤ)
    (load : Pos → Result (Option (List ℕ))) where
  -- The keys that the producer finds.
  abbrev pub all_keys : List ℤ
  all_keys = rows_inside list_blocks config.producer_batch_size config.min_pos config.max_pos

  -- The App behind the producer.
  abbrev pub produced_app : App → App
  produced_app app =
      with_producing
        (run_producer list_blocks config.producer_batch_size config.min_pos config.max_pos
          app.stats.queued_map_blocks app.map_block_queue)
        app

  -- The rows of the blocks: those that were queued before, and one for each key that was counted as good, in
  -- the order of the keys, from a map of blocks in which every position within the radius of a marked one is
  -- preserved, written to a database as it was before.
  abbrev pub HasWritten : App → App × SqliteDb D → Type 0
  HasWritten app (app', db') =
      (d : D) × (written : List Pos) × (m : MapBlockHashMap) × (execute sqlite
          (transaction (block_rows (app.block_queue ++ written) m)) d
        ≡ ok db'.database)
      × (app'.stats.good_map_blocks ≡ app.stats.good_map_blocks + length written)
      × IsAmong written all_keys
      × IsPreserving config.preserve_radius m

  -- Every key was counted, and the blocks were written.
  abbrev pub IsFinished : App → App × SqliteDb D → Type 0
  IsFinished app (app', db') =
      (app'.stats.good_map_blocks + app'.stats.bad_map_blocks
        ≡ app.stats.good_map_blocks + app.stats.bad_map_blocks + length all_keys)
      × (app'.stats.queued_map_blocks ≡ app.stats.queued_map_blocks + length all_keys)
      × HasWritten app (app', db')

  abbrev Behind : App → App → Type 0
  Behind app a = IsQueued a × IsCounted all_keys (produced_app app) a

  start_lem :
      (app : App)
      → app.map_block_queue ≡ []
      → (produced_app app).map_block_queue ≡ set_tombstone all_keys
  unfolding set_tombstone
  start_lem app e =
      (run_producer_lem list_blocks config.producer_batch_size config.min_pos config.max_pos
        app.stats.queued_map_blocks app.map_block_queue).0
      ∙ ap (λ q. (q ++ all_keys) ++ tombstone ∷ []) e

  consumed_lem :
      (app : App)
      → ((p : Pos) → Ends Any (load p))
      → app.map_block_queue ≡ []
      → IsQueued app
      → RunEnds (Behind app) (
          run_consumer config.anthropocene_flush_threshold config.track_minegeld zlib zstd lookup
            load
            (produced_app app))
  consumed_lem app ends e h =
      let no_tombstone =
        ids_inside-NoTombstone config.min_pos config.max_pos
          (list_blocks (map_block_id config.min_pos) (map_block_id config.max_pos)) in
      RunEnds-both IsQueued (IsCounted all_keys (produced_app app)) _
        (run_consumer-IsQueued config.anthropocene_flush_threshold config.track_minegeld zlib zstd
          lookup load all_keys (produced_app app) ends no_tombstone (start_lem app e) h)
        (run_consumer-counts config.anthropocene_flush_threshold config.track_minegeld zlib zstd
          lookup load ends all_keys (produced_app app) no_tombstone (start_lem app e))

  written_lem :
      (app a : App) (d : D) (m : MapBlockHashMap) (o : Option (Result (App × SqliteDb D)))
      → Behind app a
      → Wrote o (execute sqlite (transaction (block_rows a.block_queue m)) d)
      → RunEnds (SameStats sqlite a) o
      → IsPreserving config.preserve_radius m
      → RunEnds (IsFinished app) o
  written_lem app a d m none b w s r = w
  written_lem app a d m (some (throw e)) b w s r = s
  written_lem app a d m (some (ok (app', db'))) (h, c) w s r =
      let producer =
        (run_producer_lem list_blocks config.producer_batch_size config.min_pos config.max_pos
          app.stats.queued_map_blocks app.map_block_queue).2 in
      let rows : execute sqlite (transaction (block_rows (app.block_queue ++ c.written) m)) d
          ≡ ok db'.database =
        ap (λ queue. execute sqlite (transaction (block_rows queue m)) d) (sym c.block_queue)
        ∙ sym w in
      rw s (c.all, c.total ∙ producer, (d, c.written, m, rows, c.good, c.among, r))

  -- The flushes of the data writer leave the counters and the queue of blocks.
  kept :
      (app a a' : App)
      → IsQueued a'
      → a'.stats ≡ a.stats
      → a'.block_queue ≡ a.block_queue
      → Behind app a
      → Behind app a'
  kept app a a' q s b (h, c) = (q, IsCounted-Kept all_keys (produced_app app) a a' s b c)

  module _ (hr : config.preserve_radius ≤ℤ pos 30000) where
    stats_lem :
        (a : App) (db : SqliteDb D)
        → IsQueued a
        → RunEnds
            (SameStats sqlite a)
            (run_preserve sqlite config zlib zstd lookup list_blocks load a db)
    unfolding run_preserve apply_preserve_flags surrender_final_set
    stats_lem a db (covered, packed) = rw (merge_lem config.preserve_radius hr a packed) (
        Ends-flush_block_queue sqlite
          (apply_preserve_flags (merged_app config.preserve_radius hr a packed)) db)

    preserve_lem :
        (app a : App) (db : SqliteDb D)
        → Behind app a
        → IsReady db
        → RunEnds
            (IsFinished app)
            (run_preserve sqlite config zlib zstd lookup list_blocks load a db)
    preserve_lem app a db b ready =
        let (m, wrote, marks, preserving) =
          run_preserve-Wrote sqlite config zlib zstd lookup list_blocks load a db hr b.0 ready in
        written_lem app a db.database m _ b wrote (stats_lem a db b.0) preserving

    -- On one thread, from an empty queue of keys and a preserve queue that has every marked position, with
    -- a database that is ready, a radius of at most 30000, and a map whose LoadMapBlock throws no
    -- SerializationError, the phases of RunSerially end: they do not wait, and throw no SerializationError.
    -- Where they return, each key that the producer found has been counted as a good or as a bad block. The
    -- last transaction has written the blocks that were queued before, and one for each key that was
    -- counted as good, in their order, from a map of blocks in which every position within the radius of a
    -- marked one is preserved.
    pub run_phases-IsFinished :
        (app : App) (db : SqliteDb D)
        → ((p : Pos) → Ends Any (load p))
        → app.map_block_queue ≡ []
        → IsQueued app
        → IsReady db
        → RunEnds
            (IsFinished app)
            (run_phases sqlite config zlib zstd lookup list_blocks load app db)
    unfolding run_phases
    run_phases-IsFinished app db ends e h ready =
        RunEnds-bind_run (Behind app) (IsFinished app) _ _ (consumed_lem app ends e h) λ a b.
          RunEnds-bind_run (Holds (Behind app)) (IsFinished app)
            (some (flush_actor_id_map sqlite a db)) _
            (Ends-flush_actor_id_map sqlite (Behind app) a db b ready
              λ ids k. kept app a (record a { actor_ids = ids }) k.0 refl refl k)
            λ (a1, db1) (b1, r1).
              RunEnds-bind_run (Holds (Behind app)) (IsFinished app)
                (some (flush_node_id_map sqlite a1 db1)) _
                (Ends-flush_node_id_map sqlite (Behind app) a1 db1 b1 r1
                  λ ids k. kept app a1 (record a1 { node_ids = ids }) k.0 refl refl k)
                λ (a2, db2) (b2, r2).
                  RunEnds-bind_run (Holds (Behind app)) (IsFinished app)
                    (some (flush_node_queue sqlite a2 db2)) _
                    (Ends-flush_node_queue sqlite (Behind app) a2 db2 b2 r2
                      λ k. kept app a2 (record a2 { node_queue = [] }) k.0 refl refl k)
                    λ (a3, db3) (b3, r3). preserve_lem app a3 db3 b3 r3
