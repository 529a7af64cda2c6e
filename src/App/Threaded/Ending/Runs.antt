-- ===== src/App/Threaded/Ending/Runs.antt =====
-- App::RunThreaded of src/app/app.cc: what every run has written at its end.
use minetest_map_analyzer.Prelude.{ℕ, ◌+◌, ◌<◌, ◌≡◌, refl, ap, sym, ◌∙◌, Option, List, length}
use minetest_map_analyzer.Prelude.Int.{ℤ, pos, ◌≤ℤ◌}
use minetest_map_analyzer.Exceptions.{Result, ok, bind_result}
use minetest_map_analyzer.Pos.{Pos}
use minetest_map_analyzer.Sqlite.{Sqlite, SqliteDb}
use minetest_map_analyzer.Sqlite.Bound.{IsReady}
use minetest_map_analyzer.App.NodeScan.{NodeIdMapExtraInfo}
use minetest_map_analyzer.App.Config.{Config}
use minetest_map_analyzer.App.State.{App}
use minetest_map_analyzer.App.BlockWriter.{flush_block_queue}
use minetest_map_analyzer.App.BlockWriter.Blocks.{flush_block_queue-execute}
use minetest_map_analyzer.App.Threaded.{Threaded, Main, Step, Reach, start}
use minetest_map_analyzer.App.Threaded.Views.{flush_block_queue-IsWritten}
use minetest_map_analyzer.App.Threaded.Steps.{has_joined, filled, gone-Move}
use minetest_map_analyzer.App.Threaded.Steps.Kept.{Orderly, before}
use minetest_map_analyzer.App.Threaded.Steps.Runs.{Step-Orderly}
use minetest_map_analyzer.App.Threaded.Covered.Kept.{IsSafe}
use minetest_map_analyzer.App.Threaded.Covered.Runs.{Reach-Safe}
use minetest_map_analyzer.App.Threaded.Ending.{
  IsFresh, HasWritten, all_rows, start-Orderly, start-Safe, settled, pushed_lem, preserving,
}

module _ {D : Type 0} (sqlite : Sqlite D) (config : Config) (lookup : List ℕ → NodeIdMapExtraInfo)
    (load : Pos → Result (Option (List ℕ))) (n : ℕ) (some_consumer : 0 < n)
    (hr : config.preserve_radius ≤ℤ pos 30000) where
  module _ (all : ℕ) where
    -- What has been written, once the main thread is at its end.
    abbrev Written : Threaded D → Type 0
    Written s =
        s.main ≡ Main.finished
        → HasWritten sqlite config.preserve_radius s.app.stats.good_map_blocks s.db

    flushed-Written :
        (s : Threaded D) (app : App) (db : SqliteDb D)
        → s.main ≡ Main.flushing_blocks
        → flush_block_queue sqlite s.app s.db ≡ ok (app, db)
        → Orderly sqlite config lookup load n all s
        → IsSafe config.preserve_radius s
        → HasWritten sqlite config.preserve_radius app.stats.good_map_blocks db
    flushed-Written s app db e f o h =
        let ready = (before sqlite config lookup load n all s e refl o.unwritten).1 in
        let w = flush_block_queue-IsWritten sqlite s.app s.db app db f in
        (
          s.db.database,
          s.app.block_queue,
          s.app.block_data,
          sym (flush_block_queue-execute sqlite s.app s.db ready)
              ∙ ap (λ r. bind_result r λ v. ok v.1.database) f,
          pushed_lem sqlite config lookup load n some_consumer hr all s e o
              ∙ ap (λ v. v.good_map_blocks) (sym w.stats),
          preserving sqlite config lookup load n some_consumer hr all s e o h,
        )

    Step-Written :
        (s t : Threaded D)
        → Step sqlite config lookup load n s t
        → Orderly sqlite config lookup load n all s
        → IsSafe config.preserve_radius s
        → Written s
        → Written t
    Step-Written s t (Step.row id rest e) o h w =
        λ f. absurd (filled (sym e ∙ (o.at_end (o.joined (ap has_joined f)).0).0))
    Step-Written s t (Step.last_batch key keys e k) o h w = w
    Step-Written s t (Step.end_keys e k more) o h w = w
    Step-Written s t (Step.consume i app l lt move) o h w = λ f. absurd (
        gone-Move config.anthropocene_flush_threshold lookup load s.app app (s.local i) l move
          ((o.joined (ap has_joined f)).1 i lt))
    Step-Written s t (Step.take_packet p positions packets e q) o h w = w
    Step-Written s t (Step.merge_packet packet e) o h w = w
    Step-Written s t (Step.end_merge packets e q) o h w = w
    Step-Written s t (Step.watched e v) o h w = λ f. cc
    Step-Written s t (Step.joined e ended gone) o h w = λ f. cc
    Step-Written s t (Step.flushed_actors app db e g) o h w = λ f. cc
    Step-Written s t (Step.flushed_nodes app db e g) o h w = λ f. cc
    Step-Written s t (Step.flushed_queue app db e g) o h w = λ f. cc
    Step-Written s t (Step.joined_merger e m) o h w = λ f. cc
    Step-Written s t (Step.flushed_blocks app db e g) o h w = λ f. flushed-Written s app db e g o h

    Reach-Written :
        (first s : Threaded D)
        → Reach sqlite config lookup load n first s
        → Orderly sqlite config lookup load n all first
        → IsSafe config.preserve_radius first
        → Written first
        → Orderly sqlite config lookup load n all s × Written s
    Reach-Written first s Reach.here o h w = (o, w)
    Reach-Written first t (Reach.later {s} run step) o h w =
        let (o', w') = Reach-Written first s run o h w in
        let (_, h') = Reach-Safe sqlite config lookup load n all hr first s run o h in
        (Step-Orderly sqlite config lookup load n all s t step o', Step-Written s t step o' h' w')

  -- Whatever the order of the steps of the producer, the consumers, of which there is one at least, the merging
  -- thread and the main thread, and whatever the outcome of each block, with a radius of at most 30000, from an
  -- App that has not begun and a database that is ready: where RunThreaded has ended, the number of queued
  -- blocks has grown by that of the rows inside the box, and the good and the bad blocks add up to it. The last
  -- transaction has written as many rows as there are good blocks, from a map of blocks in which every
  -- position within the radius of a marked one is preserved.
  pub run_threaded-HasWritten :
      (list_blocks : ℤ → ℤ → List ℤ) (app : App) (db : SqliteDb D) (s : Threaded D)
      → IsFresh app
      → IsReady db
      → Reach sqlite config lookup load n (start sqlite config lookup load list_blocks app db) s
      → s.main ≡ Main.finished
      → (s.app.stats.good_map_blocks + s.app.stats.bad_map_blocks
          ≡ app.stats.queued_map_blocks + length (all_rows config list_blocks))
        × (s.app.stats.queued_map_blocks
            ≡ app.stats.queued_map_blocks + length (all_rows config list_blocks))
        × HasWritten sqlite config.preserve_radius s.app.stats.good_map_blocks s.db
  run_threaded-HasWritten list_blocks app db s f ready run e =
      let all = app.stats.queued_map_blocks + length (all_rows config list_blocks) in
      let o = start-Orderly sqlite config lookup load n list_blocks app db all refl f ready in
      let (o', w) =
        Reach-Written all (start sqlite config lookup load list_blocks app db) s run o
          (start-Safe sqlite config lookup load n list_blocks app db f) (λ g. cc) in
      let (counted, queued) =
        settled sqlite config lookup load n some_consumer hr all s (ap has_joined e) o' in
      (counted, queued, w e)
