-- ===== src/App/Threaded.antt =====
-- App::RunThreaded of src/app/app.cc: the producer, the consumers, the merging thread and the main
-- thread, as steps in any order.
-- A call that holds a mutex is one step, and so is what one thread alone can reach; a wait is no step. The
-- rounds of the progress bar change nothing here. A flush that throws ends the program, and is no step.
pub mod Consuming
pub mod Views
pub mod Fed
pub mod Orderly
pub mod Steps
pub mod Covered
pub mod Ending
pub mod Progress
pub mod Serial
use minetest_map_analyzer.Prelude.{
  ℕ, ◌<◌, ◌≡◌, Bool, true, false, not, Option, List, [], ◌∷◌, if◌then◌else◌,
}
use minetest_map_analyzer.Prelude.Families.{update}
use minetest_map_analyzer.Prelude.Int.{ℤ}
use minetest_map_analyzer.Exceptions.{Result, ok}
use minetest_map_analyzer.Pos.{Pos, inside, map_block_id, map_block_pos}
use minetest_map_analyzer.Sqlite.{Sqlite, SqliteDb}
use minetest_map_analyzer.App.BlockQueue.{Queue, is_tombstone, enqueue, set_tombstone}
use minetest_map_analyzer.App.Preserve.{do_merge}
use minetest_map_analyzer.App.NodeScan.{NodeIdMapExtraInfo}
use minetest_map_analyzer.App.Config.{Config}
use minetest_map_analyzer.App.State.{App}
use minetest_map_analyzer.App.Producer.{Producing, callback}
use minetest_map_analyzer.App.DataWriter.{flush_actor_id_map, flush_node_id_map, flush_node_queue}
use minetest_map_analyzer.App.BlockWriter.{flush_block_queue}
use minetest_map_analyzer.App.Run.{apply_preserve_flags, set_preserve_tombstone, with_producing}
use minetest_map_analyzer.App.Threaded.Consuming.{Local, Phase, new_local, Move}

-- MapBlockQueue::idle_wait, where it returns: true where the time is up, and false before a tombstone.
unfoldable pub idle_wait : Queue → Bool
idle_wait [] = true
idle_wait (key ∷ rest) = not (is_tombstone key)

-- Where the merging thread stands: before the queue, with a packet, or at its end.
pub data Merging : Type 0 where
  waiting : Merging
  merging : (packet : List Pos) → Merging
  merged : Merging

-- Where the main thread stands.
pub data Main : Type 0 where
  watching : Main  -- the progress bar
  joining : Main  -- the joins of the producer and the consumers
  flushing_actors flushing_nodes flushing_queue : Main  -- the flushes of the data writer
  joining_merger : Main
  flushing_blocks : Main
  finished : Main

-- The App and the databases of its writers, which are written one after the other; the producer: the rows
-- that it has yet to see, its locals, and whether it has set the tombstone; the consumers, by their number,
-- the merging thread and the main thread.
pub record Threaded (D : Type 0) : Type 0 where
  pub app : App
  pub db : SqliteDb D
  pub rows : List ℤ
  pub count : ℕ
  pub keys : List ℤ
  pub produced : Bool
  pub local : ℕ → Local
  pub merger : Merging
  pub main : Main

-- The producer's locals, with what it changes of the App.
abbrev pub producing : {D : Type 0} → Threaded D → Producing
producing s = record {
  count = s.count;
  queued_map_blocks = s.app.stats.queued_map_blocks;
  keys = s.keys;
  map_block_queue = s.app.map_block_queue;
}

module _ {D : Type 0} (sqlite : Sqlite D) (config : Config) (lookup : List ℕ → NodeIdMapExtraInfo)
    (load : Pos → Result (Option (List ℕ))) where
  -- One row of ProduceMapBlocks.
  unfoldable pub produce_row : ℤ → Producing → Producing
  produce_row id s =
      if inside (map_block_pos id) config.min_pos config.max_pos
      then (callback config.producer_batch_size (map_block_pos id) s).1
      else s

  -- One step of one of the threads, with `n` consumers.
  pub data Step (n : ℕ) (s : Threaded D) : Threaded D → Type 0 where
    row :
        (id : ℤ) (rest : List ℤ)
        → s.rows ≡ id ∷ rest
        → Step n s (record s {
          app = with_producing (produce_row id (producing s)) s.app;
          rows = rest;
          count = (produce_row id (producing s)).count;
          keys = (produce_row id (producing s)).keys;
        })
    last_batch :
        (key : ℤ) (keys : List ℤ)
        → s.rows ≡ []
        → s.keys ≡ key ∷ keys
        → Step n s (record s {
          app = record s.app { map_block_queue = enqueue (key ∷ keys) s.app.map_block_queue };
          keys = [];
        })
    end_keys :
        s.rows ≡ []
        → s.keys ≡ []
        → s.produced ≡ false
        → Step n s (record s {
          app = record s.app { map_block_queue = set_tombstone s.app.map_block_queue };
          produced = true;
        })
    consume :
        (i : ℕ) (app : App) (l : Local)
        → i < n
        → Move config.anthropocene_flush_threshold lookup load s.app (s.local i) app l
        → Step n s (record s { app = app; local = update s.local i l })
    take_packet :
        (p : Pos) (positions : List Pos) (packets : List (List Pos))
        → s.merger ≡ Merging.waiting
        → s.app.preserve_queue.merge_queue ≡ (p ∷ positions) ∷ packets
        → Step n s (record s {
          app = record s.app {
            preserve_queue = record s.app.preserve_queue { merge_queue = packets };
          };
          merger = Merging.merging (p ∷ positions);
        })
    merge_packet :
        (packet : List Pos)
        → s.merger ≡ Merging.merging packet
        → Step n s (record s {
          app = record s.app {
            preserve_queue = record s.app.preserve_queue {
              final_queue = do_merge config.preserve_radius packet s.app.preserve_queue.final_queue;
            };
          };
          merger = Merging.waiting;
        })
    end_merge :
        (packets : List (List Pos))
        → s.merger ≡ Merging.waiting
        → s.app.preserve_queue.merge_queue ≡ [] ∷ packets
        → Step n s (record s { merger = Merging.merged })
    watched :
        s.main ≡ Main.watching
        → idle_wait s.app.map_block_queue ≡ false
        → Step n s (record s { main = Main.joining })
    joined :
        s.main ≡ Main.joining
        → s.produced ≡ true
        → ((i : ℕ) → i < n → (s.local i).phase ≡ Phase.gone)
        → Step n s (record s { app = set_preserve_tombstone s.app; main = Main.flushing_actors })
    flushed_actors :
        (app : App) (db : SqliteDb D)
        → s.main ≡ Main.flushing_actors
        → flush_actor_id_map sqlite s.app s.db ≡ ok (app, db)
        → Step n s (record s { app = app; db = db; main = Main.flushing_nodes })
    flushed_nodes :
        (app : App) (db : SqliteDb D)
        → s.main ≡ Main.flushing_nodes
        → flush_node_id_map sqlite s.app s.db ≡ ok (app, db)
        → Step n s (record s { app = app; db = db; main = Main.flushing_queue })
    flushed_queue :
        (app : App) (db : SqliteDb D)
        → s.main ≡ Main.flushing_queue
        → flush_node_queue sqlite s.app s.db ≡ ok (app, db)
        → Step n s (record s { app = app; db = db; main = Main.joining_merger })
    joined_merger :
        s.main ≡ Main.joining_merger
        → s.merger ≡ Merging.merged
        → Step n s (record s { app = apply_preserve_flags s.app; main = Main.flushing_blocks })
    flushed_blocks :
        (app : App) (db : SqliteDb D)
        → s.main ≡ Main.flushing_blocks
        → flush_block_queue sqlite s.app s.db ≡ ok (app, db)
        → Step n s (record s { app = app; db = db; main = Main.finished })

  -- App::RunThreaded, before its first step, on the rows that the statement returns.
  abbrev pub start : (ℤ → ℤ → List ℤ) → App → SqliteDb D → Threaded D
  start list_blocks app db = record {
    app = app;
    db = db;
    rows = list_blocks (map_block_id config.min_pos) (map_block_id config.max_pos);
    count = 0;
    keys = [];
    produced = false;
    local = λ i. new_local;
    merger = Merging.waiting;
    main = Main.watching;
  }

  -- What a run of RunThreaded can come to.
  pub data Reach (n : ℕ) (first : Threaded D) : Threaded D → Type 0 where
    here : Reach n first first
    later : {s t : Threaded D} → Reach n first s → Step n s t → Reach n first t
