-- ===== src/App/Run.antt =====
-- src/app/app.cc: the phases of the program, on one thread.
-- The two connections to the output file are one database here, since they are used one after the other.
-- `none` is a wait that never ends. An Sqlite3Error leaves no state behind.
pub mod Preserved
pub mod Written
pub mod Runs
pub mod Phases
pub mod Serially
use minetest_map_analyzer.Prelude.{ℕ, Bool, true, false, Option, none, some, List, [], ◌∷◌}
use minetest_map_analyzer.Prelude.Int.{ℤ}
use minetest_map_analyzer.Exceptions.{
  Exception, Result, ok, throw, serialization, out_of_range, sqlite3_error, undefined, out_of_fuel,
}
use minetest_map_analyzer.Minegeld.{codes}
use minetest_map_analyzer.Compression.{Zlib, Zstd}
use minetest_map_analyzer.Pos.{Pos}
use minetest_map_analyzer.IdMap
use minetest_map_analyzer.NameFilter.{Regex, NameFilter, search_name}
use minetest_map_analyzer.Sqlite.{Sqlite, SqliteDb}
use minetest_map_analyzer.App.BlockData.{MapBlockData, MapBlockHashMap, modify_data}
use minetest_map_analyzer.App.Preserve
use minetest_map_analyzer.App.Preserve.{PosSet, PreserveQueue, merge_thread, surrender_final_set}
use minetest_map_analyzer.App.NodeScan.{NodeIdMapExtraInfo}
use minetest_map_analyzer.App.Config.{Config}
use minetest_map_analyzer.App.State.{App}
use minetest_map_analyzer.App.Producer.{Producing, run_producer}
use minetest_map_analyzer.App.Consumer.{run_consumer}
use minetest_map_analyzer.App.DataWriter.{flush_actor_id_map, flush_node_id_map, flush_node_queue}
use minetest_map_analyzer.App.BlockWriter.{flush_block_queue}

-- App::LookupNodeExtraInfo
unfoldable pub lookup_node_extra_info :
    (regex : Regex) → NameFilter regex → List ℕ → NodeIdMapExtraInfo
lookup_node_extra_info regex node_filter name = record {
  anthropocene = search_name regex node_filter name;
}

module _ (lookup : List ℕ → NodeIdMapExtraInfo) where
  abbrev pub add_node : List ℕ → App → App
  add_node name app = record app {
    node_ids = (IdMap.add (some lookup) (record { anthropocene = false }) app.node_ids name).1;
  }

  abbrev pub add_actor : List ℕ → App → App
  add_actor name app = record app {
    actor_ids = (IdMap.add none (record { unused = false }) app.actor_ids name).1;
  }

  -- App::PreregisterContentIds
  unfoldable pub preregister_content_ids : App → App
  preregister_content_ids app =
      add_actor [] (add_node (codes "air") (add_node (codes "ignore") (add_node [] app)))

abbrev pub set_preserve : MapBlockData → MapBlockData
set_preserve d = record d { preserve = true }

-- The loop of ApplyPreserveFlags
unfoldable pub flag_loop : PosSet → MapBlockHashMap → MapBlockHashMap
flag_loop [] m = m
flag_loop (p ∷ set) m = flag_loop set (modify_data p set_preserve m)

-- App::ApplyPreserveFlags
unfoldable pub apply_preserve_flags : App → App
apply_preserve_flags app =
    let (set, preserve_queue) = surrender_final_set app.preserve_queue in
    record app { preserve_queue = preserve_queue; block_data = flag_loop set app.block_data }

-- `preserve_queue_.SetTombstone()`
abbrev pub set_preserve_tombstone : App → App
set_preserve_tombstone app = record app {
  preserve_queue = Preserve.set_tombstone app.preserve_queue;
}

abbrev with_preserve_queue : App → Option PreserveQueue → Option App
with_preserve_queue app none = none
with_preserve_queue app (some q) = some (record app { preserve_queue = q })

-- `preserve_queue_.MergeThread()`
unfoldable pub merge : ℤ → App → Option App
merge preserve_radius app =
    with_preserve_queue app
      (merge_thread preserve_radius app.preserve_queue.merge_queue app.preserve_queue.final_queue)

-- What RunProducer changes of the App.
abbrev pub with_producing : Producing → App → App
with_producing s app = record app {
  map_block_queue = s.map_block_queue;
  stats = record app.stats { queued_map_blocks = s.queued_map_blocks };
}

-- A phase that may wait, or throw.
abbrev pub bind_run {ℓ κ} :
    {A : Type ℓ} {B : Type κ} → Option (Result A) → (A → Option (Result B)) → Option (Result B)
bind_run none f = none
bind_run (some (ok a)) f = f a
bind_run (some (throw e)) f = some (throw e)

abbrev pub merged_run {ℓ} : {A : Type ℓ} → Option A → Option (Result A)
merged_run none = none
merged_run (some a) = some (ok a)

module _ {D : Type 0} (sqlite : Sqlite D) (config : Config) (zlib : Zlib) (zstd : Zstd)
    (lookup : List ℕ → NodeIdMapExtraInfo) (list_blocks : ℤ → ℤ → List ℤ)
    (load : Pos → Result (Option (List ℕ))) where
  -- The part of RunSerially from SetTombstone on.
  unfoldable pub run_preserve : App → SqliteDb D → Option (Result (App × SqliteDb D))
  run_preserve app db =
      bind_run (merged_run (merge config.preserve_radius (set_preserve_tombstone app)))
        λ merged. some (flush_block_queue sqlite (apply_preserve_flags merged) db)

  -- The body of the try block of RunSerially.
  unfoldable pub run_phases : App → SqliteDb D → Option (Result (App × SqliteDb D))
  run_phases app db =
      bind_run
        (run_consumer config.anthropocene_flush_threshold config.track_minegeld zlib zstd lookup
          load
          (with_producing
            (run_producer list_blocks config.producer_batch_size config.min_pos config.max_pos
              app.stats.queued_map_blocks app.map_block_queue)
            app))
        λ consumed. bind_run (some (flush_actor_id_map sqlite consumed db)) λ s1.
          bind_run (some (flush_node_id_map sqlite s1.0 s1.1))
            λ s2. bind_run (some (flush_node_queue sqlite s2.0 s2.1)) λ s3. run_preserve s3.0 s3.1

  -- The catch clause of RunSerially: an Sqlite3Error is logged, and `none` stands for it.
  abbrev pub catch_sqlite3_error {ℓ} : {A : Type ℓ} → Result A → Result (Option A)
  catch_sqlite3_error (ok a) = ok (some a)
  catch_sqlite3_error (throw (serialization e)) = throw (serialization e)
  catch_sqlite3_error (throw out_of_range) = throw out_of_range
  catch_sqlite3_error (throw sqlite3_error) = ok none
  catch_sqlite3_error (throw undefined) = throw undefined
  catch_sqlite3_error (throw out_of_fuel) = throw out_of_fuel

  abbrev pub caught_run {ℓ} : {A : Type ℓ} → Option (Result A) → Option (Result (Option A))
  caught_run none = none
  caught_run (some result) = some (catch_sqlite3_error result)

  -- App::RunSerially
  unfoldable pub run_serially : App → SqliteDb D → Option (Result (Option (App × SqliteDb D)))
  run_serially app db = caught_run (run_phases app db)
