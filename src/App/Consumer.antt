-- ===== src/App/Consumer.antt =====
-- src/app/consumer.cc: the thread that analyses blocks, while no other thread runs beside it.
-- The map's database, zlib and zstd are parameters. `none` is a wait for a key that never ends.
pub mod Steps
pub mod Recorded
pub mod Ending
pub mod Counts
pub mod Packed
pub mod Marked
use minetest_map_analyzer.Prelude.{
  ℕ, suc, ◌+◌, ◌%◌, ◌^◌, Bool, true, false, Option, none, some, List, [], ◌∷◌, ◌++◌, length,
  get_elem?, ltb, ◌==◌, if◌then◌else◌,
}
use minetest_map_analyzer.Prelude.Int.{ℤ}
use minetest_map_analyzer.Exceptions.{
  Exception, Result, ok, throw, serialization, out_of_range, sqlite3_error, undefined, out_of_fuel,
  bind_result, or_undefined,
}
use minetest_map_analyzer.Blob.{BlobReader, reader}
use minetest_map_analyzer.Compression.{Zlib, Zstd}
use minetest_map_analyzer.Pos.{Pos, map_block_pos}
use minetest_map_analyzer.IdMap.Local
use minetest_map_analyzer.IdMap.Local.{ThreadLocalIdMap, Caches, new_cache}
use minetest_map_analyzer.MapBlock.{MapBlock, nodes_per_block}
use minetest_map_analyzer.MapBlock.Formats.{deserialize}
use minetest_map_analyzer.App.BlockQueue.{Queue, is_tombstone}
use minetest_map_analyzer.App.BlockData.{MapBlockData, modify_data}
use minetest_map_analyzer.App.Preserve
use minetest_map_analyzer.App.NodeScan.{
  NodeIdMapExtraInfo, ActorIdMapExtraInfo, DataWriterNode, Scan, scan_loop,
}
use minetest_map_analyzer.App.State.{App, enqueue_nodes, enqueue_map_block_pos}

-- The locals of RunConsumer, with the App.
pub record Work : Type 0 where
  pub app : App
  pub node_id_cache : ThreadLocalIdMap
  pub actor_id_cache : ThreadLocalIdMap
  pub anthropocene_list : List Pos

-- The locals as RunConsumer starts with them.
abbrev pub new_work : App → Work
new_work app = record {
  app = app;
  node_id_cache = new_cache;
  actor_id_cache = new_cache;
  anthropocene_list = [];
}

abbrev pub with_app : (App → App) → Work → Work
with_app f w = record w { app = f w.app }

abbrev pub count_good : App → App
count_good app = record app {
  stats = record app.stats { good_map_blocks = app.stats.good_map_blocks + 1 };
}

abbrev pub count_bad : App → App
count_bad app = record app {
  stats = record app.stats { bad_map_blocks = app.stats.bad_map_blocks + 1 };
}

abbrev pub node_caches : Work → Caches NodeIdMapExtraInfo
node_caches w = (w.node_id_cache, w.app.node_ids)

abbrev pub with_nodes : Caches NodeIdMapExtraInfo → Work → Work
with_nodes (cache, shared) w = record w {
  node_id_cache = cache;
  app = record w.app { node_ids = shared };
}

abbrev pub with_actors : Caches ActorIdMapExtraInfo → Work → Work
with_actors (cache, shared) w = record w {
  actor_id_cache = cache;
  app = record w.app { actor_ids = shared };
}

-- The locals of the loop over the nodes, before its first round.
abbrev pub new_scan : Work → Scan
new_scan w = record {
  actors = (w.actor_id_cache, w.app.actor_ids);
  node_queue = [];
  anthropocene = false;
}

-- `if (!node_queue.empty()) data_writer_.EnqueueNodes(node_queue)`
abbrev pub enqueue_some : List DataWriterNode → App → App
enqueue_some [] app = app
enqueue_some (node ∷ nodes) app = enqueue_nodes (node ∷ nodes) app

-- The number of the nodes if there is one number only, and 0 otherwise.
abbrev pub uniform_of : MapBlock → Result ℕ
uniform_of mb =
    if length mb.param0_map == 1
    then (bind_result (or_undefined (get_elem? mb.nodes 0)) λ node. ok node.param_0)
    else ok 0

-- The write of the block's data, in which uniform is a uint16_t.
unfoldable pub set_data : ℕ → Bool → MapBlockData → MapBlockData
set_data uniform anthropocene d = record d {
  uniform = uniform % 2 ^ 16;
  anthropocene = anthropocene;
}

-- What the App keeps of a block.
unfoldable pub store_block : Pos → ℕ → List DataWriterNode → Bool → App → App
store_block p uniform nodes anthropocene app =
    enqueue_map_block_pos p (record (enqueue_some nodes app) {
      block_data = modify_data p (set_data uniform anthropocene) app.block_data;
    })

unfoldable pub enqueue_preserve : List Pos → App → App
enqueue_preserve positions app = record app {
  preserve_queue = Preserve.enqueue positions app.preserve_queue;
}

-- `if (!anthropocene_list.empty()) preserve_queue_.Enqueue(anthropocene_list)`, behind the loop.
unfoldable pub flush_rest : List Pos → App → App
flush_rest [] app = app
flush_rest (p ∷ positions) app = enqueue_preserve (p ∷ positions) app

module _ (anthropocene_flush_threshold : ℕ) where
  -- A list that has grown past the threshold goes to the queue.
  unfoldable pub flush_list : Work → Work
  flush_list w =
      if ltb anthropocene_flush_threshold (length w.anthropocene_list)
      then record w { app = enqueue_preserve w.anthropocene_list w.app; anthropocene_list = [] }
      else w

  unfoldable pub note_anthropocene : Bool → Pos → Work → Work
  note_anthropocene true p w =
      flush_list (record w { anthropocene_list = w.anthropocene_list ++ p ∷ [] })
  note_anthropocene false p w = w

  -- The rest of a round, behind the loop over the nodes.
  unfoldable pub record_block : Pos → ℕ → Scan → Work → Work
  record_block p uniform s w =
      note_anthropocene s.anthropocene p
        (with_app (store_block p uniform s.node_queue s.anthropocene) (with_actors s.actors w))

  module _ (track_minegeld : Bool) where
    -- The part of a round behind `deserialize`.
    unfoldable pub consume_block : Pos → MapBlock → Work → Result Work
    consume_block p mb w =
        bind_result
          (scan_loop track_minegeld (node_caches w) p nodes_per_block 0 mb.nodes (new_scan w))
          λ s. bind_result (uniform_of mb) λ uniform. ok (record_block p uniform s w)

    -- The catch clause is that of a SerializationError alone.
    unfoldable pub caught : Exception → Work → Result Work
    caught (serialization e) w = ok (with_app count_bad w)
    caught out_of_range w = throw out_of_range
    caught sqlite3_error w = throw sqlite3_error
    caught undefined w = throw undefined
    caught out_of_fuel w = throw out_of_fuel

    unfoldable pub consume_parsed :
        Pos → Result (MapBlock × BlobReader) × Caches NodeIdMapExtraInfo → Work → Result Work
    consume_parsed p (ok (mb, rest), caches) w =
        consume_block p mb (with_app count_good (with_nodes caches w))
    consume_parsed p (throw e, caches) w = caught e (with_nodes caches w)

    module _ (zlib : Zlib) (zstd : Zstd) (lookup : List ℕ → NodeIdMapExtraInfo)
        (load : Pos → Result (Option (List ℕ))) where
      -- MapBlock::deserialize, with the callback of `node_ids_`.
      unfoldable pub parse_block :
          List ℕ → Work → Result (MapBlock × BlobReader) × Caches NodeIdMapExtraInfo
      parse_block bytes w =
          deserialize zlib zstd (Local.add (some lookup) (record { anthropocene = false }))
            (reader bytes) (node_caches w)

      unfoldable pub consume_raw : Pos → Option (List ℕ) → Work → Result Work
      consume_raw p none w = ok (with_app count_bad w)
      consume_raw p (some bytes) w = consume_parsed p (parse_block bytes w) w

      -- A round of the loop, for a key that is not the tombstone.
      unfoldable pub consume_key : ℤ → Work → Result Work
      consume_key key w =
          bind_result (load (map_block_pos key)) λ raw. consume_raw (map_block_pos key) raw w

      abbrev and_then :
          Result Work → (Work → Option (Result (Queue × Work))) → Option (Result (Queue × Work))
      and_then (ok w) loop = loop w
      and_then (throw e) loop = some (throw e)

      -- The loop, with the queue that Pop leaves: the tombstone stays in it.
      unfoldable pub consume_loop : Queue → Work → Option (Result (Queue × Work))
      consume_loop [] w = none
      consume_loop (key ∷ rest) w =
          if is_tombstone key
          then some (ok (key ∷ rest, w))
          else (and_then (consume_key key w) λ w'. consume_loop rest w')

      abbrev pub consumer_end : Result (Queue × Work) → Result App
      consumer_end (ok (queue, w)) =
          ok (flush_rest w.anthropocene_list (record w.app { map_block_queue = queue }))
      consumer_end (throw e) = throw e

      abbrev pub run_finished : Option (Result (Queue × Work)) → Option (Result App)
      run_finished none = none
      run_finished (some result) = some (consumer_end result)

      -- App::RunConsumer
      unfoldable pub run_consumer : App → Option (Result App)
      run_consumer app = run_finished (consume_loop app.map_block_queue (new_work app))
