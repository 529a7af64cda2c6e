-- ===== src/App/State.antt =====
-- src/app/app.h, with the members of src/app/data_writer.h, mapblock_writer.h and stats.h that hold work:
-- the state that the threads share.
-- The times and the peak of the memory are left out, and so are the databases, which the functions that
-- write to them take beside this state.
use minetest_map_analyzer.Prelude.{ℕ, List, [], ◌∷◌, ◌++◌}
use minetest_map_analyzer.Pos.{Pos}
use minetest_map_analyzer.Pos.Hash.{map_block_key}
use minetest_map_analyzer.HashMap
use minetest_map_analyzer.IdMap
use minetest_map_analyzer.IdMap.{IdMap}
use minetest_map_analyzer.App.BlockQueue.{Queue}
use minetest_map_analyzer.App.BlockData.{MapBlockHashMap, new_data}
use minetest_map_analyzer.App.Preserve.{PreserveQueue}
use minetest_map_analyzer.App.NodeScan.{NodeIdMapExtraInfo, ActorIdMapExtraInfo, DataWriterNode}

-- The counters of RuntimeStats. They are uint64_t, and are taken not to reach 2 ^ 64.
pub record RuntimeStats : Type 0 where
  pub queued_map_blocks : ℕ
  pub good_map_blocks : ℕ
  pub bad_map_blocks : ℕ

-- App. `node_queue` is that of the DataWriter, and `block_queue` that of the MapBlockWriter.
pub record App : Type 0 where
  pub actor_ids : IdMap ActorIdMapExtraInfo
  pub node_ids : IdMap NodeIdMapExtraInfo
  pub block_data : MapBlockHashMap
  pub preserve_queue : PreserveQueue
  pub node_queue : List DataWriterNode
  pub block_queue : List Pos
  pub map_block_queue : Queue
  pub stats : RuntimeStats

-- App::App
abbrev pub new_app : App
new_app = record {
  actor_ids = IdMap.empty;
  node_ids = IdMap.empty;
  block_data = HashMap.new_map map_block_key new_data;
  preserve_queue = record { merge_queue = []; final_queue = [] };
  node_queue = [];
  block_queue = [];
  map_block_queue = [];
  stats = record { queued_map_blocks = 0; good_map_blocks = 0; bad_map_blocks = 0 };
}

-- The loop of DataWriter::EnqueueNodes
unfoldable pub push_nodes : List DataWriterNode → List DataWriterNode → List DataWriterNode
push_nodes [] queue = queue
push_nodes (node ∷ nodes) queue = push_nodes nodes (queue ++ node ∷ [])

-- DataWriter::EnqueueNodes
unfoldable pub enqueue_nodes : List DataWriterNode → App → App
enqueue_nodes nodes app = record app { node_queue = push_nodes nodes app.node_queue }

-- MapBlockWriter::EnqueueMapBlockPos
unfoldable pub enqueue_map_block_pos : Pos → App → App
enqueue_map_block_pos p app = record app { block_queue = app.block_queue ++ p ∷ [] }
