-- ===== src/App/DataWriter.antt =====
-- src/app/data_writer.cc: what is written of the actors, the names of nodes, and the nodes.
pub mod Columns
pub mod Flushes
pub mod Names
pub mod Ends
use minetest_map_analyzer.Prelude.{ℕ, List, [], ◌∷◌}
use minetest_map_analyzer.Prelude.Int.{ℤ, signed64}
use minetest_map_analyzer.Exceptions.{Result, ok, bind_result}
use minetest_map_analyzer.Pos.{Pos, node_pos_id}
use minetest_map_analyzer.Inventory.{Inventory, InventoryList}
use minetest_map_analyzer.IdMap
use minetest_map_analyzer.IdMap.{IdMap, IdMapItem, DirtyList, get_dirty}
use minetest_map_analyzer.Sqlite.{
  Sqlite, SqliteDb, Value, int, text, bool_value, write_actor, write_node, write_nodes,
  write_inventory, write_row, begin_transaction, commit_transaction,
}
use minetest_map_analyzer.App.NodeScan.{NodeIdMapExtraInfo, DataWriterNode}
use minetest_map_analyzer.App.State.{App}

-- The values of an actor.
abbrev pub actor_row : ℕ → List ℕ → List Value
actor_row id name = int (signed64 id) ∷ text name ∷ []

-- The values of the name of a node, with its item.
abbrev pub node_row : ℕ → List ℕ → IdMapItem NodeIdMapExtraInfo → List Value
node_row id name item = int (signed64 id) ∷ text name ∷ bool_value item.extra.anthropocene ∷ []

-- The values of a node.
abbrev pub nodes_row : DataWriterNode → List Value
nodes_row node =
    int (signed64 (node_pos_id node.pos))
    ∷ int node.pos.x
    ∷ int node.pos.y
    ∷ int node.pos.z
    ∷ int (signed64 node.owner_id)
    ∷ int (signed64 node.node_id)
    ∷ int (signed64 node.minegeld)
    ∷ []

-- The values of an item of an inventory.
abbrev pub inventory_row : ℕ → List ℕ → List ℕ → List Value
inventory_row pos_id list_name item = int (signed64 pos_id) ∷ text list_name ∷ text item ∷ []

module _ {D : Type 0} (sqlite : Sqlite D) where
  -- The loop of FlushActorIdMap
  unfoldable pub actor_loop : DirtyList → SqliteDb D → Result (SqliteDb D)
  actor_loop [] db = ok db
  actor_loop ((id, name) ∷ rest) db =
      bind_result (write_row sqlite write_actor (actor_row id name) db) λ db'. actor_loop rest db'

  unfoldable pub write_actors : DirtyList → SqliteDb D → Result (SqliteDb D)
  write_actors [] db = ok db
  write_actors (pair ∷ dirty_list) db = bind_result (begin_transaction sqlite db) λ begun.
      bind_result (actor_loop (pair ∷ dirty_list) begun)
        λ written. commit_transaction sqlite written

  -- DataWriter::FlushActorIdMap
  unfoldable pub flush_actor_id_map : App → SqliteDb D → Result (App × SqliteDb D)
  flush_actor_id_map app db = bind_result (get_dirty app.actor_ids) λ dirty.
      bind_result (write_actors dirty.0 db) λ db'. ok (record app { actor_ids = dirty.1 }, db')

  -- The loop of FlushNodeIdMap, which reads each item from the map again.
  unfoldable pub node_loop : IdMap NodeIdMapExtraInfo → DirtyList → SqliteDb D → Result (SqliteDb D)
  node_loop node_ids [] db = ok db
  node_loop node_ids ((id, name) ∷ rest) db = bind_result (IdMap.get node_ids id) λ item.
      bind_result (write_row sqlite write_node (node_row id name item) db)
        λ db'. node_loop node_ids rest db'

  unfoldable pub write_names :
      IdMap NodeIdMapExtraInfo → DirtyList → SqliteDb D → Result (SqliteDb D)
  write_names node_ids [] db = ok db
  write_names node_ids (pair ∷ dirty_list) db = bind_result (begin_transaction sqlite db) λ begun.
      bind_result (node_loop node_ids (pair ∷ dirty_list) begun)
        λ written. commit_transaction sqlite written

  -- DataWriter::FlushNodeIdMap
  unfoldable pub flush_node_id_map : App → SqliteDb D → Result (App × SqliteDb D)
  flush_node_id_map app db = bind_result (get_dirty app.node_ids) λ dirty.
      bind_result (write_names dirty.1 dirty.0 db)
        λ db'. ok (record app { node_ids = dirty.1 }, db')

  -- The loop over the items of a list: an item without text is passed over.
  unfoldable pub item_loop : ℕ → List ℕ → InventoryList → SqliteDb D → Result (SqliteDb D)
  item_loop pos_id list_name [] db = ok db
  item_loop pos_id list_name ([] ∷ items) db = item_loop pos_id list_name items db
  item_loop pos_id list_name ((c ∷ item) ∷ items) db =
      bind_result (write_row sqlite write_inventory (inventory_row pos_id list_name (c ∷ item)) db)
        λ db'. item_loop pos_id list_name items db'

  -- The loop over the lists of an inventory.
  unfoldable pub list_loop : ℕ → Inventory → SqliteDb D → Result (SqliteDb D)
  list_loop pos_id [] db = ok db
  list_loop pos_id ((list_name, items) ∷ lists) db =
      bind_result (item_loop pos_id list_name items db) λ db'. list_loop pos_id lists db'

  -- The loop of FlushNodeQueue
  unfoldable pub node_queue_loop : List DataWriterNode → SqliteDb D → Result (SqliteDb D)
  node_queue_loop [] db = ok db
  node_queue_loop (node ∷ queue) db =
      bind_result (write_row sqlite write_nodes (nodes_row node) db) λ db1.
        bind_result (list_loop (node_pos_id node.pos) node.inventory db1)
          λ db2. node_queue_loop queue db2

  unfoldable pub write_queue : List DataWriterNode → SqliteDb D → Result (SqliteDb D)
  write_queue [] db = ok db
  write_queue (node ∷ queue) db = bind_result (begin_transaction sqlite db) λ begun.
      bind_result (node_queue_loop (node ∷ queue) begun)
        λ written. commit_transaction sqlite written

  -- DataWriter::FlushNodeQueue
  unfoldable pub flush_node_queue : App → SqliteDb D → Result (App × SqliteDb D)
  flush_node_queue app db =
      bind_result (write_queue app.node_queue db) λ db'. ok (record app { node_queue = [] }, db')
