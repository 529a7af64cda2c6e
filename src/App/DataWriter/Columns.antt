-- ===== src/App/DataWriter/Columns.antt =====
-- The columns of the tables `nodes` and `inventory` of src/app/schema/schema-data.sql, in the order of the
-- parameters of kSqlWriteNodes and kSqlWriteInventory of src/app/data_writer.cc.
use minetest_map_analyzer.Prelude.{ℕ, List, [], ◌∷◌}
use minetest_map_analyzer.Prelude.Int.{signed64}
use minetest_map_analyzer.Pos.{node_pos_id}
use minetest_map_analyzer.Sqlite.{Value, int, text}
use minetest_map_analyzer.App.NodeScan.{DataWriterNode}

pub data NodesColumn : Type 0 where
  pos_id node_x node_y node_z owner_id node_id minegeld : NodesColumn

-- What each column of `nodes` is for.
abbrev pub nodes_value : DataWriterNode → NodesColumn → Value
nodes_value node NodesColumn.pos_id = int (signed64 (node_pos_id node.pos))
nodes_value node NodesColumn.node_x = int node.pos.x
nodes_value node NodesColumn.node_y = int node.pos.y
nodes_value node NodesColumn.node_z = int node.pos.z
nodes_value node NodesColumn.owner_id = int (signed64 node.owner_id)
nodes_value node NodesColumn.node_id = int (signed64 node.node_id)
nodes_value node NodesColumn.minegeld = int (signed64 node.minegeld)

abbrev pub nodes_columns : List NodesColumn
nodes_columns =
    NodesColumn.pos_id ∷ NodesColumn.node_x ∷ NodesColumn.node_y ∷ NodesColumn.node_z
    ∷ NodesColumn.owner_id ∷ NodesColumn.node_id ∷ NodesColumn.minegeld ∷ []

pub data InventoryColumn : Type 0 where
  pos_id type_name item_string : InventoryColumn

-- What each column of `inventory` is for.
abbrev pub inventory_value : ℕ → List ℕ → List ℕ → InventoryColumn → Value
inventory_value id list_name item InventoryColumn.pos_id = int (signed64 id)
inventory_value id list_name item InventoryColumn.type_name = text list_name
inventory_value id list_name item InventoryColumn.item_string = text item

abbrev pub inventory_columns : List InventoryColumn
inventory_columns =
    InventoryColumn.pos_id ∷ InventoryColumn.type_name ∷ InventoryColumn.item_string ∷ []
