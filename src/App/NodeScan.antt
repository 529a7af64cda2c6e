-- ===== src/App/NodeScan.antt =====
-- src/app/consumer.cc: the loop of a consumer over the nodes of a block.
-- A throw ends the program here, so that no state comes with it.
pub mod Anthropocene
use minetest_map_analyzer.Prelude.{
  ℕ, zero, suc, ◌+◌, Bool, true, false, not, ◌||◌, Option, none, some, List, [], ◌∷◌, ◌++◌,
  get_elem?, ◌==◌, if◌then◌else◌, str_eq,
}
use minetest_map_analyzer.Exceptions.{Result, ok, throw, bind_result, or_undefined}
use minetest_map_analyzer.Pos.{Pos, node_pos_in}
use minetest_map_analyzer.Minegeld.{codes}
use minetest_map_analyzer.Inventory.{Inventory, total_minegeld}
use minetest_map_analyzer.Node.{Node, get_owner}
use minetest_map_analyzer.IdMap.{IdMapItem}
use minetest_map_analyzer.IdMap.Local
use minetest_map_analyzer.IdMap.Local.{Caches}

-- NodeIdMapExtraInfo
pub record NodeIdMapExtraInfo : Type 0 where
  pub anthropocene : Bool

-- ActorIdMapExtraInfo
pub record ActorIdMapExtraInfo : Type 0 where
  pub unused : Bool

-- DataWriterNode
pub record DataWriterNode : Type 0 where
  pub pos : Pos
  pub owner_id : ℕ
  pub node_id : ℕ
  pub minegeld : ℕ
  pub inventory : Inventory

-- The locals of the loop, with the actors that it adds.
pub record Scan : Type 0 where
  pub actors : Caches ActorIdMapExtraInfo
  pub node_queue : List DataWriterNode
  pub anthropocene : Bool

-- `owner.empty() ? 0 : actor_id_cache.Add(owner)`. `actor_ids_` has no callback.
unfoldable pub owner_number :
    Caches ActorIdMapExtraInfo → List ℕ → Result (ℕ × Caches ActorIdMapExtraInfo)
owner_number actors [] = ok (0, actors)
owner_number actors (c ∷ owner) = Local.add none (record { unused = false }) actors (c ∷ owner)

abbrev is_empty : Inventory → Bool
is_empty [] = true
is_empty (list ∷ lists) = false

abbrev is_bones : IdMapItem NodeIdMapExtraInfo → Bool
is_bones info = str_eq info.key (codes "bones::bones")

-- The test on a node, with its minegeld and the number of its owner.
unfoldable pub is_recorded : IdMapItem NodeIdMapExtraInfo → Node → ℕ → ℕ → Bool
is_recorded info node minegeld owner_id =
    not (minegeld == 0)
    || is_bones info
    || not (is_empty node.inventory)
    || not (owner_id == 0)
    || info.extra.anthropocene

module _ (track_minegeld : Bool) (nodes_cache : Caches NodeIdMapExtraInfo)
    (mapblock_pos : Pos) where
  abbrev pub minegeld_of : Node → ℕ
  minegeld_of node = if track_minegeld then total_minegeld node.inventory else 0

  abbrev pub row_of : ℕ → Node → ℕ → DataWriterNode
  row_of i node owner_id = record {
    pos = node_pos_in mapblock_pos i;
    owner_id = owner_id;
    node_id = node.param_0;
    minegeld = minegeld_of node;
    inventory = node.inventory;
  }

  -- What a node adds to the queue, and to the flag of the block.
  unfoldable pub record_node :
      ℕ → Node → IdMapItem NodeIdMapExtraInfo → ℕ → Caches ActorIdMapExtraInfo → Scan → Scan
  record_node i node info owner_id actors s = record {
    actors = actors;
    node_queue =
        if is_recorded info node (minegeld_of node) owner_id
        then s.node_queue ++ row_of i node owner_id ∷ []
        else s.node_queue;
    anthropocene = s.anthropocene || info.extra.anthropocene;
  }

  -- One round of the loop.
  unfoldable pub scan_node : ℕ → Node → Scan → Result Scan
  scan_node i node s = bind_result (Local.get nodes_cache node.param_0) λ info.
      bind_result (owner_number s.actors (get_owner node.metadata))
        λ owner. ok (record_node i node info owner.0 owner.1 s)

  -- The rounds that are left, from the index `i`.
  unfoldable pub scan_loop : ℕ → ℕ → List Node → Scan → Result Scan
  scan_loop zero i nodes s = ok s
  scan_loop (suc left) i nodes s =
      bind_result (or_undefined (get_elem? nodes i))
        λ node. bind_result (scan_node i node s) λ s'. scan_loop left (i + 1) nodes s'
