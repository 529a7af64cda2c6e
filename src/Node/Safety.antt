-- ===== src/Node/Safety.antt =====
-- Node::deserialize_metadata of src/lib/map_reader/node.cc: how it can end.
use minetest_map_analyzer.Prelude.{ℕ, ◌≤◌, zero, suc, List, ◌++◌, ◌∷◌, []}
use minetest_map_analyzer.Blob.{BlobReader, size}
use minetest_map_analyzer.Blob.Safety.{Outcome, Safe, Safe-pure, Safe-bind, safe_rules}
use minetest_map_analyzer.Inventory.Safety.{Safe-deserialize_inventory}
use minetest_map_analyzer.Node.{
  MetaDataVar, Node, check_private, read_private, read_var, read_vars, deserialize_metadata,
}

Safe-check_private : (private : ℕ) → Safe (check_private private)
unfolding check_private
Safe-check_private private = search safe_rules

Safe-read_private : (version : ℕ) → Safe (read_private version)
unfolding read_private
Safe-read_private version = search (safe_rules, Safe-check_private)

Safe-read_var : (version : ℕ) → Safe (read_var version)
unfolding read_var
Safe-read_var version = search (safe_rules, Safe-read_private) depth 8

Safe-read_vars : (left version : ℕ) (vars : List MetaDataVar) → Safe (read_vars left version vars)
unfolding read_vars
Safe-read_vars zero version vars = Safe-pure vars
Safe-read_vars (suc left) version vars =
    Safe-bind (read_var version) _ (Safe-read_var version)
      (λ var. Safe-read_vars left version (vars ++ (var ∷ [])))

-- Reading a node's metadata and inventory always ends, with a node or a SerializationError, and does not leave the blob.
pub Safe-deserialize_metadata :
    (version : ℕ) (node : Node) → Safe (deserialize_metadata version node)
unfolding deserialize_metadata
Safe-deserialize_metadata version node =
    search (safe_rules, Safe-read_vars, Safe-deserialize_inventory) depth 8

-- From a reader inside its blob, Node::deserialize_metadata ends: either it returns, with the reader
-- moved forward inside the same blob, or it throws a SerializationError that shows the blob's size.
deserialize_metadata-Outcome :
    (version : ℕ) (node : Node) (r : BlobReader)
    → r.ptr ≤ size r
    → Outcome r (deserialize_metadata version node r)
deserialize_metadata-Outcome version node r v = (Safe-deserialize_metadata version node).at r v
