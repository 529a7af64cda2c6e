-- ===== src/Node.antt =====
-- src/lib/map_reader/node.h and node.cc: a node with its metadata and inventory.
pub mod Safety
use minetest_map_analyzer.Prelude.{
  ℕ, zero, suc, ◌≤◌, Bool, List, [], ◌∷◌, ◌++◌, ◌||◌, leb, ltb, if◌then◌else◌, str_eq,
}
use minetest_map_analyzer.Exceptions.{Extra}
use minetest_map_analyzer.Blob.{Read, pure, fail, read_u8, read_u16, read_u32, read_str, ◌>>=◌}
use minetest_map_analyzer.Minegeld.{codes}
use minetest_map_analyzer.Inventory.{Inventory, deserialize_inventory}

-- Node::MetaDataVar. `private_` is 0 where the version has no such byte; the source leaves it unset.
pub record MetaDataVar : Type 0 where
  pub key : List ℕ
  pub value : List ℕ
  pub private_ : ℕ

pub record Node : Type 0 where
  pub param_0 : ℕ
  pub param_1 : ℕ
  pub param_2 : ℕ
  pub metadata : List MetaDataVar
  pub inventory : Inventory

-- Node::Node
abbrev pub new_node : Node
new_node = record { param_0 = 0; param_1 = 0; param_2 = 0; metadata = []; inventory = [] }

unfoldable pub check_private : ℕ → Read ℕ
check_private private =
    if ltb 1 private
    then fail "Node::deserialize_metadata" (Extra.private_value private)
    else pure private

unfoldable pub read_private : ℕ → Read ℕ
unfolding check_private
read_private version = if leb 2 version then read_u8 "meta.private" >>= check_private else pure 0

unfoldable pub read_var : ℕ → Read MetaDataVar
read_var version = do
  key_len ← read_u16 "meta.key_len"
  key ← read_str key_len "meta.key"
  val_len ← read_u32 "meta.val_len"
  value ← read_str val_len "meta.val"
  private ← read_private version
  pure (record { key = key; value = value; private_ = private })

-- The loop over the variables, on those read so far.
unfoldable pub read_vars : ℕ → ℕ → List MetaDataVar → Read (List MetaDataVar)
read_vars zero version vars = pure vars
read_vars (suc left) version vars = do
  var ← read_var version
  read_vars left version (vars ++ (var ∷ []))

-- Node::deserialize_metadata. Its position argument is not used.
unfoldable pub deserialize_metadata : ℕ → Node → Read Node
deserialize_metadata version node = do
  num_vars ← read_u32 "meta.num_vars"
  vars ← read_vars num_vars version node.metadata
  lists ← deserialize_inventory node.inventory
  pure (record node { metadata = vars; inventory = lists })

-- Node::get_meta
unfoldable pub get_meta : List MetaDataVar → List ℕ → List ℕ
get_meta [] key = []
get_meta (meta ∷ rest) key = if str_eq meta.key key then meta.value else get_meta rest key

-- Node::get_owner
unfoldable pub get_owner : List MetaDataVar → List ℕ
get_owner [] = []
get_owner (meta ∷ rest) =
    if str_eq meta.key (codes "owner") || str_eq meta.key (codes "_owner")
    then meta.value
    else get_owner rest
