-- ===== src/App/BlockData.antt =====
-- src/app/mapblock_data.h: what is known of each block.
pub mod Laws
use minetest_map_analyzer.Prelude.{ℕ, Bool, false, Option, none, some}
use minetest_map_analyzer.Pos.{Pos}
use minetest_map_analyzer.Pos.Hash.{map_block_key}
use minetest_map_analyzer.HashMap
use minetest_map_analyzer.HashMap.{HashMap}

-- MapBlockData
pub record MapBlockData : Type 0 where
  pub uniform : ℕ
  pub anthropocene : Bool
  pub preserve : Bool

-- MapBlockData::MapBlockData
abbrev pub new_data : MapBlockData
new_data = record { uniform = 0; anthropocene = false; preserve = false }

-- MapBlockHashMap
abbrev pub MapBlockHashMap : Type 0
MapBlockHashMap = HashMap Pos MapBlockData

-- What a position has been given, if anything.
abbrev pub find_data : Pos → MapBlockHashMap → Option MapBlockData
find_data p m = HashMap.find map_block_key new_data p m

-- `block_data_.Ref(pos)` with a write.
abbrev pub modify_data : Pos → (MapBlockData → MapBlockData) → MapBlockHashMap → MapBlockHashMap
modify_data p f m = HashMap.modify map_block_key new_data p f m

-- `block_data_.Ref(pos)` with a read.
abbrev pub ref_data : Pos → MapBlockHashMap → MapBlockData × MapBlockHashMap
ref_data p m = HashMap.ref map_block_key new_data p m

abbrev pub data_or : Option MapBlockData → MapBlockData
data_or none = new_data
data_or (some d) = d

-- The data of a position, or that of a position without any.
abbrev pub data_at : Pos → MapBlockHashMap → MapBlockData
data_at p m = data_or (find_data p m)
