-- ===== src/Tests/Positions.antt =====
-- Positions: the cases of src/lib/map_reader/pos_test.cc, and the theorems at some of them.
use minetest_map_analyzer.Prelude.{◌/◌, ◌%◌, ◌≡◌, refl, ◌↔◌, true, arith}
use minetest_map_analyzer.Prelude.Int.{pos, negsuc, ◌≤ℤ◌}
use minetest_map_analyzer.Pos.{
  Pos, inside, min_block_pos, max_block_pos, map_block_id, map_block_pos, node_pos_in,
}
use minetest_map_analyzer.Pos.Order.{inside_default_iff}
use minetest_map_analyzer.Pos.Ids.{IsBlockPos, map_block_id-map_block_pos}
use minetest_map_analyzer.Pos.Nodes.{IsNodeOf, node_pos_in-IsNodeOf, node_pos_id_injective}

abbrev low : Pos
low = record { x = negsuc 0; y = pos 2; z = negsuc 9 }

abbrev high : Pos
high = record { x = pos 7; y = negsuc 4; z = pos 30 }

abbrev middle : Pos
middle = record { x = pos 3; y = negsuc 1; z = pos 0 }

abbrev corner : Pos
corner = record { x = pos 0; y = negsuc 6; z = negsuc 29 }

abbrev far_corner : Pos
far_corner = record { x = pos 10; y = pos 3; z = pos 40 }

middle-inside : inside middle corner far_corner ≡ true
unfolding inside
middle-inside = refl

map_block_id-map_block_pos_example :
    IsBlockPos (map_block_pos (negsuc 134270975))
    × (map_block_id (map_block_pos (negsuc 134270975)) ≡ negsuc 134270975)
map_block_id-map_block_pos_example =
    map_block_id-map_block_pos (negsuc 134270975) (omega arith) (omega arith)

node_pos_in-IsNodeOf_example :
    IsNodeOf low.x (4095 % 16) (node_pos_in low 4095).x
    × IsNodeOf low.y (4095 / 16 % 16) (node_pos_in low 4095).y
    × IsNodeOf low.z (4095 / 256 % 16) (node_pos_in low 4095).z
node_pos_in-IsNodeOf_example = node_pos_in-IsNodeOf low 4095 (omega arith)

node_pos_id_injective_example : low ≡ low
node_pos_id_injective_example = node_pos_id_injective low low (omega arith) (omega arith) refl

inside_default_iff_example : (inside low min_block_pos max_block_pos ≡ true) ↔ (
    (negsuc 2047 ≤ℤ low.x)
    × (low.x ≤ℤ pos 2046)
    × (negsuc 2047 ≤ℤ low.y)
    × (low.y ≤ℤ pos 2046)
    × (negsuc 2047 ≤ℤ low.z)
    × (low.z ≤ℤ pos 2046))
inside_default_iff_example = inside_default_iff low
