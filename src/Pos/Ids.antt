-- ===== src/Pos/Ids.antt =====
-- Block numbers of src/lib/map_reader/pos.cc: the position of a number, and the order of the numbers.
use minetest_map_analyzer.Prelude.{◌+◌, ◌*◌, ◌≡◌, true, arith}
use minetest_map_analyzer.Prelude.Int.{ℤ, pos, negsuc, pos_part, neg_part, ◌≤ℤ◌, sub_ℕ, eq_of_parts}
use minetest_map_analyzer.Pos.Order.{inside_iff}
use minetest_map_analyzer.Pos.{
  Pos, inside, block_as_int, low_axis, rest_axes, map_block_pos, map_block_id,
}

-- The range of a block coordinate, -2048 to 2047.
abbrev pub IsBlockCoordinate : ℤ → Type 0
IsBlockCoordinate c = (negsuc 2047 ≤ℤ c) × (c ≤ℤ pos 2047)

-- id = c + 4096 * k
abbrev Splits : ℤ → ℤ → ℤ → Type 0
Splits id c k =
    pos_part id + neg_part c + 4096 * neg_part k ≡ neg_part id + pos_part c + 4096 * pos_part k

low_axis_lem : (id c k : ℤ) → IsBlockCoordinate c → Splits id c k → low_axis id ≡ c
unfolding low_axis
low_axis_lem id c k r s = ground arith

rest_axes_lem : (id c k : ℤ) → IsBlockCoordinate c → Splits id c k → rest_axes id ≡ k
unfolding rest_axes
rest_axes_lem id c k r s = ground (arith, low_axis_lem id c k r s)

block_as_int_parts :
    (x y z : ℤ)
    → IsBlockCoordinate x
    → IsBlockCoordinate y
    → IsBlockCoordinate z
    → pos_part (block_as_int x y z) + neg_part x + 4096 * neg_part y + 16777216 * neg_part z
      ≡ neg_part (block_as_int x y z) + pos_part x + 4096 * pos_part y + 16777216 * pos_part z
unfolding block_as_int
block_as_int_parts x y z hx hy hz = ground arith

abbrev pub IsBlockPos : Pos → Type 0
IsBlockPos p = IsBlockCoordinate p.x × IsBlockCoordinate p.y × IsBlockCoordinate p.z

-- id = x + 4096 * y + 4096 * 4096 * z
abbrev pub IsNumber : ℤ → Pos → Type 0
IsNumber id p =
    pos_part id + neg_part p.x + 4096 * neg_part p.y + 16777216 * neg_part p.z
    ≡ neg_part id + pos_part p.x + 4096 * pos_part p.y + 16777216 * pos_part p.z

pub map_block_id_parts : (p : Pos) → IsBlockPos p → IsNumber (map_block_id p) p
unfolding map_block_id
map_block_id_parts p h = block_as_int_parts p.x p.y p.z h.0 h.1 h.2

-- The position with the coordinates of `p`, read from a number made of them.
map_block_pos_of_parts : (id : ℤ) (p : Pos) → IsBlockPos p → IsNumber id p → map_block_pos id ≡ p
unfolding map_block_pos
map_block_pos_of_parts id p h e =
    let yz = sub_ℕ (pos_part p.y + 4096 * pos_part p.z) (neg_part p.y + 4096 * neg_part p.z) in
    let a1 : low_axis id ≡ p.x = low_axis_lem id p.x yz h.0 (ground arith) in
    let r1 : rest_axes id ≡ yz = rest_axes_lem id p.x yz h.0 (ground arith) in
    let a2 : low_axis yz ≡ p.y = low_axis_lem yz p.y p.z h.1 (ground arith) in
    let r2 : rest_axes yz ≡ p.z = rest_axes_lem yz p.y p.z h.1 (ground arith) in
    let a3 : low_axis p.z ≡ p.z = low_axis_lem p.z p.z (pos 0) h.2 (omega arith) in ground arith

-- The position of a block in range is read back from its number.
pub map_block_pos-map_block_id : (p : Pos) → IsBlockPos p → map_block_pos (map_block_id p) ≡ p
map_block_pos-map_block_id p h =
    map_block_pos_of_parts (map_block_id p) p h (map_block_id_parts p h)

-- The coordinate that is read is in range, whatever the number, and it splits the number.
low_axis-IsBlockCoordinate : (id : ℤ) → IsBlockCoordinate (low_axis id)
unfolding low_axis
low_axis-IsBlockCoordinate id = ground arith

axis_split : (id : ℤ) → Splits id (low_axis id) (rest_axes id)
unfolding rest_axes
axis_split id = ground arith

abbrev pub min_block_id : ℤ
min_block_id = negsuc 34368129023

abbrev pub max_block_id : ℤ
max_block_id = pos 34351347711

pub map_block_pos-IsBlockPos : (id : ℤ) → IsBlockPos (map_block_pos id)
unfolding map_block_pos
map_block_pos-IsBlockPos id = (
  low_axis-IsBlockCoordinate id,
  low_axis-IsBlockCoordinate (rest_axes id),
  low_axis-IsBlockCoordinate (rest_axes (rest_axes id)),
)

map_block_pos_parts :
    (id : ℤ) → min_block_id ≤ℤ id → id ≤ℤ max_block_id → IsNumber id (map_block_pos id)
unfolding map_block_pos
map_block_pos_parts id lo hi =
    let id1 = rest_axes id in
    let id2 = rest_axes id1 in
    omega (
      arith,
      axis_split id,
      axis_split id1,
      axis_split id2,
      low_axis-IsBlockCoordinate id,
      low_axis-IsBlockCoordinate id1,
      low_axis-IsBlockCoordinate id2,
    )

-- A number between those of the lowest and the highest block is read as a position in range, and
-- it is the number of that position.
pub map_block_id-map_block_pos :
    (id : ℤ)
    → min_block_id ≤ℤ id
    → id ≤ℤ max_block_id
    → IsBlockPos (map_block_pos id) × (map_block_id (map_block_pos id) ≡ id)
map_block_id-map_block_pos id lo hi =
    let r = map_block_pos-IsBlockPos id in
    (
      r,
      eq_of_parts _ _
          (omega (arith, map_block_id_parts (map_block_pos id) r, map_block_pos_parts id lo hi)),
    )

inside-IsBlockPos : (p a b : Pos) → IsBlockPos a → IsBlockPos b → inside p a b ≡ true → IsBlockPos p
inside-IsBlockPos p a b ha hb h = let i = (inside_iff p a b).0 h in omega arith

-- A block inside a box, whose corners are in the range of blocks, has a number between those of
-- the corners.
pub inside-map_block_id :
    (p a b : Pos)
    → IsBlockPos a
    → IsBlockPos b
    → inside p a b ≡ true
    → (map_block_id a ≤ℤ map_block_id p) × (map_block_id p ≤ℤ map_block_id b)
inside-map_block_id p a b ha hb h =
    let i = (inside_iff p a b).0 h in
    let hp = inside-IsBlockPos p a b ha hb h in
    omega (arith, map_block_id_parts a ha, map_block_id_parts b hb, map_block_id_parts p hp)
