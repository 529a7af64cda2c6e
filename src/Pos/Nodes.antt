-- ===== src/Pos/Nodes.antt =====
-- NodePos of src/lib/map_reader/pos.h and pos.cc: the coordinates of nodes, the block they lie in, and
-- their keys in the output.
use Prim.Native.Nat.{bit_or}
use minetest_map_analyzer.Prelude.{ℕ, ◌+◌, ◌*◌, ◌/◌, ◌%◌, ◌^◌, ◌<◌, ◌≡◌, sym, ◌∙◌, arith}
use mathlib.Core.Path.{subst}
use minetest_map_analyzer.Prelude.Bits.{
  mask_4, mask_16, or_low_digit, or_low_16, or_low_32, bit_or_comm,
}
use minetest_map_analyzer.Prelude.Int.{
  ℤ, pos, negsuc, pos_part, neg_part, ◌≤ℤ◌, to_u64, to_u16, signed16,
}
use minetest_map_analyzer.Pos.{
  Pos, shift_or, shift_down, map_block_id, node_pos, node_pos_in, node_map_block_id, node_pos_id,
}
use minetest_map_analyzer.Pos.Ids.{IsBlockCoordinate, IsBlockPos, map_block_pos-map_block_id}

-- v = 16 * c + n
abbrev pub IsNodeOf : ℤ → ℕ → ℤ → Type 0
IsNodeOf c n v = pos_part v + 16 * neg_part c ≡ neg_part v + 16 * pos_part c + n

or_nibble : (m n : ℕ) → n < 16 → m % 16 ≡ 0 → bit_or m n ≡ m + n
or_nibble m n h z =
    let e : m ≡ m / 16 * 16 = omega arith in
    subst (λ t. bit_or t n ≡ t + n) (sym e) (or_low_digit (m / 16) n h)

shift_or-IsNodeOf : (c : ℤ) (n : ℕ) → IsBlockCoordinate c → n < 16 → IsNodeOf c n (shift_or c n)
unfolding shift_or
shift_or-IsNodeOf c n h k = rw (or_nibble (to_u64 c * 16 % 2 ^ 64) n k (omega arith)) (ground arith)

shift_down-IsNodeOf : (c : ℤ) (n : ℕ) (v : ℤ) → n < 16 → IsNodeOf c n v → shift_down v ≡ c
unfolding shift_down
shift_down-IsNodeOf c n v h e = ground arith

-- The node with index `n` of a block in range lies at 16 times the block's coordinates plus the three
-- hexadecimal digits of `n`, the lowest for x.
pub node_pos_in-IsNodeOf :
    (p : Pos) (n : ℕ)
    → IsBlockPos p
    → IsNodeOf p.x (n % 16) (node_pos_in p n).x
      × IsNodeOf p.y (n / 16 % 16) (node_pos_in p n).y
      × IsNodeOf p.z (n / 256 % 16) (node_pos_in p n).z
unfolding node_pos_in node_pos
node_pos_in-IsNodeOf p n h =
    rw (map_block_pos-map_block_id p h, mask_4 n, mask_4 (n / 2 ^ 4), mask_4 (n / 2 ^ 8))
      (
        shift_or-IsNodeOf p.x (n % 16) h.0 (omega arith),
        shift_or-IsNodeOf p.y (n / 16 % 16) h.1 (omega arith),
        shift_or-IsNodeOf p.z (n / 256 % 16) h.2 (omega arith),
      )

pub narrow_coordinate : (c : ℤ) → IsBlockCoordinate c → signed16 (to_u16 c) ≡ c
narrow_coordinate c h = ground arith

block_coordinate :
    (c : ℤ) (n : ℕ) (v : ℤ)
    → IsBlockCoordinate c
    → n < 16
    → IsNodeOf c n v
    → signed16 (to_u16 (shift_down v)) ≡ c
block_coordinate c n v h k e = rw (shift_down-IsNodeOf c n v k e) (narrow_coordinate c h)

-- The number of the block of a node is that of the block, in the range of blocks, from which the
-- node was taken.
node_map_block_id-node_pos_in :
    (p : Pos) (n : ℕ) → IsBlockPos p → node_map_block_id (node_pos_in p n) ≡ map_block_id p
unfolding node_map_block_id
node_map_block_id-node_pos_in p n h =
    let k = node_pos_in-IsNodeOf p n h in
    rw (
      block_coordinate p.x (n % 16) _ h.0 (omega arith) k.0,
      block_coordinate p.y (n / 16 % 16) _ h.1 (omega arith) k.1,
      block_coordinate p.z (n / 256 % 16) _ h.2 (omega arith) k.2,
    )

-- A node coordinate is in the range -32768 to 32767.
abbrev pub IsNodeCoordinate : ℤ → Type 0
IsNodeCoordinate c = (negsuc 32767 ≤ℤ c) × (c ≤ℤ pos 32767)

abbrev pub IsNodePos : Pos → Type 0
IsNodePos p = IsNodeCoordinate p.x × IsNodeCoordinate p.y × IsNodeCoordinate p.z

pack_words :
    (lx ly lz : ℕ)
    → lx < 65536
    → ly < 65536
    → bit_or (bit_or lx (ly * 65536)) (lz * 4294967296) ≡ lx + ly * 65536 + lz * 4294967296
pack_words lx ly lz hx hy =
    rw
      (
        bit_or_comm lx (ly * 65536),
        or_low_16 ly lx hx,
        bit_or_comm (ly * 65536 + lx) (lz * 4294967296),
        or_low_32 lz (ly * 65536 + lx) (omega arith),
      )
      (omega arith)

node_pos_id-eq :
    (p : Pos)
    → node_pos_id p
      ≡ to_u64 p.x % 65536 + to_u64 p.y % 65536 * 65536 + to_u64 p.z % 65536 * 4294967296
unfolding node_pos_id
node_pos_id-eq p =
    let lx = to_u64 p.x % 65536 in
    let ly = to_u64 p.y % 65536 in
    let lz = to_u64 p.z % 65536 in
    let wy : ly * 2 ^ 16 % 2 ^ 64 ≡ ly * 65536 = omega arith in
    let wz : lz * 2 ^ 32 % 2 ^ 64 ≡ lz * 4294967296 = omega arith in
    rw (mask_16 (to_u64 p.x), mask_16 (to_u64 p.y), mask_16 (to_u64 p.z), wy, wz)
      (pack_words lx ly lz (omega arith) (omega arith))

low_word_injective :
    (a b : ℤ)
    → IsNodeCoordinate a
    → IsNodeCoordinate b
    → to_u64 a % 65536 ≡ to_u64 b % 65536
    → a ≡ b
low_word_injective a b ha hb e = ground arith

-- The key of a node in the output tables is unique: two nodes in the range of nodes with one key
-- are one node.
pub node_pos_id_injective :
    (p q : Pos) → IsNodePos p → IsNodePos q → node_pos_id p ≡ node_pos_id q → p ≡ q
node_pos_id_injective p q hp hq e =
    let e' = sym (node_pos_id-eq p) ∙ e ∙ node_pos_id-eq q in
    let ex = low_word_injective p.x q.x hp.0 hq.0 (omega arith) in
    let ey = low_word_injective p.y q.y hp.1 hq.1 (omega arith) in
    let ez = low_word_injective p.z q.z hp.2 hq.2 (omega arith) in
    λ i. record { x = ex i; y = ey i; z = ez i }
