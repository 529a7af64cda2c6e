-- ===== src/Pos.antt =====
-- src/lib/map_reader/pos.h and pos.cc: positions of map blocks and nodes, and their numbers.
-- An int16_t, int64_t or int coordinate is the integer that it stands for; a conversion to another
-- width is written out by the bit pattern. `<<` of a signed value is that of two's complement.
pub mod Ids
pub mod Nodes
pub mod Order
pub mod Text
pub mod Hash
use Prim.Native.Nat.{bit_and, bit_or}
use minetest_map_analyzer.Prelude.{
  ℕ, suc, ◌+◌, ◌-◌, ◌*◌, ◌/◌, ◌%◌, ◌^◌, Bool, ◌&&◌, ltb, leb, ◌==◌, if◌then◌else◌,
}
use minetest_map_analyzer.Prelude.Int.{
  ℤ, pos, negsuc, sub_ℕ, ◌-ℤ◌, leb_ℤ, ltb_ℤ, to_u64, to_u16, signed64, signed16,
}

-- Pos<T>, and MapBlockPos and NodePos, which add no field.
pub record Pos : Type 0 where
  pub x : ℤ
  pub y : ℤ
  pub z : ℤ

-- Pos::inside: `a` is included, `b` is not.
unfoldable pub inside : Pos → Pos → Pos → Bool
inside p a b =
    leb_ℤ a.x p.x
    && leb_ℤ a.y p.y
    && leb_ℤ a.z p.z
    && ltb_ℤ p.x b.x
    && ltb_ℤ p.y b.y
    && ltb_ℤ p.z b.z

-- One dimension of Pos::sort: swap where the first value is greater.
abbrev sort_dimension : ℤ → ℤ → ℤ × ℤ
sort_dimension s a = if ltb_ℤ a s then (a, s) else (s, a)

-- Pos::sort: the new `this` and the new `*a`.
unfoldable pub sort : Pos → Pos → Pos × Pos
sort p a =
    let (x, ax) = sort_dimension p.x a.x in
    let (y, ay) = sort_dimension p.y a.y in
    let (z, az) = sort_dimension p.z a.z in
    (record { x = x; y = y; z = z }, record { x = ax; y = ay; z = az })

-- Pos::operator==
abbrev eq_ℤ : ℤ → ℤ → Bool
eq_ℤ a b = leb_ℤ a b && leb_ℤ b a

unfoldable pub pos_eq : Pos → Pos → Bool
pos_eq p a = eq_ℤ a.x p.x && eq_ℤ a.y p.y && eq_ℤ a.z p.z

abbrev pub min_block_pos : Pos
min_block_pos = record { x = negsuc 2047; y = negsuc 2047; z = negsuc 2047 }

abbrev pub max_block_pos : Pos
max_block_pos = record { x = pos 2047; y = pos 2047; z = pos 2047 }

-- uint64_t multiplication and addition.
abbrev mul_u64 : ℕ → ℕ → ℕ
mul_u64 a b = a * b % 2 ^ 64

abbrev add_u64 : ℕ → ℕ → ℕ
add_u64 a b = (a + b) % 2 ^ 64

unfoldable pub block_as_int : ℤ → ℤ → ℤ → ℤ
block_as_int bx by bz =
    signed64
      (add_u64 (add_u64 (mul_u64 (to_u64 bz) 0x1000000) (mul_u64 (to_u64 by) 0x1000)) (to_u64 bx))

-- MapBlockPos::MapBlockId
unfoldable pub map_block_id : Pos → ℤ
unfolding block_as_int
map_block_id p = block_as_int p.x p.y p.z

-- The argument is a uint16_t, and the result an int16_t.
unfoldable pub unsigned_to_signed : ℕ → ℕ → ℤ
unsigned_to_signed i max_positive =
    if ltb i max_positive then signed16 i else signed16 (to_u16 (sub_ℕ i (max_positive * 2)))

-- `%` in C++ has the sign of the dividend, so a negative `i` is turned over first.
unfoldable pub pythonmodulo : ℤ → ℕ → ℤ
pythonmodulo (pos n) m = pos (n % m)
pythonmodulo (negsuc n) m = sub_ℕ m (suc n % m)

-- `/` on int64_t, which truncates towards zero.
unfoldable pub quotient : ℤ → ℕ → ℤ
quotient (pos n) d = pos (n / d)
quotient (negsuc n) d = sub_ℕ 0 (suc n / d)

-- One coordinate of a block number, and the number that is left for the next one.
unfoldable pub low_axis : ℤ → ℤ
unfolding unsigned_to_signed pythonmodulo
low_axis id = unsigned_to_signed (to_u16 (pythonmodulo id 4096)) 2048

unfoldable pub rest_axes : ℤ → ℤ
unfolding low_axis quotient ◌-ℤ◌
rest_axes id = quotient (id -ℤ low_axis id) 4096

-- MapBlockPos::MapBlockPos(int64_t)
unfoldable pub map_block_pos : ℤ → Pos
map_block_pos id =
    let id' = rest_axes id in
    record { x = low_axis id; y = low_axis id'; z = low_axis (rest_axes id') }

-- `(c << 4) | n` and `c >> 4` on an int64_t.
shift_or : ℤ → ℕ → ℤ
shift_or c n = signed64 (bit_or (to_u64 c * 16 % 2 ^ 64) n)

shift_down : ℤ → ℤ
shift_down (pos n) = pos (n / 16)
shift_down (negsuc n) = negsuc (n / 16)

-- NodePos::NodePos(int64_t, uint16_t)
pub node_pos : ℤ → ℕ → Pos
node_pos id node_id =
    let p = map_block_pos id in
    record {
      x = shift_or p.x (bit_and node_id 15);
      y = shift_or p.y (bit_and (node_id / 2 ^ 4) 15);
      z = shift_or p.z (bit_and (node_id / 2 ^ 8) 15);
    }

-- NodePos::NodePos(const MapBlockPos &, uint16_t)
pub node_pos_in : Pos → ℕ → Pos
node_pos_in p node_id = node_pos (map_block_id p) node_id

-- NodePos::MapBlockId. The MapBlockPos constructor takes int16_t arguments.
pub node_map_block_id : Pos → ℤ
unfolding shift_down
node_map_block_id p = map_block_id (record {
  x = signed16 (to_u16 (shift_down p.x));
  y = signed16 (to_u16 (shift_down p.y));
  z = signed16 (to_u16 (shift_down p.z));
})

-- NodePos::NodePosId
unfoldable pub node_pos_id : Pos → ℕ
node_pos_id p =
    bit_or (bit_or (bit_and (to_u64 p.x) 0xffff) (bit_and (to_u64 p.y) 0xffff * 2 ^ 16 % 2 ^ 64))
      (bit_and (to_u64 p.z) 0xffff * 2 ^ 32 % 2 ^ 64)
