-- ===== src/Pos/Hash.antt =====
-- MurMur64Hash and the hash functors of src/lib/map_reader/pos.h.
use Prim.Native.Nat.{bit_xor}
use minetest_map_analyzer.Prelude.{ℕ, ◌*◌, ◌/◌, ◌%◌, ◌^◌, ◌≡◌, ◌↔◌, true, arith}
use minetest_map_analyzer.Prelude.Int.{to_u64}
use minetest_map_analyzer.Pos.{Pos, pos_eq, map_block_id}
use minetest_map_analyzer.HashMap.{HashKey}

-- `h ^= h >> 33`
abbrev xor_shift : ℕ → ℕ
xor_shift h = bit_xor h (h / 2 ^ 33)

-- MurMur64Hash
unfoldable pub murmur_64_hash : ℕ → ℕ
murmur_64_hash h =
    let h1 = xor_shift h * 0xff51afd7ed558ccd % 2 ^ 64 in
    let h2 = xor_shift h1 * 0xc4ceb9fe1a85ec53 % 2 ^ 64 in xor_shift h2

-- PosHashFunc
unfoldable pub pos_hash : Pos → ℕ
pos_hash p =
    let x = murmur_64_hash (to_u64 p.x) in
    let y = murmur_64_hash (murmur_64_hash (to_u64 p.y)) in
    let z = murmur_64_hash (murmur_64_hash (murmur_64_hash (to_u64 p.z))) in bit_xor (bit_xor x y) z

-- MapBlockPosHashFunc
unfoldable pub map_block_pos_hash : Pos → ℕ
map_block_pos_hash p = murmur_64_hash (to_u64 (map_block_id p))

-- A MapBlockPos as the key of an unordered map.
abbrev pub map_block_key : HashKey Pos
map_block_key = record { hash = map_block_pos_hash; equal = pos_eq }

pub pos_eq_refl : (p : Pos) → pos_eq p p ≡ true
unfolding pos_eq
pos_eq_refl p = ground arith

pub pos_eq→eq : (p q : Pos) → pos_eq p q ≡ true → p ≡ q
unfolding pos_eq
pos_eq→eq p q h =
    let ex : p.x ≡ q.x = ground arith in
    let ey : p.y ≡ q.y = ground arith in
    let ez : p.z ≡ q.z = ground arith in λ i. record { x = ex i; y = ey i; z = ez i }

-- `operator==` tells positions apart.
pub pos_eq_iff : (p q : Pos) → (pos_eq p q ≡ true) ↔ (p ≡ q)
pos_eq_iff p q = (pos_eq→eq p q, λ e. rw e (pos_eq_refl q))
