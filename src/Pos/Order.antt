-- ===== src/Pos/Order.antt =====
-- Pos::sort and Pos::inside of src/lib/map_reader/pos.h.
use minetest_map_analyzer.Prelude.{◌≡◌, ◌↔◌, ◌⊎◌, inl, inr, refl, true, arith, Bool-cases, ltb→lt}
use minetest_map_analyzer.Prelude.Int.{ℤ, pos, negsuc, ◌≤ℤ◌, ◌<ℤ◌, eq_of_parts, ltb_ℤ}
use minetest_map_analyzer.Pos.{Pos, inside, sort, sort_dimension, min_block_pos, max_block_pos}

sort_dimension_comm : (s a : ℤ) → sort_dimension s a ≡ sort_dimension a s
sort_dimension_comm s a = ground (arith, eq_of_parts s a)

-- It does not matter which of two corners is given first.
sort_comm : (a b : Pos) → sort a b ≡ sort b a
unfolding sort
sort_comm a b =
    let ex = sort_dimension_comm a.x b.x in
    let ey = sort_dimension_comm a.y b.y in
    let ez = sort_dimension_comm a.z b.z in
    λ i. (
      record { x = (ex i).0; y = (ey i).0; z = (ez i).0 },
      record { x = (ex i).1; y = (ey i).1; z = (ez i).1 },
    )

-- `l` is at most `u`, and they are `s` and `a` in some order.
abbrev pub Sorts : ℤ → ℤ → ℤ → ℤ → Type 0
Sorts s a l u = (l ≤ℤ u) × (((l ≡ s) × (u ≡ a)) ⊎ ((l ≡ a) × (u ≡ s)))

sort_dimension-Sorts : (s a : ℤ) → Sorts s a (sort_dimension s a).0 (sort_dimension s a).1
sort_dimension-Sorts s a = elim (Bool-cases (ltb_ℤ a s)) [
  | inl e ↦ rw e (omega (arith, ltb→lt _ _ e), inr (refl, refl))
  | inr e ↦ rw e (ground arith, inl (refl, refl))
]

-- In each dimension `sort` orders the two coordinates that it is given, and loses neither.
pub sort-Sorts :
    (p a : Pos)
    → Sorts p.x a.x (sort p a).0.x (sort p a).1.x
      × Sorts p.y a.y (sort p a).0.y (sort p a).1.y
      × Sorts p.z a.z (sort p a).0.z (sort p a).1.z
unfolding sort
sort-Sorts p a =
    (sort_dimension-Sorts p.x a.x, sort_dimension-Sorts p.y a.y, sort_dimension-Sorts p.z a.z)

pub inside_iff :
    (p a b : Pos)
    → (inside p a b ≡ true)
      ↔ ((a.x ≤ℤ p.x) × (p.x <ℤ b.x) × (a.y ≤ℤ p.y) × (p.y <ℤ b.y) × (a.z ≤ℤ p.z) × (p.z <ℤ b.z))
unfolding inside
inside_iff p a b = ground arith

-- One coordinate between two bounds, the upper one excluded.
abbrev pub Within : ℤ → ℤ → ℤ → Type 0
Within s a v = ((s ≤ℤ v) × (v <ℤ a)) ⊎ ((a ≤ℤ v) × (v <ℤ s))

dimension_iff :
    (s a v : ℤ) → (((sort_dimension s a).0 ≤ℤ v) × (v <ℤ (sort_dimension s a).1)) ↔ Within s a v
dimension_iff s a v = ground arith

-- After `sort` has ordered any two corners, `inside` holds exactly for the positions that lie
-- between them in each dimension; the greater of two bounds is excluded.
pub inside-sort :
    (p a b : Pos)
    → (inside p (sort a b).0 (sort a b).1 ≡ true)
      ↔ (Within a.x b.x p.x × Within a.y b.y p.y × Within a.z b.z p.z)
unfolding sort
inside-sort p a b =
    let i = inside_iff p (sort a b).0 (sort a b).1 in
    let dx = dimension_iff a.x b.x p.x in
    let dy = dimension_iff a.y b.y p.y in
    let dz = dimension_iff a.z b.z p.z in
    (
      λ h. let k = i.0 h in (dx.0 (k.0, k.1), dy.0 (k.2, k.3), dz.0 (k.4, k.5)),
      λ h.
          let kx = dx.1 h.0 in
          let ky = dy.1 h.1 in let kz = dz.1 h.2 in i.1 (kx.0, kx.1, ky.0, ky.1, kz.0, kz.1),
    )

-- A position is inside the default box just where each of its coordinates is from -2048 to 2046.
pub inside_default_iff :
    (p : Pos)
    → (inside p min_block_pos max_block_pos ≡ true) ↔ (
        (negsuc 2047 ≤ℤ p.x)
        × (p.x ≤ℤ pos 2046)
        × (negsuc 2047 ≤ℤ p.y)
        × (p.y ≤ℤ pos 2046)
        × (negsuc 2047 ≤ℤ p.z)
        × (p.z ≤ℤ pos 2046))
unfolding inside
inside_default_iff p = ground arith
