-- ===== src/MapDb/Postgresql/Equivalent.antt =====
-- ProduceMapBlocks of src/lib/database/db-map-postgresql.cc and of src/lib/database/db-map-sqlite3.cc: the
-- two drivers, on one table.
use minetest_map_analyzer.Prelude.{
  ◌≡◌, refl, ap, sym, ◌∙◌, Bool, true, false, ◌&&◌, List, [], ◌∷◌, All, Bool-cases, inl, inr,
  if◌then◌else◌, arith,
}
use minetest_map_analyzer.Prelude.Int.{ℤ, leb_ℤ, to_u16, signed16}
use minetest_map_analyzer.Pos.{Pos, inside, map_block_id, map_block_pos}
use minetest_map_analyzer.Pos.Order.{inside_iff}
use minetest_map_analyzer.Pos.Ids.{
  IsBlockCoordinate, IsBlockPos, inside-map_block_id, map_block_pos-map_block_id,
}
use minetest_map_analyzer.Pos.Nodes.{narrow_coordinate}
use minetest_map_analyzer.App.Producer
use minetest_map_analyzer.App.Producer.{unless_stopped, row_loop}
use minetest_map_analyzer.MapDb.Postgresql.{
  PositionRow, as_int, row_pos, result_loop, produce_map_blocks,
}

-- `pos between :min_pos and :max_pos`, on a table of positions in some order.
abbrev pub select_ids : List Pos → ℤ → ℤ → List ℤ
select_ids [] lo hi = []
select_ids (p ∷ table) lo hi =
    let rest = select_ids table lo hi in
    if leb_ℤ lo (map_block_id p) && leb_ℤ (map_block_id p) hi then map_block_id p ∷ rest else rest

abbrev row_of : Pos → PositionRow
row_of p = record { posx = p.x; posy = p.y; posz = p.z }

-- `between` on each coordinate.
abbrev pub within : Pos → Pos → Pos → Bool
within p a b =
    leb_ℤ a.x p.x
    && leb_ℤ p.x b.x
    && leb_ℤ a.y p.y
    && leb_ℤ p.y b.y
    && leb_ℤ a.z p.z
    && leb_ℤ p.z b.z

-- The statement of PostgreSQL, on a table of positions in some order.
abbrev pub select_rows : List Pos → Pos → Pos → List PositionRow
select_rows [] min max = []
select_rows (p ∷ table) min max =
    let rest = select_rows table min max in if within p min max then row_of p ∷ rest else rest

as_int_block : (c : ℤ) → IsBlockCoordinate c → as_int c ≡ c
as_int_block c h = ground arith

as_int_fits : (c : ℤ) → IsBlockCoordinate c → signed16 (to_u16 (as_int c)) ≡ c
as_int_fits c h = ap (λ v. signed16 (to_u16 v)) (as_int_block c h) ∙ narrow_coordinate c h

row_pos-row_of : (p : Pos) → IsBlockPos p → row_pos (row_of p) ≡ p
unfolding row_pos
row_pos-row_of p h =
    λ i. record { x = as_int_fits p.x h.0 i; y = as_int_fits p.y h.1 i; z = as_int_fits p.z h.2 i }

inside-within : (p a b : Pos) → inside p a b ≡ true → within p a b ≡ true
inside-within p a b h = let i = (inside_iff p a b).0 h in ground arith

inside-between :
    (p a b : Pos)
    → IsBlockPos a
    → IsBlockPos b
    → inside p a b ≡ true
    → (leb_ℤ (map_block_id a) (map_block_id p) && leb_ℤ (map_block_id p) (map_block_id b)) ≡ true
inside-between p a b ha hb h = let i = inside-map_block_id p a b ha hb h in ground arith

module _ {S : Type 0} (min max : Pos) (callback : Pos → S → Bool × S) where
  same_rest :
      (f g : S → Bool × S)
      → ((s : S) → f s ≡ g s)
      → (o : Bool × S) → unless_stopped f o ≡ unless_stopped g o
  same_rest f g h (true, s) = h s
  same_rest f g h (false, s) = refl

  -- A row outside the box changes nothing, whether the statement returns it or not.
  skip_row :
      (p : Pos) (returned : Bool) (rest : List PositionRow) (s : S)
      → inside (row_pos (row_of p)) min max ≡ false
      → result_loop min max callback (if returned then row_of p ∷ rest else rest) s
        ≡ result_loop min max callback rest s
  unfolding result_loop
  skip_row p true rest s e = rw e refl
  skip_row p false rest s e = refl

  skip_id :
      (id : ℤ) (returned : Bool) (rest : List ℤ) (s : S)
      → inside (map_block_pos id) min max ≡ false
      → row_loop min max callback (if returned then id ∷ rest else rest) s
        ≡ row_loop min max callback rest s
  unfolding row_loop
  skip_id id true rest s e = rw e refl
  skip_id id false rest s e = refl

  same_loop :
      (table : List Pos)
      → IsBlockPos min
      → IsBlockPos max
      → All IsBlockPos table
      → (s : S)
      → result_loop min max callback (select_rows table min max) s
        ≡ row_loop min max callback (select_ids table (map_block_id min) (map_block_id max)) s
  unfolding result_loop row_loop
  same_loop [] hmin hmax h s = refl
  same_loop (p ∷ table) hmin hmax (hp, h) s =
      let ih = same_loop table hmin hmax h in
      let pg = row_pos-row_of p hp in
      let lite = map_block_pos-map_block_id p hp in
      elim (Bool-cases (inside p min max)) [
        | inl e ↦
            rw (inside-within p min max e, inside-between p min max hmin hmax e, pg, lite, e)
              (same_rest _ _ ih (callback p s))
        | inr e ↦
            skip_row p (within p min max) (select_rows table min max) s (rw pg e)
            ∙ ih s
            ∙ sym (
                skip_id (map_block_id p)
                  (leb_ℤ (map_block_id min) (map_block_id p)
                    && leb_ℤ (map_block_id p) (map_block_id max))
                  (select_ids table (map_block_id min) (map_block_id max)) s (rw lite e))
      ]

  -- On a table of positions of blocks, in one order for both, and between two corners in the range of blocks:
  -- ProduceMapBlocks of PostgreSQL, whose statement compares the coordinates, calls the callback
  -- for the same positions in the same order as that of sqlite, whose statement compares the numbers.
  pub produce_map_blocks-select_ids :
      (table : List Pos) (s : S)
      → IsBlockPos min
      → IsBlockPos max
      → All IsBlockPos table
      → produce_map_blocks (select_rows table) min max callback s
        ≡ Producer.produce_map_blocks (select_ids table) min max callback s
  unfolding produce_map_blocks Producer.produce_map_blocks
  produce_map_blocks-select_ids table s hmin hmax h = same_loop table hmin hmax h s
