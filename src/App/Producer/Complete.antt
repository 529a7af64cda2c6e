-- ===== src/App/Producer/Complete.antt =====
-- App::RunProducer of src/app/producer.cc: from the table of the database to the queue.
use minetest_map_analyzer.Prelude.{
  ℕ, ◌≡◌, sym, ◌∙◌, ap, subst, true, List, [], ◌∷◌, Memᴰ, Bool-cases, inl, inr,
}
use minetest_map_analyzer.Prelude.Int.{ℤ, ◌≤ℤ◌}
use mathlib.Core.List.Memᴰ
use minetest_map_analyzer.Pos.{Pos, inside, map_block_id, map_block_pos}
use minetest_map_analyzer.Pos.Ids.{IsBlockPos, map_block_pos-map_block_id, inside-map_block_id}
use minetest_map_analyzer.App.BlockQueue.{Queue, tombstone}
use minetest_map_analyzer.App.Producer.{run_producer}
use minetest_map_analyzer.App.Producer.Batches.{ids_inside, run_producer_lem}

module _ (min max p : Pos) (h : IsBlockPos p) (inside_box : inside p min max ≡ true) where
  ids_inside-head :
      (id : ℤ) (rows : List ℤ)
      → map_block_id p ≡ id
      → Memᴰ (map_block_id p) (ids_inside min max (id ∷ rows))
  ids_inside-head id rows e =
      let same : map_block_pos id ≡ p = ap map_block_pos (sym e) ∙ map_block_pos-map_block_id p h in
      let here : inside (map_block_pos id) min max ≡ true =
        ap (λ q. inside q min max) same ∙ inside_box in
      rw here (Memᴰ.head (ap map_block_id (sym same)))

  mem-ids_inside :
      (rows : List ℤ) → Memᴰ (map_block_id p) rows → Memᴰ (map_block_id p) (ids_inside min max rows)
  mem-ids_inside [] m = elim m [ ]
  mem-ids_inside (id ∷ rows) (Memᴰ.head e) = ids_inside-head id rows e
  mem-ids_inside (id ∷ rows) (Memᴰ.tail m) = elim (Bool-cases (inside (map_block_pos id) min max)) [
    | inl e ↦ rw e (Memᴰ.tail (mem-ids_inside rows m))
    | inr e ↦ rw e (mem-ids_inside rows m)
  ]

-- Where the statement returns every block of the table between two numbers, each block of the table
-- whose position is inside the box is in the queue behind the producer. The corners of the box and
-- the position are in the range of blocks.
pub run_producer_complete :
    (table : List ℤ) (list_blocks : ℤ → ℤ → List ℤ) (batch : ℕ) (min_pos max_pos p : Pos)
    (queue : Queue)
    → ((id lo hi : ℤ) → Memᴰ id table → lo ≤ℤ id → id ≤ℤ hi → Memᴰ id (list_blocks lo hi))
    → IsBlockPos min_pos
    → IsBlockPos max_pos
    → IsBlockPos p
    → inside p min_pos max_pos ≡ true
    → Memᴰ (map_block_id p) table
    → Memᴰ (map_block_id p) (run_producer list_blocks batch min_pos max_pos 0 queue).map_block_queue
run_producer_complete table list_blocks batch min_pos max_pos p queue select hmin hmax hp inside_box
      m =
    let (lo, hi) = inside-map_block_id p min_pos max_pos hmin hmax inside_box in
    let found = select (map_block_id p) (map_block_id min_pos) (map_block_id max_pos) m lo hi in
    let kept = mem-ids_inside min_pos max_pos p hp inside_box _ found in
    subst (λ q. Memᴰ (map_block_id p) q)
      (sym (run_producer_lem list_blocks batch min_pos max_pos 0 queue).0)
      (Memᴰ.append_left (tombstone ∷ []) (Memᴰ.append_right queue kept))
