-- ===== src/App/Producer/Batches.antt =====
-- The callback of App::RunProducer in src/app/producer.cc: its batches of numbers.
use minetest_map_analyzer.Prelude.{
  ℕ, ◌+◌, ◌≡◌, ap, sym, ◌∙◌, List, [], ◌∷◌, ◌++◌, append_assoc, append-nil, length, leb,
  if◌then◌else◌, Bool-cases, inl, inr, arith,
}
use minetest_map_analyzer.Prelude.Int.{ℤ}
use minetest_map_analyzer.Pos.{Pos, inside, map_block_id, map_block_pos}
use minetest_map_analyzer.App.BlockQueue.{Queue, enqueue_lem, set_tombstone, tombstone}
use minetest_map_analyzer.App.Producer.{
  Producing, row_loop, produce_map_blocks, flush_full, callback, enqueue_rest, finish, run_producer,
}

-- The numbers of the rows that are inside the box, as the position of a row gives them again.
abbrev pub ids_inside : Pos → Pos → List ℤ → List ℤ
ids_inside min max [] = []
ids_inside min max (id ∷ rows) =
    if inside (map_block_pos id) min max
    then map_block_id (map_block_pos id) ∷ ids_inside min max rows
    else ids_inside min max rows

-- The numbers of a state, those in the queue first.
abbrev pub produced : Producing → Queue
produced s = s.map_block_queue ++ s.keys

abbrev pub Counted : Producing → Producing → List ℤ → Type 0
Counted s s' ids =
    (produced s' ≡ produced s ++ ids)
    × (s'.count ≡ s.count + length ids)
    × (s'.queued_map_blocks ≡ s.queued_map_blocks + length ids)

flush_full-Counted : (batch : ℕ) (s : Producing) → Counted s (flush_full batch s) []
unfolding flush_full
flush_full-Counted batch s = elim (Bool-cases (leb batch (length s.keys))) [
  | inl e ↦
      rw e (ap (λ q. q ++ []) (enqueue_lem s.keys s.map_block_queue), omega arith, omega arith)
  | inr e ↦ rw e (sym (append-nil (produced s)), omega arith, omega arith)
]

pub callback-Counted :
    (batch : ℕ) (p : Pos) (s : Producing) → Counted s (callback batch p s).1 (map_block_id p ∷ [])
unfolding callback
callback-Counted batch p s =
    let pushed : Producing = record s {
      count = s.count + 1;
      queued_map_blocks = s.queued_map_blocks + 1;
      keys = s.keys ++ map_block_id p ∷ [];
    } in
    let k = flush_full-Counted batch pushed in
    (
      k.0
          ∙ append-nil (produced pushed)
          ∙ sym (append_assoc s.map_block_queue s.keys (map_block_id p ∷ [])),
      omega (arith, k.1),
      omega (arith, k.2),
    )

row_loop-Counted :
    (batch : ℕ) (min max : Pos) (rows : List ℤ) (s : Producing)
    → Counted s (row_loop min max (callback batch) rows s).1 (ids_inside min max rows)
unfolding row_loop callback
row_loop-Counted batch min max [] s = (sym (append-nil (produced s)), omega arith, omega arith)
row_loop-Counted batch min max (id ∷ rows) s =
    elim (Bool-cases (inside (map_block_pos id) min max)) [
      | inr e ↦ rw e (row_loop-Counted batch min max rows s)
      | inl e ↦
          let p = map_block_pos id in
          let k = callback-Counted batch p s in
          let k' = row_loop-Counted batch min max rows (callback batch p s).1 in
          rw e (
            k'.0
                ∙ ap (λ q. q ++ ids_inside min max rows) k.0
                ∙ append_assoc (produced s) (map_block_id p ∷ []) (ids_inside min max rows),
            omega (arith, k.1, k'.1),
            omega (arith, k.2, k'.2),
          )
    ]

enqueue_rest_lem : (keys : List ℤ) (queue : Queue) → enqueue_rest keys queue ≡ queue ++ keys
unfolding enqueue_rest
enqueue_rest_lem [] queue = sym (append-nil queue)
enqueue_rest_lem (key ∷ keys) queue = enqueue_lem (key ∷ keys) queue

finish-produced : (s : Producing) → (finish s).map_block_queue ≡ produced s ++ tombstone ∷ []
unfolding finish set_tombstone
finish-produced s = ap (λ q. q ++ tombstone ∷ []) (enqueue_rest_lem s.keys s.map_block_queue)

module _ (list_blocks : ℤ → ℤ → List ℤ) (batch : ℕ) (min_pos max_pos : Pos) where
  abbrev pub rows_inside : List ℤ
  rows_inside =
      ids_inside min_pos max_pos (list_blocks (map_block_id min_pos) (map_block_id max_pos))

  -- Whatever the size of a batch, the producer appends to the queue the numbers of the rows that are
  -- inside the box, in the order of the rows, and then the tombstone; it counts each of them once.
  pub run_producer_lem :
      (queued : ℕ) (queue : Queue)
      → ((run_producer list_blocks batch min_pos max_pos queued queue).map_block_queue
          ≡ (queue ++ rows_inside) ++ tombstone ∷ [])
        × ((run_producer list_blocks batch min_pos max_pos queued queue).count ≡ length rows_inside)
        × ((run_producer list_blocks batch min_pos max_pos queued queue).queued_map_blocks
            ≡ queued + length rows_inside)
  unfolding run_producer produce_map_blocks finish
  run_producer_lem queued queue =
      let start : Producing = record {
        count = 0;
        queued_map_blocks = queued;
        keys = [];
        map_block_queue = queue;
      } in
      let rows = list_blocks (map_block_id min_pos) (map_block_id max_pos) in
      let k = row_loop-Counted batch min_pos max_pos rows start in
      (
        finish-produced (row_loop min_pos max_pos (callback batch) rows start).1
            ∙ ap (λ q. q ++ tombstone ∷ []) (k.0 ∙ ap (λ q. q ++ rows_inside) (append-nil queue)),
        omega (arith, k.1),
        k.2,
      )
