-- ===== src/App/Producer.antt =====
-- src/app/producer.cc, and ProduceMapBlocks of src/lib/database/db-map-sqlite3.cc: the thread that
-- reads the numbers of the blocks of a map. A count is a number that does not reach 2 ^ 63.
pub mod Batches
pub mod Complete
use minetest_map_analyzer.Prelude.{
  ℕ, zero, suc, ◌+◌, ◌≤◌, ◌≡◌, refl, ap, sym, ◌∙◌, subst, Bool, true, false, List, [], ◌∷◌, ◌++◌,
  map, append_assoc, append-nil, length, leb, if◌then◌else◌, Bool-cases, inl, inr, arith,
}
use minetest_map_analyzer.Prelude.Int.{ℤ}
use minetest_map_analyzer.Pos.{Pos, inside, map_block_id, map_block_pos}
use minetest_map_analyzer.App.BlockQueue.{Queue, enqueue, enqueue_lem, set_tombstone, tombstone}

-- The rest of a loop, unless the callback has ended it.
abbrev pub unless_stopped : {S : Type 0} → (S → Bool × S) → Bool × S → Bool × S
unless_stopped loop (true, s) = loop s
unless_stopped loop (false, s) = (false, s)

module _ {S : Type 0} (min max : Pos) (callback : Pos → S → Bool × S) where
  -- The loop over the rows: a block outside the box is passed over, and the callback may end it.
  unfoldable pub row_loop : List ℤ → S → Bool × S
  row_loop [] s = (true, s)
  row_loop (id ∷ rows) s =
      if inside (map_block_pos id) min max
      then unless_stopped (row_loop rows) (callback (map_block_pos id) s)
      else row_loop rows s

-- `select pos from blocks where pos between :min_pos and :max_pos`, a statement of the database.
module _ {S : Type 0} (list_blocks : ℤ → ℤ → List ℤ) where
  -- MapInterfaceSqlite3::ProduceMapBlocks
  unfoldable pub produce_map_blocks : Pos → Pos → (Pos → S → Bool × S) → S → Bool × S
  produce_map_blocks min max callback s =
      row_loop min max callback (list_blocks (map_block_id min) (map_block_id max)) s

-- The locals of RunProducer, with what it changes of the App.
pub record Producing : Type 0 where
  pub count : ℕ
  pub queued_map_blocks : ℕ
  pub keys : List ℤ
  pub map_block_queue : Queue

-- A batch that is full goes to the queue.
unfoldable pub flush_full : ℕ → Producing → Producing
flush_full producer_batch_size s =
    if leb producer_batch_size (length s.keys)
    then record s { keys = []; map_block_queue = enqueue s.keys s.map_block_queue }
    else s

-- The callback of RunProducer
unfoldable pub callback : ℕ → Pos → Producing → Bool × Producing
callback producer_batch_size p s = (
  true,
  flush_full producer_batch_size (record s {
    count = s.count + 1;
    queued_map_blocks = s.queued_map_blocks + 1;
    keys = s.keys ++ map_block_id p ∷ [];
  }),
)

-- `if (!keys.empty()) map_block_queue_.Enqueue(keys)`
unfoldable pub enqueue_rest : List ℤ → Queue → Queue
enqueue_rest [] queue = queue
enqueue_rest (key ∷ keys) queue = enqueue (key ∷ keys) queue

-- The end of RunProducer: the rest of the keys, and the tombstone.
unfoldable pub finish : Producing → Producing
finish s = record s { map_block_queue = set_tombstone (enqueue_rest s.keys s.map_block_queue) }

module _ (list_blocks : ℤ → ℤ → List ℤ) (producer_batch_size : ℕ) (min_pos max_pos : Pos) where
  -- App::RunProducer
  unfoldable pub run_producer : ℕ → Queue → Producing
  run_producer queued queue =
      finish
        (produce_map_blocks list_blocks min_pos max_pos (callback producer_batch_size)
          (record { count = 0; queued_map_blocks = queued; keys = []; map_block_queue = queue })).1
