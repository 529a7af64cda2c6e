-- ===== src/App/BlockQueue/Threads.antt =====
-- src/app/mapblock_queue.h between the producer of src/app/producer.cc and the consumers of
-- src/app/consumer.cc: their calls of the queue, interleaved in any order. A call holds the mutex, so that
-- it is one step; a call of Pop that waits is no step.
pub mod Received
use minetest_map_analyzer.Prelude.{
  ℕ, ◌<◌, ◌≡◌, Bool, true, false, some, List, [], ◌∷◌, ◌++◌, ◌==◌, if◌then◌else◌,
}
use minetest_map_analyzer.Prelude.Int.{ℤ}
use minetest_map_analyzer.App.BlockQueue.{Queue, enqueue, set_tombstone, pop, is_tombstone}

-- The queue, the keys that the producer has yet to enqueue, whether it has set the tombstone, what each
-- consumer received, in the order of the calls, and the consumers that saw the tombstone.
pub record Threads : Type 0 where
  pub queue : Queue
  pub left : List ℤ
  pub ended : Bool
  pub received : List (ℕ × ℤ)
  pub gone : ℕ → Bool

abbrev pub init : List ℤ → Threads
init keys = record { queue = []; left = keys; ended = false; received = []; gone = λ i. false }

-- One call, with `n` consumers: a batch that is enqueued, the tombstone at the end, a consumer that
-- receives a key, or one that receives the tombstone and leaves its loop.
pub data Step (n : ℕ) (s : Threads) : Threads → Type 0 where
  produce :
      (key : ℤ) (keys rest : List ℤ)
      → s.left ≡ (key ∷ keys) ++ rest
      → Step n s (record s { queue = enqueue (key ∷ keys) s.queue; left = rest })
  finish :
      s.left ≡ []
      → s.ended ≡ false
      → Step n s (record s { queue = set_tombstone s.queue; ended = true })
  receive :
      (i : ℕ) (key : ℤ) (rest : Queue)
      → i < n
      → s.gone i ≡ false
      → pop s.queue ≡ some (key, rest)
      → is_tombstone key ≡ false
      → Step n s (record s { queue = rest; received = s.received ++ (i, key) ∷ [] })
  leave :
      (i : ℕ) (key : ℤ) (rest : Queue)
      → i < n
      → s.gone i ≡ false
      → pop s.queue ≡ some (key, rest)
      → is_tombstone key ≡ true
      → Step n s (record s { queue = rest; gone = λ j. if j == i then true else s.gone j })

pub data Reach (n : ℕ) (keys : List ℤ) : Threads → Type 0 where
  start : Reach n keys (init keys)
  later : {s t : Threads} → Reach n keys s → Step n s t → Reach n keys t
