-- ===== src/Tests/Threads.antt =====
-- The queue of keys between a producer and two consumers.
use minetest_map_analyzer.Prelude.{
  ◌≡◌, refl, true, false, List, [], ◌∷◌, ◌==◌, if◌then◌else◌, arith,
}
use minetest_map_analyzer.Prelude.Int.{ℤ, pos}
use minetest_map_analyzer.App.BlockQueue.{enqueue, set_tombstone, pop, popped, tombstone}
use minetest_map_analyzer.App.BlockQueue.Threads.{Threads, Step, Reach, init}
use minetest_map_analyzer.App.BlockQueue.Threads.Received.{keys_of, received_all}

abbrev keys : List ℤ
keys = pos 4 ∷ pos 9 ∷ []

-- The producer enqueues both keys, and sets the tombstone; each consumer receives one of them, the second
-- consumer the first key, and leaves.
abbrev enqueued : Threads
enqueued = record (init keys) { queue = enqueue keys []; left = [] }

abbrev all_sent : Threads
all_sent = record enqueued { queue = set_tombstone (enqueue keys []); ended = true }

abbrev after_first : Threads
after_first = record all_sent { queue = pos 9 ∷ tombstone ∷ []; received = (1, pos 4) ∷ [] }

abbrev after_second : Threads
after_second = record all_sent { queue = tombstone ∷ []; received = (1, pos 4) ∷ (0, pos 9) ∷ [] }

abbrev one_gone : Threads
one_gone = record after_second { gone = λ j. if j == 1 then true else false }

reach_all_sent : Reach 2 keys all_sent
reach_all_sent =
    Reach.later (Reach.later Reach.start (Step.produce (pos 4) (pos 9 ∷ []) [] refl))
      (Step.finish refl refl)

receive_first : Step 2 all_sent after_first
unfolding pop popped enqueue set_tombstone
receive_first = Step.receive 1 (pos 4) (pos 9 ∷ tombstone ∷ []) (omega arith) refl refl refl

receive_second : Step 2 after_first after_second
unfolding pop popped
receive_second = Step.receive 0 (pos 9) (tombstone ∷ []) (omega arith) refl refl refl

leave_second : Step 2 after_second one_gone
unfolding pop popped
leave_second = Step.leave 1 tombstone (tombstone ∷ []) (omega arith) refl refl refl

reach_one_gone : Reach 2 keys one_gone
reach_one_gone =
    Reach.later (Reach.later (Reach.later reach_all_sent receive_first) receive_second) leave_second

received_all_example : keys_of ((1, pos 4) ∷ (0, pos 9) ∷ []) ≡ keys
received_all_example = received_all 2 keys one_gone 1 (refl, (refl, tt)) reach_one_gone refl
