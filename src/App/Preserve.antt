-- ===== src/App/Preserve.antt =====
-- src/app/preserve_queue.h and preserve_queue.cc: the blocks around those that a player has built in.
-- A std::unordered_set is the list of its items, without repetition, in the order of insertion. An int
-- is the integer that it stands for, and `pos.z - r` and `pos.z + r` are taken not to overflow.
pub mod Merge
pub mod Loops
pub mod Radius
use minetest_map_analyzer.Prelude.{
  ℕ, zero, suc, Option, none, some, Bool, List, [], ◌∷◌, ◌++◌, if◌then◌else◌,
}
use minetest_map_analyzer.Prelude.Int.{ℤ, pos, ◌+ℤ◌, ◌-ℤ◌, pos_part, to_u16, signed16}
use minetest_map_analyzer.Pos.{Pos, pos_eq}

-- MapBlockPosSet
abbrev pub PosSet : Type 0
PosSet = List Pos

-- `final_queue_.insert(pos)`
unfoldable pub insert_pos : Pos → PosSet → PosSet
insert_pos p [] = p ∷ []
insert_pos p (q ∷ set) = if pos_eq p q then q ∷ set else q ∷ insert_pos p set

module _ {S : Type 0} where
  -- The rounds of a `for` loop: `count` of them are left, and `c` is the variable.
  unfoldable pub for_range : (ℤ → S → S) → ℤ → ℕ → S → S
  for_range body c zero state = state
  for_range body c (suc count) state = for_range body (c +ℤ pos 1) count (body c state)

  -- `for (int c = lo; c <= hi; ++c)`, which is hi - lo + 1 rounds, or none.
  unfoldable pub for_upto : (ℤ → S → S) → ℤ → ℤ → S → S
  for_upto body lo hi state = for_range body lo (pos_part ((hi +ℤ pos 1) -ℤ lo)) state

-- `MapBlockPos(x, y, z)` of ints, which are converted to int16_t.
abbrev pub block_at : ℤ → ℤ → ℤ → Pos
block_at x y z = record {
  x = signed16 (to_u16 x);
  y = signed16 (to_u16 y);
  z = signed16 (to_u16 z);
}

-- The loops around one position.
unfoldable pub merge_position : ℤ → Pos → PosSet → PosSet
merge_position r p final =
    for_upto
      (λ z.
        for_upto (λ y. for_upto (λ x. insert_pos (block_at x y z)) (p.x -ℤ r) (p.x +ℤ r)) (p.y -ℤ r)
          (p.y +ℤ r))
      (p.z -ℤ r) (p.z +ℤ r) final

-- PreserveQueue::DoMerge
unfoldable pub do_merge : ℤ → List Pos → PosSet → PosSet
do_merge preserve_radius [] final = final
do_merge preserve_radius (p ∷ positions) final =
    do_merge preserve_radius positions (merge_position preserve_radius p final)

-- `merge_queue_` and `final_queue_`. The packet that is empty is the tombstone.
pub record PreserveQueue : Type 0 where
  pub merge_queue : List (List Pos)
  pub final_queue : PosSet

-- PreserveQueue::Enqueue
unfoldable pub enqueue : List Pos → PreserveQueue → PreserveQueue
enqueue [] q = q
enqueue (p ∷ positions) q = record q { merge_queue = q.merge_queue ++ (p ∷ positions) ∷ [] }

-- PreserveQueue::SetTombstone
unfoldable pub set_tombstone : PreserveQueue → PreserveQueue
set_tombstone q = record q { merge_queue = q.merge_queue ++ [] ∷ [] }

-- PreserveQueue::MergeThread, on a queue that no other thread adds to. `none` where it waits for a
-- packet forever; a tombstone stays in the queue.
unfoldable pub merge_thread : ℤ → List (List Pos) → PosSet → Option PreserveQueue
merge_thread r [] final = none
merge_thread r ([] ∷ packets) final =
    some (record { merge_queue = [] ∷ packets; final_queue = final })
merge_thread r ((p ∷ positions) ∷ packets) final =
    merge_thread r packets (do_merge r (p ∷ positions) final)

-- PreserveQueue::SurrenderFinalSet
unfoldable pub surrender_final_set : PreserveQueue → PosSet × PreserveQueue
surrender_final_set q = (q.final_queue, record q { final_queue = [] })
