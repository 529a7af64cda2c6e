-- ===== src/App/Run/Runs.antt =====
-- App::RunSerially of src/app/app.cc: phases one after the other, and the keys of the first.
use minetest_map_analyzer.Prelude.{
  ◌≡◌, Option, none, some, List, [], ◌∷◌, false, Bool-cases, inl, inr, arith,
}
use minetest_map_analyzer.Prelude.Int.{ℤ}
use minetest_map_analyzer.Exceptions.{Result, ok, throw}
use minetest_map_analyzer.Pos.{Pos, inside, map_block_id, map_block_pos}
use minetest_map_analyzer.Pos.Ids.{IsBlockPos, map_block_pos-IsBlockPos, map_block_id_parts}
use minetest_map_analyzer.App.BlockQueue.{NoTombstone, is_tombstone}
use minetest_map_analyzer.App.Consumer.Ending.{RunEnds}
use minetest_map_analyzer.App.Run.{bind_run}
use minetest_map_analyzer.App.Producer.Batches.{ids_inside}

-- The number of a block is never the tombstone.
pub not_tombstone : (p : Pos) → IsBlockPos p → is_tombstone (map_block_id p) ≡ false
not_tombstone p h = ground (arith, map_block_id_parts p h)

pub ids_inside-NoTombstone : (min max : Pos) (rows : List ℤ) → NoTombstone (ids_inside min max rows)
ids_inside-NoTombstone min max [] = tt
ids_inside-NoTombstone min max (id ∷ rows) = elim (Bool-cases (inside (map_block_pos id) min max)) [
  | inl e ↦ rw e (
    not_tombstone (map_block_pos id) (map_block_pos-IsBlockPos id),
    ids_inside-NoTombstone min max rows,
  )
  | inr e ↦ rw e (ids_inside-NoTombstone min max rows)
]

pub RunEnds-bind_run :
    {A B : Type 0} (P : A → Type 0) (Q : B → Type 0) (o : Option (Result A))
    (f : A → Option (Result B))
    → RunEnds P o
    → ((a : A) → P a → RunEnds Q (f a))
    → RunEnds Q (bind_run o f)
RunEnds-bind_run P Q none f h k = h
RunEnds-bind_run P Q (some (ok a)) f h k = k a h
RunEnds-bind_run P Q (some (throw e)) f h k = h

pub RunEnds-both :
    {A : Type 0} (P Q : A → Type 0) (o : Option (Result A))
    → RunEnds P o
    → RunEnds Q o
    → RunEnds (λ a. P a × Q a) o
RunEnds-both P Q none h k = h
RunEnds-both P Q (some (ok a)) h k = (h, k)
RunEnds-both P Q (some (throw e)) h k = h
