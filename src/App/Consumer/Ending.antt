-- ===== src/App/Consumer/Ending.antt =====
-- src/app/consumer.cc: how a run of a consumer ends.
use minetest_map_analyzer.Prelude.{ℕ, ◌≡◌, sym, subst, Bool, Option, none, some, List, [], ◌∷◌}
use minetest_map_analyzer.Prelude.Int.{ℤ}
use minetest_map_analyzer.Exceptions.{Result, ok, throw, Ends, Any}
use minetest_map_analyzer.Compression.{Zlib, Zstd}
use minetest_map_analyzer.Pos.{Pos}
use minetest_map_analyzer.App.BlockQueue.{Queue, NoTombstone, tombstone, set_tombstone}
use minetest_map_analyzer.App.NodeScan.{NodeIdMapExtraInfo}
use minetest_map_analyzer.App.State.{App}
use minetest_map_analyzer.App.Consumer.{
  Work, flush_rest, consume_loop, run_consumer, new_work, run_finished,
}
use minetest_map_analyzer.App.Consumer.Steps.{Consumed, LoopEnds, consume_loop-LoopEnds}

-- What a run of a consumer ends with: never with a wait, nor with a SerializationError.
abbrev pub RunEnds : {A : Type 0} → (A → Type 0) → Option (Result A) → Type 0
RunEnds P none = ⊥
RunEnds P (some result) = Ends P result

module _ (threshold : ℕ) (track_minegeld : Bool) (zlib : Zlib) (zstd : Zstd)
    (lookup : List ℕ → NodeIdMapExtraInfo) (load : Pos → Result (Option (List ℕ)))
    (load_ends : (p : Pos) → Ends Any (load p)) where
  abbrev pub final_app : List ℤ → Work → App
  final_app keys u =
      flush_rest u.anthropocene_list (record u.app { map_block_queue = tombstone ∷ [] })

  RunEnds-loop :
      (P : App → Type 0) (keys : List ℤ) (w : Work) (o : Option (Result (Queue × Work)))
      → ((u : Work) → Consumed threshold keys w u → P (final_app keys u))
      → LoopEnds threshold track_minegeld zlib zstd lookup load load_ends keys w o
      → RunEnds P (run_finished threshold track_minegeld zlib zstd lookup load o)
  RunEnds-loop P keys w none k h = h
  RunEnds-loop P keys w (some (throw e)) k h = h
  RunEnds-loop P keys w (some (ok (queue, u))) k (left, c) = rw left (k u c)

  -- A run ends in every `P` that holds behind the keys.
  pub run_consumer-RunEnds :
      (P : App → Type 0) (keys : List ℤ) (app : App)
      → NoTombstone keys
      → app.map_block_queue ≡ set_tombstone keys
      → ((u : Work) → Consumed threshold keys (new_work app) u → P (final_app keys u))
      → RunEnds P (run_consumer threshold track_minegeld zlib zstd lookup load app)
  unfolding run_consumer set_tombstone
  run_consumer-RunEnds P keys app h start k =
      subst
        (λ queue. RunEnds P (
          run_finished threshold track_minegeld zlib zstd lookup load
            (consume_loop threshold track_minegeld zlib zstd lookup load queue (new_work app))))
        (sym start)
        (RunEnds-loop P keys (new_work app) _ k (
          consume_loop-LoopEnds threshold track_minegeld zlib zstd lookup load load_ends keys
            (new_work app) h))
