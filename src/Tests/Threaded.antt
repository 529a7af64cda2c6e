-- ===== src/Tests/Threaded.antt =====
-- The threads of RunThreaded on a map of one block, which is marked.
use minetest_map_analyzer.Prelude.{
  length, inl, ℕ, zero, suc, some, ◌+◌, ◌*◌, ◌≤◌, ◌⊎◌, ◌<◌, ◌≡◌, refl, true, Option, List, [], ◌∷◌,
  arith,
}
use minetest_map_analyzer.Prelude.Int.{ℤ, pos, ◌-ℤ◌, ◌+ℤ◌}
use minetest_map_analyzer.Exceptions.{Result, ok}
use minetest_map_analyzer.Pos.{
  Pos, map_block_id, map_block_pos, inside, low_axis, rest_axes, quotient, pythonmodulo,
  unsigned_to_signed, block_as_int,
}
use minetest_map_analyzer.Sqlite.{
  Statement, Bindings, begin_transaction, commit_transaction, step_and_reset, step, step_result,
  write_row, bind_from, bind,
}
use minetest_map_analyzer.App.BlockQueue.{enqueue, set_tombstone, pop, popped, tombstone}
use minetest_map_analyzer.App.Preserve
use minetest_map_analyzer.App.Producer.{callback, flush_full}
use minetest_map_analyzer.App.Config.{Config, new_config}
use minetest_map_analyzer.App.State.{new_app, enqueue_map_block_pos}
use minetest_map_analyzer.App.Consumer.{
  note_anthropocene, flush_list, flush_rest, enqueue_preserve, consume_key, consume_raw, with_app,
  count_bad, new_work,
}
use minetest_map_analyzer.App.DataWriter
use minetest_map_analyzer.App.BlockWriter
use minetest_map_analyzer.App.Run
use minetest_map_analyzer.IdMap
use minetest_map_analyzer.App.Threaded.{
  Threaded, Main, Step, Reach, later, start, idle_wait, produce_row,
}
use minetest_map_analyzer.App.Threaded.Consuming.{Move, Phase}
use minetest_map_analyzer.MapDb.{load_map_block, loaded}
use minetest_map_analyzer.App.Threaded.Serial.{Follows, consume_key-Follows}
use minetest_map_analyzer.Tests.Blocks.{stored_zlib, stored_zstd}
use minetest_map_analyzer.App.Threaded.Ending.{IsFresh, HasWritten, all_rows}
use minetest_map_analyzer.App.Threaded.Ending.Runs.{run_threaded-HasWritten}
use minetest_map_analyzer.App.Threaded.Progress.Steps.{run_count}
use minetest_map_analyzer.App.Threaded.Progress.Runs.{IsBusy, CanStep, Stops}
use minetest_map_analyzer.App.Threaded.Progress.Ends.{run_threaded-IsBounded}
use minetest_map_analyzer.Tests.Application.{logging, lookup, load, fresh_database, nothing_found}

abbrev config : Config
config = record new_config { preserve_radius = pos 0 }

abbrev rows : ℤ → ℤ → List ℤ
rows lo hi = pos 0 ∷ []

-- LoadMapBlock finds some bytes for each block.
abbrev one_block : Pos → Result (Option (List ℕ))
one_block p = ok (some (7 ∷ []))

abbrev Log : Type 0
Log = List (Statement × Bindings)

abbrev first_state : Threaded Log
first_state = start logging config lookup one_block rows new_app fresh_database

-- The producer finds the block, enqueues it and sets the tombstone.
produced :
    (s : Threaded Log) × Reach logging config lookup one_block 1 first_state s × (s.produced ≡ true)
unfolding produce_row callback flush_full inside map_block_pos low_axis rest_axes quotient
    pythonmodulo unsigned_to_signed map_block_id block_as_int enqueue set_tombstone ◌-ℤ◌ ◌+ℤ◌
produced = (
  _,
  Reach.later
      (Reach.later (Reach.later Reach.here (Step.row (pos 0) [] refl))
        (Step.last_batch (pos 0) [] refl refl))
      (Step.end_keys refl refl refl),
  refl,
)

-- The consumer takes the block, reads and marks it, sees the tombstone and leaves.
consumed :
    (s : Threaded Log) × Reach logging config lookup one_block 1 first_state s
    × (s.app.map_block_queue ≡ tombstone ∷ [])
unfolding produced produce_row callback flush_full inside map_block_pos low_axis rest_axes quotient
    pythonmodulo unsigned_to_signed map_block_id block_as_int enqueue set_tombstone ◌-ℤ◌ ◌+ℤ◌ pop
    popped enqueue_map_block_pos note_anthropocene flush_list flush_rest enqueue_preserve
    Preserve.enqueue
consumed =
    let (s, before, ended) = produced in
    (
      _,
      later
          (later
            (later
              (later
                (later
                  (later
                    (later
                      (later before (
                        Step.consume 0 _ _ (omega arith)
                          (Move.take (pos 0) (tombstone ∷ []) [] refl refl)))
                      (Step.consume 0 _ _ (omega arith) (Move.parsed (pos 0) [] (7 ∷ []) refl)))
                    (Step.consume 0 _ _ (omega arith) (Move.scanned (pos 0) [] [] 0 true)))
                  (Step.consume 0 _ _ (omega arith) (Move.write (pos 0) [] 0 true)))
                (Step.consume 0 _ _ (omega arith) (Move.push (pos 0) [] true)))
              (Step.consume 0 _ _ (omega arith) (Move.note (pos 0) [] true)))
            (Step.consume 0 _ _ (omega arith)
              (Move.stop tombstone (tombstone ∷ []) (map_block_pos (pos 0) ∷ []) refl refl)))
          (Step.consume 0 _ _ (omega arith) (Move.leave (map_block_pos (pos 0) ∷ []))),
      refl,
    )

only_first : (P : ℕ → Type 0) → P 0 → (i : ℕ) → i < 1 → P i
only_first P h zero lt = h
only_first P h (suc i) lt = absurd (omega arith)

-- The main thread joins the consumer, the merging thread takes its packet and ends, and the main thread
-- writes the block.
finished :
    (s : Threaded Log) × Reach logging config lookup one_block 1 first_state s
    × (s.main ≡ Main.finished)
unfolding consumed produced produce_row callback flush_full inside map_block_pos low_axis rest_axes
    quotient pythonmodulo unsigned_to_signed map_block_id block_as_int enqueue set_tombstone ◌-ℤ◌
    ◌+ℤ◌ pop popped enqueue_map_block_pos note_anthropocene flush_list flush_rest enqueue_preserve
    Preserve.enqueue Preserve.set_tombstone idle_wait DataWriter.flush_actor_id_map IdMap.get_dirty
    DataWriter.write_actors DataWriter.flush_node_id_map DataWriter.write_names
    DataWriter.flush_node_queue DataWriter.write_queue BlockWriter.flush_block_queue
    begin_transaction commit_transaction step_and_reset step step_result BlockWriter.block_loop
    Run.apply_preserve_flags write_row bind_from bind IdMap.dirty_loop
finished =
    let s = consumed.0 in
    let before = consumed.1 in
    (
      _,
      later
          (later
            (later
              (later
                (later
                  (later
                    (later
                      (later
                        (later (later before (Step.watched refl refl)) (
                          Step.joined refl refl
                            (only_first (λ i. (s.local i).phase ≡ Phase.gone) refl)))
                        (Step.take_packet (map_block_pos (pos 0)) [] ([] ∷ []) refl refl))
                      (Step.merge_packet (map_block_pos (pos 0) ∷ []) refl))
                    (Step.end_merge [] refl refl))
                  (Step.flushed_actors _ _ refl refl))
                (Step.flushed_nodes _ _ refl refl))
              (Step.flushed_queue _ _ refl refl))
            (Step.joined_merger refl refl))
          (Step.flushed_blocks _ _ refl refl),
      refl,
    )

new_app-IsFresh : IsFresh new_app
new_app-IsFresh = record {
  no_keys = refl;
  no_packets = refl;
  unmarked = nothing_found;
  counted = refl;
  pushed = refl;
}

run_threaded-HasWritten_example :
    (finished.0.app.stats.good_map_blocks + finished.0.app.stats.bad_map_blocks
      ≡ 0 + length (all_rows config rows))
    × (finished.0.app.stats.queued_map_blocks ≡ 0 + length (all_rows config rows))
    × HasWritten logging (pos 0) finished.0.app.stats.good_map_blocks finished.0.db
run_threaded-HasWritten_example =
    run_threaded-HasWritten logging config lookup one_block 1 (omega arith) (omega arith) rows
      new_app fresh_database finished.0 new_app-IsFresh (λ stmt. inl refl) finished.1 finished.2

run_threaded-IsBounded_example :
    (run_count logging config lookup one_block 1 finished.1 ≤ 10 * 1 + 4 * 1 + 20)
    × (IsBusy logging config lookup one_block 1 finished.0
        ⊎ (CanStep logging config lookup one_block 1 finished.0
            ⊎ (Stops logging config lookup one_block 1 finished.0
                ⊎ (finished.0.main ≡ Main.finished))))
run_threaded-IsBounded_example =
    run_threaded-IsBounded logging config lookup one_block 1 (omega arith) (omega arith) rows
      new_app fresh_database finished.0 new_app-IsFresh (λ stmt. inl refl) finished.1

-- A consumer on its own finds no block of the number 1.
missing_round :
    consume_key 2048 true stored_zlib stored_zstd lookup load (pos 1) (new_work new_app)
    ≡ ok (with_app count_bad (new_work new_app))
unfolding consume_key consume_raw load_map_block loaded map_block_pos low_axis rest_axes quotient
    pythonmodulo unsigned_to_signed map_block_id block_as_int ◌-ℤ◌ ◌+ℤ◌
missing_round = refl

consume_key-Follows_example :
    Follows 2048 lookup load (pos 1) (new_work new_app) (with_app count_bad (new_work new_app))
consume_key-Follows_example =
    consume_key-Follows 2048 lookup load true stored_zlib stored_zstd (pos 1) (new_work new_app)
      (with_app count_bad (new_work new_app)) missing_round
