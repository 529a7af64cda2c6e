-- ===== src/App/Threaded/Progress/Ends.antt =====
-- App::RunThreaded of src/app/app.cc: the length of a run, and where it can stand still.
use minetest_map_analyzer.Prelude.{
  ℕ, zero, suc, ◌+◌, ◌*◌, ◌<◌, ◌≤◌, ◌≡◌, ◌⊎◌, refl, ap, sym, ◌∙◌, true, Option, List, [], ◌∷◌, ◌++◌,
  append-nil, length, Bool-cases, inl, inr, arith,
}
use minetest_map_analyzer.Prelude.Int.{ℤ, pos, ◌≤ℤ◌}
use minetest_map_analyzer.Prelude.Families.{total}
use minetest_map_analyzer.Exceptions.{Result}
use minetest_map_analyzer.Pos.{Pos, map_block_id}
use minetest_map_analyzer.Sqlite.{Sqlite, SqliteDb}
use minetest_map_analyzer.Sqlite.Bound.{IsReady}
use minetest_map_analyzer.App.BlockQueue.{tombstone}
use minetest_map_analyzer.App.BlockQueue.Threads.Received.{tail}
use minetest_map_analyzer.App.NodeScan.{NodeIdMapExtraInfo}
use minetest_map_analyzer.App.Config.{Config}
use minetest_map_analyzer.App.State.{App}
use minetest_map_analyzer.App.Threaded.{Threaded, Main, Step, Reach, start}
use minetest_map_analyzer.App.Threaded.Consuming.{new_local}
use minetest_map_analyzer.App.Threaded.Fed.{saw_end}
use minetest_map_analyzer.App.Threaded.Steps.Kept.{Orderly}
use minetest_map_analyzer.App.Threaded.Covered.Kept.{IsSafe}
use minetest_map_analyzer.App.Threaded.Covered.Runs.{Reach-Safe}
use minetest_map_analyzer.App.Threaded.Ending.{IsFresh, start-Orderly, start-Safe, all_rows}
use minetest_map_analyzer.App.Threaded.Progress.{cost, local_cost}
use minetest_map_analyzer.App.Threaded.Progress.Steps.{run_count, Step-cost}
use minetest_map_analyzer.App.Threaded.Progress.Runs.{
  IsBusy, CanStep, Stops, Goes, find_present, queue_front, consume-Goes, main-Goes,
}

total_new : (n : ℕ) → total local_cost n (λ i. new_local) ≡ 4 * n
total_new zero = refl
total_new (suc n) = omega (arith, total_new n)

module _ {D : Type 0} (sqlite : Sqlite D) (config : Config) (lookup : List ℕ → NodeIdMapExtraInfo)
    (load : Pos → Result (Option (List ℕ))) (n : ℕ) (some_consumer : 0 < n)
    (hr : config.preserve_radius ≤ℤ pos 30000) where
  module _ (all : ℕ) where
    -- The rows are used up, and the tombstone is set.
    produced-Goes :
        (s : Threaded D)
        → s.produced ≡ true
        → Orderly sqlite config lookup load n all s
        → IsSafe config.preserve_radius s
        → Goes sqlite config lookup load n s
    produced-Goes s ended o h =
        let (left, f) = o.fed in
        let no_keys = (o.at_end ended).1 in
        let queue = f.in_queue ∙ ap (λ b. left ++ tail b) ended in
        elim (find_present n s.local) [
          | inr (i, lt, present) ↦
              let (key, rest, e) = queue_front left s.app.map_block_queue s.keys no_keys queue in
              consume-Goes sqlite config lookup load n s i key rest lt present e
          | inl gone ↦
              let saw : saw_end (s.local 0) ≡ true = rw (gone 0 some_consumer) refl in
              let alone : s.app.map_block_queue ≡ tombstone ∷ [] =
                sym (append-nil s.app.map_block_queue)
                ∙ ap (λ k. s.app.map_block_queue ++ k) (sym no_keys)
                ∙ queue
                ∙ ap (λ l. l ++ tombstone ∷ []) (f.seen 0 saw).1 in
              main-Goes sqlite config lookup load n s s.main refl ended gone alone h
        ]

    list_cases : (l : List ℤ) → (l ≡ []) ⊎ ((x : ℤ) × (rest : List ℤ) × (l ≡ x ∷ rest))
    list_cases [] = inl refl
    list_cases (x ∷ rest) = inr (x, rest, refl)

    -- Some consumer is busy with a block, or some thread can take a step, unless the run has ended.
    some_step :
        (s : Threaded D)
        → Orderly sqlite config lookup load n all s
        → IsSafe config.preserve_radius s
        → Goes sqlite config lookup load n s
    some_step s o h = elim (list_cases s.rows) [
      | inr (id, rest, e) ↦ inr (inl (_, Step.row id rest e, refl))
      | inl e ↦ elim (list_cases s.keys) [
        | inr (key, keys, k) ↦ inr (inl (_, Step.last_batch key keys e k, refl))
        | inl k ↦ elim (Bool-cases s.produced) [
          | inr more ↦ inr (inl (_, Step.end_keys e k more, refl))
          | inl ended ↦ produced-Goes s ended o h
        ]
      ]
    ]

    -- What a run has cost.
    Reach-cost :
        (first s : Threaded D) (run : Reach sqlite config lookup load n first s)
        → Orderly sqlite config lookup load n all first
        → IsSafe config.preserve_radius first
        → cost n s + run_count sqlite config lookup load n run ≤ cost n first
    Reach-cost first s Reach.here o h = omega arith
    Reach-cost first s (Reach.later {s = v} run step) o h =
        let (ordered, safe) = Reach-Safe sqlite config lookup load n all hr first v run o h in
        let less = Step-cost sqlite config lookup load n all v s step ordered in
        omega (arith, less, Reach-cost first v run o h)

  -- Whatever the order of the steps, from an App that had not begun and a database that was ready, with one
  -- consumer at least and a radius of at most 30000: a run has at most 10 steps for each row of the statement,
  -- 4 for each consumer and 20 others, where the names that a consumer adds while it is busy with a block are
  -- not counted; and no run stands still, since in every state some consumer is busy with a block, between
  -- LoadMapBlock and the end of the loop over the nodes, or some thread can take a step that is counted, unless
  -- the main thread is at its end, or stands before a flush that throws.
  pub run_threaded-IsBounded :
      (list_blocks : ℤ → ℤ → List ℤ) (app : App) (db : SqliteDb D) (s : Threaded D)
      → IsFresh app
      → IsReady db
      → (run : Reach sqlite config lookup load n
          (start sqlite config lookup load list_blocks app db)
          s)
      → (run_count sqlite config lookup load n run
          ≤ 10 * length (list_blocks (map_block_id config.min_pos) (map_block_id config.max_pos))
            + 4 * n
            + 20)
        × (IsBusy sqlite config lookup load n s
            ⊎ (CanStep sqlite config lookup load n s
                ⊎ (Stops sqlite config lookup load n s ⊎ (s.main ≡ Main.finished))))
  run_threaded-IsBounded list_blocks app db s f ready run =
      let first = start sqlite config lookup load list_blocks app db in
      let all = app.stats.queued_map_blocks + length (all_rows config list_blocks) in
      let ordered = start-Orderly sqlite config lookup load n list_blocks app db all refl f ready in
      let safe = start-Safe sqlite config lookup load n list_blocks app db f in
      let (o, h) = Reach-Safe sqlite config lookup load n all hr first s run ordered safe in
      let keys : length app.map_block_queue ≡ 0 = ap length f.no_keys in
      let packets : length app.preserve_queue.merge_queue ≡ 0 = ap length f.no_packets in
      let paid = Reach-cost all first s run ordered safe in
      (omega (arith, paid, keys, packets, total_new n), some_step all s o h)
