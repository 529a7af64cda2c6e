-- ===== src/App/Threaded/Progress/Steps.antt =====
-- App::RunThreaded of src/app/app.cc: every step brings the run nearer to its end.
use minetest_map_analyzer.Prelude.{
  ℕ, suc, ◌+◌, ◌*◌, ◌≤◌, ◌≡◌, refl, ap, ◌∙◌, Option, List, [], ◌∷◌, length, length-append, arith,
}
use minetest_map_analyzer.Prelude.Families.{total-update}
use minetest_map_analyzer.Exceptions.{Result}
use minetest_map_analyzer.Pos.{Pos}
use minetest_map_analyzer.Sqlite.{Sqlite}
use minetest_map_analyzer.App.BlockQueue.{tombstone, set_tombstone, enqueue_lem}
use minetest_map_analyzer.App.NodeScan.{NodeIdMapExtraInfo}
use minetest_map_analyzer.App.Config.{Config}
use minetest_map_analyzer.App.State.{App}
use minetest_map_analyzer.App.Preserve
use minetest_map_analyzer.App.Preserve.{surrender_final_set}
use minetest_map_analyzer.App.Run.{apply_preserve_flags}
use minetest_map_analyzer.App.Threaded.{Threaded, Step, Reach, producing}
use minetest_map_analyzer.App.Threaded.Views.{
  view, flush_actor_id_map-view, flush_node_id_map-view, flush_node_queue-view,
  flush_block_queue-IsWritten,
}
use minetest_map_analyzer.App.Threaded.Steps.Kept.{Orderly, before}
use minetest_map_analyzer.App.Threaded.Progress.{
  cost, local_cost, merger_cost, main_cost, queue_cost, produce_row-cost, move_count, Move-cost,
}

-- A flush leaves the queues.
same_cost : (app app' : App) → view app' ≡ view app → queue_cost app' ≡ queue_cost app
same_cost app app' e = ap (λ v. 8 * length v.queue + 2 * length v.preserve.merge_queue) e

module _ {D : Type 0} (sqlite : Sqlite D) (config : Config) (lookup : List ℕ → NodeIdMapExtraInfo)
    (load : Pos → Result (Option (List ℕ))) (n : ℕ) where
  -- 0 for a name that a consumer adds while it is busy with a block, and 1 for every other step.
  abbrev pub step_count : {s t : Threaded D} → Step sqlite config lookup load n s t → ℕ
  step_count (Step.row id rest e) = 1
  step_count (Step.last_batch key keys e k) = 1
  step_count (Step.end_keys e k more) = 1
  step_count (Step.consume i app l lt move) =
      move_count config.anthropocene_flush_threshold lookup load move
  step_count (Step.take_packet p positions packets e q) = 1
  step_count (Step.merge_packet packet e) = 1
  step_count (Step.end_merge packets e q) = 1
  step_count (Step.watched e w) = 1
  step_count (Step.joined e ended gone) = 1
  step_count (Step.flushed_actors app db e f) = 1
  step_count (Step.flushed_nodes app db e f) = 1
  step_count (Step.flushed_queue app db e f) = 1
  step_count (Step.joined_merger e m) = 1
  step_count (Step.flushed_blocks app db e f) = 1

  -- The steps of a run, without the names.
  abbrev pub run_count : {s t : Threaded D} → Reach sqlite config lookup load n s t → ℕ
  run_count Reach.here = 0
  run_count (Reach.later run step) = run_count run + step_count step

  module _ (all : ℕ) where
    pub Step-cost :
        (s t : Threaded D) (step : Step sqlite config lookup load n s t)
        → Orderly sqlite config lookup load n all s
        → cost n t + step_count step ≤ cost n s
    unfolding set_tombstone Preserve.set_tombstone apply_preserve_flags surrender_final_set
    Step-cost s t (Step.row id rest e) o =
        let c = produce_row-cost sqlite config lookup load id (producing s) in
        let len : length s.rows ≡ suc (length rest) = ap length e in omega (arith, c, len)
    Step-cost s t (Step.last_batch key keys e k) o =
        let len : length s.keys ≡ length (key ∷ keys) = ap length k in
        let queue =
          ap length (enqueue_lem (key ∷ keys) s.app.map_block_queue)
          ∙ length-append s.app.map_block_queue (key ∷ keys) in
        omega (arith, len, queue)
    Step-cost s t (Step.end_keys e k more) o =
        let queue = length-append s.app.map_block_queue (tombstone ∷ []) in
        rw more (omega (arith, queue))
    Step-cost s t (Step.consume i app l lt move) o =
        let less =
          Move-cost config.anthropocene_flush_threshold lookup load s.app app (s.local i) l move in
        let sums = total-update local_cost n s.local i l lt in omega (arith, sums, less)
    Step-cost s t (Step.take_packet p positions packets e q) o =
        let c : merger_cost s.merger ≡ 1 = ap merger_cost e in
        let len : length s.app.preserve_queue.merge_queue ≡ suc (length packets) = ap length q in
        omega (arith, c, len)
    Step-cost s t (Step.merge_packet packet e) o =
        let c : merger_cost s.merger ≡ 2 = ap merger_cost e in omega (arith, c)
    Step-cost s t (Step.end_merge packets e q) o =
        let c : merger_cost s.merger ≡ 1 = ap merger_cost e in omega (arith, c)
    Step-cost s t (Step.watched e w) o =
        let c : main_cost s.main ≡ 10 = ap main_cost e in omega (arith, c)
    Step-cost s t (Step.joined e ended gone) o =
        let c : main_cost s.main ≡ 9 = ap main_cost e in
        omega (arith, c, length-append s.app.preserve_queue.merge_queue ([] ∷ []))
    Step-cost s t (Step.flushed_actors app db e f) o =
        let ready = (before sqlite config lookup load n all s e refl o.unwritten).1 in
        let same =
          same_cost s.app app (flush_actor_id_map-view sqlite s.app s.db app db ready f).0 in
        let c : main_cost s.main ≡ 6 = ap main_cost e in omega (arith, c, same)
    Step-cost s t (Step.flushed_nodes app db e f) o =
        let ready = (before sqlite config lookup load n all s e refl o.unwritten).1 in
        let same =
          same_cost s.app app (flush_node_id_map-view sqlite s.app s.db app db ready f).0 in
        let c : main_cost s.main ≡ 5 = ap main_cost e in omega (arith, c, same)
    Step-cost s t (Step.flushed_queue app db e f) o =
        let ready = (before sqlite config lookup load n all s e refl o.unwritten).1 in
        let same = same_cost s.app app (flush_node_queue-view sqlite s.app s.db app db ready f).0 in
        let c : main_cost s.main ≡ 4 = ap main_cost e in omega (arith, c, same)
    Step-cost s t (Step.joined_merger e m) o =
        let c : main_cost s.main ≡ 3 = ap main_cost e in omega (arith, c)
    Step-cost s t (Step.flushed_blocks app db e f) o =
        let w = flush_block_queue-IsWritten sqlite s.app s.db app db f in
        let keys : length app.map_block_queue ≡ length s.app.map_block_queue = ap length w.queue in
        let packets : length app.preserve_queue.merge_queue
            ≡ length s.app.preserve_queue.merge_queue =
          ap (λ q. length q.merge_queue) w.preserve in
        let c : main_cost s.main ≡ 2 = ap main_cost e in omega (arith, c, keys, packets)
