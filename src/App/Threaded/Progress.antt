-- ===== src/App/Threaded/Progress.antt =====
-- App::RunThreaded of src/app/app.cc: how far it is from its end.
pub mod Steps
pub mod Runs
pub mod Ends
use minetest_map_analyzer.Prelude.{
  ℕ, zero, suc, ◌+◌, ◌*◌, ◌<◌, ◌≤◌, ◌≡◌, ◌≢◌, ◌⊎◌, refl, ap, sym, ◌∙◌, subst, Bool, true, false,
  Option, none, some, List, [], ◌∷◌, ◌++◌, length, length-append, ltb, leb, Bool-cases,
  Option-cases, inl, inr, if◌then◌else◌, arith,
}
use minetest_map_analyzer.Prelude.Int.{ℤ}
use minetest_map_analyzer.Prelude.Families.{total}
use minetest_map_analyzer.Exceptions.{Exception, Result, ok, throw, Result-cases}
use minetest_map_analyzer.Pos.{Pos, map_block_pos, map_block_id, inside}
use minetest_map_analyzer.Sqlite.{Sqlite}
use minetest_map_analyzer.App.BlockQueue.{enqueue_lem}
use minetest_map_analyzer.App.NodeScan.{NodeIdMapExtraInfo, DataWriterNode}
use minetest_map_analyzer.App.Config.{Config}
use minetest_map_analyzer.App.Preserve
use minetest_map_analyzer.App.State.{App, enqueue_map_block_pos, enqueue_nodes}
use minetest_map_analyzer.App.Producer.{Producing, callback, flush_full}
use minetest_map_analyzer.App.Consumer.{
  Work, note_anthropocene, flush_list, flush_rest, enqueue_preserve, enqueue_some,
}
use minetest_map_analyzer.App.Threaded.{Threaded, Main, Merging, produce_row}
use minetest_map_analyzer.App.Threaded.Consuming.{Phase, Local, Move, listed}
use minetest_map_analyzer.App.Threaded.Fed.{pop-key, pop-end}

-- The steps that a consumer needs to be gone, and 2 for each packet that it may add.
abbrev pub local_cost : Local → ℕ
local_cost l = elim (l.phase) [
  | Phase.ready ↦ 4
  | Phase.loading key ↦ 11
  | Phase.scanning key ↦ 10
  | Phase.writing key u a ↦ 9
  | Phase.pushing key a ↦ 8
  | Phase.noting key a ↦ 7
  | Phase.leaving ↦ 3
  | Phase.gone ↦ 0
]

abbrev pub merger_cost : Merging → ℕ
merger_cost Merging.waiting = 1
merger_cost (Merging.merging packet) = 2
merger_cost Merging.merged = 0

abbrev pub main_cost : Main → ℕ
main_cost Main.watching = 10
main_cost Main.joining = 9
main_cost Main.flushing_actors = 6
main_cost Main.flushing_nodes = 5
main_cost Main.flushing_queue = 4
main_cost Main.joining_merger = 3
main_cost Main.flushing_blocks = 2
main_cost Main.finished = 0

-- What the queues of an App cost.
abbrev pub queue_cost : App → ℕ
queue_cost app = 8 * length app.map_block_queue + 2 * length app.preserve_queue.merge_queue

-- The steps that are left, at most, if no consumer adds a name.
abbrev pub cost : {D : Type 0} → ℕ → Threaded D → ℕ
cost n s =
    10 * length s.rows
    + 9 * length s.keys
    + queue_cost s.app
    + (if s.produced then 0 else 9)
    + total local_cost n s.local
    + merger_cost s.merger
    + main_cost s.main

enqueue_preserve-cost :
    (positions : List Pos) (app : App)
    → queue_cost (enqueue_preserve positions app) ≤ queue_cost app + 2
unfolding enqueue_preserve Preserve.enqueue
enqueue_preserve-cost [] app = omega arith
enqueue_preserve-cost (p ∷ positions) app =
    omega (arith, length-append app.preserve_queue.merge_queue ((p ∷ positions) ∷ []))

flush_rest-cost :
    (positions : List Pos) (app : App) → queue_cost (flush_rest positions app) ≤ queue_cost app + 2
unfolding flush_rest
flush_rest-cost [] app = omega arith
flush_rest-cost (p ∷ positions) app = enqueue_preserve-cost (p ∷ positions) app

note_anthropocene-cost :
    (threshold : ℕ) (flag : Bool) (p : Pos) (w : Work)
    → queue_cost (note_anthropocene threshold flag p w).app ≤ queue_cost w.app + 2
unfolding note_anthropocene flush_list
note_anthropocene-cost threshold true p w =
    elim (Bool-cases (ltb threshold (length (w.anthropocene_list ++ p ∷ [])))) [
      | inl e ↦ rw e (enqueue_preserve-cost (w.anthropocene_list ++ p ∷ []) w.app)
      | inr e ↦ rw e (omega arith)
    ]
note_anthropocene-cost threshold false p w = omega arith

-- A row costs less in the batch, or in the queue.
pub produce_row-cost :
    {D : Type 0} (sqlite : Sqlite D) (config : Config) (lookup : List ℕ → NodeIdMapExtraInfo)
    (load : Pos → Result (Option (List ℕ))) (id : ℤ) (p : Producing)
    → let p' = produce_row sqlite config lookup load id p in
      9 * length p'.keys + 8 * length p'.map_block_queue
      ≤ 9 * length p.keys + 8 * length p.map_block_queue + 9
unfolding produce_row callback flush_full
produce_row-cost sqlite config lookup load id p =
    let pos = map_block_pos id in
    let pushed = p.keys ++ map_block_id pos ∷ [] in
    let len = length-append p.keys (map_block_id pos ∷ []) in
    elim (Bool-cases (inside pos config.min_pos config.max_pos)) [
      | inr e ↦ rw e (omega arith)
      | inl e ↦ elim (Bool-cases (leb config.producer_batch_size (length pushed))) [
        | inr e' ↦ rw (e, e') (omega (arith, len))
        | inl e' ↦
            let queue =
              ap length (enqueue_lem pushed p.map_block_queue)
              ∙ length-append p.map_block_queue pushed in
            rw (e, e') (omega (arith, len, queue))
      ]
    ]

enqueue_some-cost :
    (nodes : List DataWriterNode) (app : App) → queue_cost (enqueue_some nodes app) ≡ queue_cost app
unfolding enqueue_nodes
enqueue_some-cost [] app = refl
enqueue_some-cost (node ∷ nodes) app = refl

module _ (threshold : ℕ) (lookup : List ℕ → NodeIdMapExtraInfo)
    (load : Pos → Result (Option (List ℕ))) where
  -- 0 for a name that a consumer adds while it is busy with a block, and 1 for every other step.
  abbrev pub move_count :
      {app app' : App} {x y : Local} → Move threshold lookup load app x app' y → ℕ
  move_count (Move.take key rest l e h) = 1
  move_count (Move.stop key rest l e h) = 1
  move_count (Move.missing key l e) = 1
  move_count (Move.name_node key l name) = 0
  move_count (Move.malformed key l bytes e) = 1
  move_count (Move.parsed key l bytes e) = 1
  move_count (Move.name_actor key l name) = 0
  move_count (Move.scanned key l nodes uniform flag) = 1
  move_count (Move.write key l uniform flag) = 1
  move_count (Move.push key l flag) = 1
  move_count (Move.note key l flag) = 1
  move_count (Move.leave l) = 1

  pub Move-cost :
      (app app' : App) (x y : Local) (move : Move threshold lookup load app x app' y)
      → queue_cost app' + local_cost y + move_count move ≤ queue_cost app + local_cost x
  unfolding enqueue_map_block_pos
  Move-cost app app' x y (Move.take key rest l e h) =
      let len : length app.map_block_queue ≡ suc (length rest) =
        ap length (pop-key key app.map_block_queue rest e h) in
      omega (arith, len)
  Move-cost app app' x y (Move.stop key rest l e h) =
      let len : length app.map_block_queue ≡ length rest =
        ap length (pop-end key app.map_block_queue rest e h).0 in
      omega (arith, len)
  Move-cost app app' x y (Move.missing key l e) = omega arith
  Move-cost app app' x y (Move.name_node key l name) = omega arith
  Move-cost app app' x y (Move.malformed key l bytes e) = omega arith
  Move-cost app app' x y (Move.parsed key l bytes e) = omega arith
  Move-cost app app' x y (Move.name_actor key l name) = omega arith
  Move-cost app app' x y (Move.scanned key l nodes uniform flag) =
      omega (arith, enqueue_some-cost nodes app)
  Move-cost app app' x y (Move.write key l uniform flag) = omega arith
  Move-cost app app' x y (Move.push key l flag) = omega arith
  Move-cost app app' x y (Move.note key l flag) =
      omega (arith, note_anthropocene-cost threshold flag (map_block_pos key) (listed app l))
  Move-cost app app' x y (Move.leave l) = omega (arith, flush_rest-cost l app)
