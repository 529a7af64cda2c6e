-- ===== src/App/Threaded/Progress/Runs.antt =====
-- App::RunThreaded of src/app/app.cc: a step that is left to some thread, until the end.
use minetest_map_analyzer.Prelude.{
  ℕ, zero, suc, ◌<◌, ◌≡◌, ◌≢◌, ◌⊎◌, refl, ap, sym, ◌∙◌, Bool, true, false, Option, some, List, [],
  ◌∷◌, ◌++◌, Bool-cases, ◌==◌, inl, inr, arith,
}
use minetest_map_analyzer.Prelude.Int.{ℤ}
use minetest_map_analyzer.Exceptions.{Exception, Result, throw, Result-cases}
use minetest_map_analyzer.Pos.{Pos}
use minetest_map_analyzer.Sqlite.{Sqlite}
use minetest_map_analyzer.App.BlockQueue.{Queue, tombstone, is_tombstone, pop, popped}
use minetest_map_analyzer.App.NodeScan.{NodeIdMapExtraInfo}
use minetest_map_analyzer.App.Config.{Config}
use minetest_map_analyzer.App.State.{App}
use minetest_map_analyzer.App.DataWriter.{flush_actor_id_map, flush_node_id_map, flush_node_queue}
use minetest_map_analyzer.App.BlockWriter.{flush_block_queue}
use minetest_map_analyzer.App.Threaded.{Threaded, Main, Merging, Step, idle_wait}
use minetest_map_analyzer.App.Threaded.Consuming.{Phase, Local, Move, at}
use minetest_map_analyzer.App.Threaded.Steps.{AllGone, has_joined}
use minetest_map_analyzer.App.Threaded.Covered.Steps.{end_packet}
use minetest_map_analyzer.App.Threaded.Covered.Kept.{IsSafe}
use minetest_map_analyzer.App.Threaded.Progress.{move_count}
use minetest_map_analyzer.App.Threaded.Progress.Steps.{step_count}

phase_cases : (phase : Phase) → (phase ≡ Phase.gone) ⊎ (phase ≢ Phase.gone)
phase_cases Phase.ready = inr λ e. cc
phase_cases (Phase.loading key) = inr λ e. cc
phase_cases (Phase.scanning key) = inr λ e. cc
phase_cases (Phase.writing key u a) = inr λ e. cc
phase_cases (Phase.pushing key a) = inr λ e. cc
phase_cases (Phase.noting key a) = inr λ e. cc
phase_cases Phase.leaving = inr λ e. cc
phase_cases Phase.gone = inl refl

-- A consumer that is not gone, if there is one.
pub find_present :
    (n : ℕ) (local : ℕ → Local)
    → AllGone n local ⊎ ((i : ℕ) × (i < n) × ((local i).phase ≢ Phase.gone))
find_present zero local = inl λ i lt. absurd (omega arith)
find_present (suc n) local = elim (phase_cases (local n).phase) [
  | inr present ↦ inr (n, omega arith, present)
  | inl gone ↦ elim (find_present n local) [
    | inr (i, lt, present) ↦ inr (i, omega arith, present)
    | inl all ↦ inl λ i lt. elim (Bool-cases (i == n)) [
      | inl same ↦ let e : i ≡ n = ground arith in ap (λ j. (local j).phase) e ∙ gone
      | inr other ↦ all i (ground arith)
    ]
  ]
]

-- The queue holds the tombstone, where it is set.
pub queue_front :
    (left : List ℤ) (queue keys : List ℤ)
    → keys ≡ []
    → queue ++ keys ≡ left ++ tombstone ∷ []
    → (key : ℤ) × (rest : Queue) × (queue ≡ key ∷ rest)
queue_front left (key ∷ rest) keys e f = (key, rest, refl)
queue_front [] [] keys e f = absurd (empty (sym e ∙ f))
  where
    empty : {k : ℤ} {l : List ℤ} → [] ≡ k ∷ l → ⊥
    empty g = cc
queue_front (k ∷ left) [] keys e f = absurd (empty (sym e ∙ f))
  where
    empty : {k : ℤ} {l : List ℤ} → [] ≡ k ∷ l → ⊥
    empty g = cc

-- The consumer has a block, of which it has yet to see the nodes.
abbrev pub has_block : Phase → Bool
has_block Phase.ready = false
has_block (Phase.loading key) = true
has_block (Phase.scanning key) = true
has_block (Phase.writing key u a) = false
has_block (Phase.pushing key a) = false
has_block (Phase.noting key a) = false
has_block Phase.leaving = false
has_block Phase.gone = false

module _ (threshold : ℕ) (lookup : List ℕ → NodeIdMapExtraInfo)
    (load : Pos → Result (Option (List ℕ))) where
  abbrev CanMove : App → Local → Type 0
  CanMove app x =
      (app' : App) × (l : Local) × (move : Move threshold lookup load app x app' l) × (move_count
          threshold lookup load move
        ≡ 1)

  ready-CanMove :
      (app : App) (positions : List Pos) (key : ℤ) (rest : Queue)
      → app.map_block_queue ≡ key ∷ rest
      → CanMove app (at Phase.ready positions)
  unfolding pop popped
  ready-CanMove app positions key rest e = elim (Bool-cases (is_tombstone key)) [
    | inl h ↦
        let p : pop app.map_block_queue ≡ some (key, key ∷ rest) = rw (e, h) refl in
        (_, _, Move.stop key (key ∷ rest) positions p h, refl)
    | inr h ↦
        let p : pop app.map_block_queue ≡ some (key, rest) = rw (e, h) refl in
        (_, _, Move.take key rest positions p h, refl)
  ]

  -- A consumer that is not gone is busy with a block, or it can take its next step, where the queue holds a
  -- key or the tombstone.
  moves_on :
      (app : App) (phase : Phase) (positions : List Pos) (key : ℤ) (rest : Queue)
      → app.map_block_queue ≡ key ∷ rest
      → phase ≢ Phase.gone
      → (has_block phase ≡ true) ⊎ CanMove app (at phase positions)
  moves_on app Phase.ready positions key rest e present =
      inr (ready-CanMove app positions key rest e)
  moves_on app (Phase.loading k) positions key rest e present = inl refl
  moves_on app (Phase.scanning k) positions key rest e present = inl refl
  moves_on app (Phase.writing k uniform flag) positions key rest e present =
      inr (_, _, Move.write k positions uniform flag, refl)
  moves_on app (Phase.pushing k flag) positions key rest e present =
      inr (_, _, Move.push k positions flag, refl)
  moves_on app (Phase.noting k flag) positions key rest e present =
      inr (_, _, Move.note k positions flag, refl)
  moves_on app Phase.leaving positions key rest e present = inr (_, _, Move.leave positions, refl)
  moves_on app Phase.gone positions key rest e present = absurd (present refl)

module _ {D : Type 0} (sqlite : Sqlite D) (config : Config) (lookup : List ℕ → NodeIdMapExtraInfo)
    (load : Pos → Result (Option (List ℕ))) (n : ℕ) where
  -- An exception that no thread catches ends the program.
  pub data Stops (s : Threaded D) : Type 0 where
    actors_throw :
        (e : Exception)
        → s.main ≡ Main.flushing_actors
        → flush_actor_id_map sqlite s.app s.db ≡ throw e
        → Stops s
    nodes_throw :
        (e : Exception)
        → s.main ≡ Main.flushing_nodes
        → flush_node_id_map sqlite s.app s.db ≡ throw e
        → Stops s
    queue_throws :
        (e : Exception)
        → s.main ≡ Main.flushing_queue
        → flush_node_queue sqlite s.app s.db ≡ throw e
        → Stops s
    blocks_throw :
        (e : Exception)
        → s.main ≡ Main.flushing_blocks
        → flush_block_queue sqlite s.app s.db ≡ throw e
        → Stops s

  -- A consumer is busy with a block: it is between LoadMapBlock and the end of the loop over the nodes.
  abbrev pub IsBusy : Threaded D → Type 0
  IsBusy s = (i : ℕ) × (i < n) × (has_block (s.local i).phase ≡ true)

  -- Some thread can take a step, which is no name that is added.
  abbrev pub CanStep : Threaded D → Type 0
  CanStep s =
      (t : Threaded D) × (step : Step sqlite config lookup load n s t) × (step_count sqlite config
          lookup load n step
        ≡ 1)

  abbrev pub Goes : Threaded D → Type 0
  Goes s = IsBusy s ⊎ (CanStep s ⊎ (Stops s ⊎ (s.main ≡ Main.finished)))

module _ {D : Type 0} (sqlite : Sqlite D) (config : Config) (lookup : List ℕ → NodeIdMapExtraInfo)
    (load : Pos → Result (Option (List ℕ))) (n : ℕ) where
  -- A consumer that is not gone, where the queue holds a key or the tombstone.
  pub consume-Goes :
      (s : Threaded D) (i : ℕ) (key : ℤ) (rest : Queue)
      → i < n
      → (s.local i).phase ≢ Phase.gone
      → s.app.map_block_queue ≡ key ∷ rest
      → Goes sqlite config lookup load n s
  consume-Goes s i key rest lt present e =
      elim (moves_on config.anthropocene_flush_threshold lookup load s.app (s.local i).phase
        (s.local i).anthropocene_list key rest e present) [
          | inl busy ↦ inl (i, lt, busy)
          | inr (app, l, move, one) ↦ inr (inl (_, Step.consume i app l lt move, one))
        ]

  -- The steps of the main thread, where the consumers are gone.
  watched-Goes :
      (s : Threaded D)
      → s.main ≡ Main.watching
      → s.app.map_block_queue ≡ tombstone ∷ []
      → Goes sqlite config lookup load n s
  unfolding idle_wait
  watched-Goes s e q =
      let front : idle_wait s.app.map_block_queue ≡ false = rw q refl in
      inr (inl (_, Step.watched e front, refl))

  joined-Goes :
      (s : Threaded D)
      → s.main ≡ Main.joining
      → s.produced ≡ true
      → AllGone n s.local
      → Goes sqlite config lookup load n s
  joined-Goes s e ended gone = inr (inl (_, Step.joined e ended gone, refl))

  actors-Goes :
      (s : Threaded D) → s.main ≡ Main.flushing_actors → Goes sqlite config lookup load n s
  actors-Goes s e = elim (Result-cases (flush_actor_id_map sqlite s.app s.db)) [
    | inr (x, f) ↦ inr (inr (inl (Stops.actors_throw x e f)))
    | inl ((app, db), f) ↦ inr (inl (_, Step.flushed_actors app db e f, refl))
  ]

  nodes-Goes : (s : Threaded D) → s.main ≡ Main.flushing_nodes → Goes sqlite config lookup load n s
  nodes-Goes s e = elim (Result-cases (flush_node_id_map sqlite s.app s.db)) [
    | inr (x, f) ↦ inr (inr (inl (Stops.nodes_throw x e f)))
    | inl ((app, db), f) ↦ inr (inl (_, Step.flushed_nodes app db e f, refl))
  ]

  queue-Goes : (s : Threaded D) → s.main ≡ Main.flushing_queue → Goes sqlite config lookup load n s
  queue-Goes s e = elim (Result-cases (flush_node_queue sqlite s.app s.db)) [
    | inr (x, f) ↦ inr (inr (inl (Stops.queue_throws x e f)))
    | inl ((app, db), f) ↦ inr (inl (_, Step.flushed_queue app db e f, refl))
  ]

  blocks-Goes :
      (s : Threaded D) → s.main ≡ Main.flushing_blocks → Goes sqlite config lookup load n s
  blocks-Goes s e = elim (Result-cases (flush_block_queue sqlite s.app s.db)) [
    | inr (x, f) ↦ inr (inr (inl (Stops.blocks_throw x e f)))
    | inl ((app, db), f) ↦ inr (inl (_, Step.flushed_blocks app db e f, refl))
  ]

  -- The step of the merging thread, or of the main thread behind it.
  merger-Goes :
      (s : Threaded D) (m : Merging) (packets : List (List Pos))
      → s.main ≡ Main.joining_merger
      → s.merger ≡ m
      → s.app.preserve_queue.merge_queue ≡ packets ++ [] ∷ []
      → Goes sqlite config lookup load n s
  merger-Goes s Merging.waiting [] e m q = inr (inl (_, Step.end_merge [] m q, refl))
  merger-Goes s Merging.waiting ([] ∷ packets) e m q =
      inr (inl (_, Step.end_merge (packets ++ [] ∷ []) m q, refl))
  merger-Goes s Merging.waiting ((p ∷ positions) ∷ packets) e m q =
      inr (inl (_, Step.take_packet p positions (packets ++ [] ∷ []) m q, refl))
  merger-Goes s (Merging.merging packet) packets e m q =
      inr (inl (_, Step.merge_packet packet m, refl))
  merger-Goes s Merging.merged packets e m q = inr (inl (_, Step.joined_merger e m, refl))

  -- The consumers are gone, and the queue holds the tombstone alone.
  pub main-Goes :
      (s : Threaded D) (main : Main)
      → s.main ≡ main
      → s.produced ≡ true
      → AllGone n s.local
      → s.app.map_block_queue ≡ tombstone ∷ []
      → IsSafe config.preserve_radius s
      → Goes sqlite config lookup load n s
  main-Goes s Main.watching e ended gone q h = watched-Goes s e q
  main-Goes s Main.joining e ended gone q h = joined-Goes s e ended gone
  main-Goes s Main.flushing_actors e ended gone q h = actors-Goes s e
  main-Goes s Main.flushing_nodes e ended gone q h = nodes-Goes s e
  main-Goes s Main.flushing_queue e ended gone q h = queue-Goes s e
  main-Goes s Main.joining_merger e ended gone q h =
      merger-Goes s s.merger h.merging.packets e refl
        (h.merging.in_queue ∙ ap (λ b. h.merging.packets ++ end_packet b) (ap has_joined e))
  main-Goes s Main.flushing_blocks e ended gone q h = blocks-Goes s e
  main-Goes s Main.finished e ended gone q h = inr (inr (inr e))
