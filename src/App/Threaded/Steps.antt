-- ===== src/App/Threaded/Steps.antt =====
-- App::RunThreaded of src/app/app.cc: what every run keeps of the producer, the consumers and the counters.
pub mod Kept
pub mod Runs
use minetest_map_analyzer.Prelude.{
  ℕ, ◌+◌, ◌<◌, ◌≤◌, ◌≡◌, ◌⊎◌, refl, ap, sym, ◌∙◌, subst, Bool, true, false, Option, List, [], ◌∷◌,
  ◌++◌, length, Bool-cases, ◌==◌, if◌then◌else◌, inl, inr, arith,
}
use minetest_map_analyzer.Prelude.Int.{ℤ}
use minetest_map_analyzer.Prelude.Families.{update}
use minetest_map_analyzer.Exceptions.{Result}
use minetest_map_analyzer.Pos.{Pos, map_block_pos}
use minetest_map_analyzer.Sqlite.{Sqlite, SqliteDb}
use minetest_map_analyzer.Sqlite.Bound.{IsReady}
use minetest_map_analyzer.App.BlockQueue.{set_tombstone}
use minetest_map_analyzer.App.NodeScan.{NodeIdMapExtraInfo}
use minetest_map_analyzer.App.Config.{Config}
use minetest_map_analyzer.App.State.{App, enqueue_map_block_pos}
use minetest_map_analyzer.App.Consumer.Recorded.{note_anthropocene-Kept, flush_rest-Kept}
use minetest_map_analyzer.App.Preserve.{surrender_final_set}
use minetest_map_analyzer.App.Preserve
use minetest_map_analyzer.App.Producer.{enqueue_rest}
use minetest_map_analyzer.App.Run.{with_producing, apply_preserve_flags, set_preserve_tombstone}
use minetest_map_analyzer.App.Threaded.{
  Threaded, Main, Merging, Step, Reach, producing, produce_row,
}
use minetest_map_analyzer.App.Threaded.Consuming.{Phase, Local, Move, new_local, listed}
use minetest_map_analyzer.App.Threaded.Views.{
  View, view, enqueue_some-view, flush_actor_id_map-view, flush_node_id_map-view,
  flush_node_queue-view, IsWritten, flush_block_queue-IsWritten,
}
use minetest_map_analyzer.App.Threaded.Fed.{IsFed, Fed}
use minetest_map_analyzer.App.Threaded.Fed.Moves.{Move-Fed}
use minetest_map_analyzer.App.Threaded.Orderly.{
  Found, same-Fed, last_batch-Fed, end_keys-Fed, produce_row-Fed,
}

-- The main thread has joined the consumers.
abbrev pub has_joined : Main → Bool
has_joined Main.watching = false
has_joined Main.joining = false
has_joined Main.flushing_actors = true
has_joined Main.flushing_nodes = true
has_joined Main.flushing_queue = true
has_joined Main.joining_merger = true
has_joined Main.flushing_blocks = true
has_joined Main.finished = true

-- Every consumer is behind its loop.
abbrev pub AllGone : ℕ → (ℕ → Local) → Type 0
AllGone n local = (i : ℕ) → i < n → (local i).phase ≡ Phase.gone

pub clash : {b : Bool} → b ≡ true → b ≡ false → ⊥
clash e f = cc

pub filled : {id : ℤ} {rows : List ℤ} → id ∷ rows ≡ [] → ⊥
filled e = cc

abbrev pub is_finished : Main → Bool
is_finished main = elim main [
  | Main.watching ↦ false
  | Main.joining ↦ false
  | Main.flushing_actors ↦ false
  | Main.flushing_nodes ↦ false
  | Main.flushing_queue ↦ false
  | Main.joining_merger ↦ false
  | Main.flushing_blocks ↦ false
  | Main.finished ↦ true
]

-- Nothing has been written of the blocks, and the database is ready, until the end.
abbrev pub Unwritten : {D : Type 0} → Main → SqliteDb D → ℕ → Type 0
Unwritten main db written = ((written ≡ 0) × IsReady db) ⊎ (main ≡ Main.finished)

pub record IsOrderly {D : Type 0} (min max : Pos) (n all : ℕ) (s : Threaded D) : Type 0 where
  pub written : ℕ
  pub fed : Fed n (view s.app) s.keys s.produced s.local written
  pub found : Found min max all (view s.app) s.rows
  pub at_end : s.produced ≡ true → (s.rows ≡ []) × (s.keys ≡ [])
  pub unwritten : Unwritten s.main s.db written
  pub joined : has_joined s.main ≡ true → (s.produced ≡ true) × AllGone n s.local
  pub others : (i : ℕ) → n ≤ i → s.local i ≡ new_local

-- A consumer that is gone takes no step.
pub gone-Move :
    (threshold : ℕ) (lookup : List ℕ → NodeIdMapExtraInfo) (load : Pos → Result (Option (List ℕ)))
    (app app' : App) (x l : Local)
    → Move threshold lookup load app x app' l
    → x.phase ≡ Phase.gone
    → ⊥
gone-Move threshold lookup load app app' x l (Move.take key rest positions e h) gone = cc
gone-Move threshold lookup load app app' x l (Move.stop key rest positions e h) gone = cc
gone-Move threshold lookup load app app' x l (Move.missing key positions e) gone = cc
gone-Move threshold lookup load app app' x l (Move.name_node key positions name) gone = cc
gone-Move threshold lookup load app app' x l (Move.malformed key positions bytes e) gone = cc
gone-Move threshold lookup load app app' x l (Move.parsed key positions bytes e) gone = cc
gone-Move threshold lookup load app app' x l (Move.name_actor key positions name) gone = cc
gone-Move threshold lookup load app app' x l (Move.scanned key positions nodes u a) gone = cc
gone-Move threshold lookup load app app' x l (Move.write key positions u a) gone = cc
gone-Move threshold lookup load app app' x l (Move.push key positions a) gone = cc
gone-Move threshold lookup load app app' x l (Move.note key positions a) gone = cc
gone-Move threshold lookup load app app' x l (Move.leave positions) gone = cc

-- A consumer's step leaves the number of the blocks that are queued.
pub Move-queued :
    (threshold : ℕ) (lookup : List ℕ → NodeIdMapExtraInfo) (load : Pos → Result (Option (List ℕ)))
    (app app' : App) (x l : Local)
    → Move threshold lookup load app x app' l
    → app'.stats.queued_map_blocks ≡ app.stats.queued_map_blocks
unfolding enqueue_map_block_pos
Move-queued threshold lookup load app app' x l (Move.take key rest positions e h) = refl
Move-queued threshold lookup load app app' x l (Move.stop key rest positions e h) = refl
Move-queued threshold lookup load app app' x l (Move.missing key positions e) = refl
Move-queued threshold lookup load app app' x l (Move.name_node key positions name) = refl
Move-queued threshold lookup load app app' x l (Move.malformed key positions bytes e) = refl
Move-queued threshold lookup load app app' x l (Move.parsed key positions bytes e) = refl
Move-queued threshold lookup load app app' x l (Move.name_actor key positions name) = refl
Move-queued threshold lookup load app app' x l (Move.scanned key positions nodes u a) =
    ap (λ v. v.stats.queued_map_blocks) (enqueue_some-view nodes app)
Move-queued threshold lookup load app app' x l (Move.write key positions u a) = refl
Move-queued threshold lookup load app app' x l (Move.push key positions a) = refl
Move-queued threshold lookup load app app' x l (Move.note key positions a) =
    ap (λ s. s.queued_map_blocks)
      (note_anthropocene-Kept threshold a (map_block_pos key) (listed app positions)).stats
Move-queued threshold lookup load app app' x l (Move.leave positions) =
    ap (λ s. s.queued_map_blocks) (flush_rest-Kept positions app).stats
