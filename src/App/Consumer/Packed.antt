-- ===== src/App/Consumer/Packed.antt =====
-- src/app/consumer.cc: what a consumer does to the preserve queue.
use minetest_map_analyzer.Prelude.{
  ℕ, Bool, true, false, List, [], ◌∷◌, length, ltb, Bool-cases, inl, inr,
}
use minetest_map_analyzer.Prelude.Int.{ℤ}
use minetest_map_analyzer.Pos.{Pos, map_block_pos}
use minetest_map_analyzer.App.Preserve.Merge.{IsPacked, enqueue-IsPacked}
use minetest_map_analyzer.App.NodeScan.{DataWriterNode}
use minetest_map_analyzer.App.State.{App, enqueue_nodes, enqueue_map_block_pos}
use minetest_map_analyzer.App.Consumer.{
  Work, flush_rest, flush_list, note_anthropocene, store_block, record_block, enqueue_preserve,
}
use minetest_map_analyzer.App.Consumer.Steps.{Handled, Consumed}

module _ (threshold : ℕ) where
  flush_list-IsPacked :
      (w : Work)
      → IsPacked w.app.preserve_queue
      → IsPacked (flush_list threshold w).app.preserve_queue
  unfolding flush_list enqueue_preserve
  flush_list-IsPacked w h = elim (Bool-cases (ltb threshold (length w.anthropocene_list))) [
    | inl e ↦ rw e (enqueue-IsPacked w.anthropocene_list w.app.preserve_queue h)
    | inr e ↦ rw e h
  ]

  note_anthropocene-IsPacked :
      (b : Bool) (p : Pos) (w : Work)
      → IsPacked w.app.preserve_queue
      → IsPacked (note_anthropocene threshold b p w).app.preserve_queue
  unfolding note_anthropocene
  note_anthropocene-IsPacked true p w h = flush_list-IsPacked _ h
  note_anthropocene-IsPacked false p w h = h

  store_block-IsPacked :
      (p : Pos) (uniform : ℕ) (nodes : List DataWriterNode) (b : Bool) (app : App)
      → IsPacked app.preserve_queue
      → IsPacked (store_block p uniform nodes b app).preserve_queue
  unfolding store_block enqueue_nodes enqueue_map_block_pos
  store_block-IsPacked p uniform [] b app h = h
  store_block-IsPacked p uniform (node ∷ nodes) b app h = h

  Handled-IsPacked :
      (p : Pos) (w v : Work)
      → Handled threshold p w v
      → IsPacked w.app.preserve_queue
      → IsPacked v.app.preserve_queue
  unfolding record_block
  Handled-IsPacked p w v (Handled.bad caches) h = h
  Handled-IsPacked p w v (Handled.good caches uniform s) h =
      note_anthropocene-IsPacked s.anthropocene p _
        (store_block-IsPacked p uniform s.node_queue s.anthropocene _ h)

  pub Consumed-IsPacked :
      (keys : List ℤ) (w u : Work)
      → Consumed threshold keys w u
      → IsPacked w.app.preserve_queue
      → IsPacked u.app.preserve_queue
  Consumed-IsPacked [] w u Consumed.done h = h
  Consumed-IsPacked (key ∷ keys) w u (Consumed.next {v} a rest) h =
      Consumed-IsPacked keys v u rest (Handled-IsPacked (map_block_pos key) w v a h)

pub flush_rest-IsPacked :
    (positions : List Pos) (app : App)
    → IsPacked app.preserve_queue
    → IsPacked (flush_rest positions app).preserve_queue
unfolding flush_rest enqueue_preserve
flush_rest-IsPacked [] app h = h
flush_rest-IsPacked (p ∷ positions) app h = enqueue-IsPacked (p ∷ positions) app.preserve_queue h
