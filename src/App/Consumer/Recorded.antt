-- ===== src/App/Consumer/Recorded.antt =====
-- src/app/consumer.cc: what recording a block changes, and what it leaves as it is.
use minetest_map_analyzer.Prelude.{
  ℕ, ◌≡◌, refl, ap, sym, ◌∙◌, Bool, true, false, List, [], ◌∷◌, ◌++◌, length, ltb, append_assoc,
  append-nil, Bool-cases, inl, inr,
}
use minetest_map_analyzer.Pos.{Pos}
use minetest_map_analyzer.App.BlockData.{modify_data}
use minetest_map_analyzer.App.Preserve
use minetest_map_analyzer.App.Preserve.{PreserveQueue}
use minetest_map_analyzer.App.Preserve.Merge.{concat}
use minetest_map_analyzer.App.NodeScan.{DataWriterNode, Scan}
use minetest_map_analyzer.App.State.{App, enqueue_nodes, enqueue_map_block_pos}
use minetest_map_analyzer.App.Consumer.{
  Work, set_data, enqueue_preserve, flush_rest, flush_list, note_anthropocene, record_block,
  store_block,
}

pub concat-append : (a b : List (List Pos)) → concat (a ++ b) ≡ concat a ++ concat b
concat-append [] b = refl
concat-append (x ∷ a) b =
    ap (λ l. x ++ l) (concat-append a b) ∙ sym (append_assoc x (concat a) (concat b))

-- The positions that the preserve queue has been given.
abbrev pub queued : App → List Pos
queued app = concat app.preserve_queue.merge_queue

-- These, and those that the consumer still keeps.
abbrev pub pending : Work → List Pos
pending w = queued w.app ++ w.anthropocene_list

concat-enqueue :
    (positions : List Pos) (q : PreserveQueue)
    → concat (Preserve.enqueue positions q).merge_queue ≡ concat q.merge_queue ++ positions
unfolding Preserve.enqueue
concat-enqueue [] q = sym (append-nil (concat q.merge_queue))
concat-enqueue (p ∷ positions) q =
    concat-append q.merge_queue ((p ∷ positions) ∷ [])
    ∙ ap (λ l. concat q.merge_queue ++ l) (append-nil (p ∷ positions))

-- What flushing the list leaves as it is.
pub record Kept (a b : App) : Type 0 where
  pub stats : a.stats ≡ b.stats
  pub block_queue : a.block_queue ≡ b.block_queue
  pub block_data : a.block_data ≡ b.block_data

enqueue_preserve-Kept :
    (positions : List Pos) (app : App) → Kept (enqueue_preserve positions app) app
unfolding enqueue_preserve
enqueue_preserve-Kept positions app = record { stats = refl; block_queue = refl; block_data = refl }

module _ (threshold : ℕ) where
  flush_list-pending : (w : Work) → pending (flush_list threshold w) ≡ pending w
  unfolding flush_list enqueue_preserve
  flush_list-pending w = elim (Bool-cases (ltb threshold (length w.anthropocene_list))) [
    | inl e ↦ rw e (append-nil _ ∙ concat-enqueue w.anthropocene_list w.app.preserve_queue)
    | inr e ↦ rw e refl
  ]

  flush_list-Kept : (w : Work) → Kept (flush_list threshold w).app w.app
  unfolding flush_list
  flush_list-Kept w = elim (Bool-cases (ltb threshold (length w.anthropocene_list))) [
    | inl e ↦ rw e (enqueue_preserve-Kept w.anthropocene_list w.app)
    | inr e ↦ rw e (record { stats = refl; block_queue = refl; block_data = refl })
  ]

  pub note_anthropocene-Kept :
      (b : Bool) (p : Pos) (w : Work) → Kept (note_anthropocene threshold b p w).app w.app
  unfolding note_anthropocene
  note_anthropocene-Kept true p w = flush_list-Kept _
  note_anthropocene-Kept false p w = record { stats = refl; block_queue = refl; block_data = refl }

  -- What is pending behind a block, by its flag.
  abbrev pub with_marked : Bool → Pos → List Pos → List Pos
  with_marked true p positions = positions ++ p ∷ []
  with_marked false p positions = positions

  pub note_anthropocene-pending :
      (b : Bool) (p : Pos) (w : Work)
      → pending (note_anthropocene threshold b p w) ≡ with_marked b p (pending w)
  unfolding note_anthropocene
  note_anthropocene-pending true p w =
      flush_list-pending _ ∙ sym (append_assoc (queued w.app) w.anthropocene_list (p ∷ []))
  note_anthropocene-pending false p w = refl

store_block-stats :
    (p : Pos) (uniform : ℕ) (nodes : List DataWriterNode) (b : Bool) (app : App)
    → (store_block p uniform nodes b app).stats ≡ app.stats
unfolding store_block enqueue_nodes enqueue_map_block_pos
store_block-stats p uniform [] b app = refl
store_block-stats p uniform (node ∷ nodes) b app = refl

store_block-queue :
    (p : Pos) (uniform : ℕ) (nodes : List DataWriterNode) (b : Bool) (app : App)
    → (store_block p uniform nodes b app).block_queue ≡ app.block_queue ++ p ∷ []
unfolding store_block enqueue_nodes enqueue_map_block_pos
store_block-queue p uniform [] b app = refl
store_block-queue p uniform (node ∷ nodes) b app = refl

store_block-data :
    (p : Pos) (uniform : ℕ) (nodes : List DataWriterNode) (b : Bool) (app : App)
    → (store_block p uniform nodes b app).block_data
      ≡ modify_data p (set_data uniform b) app.block_data
unfolding store_block enqueue_map_block_pos
store_block-data p uniform nodes b app = refl

store_block-queued :
    (p : Pos) (uniform : ℕ) (nodes : List DataWriterNode) (b : Bool) (app : App)
    → queued (store_block p uniform nodes b app) ≡ queued app
unfolding store_block enqueue_nodes enqueue_map_block_pos
store_block-queued p uniform [] b app = refl
store_block-queued p uniform (node ∷ nodes) b app = refl

module _ (threshold : ℕ) (p : Pos) (uniform : ℕ) (s : Scan) (w : Work) where
  pub record_block-stats : (record_block threshold p uniform s w).app.stats ≡ w.app.stats
  unfolding record_block
  record_block-stats =
      (note_anthropocene-Kept threshold s.anthropocene p _).stats
      ∙ store_block-stats p uniform s.node_queue s.anthropocene _

  pub record_block-queue :
      (record_block threshold p uniform s w).app.block_queue ≡ w.app.block_queue ++ p ∷ []
  unfolding record_block
  record_block-queue =
      (note_anthropocene-Kept threshold s.anthropocene p _).block_queue
      ∙ store_block-queue p uniform s.node_queue s.anthropocene _

  pub record_block-data :
      (record_block threshold p uniform s w).app.block_data
      ≡ modify_data p (set_data uniform s.anthropocene) w.app.block_data
  unfolding record_block
  record_block-data =
      (note_anthropocene-Kept threshold s.anthropocene p _).block_data
      ∙ store_block-data p uniform s.node_queue s.anthropocene _

  pub record_block-pending :
      pending (record_block threshold p uniform s w)
      ≡ with_marked threshold s.anthropocene p (pending w)
  unfolding record_block
  record_block-pending =
      note_anthropocene-pending threshold s.anthropocene p _
      ∙ ap (λ l. with_marked threshold s.anthropocene p (l ++ w.anthropocene_list))
          (store_block-queued p uniform s.node_queue s.anthropocene _)

pub flush_rest-Kept : (positions : List Pos) (app : App) → Kept (flush_rest positions app) app
unfolding flush_rest
flush_rest-Kept [] app = record { stats = refl; block_queue = refl; block_data = refl }
flush_rest-Kept (p ∷ positions) app = enqueue_preserve-Kept (p ∷ positions) app

pub flush_rest-data :
    (positions : List Pos) (app : App) → (flush_rest positions app).block_data ≡ app.block_data
flush_rest-data positions app = (flush_rest-Kept positions app).block_data

pub flush_rest-queued :
    (positions : List Pos) (app : App) → queued (flush_rest positions app) ≡ queued app ++ positions
unfolding flush_rest enqueue_preserve
flush_rest-queued [] app = sym (append-nil (queued app))
flush_rest-queued (p ∷ positions) app = concat-enqueue (p ∷ positions) app.preserve_queue
