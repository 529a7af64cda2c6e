-- ===== src/App/Threaded/Covered.antt =====
-- App::RunThreaded of src/app/app.cc: where the marked positions are, on their way to the preserve flags.
pub mod Moves
pub mod Merged
pub mod Steps
pub mod Kept
pub mod Runs
use minetest_map_analyzer.Prelude.{
  ℕ, ◌≡◌, ◌⊎◌, refl, ap, sym, Bool, true, false, Option, List, [], ◌∷◌, ◌++◌, Memᴰ, All, append-nil,
  Bool-cases, inl, inr, length, ltb,
}
use minetest_map_analyzer.Prelude.Int.{ℤ}
use minetest_map_analyzer.Exceptions.{Result}
use minetest_map_analyzer.Pos.{Pos, map_block_pos}
use minetest_map_analyzer.Pos.Ids.{IsBlockPos}
use minetest_map_analyzer.App.BlockData.{MapBlockHashMap, data_at}
use minetest_map_analyzer.App.Preserve
use minetest_map_analyzer.App.Preserve.{PosSet, PreserveQueue}
use minetest_map_analyzer.App.Preserve.Merge.{concat, IsPacket}
use minetest_map_analyzer.App.Preserve.Radius.{Near}
use minetest_map_analyzer.App.NodeScan.{NodeIdMapExtraInfo}
use minetest_map_analyzer.App.State.{App, enqueue_map_block_pos}
use minetest_map_analyzer.App.Consumer.{
  Work, note_anthropocene, flush_list, flush_rest, enqueue_preserve,
}
use minetest_map_analyzer.App.Threaded.{Merging}
use minetest_map_analyzer.App.Threaded.Consuming.{Phase, Local, Move, listed}
use minetest_map_analyzer.App.Threaded.Views.{View, view, enqueue_some-view}

-- A list, with the position of a block that is marked.
abbrev pub with_flag : Bool → ℤ → List Pos → List Pos
with_flag true key positions = positions ++ map_block_pos key ∷ []
with_flag false key positions = positions

-- What a consumer keeps: its list, and the block that it has written and not yet noted.
abbrev pub held : Local → List Pos
held l = elim (l.phase) [
  | Phase.ready ↦ l.anthropocene_list
  | Phase.loading key ↦ l.anthropocene_list
  | Phase.scanning key ↦ l.anthropocene_list
  | Phase.writing key u a ↦ l.anthropocene_list
  | Phase.pushing key a ↦ with_flag a key l.anthropocene_list
  | Phase.noting key a ↦ with_flag a key l.anthropocene_list
  | Phase.leaving ↦ l.anthropocene_list
  | Phase.gone ↦ l.anthropocene_list
]

-- What the merging thread has taken from the queue.
abbrev pub carried : Merging → List Pos
carried Merging.waiting = []
carried (Merging.merging packet) = packet
carried Merging.merged = []

-- Every position within the radius is in the final set, or has its flag.
abbrev pub IsSpread : ℤ → MapBlockHashMap → PosSet → Pos → Type 0
IsSpread r m final p = (q : Pos) → Near r p q → Memᴰ q final ⊎ ((data_at q m).preserve ≡ true)

-- The position of a block that is marked is with a consumer, in the queue of packets, with the merging
-- thread, or has been merged. All of these are positions of blocks.
pub record IsCovering (r : ℤ) (m : MapBlockHashMap) (queue : PreserveQueue) (packet : List Pos)
    (local : ℕ → Local) : Type 0 where
  pub marked :
      (p : Pos)
      → (data_at p m).anthropocene ≡ true
      → ((i : ℕ) × Memᴰ p (held (local i)))
        ⊎ (Memᴰ p (concat queue.merge_queue) ⊎ (Memᴰ p packet ⊎ IsSpread r m queue.final_queue p))
  pub held_blocks : (i : ℕ) → All IsBlockPos (held (local i))
  pub queue_blocks : All IsBlockPos (concat queue.merge_queue)
  pub packet_blocks : All IsBlockPos packet

-- Packets have been added to the queue.
pub record IsAdded (a b : App) : Type 0 where
  pub more : List (List Pos)
  pub added : b.preserve_queue.merge_queue ≡ a.preserve_queue.merge_queue ++ more
  pub packets : All IsPacket more
  pub final : b.preserve_queue.final_queue ≡ a.preserve_queue.final_queue

abbrev none_added : (a b : App) → b.preserve_queue ≡ a.preserve_queue → IsAdded a b
none_added a b e = record {
  more = [];
  added = rw e (sym (append-nil a.preserve_queue.merge_queue));
  packets = tt;
  final = ap (λ q. q.final_queue) e;
}

enqueue_preserve-IsAdded :
    (positions : List Pos) (app : App) → IsAdded app (enqueue_preserve positions app)
unfolding enqueue_preserve Preserve.enqueue
enqueue_preserve-IsAdded [] app = none_added app (enqueue_preserve [] app) refl
enqueue_preserve-IsAdded (p ∷ positions) app = record {
  more = (p ∷ positions) ∷ [];
  added = refl;
  packets = (tt, tt);
  final = refl;
}

flush_rest-IsAdded : (positions : List Pos) (app : App) → IsAdded app (flush_rest positions app)
unfolding flush_rest
flush_rest-IsAdded [] app = none_added app app refl
flush_rest-IsAdded (p ∷ positions) app = enqueue_preserve-IsAdded (p ∷ positions) app

note_anthropocene-IsAdded :
    (threshold : ℕ) (flag : Bool) (p : Pos) (w : Work)
    → IsAdded w.app (note_anthropocene threshold flag p w).app
unfolding note_anthropocene flush_list
note_anthropocene-IsAdded threshold true p w =
    elim (Bool-cases (ltb threshold (length (w.anthropocene_list ++ p ∷ [])))) [
      | inl e ↦ rw e (enqueue_preserve-IsAdded (w.anthropocene_list ++ p ∷ []) w.app)
      | inr e ↦ rw e (none_added w.app w.app refl)
    ]
note_anthropocene-IsAdded threshold false p w = none_added w.app w.app refl

-- A consumer's step adds packets, none of which is the tombstone.
pub Move-IsAdded :
    (threshold : ℕ) (lookup : List ℕ → NodeIdMapExtraInfo) (load : Pos → Result (Option (List ℕ)))
    (app app' : App) (x l : Local)
    → Move threshold lookup load app x app' l
    → IsAdded app app'
unfolding enqueue_map_block_pos
Move-IsAdded threshold lookup load app app' x l (Move.take key rest positions e h) =
    none_added app app' refl
Move-IsAdded threshold lookup load app app' x l (Move.stop key rest positions e h) =
    none_added app app' refl
Move-IsAdded threshold lookup load app app' x l (Move.missing key positions e) =
    none_added app app' refl
Move-IsAdded threshold lookup load app app' x l (Move.name_node key positions name) =
    none_added app app' refl
Move-IsAdded threshold lookup load app app' x l (Move.malformed key positions bytes e) =
    none_added app app' refl
Move-IsAdded threshold lookup load app app' x l (Move.parsed key positions bytes e) =
    none_added app app' refl
Move-IsAdded threshold lookup load app app' x l (Move.name_actor key positions name) =
    none_added app app' refl
Move-IsAdded threshold lookup load app app' x l (Move.scanned key positions nodes u a) =
    none_added app app' (ap (λ v. v.preserve) (enqueue_some-view nodes app))
Move-IsAdded threshold lookup load app app' x l (Move.write key positions u a) =
    none_added app app' refl
Move-IsAdded threshold lookup load app app' x l (Move.push key positions a) =
    none_added app app' refl
Move-IsAdded threshold lookup load app app' x l (Move.note key positions a) =
    note_anthropocene-IsAdded threshold a (map_block_pos key) (listed app positions)
Move-IsAdded threshold lookup load app app' x l (Move.leave positions) =
    flush_rest-IsAdded positions app
