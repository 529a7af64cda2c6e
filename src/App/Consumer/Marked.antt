-- ===== src/App/Consumer/Marked.antt =====
-- src/app/consumer.cc: the blocks that are marked, and the positions that the preserve queue is given.
use minetest_map_analyzer.Prelude.{
  ℕ, ◌≡◌, refl, subst, inl, inr, Bool, true, false, Option, List, [], ◌∷◌, ◌++◌, Memᴰ, Bool-cases,
  All, append-nil,
}
use minetest_map_analyzer.Prelude.Int.{ℤ}
use minetest_map_analyzer.Pos.{Pos, map_block_pos, pos_eq}
use minetest_map_analyzer.Pos.Ids.{IsBlockPos, map_block_pos-IsBlockPos}
use minetest_map_analyzer.Pos.Hash.{pos_eq_iff}
use minetest_map_analyzer.App.BlockData.{MapBlockData, MapBlockHashMap, data_at, modify_data}
use minetest_map_analyzer.App.BlockData.Laws.{data_at-modify_data}
use minetest_map_analyzer.App.State.{App}
use minetest_map_analyzer.Exceptions.{Result, Ends, Any}
use minetest_map_analyzer.Compression.{Zlib, Zstd}
use minetest_map_analyzer.App.BlockQueue.{NoTombstone, set_tombstone}
use minetest_map_analyzer.App.NodeScan.{NodeIdMapExtraInfo}
use minetest_map_analyzer.App.Consumer.{Work, new_work, set_data, run_consumer}
use minetest_map_analyzer.App.Consumer.Steps.{Handled, Consumed}
use minetest_map_analyzer.App.Preserve.Merge.{IsPacked}
use minetest_map_analyzer.App.Consumer.Packed.{Consumed-IsPacked, flush_rest-IsPacked}
use minetest_map_analyzer.App.Consumer.Recorded.{
  queued, pending, with_marked, record_block-data, record_block-pending, flush_rest-data,
  flush_rest-queued,
}
use minetest_map_analyzer.App.Consumer.Ending.{RunEnds, run_consumer-RunEnds}

mem-append_left : (p : Pos) (a b : List Pos) → Memᴰ p a → Memᴰ p (a ++ b)
mem-append_left p [] b m = elim m [ ]
mem-append_left p (q ∷ a) b (Memᴰ.head e) = Memᴰ.head e
mem-append_left p (q ∷ a) b (Memᴰ.tail m) = Memᴰ.tail (mem-append_left p a b m)

pub mem-append_last : (p : Pos) (a : List Pos) → Memᴰ p (a ++ p ∷ [])
mem-append_last p [] = Memᴰ.head refl
mem-append_last p (q ∷ a) = Memᴰ.tail (mem-append_last p a)

pub All-append : (P : Pos → Type 0) (a b : List Pos) → All P a → All P b → All P (a ++ b)
All-append P [] b h k = k
All-append P (q ∷ a) b (h, hs) k = (h, All-append P a b hs k)

-- Every position that is marked is listed, and every listed position is one of a block.
pub record IsCovered (m : MapBlockHashMap) (positions : List Pos) : Type 0 where
  pub listed : (p : Pos) → (data_at p m).anthropocene ≡ true → Memᴰ p positions
  pub blocks : All IsBlockPos positions

pub unmarked : (uniform : ℕ) (d : MapBlockData) → (set_data uniform false d).anthropocene ≡ true → ⊥
unfolding set_data
unmarked uniform d h = cc

with_marked-IsCovered :
    (threshold : ℕ) (b : Bool) (p : Pos) (uniform : ℕ) (m : MapBlockHashMap) (positions : List Pos)
    → IsBlockPos p
    → IsCovered m positions
    → IsCovered (modify_data p (set_data uniform b) m) (with_marked threshold b p positions)
with_marked-IsCovered threshold true p uniform m positions h c = record {
  listed = λ q marked. elim (Bool-cases (pos_eq p q)) [
    | inl e ↦
        subst (λ v. Memᴰ v (positions ++ p ∷ [])) ((pos_eq_iff p q).0 e)
          (mem-append_last p positions)
    | inr e ↦
        mem-append_left q positions (p ∷ [])
          (c.listed q (rw (data_at-modify_data p q (set_data uniform true) m, e) at marked))
  ];
  blocks = All-append IsBlockPos positions (p ∷ []) c.blocks (h, tt);
}
with_marked-IsCovered threshold false p uniform m positions h c = record {
  listed = λ q marked. elim (Bool-cases (pos_eq p q)) [
    | inl e ↦ absurd (
        unmarked uniform (data_at p m)
          (rw (data_at-modify_data p q (set_data uniform false) m, e) at marked))
    | inr e ↦ c.listed q (rw (data_at-modify_data p q (set_data uniform false) m, e) at marked)
  ];
  blocks = c.blocks;
}

module _ (threshold : ℕ) where
  Handled-IsCovered :
      (p : Pos) (w v : Work)
      → IsBlockPos p
      → Handled threshold p w v
      → IsCovered w.app.block_data (pending w)
      → IsCovered v.app.block_data (pending v)
  Handled-IsCovered p w v h (Handled.bad caches) c = c
  Handled-IsCovered p w v h (Handled.good caches uniform s) c =
      rw (record_block-data threshold p uniform s _, record_block-pending threshold p uniform s _)
        (with_marked-IsCovered threshold s.anthropocene p uniform w.app.block_data (pending w) h c)

  Consumed-IsCovered :
      (keys : List ℤ) (w u : Work)
      → Consumed threshold keys w u
      → IsCovered w.app.block_data (pending w)
      → IsCovered u.app.block_data (pending u)
  Consumed-IsCovered [] w u Consumed.done c = c
  Consumed-IsCovered (key ∷ keys) w u (Consumed.next {v} h rest) c =
      Consumed-IsCovered keys v u rest
        (Handled-IsCovered (map_block_pos key) w v (map_block_pos-IsBlockPos key) h c)

-- Every marked position is in a packet of the preserve queue, which holds positions of blocks only, and
-- no tombstone.
abbrev pub IsQueued : App → Type 0
IsQueued app = IsCovered app.block_data (queued app) × IsPacked app.preserve_queue

-- Started on keys of which none is the tombstone, with the tombstone behind them, and where loading a
-- block throws no SerializationError, a consumer keeps this, whatever the threshold: if every position that
-- is marked as anthropocene is in the preserve queue, and that holds positions of blocks only and no
-- tombstone, then this is so as well where the consumer returns.
pub run_consumer-IsQueued :
    (threshold : ℕ) (track_minegeld : Bool) (zlib : Zlib) (zstd : Zstd)
    (lookup : List ℕ → NodeIdMapExtraInfo) (load : Pos → Result (Option (List ℕ))) (keys : List ℤ)
    (app : App)
    → ((p : Pos) → Ends Any (load p))
    → NoTombstone keys
    → app.map_block_queue ≡ set_tombstone keys
    → IsQueued app
    → RunEnds IsQueued (run_consumer threshold track_minegeld zlib zstd lookup load app)
run_consumer-IsQueued threshold track_minegeld zlib zstd lookup load keys app ends h start
      (c, packed) =
    run_consumer-RunEnds threshold track_minegeld zlib zstd lookup load ends IsQueued keys app h
      start
      λ u consumed.
        let behind =
          Consumed-IsCovered threshold keys (new_work app) u consumed
            (simp (append-nil (queued app)) c) in
        (
          rw (flush_rest-data u.anthropocene_list _, flush_rest-queued u.anthropocene_list _)
              behind,
          flush_rest-IsPacked u.anthropocene_list _
              (Consumed-IsPacked threshold keys (new_work app) u consumed packed),
        )
