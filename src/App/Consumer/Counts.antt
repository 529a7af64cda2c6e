-- ===== src/App/Consumer/Counts.antt =====
-- src/app/consumer.cc: the counters and the queue of blocks behind a consumer.
use minetest_map_analyzer.Prelude.{
  ℕ, ◌+◌, ◌≡◌, refl, ap, sym, ◌∙◌, Bool, Option, List, [], ◌∷◌, ◌++◌, length, append_assoc,
  append-nil, arith,
}
use minetest_map_analyzer.Prelude.Int.{ℤ}
use minetest_map_analyzer.Exceptions.{Result, Ends, Any}
use minetest_map_analyzer.Compression.{Zlib, Zstd}
use minetest_map_analyzer.Pos.{Pos, map_block_pos}
use minetest_map_analyzer.App.BlockQueue.{NoTombstone, tombstone, set_tombstone}
use minetest_map_analyzer.App.NodeScan.{NodeIdMapExtraInfo}
use minetest_map_analyzer.App.State.{App}
use minetest_map_analyzer.App.Consumer.{Work, record_block, run_consumer, new_work}
use minetest_map_analyzer.App.Consumer.{with_app, count_good, with_nodes, record_block, new_work}
use minetest_map_analyzer.App.Consumer.Recorded.{
  record_block-stats, record_block-queue, flush_rest-Kept,
}
use minetest_map_analyzer.App.Consumer.Ending.{RunEnds, run_consumer-RunEnds}
use minetest_map_analyzer.App.Consumer.Steps.{Handled, Consumed}

-- The positions are those of some of the keys, in the order of the keys.
pub data IsAmong : List Pos → List ℤ → Type 0 where
  end : IsAmong [] []
  skip :
      {positions : List Pos} {key : ℤ} {keys : List ℤ}
      → IsAmong positions keys
      → IsAmong positions (key ∷ keys)
  keep :
      {positions : List Pos} {key : ℤ} {keys : List ℤ}
      → IsAmong positions keys
      → IsAmong (map_block_pos key ∷ positions) (key ∷ keys)

-- Behind the keys, the two counters have grown by their number, and the queue of blocks to write by the
-- positions of as many of the keys as were counted as good, in their order.
pub record IsCounted (keys : List ℤ) (a b : App) : Type 0 where
  pub all :
      b.stats.good_map_blocks + b.stats.bad_map_blocks
      ≡ a.stats.good_map_blocks + a.stats.bad_map_blocks + length keys
  pub total : b.stats.queued_map_blocks ≡ a.stats.queued_map_blocks
  pub written : List Pos
  pub block_queue : b.block_queue ≡ a.block_queue ++ written
  pub good : b.stats.good_map_blocks ≡ a.stats.good_map_blocks + length written
  pub among : IsAmong written keys

module _ (threshold : ℕ) where
  good-IsCounted :
      (key : ℤ) (keys : List ℤ) (w v : Work) (b : App)
      → v.app.stats ≡ (with_app count_good w).app.stats
      → v.app.block_queue ≡ w.app.block_queue ++ map_block_pos key ∷ []
      → IsCounted keys v.app b
      → IsCounted (key ∷ keys) w.app b
  good-IsCounted key keys w v b es eq c =
      let good_v : v.app.stats.good_map_blocks ≡ w.app.stats.good_map_blocks + 1 =
        ap (λ s. s.good_map_blocks) es in
      let bad_v : v.app.stats.bad_map_blocks ≡ w.app.stats.bad_map_blocks =
        ap (λ s. s.bad_map_blocks) es in
      record {
        all = omega (arith, c.all);
        total = c.total ∙ ap (λ s. s.queued_map_blocks) es;
        written = map_block_pos key ∷ c.written;
        block_queue =
            c.block_queue
            ∙ ap (λ l. l ++ c.written) eq
            ∙ append_assoc w.app.block_queue (map_block_pos key ∷ []) c.written;
        good = omega (arith, c.good);
        among = keep c.among;
      }

  Consumed-counts :
      (keys : List ℤ) (w u : Work) → Consumed threshold keys w u → IsCounted keys w.app u.app
  Consumed-counts [] w u Consumed.done = record {
    all = omega arith;
    total = refl;
    written = [];
    block_queue = sym (append-nil w.app.block_queue);
    good = omega arith;
    among = end;
  }
  Consumed-counts (key ∷ keys) w u (Consumed.next (Handled.bad caches) rest) =
      let c = Consumed-counts keys _ u rest in
      record {
        all = omega (arith, c.all);
        total = c.total;
        written = c.written;
        block_queue = c.block_queue;
        good = c.good;
        among = skip c.among;
      }
  Consumed-counts (key ∷ keys) w u (Consumed.next (Handled.good caches uniform s) rest) =
      let v = with_app count_good (with_nodes caches w) in
      let p = map_block_pos key in
      good-IsCounted key keys w (record_block threshold p uniform s v) u.app
        (record_block-stats threshold p uniform s v) (record_block-queue threshold p uniform s v)
        (Consumed-counts keys _ u rest)

-- Only the counters and the queue of blocks matter.
pub IsCounted-Kept :
    (keys : List ℤ) (a b b' : App)
    → b'.stats ≡ b.stats
    → b'.block_queue ≡ b.block_queue
    → IsCounted keys a b
    → IsCounted keys a b'
IsCounted-Kept keys a b b' stats queue c = record {
  all = rw stats c.all;
  total = rw stats c.total;
  written = c.written;
  block_queue = queue ∙ c.block_queue;
  good = rw stats c.good;
  among = c.among;
}

module _ (threshold : ℕ) (track_minegeld : Bool) (zlib : Zlib) (zstd : Zstd)
    (lookup : List ℕ → NodeIdMapExtraInfo) (load : Pos → Result (Option (List ℕ)))
    (load_ends : (p : Pos) → Ends Any (load p)) where
  -- Started on keys of which none is the tombstone, with the tombstone behind them, and where loading a
  -- block throws no SerializationError, a consumer ends: with an exception that is no SerializationError, or
  -- behind all of its keys. Then each key has been counted as a good or as a bad block, and the queue of
  -- blocks to write has grown by the positions of as many of the keys as were counted as good, in their order.
  pub run_consumer-counts :
      (keys : List ℤ) (app : App)
      → NoTombstone keys
      → app.map_block_queue ≡ set_tombstone keys
      → RunEnds
          (IsCounted keys app)
          (run_consumer threshold track_minegeld zlib zstd lookup load app)
  run_consumer-counts keys app h start =
      run_consumer-RunEnds threshold track_minegeld zlib zstd lookup load load_ends
        (IsCounted keys app) keys app h start
        λ u c.
          let k =
            flush_rest-Kept u.anthropocene_list
              (record u.app { map_block_queue = tombstone ∷ [] }) in
          IsCounted-Kept keys app u.app _ k.stats k.block_queue
            (Consumed-counts threshold keys (new_work app) u c)
