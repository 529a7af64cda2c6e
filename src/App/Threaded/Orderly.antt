-- ===== src/App/Threaded/Orderly.antt =====
-- App::RunThreaded of src/app/app.cc: every step keeps the producer and the consumers in order.
use minetest_map_analyzer.Prelude.{
  ℕ, ◌+◌, ◌≡◌, refl, ap, sym, ◌∙◌, Bool, true, false, Option, List, [], ◌∷◌, ◌++◌, append-nil,
  length, length-append, Bool-cases, inl, inr, arith,
}
use minetest_map_analyzer.Prelude.Int.{ℤ}
use minetest_map_analyzer.Exceptions.{Result}
use minetest_map_analyzer.Pos.{Pos, inside, map_block_id, map_block_pos}
use minetest_map_analyzer.Pos.Ids.{map_block_pos-IsBlockPos}
use minetest_map_analyzer.Sqlite.{Sqlite}
use minetest_map_analyzer.App.BlockQueue.{
  Queue, NoTombstone, tombstone, set_tombstone, enqueue, enqueue_lem,
}
use minetest_map_analyzer.App.BlockQueue.Threads.Received.{tail}
use minetest_map_analyzer.App.NodeScan.{NodeIdMapExtraInfo}
use minetest_map_analyzer.App.Config.{Config}
use minetest_map_analyzer.App.Producer.{Producing, callback}
use minetest_map_analyzer.App.Producer.Batches.{ids_inside, callback-Counted}
use minetest_map_analyzer.App.Run.{with_producing}
use minetest_map_analyzer.App.Run.Runs.{not_tombstone}
use minetest_map_analyzer.App.Threaded.{Threaded, producing, produce_row}
use minetest_map_analyzer.App.Threaded.Consuming.{Local}
use minetest_map_analyzer.App.Threaded.Views.{View, view}
use minetest_map_analyzer.App.Threaded.Fed.{Fed}

NoTombstone-append :
    (a : List ℤ) (key : ℤ) → NoTombstone a → NoTombstone (key ∷ []) → NoTombstone (a ++ key ∷ [])
NoTombstone-append [] key h k = k
NoTombstone-append (x ∷ a) key (h, hs) k = (h, NoTombstone-append a key hs k)

clash : {b : Bool} → b ≡ true → b ≡ false → ⊥
clash e f = cc

-- The parts of the view that IsFed is about.
pub same-Fed :
    (n : ℕ) (v v' : View) (keys : List ℤ) (produced : Bool) (local : ℕ → Local) (written : ℕ)
    → v'.queue ≡ v.queue
    → v'.stats ≡ v.stats
    → v'.block_queue ≡ v.block_queue
    → Fed n v keys produced local written
    → Fed n v' keys produced local written
same-Fed n v v' keys produced local written queue stats blocks (left, f) = (
  left,
  record {
    in_queue = ap (λ q. q ++ keys) queue ∙ f.in_queue;
    left_keys = f.left_keys;
    seen = f.seen;
    counted = rw stats f.counted;
    pushed = rw (stats, blocks) f.pushed;
  },
)

-- The queue, with the keys of the producer's batch.
requeue-Fed :
    (n : ℕ) (v : View) (queue : Queue) (keys keys' : List ℤ) (produced : Bool) (local : ℕ → Local)
    (written : ℕ)
    → queue ++ keys' ≡ v.queue ++ keys
    → Fed n v keys produced local written
    → Fed n (record v { queue = queue }) keys' produced local written
requeue-Fed n v queue keys keys' produced local written e (left, f) = (
  left,
  record {
    in_queue = e ∙ f.in_queue;
    left_keys = f.left_keys;
    seen = f.seen;
    counted = f.counted;
    pushed = f.pushed;
  },
)

pub last_batch-Fed :
    (n : ℕ) (v : View) (keys batch : List ℤ) (produced : Bool) (local : ℕ → Local) (written : ℕ)
    → keys ≡ batch
    → Fed n v keys produced local written
    → Fed n (record v { queue = enqueue batch v.queue }) [] produced local written
last_batch-Fed n v keys batch produced local written e f =
    requeue-Fed n v (enqueue batch v.queue) keys [] produced local written
      (append-nil (enqueue batch v.queue)
        ∙ enqueue_lem batch v.queue
        ∙ ap (λ k. v.queue ++ k) (sym e))
      f

pub end_keys-Fed :
    (n : ℕ) (v : View) (keys : List ℤ) (produced : Bool) (local : ℕ → Local) (written : ℕ)
    → keys ≡ []
    → produced ≡ false
    → Fed n v keys produced local written
    → Fed n (record v { queue = set_tombstone v.queue }) keys true local written
unfolding set_tombstone
end_keys-Fed n v keys produced local written no_keys more (left, f) =
    let queue : v.queue ≡ left =
      sym (append-nil v.queue)
      ∙ ap (λ k. v.queue ++ k) (sym no_keys)
      ∙ f.in_queue
      ∙ ap (λ b. left ++ tail b) more
      ∙ append-nil left in
    (
      left,
      record {
        in_queue =
            ap (λ k. (v.queue ++ tombstone ∷ []) ++ k) no_keys
            ∙ append-nil (v.queue ++ tombstone ∷ [])
            ∙ ap (λ q. q ++ tombstone ∷ []) queue;
        left_keys = f.left_keys;
        seen = λ i e. (refl, (f.seen i e).1);
        counted = f.counted;
        pushed = f.pushed;
      },
    )

-- A row adds its key, and to the number of the blocks that are queued.
add_key-Fed :
    (n : ℕ) (v : View) (p : Producing) (keys : List ℤ) (produced : Bool) (local : ℕ → Local)
    (written : ℕ) (key : ℤ)
    → produced ≡ false
    → NoTombstone (key ∷ [])
    → p.map_block_queue ++ p.keys ≡ (v.queue ++ keys) ++ key ∷ []
    → p.queued_map_blocks ≡ v.stats.queued_map_blocks + 1
    → Fed n v keys produced local written
    → Fed n
        (record v {
          queue = p.map_block_queue;
          stats = record v.stats { queued_map_blocks = p.queued_map_blocks };
        })
        p.keys
        produced
        local
        written
add_key-Fed n v p keys produced local written key more fresh queue queued (left, f) =
    let before : v.queue ++ keys ≡ left =
      f.in_queue ∙ ap (λ b. left ++ tail b) more ∙ append-nil left in
    let len = length-append left (key ∷ []) in
    (
      left ++ key ∷ [],
      record {
        in_queue =
            queue
            ∙ ap (λ q. q ++ key ∷ []) before
            ∙ sym (append-nil (left ++ key ∷ []))
            ∙ ap (λ b. (left ++ key ∷ []) ++ tail b) (sym more);
        left_keys = NoTombstone-append left key f.left_keys fresh;
        seen = λ i e. absurd (clash (f.seen i e).0 more);
        counted = omega (arith, f.counted, len, queued);
        pushed = f.pushed;
      },
    )

-- The rows that are left, and those that are queued, are all of the rows inside the box.
abbrev pub Found : Pos → Pos → ℕ → View → List ℤ → Type 0
Found min max all v rows = v.stats.queued_map_blocks + length (ids_inside min max rows) ≡ all

module _ {D : Type 0} (sqlite : Sqlite D) (config : Config) (lookup : List ℕ → NodeIdMapExtraInfo)
    (load : Pos → Result (Option (List ℕ))) where
  pub produce_row-Fed :
      (n all : ℕ) (s : Threaded D) (written : ℕ) (id : ℤ) (rest : List ℤ)
      → s.produced ≡ false
      → Found config.min_pos config.max_pos all (view s.app) (id ∷ rest)
      → Fed n (view s.app) s.keys s.produced s.local written
      → let p = produce_row sqlite config lookup load id (producing s) in
        Fed n (view (with_producing p s.app)) p.keys s.produced s.local written
        × Found config.min_pos config.max_pos all (view (with_producing p s.app)) rest
  unfolding produce_row
  produce_row-Fed n all s written id rest more found f =
      elim (Bool-cases (inside (map_block_pos id) config.min_pos config.max_pos)) [
        | inr e ↦ rw e (f, rw e at found)
        | inl e ↦
            let c = callback-Counted config.producer_batch_size (map_block_pos id) (producing s) in
            let p = (callback config.producer_batch_size (map_block_pos id) (producing s)).1 in
            let key = map_block_id (map_block_pos id) in
            let found' = rw e at found in
            rw e (
              add_key-Fed n (view s.app) p s.keys s.produced s.local written key more
                  (not_tombstone (map_block_pos id) (map_block_pos-IsBlockPos id), tt) c.0 c.2 f,
              omega (arith, found', c.2),
            )
      ]
