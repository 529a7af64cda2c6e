-- ===== src/App/Threaded/Ending.antt =====
-- App::RunThreaded of src/app/app.cc: what has been counted and written where it ends.
pub mod Runs
use minetest_map_analyzer.Prelude.{
  ℕ, ◌+◌, ◌<◌, ◌≤◌, ◌≡◌, refl, ap, sym, ◌∙◌, subst, true, false, Option, List, [], ◌∷◌, ◌++◌,
  length, ltb, Bool-cases, inl, inr, arith,
}
use minetest_map_analyzer.Prelude.Int.{ℤ, pos, ◌≤ℤ◌}
use minetest_map_analyzer.Prelude.Families.{total-zero}
use minetest_map_analyzer.Exceptions.{Result, ok, bind_result}
use minetest_map_analyzer.Pos.{Pos, map_block_id}
use minetest_map_analyzer.Sqlite.{Sqlite, SqliteDb}
use minetest_map_analyzer.Sqlite.Bound.{IsReady}
use minetest_map_analyzer.Sqlite.Rows.{execute}
use minetest_map_analyzer.App.BlockData.{MapBlockHashMap, data_at}
use minetest_map_analyzer.App.NodeScan.{NodeIdMapExtraInfo}
use minetest_map_analyzer.App.Config.{Config}
use minetest_map_analyzer.App.State.{App}
use minetest_map_analyzer.App.Preserve.Merge.{concat}
use minetest_map_analyzer.App.Producer.Batches.{ids_inside}
use minetest_map_analyzer.App.DataWriter.Flushes.{transaction}
use minetest_map_analyzer.App.BlockWriter.{flush_block_queue}
use minetest_map_analyzer.App.BlockWriter.Blocks.{block_rows, flush_block_queue-execute}
use minetest_map_analyzer.App.Run.Written.{IsPreserving}
use minetest_map_analyzer.App.Threaded.{Threaded, Main, Step, Reach, start}
use minetest_map_analyzer.App.Threaded.Consuming.{Phase, Local, new_local}
use minetest_map_analyzer.App.Threaded.Views.{flush_block_queue-IsWritten}
use minetest_map_analyzer.App.Threaded.Fed.{uncounted, unpushed, saw_end}
use minetest_map_analyzer.App.Threaded.Steps.{
  AllGone, has_joined, is_finished, clash, filled, gone-Move,
}
use minetest_map_analyzer.App.Threaded.Steps.Kept.{Orderly, before}
use minetest_map_analyzer.App.Threaded.Steps.Runs.{Step-Orderly}
use minetest_map_analyzer.App.Threaded.Covered.{IsCovering, held, carried}
use minetest_map_analyzer.App.Threaded.Covered.Merged.{drained-IsPreserving}
use minetest_map_analyzer.App.Threaded.Covered.Steps.{Emptied, has_surrendered, end_packet}
use minetest_map_analyzer.App.Threaded.Covered.Kept.{IsSafe}
use minetest_map_analyzer.App.Threaded.Covered.Runs.{Reach-Safe}

-- An App that has not begun: the queues of keys and of packets are empty, no block is marked, and the
-- counters agree with each other and with the queue of blocks.
pub record IsFresh (app : App) : Type 0 where
  pub no_keys : app.map_block_queue ≡ []
  pub no_packets : app.preserve_queue.merge_queue ≡ []
  pub unmarked : (p : Pos) → (data_at p app.block_data).anthropocene ≡ false
  pub counted : app.stats.good_map_blocks + app.stats.bad_map_blocks ≡ app.stats.queued_map_blocks
  pub pushed : length app.block_queue ≡ app.stats.good_map_blocks

all_gone :
    (n : ℕ) (local : ℕ → Local)
    → AllGone n local
    → ((i : ℕ) → n ≤ i → local i ≡ new_local)
    → Emptied local
    → (i : ℕ) → held (local i) ≡ []
all_gone n local gone others emptied i = elim (Bool-cases (ltb i n)) [
  | inr e ↦ ap held (others i (ground arith))
  | inl e ↦ let g = gone i (ground arith) in gone-held (local i) g (emptied i g)
]
  where
    gone-held : (l : Local) → l.phase ≡ Phase.gone → l.anthropocene_list ≡ [] → held l ≡ []
    gone-held l e f = rw e f

-- The rows of the blocks: one for each block that was counted as good, from a map of blocks in which every
-- position within the radius of a marked one is preserved, written to a database as it was before.
abbrev pub HasWritten : {D : Type 0} → Sqlite D → ℤ → ℕ → SqliteDb D → Type 0
HasWritten {D} sqlite r good db =
    (before : D) × (queue : List Pos) × (m : MapBlockHashMap) × (execute sqlite
        (transaction (block_rows queue m)) before
      ≡ ok db.database)
    × (length queue ≡ good)
    × IsPreserving r m

-- The numbers of the rows that the producer is to find.
abbrev pub all_rows : Config → (ℤ → ℤ → List ℤ) → List ℤ
all_rows config list_blocks =
    ids_inside config.min_pos config.max_pos
      (list_blocks (map_block_id config.min_pos) (map_block_id config.max_pos))

module _ {D : Type 0} (sqlite : Sqlite D) (config : Config) (lookup : List ℕ → NodeIdMapExtraInfo)
    (load : Pos → Result (Option (List ℕ))) (n : ℕ) where
  pub start-Orderly :
      (list_blocks : ℤ → ℤ → List ℤ) (app : App) (db : SqliteDb D) (all : ℕ)
      → app.stats.queued_map_blocks
          + length (
              ids_inside config.min_pos config.max_pos
                (list_blocks (map_block_id config.min_pos) (map_block_id config.max_pos)))
        ≡ all
      → IsFresh app
      → IsReady db
      → Orderly sqlite config lookup load n all (start sqlite config lookup load list_blocks app db)
  start-Orderly list_blocks app db all e f ready =
      let no_uncounted = total-zero uncounted n (λ i. new_local) λ i lt. refl in
      let no_unpushed = total-zero unpushed n (λ i. new_local) λ i lt. refl in
      record {
        written = 0;
        fed = (
          [],
          record {
            in_queue = ap (λ q. q ++ []) f.no_keys;
            left_keys = tt;
            seen = λ i h. cc;
            counted = omega (arith, f.counted, no_uncounted);
            pushed = omega (arith, f.pushed, no_unpushed);
          },
        );
        found = e;
        at_end = λ h. cc;
        unwritten = inl (refl, ready);
        joined = λ h. cc;
        others = λ i h. refl;
      }

  pub start-Safe :
      (list_blocks : ℤ → ℤ → List ℤ) (app : App) (db : SqliteDb D)
      → IsFresh app
      → IsSafe config.preserve_radius (start sqlite config lookup load list_blocks app db)
  start-Safe list_blocks app db f = record {
    merging = record {
      packets = [];
      in_queue = f.no_packets;
      full = tt;
      ended = λ h. cc;
      surrendered = λ h. cc;
    };
    emptied = λ i h. cc;
    covering = λ h. record {
      marked = λ p flag. absurd (clash flag (f.unmarked p));
      held_blocks = λ i. tt;
      queue_blocks = rw (f.no_packets) tt;
      packet_blocks = tt;
    };
  }

module _ {D : Type 0} (sqlite : Sqlite D) (config : Config) (lookup : List ℕ → NodeIdMapExtraInfo)
    (load : Pos → Result (Option (List ℕ))) (n : ℕ) (some_consumer : 0 < n)
    (hr : config.preserve_radius ≤ℤ pos 30000) where
  module _ (all : ℕ) where
    -- Every row inside the box has been counted, where the consumers are joined.
    pub settled :
        (s : Threaded D)
        → has_joined s.main ≡ true
        → Orderly sqlite config lookup load n all s
        → (s.app.stats.good_map_blocks + s.app.stats.bad_map_blocks ≡ all)
          × (s.app.stats.queued_map_blocks ≡ all)
    settled s joined o =
        let (ended, gone) = o.joined joined in
        let (left, f) = o.fed in
        let counted = total-zero uncounted n s.local λ i lt. rw (gone i lt) refl in
        let rows : length (ids_inside config.min_pos config.max_pos s.rows) ≡ 0 =
          ap (λ rows. length (ids_inside config.min_pos config.max_pos rows)) (o.at_end ended).0 in
        let saw : saw_end (s.local 0) ≡ true = rw (gone 0 some_consumer) refl in
        let none : length left ≡ 0 = ap length (f.seen 0 saw).1 in
        (omega (arith, f.counted, o.found), omega (arith, o.found))

    pub pushed_lem :
        (s : Threaded D)
        → s.main ≡ Main.flushing_blocks
        → Orderly sqlite config lookup load n all s
        → length s.app.block_queue ≡ s.app.stats.good_map_blocks
    pushed_lem s e o =
        let (left, f) = o.fed in
        let gone = (o.joined (ap has_joined e)).1 in
        let pushed = total-zero unpushed n s.local λ i lt. rw (gone i lt) refl in
        let unwritten = (before sqlite config lookup load n all s e refl o.unwritten).0 in
        omega (arith, f.pushed)

    -- The map from which FlushBlockQueue writes.
    pub preserving :
        (s : Threaded D)
        → s.main ≡ Main.flushing_blocks
        → Orderly sqlite config lookup load n all s
        → IsSafe config.preserve_radius s
        → IsPreserving config.preserve_radius s.app.block_data
    preserving s e o h =
        let k = h.merging in
        let (merged, final) = k.surrendered (ap has_surrendered e) in
        let (joined, empty) = k.ended merged in
        let queue : concat s.app.preserve_queue.merge_queue ≡ [] =
          ap concat k.in_queue
          ∙ ap (λ b. concat (k.packets ++ end_packet b)) joined
          ∙ ap (λ l. concat (l ++ [] ∷ [])) empty in
        let gone = (o.joined joined).1 in
        drained-IsPreserving config.preserve_radius s.app.block_data s.app.preserve_queue s.local
          (all_gone n s.local gone o.others h.emptied) queue final
          (subst
            (λ x.
              IsCovering config.preserve_radius s.app.block_data s.app.preserve_queue (carried x)
                s.local)
            merged (h.covering (ap is_finished e)))
