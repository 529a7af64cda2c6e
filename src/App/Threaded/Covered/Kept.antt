-- ===== src/App/Threaded/Covered/Kept.antt =====
-- App::RunThreaded of src/app/app.cc: every step keeps the packets in order and the marked positions covered.
use minetest_map_analyzer.Prelude.{
  ℕ, ◌≡◌, refl, ap, sym, ◌∙◌, subst, true, false, Option, List, [], ◌∷◌, ◌++◌, append-nil,
}
use minetest_map_analyzer.Prelude.Int.{ℤ, pos, ◌≤ℤ◌}
use minetest_map_analyzer.Prelude.Families.{update, update-all}
use minetest_map_analyzer.Exceptions.{Result}
use minetest_map_analyzer.Pos.{Pos}
use minetest_map_analyzer.Sqlite.{Sqlite, SqliteDb}
use minetest_map_analyzer.App.NodeScan.{NodeIdMapExtraInfo}
use minetest_map_analyzer.App.Config.{Config}
use minetest_map_analyzer.App.State.{App}
use minetest_map_analyzer.App.Preserve
use minetest_map_analyzer.App.Preserve.{PreserveQueue, do_merge, surrender_final_set}
use minetest_map_analyzer.App.Preserve.Merge.{IsPacket, All-append}
use minetest_map_analyzer.App.Run.{apply_preserve_flags, set_preserve_tombstone}
use minetest_map_analyzer.App.Threaded.{Threaded, Main, Merging}
use minetest_map_analyzer.App.Threaded.Consuming.{Phase, Local, Move}
use minetest_map_analyzer.App.Threaded.Steps.{has_joined, is_finished, clash}
use minetest_map_analyzer.App.Threaded.Covered.{IsCovering, Move-IsAdded, carried}
use minetest_map_analyzer.App.Threaded.Covered.Moves.{Move-IsCovering}
use minetest_map_analyzer.App.Threaded.Covered.Merged.{
  take_packet-IsCovering, merge_packet-IsCovering, tombstone-IsCovering, flags-IsCovering,
}
use minetest_map_analyzer.App.Threaded.Covered.Steps.{
  IsMerging, Emptied, has_surrendered, end_packet, Move-emptied, not_waiting, not_merging,
  no_packet, first_packet,
}

-- The packets are in order, and the marked positions are covered until the blocks are written.
pub record IsSafe {D : Type 0} (r : ℤ) (s : Threaded D) : Type 0 where
  pub merging : IsMerging s.main s.merger s.app.preserve_queue
  pub emptied : Emptied s.local
  pub covering :
      is_finished s.main ≡ false
      → IsCovering r s.app.block_data s.app.preserve_queue (carried s.merger) s.local

-- The main thread goes on, and its joins stay as they are.
next_main :
    (main main' : Main) (merger : Merging) (queue : PreserveQueue)
    → has_joined main ≡ has_joined main'
    → (has_surrendered main' ≡ true → has_surrendered main ≡ true)
    → IsMerging main merger queue
    → IsMerging main' merger queue
next_main main main' m queue joined surrendered h = record {
  packets = h.packets;
  in_queue = h.in_queue ∙ ap (λ b. h.packets ++ end_packet b) joined;
  full = h.full;
  ended = λ e. (sym joined ∙ (h.ended e).0, (h.ended e).1);
  surrendered = λ e. h.surrendered (surrendered e);
}

module _ {D : Type 0} (sqlite : Sqlite D) (config : Config) (lookup : List ℕ → NodeIdMapExtraInfo)
    (load : Pos → Result (Option (List ℕ))) (n all : ℕ)
    (hr : config.preserve_radius ≤ℤ pos 30000) where
  abbrev pub Safe : Threaded D → Type 0
  Safe s = IsSafe config.preserve_radius s

  -- A step that leaves the main and the merging thread, the map of blocks, the preserve queue and the
  -- consumers.
  pub same_view :
      (s t : Threaded D)
      → t.main ≡ s.main
      → t.merger ≡ s.merger
      → t.local ≡ s.local
      → t.app.preserve_queue ≡ s.app.preserve_queue
      → t.app.block_data ≡ s.app.block_data
      → Safe s
      → Safe t
  same_view s t main m local queue blocks h = record {
    merging = rw (main, m, queue) h.merging;
    emptied = rw local h.emptied;
    covering = rw (main, m, local, queue, blocks) h.covering;
  }

  pub consume-Safe :
      (s : Threaded D) (i : ℕ) (app : App) (l : Local)
      → has_joined s.main ≡ false
      → Move config.anthropocene_flush_threshold lookup load s.app (s.local i) app l
      → Safe s
      → Safe (record s { app = app; local = update s.local i l })
  consume-Safe s i app l running move h =
      let t = config.anthropocene_flush_threshold in
      let g = Move-IsAdded t lookup load s.app app (s.local i) l move in
      let k = h.merging in
      let queue : s.app.preserve_queue.merge_queue ≡ k.packets =
        k.in_queue ∙ ap (λ b. k.packets ++ end_packet b) running ∙ append-nil k.packets in
      record {
        merging = record {
          packets = k.packets ++ g.more;
          in_queue =
              g.added
              ∙ ap (λ q. q ++ g.more) queue
              ∙ sym (append-nil (k.packets ++ g.more))
              ∙ ap (λ b. (k.packets ++ g.more) ++ end_packet b) (sym running);
          full = All-append IsPacket k.packets g.more k.full g.packets;
          ended = λ e. absurd (clash (k.ended e).0 running);
          surrendered = λ e. ((k.surrendered e).0, g.final ∙ (k.surrendered e).1);
        };
        emptied =
            update-all (λ x. x.phase ≡ Phase.gone → x.anthropocene_list ≡ []) s.local i l
              (Move-emptied t lookup load s.app app (s.local i) l move) h.emptied;
        covering = λ e.
            Move-IsCovering t lookup load config.preserve_radius (carried s.merger) s.local i s.app
              app (s.local i) l move refl (h.covering e);
      }

  pub take_packet-Safe :
      (s : Threaded D) (p : Pos) (positions : List Pos) (rest : List (List Pos))
      → s.merger ≡ Merging.waiting
      → s.app.preserve_queue.merge_queue ≡ (p ∷ positions) ∷ rest
      → Safe s
      → Safe (record s {
        app = record s.app { preserve_queue = record s.app.preserve_queue { merge_queue = rest } };
        merger = Merging.merging (p ∷ positions);
      })
  take_packet-Safe s p positions rest e q h =
      let k = h.merging in
      let (more, er, full) =
        first_packet k.packets (has_joined s.main) p positions rest k.full (sym k.in_queue ∙ q) in
      record {
        merging = record {
          packets = more;
          in_queue = er;
          full = full;
          ended = λ f. cc;
          surrendered = λ f. absurd (not_waiting e (k.surrendered f).0);
        };
        emptied = h.emptied;
        covering = λ f.
            take_packet-IsCovering config.preserve_radius s.app.block_data s.app.preserve_queue
              s.local (p ∷ positions) rest q
              (subst
                (λ x.
                  IsCovering config.preserve_radius s.app.block_data s.app.preserve_queue
                    (carried x) s.local)
                e (h.covering f));
      }

  pub merge_packet-Safe :
      (s : Threaded D) (packet : List Pos)
      → s.merger ≡ Merging.merging packet
      → Safe s
      → Safe (record s {
        app = record s.app {
          preserve_queue = record s.app.preserve_queue {
            final_queue = do_merge config.preserve_radius packet s.app.preserve_queue.final_queue;
          };
        };
        merger = Merging.waiting;
      })
  merge_packet-Safe s packet e h = record {
    merging = record {
      packets = h.merging.packets;
      in_queue = h.merging.in_queue;
      full = h.merging.full;
      ended = λ f. cc;
      surrendered = λ f. absurd (not_merging e (h.merging.surrendered f).0);
    };
    emptied = h.emptied;
    covering = λ f.
        merge_packet-IsCovering config.preserve_radius s.app.block_data s.app.preserve_queue s.local
          packet hr
          (subst
            (λ x.
              IsCovering config.preserve_radius s.app.block_data s.app.preserve_queue (carried x)
                s.local)
            e (h.covering f));
  }

  pub end_merge-Safe :
      (s : Threaded D) (rest : List (List Pos))
      → s.merger ≡ Merging.waiting
      → s.app.preserve_queue.merge_queue ≡ [] ∷ rest
      → Safe s
      → Safe (record s { merger = Merging.merged })
  end_merge-Safe s rest e q h = record {
    merging = record {
      packets = h.merging.packets;
      in_queue = h.merging.in_queue;
      full = h.merging.full;
      ended = λ f.
          no_packet h.merging.packets (has_joined s.main) rest h.merging.full
            (sym h.merging.in_queue ∙ q);
      surrendered = λ f. (refl, (h.merging.surrendered f).1);
    };
    emptied = h.emptied;
    covering = λ f.
        subst
          (λ x.
            IsCovering config.preserve_radius s.app.block_data s.app.preserve_queue (carried x)
              s.local)
          e (h.covering f);
  }

  pub joined-Safe :
      (s : Threaded D)
      → s.main ≡ Main.joining
      → Safe s
      → Safe (record s { app = set_preserve_tombstone s.app; main = Main.flushing_actors })
  unfolding Preserve.set_tombstone
  joined-Safe s e h =
      let k = h.merging in
      let running : has_joined s.main ≡ false = ap has_joined e in
      record {
        merging = record {
          packets = k.packets;
          in_queue =
              ap (λ q. q ++ [] ∷ [])
                (k.in_queue ∙ ap (λ b. k.packets ++ end_packet b) running ∙ append-nil k.packets);
          full = k.full;
          ended = λ f. absurd (clash (k.ended f).0 running);
          surrendered = λ f. cc;
        };
        emptied = h.emptied;
        covering = λ f.
            tombstone-IsCovering config.preserve_radius s.app.block_data s.app.preserve_queue
              s.local (carried s.merger) (h.covering (ap is_finished e));
      }

  pub joined_merger-Safe :
      (s : Threaded D)
      → s.main ≡ Main.joining_merger
      → s.merger ≡ Merging.merged
      → Safe s
      → Safe (record s { app = apply_preserve_flags s.app; main = Main.flushing_blocks })
  unfolding apply_preserve_flags surrender_final_set
  joined_merger-Safe s e m h =
      let k = h.merging in
      let joined : has_joined s.main ≡ true = ap has_joined e in
      record {
        merging = record {
          packets = k.packets;
          in_queue = k.in_queue ∙ ap (λ b. k.packets ++ end_packet b) joined;
          full = k.full;
          ended = λ f. (refl, (k.ended f).1);
          surrendered = λ f. (m, refl);
        };
        emptied = h.emptied;
        covering = λ f.
            flags-IsCovering config.preserve_radius s.app.block_data s.app.preserve_queue s.local
              (carried s.merger) (h.covering (ap is_finished e));
      }

  -- A flush, or the end of the progress bar.
  pub main-Safe :
      (s : Threaded D) (app : App) (db : SqliteDb D) (main main' : Main)
      → s.main ≡ main
      → has_joined main ≡ has_joined main'
      → (has_surrendered main' ≡ true → has_surrendered main ≡ true)
      → app.preserve_queue ≡ s.app.preserve_queue
      → (is_finished main' ≡ false
          → (is_finished main ≡ false) × (app.block_data ≡ s.app.block_data))
      → Safe s
      → Safe (record s { app = app; db = db; main = main' })
  main-Safe s app db main main' e joined surrendered queue blocks h = record {
    merging = rw queue (
        next_main s.main main' s.merger s.app.preserve_queue (ap has_joined e ∙ joined)
          (λ f. ap has_surrendered e ∙ surrendered f) h.merging);
    emptied = h.emptied;
    covering = λ f.
        let (running, same) = blocks f in
        rw (queue, same) (h.covering (ap is_finished e ∙ running));
  }
