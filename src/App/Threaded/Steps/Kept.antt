-- ===== src/App/Threaded/Steps/Kept.antt =====
-- App::RunThreaded of src/app/app.cc: every step keeps the producer, the consumers and the counters in order.
use minetest_map_analyzer.Prelude.{
  ℕ, ◌<◌, ◌≡◌, refl, ap, sym, ◌∙◌, subst, true, false, Option, List, [], ◌∷◌, ◌++◌, length,
  Bool-cases, ◌==◌, inl, inr, arith,
}
use minetest_map_analyzer.Prelude.Int.{ℤ}
use minetest_map_analyzer.Prelude.Families.{update}
use minetest_map_analyzer.Exceptions.{Result}
use minetest_map_analyzer.Pos.{Pos}
use minetest_map_analyzer.Sqlite.{Sqlite, SqliteDb}
use minetest_map_analyzer.Sqlite.Bound.{IsReady}
use minetest_map_analyzer.App.BlockQueue.{enqueue, set_tombstone}
use minetest_map_analyzer.App.NodeScan.{NodeIdMapExtraInfo}
use minetest_map_analyzer.App.Config.{Config}
use minetest_map_analyzer.App.State.{App}
use minetest_map_analyzer.App.Preserve.{surrender_final_set}
use minetest_map_analyzer.App.Preserve
use minetest_map_analyzer.App.Run.{with_producing, set_preserve_tombstone}
use minetest_map_analyzer.App.Threaded.{Threaded, Main, Merging, producing, produce_row}
use minetest_map_analyzer.App.Threaded.Consuming.{Local, Move}
use minetest_map_analyzer.App.Threaded.Views.{view, IsWritten}
use minetest_map_analyzer.App.Threaded.Fed.Moves.{Move-Fed}
use minetest_map_analyzer.App.Threaded.Orderly.{
  Found, same-Fed, last_batch-Fed, end_keys-Fed, produce_row-Fed,
}
use minetest_map_analyzer.App.Threaded.Steps.{
  IsOrderly, Unwritten, AllGone, has_joined, is_finished, clash, filled, gone-Move, Move-queued,
}

module _ {D : Type 0} (sqlite : Sqlite D) (config : Config) (lookup : List ℕ → NodeIdMapExtraInfo)
    (load : Pos → Result (Option (List ℕ))) (n all : ℕ) where
  abbrev pub Orderly : Threaded D → Type 0
  Orderly s = IsOrderly config.min_pos config.max_pos n all s

  -- Before the end, nothing has been written of the blocks.
  pub before :
      (s : Threaded D) {main : Main} {written : ℕ}
      → s.main ≡ main
      → is_finished main ≡ false
      → Unwritten s.main s.db written
      → (written ≡ 0) × IsReady s.db
  before s e other (inl h) = h
  before s e other (inr h) = absurd (clash (ap is_finished (sym e ∙ h)) other)

  -- A step that leaves the producer, the consumers, the counters and the queues of keys and of blocks.
  pub beside :
      (s : Threaded D) (app : App) (state : Merging)
      → app.map_block_queue ≡ s.app.map_block_queue
      → app.stats ≡ s.app.stats
      → app.block_queue ≡ s.app.block_queue
      → Orderly s
      → Orderly (record s { app = app; merger = state })
  beside s app state queue stats blocks o = record {
    written = o.written;
    fed =
        same-Fed n (view s.app) (view app) s.keys s.produced s.local o.written queue stats blocks
          o.fed;
    found = rw stats o.found;
    at_end = o.at_end;
    unwritten = o.unwritten;
    joined = o.joined;
    others = o.others;
  }

  pub row-Orderly :
      (s : Threaded D) (id : ℤ) (rest : List ℤ)
      → s.rows ≡ id ∷ rest
      → Orderly s
      → Orderly (record s {
        app = with_producing (produce_row sqlite config lookup load id (producing s)) s.app;
        rows = rest;
        count = (produce_row sqlite config lookup load id (producing s)).count;
        keys = (produce_row sqlite config lookup load id (producing s)).keys;
      })
  row-Orderly s id rest e o = elim (Bool-cases s.produced) [
    | inl h ↦ absurd (filled (sym e ∙ (o.at_end h).0))
    | inr more ↦
        let p =
          produce_row-Fed sqlite config lookup load n all s o.written id rest more
            (subst (λ rows. Found config.min_pos config.max_pos all (view s.app) rows) e o.found)
            o.fed in
        record {
          written = o.written;
          fed = p.0;
          found = p.1;
          at_end = λ h. absurd (clash h more);
          unwritten = o.unwritten;
          joined = o.joined;
          others = o.others;
        }
  ]

  pub last_batch-Orderly :
      (s : Threaded D) (key : ℤ) (keys : List ℤ)
      → s.rows ≡ []
      → s.keys ≡ key ∷ keys
      → Orderly s
      → Orderly (record s {
        app = record s.app { map_block_queue = enqueue (key ∷ keys) s.app.map_block_queue };
        keys = [];
      })
  last_batch-Orderly s key keys e k o = record {
    written = o.written;
    fed = last_batch-Fed n (view s.app) s.keys (key ∷ keys) s.produced s.local o.written k o.fed;
    found = o.found;
    at_end = λ h. (e, refl);
    unwritten = o.unwritten;
    joined = o.joined;
    others = o.others;
  }

  pub end_keys-Orderly :
      (s : Threaded D)
      → s.rows ≡ []
      → s.keys ≡ []
      → s.produced ≡ false
      → Orderly s
      → Orderly (record s {
        app = record s.app { map_block_queue = set_tombstone s.app.map_block_queue };
        produced = true;
      })
  end_keys-Orderly s e k more o = record {
    written = o.written;
    fed = end_keys-Fed n (view s.app) s.keys s.produced s.local o.written k more o.fed;
    found = o.found;
    at_end = λ h. (e, k);
    unwritten = o.unwritten;
    joined = λ h. (refl, (o.joined h).1);
    others = o.others;
  }

  pub consume-Orderly :
      (s : Threaded D) (i : ℕ) (app : App) (l : Local)
      → i < n
      → Move config.anthropocene_flush_threshold lookup load s.app (s.local i) app l
      → Orderly s
      → Orderly (record s { app = app; local = update s.local i l })
  consume-Orderly s i app l lt move o =
      let t = config.anthropocene_flush_threshold in
      record {
        written = o.written;
        fed =
            Move-Fed t lookup load n i lt s.local s.keys s.produced o.written s.app app (s.local i)
              l move refl o.fed;
        found = rw (Move-queued t lookup load s.app app (s.local i) l move) o.found;
        at_end = o.at_end;
        unwritten = o.unwritten;
        joined = λ h.
            absurd (gone-Move t lookup load s.app app (s.local i) l move ((o.joined h).1 i lt));
        others =
            λ j above. let other : (j == i) ≡ false = ground arith in rw other (o.others j above);
      }

  pub joined-Orderly :
      (s : Threaded D)
      → s.produced ≡ true
      → AllGone n s.local
      → Orderly s
      → (s.main ≡ Main.joining)
      → Orderly (record s { app = set_preserve_tombstone s.app; main = Main.flushing_actors })
  unfolding Preserve.set_tombstone
  joined-Orderly s ended gone o e = record {
    written = o.written;
    fed =
        same-Fed n (view s.app) (view (set_preserve_tombstone s.app)) s.keys s.produced s.local
          o.written refl refl refl o.fed;
    found = o.found;
    at_end = o.at_end;
    unwritten = inl (before s e refl o.unwritten);
    joined = λ h. (ended, gone);
    others = o.others;
  }

  -- A step of the main thread behind the joins, which leaves the view but for the map of blocks and the
  -- queue of preserved blocks.
  pub main-Orderly :
      (s : Threaded D) (app : App) (db : SqliteDb D) (main : Main)
      → has_joined s.main ≡ has_joined main
      → app.map_block_queue ≡ s.app.map_block_queue
      → app.stats ≡ s.app.stats
      → app.block_queue ≡ s.app.block_queue
      → ((written : ℕ) → Unwritten s.main s.db written → Unwritten main db written)
      → Orderly s
      → Orderly (record s { app = app; db = db; main = main })
  main-Orderly s app db main joined queue stats blocks unwritten o = record {
    written = o.written;
    fed =
        same-Fed n (view s.app) (view app) s.keys s.produced s.local o.written queue stats blocks
          o.fed;
    found = rw stats o.found;
    at_end = o.at_end;
    unwritten = unwritten o.written o.unwritten;
    joined = λ h. o.joined (joined ∙ h);
    others = o.others;
  }

  pub flushed_blocks-Orderly :
      (s : Threaded D) (app : App) (db : SqliteDb D)
      → s.main ≡ Main.flushing_blocks
      → IsWritten (view s.app) (view app)
      → Orderly s
      → Orderly (record s { app = app; db = db; main = Main.finished })
  flushed_blocks-Orderly s app db e w o =
      let (left, f) = o.fed in
      let before : o.written ≡ 0 = (before s e refl o.unwritten).0 in
      let none : length app.block_queue ≡ 0 = ap length w.empty in
      record {
        written = length s.app.block_queue;
        fed = (
          left,
          record {
            in_queue = ap (λ q. q ++ s.keys) w.queue ∙ f.in_queue;
            left_keys = f.left_keys;
            seen = f.seen;
            counted = rw (w.stats) f.counted;
            pushed = rw (w.stats) (omega (arith, f.pushed));
          },
        );
        found = rw (w.stats) o.found;
        at_end = o.at_end;
        unwritten = inr refl;
        joined = λ h. o.joined (ap has_joined e);
        others = o.others;
      }
