-- ===== src/App/Threaded/Steps/Runs.antt =====
-- App::RunThreaded of src/app/app.cc: every run keeps the producer, the consumers and the counters in order.
use minetest_map_analyzer.Prelude.{ℕ, refl, ap, Option, List, inl}
use minetest_map_analyzer.Exceptions.{Result}
use minetest_map_analyzer.Pos.{Pos}
use minetest_map_analyzer.Sqlite.{Sqlite}
use minetest_map_analyzer.App.NodeScan.{NodeIdMapExtraInfo}
use minetest_map_analyzer.App.Config.{Config}
use minetest_map_analyzer.App.Preserve.{surrender_final_set}
use minetest_map_analyzer.App.Run.{apply_preserve_flags}
use minetest_map_analyzer.App.Threaded.{Threaded, Main, Step}
use minetest_map_analyzer.App.Threaded.Views.{
  flush_actor_id_map-view, flush_node_id_map-view, flush_node_queue-view,
  flush_block_queue-IsWritten,
}
use minetest_map_analyzer.App.Threaded.Steps.{has_joined}
use minetest_map_analyzer.App.Threaded.Steps.Kept.{
  Orderly, before, beside, row-Orderly, last_batch-Orderly, end_keys-Orderly, consume-Orderly,
  joined-Orderly, main-Orderly, flushed_blocks-Orderly,
}

module _ {D : Type 0} (sqlite : Sqlite D) (config : Config) (lookup : List ℕ → NodeIdMapExtraInfo)
    (load : Pos → Result (Option (List ℕ))) (n all : ℕ) where
  pub Step-Orderly :
      (s t : Threaded D)
      → Step sqlite config lookup load n s t
      → Orderly sqlite config lookup load n all s
      → Orderly sqlite config lookup load n all t
  unfolding apply_preserve_flags surrender_final_set
  Step-Orderly s t (Step.row id rest e) o =
      row-Orderly sqlite config lookup load n all s id rest e o
  Step-Orderly s t (Step.last_batch key keys e k) o =
      last_batch-Orderly sqlite config lookup load n all s key keys e k o
  Step-Orderly s t (Step.end_keys e k more) o =
      end_keys-Orderly sqlite config lookup load n all s e k more o
  Step-Orderly s t (Step.consume i app l lt move) o =
      consume-Orderly sqlite config lookup load n all s i app l lt move o
  Step-Orderly s t (Step.take_packet p positions packets e q) o =
      beside sqlite config lookup load n all s t.app t.merger refl refl refl o
  Step-Orderly s t (Step.merge_packet packet e) o =
      beside sqlite config lookup load n all s t.app t.merger refl refl refl o
  Step-Orderly s t (Step.end_merge packets e q) o =
      beside sqlite config lookup load n all s t.app t.merger refl refl refl o
  Step-Orderly s t (Step.watched e w) o =
      main-Orderly sqlite config lookup load n all s s.app s.db Main.joining (ap has_joined e) refl
        refl refl (λ written u. inl (before sqlite config lookup load n all s e refl u)) o
  Step-Orderly s t (Step.joined e ended gone) o =
      joined-Orderly sqlite config lookup load n all s ended gone o e
  Step-Orderly s t (Step.flushed_actors app db e f) o =
      let (v, ready) =
        flush_actor_id_map-view sqlite s.app s.db app db
          (before sqlite config lookup load n all s e refl o.unwritten).1 f in
      main-Orderly sqlite config lookup load n all s app db Main.flushing_nodes (ap has_joined e)
        (ap (λ w. w.queue) v) (ap (λ w. w.stats) v) (ap (λ w. w.block_queue) v)
        (λ written u. inl ((before sqlite config lookup load n all s e refl u).0, ready)) o
  Step-Orderly s t (Step.flushed_nodes app db e f) o =
      let (v, ready) =
        flush_node_id_map-view sqlite s.app s.db app db
          (before sqlite config lookup load n all s e refl o.unwritten).1 f in
      main-Orderly sqlite config lookup load n all s app db Main.flushing_queue (ap has_joined e)
        (ap (λ w. w.queue) v) (ap (λ w. w.stats) v) (ap (λ w. w.block_queue) v)
        (λ written u. inl ((before sqlite config lookup load n all s e refl u).0, ready)) o
  Step-Orderly s t (Step.flushed_queue app db e f) o =
      let (v, ready) =
        flush_node_queue-view sqlite s.app s.db app db
          (before sqlite config lookup load n all s e refl o.unwritten).1 f in
      main-Orderly sqlite config lookup load n all s app db Main.joining_merger (ap has_joined e)
        (ap (λ w. w.queue) v) (ap (λ w. w.stats) v) (ap (λ w. w.block_queue) v)
        (λ written u. inl ((before sqlite config lookup load n all s e refl u).0, ready)) o
  Step-Orderly s t (Step.joined_merger e m) o =
      main-Orderly sqlite config lookup load n all s (apply_preserve_flags s.app) s.db
        Main.flushing_blocks (ap has_joined e) refl refl refl
        (λ written u. inl (before sqlite config lookup load n all s e refl u)) o
  Step-Orderly s t (Step.flushed_blocks app db e f) o =
      flushed_blocks-Orderly sqlite config lookup load n all s app db e
        (flush_block_queue-IsWritten sqlite s.app s.db app db f) o
