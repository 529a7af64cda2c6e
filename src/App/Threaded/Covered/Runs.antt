-- ===== src/App/Threaded/Covered/Runs.antt =====
-- App::RunThreaded of src/app/app.cc: every run keeps the packets in order and the marked positions covered.
use minetest_map_analyzer.Prelude.{ℕ, refl, ap, Option, List, Bool-cases, inl, inr}
use minetest_map_analyzer.Prelude.Int.{pos, ◌≤ℤ◌}
use minetest_map_analyzer.Exceptions.{Result}
use minetest_map_analyzer.Pos.{Pos}
use minetest_map_analyzer.Sqlite.{Sqlite}
use minetest_map_analyzer.App.NodeScan.{NodeIdMapExtraInfo}
use minetest_map_analyzer.App.Config.{Config}
use minetest_map_analyzer.App.Threaded.{Threaded, Main, Step, Reach}
use minetest_map_analyzer.App.Threaded.Views.{
  flush_actor_id_map-view, flush_node_id_map-view, flush_node_queue-view,
  flush_block_queue-IsWritten,
}
use minetest_map_analyzer.App.Threaded.Steps.{has_joined}
use minetest_map_analyzer.App.Threaded.Steps.{gone-Move}
use minetest_map_analyzer.App.Threaded.Steps.Kept.{Orderly, before}
use minetest_map_analyzer.App.Threaded.Steps.Runs.{Step-Orderly}
use minetest_map_analyzer.App.Threaded.Covered.Kept.{
  IsSafe, consume-Safe, take_packet-Safe, merge_packet-Safe, end_merge-Safe, joined-Safe,
  joined_merger-Safe, main-Safe, same_view,
}

module _ {D : Type 0} (sqlite : Sqlite D) (config : Config) (lookup : List ℕ → NodeIdMapExtraInfo)
    (load : Pos → Result (Option (List ℕ))) (n all : ℕ)
    (hr : config.preserve_radius ≤ℤ pos 30000) where
  Step-Safe :
      (s t : Threaded D)
      → Step sqlite config lookup load n s t
      → Orderly sqlite config lookup load n all s
      → IsSafe config.preserve_radius s
      → IsSafe config.preserve_radius t
  Step-Safe s t (Step.row id rest e) o h =
      same_view sqlite config lookup load n all hr s t refl refl refl refl refl h
  Step-Safe s t (Step.last_batch key keys e k) o h =
      same_view sqlite config lookup load n all hr s t refl refl refl refl refl h
  Step-Safe s t (Step.end_keys e k more) o h =
      same_view sqlite config lookup load n all hr s t refl refl refl refl refl h
  Step-Safe s t (Step.consume i app l lt move) o h = elim (Bool-cases (has_joined s.main)) [
    | inr running ↦ consume-Safe sqlite config lookup load n all hr s i app l running move h
    | inl joined ↦ absurd (
        gone-Move config.anthropocene_flush_threshold lookup load s.app app (s.local i) l move
          ((o.joined joined).1 i lt))
  ]
  Step-Safe s t (Step.take_packet p positions packets e q) o h =
      take_packet-Safe sqlite config lookup load n all hr s p positions packets e q h
  Step-Safe s t (Step.merge_packet packet e) o h =
      merge_packet-Safe sqlite config lookup load n all hr s packet e h
  Step-Safe s t (Step.end_merge packets e q) o h =
      end_merge-Safe sqlite config lookup load n all hr s packets e q h
  Step-Safe s t (Step.watched e w) o h =
      main-Safe sqlite config lookup load n all hr s s.app s.db Main.watching Main.joining e refl
        (λ f. cc) refl (λ f. (refl, refl)) h
  Step-Safe s t (Step.joined e ended gone) o h =
      joined-Safe sqlite config lookup load n all hr s e h
  Step-Safe s t (Step.flushed_actors app db e f) o h =
      let ready = (before sqlite config lookup load n all s e refl o.unwritten).1 in
      let v = (flush_actor_id_map-view sqlite s.app s.db app db ready f).0 in
      main-Safe sqlite config lookup load n all hr s app db Main.flushing_actors Main.flushing_nodes
        e refl (λ g. cc) (ap (λ w. w.preserve) v) (λ g. (refl, ap (λ w. w.block_data) v)) h
  Step-Safe s t (Step.flushed_nodes app db e f) o h =
      let ready = (before sqlite config lookup load n all s e refl o.unwritten).1 in
      let v = (flush_node_id_map-view sqlite s.app s.db app db ready f).0 in
      main-Safe sqlite config lookup load n all hr s app db Main.flushing_nodes Main.flushing_queue
        e refl (λ g. cc) (ap (λ w. w.preserve) v) (λ g. (refl, ap (λ w. w.block_data) v)) h
  Step-Safe s t (Step.flushed_queue app db e f) o h =
      let ready = (before sqlite config lookup load n all s e refl o.unwritten).1 in
      let v = (flush_node_queue-view sqlite s.app s.db app db ready f).0 in
      main-Safe sqlite config lookup load n all hr s app db Main.flushing_queue Main.joining_merger
        e refl (λ g. cc) (ap (λ w. w.preserve) v) (λ g. (refl, ap (λ w. w.block_data) v)) h
  Step-Safe s t (Step.joined_merger e m) o h =
      joined_merger-Safe sqlite config lookup load n all hr s e m h
  Step-Safe s t (Step.flushed_blocks app db e f) o h =
      main-Safe sqlite config lookup load n all hr s app db Main.flushing_blocks Main.finished e
        refl (λ g. refl) (flush_block_queue-IsWritten sqlite s.app s.db app db f).preserve (λ g. cc)
        h

  pub Reach-Safe :
      (first s : Threaded D)
      → Reach sqlite config lookup load n first s
      → Orderly sqlite config lookup load n all first
      → IsSafe config.preserve_radius first
      → Orderly sqlite config lookup load n all s × IsSafe config.preserve_radius s
  Reach-Safe first s Reach.here o h = (o, h)
  Reach-Safe first t (Reach.later {s} run step) o h =
      let (o', h') = Reach-Safe first s run o h in
      (Step-Orderly sqlite config lookup load n all s t step o', Step-Safe s t step o' h')
