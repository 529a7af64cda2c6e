-- ===== src/App/DataWriter/Ends.antt =====
-- src/app/data_writer.cc: how a flush ends, and what it leaves of the App.
use minetest_map_analyzer.Prelude.{ℕ, inl, inr, List, [], ◌∷◌, get_elem?}
use minetest_map_analyzer.Exceptions.{Ends, Any, Ends-bind_result, Ends-or_out_of_range}
use minetest_map_analyzer.IdMap.{IdMap, IdMapItem, dirty_loop, get_dirty}
use minetest_map_analyzer.Sqlite.{Sqlite, SqliteDb}
use minetest_map_analyzer.Sqlite.Bound.{IsReady}
use minetest_map_analyzer.Sqlite.Rows.{Writes-Ends}
use minetest_map_analyzer.App.NodeScan.{NodeIdMapExtraInfo, ActorIdMapExtraInfo}
use minetest_map_analyzer.App.State.{App}
use minetest_map_analyzer.App.DataWriter.{
  write_actors, write_names, write_queue, flush_actor_id_map, flush_node_id_map, flush_node_queue,
}
use minetest_map_analyzer.App.DataWriter.Flushes.{Writes-write_actors, Writes-write_queue}
use minetest_map_analyzer.App.DataWriter.Names.{taken, dirty_loop-IsNamed, Writes-write_names}

Ends-dirty_loop :
    {E : Type 0} (items : List (IdMapItem E)) (ids : List ℕ) → Ends Any (dirty_loop items ids)
unfolding dirty_loop
Ends-dirty_loop items [] = tt
Ends-dirty_loop items (id ∷ ids) =
    Ends-bind_result Any Any _ _ (Ends-or_out_of_range (get_elem? items id)) λ item u.
      Ends-bind_result Any Any (dirty_loop items ids) _ (Ends-dirty_loop items ids) λ more v. tt

-- The App satisfies `P`, and the database is ready.
abbrev pub Holds : {D : Type 0} → (App → Type 0) → App × SqliteDb D → Type 0
Holds P (app, db) = P app × IsReady db

module _ {D : Type 0} (sqlite : Sqlite D) (P : App → Type 0) (app : App) (db : SqliteDb D)
    (h : P app) (ready : IsReady db) where
  pub Ends-flush_actor_id_map :
      ((ids : IdMap ActorIdMapExtraInfo) → P app → P (record app { actor_ids = ids }))
      → Ends (Holds P) (flush_actor_id_map sqlite app db)
  unfolding flush_actor_id_map get_dirty
  Ends-flush_actor_id_map keep =
      Ends-bind_result Any (Holds P) (get_dirty app.actor_ids) _
        (Ends-bind_result Any Any (dirty_loop app.actor_ids.by_id app.actor_ids.dirty) _
          (Ends-dirty_loop app.actor_ids.by_id app.actor_ids.dirty) λ pairs u. tt)
        λ dirty u.
          Ends-bind_result IsReady (Holds P) (write_actors sqlite dirty.0 db) _
            (Writes-Ends sqlite _ _ db (Writes-write_actors sqlite dirty.0) ready)
            λ db' ready'. (keep dirty.1 h, ready')

  pub Ends-flush_node_id_map :
      ((ids : IdMap NodeIdMapExtraInfo) → P app → P (record app { node_ids = ids }))
      → Ends (Holds P) (flush_node_id_map sqlite app db)
  unfolding flush_node_id_map get_dirty
  Ends-flush_node_id_map keep =
      let node_ids = taken app.node_ids in
      let looped = Ends-dirty_loop app.node_ids.by_id app.node_ids.dirty in
      elim (dirty_loop-IsNamed node_ids app.node_ids.dirty) [
        | inr (x, e1, e2) ↦ rw e1 (rw e1 at looped)
        | inl (pairs, rows, e1, e2, n) ↦ rw e1 (
            Ends-bind_result IsReady (Holds P) (write_names sqlite node_ids pairs db) _
              (Writes-Ends sqlite _ _ db (Writes-write_names node_ids sqlite pairs rows n) ready)
              λ db' ready'. (keep node_ids h, ready'))
      ]

  pub Ends-flush_node_queue :
      (P app → P (record app { node_queue = [] })) → Ends (Holds P) (flush_node_queue sqlite app db)
  unfolding flush_node_queue
  Ends-flush_node_queue keep =
      Ends-bind_result IsReady (Holds P) (write_queue sqlite app.node_queue db) _
        (Writes-Ends sqlite _ _ db (Writes-write_queue sqlite app.node_queue) ready)
        λ db' ready'. (keep h, ready')
