-- ===== src/App/Threaded/Views.antt =====
-- App::RunThreaded of src/app/app.cc: the parts of the App that its laws are about, and which of its steps
-- leave them as they are.
use minetest_map_analyzer.Prelude.{◌≡◌, refl, List, [], ◌∷◌}
use minetest_map_analyzer.Exceptions.{Result, ok, Ends}
use minetest_map_analyzer.Pos.{Pos}
use minetest_map_analyzer.Sqlite.{Sqlite, SqliteDb}
use minetest_map_analyzer.Sqlite.Bound.{IsReady}
use minetest_map_analyzer.App.BlockQueue.{Queue}
use minetest_map_analyzer.App.BlockData.{MapBlockHashMap}
use minetest_map_analyzer.App.Preserve.{PreserveQueue}
use minetest_map_analyzer.App.NodeScan.{DataWriterNode}
use minetest_map_analyzer.App.State.{App, RuntimeStats, enqueue_nodes}
use minetest_map_analyzer.App.Consumer.{enqueue_some}
use minetest_map_analyzer.App.DataWriter.{flush_actor_id_map, flush_node_id_map, flush_node_queue}
use minetest_map_analyzer.App.BlockWriter.{flush_block_queue}
use minetest_map_analyzer.App.BlockWriter.Ends.{Ends-flush_block_queue_holds}
use minetest_map_analyzer.App.DataWriter.Ends.{
  Holds, Ends-flush_actor_id_map, Ends-flush_node_id_map, Ends-flush_node_queue,
}

-- The App without the names and the nodes.
pub record View : Type 0 where
  pub queue : Queue
  pub stats : RuntimeStats
  pub block_queue : List Pos
  pub block_data : MapBlockHashMap
  pub preserve : PreserveQueue

abbrev pub view : App → View
view app = record {
  queue = app.map_block_queue;
  stats = app.stats;
  block_queue = app.block_queue;
  block_data = app.block_data;
  preserve = app.preserve_queue;
}

pub enqueue_some-view :
    (nodes : List DataWriterNode) (app : App) → view (enqueue_some nodes app) ≡ view app
unfolding enqueue_nodes
enqueue_some-view [] app = refl
enqueue_some-view (node ∷ nodes) app = refl

-- What FlushBlockQueue leaves of the view: all but the map and the queue of blocks, which is empty.
pub record IsWritten (v v' : View) : Type 0 where
  pub queue : v'.queue ≡ v.queue
  pub stats : v'.stats ≡ v.stats
  pub empty : v'.block_queue ≡ []
  pub preserve : v'.preserve ≡ v.preserve

-- A call that returned has returned what holds where it ends.
returned : {A : Type 0} {o : Result A} {a : A} (P : A → Type 0) → o ≡ ok a → Ends P o → P a
returned P e h = rw e at h

pub flush_block_queue-IsWritten :
    {D : Type 0} (sqlite : Sqlite D) (app : App) (db : SqliteDb D) (app' : App) (db' : SqliteDb D)
    → flush_block_queue sqlite app db ≡ ok (app', db')
    → IsWritten (view app) (view app')
flush_block_queue-IsWritten {D} sqlite app db app' db' e =
    returned {A = App × SqliteDb D} (λ r. IsWritten (view app) (view r.0)) e
      (Ends-flush_block_queue_holds sqlite (λ a. IsWritten (view app) (view a)) app db
        λ m. record { queue = refl; stats = refl; empty = refl; preserve = refl })

module _ {D : Type 0} (sqlite : Sqlite D) (app : App) (db : SqliteDb D) (app' : App)
    (db' : SqliteDb D) (ready : IsReady db) where
  abbrev Same : App → Type 0
  Same a = view a ≡ view app

  -- The flushes of the data writer leave the view, and the database ready.
  pub flush_actor_id_map-view :
      flush_actor_id_map sqlite app db ≡ ok (app', db') → (view app' ≡ view app) × IsReady db'
  flush_actor_id_map-view e =
      returned (Holds Same) e
        (Ends-flush_actor_id_map sqlite Same app db refl ready λ ids same. same)

  pub flush_node_id_map-view :
      flush_node_id_map sqlite app db ≡ ok (app', db') → (view app' ≡ view app) × IsReady db'
  flush_node_id_map-view e =
      returned (Holds Same) e
        (Ends-flush_node_id_map sqlite Same app db refl ready λ ids same. same)

  pub flush_node_queue-view :
      flush_node_queue sqlite app db ≡ ok (app', db') → (view app' ≡ view app) × IsReady db'
  flush_node_queue-view e =
      returned (Holds Same) e (Ends-flush_node_queue sqlite Same app db refl ready λ same. same)
