-- ===== src/App/DataWriter/Flushes.antt =====
-- src/app/data_writer.cc and mapblock_writer.cc: the statements that a flush executes.
use minetest_map_analyzer.Prelude.{ℕ, ◌≡◌, refl, ap, ◌∙◌, inl, inr, List, [], ◌∷◌, ◌++◌}
use minetest_map_analyzer.Exceptions.{Result, ok, throw, bind_result, Result-cases}
use minetest_map_analyzer.Pos.{node_pos_id}
use minetest_map_analyzer.Inventory.{Inventory, InventoryList}
use minetest_map_analyzer.IdMap.{DirtyList, get_dirty}
use minetest_map_analyzer.Sqlite.Bound.{IsReady}
use minetest_map_analyzer.App.State.{App}
use minetest_map_analyzer.Sqlite.{
  Sqlite, SqliteDb, begin, commit, write_actor, write_nodes, write_inventory, write_row,
  begin_transaction, commit_transaction,
}
use minetest_map_analyzer.Sqlite.Rows.{
  Row, values_of, beside, database_only, execute, Writes-execute, Writes, Writes-ok,
  Writes-bind_result, Writes-write_row, Writes-begin_transaction, Writes-commit_transaction,
}
use minetest_map_analyzer.App.NodeScan.{DataWriterNode}
use minetest_map_analyzer.App.DataWriter.Columns.{
  nodes_value, nodes_columns, inventory_value, inventory_columns,
}
use minetest_map_analyzer.App.DataWriter.{
  actor_row, nodes_row, inventory_row, actor_loop, write_actors, item_loop, list_loop,
  node_queue_loop, write_queue, flush_node_queue, flush_actor_id_map,
}

-- The rows of a table, in a transaction; without rows there is none.
abbrev pub transaction : List Row → List Row
transaction rows = (begin, []) ∷ rows ++ (commit, []) ∷ []

abbrev pub unless_empty : List Row → List Row
unless_empty [] = []
unless_empty (row ∷ rows) = transaction (row ∷ rows)

-- The actors, each with its number and name.
abbrev pub actor_rows : DirtyList → List Row
actor_rows [] = []
actor_rows ((id, name) ∷ rest) = (write_actor, actor_row id name) ∷ actor_rows rest

-- The items of a list that have text.
abbrev pub item_rows : ℕ → List ℕ → InventoryList → List Row
item_rows pos_id list_name [] = []
item_rows pos_id list_name ([] ∷ items) = item_rows pos_id list_name items
item_rows pos_id list_name ((c ∷ item) ∷ items) =
    (write_inventory, values_of (inventory_value pos_id list_name (c ∷ item)) inventory_columns)
    ∷ item_rows pos_id list_name items

abbrev pub inventory_rows : ℕ → Inventory → List Row
inventory_rows pos_id [] = []
inventory_rows pos_id ((list_name, items) ∷ lists) =
    item_rows pos_id list_name items ++ inventory_rows pos_id lists

-- Each node, followed by the items of its inventory.
abbrev pub queue_rows : List DataWriterNode → List Row
queue_rows [] = []
queue_rows (node ∷ queue) =
    (write_nodes, values_of (nodes_value node) nodes_columns)
    ∷ (inventory_rows (node_pos_id node.pos) node.inventory ++ queue_rows queue)

module _ {D : Type 0} (sqlite : Sqlite D) where
  pub Writes-transaction :
      (f : SqliteDb D → Result (SqliteDb D)) (rows : List Row)
      → Writes sqlite f rows
      → Writes sqlite
          (λ db.
            bind_result
              (begin_transaction sqlite db)
              λ begun. bind_result (f begun) λ written. commit_transaction sqlite written)
          (transaction rows)
  Writes-transaction f rows h =
      Writes-bind_result sqlite (begin_transaction sqlite) _ ((begin, []) ∷ []) _
        (Writes-begin_transaction sqlite)
        (Writes-bind_result sqlite f (commit_transaction sqlite) rows ((commit, []) ∷ []) h
          (Writes-commit_transaction sqlite))

  Writes-actor_loop :
      (dirty : DirtyList) → Writes sqlite (actor_loop sqlite dirty) (actor_rows dirty)
  unfolding actor_loop
  Writes-actor_loop [] = Writes-ok sqlite
  Writes-actor_loop ((id, name) ∷ rest) =
      Writes-bind_result sqlite (write_row sqlite write_actor (actor_row id name))
        (actor_loop sqlite rest) ((write_actor, actor_row id name) ∷ []) (actor_rows rest)
        (Writes-write_row sqlite write_actor (actor_row id name) refl) (Writes-actor_loop rest)

  -- `write_actors` executes one statement for each actor, in their order, inside a transaction, each as
  -- if its statement were new; without actors it executes nothing.
  pub Writes-write_actors :
      (dirty : DirtyList)
      → Writes sqlite (write_actors sqlite dirty) (unless_empty (actor_rows dirty))
  unfolding write_actors
  Writes-write_actors [] = Writes-ok sqlite
  Writes-write_actors (pair ∷ dirty) = Writes-transaction _ _ (Writes-actor_loop (pair ∷ dirty))

  Writes-item_loop :
      (pos_id : ℕ) (list_name : List ℕ) (items : InventoryList)
      → Writes sqlite (item_loop sqlite pos_id list_name items) (item_rows pos_id list_name items)
  unfolding item_loop
  Writes-item_loop pos_id list_name [] = Writes-ok sqlite
  Writes-item_loop pos_id list_name ([] ∷ items) = Writes-item_loop pos_id list_name items
  Writes-item_loop pos_id list_name ((c ∷ item) ∷ items) =
      let row = inventory_row pos_id list_name (c ∷ item) in
      Writes-bind_result sqlite (write_row sqlite write_inventory row)
        (item_loop sqlite pos_id list_name items) ((write_inventory, row) ∷ []) _
        (Writes-write_row sqlite write_inventory row refl) (Writes-item_loop pos_id list_name items)

  Writes-list_loop :
      (pos_id : ℕ) (lists : Inventory)
      → Writes sqlite (list_loop sqlite pos_id lists) (inventory_rows pos_id lists)
  unfolding list_loop
  Writes-list_loop pos_id [] = Writes-ok sqlite
  Writes-list_loop pos_id ((list_name, items) ∷ lists) =
      Writes-bind_result sqlite (item_loop sqlite pos_id list_name items)
        (list_loop sqlite pos_id lists) (item_rows pos_id list_name items) _
        (Writes-item_loop pos_id list_name items) (Writes-list_loop pos_id lists)

  Writes-node_queue_loop :
      (queue : List DataWriterNode)
      → Writes sqlite (node_queue_loop sqlite queue) (queue_rows queue)
  unfolding node_queue_loop
  Writes-node_queue_loop [] = Writes-ok sqlite
  Writes-node_queue_loop (node ∷ queue) =
      let pos_id = node_pos_id node.pos in
      Writes-bind_result sqlite (write_row sqlite write_nodes (nodes_row node)) _
        ((write_nodes, nodes_row node) ∷ []) _
        (Writes-write_row sqlite write_nodes (nodes_row node) refl)
        (Writes-bind_result sqlite (list_loop sqlite pos_id node.inventory)
          (node_queue_loop sqlite queue) (inventory_rows pos_id node.inventory) (queue_rows queue)
          (Writes-list_loop pos_id node.inventory) (Writes-node_queue_loop queue))

  pub Writes-write_queue :
      (queue : List DataWriterNode)
      → Writes sqlite (write_queue sqlite queue) (unless_empty (queue_rows queue))
  unfolding write_queue
  Writes-write_queue [] = Writes-ok sqlite
  Writes-write_queue (node ∷ queue) = Writes-transaction _ _ (Writes-node_queue_loop (node ∷ queue))

  pub flushed_lem {ℓ} :
      {A : Type ℓ} (a : A) (o : Result (SqliteDb D))
      → bind_result (bind_result o λ db. ok (beside a db)) (λ r. ok (database_only r))
        ≡ bind_result (bind_result o λ db. ok db.database) (λ d. ok (beside a d))
  flushed_lem a (ok db) = refl
  flushed_lem a (throw e) = refl

  -- On a database each of whose statements has nothing or all of its values bound, FlushNodeQueue
  -- empties its queue, and does to the database, or throws, what a transaction does that inserts one row for
  -- each node of the queue, in its order, followed by one for each item of its inventory that has text, each by
  -- a new statement. The columns of a row, in the order of the insert statement, hold the key, the
  -- coordinates, the owner, the number and the notes of the node, or the key of the node, the name of the
  -- list and the text of the item. Nothing is executed for an empty queue.
  pub flush_node_queue-execute :
      (app : App) (db : SqliteDb D)
      → IsReady db
      → bind_result (flush_node_queue sqlite app db) (λ r. ok (database_only r))
        ≡ bind_result
            (execute sqlite (unless_empty (queue_rows app.node_queue)) db.database)
            (λ d. ok (beside (record app { node_queue = [] }) d))
  unfolding flush_node_queue
  flush_node_queue-execute app db r =
      flushed_lem (record app { node_queue = [] }) (write_queue sqlite app.node_queue db)
      ∙ ap (λ o. bind_result o (λ d. ok (beside (record app { node_queue = [] }) d)))
          (Writes-execute sqlite (write_queue sqlite app.node_queue)
            (unless_empty (queue_rows app.node_queue)) db (Writes-write_queue app.node_queue) r)

  -- On such a database, FlushActorIdMap empties the list of new numbers, and does to the database, or
  -- throws, what a transaction does that inserts one row for each of them, in their order, each by a new
  -- statement. Nothing is executed where there are none.
  flush_actor_id_map-execute :
      (app : App) (db : SqliteDb D)
      → IsReady db
      → bind_result (flush_actor_id_map sqlite app db) (λ r. ok (database_only r))
        ≡ bind_result (get_dirty app.actor_ids) λ dirty.
          bind_result
            (execute sqlite (unless_empty (actor_rows dirty.0)) db.database)
            λ d. ok (beside (record app { actor_ids = dirty.1 }) d)
  unfolding flush_actor_id_map
  flush_actor_id_map-execute app db r = elim (Result-cases (get_dirty app.actor_ids)) [
    | inr (x, e) ↦ rw e refl
    | inl ((dirty, actor_ids), e) ↦ rw e (
        flushed_lem (record app { actor_ids = actor_ids }) (write_actors sqlite dirty db)
        ∙ ap (λ o. bind_result o (λ d. ok (beside (record app { actor_ids = actor_ids }) d)))
            (Writes-execute sqlite (write_actors sqlite dirty) (unless_empty (actor_rows dirty)) db
              (Writes-write_actors dirty) r))
  ]
