-- ===== src/App/DataWriter/Names.antt =====
-- src/app/data_writer.cc: the statements that FlushNodeIdMap executes.
use minetest_map_analyzer.Prelude.{ℕ, ◌≡◌, refl, ap, ◌∙◌, ◌⊎◌, inl, inr, List, [], ◌∷◌}
use minetest_map_analyzer.Prelude.Int.{signed64}
use minetest_map_analyzer.Exceptions.{Exception, Result, ok, throw, bind_result, Result-cases}
use minetest_map_analyzer.IdMap
use minetest_map_analyzer.IdMap.{IdMap, IdMapItem, DirtyList, dirty_loop, get_dirty}
use minetest_map_analyzer.Sqlite.{
  Sqlite, SqliteDb, Value, int, text, bool_value, write_node, write_row,
}
use minetest_map_analyzer.Sqlite.Bound.{IsReady}
use minetest_map_analyzer.Sqlite.Rows.{
  Row, values_of, beside, database_only, execute, Writes-execute, Writes, Writes-ok,
  Writes-bind_result, Writes-write_row,
}
use minetest_map_analyzer.App.NodeScan.{NodeIdMapExtraInfo}
use minetest_map_analyzer.App.State.{App}
use minetest_map_analyzer.App.DataWriter.{node_row, node_loop, write_names, flush_node_id_map}
use minetest_map_analyzer.App.DataWriter.Flushes.{unless_empty, Writes-transaction, flushed_lem}

-- The columns of the table `node` of src/app/schema/schema-data.sql.
pub data Column : Type 0 where
  node_id name special : Column

-- What each column is for.
abbrev pub column_value : ℕ → IdMapItem NodeIdMapExtraInfo → Column → Value
column_value id item node_id = int (signed64 id)
column_value id item name = text item.key
column_value id item special = bool_value item.extra.anthropocene

-- The columns in the order of the parameters of kSqlWriteNode.
abbrev pub insert_columns : List Column
insert_columns = node_id ∷ name ∷ special ∷ []

module _ (node_ids : IdMap NodeIdMapExtraInfo) where
  -- The number, the name and the flag of each item.
  abbrev pub name_rows : List ℕ → Result (List Row)
  name_rows [] = ok []
  name_rows (id ∷ ids) = bind_result (IdMap.get node_ids id) λ item.
      bind_result (name_rows ids)
        λ rows. ok ((write_node, values_of (column_value id item) insert_columns) ∷ rows)

  pub data IsNamed : DirtyList → List Row → Type 0 where
    none : IsNamed [] []
    next :
        {id : ℕ} {item : IdMapItem NodeIdMapExtraInfo} {pairs : DirtyList} {rows : List Row}
        → IdMap.get node_ids id ≡ ok item
        → IsNamed pairs rows
        → IsNamed
            ((id, item.key) ∷ pairs)
            ((write_node, values_of (column_value id item) insert_columns) ∷ rows)

  -- Taking the new numbers throws where the rows throw, and gives the names of the rows.
  pub dirty_loop-IsNamed :
      (ids : List ℕ)
      → ((pairs : DirtyList) × (rows : List Row) × (dirty_loop node_ids.by_id ids ≡ ok pairs)
          × (name_rows ids ≡ ok rows)
          × IsNamed pairs rows)
        ⊎ ((e : Exception) × (dirty_loop node_ids.by_id ids ≡ throw e) × (name_rows ids ≡ throw e))
  unfolding dirty_loop IdMap.get
  dirty_loop-IsNamed [] = inl ([], [], refl, refl, none)
  dirty_loop-IsNamed (id ∷ ids) = elim (Result-cases (IdMap.get node_ids id)) [
    | inr (x, e) ↦ inr (x, rw e refl, rw e refl)
    | inl (item, e) ↦ elim (dirty_loop-IsNamed ids) [
      | inr (x, e1, e2) ↦ inr (x, rw (e, e1) refl, rw (e, e2) refl)
      | inl (pairs, rows, e1, e2, n) ↦
          inl ((id, item.key) ∷ pairs, _, rw (e, e1) refl, rw (e, e2) refl, next e n)
    ]
  ]

  module _ {D : Type 0} (sqlite : Sqlite D) where
    Writes-node_loop :
        (pairs : DirtyList) (rows : List Row)
        → IsNamed pairs rows
        → Writes sqlite (node_loop sqlite node_ids pairs) rows
    unfolding node_loop
    Writes-node_loop [] rows IsNamed.none = Writes-ok sqlite
    Writes-node_loop (pair ∷ pairs) rows (IsNamed.next {id} {item} {rows = rest} e n) = λ db r.
        rw e (
          Writes-bind_result sqlite (write_row sqlite write_node (node_row id item.key item))
            (node_loop sqlite node_ids pairs) ((write_node, node_row id item.key item) ∷ []) rest
            (Writes-write_row sqlite write_node (node_row id item.key item) refl)
            (Writes-node_loop pairs rest n) db r)

    pub Writes-write_names :
        (pairs : DirtyList) (rows : List Row)
        → IsNamed pairs rows
        → Writes sqlite (write_names sqlite node_ids pairs) (unless_empty rows)
    unfolding write_names
    Writes-write_names [] rows IsNamed.none = Writes-ok sqlite
    Writes-write_names (pair ∷ pairs) rows (IsNamed.next {id} {item} {rows = rest} e n) =
        Writes-transaction sqlite (node_loop sqlite node_ids (pair ∷ pairs)) _
          (Writes-node_loop (pair ∷ pairs) _ (next e n))

-- The map behind the call that takes its new numbers.
abbrev pub taken : IdMap NodeIdMapExtraInfo → IdMap NodeIdMapExtraInfo
taken node_ids = record node_ids { dirty = [] }

-- On a database each of whose statements has nothing or all of its values bound, FlushNodeIdMap
-- empties the list of new numbers, and does to the database, or throws, what a transaction does that
-- inserts one row for each of them, in their order, each by a new statement. The columns of the row, in the
-- order of the insert statement, hold the number, the name of its item, and the flag of its item. It throws std::out_of_range for a number without an item, and executes nothing where there
-- are no new numbers.
pub flush_node_id_map-execute :
    {D : Type 0} (sqlite : Sqlite D) (app : App) (db : SqliteDb D)
    → IsReady db
    → bind_result (flush_node_id_map sqlite app db) (λ r. ok (database_only r))
      ≡ bind_result (name_rows (taken app.node_ids) app.node_ids.dirty) λ rows.
        bind_result
          (execute sqlite (unless_empty rows) db.database)
          λ d. ok (beside (record app { node_ids = taken app.node_ids }) d)
unfolding flush_node_id_map get_dirty
flush_node_id_map-execute sqlite app db r =
    elim (dirty_loop-IsNamed (taken app.node_ids) app.node_ids.dirty) [
      | inr (x, e1, e2) ↦ rw (e1, e2) refl
      | inl (pairs, rows, e1, e2, n) ↦
          rw (e1, e2)
            (flushed_lem sqlite (record app { node_ids = taken app.node_ids })
                (write_names sqlite (taken app.node_ids) pairs db)
              ∙ ap
                  (λ o.
                    bind_result o λ d. ok (beside (record app { node_ids = taken app.node_ids }) d))
                  (Writes-execute sqlite (write_names sqlite (taken app.node_ids) pairs)
                    (unless_empty rows) db
                    (Writes-write_names (taken app.node_ids) sqlite pairs rows n) r))
    ]
