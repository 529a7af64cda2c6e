-- ===== src/Sqlite/Opened/Schema.antt =====
-- The opening of the output file: its tables, and what is bound.
use minetest_map_analyzer.Prelude.{
  ℕ, ◌≡◌, refl, ap, sym, ◌∙◌, subst, Bool, true, false, List, [], ◌∷◌, ◌==◌, ◌||◌, Bool-cases, inl,
  inr, if◌then◌else◌, arith, suc, ltb, ◌++◌, ◌⊎◌,
}
use minetest_map_analyzer.Prelude.Int.{pos, ltb_ℤ}
use minetest_map_analyzer.Exceptions.{
  Exception, ok, throw, bind_result, bind_result-ok, ok-injective,
}
use minetest_map_analyzer.Sqlite.{
  Sqlite, SqliteDb, Statement, Bindings, begin, commit, rollback, step, step_result, step_and_reset,
  begin_transaction, commit_transaction,
}
use minetest_map_analyzer.Sqlite.Bound.{IsReady}
use minetest_map_analyzer.Sqlite.Opened.{
  Library, prepare, prepare_all, opened_db, open_db, executed, exec_schema, create_schema,
  check_schema, verify_schema, connect,
}

-- The tables of src/app/schema/schema-data.sql.
pub data Table : Type 0 where
  actor node nodes inventory blocks : Table

abbrev pub schema_tables : List Table
schema_tables = actor ∷ node ∷ nodes ∷ inventory ∷ blocks ∷ []

-- What the query of VerifySchema counts.
abbrev pub actor_count : List Table → ℕ
actor_count [] = 0
actor_count (actor ∷ tables) = suc (actor_count tables)
actor_count (node ∷ tables) = actor_count tables
actor_count (nodes ∷ tables) = actor_count tables
actor_count (inventory ∷ tables) = actor_count tables
actor_count (blocks ∷ tables) = actor_count tables

-- The tables behind VerifySchema.
abbrev pub with_schema : List Table → List Table
with_schema tables = if ltb 0 (actor_count tables) then tables else tables ++ schema_tables

some_counted : (n : ℕ) → ltb_ℤ (pos 0) (pos n) ≡ ltb 0 n
some_counted n = ground arith

-- The result codes SQLITE_OK, SQLITE_ROW and SQLITE_DONE, which report no error.
abbrev IsAccepted : ℕ → Type 0
IsAccepted rc = (rc ≡ 0) ⊎ ((rc ≡ 100) ⊎ (rc ≡ 101))

-- Of a database, `tables` lists the tables that the connection sees.
module _ {D : Type 0} (sqlite : Sqlite D) (library : Library D) (tables : D → List Table) where
  -- sqlite3: `select count(1)`, whose step reports no error, gives the number of the tables that it counts; the
  -- opening of a file, and the statements that begin and end a transaction, leave the tables as they are; the
  -- script of the schema adds its five tables, where sqlite3_exec returns SQLITE_OK.
  pub record IsDocumented : Type 0 where
    pub counted :
        (d : D)
        → IsAccepted (library.check_stepped d)
        → library.check_column d ≡ pos (actor_count (tables d))
    pub opened :
        (filename : List ℕ) (d : D)
        → (library.opened filename d).0 ≡ 0
        → tables (library.opened filename d).1 ≡ tables d
    pub begun :
        (bindings : Bindings) (d : D)
        → IsAccepted (sqlite.step begin bindings d).0
        → tables (sqlite.step begin bindings d).1 ≡ tables d
    pub committed :
        (bindings : Bindings) (d : D)
        → IsAccepted (sqlite.step commit bindings d).0
        → tables (sqlite.step commit bindings d).1 ≡ tables d
    pub created :
        (d : D)
        → (library.schema_executed d).0 ≡ 0
        → tables (library.schema_executed d).1 ≡ tables d ++ schema_tables

  thrown : {A : Type 0} {e : Exception} {a : A} → throw e ≡ ok a → ⊥
  thrown e = cc

  prepare_all-same :
      (statements : List Statement) (db db' : SqliteDb D)
      → prepare_all sqlite library statements db ≡ ok db'
      → db ≡ db'
  unfolding prepare_all prepare
  prepare_all-same [] db db' h = ok-injective h
  prepare_all-same (stmt ∷ statements) db db' h =
      elim (Bool-cases (library.prepared stmt db.database == 0)) [
        | inl e ↦ prepare_all-same statements db db' (rw e at h)
        | inr e ↦ absurd (thrown (rw e at h))
      ]

  -- A database that has just been opened.
  open_db-new :
      (filename : List ℕ) (d : D) (db : SqliteDb D)
      → open_db sqlite library filename d ≡ ok db
      → ((library.opened filename d).0 ≡ 0)
        × (record { database = (library.opened filename d).1; bound = λ stmt. [] } ≡ db)
  unfolding open_db opened_db
  open_db-new filename d db h = elim (Bool-cases ((library.opened filename d).0 == 0)) [
    | inl e ↦ (ground arith, prepare_all-same (begin ∷ commit ∷ rollback ∷ []) _ db (rw e at h))
    | inr e ↦ absurd (thrown (rw e at h))
  ]

  step_result-same :
      (rc : ℕ) (db : SqliteDb D) (r : Bool × SqliteDb D)
      → step_result sqlite rc db ≡ ok r
      → IsAccepted rc × (r.1 ≡ db)
  unfolding step_result
  step_result-same rc db r h = elim (Bool-cases (rc == 0 || rc == 100)) [
    | inl e ↦ (ground arith, sym (ap (λ x. x.1) (ok-injective {a = (true, db)} (rw e at h))))
    | inr e ↦
        let h' = rw e at h in
        elim (Bool-cases (rc == 101)) [
          | inl e' ↦
              (ground arith, sym (ap (λ x. x.1) (ok-injective {a = (false, db)} (rw e' at h'))))
          | inr e' ↦ absurd (thrown {A = Bool × SqliteDb D} (rw e' at h'))
        ]
  ]

  executed-created :
      (r : ℕ) (database : D) (db db' : SqliteDb D)
      → executed sqlite library r database db ≡ ok db'
      → (r ≡ 0) × (db'.database ≡ database)
  unfolding executed
  executed-created r database db db' h = elim (Bool-cases (r == 0)) [
    | inl e ↦ (ground arith, sym (ap (λ x. x.database) (ok-injective (rw e at h))))
    | inr e ↦ absurd (thrown (rw e at h))
  ]

  -- The step of a statement, and its reset.
  step_and_reset-same :
      (stmt : Statement) (db db' : SqliteDb D)
      → step_and_reset sqlite stmt db ≡ ok db'
      → IsAccepted (sqlite.step stmt (db.bound stmt) db.database).0
        × (db'.database ≡ (sqlite.step stmt (db.bound stmt) db.database).1)
  unfolding step_and_reset step
  step_and_reset-same stmt db db' h =
      let database = (sqlite.step stmt (db.bound stmt) db.database).1 in
      let (stepped, e, f) = bind_result-ok (step sqlite stmt db) (λ stepped. ok stepped.1) h in
      let (accepted, same) = step_result-same _ (record db { database = database }) stepped e in
      (accepted, ap (λ x. x.database) (sym (ok-injective f)) ∙ ap (λ x. x.database) same)

  module _ (documented : IsDocumented) where
    create_schema-tables :
        (db db' : SqliteDb D)
        → create_schema sqlite library db ≡ ok db'
        → tables db'.database ≡ tables db.database ++ schema_tables
    unfolding create_schema exec_schema begin_transaction commit_transaction
    create_schema-tables db db' h =
        let (started, e, h1) =
          bind_result-ok (begin_transaction sqlite db)
            (λ started.
              bind_result (exec_schema sqlite library started)
                λ created. commit_transaction sqlite created)
            h in
        let (created, f, h2) =
          bind_result-ok (exec_schema sqlite library started)
            (λ created. commit_transaction sqlite created) h1 in
        let (accepted, first) = step_and_reset-same begin db started e in
        let (zero_code, script) =
          executed-created (library.schema_executed started.database).0
            (library.schema_executed started.database).1 started created f in
        let (accepted', last) = step_and_reset-same commit created db' h2 in
        ap tables last
        ∙ documented.committed (created.bound commit) created.database accepted'
        ∙ ap tables script
        ∙ documented.created started.database zero_code
        ∙ ap (λ d. tables d ++ schema_tables) first
        ∙ ap (λ l. l ++ schema_tables) (documented.begun (db.bound begin) db.database accepted)

    check_schema-tables :
        (db db' : SqliteDb D)
        → check_schema sqlite library db ≡ ok db'
        → tables db'.database ≡ with_schema (tables db.database)
    unfolding check_schema
    check_schema-tables db db' h = elim (Bool-cases (library.check_prepared db.database == 0)) [
      | inr e ↦ absurd (thrown (rw e at h))
      | inl e ↦
          let (stepped, f, h1) =
            bind_result-ok (step_result sqlite (library.check_stepped db.database) db)
              (λ stepped.
                if ltb_ℤ (pos 0) (library.check_column db.database)
                then ok db
                else create_schema sqlite library db)
              (rw e at h) in
          let accepted = (step_result-same _ db stepped f).0 in
          let counted =
            ap (ltb_ℤ (pos 0)) (documented.counted db.database accepted)
            ∙ some_counted (actor_count (tables db.database)) in
          elim (Bool-cases (ltb 0 (actor_count (tables db.database)))) [
            | inl c ↦
                rw c (ap (λ x. tables x.database) (sym (ok-injective (rw (counted, c) at h1))))
            | inr c ↦ rw c (create_schema-tables db db' (rw (counted, c) at h1))
          ]
    ]

    verify_schema-tables :
        (filename : List ℕ) (d d' : D)
        → verify_schema sqlite library filename d ≡ ok d'
        → tables d' ≡ with_schema (tables d)
    unfolding verify_schema
    verify_schema-tables filename d d' h =
        let (db, e, h1) =
          bind_result-ok (open_db sqlite library filename d)
            (λ db. bind_result (check_schema sqlite library db) λ checked. ok checked.database) h in
        let (checked, f, h2) =
          bind_result-ok (check_schema sqlite library db) (λ checked. ok checked.database) h1 in
        let (zero_code, same) = open_db-new filename d db e in
        ap tables (sym (ok-injective h2))
        ∙ check_schema-tables db checked f
        ∙ ap (λ x. with_schema (tables x.database)) (sym same)
        ∙ ap with_schema (documented.opened filename d zero_code)

    -- Where VerifySchema, the opening of the connection and the preparation of its statements return, the
    -- connection sees the tables of the file where one of them is named `actor`, and otherwise those and the five
    -- tables of the schema, and no value is bound to a statement. The calls of sqlite3 are those that
    -- IsDocumented describes.
    pub connect-with_schema :
        (statements : List Statement) (filename : List ℕ) (d : D) (db : SqliteDb D)
        → connect sqlite library statements filename d ≡ ok db
        → (tables db.database ≡ with_schema (tables d)) × IsReady db
    unfolding connect
    connect-with_schema statements filename d db h =
        let (verified, e, h1) =
          bind_result-ok (verify_schema sqlite library filename d)
            (λ verified.
              bind_result (open_db sqlite library filename verified)
                λ db. prepare_all sqlite library statements db)
            h in
        let (first, f, h2) =
          bind_result-ok (open_db sqlite library filename verified)
            (λ db. prepare_all sqlite library statements db) h1 in
        let (zero_code, new) = open_db-new filename verified first f in
        let same = new ∙ prepare_all-same statements first db h2 in
        (
          ap (λ x. tables x.database) (sym same)
              ∙ documented.opened filename verified zero_code
              ∙ verify_schema-tables filename d verified e,
          subst IsReady same λ stmt. inl refl,
        )
