-- ===== src/Sqlite/Rows.antt =====
-- src/lib/database/db-sqlite3.cc: statements that are used again, against statements that are new.
use minetest_map_analyzer.Prelude.{
  ℕ, ◌≡◌, refl, ap, sym, ◌∙◌, inl, inr, Bool, true, false, List, [], ◌∷◌, ◌++◌, length, ◌==◌, ◌||◌,
  Bool-cases,
}
use minetest_map_analyzer.Exceptions.{
  Result, ok, throw, bind_result, Result-cases, Ends, Any, Ends-bind_result,
}
use minetest_map_analyzer.Sqlite.Bound.{
  arity, IsReady, bind_from_lem, IsBound-IsReady, set_all-new, set_all-IsFull,
}
use minetest_map_analyzer.Sqlite.{
  Statement, Value, Bindings, Sqlite, SqliteDb, step_result, step, step_and_reset, bind_from,
  write_row, begin_transaction, commit_transaction, begin, commit,
}

-- The values of columns, in their order.
abbrev pub values_of : {C : Type 0} → (C → Value) → List C → List Value
values_of value [] = []
values_of value (column ∷ columns) = value column ∷ values_of value columns

-- A statement and its values.
abbrev pub Row : Type 0
Row = Statement × List Value

pub bind_result_assoc {ℓ κ μ} :
    {A : Type ℓ} {B : Type κ} {C : Type μ} (m : Result A) (f : A → Result B) (g : B → Result C)
    → bind_result (bind_result m f) g ≡ bind_result m (λ a. bind_result (f a) g)
bind_result_assoc (ok a) f g = refl
bind_result_assoc (throw e) f g = refl

abbrev pub beside {ℓ κ} : {A : Type ℓ} {B : Type κ} → A → B → A × B
beside a b = (a, b)

-- The database alone, without what is bound.
abbrev pub database_only {ℓ} : {A : Type ℓ} {D : Type 0} → A × SqliteDb D → A × D
database_only (a, db) = (a, db.database)

module _ {D : Type 0} (sqlite : Sqlite D) where
  -- A database on which each statement is new: nothing is bound to it.
  abbrev pub fresh : D → SqliteDb D
  fresh database = record { database = database; bound = λ stmt. [] }

  -- The rows, each by a new statement.
  unfoldable pub execute : List Row → D → Result D
  execute [] d = ok d
  execute ((stmt, values) ∷ rows) d =
      bind_result (write_row sqlite stmt values (fresh d)) λ db. execute rows db.database

  -- Both return the same database, and the first is ready for more, or both throw the same.
  abbrev pub Same : Result (SqliteDb D) → Result D → Type 0
  Same (ok db) (ok d) = (db.database ≡ d) × IsReady db
  Same (ok db) (throw e) = ⊥
  Same (throw e) (ok d) = ⊥
  Same (throw e) (throw e') = e ≡ e'

  -- The action does to a database that is ready what the rows do, each by a new statement.
  abbrev pub Writes : (SqliteDb D → Result (SqliteDb D)) → List Row → Type 0
  Writes f rows = (db : SqliteDb D) → IsReady db → Same (f db) (execute rows db.database)

  Same-bind_result :
      (m : Result (SqliteDb D)) (n : Result D) (g : SqliteDb D → Result (SqliteDb D))
      (h : D → Result D)
      → Same m n
      → ((db : SqliteDb D) → IsReady db → Same (g db) (h db.database))
      → Same (bind_result m g) (bind_result n h)
  Same-bind_result (ok db) (ok d) g h (e, r) k = rw⁻¹ e (k db r)
  Same-bind_result (ok db) (throw e) g h s k = absurd s
  Same-bind_result (throw e) (ok d) g h s k = absurd s
  Same-bind_result (throw e) (throw e') g h s k = s

  execute-append :
      (a b : List Row) (d : D) → execute (a ++ b) d ≡ bind_result (execute a d) (execute b)
  unfolding execute
  execute-append [] b d = refl
  execute-append ((stmt, values) ∷ a) b d =
      elim (Result-cases (write_row sqlite stmt values (fresh d))) [
        | inl (db, e) ↦ rw e (execute-append a b db.database)
        | inr (x, e) ↦ rw e refl
      ]

  pub Writes-ok : Writes (λ db. ok db) []
  unfolding execute
  Writes-ok db r = (refl, r)

  pub Writes-bind_result :
      (f g : SqliteDb D → Result (SqliteDb D)) (a b : List Row)
      → Writes f a
      → Writes g b
      → Writes (λ db. bind_result (f db) g) (a ++ b)
  Writes-bind_result f g a b hf hg db r =
      rw (execute-append a b db.database)
        (Same-bind_result (f db) (execute a db.database) g (execute b) (hf db r) hg)

  Same-step_result :
      (rc : ℕ) (d : D) (a b : Statement → Bindings)
      → IsReady (record { database = d; bound = a })
      → Same
          (bind_result (step_result sqlite rc (record { database = d; bound = a })) λ s. ok s.1)
          (bind_result
            (bind_result (step_result sqlite rc (record { database = d; bound = b })) λ s. ok s.1)
            λ db. ok db.database)
  unfolding step_result
  Same-step_result rc d a b r = elim (Bool-cases (rc == 0 || rc == 100)) [
    | inl e ↦ rw e (refl, r)
    | inr e ↦
        rw e (elim (Bool-cases (rc == 101)) [ inl e' ↦ rw e' (refl, r) | inr e' ↦ rw e' refl ])
  ]

  Same-step :
      (stmt : Statement) (a b : SqliteDb D)
      → a.database ≡ b.database
      → a.bound stmt ≡ b.bound stmt
      → IsReady a
      → Same
          (step_and_reset sqlite stmt a)
          (bind_result (step_and_reset sqlite stmt b) λ db. ok db.database)
  unfolding step_and_reset step
  Same-step stmt a b ed eb r =
      rw (ed, eb)
        (Same-step_result (sqlite.step stmt (b.bound stmt) b.database).0
          (sqlite.step stmt (b.bound stmt) b.database).1 a.bound b.bound r)

  not_both : {b : Bool} → b ≡ true → b ≡ false → ⊥
  not_both e f = cc

  Same-write_row :
      (stmt : Statement) (values : List Value) (db : SqliteDb D)
      → length values ≡ arity stmt
      → IsReady db
      → Same
          (write_row sqlite stmt values db)
          (bind_result (write_row sqlite stmt values (fresh db.database)) λ db'. ok db'.database)
  unfolding write_row
  Same-write_row stmt values db len r = elim (bind_from_lem sqlite stmt 1 values db) [
    | inl (u, run, b, all) ↦ elim (bind_from_lem sqlite stmt 1 values (fresh db.database)) [
      | inl (v, run', b', all') ↦
          rw (run, run')
            (Same-step stmt u v (b.database ∙ sym b'.database)
              (b.here
                ∙ set_all-IsFull stmt values (db.bound stmt) len (r stmt)
                ∙ sym (b'.here ∙ set_all-new 1 values))
              (IsBound-IsReady sqlite stmt values db u len r b))
      | inr (run', failed) ↦ absurd (not_both all failed)
    ]
    | inr (run, failed) ↦ elim (bind_from_lem sqlite stmt 1 values (fresh db.database)) [
      | inl (v, run', b', all') ↦ absurd (not_both all' failed)
      | inr (run', failed') ↦ rw (run, run') refl
    ]
  ]

  -- A row that is written executes its statement as if that were new.
  pub Writes-write_row :
      (stmt : Statement) (values : List Value)
      → length values ≡ arity stmt
      → Writes (write_row sqlite stmt values) ((stmt, values) ∷ [])
  unfolding execute
  Writes-write_row stmt values len db r = Same-write_row stmt values db len r

  pub Writes-begin_transaction : Writes (begin_transaction sqlite) ((begin, []) ∷ [])
  unfolding begin_transaction write_row bind_from
  Writes-begin_transaction = Writes-write_row begin [] refl

  pub Writes-commit_transaction : Writes (commit_transaction sqlite) ((commit, []) ∷ [])
  unfolding commit_transaction write_row bind_from
  Writes-commit_transaction = Writes-write_row commit [] refl

  Same-eq :
      (m : Result (SqliteDb D)) (n : Result D) → Same m n → bind_result m (λ db. ok db.database) ≡ n
  Same-eq (ok db) (ok d) (e, r) = ap ok e
  Same-eq (ok db) (throw e) s = absurd s
  Same-eq (throw e) (ok d) s = absurd s
  Same-eq (throw e) (throw e') s = ap throw s

  pub Writes-execute :
      (f : SqliteDb D → Result (SqliteDb D)) (rows : List Row) (db : SqliteDb D)
      → Writes f rows
      → IsReady db
      → bind_result (f db) (λ db'. ok db'.database) ≡ execute rows db.database
  Writes-execute f rows db h r = Same-eq (f db) (execute rows db.database) (h db r)

  pub Ends-step_and_reset :
      (stmt : Statement) (db : SqliteDb D) → Ends Any (step_and_reset sqlite stmt db)
  unfolding step_and_reset step step_result
  Ends-step_and_reset stmt db =
      let rc = (sqlite.step stmt (db.bound stmt) db.database).0 in
      elim (Bool-cases (rc == 0 || rc == 100)) [
        | inl e ↦ rw e tt
        | inr e ↦ rw e (elim (Bool-cases (rc == 101)) [ inl e' ↦ rw e' tt | inr e' ↦ rw e' tt ])
      ]

  pub Ends-write_row :
      (stmt : Statement) (values : List Value) (db : SqliteDb D)
      → Ends Any (write_row sqlite stmt values db)
  unfolding write_row
  Ends-write_row stmt values db = elim (bind_from_lem sqlite stmt 1 values db) [
    | inl (u, run, b, all) ↦ rw run (Ends-step_and_reset stmt u)
    | inr (run, failed) ↦ rw run tt
  ]

  Ends-execute : (rows : List Row) (d : D) → Ends Any (execute rows d)
  unfolding execute
  Ends-execute [] d = tt
  Ends-execute ((stmt, values) ∷ rows) d =
      Ends-bind_result Any Any (write_row sqlite stmt values (fresh d)) _
        (Ends-write_row stmt values (fresh d)) λ db u. Ends-execute rows db.database

  Same-Ends : (m : Result (SqliteDb D)) (n : Result D) → Same m n → Ends Any n → Ends IsReady m
  Same-Ends (ok db) (ok d) (e, r) h = r
  Same-Ends (ok db) (throw e) s h = absurd s
  Same-Ends (throw e) (ok d) s h = absurd s
  Same-Ends (throw e) (throw e') s h = rw s h

  -- An action that executes rows leaves its database ready for more, where it returns.
  pub Writes-Ends :
      (f : SqliteDb D → Result (SqliteDb D)) (rows : List Row) (db : SqliteDb D)
      → Writes f rows
      → IsReady db
      → Ends IsReady (f db)
  Writes-Ends f rows db h r =
      Same-Ends (f db) (execute rows db.database) (h db r) (Ends-execute rows db.database)
