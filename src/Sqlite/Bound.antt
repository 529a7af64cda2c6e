-- ===== src/Sqlite/Bound.antt =====
-- src/lib/database/db-sqlite3.cc: what is bound to a statement behind the calls that bind a row.
use minetest_map_analyzer.Prelude.{
  ℕ, ◌+◌, ◌<◌, ◌≡◌, refl, ap, sym, ◌∙◌, subst, ◌⊎◌, inl, inr, Bool, true, false, Option, none, some,
  List, [], ◌∷◌, length, get_elem?, ◌==◌, if◌then◌else◌, Bool-cases, arith,
}
use minetest_map_analyzer.Exceptions.{ok, throw, sqlite3_error}
use minetest_map_analyzer.Sqlite.{
  Statement, Value, Bindings, Sqlite, SqliteDb, set_binding, code, with_bound, bind, bind_from,
}

-- The values at the indices from `i` on.
abbrev pub numbered : ℕ → List Value → Bindings
numbered i [] = []
numbered i (v ∷ values) = (i, v) ∷ numbered (i + 1) values

-- The number of the values that the text of a statement asks for.
abbrev pub arity : Statement → ℕ
arity Statement.begin = 0
arity Statement.commit = 0
arity Statement.rollback = 0
arity Statement.write_actor = 2
arity Statement.write_node = 3
arity Statement.write_nodes = 7
arity Statement.write_inventory = 3
arity Statement.write_block = 7

-- Nothing is bound to a statement, or each of its values, in their order.
abbrev pub IsFull : Statement → Bindings → Type 0
IsFull stmt b = (b ≡ []) ⊎ ((old : List Value) × (b ≡ numbered 1 old) × (length old ≡ arity stmt))

abbrev pub IsReady : {D : Type 0} → SqliteDb D → Type 0
IsReady db = (stmt : Statement) → IsFull stmt (db.bound stmt)

abbrev pub set_all : ℕ → List Value → Bindings → Bindings
set_all i [] b = b
set_all i (v ∷ values) b = set_all (i + 1) values (set_binding i v b)

set_all-later :
    (i j : ℕ) (values : List Value) (o : Value) (b : Bindings)
    → (j == i) ≡ false
    → j < i
    → set_all i values ((j, o) ∷ b) ≡ (j, o) ∷ set_all i values b
unfolding set_binding
set_all-later i j [] o b ne lt = refl
set_all-later i j (v ∷ values) o b ne lt =
    rw ne (set_all-later (i + 1) j values o (set_binding i v b) (ground arith) (omega arith))

pub set_all-new : (i : ℕ) (values : List Value) → set_all i values [] ≡ numbered i values
unfolding set_binding
set_all-new i [] = refl
set_all-new i (v ∷ values) =
    set_all-later (i + 1) i values v [] (ground arith) (omega arith)
    ∙ ap (λ b. (i, v) ∷ b) (set_all-new (i + 1) values)

set_all-numbered :
    (i : ℕ) (values old : List Value)
    → length old ≡ length values
    → set_all i values (numbered i old) ≡ numbered i values
unfolding set_binding
set_all-numbered i [] [] e = refl
set_all-numbered i [] (o ∷ old) e = absurd (omega arith)
set_all-numbered i (v ∷ values) [] e = absurd (omega arith)
set_all-numbered i (v ∷ values) (o ∷ old) e =
    let same : (i == i) ≡ true = ground arith in
    rw same (
      set_all-later (i + 1) i values v (numbered (i + 1) old) (ground arith) (omega arith)
      ∙ ap (λ b. (i, v) ∷ b) (set_all-numbered (i + 1) values old (omega arith)))

-- Whatever was bound, the values of a row are all that is bound behind its calls.
pub set_all-IsFull :
    (stmt : Statement) (values : List Value) (b : Bindings)
    → length values ≡ arity stmt
    → IsFull stmt b
    → set_all 1 values b ≡ numbered 1 values
set_all-IsFull stmt values b len (inl e) = rw e (set_all-new 1 values)
set_all-IsFull stmt values b len (inr (old, e, same)) =
    rw e (set_all-numbered 1 values old (omega arith))

abbrev or_begin : Option Statement → Statement
or_begin none = Statement.begin
or_begin (some stmt) = stmt

abbrev statement_of : ℕ → Statement
statement_of n = or_begin (
    get_elem?
      (Statement.begin ∷ Statement.commit ∷ Statement.rollback ∷ Statement.write_actor
        ∷ Statement.write_node ∷ Statement.write_nodes ∷ Statement.write_inventory
        ∷ Statement.write_block ∷ [])
      n)

statement_of-code : (a : Statement) → statement_of (code a) ≡ a
statement_of-code Statement.begin = refl
statement_of-code Statement.commit = refl
statement_of-code Statement.rollback = refl
statement_of-code Statement.write_actor = refl
statement_of-code Statement.write_node = refl
statement_of-code Statement.write_nodes = refl
statement_of-code Statement.write_inventory = refl
statement_of-code Statement.write_block = refl

same_number : (m n : ℕ) → (m == n) ≡ true → m ≡ n
same_number m n h = ground arith

code-injective : (a b : Statement) → (code a == code b) ≡ true → a ≡ b
code-injective a b h =
    sym (statement_of-code a)
    ∙ ap statement_of (same_number (code a) (code b) h)
    ∙ statement_of-code b

module _ {D : Type 0} (sqlite : Sqlite D) where
  -- All values of a row can be bound.
  abbrev binds : Statement → ℕ → List Value → D → Bool
  binds stmt i [] d = true
  binds stmt i (v ∷ values) d =
      let rest = binds stmt (i + 1) values d in if sqlite.bind stmt i v d == 0 then rest else false

  -- What the calls that bind leave of a database.
  pub record IsBound (stmt : Statement) (i : ℕ) (values : List Value) (db db' : SqliteDb D)
      : Type 0 where
    pub database : db'.database ≡ db.database
    pub here : db'.bound stmt ≡ set_all i values (db.bound stmt)
    pub others :
        (other : Statement) → (code other == code stmt) ≡ false → db'.bound other ≡ db.bound other

  pub bind_from_lem :
      (stmt : Statement) (i : ℕ) (values : List Value) (db : SqliteDb D)
      → ((db' : SqliteDb D) × (bind_from sqlite stmt i values db ≡ ok db')
          × IsBound stmt i values db db'
          × (binds stmt i values db.database ≡ true))
        ⊎ ((bind_from sqlite stmt i values db ≡ throw sqlite3_error)
            × (binds stmt i values db.database ≡ false))
  unfolding bind_from bind
  bind_from_lem stmt i [] db =
      inl (db, refl, record { database = refl; here = refl; others = λ other ne. refl }, refl)
  bind_from_lem stmt i (v ∷ values) db = elim (Bool-cases (sqlite.bind stmt i v db.database == 0)) [
    | inr e ↦ rw e (inr (refl, refl))
    | inl e ↦
        let next = with_bound sqlite stmt (set_binding i v (db.bound stmt)) db in
        elim (bind_from_lem stmt (i + 1) values next) [
          | inr (run, failed) ↦ rw e (inr (run, failed))
          | inl (db', run, b, all) ↦
              let same : (code stmt == code stmt) ≡ true = ground arith in
              rw e (
                inl (
                  db',
                  run,
                  record {
                    database = b.database;
                    here = let h = b.here in rw same at h;
                    others = λ other ne. let h = b.others other ne in rw ne at h;
                  },
                  all,
                ))
        ]
  ]

  -- Behind the calls that bind the values of a row, the database is ready again.
  pub IsBound-IsReady :
      (stmt : Statement) (values : List Value) (db db' : SqliteDb D)
      → length values ≡ arity stmt
      → IsReady db
      → IsBound stmt 1 values db db'
      → IsReady db'
  IsBound-IsReady stmt values db db' len r b other = elim (Bool-cases (code other == code stmt)) [
    | inl e ↦
        subst (λ s. IsFull s (db'.bound s)) (sym (code-injective other stmt e))
          (inr (values, b.here ∙ set_all-IsFull stmt values (db.bound stmt) len (r stmt), len))
    | inr e ↦ rw (b.others other e) (r other)
  ]
