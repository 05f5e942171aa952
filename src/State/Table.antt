-- ===== src/State/Table.antt =====
-- What store.go relies on of a SQLite table with a text primary key: its statements, and what their
-- SQL says of the rows. A statement that fails is `none`.
use Prim.Native.String.{String}
use foldermcp.Base.{ℕ, ◌≡◌, ◌≢◌, ◌↔◌, Option, none, some}

-- The row that an insert leaves: itself, or what ON CONFLICT makes of the one that is there.
abbrev pub merged : {R : Type 0} → Option R → R → (R → R) → R
merged none r on_conflict = r
merged (some old) r on_conflict = on_conflict old

abbrev pub changed : {R : Type 0} → Option R → (R → R) → Option R
changed none f = none
changed (some old) f = some (f old)

pub record Table (R : Type 0) : Type 1 where
  pub Db : Type 0
  -- The row of a key.
  pub row : Db → String → Option R
  -- SELECT ... WHERE name = ?
  pub select : Db → String → Option (Option R)
  -- INSERT ... ON CONFLICT(name) DO UPDATE SET ...
  pub insert : Db → String → R → (R → R) → Option Db
  -- UPDATE ... SET ... WHERE name = ?, and the number of rows it affected
  pub update : Db → String → (R → R) → Option (Db × ℕ)
  pub commit : Db → Option Db
  pub select_row : (db : Db) (n : String) (r : Option R) → select db n ≡ some r → r ≡ row db n
  pub insert_row :
      (db : Db) (n : String) (r : R) (f : R → R) (after : Db)
      → insert db n r f ≡ some after
      → (row after n ≡ some (merged (row db n) r f))
        × ((m : String) → m ≢ n → row after m ≡ row db m)
  pub update_row :
      (db : Db) (n : String) (f : R → R) (after : Db) (k : ℕ)
      → update db n f ≡ some (after, k)
      → (row after n ≡ changed (row db n) f)
        × ((m : String) → m ≢ n → row after m ≡ row db m)
        × ((k ≡ 0) ↔ (row db n ≡ none))
  pub commit_row : (db after : Db) → commit db ≡ some after → (m : String) → row after m ≡ row db m
