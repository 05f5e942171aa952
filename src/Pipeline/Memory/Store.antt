-- ===== src/Pipeline/Memory/Store.antt =====
-- The tables in memory, and the statements over them.
use foldermcp.Base.{
  Bytes, bytes_eq, bytes_eq_iff, ◌==◌, ==_iff, ℕ, ◌+◌, ◌≡◌, ◌≢◌, ◌⊎◌, refl, sym, ap, ◌∙◌, inl, inr,
  Bool, true, false, ◌||◌, ltb, Bool-cases, List, [], ◌∷◌, Option, none, some, Option-cases,
  AllPairs,
}
use mathlib.Core.Path.{subst}
use mathlib.Core.Bool.{false≢true}
use mathlib.Core.Option.{none-ne-some, some-injective}
use mathlib.Core.List.{Memᴰ}
use mathlib.Core.List.Memᴰ
use foldermcp.Pipeline.Tables.{
  FileRow, FilesRow, SeenFile, seen_row, with_file, rewritten, cleaned, NodeRow, ChunkRow, Tables,
  Statement, delete_vectors, delete_pass_rows, delete_nodes, upsert_pass, update_pass, put_vector,
  mark_deleted, put_fingerprint, effect, with_node, with_chunk,
}
use foldermcp.Pipeline.Run.{was_attempted}
use foldermcp.Pipeline.Sound.Batch.{not_attempted}
use foldermcp.Pipeline.Engine.{Sql, done, error}

pub record Memory : Type 0 where
  pub tables : Tables
  pub ids : List ℕ
  pub next : ℕ
  pub distinct : AllPairs (λ a b. a ≢ b) ids
  pub covers : (g : ℕ) (x : FilesRow) → tables.file g ≡ some x → Memᴰ g ids × (x.row.id ≡ g)

abbrev pub Covers : List ℕ → Tables → Type 0
Covers ids t = (g : ℕ) (x : FilesRow) → t.file g ≡ some x → Memᴰ g ids × (x.row.id ≡ g)

pub effect-Covers :
    (ids : List ℕ) (s : Statement) (t : Tables) → Covers ids t → Covers ids (effect s t)
effect-Covers ids (delete_vectors f) t h = h
effect-Covers ids (delete_pass_rows f) t h = h
effect-Covers ids (delete_nodes f) t h = h
effect-Covers ids (upsert_pass f p s m) t h = h
effect-Covers ids (update_pass f p s m) t h = h
effect-Covers ids (put_vector c v) t h = h
effect-Covers ids (put_fingerprint fp) t h = h
effect-Covers ids (mark_deleted start) t h = λ g x at. elim (Option-cases (t.file g)) [
  | inl missing ↦ absurd (none-ne-some x (rw missing at at))
  | inr (y, was) ↦
      let marked = record y { deleted = y.deleted || ltb y.last_seen start } in
      let same : marked ≡ x = some-injective marked x (rw was at at) in
      ((h g y was).0, sym (ap (λ (z : FilesRow). z.row.id) same) ∙ (h g y was).1)
]

abbrev pub execute : Memory → Statement → Sql Memory
execute db s = done (record {
  tables = effect s db.tables;
  ids = db.ids;
  next = db.next;
  distinct = db.distinct;
  covers = effect-Covers db.ids s db.tables db.covers;
})

abbrev pub add_node : Memory → NodeRow → Option NodeRow → Sql (Memory × ℕ)
add_node db r (some _) = error "UNIQUE constraint failed"
add_node db r none = done (
  record {
    tables = with_node db.next r db.tables;
    ids = db.ids;
    next = db.next + 1;
    distinct = db.distinct;
    covers = db.covers;
  },
  db.next,
)

abbrev pub add_chunk : Memory → ChunkRow → Option ChunkRow → Sql (Memory × ℕ)
add_chunk db r (some _) = error "UNIQUE constraint failed"
add_chunk db r none = done (
  record {
    tables = with_chunk db.next r db.tables;
    ids = db.ids;
    next = db.next + 1;
    distinct = db.distinct;
    covers = db.covers;
  },
  db.next,
)

-- A table with one row more, under an id of the list.
Covers-with_file :
    (ids : List ℕ) (g : ℕ) (r : FilesRow) (t : Tables)
    → Memᴰ g ids
    → r.row.id ≡ g
    → Covers ids t
    → Covers ids (with_file g r t)
Covers-with_file ids g r t m own h = λ k x at. elim (Bool-cases (k == g)) [
  | inl e ↦
      let same : k ≡ g = (==_iff k g).0 e in
      let row : r ≡ x = some-injective r x (rw e at at) in
      (
        subst (λ y. Memᴰ y ids) (sym same) m,
        sym (ap (λ (y : FilesRow). y.row.id) row) ∙ own ∙ sym same,
      )
  | inr e ↦ h k x (rw e at at)
]

pub Covers-rewritten :
    (ids : List ℕ) (g : ℕ) (x : FilesRow) (now : ℕ) (s : SeenFile) (t : Tables)
    → Memᴰ g ids
    → Covers ids t
    → Covers ids (rewritten g x now s t)
Covers-rewritten ids g x now s t m h = elim (Bool-cases (bytes_eq s.sha256 x.sha256)) [
  | inl e ↦ rw e (Covers-with_file ids g _ t m refl h)
  | inr e ↦ rw e (Covers-with_file ids g _ (cleaned g t) m refl h)
]

pub Covers-new :
    (ids : List ℕ) (g : ℕ) (r : FilesRow) (t : Tables)
    → r.row.id ≡ g
    → Covers ids t
    → Covers (g ∷ ids) (with_file g r t)
Covers-new ids g r t own h =
    Covers-with_file (g ∷ ids) g r t (Memᴰ.head refl) own
      (λ k x at. let (m, e) = h k x at in (Memᴰ.tail m, e))

abbrev pub of_bool : (b : Bool) → (b ≡ true) ⊎ (b ≡ false)
of_bool true = inl refl
of_bool false = inr refl

abbrev pub of_row : (o : Option FilesRow) → (o ≡ none) ⊎ ((x : FilesRow) × (o ≡ some x))
of_row none = inl refl
of_row (some x) = inr (x, refl)

-- The row of a path.
abbrev pub HasPath : Tables → List ℕ → Bytes → Type 0
HasPath t ids path =
    (g : ℕ) × (x : FilesRow) × Memᴰ g ids × (t.file g ≡ some x) × (x.row.path ≡ path)

abbrev pub IsNew : Tables → List ℕ → Bytes → Type 0
IsNew t ids path = (g : ℕ) (x : FilesRow) → Memᴰ g ids → t.file g ≡ some x → x.row.path ≢ path

abbrev later :
    (t : Tables) (g : ℕ) (ids : List ℕ) (path : Bytes)
    → ((x : FilesRow) → t.file g ≡ some x → x.row.path ≢ path)
    → HasPath t ids path ⊎ IsNew t ids path
    → HasPath t (g ∷ ids) path ⊎ IsNew t (g ∷ ids) path
later t g ids path isnt (inl (h, x, m, at, is)) = inl (h, x, Memᴰ.tail m, at, is)
later t g ids path isnt (inr none_of) = inr (λ h x m at. elim m [
  | Memᴰ.head e ↦ isnt x (ap t.file (sym e) ∙ at)
  | Memᴰ.tail k ↦ none_of h x k at
])

abbrev pub find_path :
    (t : Tables) (ids : List ℕ) (path : Bytes) → HasPath t ids path ⊎ IsNew t ids path
find_path t [] path = inr (λ g x m. absurd (Memᴰ.not-nil m))
find_path t (g ∷ ids) path =
    let rest = find_path t ids path in
    elim (of_row (t.file g)) [
      | inl missing ↦ later t g ids path (λ x at. absurd (none-ne-some x (sym missing ∙ at))) rest
      | inr (x, at) ↦ elim (of_bool (bytes_eq x.row.path path)) [
        | inl e ↦ inl (g, x, Memᴰ.head refl, at, (bytes_eq_iff x.row.path path).0 e)
        | inr e ↦
            later t g ids path
              (λ y at' is. false≢true (
                sym e
                ∙ (bytes_eq_iff x.row.path path).1
                    (ap (λ (z : FilesRow). z.row.path) (some-injective x y (sym at ∙ at')) ∙ is)))
              rest
      ]
    ]

-- A new row, if its id is free.
abbrev pub IsTaken : Memory → Type 0
IsTaken db = (was_attempted db.next db.ids ≡ true) ⊎ (was_attempted db.next db.ids ≡ false)

abbrev pub add_file : (db : Memory) → SeenFile → ℕ → IsTaken db → Sql Memory
add_file db s now (inl _) = error "UNIQUE constraint failed"
add_file db s now (inr e) = done (record {
  tables = with_file db.next (seen_row db.next s.parent now s) db.tables;
  ids = db.next ∷ db.ids;
  next = db.next + 1;
  distinct = (not_attempted db.next db.ids e, db.distinct);
  covers = Covers-new db.ids db.next (seen_row db.next s.parent now s) db.tables refl db.covers;
})

abbrev pub put_file :
    (db : Memory) (s : SeenFile)
    → ℕ
    → HasPath db.tables db.ids s.path ⊎ IsNew db.tables db.ids s.path
    → Sql Memory
put_file db s now (inl (g, x, m, _, _)) = done (record {
  tables = rewritten g x now s db.tables;
  ids = db.ids;
  next = db.next;
  distinct = db.distinct;
  covers = Covers-rewritten db.ids g x now s db.tables m db.covers;
})
put_file db s now (inr _) = add_file db s now (of_bool (was_attempted db.next db.ids))

abbrev pub row_at : Option FilesRow → Sql FileRow
row_at none = error "sql: no rows in result set"
row_at (some x) = done x.row
