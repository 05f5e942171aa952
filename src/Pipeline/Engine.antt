-- ===== src/Pipeline/Engine.antt =====
-- What the pipeline relies on of SQLite, and the helpers of pipeline.go over it.
use Prim.Native.String.{String}
use foldermcp.Base.{
  ℕ, ◌<◌, ◌≡◌, ◌≢◌, ◌⊎◌, List, Bool, true, false, Option, none, some, length, AllPairs,
}
use mathlib.Core.List.{Memᴰ}
use foldermcp.Pipeline.Tables.{
  Pass, running, finished, failed, FileRow, FilesRow, SeenFile, seen_row, rewritten, with_file,
  NodeRow, ChunkRow, Fingerprint, Tables, Statement, upsert_pass, update_pass, effect, with_node,
  with_chunk,
}

pub data Sql (A : Type 0) : Type 0 where
  done : A → Sql A
  error : String → Sql A

abbrev pub is_done : {A : Type 0} → Sql A → Bool
is_done (done a) = true
is_done (error e) = false

abbrev pub from_done : {A : Type 0} → A → Sql A → A
from_done d (done a) = a
from_done d (error e) = d

-- No row of the pass says that the file is done.
abbrev pub IsPending : Tables → Pass → ℕ → Type 0
IsPending t p f =
    (m : Option (List String))
    → t.pass_row f p ≢ some (record { status = finished; error_message = m })

-- A file that is not deleted, and pending.
abbrev pub IsWaiting : Tables → Pass → ℕ → Type 0
IsWaiting t p f = ((r : FilesRow) × (t.file f ≡ some r) × (r.deleted ≡ false)) × IsPending t p f

-- A statement either fails or does what its SQL says; a failed or rolled back transaction leaves the
-- database as it was.
pub record Engine : Type 1 where
  pub Db : Type 0
  pub tables : Db → Tables
  pub begin : Db → Sql Db
  pub exec : Db → Statement → Sql Db
  pub insert_node : Db → NodeRow → Sql (Db × ℕ)
  pub insert_chunk : Db → ChunkRow → Sql (Db × ℕ)
  pub commit : Db → Sql Db
  -- Of a deleted file too.
  pub load_file : Db → ℕ → Sql FileRow
  -- The ids of the live files that are pending for a pass, with a limit.
  pub select_pending : Db → Pass → ℕ → Sql (List ℕ)
  -- No row is `sql.ErrNoRows`.
  pub read_fingerprint : Db → Sql (Option Fingerprint)
  -- A file that the walk has seen, at a time.
  pub upsert_file : Db → SeenFile → ℕ → Sql Db
  pub begin_same : (db tx : Db) → begin db ≡ done tx → tables tx ≡ tables db
  pub exec_effect :
      (db after : Db) (s : Statement) → exec db s ≡ done after → tables after ≡ effect s (tables db)
  pub insert_node_new :
      (db after : Db) (r : NodeRow) (id : ℕ)
      → insert_node db r ≡ done (after, id)
      → ((tables db).node id ≡ none) × (tables after ≡ with_node id r (tables db))
  pub insert_chunk_new :
      (db after : Db) (r : ChunkRow) (id : ℕ)
      → insert_chunk db r ≡ done (after, id)
      → ((tables db).chunk id ≡ none) × (tables after ≡ with_chunk id r (tables db))
  pub commit_same : (tx db : Db) → commit tx ≡ done db → tables db ≡ tables tx
  pub load_file_row :
      (db : Db) (id : ℕ) (r : FileRow)
      → load_file db id ≡ done r
      → ((x : FilesRow) × ((tables db).file id ≡ some x) × (x.row ≡ r)) × (r.id ≡ id)
  pub select_pending_rows :
      (db : Db) (p : Pass) (limit : ℕ) (ids : List ℕ)
      → select_pending db p limit ≡ done ids
      → AllPairs (λ a b. a ≢ b) ids
        × ((f : ℕ) → Memᴰ f ids → IsWaiting (tables db) p f)
        × (length ids < limit → (f : ℕ) → IsWaiting (tables db) p f → Memᴰ f ids)
  pub read_fingerprint_row :
      (db : Db) (o : Option Fingerprint)
      → read_fingerprint db ≡ done o
      → o ≡ (tables db).fingerprint
  -- The path is unique: its row is rewritten, or there is a new one.
  pub upsert_file_row :
      (db after : Db) (s : SeenFile) (now : ℕ)
      → upsert_file db s now ≡ done after
      → ((g : ℕ) × (x : FilesRow) × ((tables db).file g ≡ some x)
          × (x.row.path ≡ s.path)
          × (tables after ≡ rewritten g x now s (tables db)))
        ⊎ ((g : ℕ) × ((tables db).file g ≡ none)
            × ((h : ℕ) (x : FilesRow) → (tables db).file h ≡ some x → x.row.path ≢ s.path)
            × (tables after ≡ with_file g (seen_row g s.parent now s) (tables db)))

module _ (E : Engine) where
  open E use {Db, exec, select_pending}

  unfoldable pub mark_running : Db → ℕ → Pass → Sql Db
  mark_running db f p = exec db (upsert_pass f p running none)

  unfoldable pub mark_done : Db → ℕ → Pass → Sql Db
  mark_done db f p = exec db (update_pass f p finished none)

  unfoldable pub mark_failed : Db → ℕ → Pass → List String → Sql Db
  mark_failed db f p message = exec db (update_pass f p failed (some message))

  abbrev pub pending_files : Db → Pass → ℕ → Sql (List ℕ)
  pending_files db p limit = select_pending db p limit
