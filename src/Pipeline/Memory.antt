-- ===== src/Pipeline/Memory.antt =====
-- A database in memory, in which nothing fails but an id that is taken: the laws of `Engine` can hold.
pub mod Store
mod Pending
use Prim.Native.String.{String}
use foldermcp.Base.{
  Bytes, bytes_eq, bytes_eq_iff, ◌==◌, ==_iff, ℕ, ◌+◌, ◌<◌, ◌≡◌, ◌≢◌, ◌⊎◌, refl, sym, ap, ◌∙◌, inl,
  inr, Bool, true, false, not, ◌&&◌, ◌||◌, ltb, Bool-cases, List, [], ◌∷◌, Option, none, some,
  Option-cases, All, AllPairs, AllPairs-take, All-take, length, take, length-take, take_all,
  if◌then◌else◌, arith,
}
use foldermcp.Base.Distinct.{Mem-All}
use mathlib.Core.Path.{subst}
use mathlib.Core.Bool.{false≢true}
use mathlib.Core.Option.{none-ne-some, some-injective}
use mathlib.Core.List.{Memᴰ}
use mathlib.Core.List.Memᴰ
use foldermcp.Pipeline.Tables.{
  Pass, Status, pending, running, finished, failed, skipped, PassRow, FileRow, FilesRow, SeenFile,
  seen_row, with_file, rewritten, cleaned, NodeRow, ChunkRow, Tables, Statement, delete_vectors,
  delete_pass_rows, delete_nodes, upsert_pass, update_pass, put_vector, mark_deleted,
  put_fingerprint, row_of, effect, with_node, with_chunk,
}
use foldermcp.Pipeline.Run.{was_attempted}
use foldermcp.Pipeline.Sound.Batch.{not_attempted}
use foldermcp.Pipeline.Engine.{Sql, done, error, is_done, from_done, Engine, IsWaiting}
use foldermcp.Pipeline.Memory.Store.{
  of_bool, Covers, Covers-new, Covers-rewritten, HasPath, IsNew, IsTaken, Memory, add_chunk,
  add_file, add_node, effect-Covers, execute, find_path, put_file, row_at,
}
use foldermcp.Pipeline.Memory.Pending.{pending_ids, pending_ids_lem}

pub add_node_lem :
    (db after : Memory) (r : NodeRow) (id : ℕ) (o : Option NodeRow)
    → db.tables.node db.next ≡ o
    → add_node db r o ≡ done (after, id)
    → (db.tables.node id ≡ none) × (after.tables ≡ with_node id r db.tables)
add_node_lem db after r id (some _) at h = absurd (false≢true (ap is_done h))
add_node_lem db after r id none at h =
    let same : db.next ≡ id = ap (λ (x : Sql (Memory × ℕ)). (from_done (db, db.next) x).1) h in
    let tables_same : with_node db.next r db.tables ≡ after.tables =
      ap (λ (x : Sql (Memory × ℕ)). (from_done (db, db.next) x).0.tables) h in
    (ap db.tables.node (sym same) ∙ at, sym tables_same ∙ ap (λ n. with_node n r db.tables) same)

pub add_chunk_lem :
    (db after : Memory) (r : ChunkRow) (id : ℕ) (o : Option ChunkRow)
    → db.tables.chunk db.next ≡ o
    → add_chunk db r o ≡ done (after, id)
    → (db.tables.chunk id ≡ none) × (after.tables ≡ with_chunk id r db.tables)
add_chunk_lem db after r id (some _) at h = absurd (false≢true (ap is_done h))
add_chunk_lem db after r id none at h =
    let same : db.next ≡ id = ap (λ (x : Sql (Memory × ℕ)). (from_done (db, db.next) x).1) h in
    let tables_same : with_chunk db.next r db.tables ≡ after.tables =
      ap (λ (x : Sql (Memory × ℕ)). (from_done (db, db.next) x).0.tables) h in
    (ap db.tables.chunk (sym same) ∙ at, sym tables_same ∙ ap (λ n. with_chunk n r db.tables) same)

pub row_at_lem :
    (db : Memory) (f : ℕ) (r : FileRow) (o : Option FilesRow)
    → db.tables.file f ≡ o
    → row_at o ≡ done r
    → ((x : FilesRow) × (db.tables.file f ≡ some x) × (x.row ≡ r)) × (r.id ≡ f)
row_at_lem db f r none at h = absurd (false≢true (ap is_done h))
row_at_lem db f r (some x) at h =
    let same : x.row ≡ r = ap (from_done x.row) h in
    ((x, at, same), sym (ap (λ (y : FileRow). y.id) same) ∙ (db.covers f x at).1)

abbrev IsUpserted : Memory → Memory → SeenFile → ℕ → Type 0
IsUpserted db after s now =
    ((g : ℕ) × (x : FilesRow) × (db.tables.file g ≡ some x)
      × (x.row.path ≡ s.path)
      × (after.tables ≡ rewritten g x now s db.tables))
    ⊎ ((g : ℕ) × (db.tables.file g ≡ none)
        × ((h : ℕ) (x : FilesRow) → db.tables.file h ≡ some x → x.row.path ≢ s.path)
        × (after.tables ≡ with_file g (seen_row g s.parent now s) db.tables))

unused_id : (db : Memory) → was_attempted db.next db.ids ≡ false → db.tables.file db.next ≡ none
unused_id db e = elim (Option-cases (db.tables.file db.next)) [
  | inl missing ↦ missing
  | inr (x, at) ↦
      absurd (
        Mem-All (λ g. db.next ≢ g) (db.covers db.next x at).0 (not_attempted db.next db.ids e) refl)
]

add_file_lem :
    (db after : Memory) (s : SeenFile) (now : ℕ) (taken : IsTaken db)
    → IsNew db.tables db.ids s.path
    → add_file db s now taken ≡ done after
    → IsUpserted db after s now
add_file_lem db after s now (inl _) new h = absurd (false≢true (ap is_done h))
add_file_lem db after s now (inr e) new h = inr (
  db.next,
  unused_id db e,
  (λ g x at. new g x (db.covers g x at).0 at),
  sym (ap (λ y. (from_done db y).tables) h),
)

pub put_file_lem :
    (db after : Memory) (s : SeenFile) (now : ℕ)
    (found : HasPath db.tables db.ids s.path ⊎ IsNew db.tables db.ids s.path)
    → put_file db s now found ≡ done after
    → IsUpserted db after s now
put_file_lem db after s now (inl (g, x, m, at, is)) h =
    inl (g, x, at, is, sym (ap (λ y. (from_done db y).tables) h))
put_file_lem db after s now (inr new) h =
    add_file_lem db after s now (of_bool (was_attempted db.next db.ids)) new h

abbrev pub in_memory : Engine
in_memory = record {
  Db = Memory;
  tables = λ db. db.tables;
  begin = λ db. done db;
  exec = execute;
  insert_node = λ db r. add_node db r (db.tables.node db.next);
  insert_chunk = λ db r. add_chunk db r (db.tables.chunk db.next);
  commit = λ db. done db;
  load_file = λ db f. row_at (db.tables.file f);
  select_pending = λ db p limit. done (pending_ids db p limit);
  read_fingerprint = λ db. done db.tables.fingerprint;
  upsert_file = λ db s now. put_file db s now (find_path db.tables db.ids s.path);
  upsert_file_row =
      λ db after s now. put_file_lem db after s now (find_path db.tables db.ids s.path);
  begin_same = λ db tx h. ap (λ x. (from_done db x).tables) (sym h);
  exec_effect = λ db after s h. sym (ap (λ x. (from_done db x).tables) h);
  insert_node_new = λ db after r id h. add_node_lem db after r id (db.tables.node db.next) refl h;
  insert_chunk_new =
      λ db after r id h. add_chunk_lem db after r id (db.tables.chunk db.next) refl h;
  commit_same = λ tx db h. ap (λ x. (from_done db x).tables) (sym h);
  load_file_row = λ db f r h. row_at_lem db f r (db.tables.file f) refl h;
  select_pending_rows = pending_ids_lem;
  read_fingerprint_row = λ db o h. sym (ap (from_done o) h);
}
