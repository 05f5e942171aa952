-- ===== src/Pipeline/Tables.antt =====
-- The tables of internal/v3/store/migrations/0001_init.sql that the pipeline writes, by their primary
-- keys, and what the statements of pipeline.go, runner.go and writer.go do to them. Times are left
-- out.
use Prim.Native.String.{String}
use foldermcp.Base.{
  ℕ, Bool, true, false, ◌&&◌, ◌||◌, ltb, Option, none, some, List, Bytes, bytes_eq, ◌==◌,
  if◌then◌else◌,
}

-- `PassName` and `Status`
pub data Pass : Type 0 where
  walker structural chunker embeddings : Pass

pub data Status : Type 0 where
  pending running finished failed skipped : Status

pub record PassRow : Type 0 where
  pub status : Status
  pub error_message : Option (List String)

pub record FileRow : Type 0 where
  pub id : ℕ
  pub path : Bytes
  pub size : ℕ
  pub mime : Bytes
  pub content_class : String

-- A row of `files`: the columns the runner loads, and those of the walk.
pub record FilesRow : Type 0 where
  pub row : FileRow
  pub sha256 : Bytes
  pub mtime : ℕ
  pub parent_dir : Bytes
  pub last_seen : ℕ
  pub deleted : Bool

-- `fileRow` of the walker: a file as it was found.
pub record SeenFile : Type 0 where
  pub path : Bytes
  pub sha256 : Bytes
  pub size : ℕ
  pub mtime : ℕ
  pub mime : Bytes
  pub class : String
  pub parent : Bytes

pub record NodeRow : Type 0 where
  pub file_id : ℕ
  pub node_type : String
  pub name : Bytes

pub record ChunkRow : Type 0 where
  pub node_id : ℕ
  pub text : Bytes
  pub byte_start : ℕ
  pub byte_end : ℕ
  pub token_count : ℕ
  pub kind : String
  pub header : Option Bytes

pub record Fingerprint : Type 0 where
  pub model_name : String
  pub model_version : String
  pub dimension : ℕ
  pub chunking_policy : String
  pub quantization_mode : String

pub record Tables : Type 0 where
  pub file : ℕ → Option FilesRow
  pub pass_row : ℕ → Pass → Option PassRow
  pub node : ℕ → Option NodeRow
  pub chunk : ℕ → Option ChunkRow
  pub vector : ℕ → Option Bytes
  -- The one row of `embedding_fingerprint`.
  pub fingerprint : Option Fingerprint

abbrev pub same_pass : Pass → Pass → Bool
same_pass walker walker = true
same_pass structural structural = true
same_pass chunker chunker = true
same_pass embeddings embeddings = true
same_pass _ _ = false

abbrev pub file_of_node : Tables → ℕ → Option ℕ
file_of_node t n = elim (t.node n) [ none ↦ none | some r ↦ some r.file_id ]

abbrev pub file_of_chunk : Tables → ℕ → Option ℕ
file_of_chunk t c = elim (t.chunk c) [ none ↦ none | some r ↦ file_of_node t r.node_id ]

abbrev pub is_file : ℕ → Option ℕ → Bool
is_file f none = false
is_file f (some g) = g == f

pub data Statement : Type 0 where
  -- DELETE FROM embeddings WHERE chunk_id IN (...)
  delete_vectors : ℕ → Statement
  delete_pass_rows : ℕ → Statement
  -- DELETE FROM nodes, which cascades to the chunks
  delete_nodes : ℕ → Statement
  -- INSERT INTO pipeline_state ... ON CONFLICT DO UPDATE
  upsert_pass : ℕ → Pass → Status → Option (List String) → Statement
  -- UPDATE pipeline_state ... WHERE file_id=? AND pass_name=?
  update_pass : ℕ → Pass → Status → Option (List String) → Statement
  -- INSERT OR REPLACE INTO embeddings
  put_vector : ℕ → Bytes → Statement
  -- UPDATE files SET deleted_at WHERE last_seen < ? AND deleted_at IS NULL
  mark_deleted : ℕ → Statement
  -- INSERT INTO embedding_fingerprint ... ON CONFLICT DO UPDATE
  put_fingerprint : Fingerprint → Statement

abbrev pub row_of : Status → Option (List String) → PassRow
row_of s m = record { status = s; error_message = m }

abbrev pub effect : Statement → Tables → Tables
effect (delete_vectors f) t = record t {
  vector = λ c. if is_file f (file_of_chunk t c) then none else t.vector c;
}
effect (delete_pass_rows f) t = record t {
  pass_row = λ g p. if g == f then none else t.pass_row g p;
}
effect (delete_nodes f) t = record t {
  node = λ n. if is_file f (file_of_node t n) then none else t.node n;
  chunk = λ c. if is_file f (file_of_chunk t c) then none else t.chunk c;
}
effect (upsert_pass f p s m) t = record t {
  pass_row = λ g q. if g == f && same_pass q p then some (row_of s m) else t.pass_row g q;
}
effect (update_pass f p s m) t = record t {
  pass_row = λ g q.
      if g == f && same_pass q p
      then elim (t.pass_row g q) as (λ x. Option PassRow) [
        | none ↦ none
        | some r ↦ some (row_of s m)
      ]
      else t.pass_row g q;
}
effect (put_vector c v) t = record t { vector = λ d. if d == c then some v else t.vector d }
effect (mark_deleted start) t = record t {
  file = λ g. elim (t.file g) as (λ x. Option FilesRow) [
    | none ↦ none
    | some r ↦ some (record r { deleted = r.deleted || ltb r.last_seen start })
  ];
}
effect (put_fingerprint fp) t = record t { fingerprint = some fp }

-- INSERT INTO nodes and INSERT INTO chunks, with the id that is returned.
abbrev pub with_node : ℕ → NodeRow → Tables → Tables
with_node id r t = record t { node = λ n. if n == id then some r else t.node n }

abbrev pub with_chunk : ℕ → ChunkRow → Tables → Tables
with_chunk id r t = record t { chunk = λ c. if c == id then some r else t.chunk c }

abbrev pub with_file : ℕ → FilesRow → Tables → Tables
with_file id r t = record t { file = λ g. if g == id then some r else t.file g }

-- The three deletes of the rows of a file, in the order that identifies its vectors.
abbrev pub cleaned : ℕ → Tables → Tables
cleaned f t = effect (delete_nodes f) (effect (delete_pass_rows f) (effect (delete_vectors f) t))

-- What INSERT INTO files ... ON CONFLICT(path) DO UPDATE puts in the row `id`, at the time `now`.
abbrev pub seen_row : ℕ → Bytes → ℕ → SeenFile → FilesRow
seen_row id parent now s = record {
  row = record { id = id; path = s.path; size = s.size; mime = s.mime; content_class = s.class };
  sha256 = s.sha256;
  mtime = s.mtime;
  parent_dir = parent;
  last_seen = now;
  deleted = false;
}

-- The trigger of migrations/0002_invalidate_on_sha256.sql runs before the update.
abbrev pub rewritten : ℕ → FilesRow → ℕ → SeenFile → Tables → Tables
rewritten id old now s t =
    with_file id (seen_row id old.parent_dir now s)
      (if bytes_eq s.sha256 old.sha256 then t else cleaned id t)
