-- ===== src/Pipeline/Runner.antt =====
-- `runPerFile` of internal/v3/pipeline/runner.go and what it calls, inside the transaction; and
-- `WriteBatch` of internal/v3/embed/writer.go. The properties of nodes are left out, and of the
-- messages the numbers.
use Prim.Native.String.{String}
use text.Mathlib.Text.{◌==◌ as str_eq}
use foldermcp.Base.{
  ℕ, ◌*◌, ◌-◌, Bool, not, ◌&&◌, List, [], ◌∷◌, ◌++◌, Option, none, some, Bytes, codes, bytes_eq,
  map, length, ltb, leb, ◌==◌, if◌then◌else◌,
}
use foldermcp.Base.Int.{ℤ, pos, negsuc}
use foldermcp.Walker.Classes.{lower_ext, is_binary_document_ext, is_binary_content}
use foldermcp.Chunker.Prose.{ProseChunk, Config, chunk_prose}
use foldermcp.Chunker.Code.{Symbol, CodeChunk, chunk_code}
use foldermcp.Pipeline.Tables.{
  Pass, structural, chunker, embeddings, Status, running, finished, skipped, FileRow, NodeRow,
  ChunkRow, delete_vectors, delete_pass_rows, delete_nodes, upsert_pass, put_vector,
}
use foldermcp.Pipeline.Engine.{Sql, done, error, Engine}
use foldermcp.Pipeline.Tx.{
  Outcome, ok, failed, panicked, PendingChunk, Tx, Exec, pure, raise, wrap, ◌>>=◌, ◌>>◌, call,
  statement,
}

pub record Extractor : Type 0 where
  pub language : String
  pub extract : Bytes → Outcome (List Symbol)

-- What a runner is given besides the database.
pub record Env : Type 0 where
  pub read_file : Bytes → Sql Bytes
  pub extractors : String → Option Extractor
  pub embed_query : Bytes → Sql Bytes
  pub count : Bytes → ℕ
  pub cfg : Config
  pub batch_size : ℕ

abbrev pub max_read_bytes : ℕ
max_read_bytes = 32 * 1024 * 1024

abbrev pub default_embed_batch : ℕ
default_embed_batch = 32

abbrev pub dimension : ℕ
dimension = 384

-- `int8(b)` and `byte(v)`
unfoldable pub to_int8 : ℕ → ℤ
to_int8 b = if ltb b 128 then pos b else negsuc (255 - b)

unfoldable pub to_byte : ℤ → ℕ
to_byte (pos n) = n
to_byte (negsuc n) = 255 - n

abbrev pub bytes_to_int8 : Bytes → List ℤ
bytes_to_int8 b = map to_int8 b

abbrev pub same_symbol : Symbol → Symbol → Bool
same_symbol s q =
    bytes_eq s.kind q.kind
    && bytes_eq s.name q.name
    && s.byte_start == q.byte_start
    && s.byte_end == q.byte_end
    && s.line_start == q.line_start
    && s.line_end == q.line_end
    && bytes_eq s.signature q.signature

-- `symNodes[s]`: of two equal symbols the later one.
abbrev pub node_of : Symbol → List (Symbol × ℕ) → Option ℕ
node_of s [] = none
node_of s ((q, id) ∷ m) = elim (node_of s m) [
  | some n ↦ some n
  | none ↦ if same_symbol s q then some id else none
]

-- The loop of `filepath.Base` from the front: the element so far and the one before it.
abbrev base_from : Bytes → Bytes → Bytes → Bytes
base_from last [] [] = last
base_from last (c ∷ cur) [] = c ∷ cur
base_from last [] (c ∷ s) = if c == 47 then base_from last [] s else base_from last (c ∷ []) s
base_from last (d ∷ cur) (c ∷ s) =
    if c == 47 then base_from (d ∷ cur) [] s else base_from last (d ∷ (cur ++ c ∷ [])) s

abbrev pub file_base : Bytes → Bytes
file_base [] = codes "."
file_base (c ∷ s) = base_from (codes "/") [] (c ∷ s)

module _ (E : Engine) (env : Env) where
  open E use {Db, insert_node, insert_chunk}
  open env use {read_file, extractors, embed_query, count, cfg, batch_size}

  abbrev pub Step : Type 0 → Type 0
  Step A = Exec (Tx Db) A

  abbrev pub mark_status : ℕ → Pass → Status → Option (List String) → Step Db
  mark_status f p st msg = statement E (upsert_pass f p st msg)

  abbrev pub set_pass : Pass → Step (Unit {0})
  set_pass p s = (ok tt, record s { current_pass = p })

  unfoldable pub skip_all : ℕ → Option (List String) → Step Db
  skip_all f msg =
      mark_status f structural skipped msg
      >> mark_status f chunker skipped msg
      >> mark_status f embeddings skipped msg

  abbrev pub from_sql : {A : Type 0} → Sql A → Outcome A
  from_sql (done a) = ok a
  from_sql (error e) = failed (e ∷ [])

  abbrev pub read_file_content : Bytes → ℕ → Outcome Bytes
  read_file_content path size =
      if ltb max_read_bytes size then failed ("oversize" ∷ []) else from_sql (read_file path)

  abbrev pub extractor_for : FileRow → Option Extractor
  extractor_for f =
      if not (str_eq f.content_class "code")
      then none
      else if bytes_eq (lower_ext f.path) (codes ".go")
      then extractors "go"
      else if bytes_eq (lower_ext f.path) (codes ".py")
      then extractors "python"
      else none

  abbrev pub symbol_row : ℕ → Symbol → NodeRow
  symbol_row f s = record { file_id = f; node_type = "symbol"; name = s.name }

  abbrev pub file_row : FileRow → NodeRow
  file_row f = record { file_id = f.id; node_type = "file"; name = file_base f.path }

  abbrev pub new_node : NodeRow → Step ℕ
  new_node r = call E (λ (a : Db × ℕ). a.0) (λ db. insert_node db r) >>= λ a. pure a.1

  unfoldable pub insert_symbols : ℕ → List Symbol → Step (List (Symbol × ℕ))
  insert_symbols f [] = pure []
  insert_symbols f (s ∷ ss) = wrap "insert symbol node" (new_node (symbol_row f s)) >>= λ id.
      insert_symbols f ss >>= λ rest. pure ((s, id) ∷ rest)

  -- The nodes of the symbols, the node of the file (0 where there are symbols), the symbols.
  abbrev pub Structure : Type 0
  Structure = List (Symbol × ℕ) × ℕ × List Symbol

  unfoldable pub insert_structure : FileRow → List Symbol → Step Structure
  unfolding insert_symbols
  insert_structure f [] =
      wrap "insert file node" (new_node (file_row f)) >>= λ id. pure ([], id, [])
  insert_structure f (s ∷ ss) = insert_symbols f.id (s ∷ ss) >>= λ m. pure (m, 0, s ∷ ss)

  abbrev pub extracted : FileRow → Bytes → Step (List Symbol)
  extracted f content = elim (extractor_for f) as (λ x. Step (List Symbol)) [
    | none ↦ pure []
    | some ext ↦ wrap "extract" (raise (ext.extract content))
  ]

  unfoldable pub run_structural : FileRow → Bytes → Step Structure
  unfolding insert_structure
  run_structural f content =
      mark_status f.id structural running none >> extracted f content >>= λ syms.
      insert_structure f syms >>= λ out. mark_status f.id structural finished none >> pure out

  abbrev pub new_chunk : ChunkRow → Step PendingChunk
  new_chunk r =
      wrap "insert chunk" (call E (λ (a : Db × ℕ). a.0) (λ db. insert_chunk db r)) >>= λ a.
      pure (record { chunk_id = a.1; text = r.text })

  abbrev pub code_row : ℕ → CodeChunk → ChunkRow
  code_row n c = record {
    node_id = n;
    text = c.text;
    byte_start = c.byte_start;
    byte_end = c.byte_end;
    token_count = c.token_count;
    kind =
        if c.byte_start == c.symbol.byte_start && c.byte_end == c.symbol.byte_end
        then "code_ast"
        else "code_fallback";
    header = none;
  }

  abbrev pub header_of : Bytes → Option Bytes
  header_of [] = none
  header_of (c ∷ s) = some (c ∷ s)

  abbrev pub prose_row : ℕ → String → ProseChunk → ChunkRow
  prose_row n kind c = record {
    node_id = n;
    text = c.text;
    byte_start = c.byte_start;
    byte_end = c.byte_end;
    token_count = c.token_count;
    kind = kind;
    header = header_of c.header;
  }

  abbrev pub symbol_node : List (Symbol × ℕ) → CodeChunk → Step ℕ
  symbol_node m c = elim (node_of c.symbol m) as (λ x. Step ℕ) [
    | none ↦ raise (failed ("chunk for unknown symbol" ∷ []))
    | some n ↦ pure n
  ]

  unfoldable pub insert_code : List (Symbol × ℕ) → List CodeChunk → Step (List PendingChunk)
  insert_code m [] = pure []
  insert_code m (c ∷ cs) = symbol_node m c >>= λ n.
      new_chunk (code_row n c) >>= λ p. insert_code m cs >>= λ rest. pure (p ∷ rest)

  unfoldable pub insert_prose : ℕ → String → List ProseChunk → Step (List PendingChunk)
  insert_prose n kind [] = pure []
  insert_prose n kind (c ∷ cs) =
      new_chunk (prose_row n kind c) >>= λ p. insert_prose n kind cs >>= λ rest. pure (p ∷ rest)

  abbrev pub code_chunks : Option (List CodeChunk) → Outcome (List CodeChunk)
  code_chunks none = panicked ("slice bounds out of range" ∷ [])
  code_chunks (some cs) = ok cs

  unfoldable pub insert_chunks : FileRow → Bytes → Structure → Step (List PendingChunk)
  unfolding insert_code insert_prose
  insert_chunks f content (m, n, []) =
      insert_prose n (if str_eq f.content_class "code" then "code_fallback" else "prose")
        (chunk_prose cfg count content)
  insert_chunks f content (m, n, s ∷ ss) =
      raise (code_chunks (chunk_code content cfg count (s ∷ ss))) >>= λ cs. insert_code m cs

  unfoldable pub run_chunker : FileRow → Bytes → Structure → Step (List PendingChunk)
  unfolding insert_chunks
  run_chunker f content st =
      mark_status f.id chunker running none >> insert_chunks f content st >>= λ out.
      mark_status f.id chunker finished none >> pure out

  unfoldable pub embed_all : List PendingChunk → Step (List (ℕ × List ℤ))
  embed_all [] = pure []
  embed_all (c ∷ cs) = wrap "embed chunk" (raise (from_sql (embed_query c.text))) >>= λ vec.
      embed_all cs >>= λ rest. pure ((c.chunk_id, bytes_to_int8 vec) ∷ rest)

  abbrev pub checked_vector : List ℤ → Step (Unit {0})
  checked_vector v =
      if length v == dimension then pure tt else raise (failed ("vector len, want 384" ∷ []))

  unfoldable pub write_batch : List (ℕ × List ℤ) → Step (Unit {0})
  write_batch [] = pure tt
  write_batch ((c, v) ∷ ps) =
      checked_vector v >> statement E (put_vector c (map to_byte v)) >> write_batch ps

  abbrev pub set_buf : List PendingChunk → Step (Unit {0})
  set_buf b s = (ok tt, record s { embed_buf = b })

  unfoldable pub flush_chunks : List PendingChunk → Step (Unit {0})
  unfolding embed_all write_batch
  flush_chunks [] = pure tt
  flush_chunks (c ∷ cs) =
      embed_all (c ∷ cs) >>= λ pairs. wrap "write embed batch" (write_batch pairs) >> set_buf []

  unfoldable pub flush_embed_batch : Step (Unit {0})
  unfolding flush_chunks
  flush_embed_batch s = flush_chunks s.embed_buf s

  abbrev pub effective_batch : ℕ
  effective_batch = if ltb 0 batch_size then batch_size else default_embed_batch

  abbrev pub flush_if_full : Step (Unit {0})
  flush_if_full s =
      (if leb effective_batch (length s.embed_buf) then flush_embed_batch else pure tt) s

  abbrev pub push : PendingChunk → Step (Unit {0})
  push c s = (ok tt, record s { embed_buf = s.embed_buf ++ c ∷ [] })

  unfoldable pub push_all : List PendingChunk → Step (Unit {0})
  push_all [] = pure tt
  push_all (c ∷ cs) = push c >> flush_if_full >> push_all cs

  unfoldable pub embed_chunks : FileRow → List PendingChunk → Step Db
  unfolding push_all flush_embed_batch
  embed_chunks f chunks =
      mark_status f.id embeddings running none
      >> push_all chunks
      >> flush_embed_batch
      >> mark_status f.id embeddings finished none

  unfoldable pub index_file : FileRow → Bytes → Step Db
  unfolding run_structural run_chunker embed_chunks
  index_file f content = run_structural f content >>= λ st.
      set_pass chunker >> run_chunker f content st >>= λ chunks.
      set_pass embeddings >> embed_chunks f chunks

  -- The defensive deletes.
  unfoldable pub clean_slate : ℕ → Step Db
  clean_slate f =
      wrap "runner: defensive cleanup embeddings" (statement E (delete_vectors f))
      >> wrap "runner: defensive cleanup pipeline_state" (statement E (delete_pass_rows f))
      >> wrap "runner: defensive cleanup nodes" (statement E (delete_nodes f))

  -- Not an indexable class.
  abbrev pub is_other_class : FileRow → Bool
  is_other_class f = not (str_eq f.content_class "code") && not (str_eq f.content_class "document")

  abbrev pub is_binary_document : FileRow → Bool
  is_binary_document f = str_eq f.content_class "document" && is_binary_document_ext f.path

  unfoldable pub process_text : FileRow → Bytes → Step Db
  unfolding skip_all index_file
  process_text f content =
      if is_binary_content content
      then skip_all f.id (some ("binary_content_detected" ∷ []))
      else index_file f content

  unfoldable pub process_read : FileRow → Step Db
  unfolding process_text
  process_read f = set_pass structural >> raise (read_file_content f.path f.size) >>= λ content.
      process_text f content

  -- Behind the deletes.
  unfoldable pub process_content : FileRow → Step Db
  unfolding skip_all process_read
  process_content f =
      if is_other_class f
      then skip_all f.id none
      else if is_binary_document f
      then skip_all f.id (some ("binary_document_pending_m2" ∷ []))
      else process_read f

  unfoldable pub run_body : FileRow → Step Db
  unfolding clean_slate process_content
  run_body f = clean_slate f.id >> process_content f
