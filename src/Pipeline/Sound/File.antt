-- ===== src/Pipeline/Sound/File.antt =====
-- The transaction of a file as a whole.
use foldermcp.Base.{
  ◌≡◌, ap, ◌∙◌, Bool, true, false, List, [], ◌∷◌, none, some, Bytes, if◌then◌else◌,
}
use foldermcp.Pipeline.Tables.{
  structural, FileRow, Tables, effect, cleaned, delete_vectors, delete_pass_rows, delete_nodes,
}
use foldermcp.Pipeline.Engine.{Engine}
use foldermcp.Pipeline.Tx.{
  Outcome, PendingChunk, Tx, raise, ◌>>◌, Returns, Returns-wrap, Returns-bind,
}
use foldermcp.Pipeline.Runner.{
  Env, skip_all, set_pass, read_file_content, index_file, clean_slate, is_other_class,
  is_binary_document, process_text, process_read, process_content, run_body,
}
use foldermcp.Pipeline.Sound.{IsIntact}
use foldermcp.Pipeline.Sound.Clean.{cleaned-Working}
use foldermcp.Pipeline.Sound.Steps.{
  Returns-raise, Returns-statement, At, skip_all-At, Structured, run_structural-At,
}
use foldermcp.Pipeline.Sound.Chunks.{run_chunker-At}
use foldermcp.Pipeline.Sound.Embeds.{embed_chunks-At}
use foldermcp.Walker.Classes.{is_binary_content}

module _ (E : Engine) (env : Env) (row : FileRow) (before : Tables) where
  open E use {Db, tables}

  abbrev AtOf : List PendingChunk → List PendingChunk → Tx Db → Type 0
  AtOf = At E env row before

  abbrev Ready : Db → Tx Db → Type 0
  Ready _ s = AtOf [] [] s

  index_file-At :
      (content : Bytes) (s : Tx Db) → AtOf [] [] s → Returns Ready (index_file E env row content s)
  unfolding index_file
  index_file-At content s h =
      Returns-bind (Structured E env row before [] []) Ready _ _ s
        (run_structural-At E env row before content [] [] s h)
        (λ st s1 h1.
          Returns-bind (λ chunks s2. AtOf [] chunks s2) Ready _ _ s1
            (Returns-bind (λ _ s2. Structured E env row before [] [] st s2)
              (λ chunks s2. AtOf [] chunks s2) _ _ s1 h1
              (λ _ s2 h2. run_chunker-At E env row before content st [] s2 h2))
            (λ chunks s3 h3.
              Returns-bind (λ _ s4. AtOf [] chunks s4) Ready _ _ s3 h3
                (λ _ s4 h4. embed_chunks-At E env row before chunks s4 h4)))

  Returns-if :
      (b : Bool) (m n : Tx Db → Outcome Db × Tx Db) (s : Tx Db)
      → Returns Ready (m s)
      → Returns Ready (n s)
      → Returns Ready ((if b then m else n) s)
  Returns-if true m n s h k = h
  Returns-if false m n s h k = k

  process_text-At :
      (content : Bytes) (s : Tx Db)
      → AtOf [] [] s
      → Returns Ready (process_text E env row content s)
  unfolding process_text
  process_text-At content s h =
      Returns-if (is_binary_content content)
        (skip_all E env row.id (some ("binary_content_detected" ∷ [])))
        (index_file E env row content) s (skip_all-At E env row before _ [] [] s h)
        (index_file-At content s h)

  process_read-At : (s : Tx Db) → AtOf [] [] s → Returns Ready (process_read E env row s)
  unfolding process_read
  process_read-At s h =
      Returns-bind (λ _ s2. AtOf [] [] s2) Ready
        (set_pass E env structural >> raise (read_file_content E env row.path row.size))
        (process_text E env row) s
        (Returns-bind (λ _ s1. AtOf [] [] s1) (λ _ s2. AtOf [] [] s2) (set_pass E env structural)
          (λ _. raise (read_file_content E env row.path row.size)) s h
          (λ _ s1 h1. Returns-raise (λ _ s2. AtOf [] [] s2) _ s1 (λ a e. h1)))
        (λ content s2 h2. process_text-At content s2 h2)

  process_content-At : (s : Tx Db) → AtOf [] [] s → Returns Ready (process_content E env row s)
  unfolding process_content
  process_content-At s h =
      Returns-if (is_other_class E env row) (skip_all E env row.id none)
        (if is_binary_document E env row
          then skip_all E env row.id (some ("binary_document_pending_m2" ∷ []))
          else process_read E env row)
        s (skip_all-At E env row before none [] [] s h)
        (Returns-if (is_binary_document E env row)
          (skip_all E env row.id (some ("binary_document_pending_m2" ∷ [])))
          (process_read E env row) s (skip_all-At E env row before _ [] [] s h)
          (process_read-At s h))

  clean_slate-At :
      (s : Tx Db)
      → s.embed_buf ≡ []
      → tables s.db ≡ before
      → IsIntact before
      → Returns Ready (clean_slate E env row.id s)
  unfolding clean_slate
  clean_slate-At s empty same intact =
      Returns-bind (λ _ s2. Cleared2 s2) Ready _ _ s
        (Returns-bind (λ _ s1. Cleared1 s1) (λ _ s2. Cleared2 s2) _ _ s
          (Returns-wrap (λ _ s1. Cleared1 s1) _ _ s
            (Returns-statement E (λ _ s1. Cleared1 s1) (delete_vectors row.id) s
              (λ db e. (empty, e ∙ ap (effect (delete_vectors row.id)) same))))
          (λ _ s1 (b, t1).
            Returns-wrap (λ _ s2. Cleared2 s2) _ _ s1
              (Returns-statement E (λ _ s2. Cleared2 s2) (delete_pass_rows row.id) s1
                (λ db e. (b, e ∙ ap (effect (delete_pass_rows row.id)) t1)))))
        (λ _ s2 (b, t2). Returns-wrap Ready _ _ s2 (
          Returns-statement E Ready (delete_nodes row.id) s2 (λ db e.
            let is : tables db ≡ cleaned row.id before = e ∙ ap (effect (delete_nodes row.id)) t2 in
            rw is (b, cleaned-Working row.id before intact env.embed_query))))
    where
      Cleared1 : Tx Db → Type 0
      Cleared1 s1 = (s1.embed_buf ≡ []) × (tables s1.db ≡ effect (delete_vectors row.id) before)

      Cleared2 : Tx Db → Type 0
      Cleared2 s2 =
          (s2.embed_buf ≡ [])
          × (tables s2.db
              ≡ effect (delete_pass_rows row.id) (effect (delete_vectors row.id) before))

  pub run_body-At :
      (s : Tx Db)
      → s.embed_buf ≡ []
      → tables s.db ≡ before
      → IsIntact before
      → Returns Ready (run_body E env row s)
  unfolding run_body
  run_body-At s empty same intact =
      Returns-bind Ready Ready _ _ s (clean_slate-At s empty same intact)
        (λ _ s1 h1. process_content-At s1 h1)
