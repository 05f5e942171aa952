-- ===== src/Pipeline/Sound/Embeds.antt =====
-- The embeddings' pass inside the transaction of a file.
use foldermcp.Base.{
  ℕ, ◌≡◌, refl, sym, ap, ◌∙◌, Bool, true, false, ◌==◌, ==_iff, List, [], ◌∷◌, ◌++◌, map,
  append_assoc, length, none, Bytes, leb, if◌then◌else◌,
}
use mathlib.Core.Path.{subst}
use foldermcp.Base.Int.{ℤ}
use foldermcp.Pipeline.Tables.{embeddings, running, finished, FileRow, Tables, put_vector}
use foldermcp.Pipeline.Engine.{Engine, Sql, done, error}
use foldermcp.Pipeline.Tx.{
  failed, PendingChunk, Tx, pure, raise, Returns, Returns-imp, Returns-wrap, Returns-bind,
}
use foldermcp.Pipeline.Runner.{
  Env, to_byte, bytes_to_int8, dimension, from_sql, embed_all, checked_vector, write_batch,
  flush_chunks, flush_embed_batch, effective_batch, flush_if_full, push_all, embed_chunks,
}
use foldermcp.Pipeline.Sound.{Working}
use foldermcp.Pipeline.Sound.Effects.{Working-put_vector}
use foldermcp.Pipeline.Sound.Steps.{Returns-statement, At, status-At}

module _ (E : Engine) (env : Env) (row : FileRow) (before : Tables) where
  open E use {Db, tables}
  open env use {embed_query}

  abbrev AtOf : List PendingChunk → List PendingChunk → Tx Db → Type 0
  AtOf = At E env row before

  -- The pairs are the answers for the texts of the chunks.
  abbrev Answers : List PendingChunk → List (ℕ × List ℤ) → Type 0
  Answers [] [] = Unit
  Answers [] (_ ∷ _) = ⊥
  Answers (_ ∷ _) [] = ⊥
  Answers (p ∷ ps) ((c, v) ∷ qs) =
      (c ≡ p.chunk_id)
      × ((blob : Bytes) × (embed_query p.text ≡ done blob) × (v ≡ bytes_to_int8 blob))
      × Answers ps qs

  answer-At :
      (text : Bytes) (s : Tx Db)
      → Returns
          (λ vec s'. (s' ≡ s) × (embed_query text ≡ done vec))
          (raise (from_sql E env (embed_query text)) s)
  answer-At text s = go (embed_query text) refl
    where
      go :
          (r : Sql Bytes)
          → embed_query text ≡ r
          → Returns
              (λ vec s'. (s' ≡ s) × (embed_query text ≡ done vec))
              (raise (from_sql E env r) s)
      go (done a) e = (refl, e)
      go (error m) e = tt

  embed_all-Answers :
      (ps : List PendingChunk) (s : Tx Db)
      → Returns (λ qs s'. (s' ≡ s) × Answers ps qs) (embed_all E env ps s)
  unfolding embed_all
  embed_all-Answers [] s = (refl, tt)
  embed_all-Answers (p ∷ ps) s =
      Returns-bind (λ vec s1. (s1 ≡ s) × (embed_query p.text ≡ done vec))
        (λ qs s'. (s' ≡ s) × Answers (p ∷ ps) qs) _ _ s
        (Returns-wrap (λ vec s1. (s1 ≡ s) × (embed_query p.text ≡ done vec)) _ _ s
          (answer-At p.text s))
        (λ vec s1 (stays, is).
          Returns-bind (λ qs s2. (s2 ≡ s1) × Answers ps qs)
            (λ qs s'. (s' ≡ s) × Answers (p ∷ ps) qs) _ _ s1 (embed_all-Answers ps s1)
            (λ qs s2 (stays2, all). (stays2 ∙ stays, (refl, (vec, is, refl), all))))

  checked_vector-length :
      (v : List ℤ) (s : Tx Db)
      → Returns (λ _ s'. (s' ≡ s) × (length v ≡ dimension)) (checked_vector E env v s)
  checked_vector-length v s = go (length v == dimension) refl
    where
      go :
          (b : Bool)
          → (length v == dimension) ≡ b
          → Returns
              (λ _ s'. (s' ≡ s) × (length v ≡ dimension))
              ((if b then pure {A = Unit {0}} tt else raise (failed ("vector len, want 384" ∷ [])))
                s)
      go true e = (refl, (==_iff (length v) dimension).0 e)
      go false e = tt

  -- Each write takes a chunk off those that wait.
  write_batch-At :
      (ps rest : List PendingChunk) (qs : List (ℕ × List ℤ)) (buf : List PendingChunk) (s : Tx Db)
      → Answers ps qs
      → AtOf buf (ps ++ rest) s
      → Returns (λ _ s'. AtOf buf rest s') (write_batch E env qs s)
  unfolding write_batch
  write_batch-At [] rest [] buf s a h = h
  write_batch-At [] rest (q ∷ qs) buf s a h = absurd a
  write_batch-At (p ∷ ps) rest [] buf s a h = absurd a
  write_batch-At (p ∷ ps) rest ((c, v) ∷ qs) buf s (is, (blob, answer, vec), all) (b, w) =
      Returns-bind (λ _ s2. AtOf buf (ps ++ rest) s2) (λ _ s'. AtOf buf rest s') _ _ s
        (Returns-bind (λ _ s1. (s1 ≡ s) × (length v ≡ dimension)) (λ _ s2. AtOf buf (ps ++ rest) s2)
          _ _ s (checked_vector-length v s)
          (λ _ s1 (stays, size).
            Returns-statement E (λ _ s2. AtOf buf (ps ++ rest) s2) (put_vector c (map to_byte v)) s1
              (λ db e.
                rw (e, is, stays)
                  (
                    b,
                    Working-put_vector p (map to_byte v)
                        (blob, answer, ap length (sym vec) ∙ size, ap (map to_byte) vec) w,
                  ))))
        (λ _ s2 h2. write_batch-At ps rest qs buf s2 all h2)

  abbrev Flushed : List PendingChunk → Unit {0} → Tx Db → Type 0
  Flushed rest _ s = AtOf [] rest s

  flush_chunks-At :
      (buf rest : List PendingChunk) (s : Tx Db)
      → AtOf buf (buf ++ rest) s
      → Returns (Flushed rest) (flush_chunks E env buf s)
  unfolding flush_chunks
  flush_chunks-At [] rest s h = h
  flush_chunks-At (p ∷ ps) rest s h =
      Returns-bind (λ qs s1. (s1 ≡ s) × Answers (p ∷ ps) qs) (Flushed rest) _ _ s
        (embed_all-Answers (p ∷ ps) s)
        (λ qs s1 (stays, all).
          Returns-bind (λ _ s2. AtOf (p ∷ ps) rest s2) (Flushed rest) _ _ s1
            (Returns-wrap (λ _ s2. AtOf (p ∷ ps) rest s2) _ _ s1
              (write_batch-At (p ∷ ps) rest qs (p ∷ ps) s1 all (rw stays h)))
            (λ _ s2 h2. (refl, h2.1)))

  -- What is in the buffer and what is still to come wait.
  abbrev Buffered : List PendingChunk → Unit {0} → Tx Db → Type 0
  Buffered cs _ s = AtOf s.embed_buf (s.embed_buf ++ cs) s

  flush_embed_batch-At :
      (rest : List PendingChunk) (s : Tx Db)
      → Buffered rest tt s
      → Returns (Flushed rest) (flush_embed_batch E env s)
  unfolding flush_embed_batch
  flush_embed_batch-At rest s h = flush_chunks-At s.embed_buf rest s h

  Flushed-Buffered : (rest : List PendingChunk) (s : Tx Db) → Flushed rest tt s → Buffered rest tt s
  Flushed-Buffered rest s (b, w) =
      (refl, subst (λ buf. Working embed_query row.id before (buf ++ rest) (tables s.db)) (sym b) w)

  flush_if_full-At :
      (rest : List PendingChunk) (s : Tx Db)
      → Buffered rest tt s
      → Returns (Buffered rest) (flush_if_full E env s)
  flush_if_full-At rest s h = go (leb (effective_batch E env) (length s.embed_buf))
    where
      go : (b : Bool) → Returns (Buffered rest) ((if b then flush_embed_batch E env else pure tt) s)
      go true =
          Returns-imp (flush_embed_batch E env s) (λ _ s' h'. Flushed-Buffered rest s' h')
            (flush_embed_batch-At rest s h)
      go false = h

  push_all-At :
      (cs : List PendingChunk) (s : Tx Db)
      → Buffered cs tt s
      → Returns (Buffered []) (push_all E env cs s)
  unfolding push_all
  push_all-At [] s h = h
  push_all-At (c ∷ cs) s (b, w) =
      Returns-bind (Buffered cs) (Buffered []) _ _ s
        (Returns-bind (Buffered cs) (Buffered cs) _ _ s
          (
            refl,
            subst (λ ps. Working embed_query row.id before ps (tables s.db))
                (sym (append_assoc s.embed_buf (c ∷ []) cs)) w,
          )
          (λ _ s1 h1. flush_if_full-At cs s1 h1))
        (λ _ s2 h2. push_all-At cs s2 h2)

  pub embed_chunks-At :
      (cs : List PendingChunk) (s : Tx Db)
      → AtOf [] cs s
      → Returns (λ _ s'. AtOf [] [] s') (embed_chunks E env row cs s)
  unfolding embed_chunks
  embed_chunks-At cs s h =
      Returns-bind (Flushed []) (λ _ s'. AtOf [] [] s') _ _ s
        (Returns-bind (Buffered []) (Flushed []) _ _ s
          (Returns-bind (λ _ s1. AtOf [] cs s1) (Buffered []) _ _ s
            (status-At E env row before embeddings running none [] cs s h)
            (λ _ s1 h1. push_all-At cs s1 (Flushed-Buffered cs s1 h1)))
          (λ _ s2 h2. flush_embed_batch-At [] s2 h2))
        (λ _ s3 h3. status-At E env row before embeddings finished none [] [] s3 h3)
