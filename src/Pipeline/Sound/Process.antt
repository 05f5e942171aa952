-- ===== src/Pipeline/Sound/Process.antt =====
-- A file's transaction is all or nothing, and what is sound stays so.
use Prim.Native.String.{String}
use foldermcp.Base.{
  ℕ, ◌+◌, ◌≡◌, refl, sym, ap, inl, inr, Bool, true, false, Bool-cases, ◌&&◌, ◌==◌, List, [], ◌∷◌,
  some, Bytes,
}
use mathlib.Core.Path.{subst}
use mathlib.Core.Bool.{false≢true}
use mathlib.Core.Option.{some-injective}
use foldermcp.Pipeline.Tables.{
  Pass, embeddings, structural, Status, finished, failed as failure, PassRow, FileRow, Tables,
  same_pass, row_of, effect, upsert_pass,
}
use foldermcp.Pipeline.Engine.{Engine, Sql, done, error}
use foldermcp.Pipeline.Tx.{Outcome, ok, failed, panicked, Tx, Returns, Returns-imp}
use foldermcp.Pipeline.Runner.{Env, run_body}
use foldermcp.Pipeline.Process.{
  Runner, committed, settle_tx, left, in_tx, run_per_file, recorded, record_failure, checked,
  unless_cancelled, after_file, loaded, process_one_file,
}
use foldermcp.Pipeline.Sound.{IsIntact, IsSound, Frame, Working}
use foldermcp.Pipeline.Sound.Effects.{Working-IsSound, Frame-refl, Frame-upsert_pass}
use foldermcp.Pipeline.Sound.File.{run_body-At}

abbrev is_finished : Status → Bool
is_finished finished = true
is_finished _ = false

-- A row that says that a file failed makes none finished.
IsSound-failure :
    {embed_query : Bytes → Sql Bytes} {t : Tables} (f : ℕ) (p : Pass) (m : List String)
    → IsSound embed_query t
    → IsSound embed_query (effect (upsert_pass f p failure (some m)) t)
IsSound-failure {embed_query} {t} f p m s = record {
  intact = record {
    node_of_chunk = s.intact.node_of_chunk;
    chunk_of_vector = s.intact.chunk_of_vector;
  };
  embedded = λ g c r n at is. elim (Bool-cases (g == f && same_pass embeddings p)) [
    | inl e ↦ absurd (
        false≢true (
          ap (λ (x : PassRow). is_finished x.status)
            (some-injective (row_of failure (some m)) (row_of finished n) (rw e at at))))
    | inr e ↦ s.embedded g c r n (rw e at at) is
  ];
}

module _ (E : Engine) (env : Env) (cancelled : ℕ → Bool) where
  open E use {Db, tables}
  open env use {embed_query}

  -- Committed, all of the file's rows are there; failed or panicked, the tables are those of before.
  abbrev pub IsAtomic : ℕ → Tables → Outcome (Unit {0}) × Runner Db → Type 0
  IsAtomic f before (ok _, r) = Working embed_query f before [] (tables r.db)
  IsAtomic f before (failed e, r) = tables r.db ≡ before
  IsAtomic f before (panicked e, r) = tables r.db ≡ before

  settle_tx-IsAtomic :
      (f : ℕ) (r : Runner Db) (out : Outcome Db × Tx Db)
      → Returns (λ _ s. Working embed_query f (tables r.db) [] (tables s.db)) out
      → IsAtomic f (tables r.db) (settle_tx E env cancelled r out)
  settle_tx-IsAtomic f r (ok _, s) w = go (E.commit s.db) refl
    where
      go :
          (c : Sql Db)
          → E.commit s.db ≡ c
          → IsAtomic f (tables r.db) (committed E env cancelled (left E env cancelled r s) c)
      go (error e) h = refl
      go (done db) h =
          subst (λ t. Working embed_query f (tables r.db) [] t) (sym (E.commit_same s.db db h)) w
  settle_tx-IsAtomic f r (failed e, s) w = refl
  settle_tx-IsAtomic f r (panicked e, s) w = refl

  -- From intact tables a file's transaction either commits, and then the file's chunks all have the
  -- vectors of their texts and no other file's rows have changed, or fails or panics, and then the tables
  -- are those of before.
  pub run_per_file-IsAtomic :
      (row : FileRow) (r : Runner Db)
      → IsIntact (tables r.db)
      → IsAtomic row.id (tables r.db) (run_per_file E env cancelled row r)
  unfolding run_per_file
  run_per_file-IsAtomic row r intact = go (E.begin r.db) refl
    where
      go :
          (b : Sql Db)
          → E.begin r.db ≡ b
          → IsAtomic row.id
              (tables r.db)
              (in_tx E env cancelled row (record r { embed_buf = [] }) b)
      go (error e) h = refl
      go (done tx) h =
          settle_tx-IsAtomic row.id (record r { embed_buf = [] })
            (run_body E env row (record { db = tx; current_pass = r.current_pass; embed_buf = [] }))
            (Returns-imp
              {P = λ _ s.
                (s.embed_buf ≡ []) × Working embed_query row.id (tables r.db) [] (tables s.db)}
              _ (λ _ s w. w.1)
              (run_body-At E env row (tables r.db)
                (record { db = tx; current_pass = r.current_pass; embed_buf = [] }) refl
                (E.begin_same r.db tx h) intact))

  -- Sound, and changed at most in the rows of the file.
  abbrev pub Kept : ℕ → Tables → Runner Db → Type 0
  Kept f before r = IsSound embed_query (tables r.db) × Frame f before (tables r.db)

  record_failure-Kept :
      (f : ℕ) (before : Tables) (p : Pass) (m : List String) (r : Runner Db)
      → Kept f before r
      → Kept f before (record_failure E env cancelled f p m r)
  unfolding record_failure
  record_failure-Kept f before p m r (s, k) =
      go (E.exec r.db (upsert_pass f p failure (some m))) refl
    where
      go :
          (x : Sql Db)
          → E.exec r.db (upsert_pass f p failure (some m)) ≡ x
          → Kept f before
              (recorded E env cancelled (record r { failed_files = r.failed_files + 1 }) x)
      go (error e) h = (s, k)
      go (done db) h =
          rw (E.exec_effect r.db db (upsert_pass f p failure (some m)) h)
            (IsSound-failure f p m s, Frame-upsert_pass k p failure (some m))

  unless_cancelled-Kept :
      (f : ℕ) (before : Tables) (p : Pass) (m : List String) (r : Runner Db)
      → Kept f before r
      → Kept f before (unless_cancelled E env cancelled f p m r)
  unless_cancelled-Kept f before p m r k = elim (Bool-cases (cancelled r.checks)) [
    | inl e ↦ rw e k
    | inr e ↦ rw e (record_failure-Kept f before p m (checked E env cancelled r) k)
  ]

  after_file-Kept :
      (f : ℕ) (before : Tables) (out : Outcome (Unit {0}) × Runner Db)
      → IsSound embed_query before
      → IsAtomic f before out
      → Kept f before (after_file E env cancelled f out)
  after_file-Kept f before (ok _, r) s w = (Working-IsSound s w, w.frame)
  after_file-Kept f before (failed e, r) s same =
      unless_cancelled-Kept f before r.current_pass e r (rw same (s, Frame-refl f before))
  after_file-Kept f before (panicked e, r) s same =
      record_failure-Kept f before r.current_pass ("panic" ∷ e) r (rw same (s, Frame-refl f before))

  -- Processing a file, whether it succeeds, fails, panics or is cancelled, keeps the tables sound: chunks
  -- have nodes, vectors have chunks, and a file whose embeddings are done has the vectors of all its
  -- chunks; and the rows of the other files stay.
  pub process_one_file-Kept :
      (f : ℕ) (r : Runner Db)
      → IsSound embed_query (tables r.db)
      → Kept f (tables r.db) (process_one_file E env cancelled f r)
  unfolding process_one_file
  process_one_file-Kept f r s = go (E.load_file r.db f) refl
    where
      go :
          (x : Sql FileRow)
          → E.load_file r.db f ≡ x
          → Kept f
              (tables r.db)
              (loaded E env cancelled f (record r { current_pass = structural }) x)
      go (error e) h =
          unless_cancelled-Kept f (tables r.db) structural ("load file row" ∷ e ∷ [])
            (record r { current_pass = structural }) (s, Frame-refl f (tables r.db))
      go (done row) h =
          after_file-Kept f (tables r.db)
            (run_per_file E env cancelled row (record r { current_pass = structural })) s
            (subst
              (λ g.
                IsAtomic g (tables r.db)
                  (run_per_file E env cancelled row (record r { current_pass = structural })))
              (E.load_file_row r.db f row h).1
              (run_per_file-IsAtomic row (record r { current_pass = structural }) s.intact))
