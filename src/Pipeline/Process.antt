-- ===== src/Pipeline/Process.antt =====
-- `processOneFile`, `runPerFile` and `recordFailure` of internal/v3/pipeline/runner.go.
use Prim.Native.String.{String}
use foldermcp.Base.{ℕ, ◌+◌, Bool, List, [], ◌∷◌, some, if◌then◌else◌}
use foldermcp.Pipeline.Tables.{Pass, structural, failed as failure, FileRow, upsert_pass}
use foldermcp.Pipeline.Engine.{Sql, done, error, Engine}
use foldermcp.Pipeline.Tx.{Outcome, ok, failed, panicked, PendingChunk, Tx}
use foldermcp.Pipeline.Runner.{Env, run_body}

-- `checks` counts the calls of `ctx.Err()`, which `cancelled` answers by their number.
pub record Runner (Db : Type 0) : Type 0 where
  pub db : Db
  pub current_pass : Pass
  pub embed_buf : List PendingChunk
  pub failed_files : ℕ
  pub checks : ℕ

module _ (E : Engine) (env : Env) (cancelled : ℕ → Bool) where
  open E use {Db, begin, exec, commit, load_file}

  -- What the transaction leaves in the runner, whether it commits or not.
  abbrev pub left : Runner Db → Tx Db → Runner Db
  left r s = record r { current_pass = s.current_pass; embed_buf = s.embed_buf }

  abbrev pub committed : Runner Db → Sql Db → Outcome (Unit {0}) × Runner Db
  committed r (error e) = (failed (e ∷ []), r)
  committed r (done db) = (ok tt, record r { db = db })

  -- The deferred function: rollback keeps the database of before.
  abbrev pub settle_tx : Runner Db → Outcome Db × Tx Db → Outcome (Unit {0}) × Runner Db
  settle_tx r (ok _, s) = committed (left r s) (commit s.db)
  settle_tx r (failed e, s) = (failed e, left r s)
  settle_tx r (panicked e, s) = (panicked e, left r s)

  abbrev pub in_tx : FileRow → Runner Db → Sql Db → Outcome (Unit {0}) × Runner Db
  in_tx f r (error e) = (failed (e ∷ []), r)
  in_tx f r (done tx) = settle_tx r (
      run_body E env f (record { db = tx; current_pass = r.current_pass; embed_buf = r.embed_buf }))

  unfoldable pub run_per_file : FileRow → Runner Db → Outcome (Unit {0}) × Runner Db
  run_per_file f r = in_tx f (record r { embed_buf = [] }) (begin r.db)

  abbrev pub recorded : Runner Db → Sql Db → Runner Db
  recorded r (error e) = r
  recorded r (done db) = record r { db = db }

  unfoldable pub record_failure : ℕ → Pass → List String → Runner Db → Runner Db
  record_failure f p message r =
      recorded (record r { failed_files = r.failed_files + 1 })
        (exec r.db (upsert_pass f p failure (some message)))

  abbrev pub checked : Runner Db → Runner Db
  checked r = record r { checks = r.checks + 1 }

  -- An error is not the file's once the run is cancelled.
  abbrev pub unless_cancelled : ℕ → Pass → List String → Runner Db → Runner Db
  unless_cancelled f p message r =
      if cancelled r.checks then checked r else record_failure f p message (checked r)

  abbrev pub after_file : ℕ → Outcome (Unit {0}) × Runner Db → Runner Db
  after_file f (ok _, r) = r
  after_file f (failed e, r) = unless_cancelled f r.current_pass e r
  after_file f (panicked e, r) = record_failure f r.current_pass ("panic" ∷ e) r

  abbrev pub loaded : ℕ → Runner Db → Sql FileRow → Runner Db
  loaded f r (error e) = unless_cancelled f structural ("load file row" ∷ e ∷ []) r
  loaded f r (done row) = after_file f (run_per_file row r)

  unfoldable pub process_one_file : ℕ → Runner Db → Runner Db
  unfolding run_per_file record_failure
  process_one_file f r = loaded f (record r { current_pass = structural }) (load_file r.db f)
