-- ===== src/Pipeline/Run.antt =====
-- `Run` of internal/v3/pipeline/runner.go: the guards, the preparation, and the loop over the pending
-- files. Logging is left out; what `Run` requires not to be nil is there.
use Prim.Native.String.{String}
use foldermcp.Base.{
  ℕ, zero, suc, ◌+◌, Bool, true, false, ◌&&◌, ◌==◌, List, [], ◌∷◌, length, any, if◌then◌else◌,
}
use foldermcp.Chunker.Prose.{Config, default_config}
use foldermcp.Pipeline.Tables.{embeddings, mark_deleted}
use foldermcp.Pipeline.Engine.{Sql, done, error, Engine, pending_files}
use foldermcp.Pipeline.Tx.{Outcome, ok, failed, panicked}
use foldermcp.Pipeline.Runner.{Env}
use foldermcp.Walker.Walk.{Disk, Options, Walking, walk}
use foldermcp.Pipeline.Fingerprint.{ensure_fingerprint, writer_fingerprint}
use foldermcp.Pipeline.Process.{Runner, process_one_file, checked}

abbrev pub pending_fetch_size : ℕ
pending_fetch_size = 100

pub data Ending : Type 0 where
  complete : Ending
  cancelled_run : Ending
  fatal : List String → Ending
  out_of_fuel : Ending

-- A turn of the loop, while its batch runs.
pub record Turn (Db : Type 0) : Type 0 where
  pub stopped : Bool
  pub progressed : Bool
  pub attempted : List ℕ
  pub runner : Runner Db

-- How the run ended, what it attempted, and the runner after it.
abbrev pub Result : Type 0 → Type 0
Result Db = Ending × List ℕ × Runner Db

abbrev pub was_attempted : ℕ → List ℕ → Bool
was_attempted f att = any (λ g. g == f) att

module _ (E : Engine) (env : Env) (cancelled : ℕ → Bool) where
  open E use {Db, exec}

  abbrev pub attempt : ℕ → Turn Db → Turn Db
  attempt f t =
      if cancelled t.runner.checks
      then record t { stopped = true; runner = checked E env cancelled t.runner }
      else (let r = process_one_file E env cancelled f (checked E env cancelled t.runner) in
          record t { stopped = cancelled r.checks; runner = checked E env cancelled r })

  abbrev pub visit : ℕ → Turn Db → Turn Db
  visit f t =
      if was_attempted f t.attempted
      then t
      else attempt f (record t { attempted = f ∷ t.attempted; progressed = true })

  unfoldable pub run_batch : List ℕ → Turn Db → Turn Db
  run_batch [] t = t
  run_batch (f ∷ fs) t =
      let next = visit f t in let rest = run_batch fs next in if next.stopped then next else rest

  abbrev pub fresh_turn : List ℕ → Runner Db → Turn Db
  fresh_turn att r = record { stopped = false; progressed = false; attempted = att; runner = r }

  abbrev pub after : (List ℕ → Runner Db → Result Db) → Turn Db → Result Db
  after next t =
      let rest = next t.attempted t.runner in
      if t.stopped
      then (cancelled_run, t.attempted, t.runner)
      else if t.progressed
      then rest
      else (complete, t.attempted, t.runner)

  abbrev pub fetched :
      (List ℕ → Runner Db → Result Db) → List ℕ → Runner Db → Sql (List ℕ) → Result Db
  fetched next att r (error e) = (fatal ("runner: pending files" ∷ e ∷ []), att, r)
  fetched next att r (done ids) = after next (run_batch ids (fresh_turn att r))

  unfoldable pub run_loop : ℕ → List ℕ → Runner Db → Result Db
  unfolding run_batch
  run_loop zero att r = (out_of_fuel, att, r)
  run_loop (suc fuel) att r =
      let rest = run_loop fuel in
      if cancelled r.checks
      then (cancelled_run, att, checked E env cancelled r)
      else fetched rest att (checked E env cancelled r)
          (pending_files E r.db embeddings (length att + pending_fetch_size))

-- Both `Cfg == (chunker.Config{})` and `Cfg != chunker.DefaultConfig()`.
abbrev pub same_config : Config → Config → Bool
same_config a b =
    a.target_tokens == b.target_tokens
    && a.min_tokens == b.min_tokens
    && a.max_tokens == b.max_tokens
    && a.overlap_toks == b.overlap_toks

abbrev pub zero_config : Config
zero_config = record { target_tokens = 0; min_tokens = 0; max_tokens = 0; overlap_toks = 0 }

abbrev pub effective_config : Config → Config
effective_config c = if same_config c zero_config then default_config else c

module _ (E : Engine) (cancelled : ℕ → Bool) where
  open E use {Db, exec}

  -- A preparation of the run: its error ends it.
  abbrev pub prepared : String → Runner Db → Sql Db → (Runner Db → Result Db) → Result Db
  prepared what r (error e) next = (fatal (what ∷ e ∷ []), [], r)
  prepared what r (done db) next = next (record r { db = db })

  abbrev pub initialised : Runner Db → Sql (Unit {0}) → (Runner Db → Result Db) → Result Db
  initialised r (error e) next = (fatal ("runner init: embedder" ∷ e ∷ []), [], r)
  initialised r (done _) next = next r

  abbrev pub main_loop : ℕ → Env → Runner Db → Result Db
  main_loop fuel env r = run_loop E env cancelled fuel [] (record r { failed_files = 0 })

  -- `walker.Options{Root: root}`
  abbrev pub walk_options : Options
  walk_options = record { ignore_globs = []; batch_size = 0 }

  abbrev pub walk_root : Disk → Runner Db → Outcome (Unit {0}) × Walking Db
  walk_root disk r =
      walk E disk cancelled walk_options
        (record { db = r.db; found = []; count = 0; checks = r.checks })

  -- The batches that were committed before an error stay.
  abbrev pub walked :
      Runner Db → Outcome (Unit {0}) × Walking Db → (Runner Db → Result Db) → Result Db
  walked r (ok _, w) next = next (record r { db = w.db; checks = w.checks })
  walked r (failed e, w) next =
      (fatal ("runner: walk" ∷ e), [], record r { db = w.db; checks = w.checks })
  walked r (panicked e, w) next =
      (fatal ("panic" ∷ e), [], record r { db = w.db; checks = w.checks })

  -- Behind the guards, at the time `start`.
  unfoldable pub run_prepared :
      Disk → Sql (Unit {0}) → ℕ → (Runner Db → Result Db) → Runner Db → Result Db
  run_prepared disk init start next r = walked r (walk_root disk r) (λ r1.
      prepared "runner: deletion reconciliation" r1 (exec r1.db (mark_deleted start)) (λ r2.
        prepared "runner init: fingerprint" r2 (ensure_fingerprint E r2.db writer_fingerprint)
          (λ r3. initialised r3 init next)))

  unfoldable pub run : Disk → Sql (Unit {0}) → ℕ → ℕ → Env → Runner Db → Result Db
  unfolding run_prepared
  run disk init start fuel env r =
      let cfg = effective_config env.cfg in
      if same_config cfg default_config
      then run_prepared disk init start (main_loop fuel (record env { cfg = cfg })) r
      else (fatal ("runner init: chunking config does not match fingerprint config" ∷ []), [], r)
