-- ===== src/Pipeline/Sound/Whole.antt =====
-- The run as a whole.
use Prim.Native.String.{String}
use foldermcp.Base.{
  ℕ, ◌<◌, ◌≡◌, refl, ap, inl, inr, Bool, Bool-cases, List, [], ◌∷◌, Option, none, some,
  Option-cases, length, arith,
}
use mathlib.Core.Path.{subst}
use mathlib.Core.Bool.{false≢true}
use mathlib.Core.Option.{none-ne-some}
use mathlib.Core.List.{Memᴰ}
use foldermcp.Pipeline.Tables.{FilesRow, effect, mark_deleted, put_fingerprint, Fingerprint}
use foldermcp.Pipeline.Engine.{Engine, Sql, done, error, is_done, from_done}
use foldermcp.Pipeline.Tx.{Outcome, ok, failed, panicked}
use foldermcp.Pipeline.Runner.{Env}
use foldermcp.Walker.Walk.{Disk, Walking}
use foldermcp.Pipeline.Sound.Walked.{walk-Sound}
use foldermcp.Pipeline.Process.{Runner}
use foldermcp.Pipeline.Fingerprint.{
  ensure_fingerprint, writer_fingerprint, check_fingerprint, if_checked, written,
}
use foldermcp.Pipeline.Run.{
  fatal, Result, prepared, initialised, walk_options, walk_root, walked, main_loop, run_prepared,
  run, same_config, effective_config,
}
use foldermcp.Chunker.Prose.{default_config}
use foldermcp.Pipeline.Sound.{IsSound}
use foldermcp.Pipeline.Sound.Loop.{Ended, Ended-other, run_loop-Ended}

module _ (E : Engine) (env : Env) (cancelled : ℕ → Bool) (known : List ℕ) where
  open E use {Db, tables}
  open env use {embed_query}

  -- Sound tables, all of whose files are in the list.
  abbrev Prepared : Db → Type 0
  Prepared db =
      IsSound embed_query (tables db)
      × ((g : ℕ) (x : FilesRow) → (tables db).file g ≡ some x → Memᴰ g known)

  fatal-Ended :
      (what e : String) (r : Runner Db)
      → IsSound embed_query (tables r.db)
      → Ended E env.embed_query (fatal (what ∷ e ∷ []), [], r)
  fatal-Ended what e r s = Ended-other E env.embed_query (fatal (what ∷ e ∷ [])) [] r refl refl s tt

  -- A preparation that keeps what is prepared, and what follows.
  prepared-Ended :
      (what : String) (r : Runner Db) (x : Sql Db) (next : Runner Db → Result Db)
      → IsSound embed_query (tables r.db)
      → ((db : Db) → x ≡ done db → Prepared db)
      → ((q : Runner Db) → Prepared q.db → Ended E env.embed_query (next q))
      → Ended E env.embed_query (prepared E cancelled what r x next)
  prepared-Ended what r (error e) next s h k = fatal-Ended what e r s
  prepared-Ended what r (done db) next s h k = k (record r { db = db }) (h db refl)

  mark_deleted-Prepared :
      (start : ℕ) (db after : Db)
      → E.exec db (mark_deleted start) ≡ done after
      → Prepared db
      → Prepared after
  mark_deleted-Prepared start db after e (s, all) =
      rw (E.exec_effect db after (mark_deleted start) e) (sound, files)
    where
      sound : IsSound embed_query (effect (mark_deleted start) (tables db))
      sound = record {
        intact = record {
          node_of_chunk = s.intact.node_of_chunk;
          chunk_of_vector = s.intact.chunk_of_vector;
        };
        embedded = s.embedded;
      }

      files :
          (g : ℕ) (x : FilesRow)
          → (effect (mark_deleted start) (tables db)).file g ≡ some x
          → Memᴰ g known
      files g x h = elim (Option-cases ((tables db).file g)) [
        | inl missing ↦ absurd (none-ne-some x (rw missing at h))
        | inr (y, at) ↦ all g y at
      ]

  put_fingerprint-Prepared :
      (fp : Fingerprint) (db after : Db)
      → E.exec db (put_fingerprint fp) ≡ done after
      → Prepared db
      → Prepared after
  put_fingerprint-Prepared fp db after e (s, all) =
      rw (E.exec_effect db after (put_fingerprint fp) e) (
        record {
          intact = record {
            node_of_chunk = s.intact.node_of_chunk;
            chunk_of_vector = s.intact.chunk_of_vector;
          };
          embedded = s.embedded;
        },
        all,
      )

  ensure_fingerprint-Prepared :
      (fp : Fingerprint) (db after : Db)
      → ensure_fingerprint E db fp ≡ done after
      → Prepared db
      → Prepared after
  unfolding ensure_fingerprint
  ensure_fingerprint-Prepared fp db after e p = checks (check_fingerprint E db fp) e
    where
      reads : (x : Sql (Option Fingerprint)) → written E db fp x ≡ done after → Prepared after
      reads (error m) h = absurd (false≢true (ap is_done h))
      reads (done none) h = put_fingerprint-Prepared fp db after h p
      reads (done (some got)) h = subst Prepared (ap (from_done db) h) p

      checks : (x : Sql (Unit {0})) → if_checked E db fp x ≡ done after → Prepared after
      checks (error m) h = absurd (false≢true (ap is_done h))
      checks (done _) h = reads (E.read_fingerprint db) h

  main_loop-Ended :
      (fuel : ℕ) (r : Runner Db)
      → length known < fuel
      → Prepared r.db
      → Ended E env.embed_query (main_loop E cancelled fuel env r)
  main_loop-Ended fuel r enough (s, all) =
      run_loop-Ended E env cancelled (tables r.db) known all fuel [] (record r { failed_files = 0 })
        (s, (λ g. refl)) tt tt (omega (arith, enough))

  initialised-Ended :
      (r : Runner Db) (x : Sql (Unit {0})) (next : Runner Db → Result Db)
      → Prepared r.db
      → ((q : Runner Db) → Prepared q.db → Ended E env.embed_query (next q))
      → Ended E env.embed_query (initialised E cancelled r x next)
  initialised-Ended r (error e) next p k = fatal-Ended "runner init: embedder" e r p.0
  initialised-Ended r (done _) next p k = k r p

  walked-Ended :
      (r : Runner Db) (out : Outcome (Unit {0}) × Walking Db) (next : Runner Db → Result Db)
      → Prepared out.1.db
      → ((q : Runner Db) → Prepared q.db → Ended E env.embed_query (next q))
      → Ended E env.embed_query (walked E cancelled r out next)
  walked-Ended r (ok _, w) next p k = k (record r { db = w.db; checks = w.checks }) p
  walked-Ended r (failed e, w) next p k = Ended-other E env.embed_query _ [] _ refl refl p.0 tt
  walked-Ended r (panicked e, w) next p k = Ended-other E env.embed_query _ [] _ refl refl p.0 tt

  run_prepared-Ended :
      (disk : Disk) (init : Sql (Unit {0})) (start : ℕ) (next : Runner Db → Result Db)
      (r : Runner Db)
      → Prepared (walk_root E cancelled disk r).1.db
      → ((q : Runner Db) → Prepared q.db → Ended E env.embed_query (next q))
      → Ended E env.embed_query (run_prepared E cancelled disk init start next r)
  unfolding run_prepared
  run_prepared-Ended disk init start next r p k =
      walked-Ended r (walk_root E cancelled disk r) _ p (λ r1 p1.
        prepared-Ended "runner: deletion reconciliation" r1 (E.exec r1.db (mark_deleted start)) _
          p1.0 (λ db e. mark_deleted-Prepared start r1.db db e p1)
          (λ r2 p2.
            prepared-Ended "runner init: fingerprint" r2
              (ensure_fingerprint E r2.db writer_fingerprint) _ p2.0
              (λ db e. ensure_fingerprint-Prepared writer_fingerprint r2.db db e p2)
              (λ r3 p3. initialised-Ended r3 init next p3 k)))

-- From sound tables, with fuel for more files than there are behind the walk, a run ends for another
-- reason than fuel with sound tables, attempts no file twice, and where it is complete every file that is
-- still pending was attempted.
pub run-Ended :
    (E : Engine) (env : Env) (cancelled : ℕ → Bool) (known : List ℕ) (disk : Disk)
    (init : Sql (Unit {0})) (start fuel : ℕ) (r : Runner E.Db)
    → IsSound env.embed_query (E.tables r.db)
    → ((g : ℕ) (x : FilesRow)
        → (E.tables (walk_root E cancelled disk r).1.db).file g ≡ some x
        → Memᴰ g known)
    → length known < fuel
    → Ended E env.embed_query (run E cancelled disk init start fuel env r)
unfolding run
run-Ended E env cancelled known disk init start fuel r s files enough =
    elim (Bool-cases (same_config (effective_config env.cfg) default_config)) [
      | inl e ↦ rw e (
          run_prepared-Ended E env cancelled known disk init start _ r
            (walk-Sound E env.embed_query disk cancelled (walk_options E cancelled) _ s, files)
            (λ q p.
              main_loop-Ended E (record env { cfg = effective_config env.cfg }) cancelled known fuel
                q enough p))
      | inr e ↦ rw e (Ended-other E env.embed_query _ [] r refl refl s tt)
    ]
