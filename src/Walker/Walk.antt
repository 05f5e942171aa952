-- ===== src/Walker/Walk.antt =====
-- `Walk` of internal/v3/walker/walker.go, and hash.go. `filepath.WalkDir` is the recursion over the
-- entries of the disk, where an entry that cannot be read is one of its own.
use Prim.Native.String.{String}
use foldermcp.Base.{
  ℕ, ◌+◌, Bool, not, ◌&&◌, ◌||◌, List, [], ◌∷◌, ◌++◌, Option, none, some, Bytes, codes, bytes_eq,
  starts_with, any, length, leb, ◌==◌, if◌then◌else◌,
}
use foldermcp.Walker.Classes.{is_one_of, classify_file}
use foldermcp.Pipeline.Tables.{SeenFile}
use foldermcp.Pipeline.Engine.{Sql, done, error, Engine}
use foldermcp.Pipeline.Tx.{Outcome, ok, failed, Exec, pure, ◌>>◌}

pub record Stat : Type 0 where
  pub size : ℕ
  pub mtime : ℕ

mutual
  pub data Entry : Type 0 where
    unreadable : Entry
    -- The path, the name, and what `Info` says if it answers.
    file : Bytes → Bytes → Option Stat → Entry
    folder : Bytes → Entries → Entry

  pub data Entries : Type 0 where
    no_entries : Entries
    entry : Entry → Entries → Entries

-- What the walk asks of the operating system and of the standard library.
pub record Disk : Type 0 where
  pub root : Entry
  pub read : Bytes → Sql Bytes
  pub sha256 : Bytes → Bytes
  pub detect : Bytes → Bytes
  pub dir : Bytes → Bytes
  -- `filepath.Match`, where it fails false
  pub matches : Bytes → Bytes → Bool
  pub now : ℕ → ℕ

-- `Options`, the root being that of the disk.
pub record Options : Type 0 where
  pub ignore_globs : List Bytes
  pub batch_size : ℕ

-- The variables of a walk; `checks` counts the calls of `ctx.Err()`.
pub record Walking (Db : Type 0) : Type 0 where
  pub db : Db
  pub found : List SeenFile
  pub count : ℕ
  pub checks : ℕ

abbrev ignored_dirs : List Bytes
ignored_dirs =
    codes ".git"
    ∷ codes ".foldermcp"
    ∷ codes "node_modules"
    ∷ codes "__pycache__"
    ∷ codes ".venv"
    ∷ codes "venv"
    ∷ codes "target"
    ∷ codes "dist"
    ∷ codes "build"
    ∷ []

abbrev pub should_ignore_dir : Bytes → Bool
should_ignore_dir name = is_one_of name ignored_dirs

module _ (disk : Disk) where
  abbrev pub skip_file : Bytes → List Bytes → Bool
  skip_file name globs =
      any (λ g. disk.matches g name) globs
      || (starts_with name (codes ".") && not (bytes_eq name (codes ".env")))

  abbrev pub hash_file : Bytes → Sql Bytes
  hash_file path = elim (disk.read path) as (λ x. Sql Bytes) [
    | error e ↦ error e
    | done content ↦ done (disk.sha256 content)
  ]

  abbrev pub classified : Bytes → Sql (Bytes × String)
  classified path = elim (disk.read path) as (λ x. Sql (Bytes × String)) [
    | error e ↦ error e
    | done content ↦ done (classify_file disk.detect path content)
  ]

module _ (E : Engine) (disk : Disk) (cancelled : ℕ → Bool) (opts : Options) where
  open E use {Db, begin, commit, upsert_file}

  abbrev pub Visit : Type 0
  Visit = Exec (Walking Db) (Unit {0})

  unfoldable pub upsert_all : ℕ → List SeenFile → Db → Sql Db
  upsert_all now [] tx = done tx
  upsert_all now (f ∷ fs) tx = elim (upsert_file tx f now) as (λ x. Sql Db) [
    | error e ↦ error e
    | done next ↦ upsert_all now fs next
  ]

  abbrev pub flushed : Walking Db → Sql Db → Outcome (Unit {0}) × Walking Db
  flushed s (error e) = (failed (e ∷ []), s)
  flushed s (done db) = (ok tt, record s { db = db })

  abbrev pub upserted : Walking Db → Sql Db → Outcome (Unit {0}) × Walking Db
  upserted s (error e) = (failed (e ∷ []), s)
  upserted s (done tx) = flushed (record s { found = [] }) (commit tx)

  abbrev pub begun : Walking Db → Sql Db → Outcome (Unit {0}) × Walking Db
  begun s (error e) = (failed (e ∷ []), s)
  begun s (done tx) = upserted s (upsert_all (disk.now s.checks) s.found tx)

  unfoldable pub flush_found : Visit
  unfolding upsert_all
  flush_found s = if length s.found == 0 then (ok tt, s) else begun s (begin s.db)

  abbrev pub batch_limit : ℕ
  batch_limit = if opts.batch_size == 0 then 100 else opts.batch_size

  abbrev pub add_found : SeenFile → Visit
  add_found f s = (ok tt, record s { found = s.found ++ f ∷ []; count = s.count + 1 })

  abbrev pub flush_full : Visit
  flush_full s = (if leb batch_limit (length s.found) then flush_found else pure tt) s

  abbrev pub with_class : Bytes → Stat → Bytes → Sql (Bytes × String) → Visit
  with_class path st sum (error e) = pure tt
  with_class path st sum (done (mime, class)) =
      add_found (record {
        path = path;
        sha256 = sum;
        size = st.size;
        mtime = st.mtime;
        mime = mime;
        class = class;
        parent = disk.dir path;
      })
      >> flush_full

  abbrev pub with_hash : Bytes → Stat → Sql Bytes → Visit
  with_hash path st (error e) = pure tt
  with_hash path st (done sum) = with_class path st sum (classified disk path)

  abbrev pub with_info : Bytes → Option Stat → Visit
  with_info path none = pure tt
  with_info path (some st) = with_hash path st (hash_file disk path)

  unfoldable pub visit_file : Bytes → Bytes → Option Stat → Visit
  unfolding flush_found
  visit_file path name st =
      if skip_file disk name opts.ignore_globs then pure tt else with_info path st

  abbrev pub check_context : Visit
  check_context s = (
    (if cancelled s.checks then failed ("context canceled" ∷ []) else ok tt),
    record s { checks = s.checks + 1 },
  )

  unfoldable mutual
    unfolding visit_file

    pub walk_entry : Entry → Visit
    walk_entry unreadable = pure tt
    walk_entry (file path name st) = check_context >> visit_file path name st
    walk_entry (folder name es) =
        check_context >> (if should_ignore_dir name then pure tt else walk_entries es)

    pub walk_entries : Entries → Visit
    walk_entries no_entries = pure tt
    walk_entries (entry e es) = walk_entry e >> walk_entries es

  unfoldable pub walk : Visit
  unfolding walk_entry flush_found
  walk = walk_entry disk.root >> flush_found
