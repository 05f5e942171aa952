-- ===== src/Pipeline/Sound/Walked.antt =====
-- The walk keeps the tables sound.
use Prim.Native.String.{String}
use foldermcp.Base.{
  ℕ, ◌≡◌, refl, inl, inr, Bool, true, false, Bool-cases, ◌==◌, leb, List, [], ◌∷◌, Option, none,
  some, Bytes, bytes_eq, length, if◌then◌else◌,
}
use foldermcp.Pipeline.Tables.{FilesRow, SeenFile, Tables, with_file, rewritten, cleaned}
use foldermcp.Pipeline.Engine.{Engine, Sql, done, error}
use foldermcp.Pipeline.Tx.{Outcome, pure, Keeps-bind}
use foldermcp.Walker.Walk.{
  Stat, Entry, unreadable, file, folder, Entries, no_entries, entry, Disk, Options, Walking,
  should_ignore_dir, skip_file, hash_file, classified, upsert_all, flushed, upserted, begun,
  flush_found, batch_limit, add_found, flush_full, with_class, with_hash, with_info, visit_file,
  check_context, walk_entry, walk_entries, walk,
}
use foldermcp.Pipeline.Sound.{IsSound}
use foldermcp.Pipeline.Sound.Clean.{cleaned-Working}
use foldermcp.Pipeline.Sound.Effects.{Working-IsSound}

module _ {embed_query : Bytes → Sql Bytes} {t : Tables} where
  IsSound-with_file :
      (g : ℕ) (r : FilesRow) → IsSound embed_query t → IsSound embed_query (with_file g r t)
  IsSound-with_file g r s = record {
    intact = record {
      node_of_chunk = s.intact.node_of_chunk;
      chunk_of_vector = s.intact.chunk_of_vector;
    };
    embedded = s.embedded;
  }

module _ (embed_query : Bytes → Sql Bytes) where
  IsSound-cleaned : (g : ℕ) (t : Tables) → IsSound embed_query t → IsSound embed_query (cleaned g t)
  IsSound-cleaned g t s = Working-IsSound s (cleaned-Working g t s.intact embed_query)

  IsSound-rewritten :
      (g : ℕ) (x : FilesRow) (now : ℕ) (f : SeenFile) (t : Tables)
      → IsSound embed_query t
      → IsSound embed_query (rewritten g x now f t)
  IsSound-rewritten g x now f t s = elim (Bool-cases (bytes_eq f.sha256 x.sha256)) [
    | inl e ↦ rw e (IsSound-with_file g _ s)
    | inr e ↦ rw e (IsSound-with_file g _ (IsSound-cleaned g t s))
  ]

module _ (E : Engine) (embed_query : Bytes → Sql Bytes) (disk : Disk) (cancelled : ℕ → Bool)
    (opts : Options) where
  open E use {Db, tables}

  abbrev SoundDb : Db → Type 0
  SoundDb db = IsSound embed_query (tables db)

  abbrev SoundWalk : Walking Db → Type 0
  SoundWalk s = SoundDb s.db

  -- Of an answer that is no error.
  abbrev IfDone : Sql Db → Type 0
  IfDone (done db) = SoundDb db
  IfDone (error e) = Unit

  upsert_file-SoundDb :
      (db after : Db) (f : SeenFile) (now : ℕ)
      → E.upsert_file db f now ≡ done after
      → SoundDb db
      → SoundDb after
  upsert_file-SoundDb db after f now e s = elim (E.upsert_file_row db after f now e) [
    | inl (g, x, _, _, is) ↦ rw is (IsSound-rewritten embed_query g x now f (tables db) s)
    | inr (g, _, _, is) ↦ rw is (IsSound-with_file g _ s)
  ]

  upsert_all-SoundDb :
      (now : ℕ) (fs : List SeenFile) (tx : Db)
      → SoundDb tx
      → IfDone (upsert_all E disk cancelled opts now fs tx)
  unfolding upsert_all
  upsert_all-SoundDb now [] tx s = s
  upsert_all-SoundDb now (f ∷ fs) tx s =
      go (E.upsert_file tx f now) refl (upsert_all-SoundDb now fs)
    where
      go :
          (x : Sql Db)
          → E.upsert_file tx f now ≡ x
          → ((db : Db) → SoundDb db → IfDone (upsert_all E disk cancelled opts now fs db))
          → IfDone (elim x as (λ y. Sql Db) [
            | error e ↦ error e
            | done next ↦ upsert_all E disk cancelled opts now fs next
          ])
      go (error m) e next = tt
      go (done db) e next = next db (upsert_file-SoundDb tx db f now e s)

  flush_found-Sound :
      (s : Walking Db) → SoundWalk s → SoundWalk (flush_found E disk cancelled opts s).1
  unfolding flush_found
  flush_found-Sound s h = elim (Bool-cases (length s.found == 0)) [
    | inl e ↦ rw e h
    | inr e ↦ rw e (start (E.begin s.db) refl)
  ]
    where
      finish :
          (tx : Db)
          → SoundDb tx
          → (c : Sql Db) → E.commit tx ≡ c
          → SoundWalk (flushed E disk cancelled opts (record s { found = [] }) c).1
      finish tx k (error m) e = h
      finish tx k (done db) e = rw (E.commit_same tx db e) k

      all : (x : Sql Db) → IfDone x → SoundWalk (upserted E disk cancelled opts s x).1
      all (error m) k = h
      all (done tx) k = finish tx k (E.commit tx) refl

      start : (x : Sql Db) → E.begin s.db ≡ x → SoundWalk (begun E disk cancelled opts s x).1
      start (error m) e = h
      start (done tx) e =
          all (upsert_all E disk cancelled opts (disk.now s.checks) s.found tx)
            (upsert_all-SoundDb (disk.now s.checks) s.found tx (rw (E.begin_same s.db tx e) h))

  -- What a step of the walk keeps.
  abbrev Holds : (Walking Db → Outcome (Unit {0}) × Walking Db) → Type 0
  Holds m = (s : Walking Db) → SoundWalk s → SoundWalk (m s).1

  flush_full-Sound : Holds (flush_full E disk cancelled opts)
  flush_full-Sound s h =
      elim (Bool-cases (leb (batch_limit E disk cancelled opts) (length s.found))) [
        | inl e ↦ rw e (flush_found-Sound s h)
        | inr e ↦ rw e h
      ]

  with_class-Sound :
      (path : Bytes) (st : Stat) (sum : Bytes) (c : Sql (Bytes × String))
      → Holds (with_class E disk cancelled opts path st sum c)
  with_class-Sound path st sum (error e) = λ s h. h
  with_class-Sound path st sum (done (mime, class)) =
      Keeps-bind SoundWalk (add_found E disk cancelled opts _)
        (λ _. flush_full E disk cancelled opts) (λ s h. h) (λ _. flush_full-Sound)

  with_hash-Sound :
      (path : Bytes) (st : Stat) (sum : Sql Bytes)
      → Holds (with_hash E disk cancelled opts path st sum)
  with_hash-Sound path st (error e) = λ s h. h
  with_hash-Sound path st (done sum) = with_class-Sound path st sum (classified disk path)

  with_info-Sound :
      (path : Bytes) (st : Option Stat) → Holds (with_info E disk cancelled opts path st)
  with_info-Sound path none = λ s h. h
  with_info-Sound path (some st) = with_hash-Sound path st (hash_file disk path)

  visit_file-Sound :
      (path name : Bytes) (st : Option Stat) → Holds (visit_file E disk cancelled opts path name st)
  unfolding visit_file
  visit_file-Sound path name st s h = elim (Bool-cases (skip_file disk name opts.ignore_globs)) [
    | inl e ↦ rw e h
    | inr e ↦ rw e (with_info-Sound path st s h)
  ]

  Holds-unless :
      (b : Bool) (m : Walking Db → Outcome (Unit {0}) × Walking Db)
      → Holds m
      → Holds (if b then pure tt else m)
  Holds-unless true m h = λ s k. k
  Holds-unless false m h = h

  mutual
    unfolding walk_entry

    walk_entry-Sound : (e : Entry) → Holds (walk_entry E disk cancelled opts e)
    walk_entry-Sound unreadable = λ s h. h
    walk_entry-Sound (file path name st) =
        Keeps-bind SoundWalk (check_context E disk cancelled opts)
          (λ _. visit_file E disk cancelled opts path name st) (λ s h. h)
          (λ _. visit_file-Sound path name st)
    walk_entry-Sound (folder name es) =
        Keeps-bind SoundWalk (check_context E disk cancelled opts) _ (λ s h. h)
          (λ _. Holds-unless (should_ignore_dir name) _ (walk_entries-Sound es))

    walk_entries-Sound : (es : Entries) → Holds (walk_entries E disk cancelled opts es)
    walk_entries-Sound no_entries = λ s h. h
    walk_entries-Sound (entry e es) =
        Keeps-bind SoundWalk (walk_entry E disk cancelled opts e)
          (λ _. walk_entries E disk cancelled opts es) (walk_entry-Sound e)
          (λ _. walk_entries-Sound es)

  pub walk-Sound :
      (s : Walking Db)
      → IsSound embed_query (tables s.db)
      → IsSound embed_query (tables (walk E disk cancelled opts s).1.db)
  unfolding walk
  walk-Sound =
      Keeps-bind SoundWalk (walk_entry E disk cancelled opts disk.root)
        (λ _. flush_found E disk cancelled opts) (walk_entry-Sound disk.root)
        (λ _. flush_found-Sound)
