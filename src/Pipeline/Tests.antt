-- ===== src/Pipeline/Tests.antt =====
-- Runs over notes of two paragraphs, in memory.
use foldermcp.Base.{
  true, ℕ, zero, suc, ◌<◌, ◌≡◌, refl, Bool, false, [], ◌∷◌, Option, none, some, Bytes, codes,
  length, arith, ◌==◌, ==_iff, Bool-cases, inl, inr, sym, ap, ◌∙◌, if◌then◌else◌,
}
use mathlib.Core.Option.{none-ne-some, some-injective}
use mathlib.Core.List.{Memᴰ}
use foldermcp.Chunker.Prose.{default_config}
use foldermcp.Pipeline.Tables.{
  structural, embeddings, finished, row_of, put_fingerprint, FileRow, FilesRow, Tables,
}
use foldermcp.Pipeline.Engine.{done, from_done}
use foldermcp.Pipeline.Tx.{Outcome}
use foldermcp.Pipeline.Runner.{Env, dimension}
use foldermcp.Pipeline.Process.{Runner, run_per_file, process_one_file}
use foldermcp.Pipeline.Fingerprint.{writer_fingerprint, ensure_fingerprint}
use foldermcp.Pipeline.Compat.{semantic_index_compatible, ensure_fingerprint-compatible}
use foldermcp.Pipeline.Run.{complete, walk_root, run}
use foldermcp.Walker.Walk.{
  Entry, unreadable, file, folder, entry, no_entries, Disk, Options, Walking, walk,
}
use foldermcp.Pipeline.Tx.{ok, ◌>>=◌}
use foldermcp.Pipeline.Sound.Seen.{IsIndexed, kept_paths}
use foldermcp.Pipeline.Sound.Visits.{walk-IsIndexed}
use foldermcp.Pipeline.Memory.Store.{Memory, execute}
use foldermcp.Pipeline.Memory.{in_memory}
use foldermcp.Pipeline.Sound.{IsIntact, IsSound}
use foldermcp.Pipeline.Sound.Process.{IsAtomic, run_per_file-IsAtomic, Kept, process_one_file-Kept}
use foldermcp.Pipeline.Sound.Loop.{Ended}
use foldermcp.Pipeline.Sound.Whole.{run-Ended}

abbrev zeros : ℕ → Bytes
zeros zero = []
zeros (suc n) = 0 ∷ zeros n

abbrev note : FileRow
note = record {
  id = 1;
  path = codes "/w/note.md";
  size = 26;
  mime = codes "text/markdown";
  content_class = "document";
}

abbrev note_row : FilesRow
note_row = record {
  row = note;
  sha256 = codes "h";
  mtime = 4;
  parent_dir = codes "/w";
  last_seen = 5;
  deleted = false;
}

abbrev files : ℕ → Option FilesRow
files f = if f == 1 then some note_row else none

abbrev fresh_tables : Tables
fresh_tables = record {
  file = files;
  pass_row = λ _ _. none;
  node = λ _. none;
  chunk = λ _. none;
  vector = λ _. none;
  fingerprint = none;
}

files_known : (g : ℕ) (x : FilesRow) → files g ≡ some x → Memᴰ g (1 ∷ []) × (x.row.id ≡ g)
files_known g x h = elim (Bool-cases (g == 1)) [
  | inl e ↦
      let same : g ≡ 1 = (==_iff g 1).0 e in
      let row : note_row ≡ x = some-injective note_row x (rw e at h) in
      (Memᴰ.head same, sym (ap (λ (y : FilesRow). y.row.id) row) ∙ sym same)
  | inr e ↦ absurd (none-ne-some x (rw e at h))
]

abbrev memory : Memory
memory = record {
  tables = fresh_tables;
  ids = 1 ∷ [];
  next = 10;
  distinct = (tt, tt);
  covers = files_known;
}

abbrev test_env : Env
test_env = record {
  read_file = λ _. done (codes "# Note\n\nOne day.\n\nTwo days.");
  extractors = λ _. none;
  embed_query = λ _. done (zeros dimension);
  count = λ s. length s;
  cfg = default_config;
  batch_size = 0;
}

abbrev never : ℕ → Bool
never _ = false

abbrev idle : Runner Memory
idle = record {
  db = memory;
  current_pass = structural;
  embed_buf = [];
  failed_files = 0;
  checks = 0;
}

fresh-IsIntact : IsIntact fresh_tables
fresh-IsIntact = record {
  node_of_chunk = λ c r h. absurd (none-ne-some r h);
  chunk_of_vector = λ c v h. absurd (none-ne-some v h);
}

fresh-IsSound : IsSound test_env.embed_query fresh_tables
fresh-IsSound = record {
  intact = fresh-IsIntact;
  embedded = λ f c r m h is. absurd (none-ne-some r is.0);
}

run_per_file-IsAtomic_example :
    IsAtomic in_memory test_env never 1 fresh_tables
      (run_per_file in_memory test_env never note idle)
run_per_file-IsAtomic_example =
    run_per_file-IsAtomic in_memory test_env never note idle fresh-IsIntact

process_one_file-Kept_example :
    Kept in_memory test_env never 1 fresh_tables (process_one_file in_memory test_env never 1 idle)
process_one_file-Kept_example = process_one_file-Kept in_memory test_env never 1 idle fresh-IsSound

-- The note again, changed, and a second one, beside what the walk leaves out.
abbrev disk : Disk
disk = record {
  root = folder (codes "w") (
      entry (file (codes "/w/note.md") (codes "note.md") (some (record { size = 27; mtime = 6 }))) (
        entry
          (folder (codes "build")
            (entry (file (codes "/w/build/x.md") (codes "x.md") none) no_entries))
          (entry (file (codes "/w/new.md") (codes "new.md") (some (record { size = 9; mtime = 6 })))
            (entry unreadable no_entries))));
  read = λ _. done (codes "# Note\n\nOne day.\n\nTwo days.");
  sha256 = λ _. codes "k";
  detect = λ _. codes "text/plain";
  dir = λ _. codes "/w";
  matches = λ _ _. false;
  now = λ _. 7;
}

abbrev walked_memory : Memory
walked_memory = (walk_root in_memory never disk idle).1.db

few : length walked_memory.ids < 3
unfolding foldermcp.Walker.Walk.walk foldermcp.Pipeline.Tx.◌>>=◌
few = omega arith

run-Ended_example :
    Ended in_memory test_env.embed_query (run in_memory never disk (done tt) 6 3 test_env idle)
run-Ended_example =
    run-Ended in_memory test_env never walked_memory.ids disk (done tt) 6 3 idle fresh-IsSound
      (λ g x at. (walked_memory.covers g x at).0) few

run_completes : (run in_memory never disk (done tt) 6 3 test_env idle).0 ≡ complete
unfolding run foldermcp.Walker.Walk.walk foldermcp.Pipeline.Tx.◌>>=◌
    foldermcp.Pipeline.Fingerprint.ensure_fingerprint foldermcp.Pipeline.Run.run_loop
    process_one_file foldermcp.Pipeline.Runner.run_body foldermcp.Pipeline.Tx.wrap
    foldermcp.Pipeline.Tx.statement foldermcp.Walker.Classes.classify_file
    foldermcp.Chunker.Prose.chunk_prose
run_completes = refl

run_attempts : (run in_memory never disk (done tt) 6 3 test_env idle).1 ≡ 1 ∷ 10 ∷ []
unfolding run foldermcp.Walker.Walk.walk foldermcp.Pipeline.Tx.◌>>=◌
    foldermcp.Pipeline.Fingerprint.ensure_fingerprint foldermcp.Pipeline.Run.run_loop
    process_one_file foldermcp.Pipeline.Runner.run_body foldermcp.Pipeline.Tx.wrap
    foldermcp.Pipeline.Tx.statement foldermcp.Walker.Classes.classify_file
    foldermcp.Chunker.Prose.chunk_prose
run_attempts = refl

run_finishes :
    (run in_memory never disk (done tt) 6 3 test_env idle).2.db.tables.pass_row 10 embeddings
    ≡ some (row_of finished none)
unfolding run foldermcp.Walker.Walk.walk foldermcp.Pipeline.Tx.◌>>=◌
    foldermcp.Pipeline.Fingerprint.ensure_fingerprint foldermcp.Pipeline.Run.run_loop
    process_one_file foldermcp.Pipeline.Runner.run_body foldermcp.Pipeline.Tx.wrap
    foldermcp.Pipeline.Tx.statement foldermcp.Walker.Classes.classify_file
    foldermcp.Chunker.Prose.chunk_prose
run_finishes = refl

-- The memory with the fingerprint of the writer.
abbrev marked_memory : Memory
marked_memory = from_done memory (execute memory (put_fingerprint writer_fingerprint))

ensures : ensure_fingerprint in_memory memory writer_fingerprint ≡ done marked_memory
unfolding ensure_fingerprint
ensures = refl

ensure_fingerprint-compatible_example :
    ((semantic_index_compatible in_memory memory).0 ≡ true)
    × ((semantic_index_compatible in_memory marked_memory).0 ≡ true)
ensure_fingerprint-compatible_example =
    ensure_fingerprint-compatible in_memory memory marked_memory none (some writer_fingerprint) refl
      ensures refl

abbrev no_globs : Options
no_globs = record { ignore_globs = []; batch_size = 1 }

abbrev setting_out : Walking Memory
setting_out = record { db = memory; found = []; count = 0; checks = 0 }

abbrev arrived : Walking Memory
arrived = (walk in_memory disk never no_globs setting_out).1

arrives : walk in_memory disk never no_globs setting_out ≡ (ok tt, arrived)
unfolding walk ◌>>=◌
arrives = refl

kept : Memᴰ (codes "/w/new.md") (kept_paths disk [] disk.root)
unfolding kept_paths
kept = Memᴰ.tail (Memᴰ.head refl)

walk-IsIndexed_example : IsIndexed disk arrived.db.tables (codes "/w/new.md")
walk-IsIndexed_example =
    walk-IsIndexed in_memory disk never no_globs setting_out arrived refl arrives
      (codes "/w/new.md") kept
