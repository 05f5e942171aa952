-- ===== src/Browse/Tests.antt =====
-- Runs of the folder listing, and its theorems at concrete inputs.
use foldermcp.Base.{
  ℕ, zero, suc, ◌<◌, ◌≡◌, refl, true, false, ◌&&◌, List, [], ◌∷◌, Option, none, some, arith, Bytes,
  codes, starts_with, any, inr, if◌then◌else◌,
}
use mathlib.Core.List.{Permᴰ}
use mathlib.Core.List.Permᴰ
use foldermcp.Base.Int.{pos}
use foldermcp.Base.Sort.{sort_slice}
use foldermcp.Browse.Paths.{normalize_browse_path, base_name, first_segment}
use foldermcp.Browse.Prefix.{in_range, prefix_upper_bound, in_range-prefix_upper_bound}
use foldermcp.Browse.Handler.{
  clamp_items, dir_entry, rows, BrowseDb, Cursors, FolderEntry, entries, path_less, file_entries,
  gather, browse, elem_bytes,
}
use foldermcp.Browse.Handler.Pages.{follow, follow_all}
use foldermcp.Browse.Handler.Contents.{
  StoredFile, Answers, in_folder, select, is_below, has_dir, files_of, gather_lem,
}

clean_examples :
    (normalize_browse_path (codes "/a/./b/../c/") ≡ codes "/a/c")
    × (normalize_browse_path (codes "") ≡ codes "/")
    × (normalize_browse_path (codes "/..") ≡ codes "/")
    × (normalize_browse_path (codes "../x/") ≡ codes "../x")
    × (normalize_browse_path (codes "./") ≡ codes ".")
unfolding normalize_browse_path
clean_examples = (refl, refl, refl, refl, refl)

base_name_examples :
    (base_name (codes "/a/b.go") ≡ codes "b.go") × (base_name (codes "x") ≡ codes "x")
unfolding base_name
base_name_examples = (refl, refl)

in_range-prefix_upper_bound_example :
    in_range (codes "/ab/c") (codes "/ab") (prefix_upper_bound (codes "/ab"))
    ≡ starts_with (codes "/ab/c") (codes "/ab")
in_range-prefix_upper_bound_example =
    in_range-prefix_upper_bound (codes "/ab") (codes "/ab/c") (omega arith)

carried : prefix_upper_bound (b'a' ∷ 0xff ∷ []) ≡ codes "b"
unfolding prefix_upper_bound
carried = refl

-- One byte for a number.
one_byte : Bytes → Option ℕ
one_byte (suc n ∷ []) = some (suc n)
one_byte _ = none

one_byte_lem : (n : ℕ) → 0 < n → one_byte (n ∷ []) ≡ some n
unfolding one_byte
one_byte_lem zero h = absurd (omega arith)
one_byte_lem (suc n) h = refl

cursors : Cursors
unfolding one_byte
cursors = record {
  encode = λ n. n ∷ [];
  decode = one_byte;
  encode_cons = λ n h. (n, [], refl);
  decode_encode = one_byte_lem;
}

-- A database that answers from a table.
dirs_of : Bytes → Bytes → List StoredFile → List Bytes
dirs_of lo hi [] = []
dirs_of lo hi (f ∷ fs) =
    let rest = dirs_of lo hi fs in
    if f.live && in_range f.parent_dir lo hi then f.parent_dir ∷ rest else rest

table_db : List StoredFile → BrowseDb
unfolding dirs_of
table_db files = record {
  subdirs = λ lo hi. rows (dirs_of lo hi files);
  files_in = λ path. rows (select path files);
}

elem_bytes-dirs_of :
    (lo hi d : Bytes) (fs : List StoredFile)
    → elem_bytes d (dirs_of lo hi fs) ≡ any (λ f. in_folder d f && in_range f.parent_dir lo hi) fs
unfolding dirs_of
elem_bytes-dirs_of lo hi d [] = refl
elem_bytes-dirs_of lo hi d (f ∷ fs) = ground (arith, elem_bytes-dirs_of lo hi d fs)

abbrev file : ℕ → Bytes → Bytes → StoredFile
file id path dir = record {
  row = record { file_id = id; path = path; size = 1; mtime = 2; content_class = codes "code" };
  parent_dir = dir;
  live = true;
}

abbrev table : List StoredFile
table =
    file 1 (codes "/w/a.go") (codes "/w")
    ∷ file 2 (codes "/w/x/b.go") (codes "/w/x")
    ∷ file 3 (codes "/w/x/y/c.go") (codes "/w/x/y")
    ∷ file 4 (codes "/v/d.go") (codes "/v")
    ∷ []

table-Answers : Answers (table_db table) table
unfolding table_db
table-Answers = record {
  subdirs_rows = λ lo hi. (dirs_of lo hi table, refl, (λ d. elem_bytes-dirs_of lo hi d table));
  files_rows = λ path. (select path table, refl, Permᴰ.refl _);
  dirs_IsBytes = omega arith;
}

gather_lem_example :
    (es : List FolderEntry) × (gather (table_db table) (codes "/w") ≡ entries es)
    × ((c : ℕ) (s : Bytes) → has_dir (c ∷ s) es ≡ any (is_below (codes "/w/") (c ∷ s)) table)
    × Permᴰ (files_of es) (file_entries (select (codes "/w") table))
gather_lem_example = gather_lem (table_db table) table table-Answers (codes "/w")

names : List FolderEntry → List Bytes
names [] = []
names (e ∷ es) = e.name ∷ names es

listed :
    names
      (browse cursors
        (table_db table)
        (record { path = codes "/w/"; max_items = pos 10; cursor = [] })).entries
    ≡ codes "a.go" ∷ codes "x" ∷ []
unfolding names browse cursors table_db normalize_browse_path prefix_upper_bound sort_slice
    first_segment clamp_items base_name
listed = refl

abbrev found : List FolderEntry
found =
    dir_entry (codes "/w/") (codes "x")
    ∷ record {
      name = codes "a.go";
      path = codes "/w/a.go";
      is_dir = false;
      size = 1;
      mtime = 2;
      content_class = codes "code";
      file_id = 1;
    }
    ∷ []

found_lem : gather (table_db table) (normalize_browse_path (codes "/w/")) ≡ entries found
unfolding browse table_db normalize_browse_path prefix_upper_bound first_segment base_name
found_lem = refl

follow_all_example :
    follow cursors 3 (table_db table) (codes "/w/") (pos 1) [] ≡ some (sort_slice path_less found)
follow_all_example =
    follow_all cursors (table_db table) (codes "/w/") (pos 1) found found_lem (inr (cc)) 3
      (omega arith)
