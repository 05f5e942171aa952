-- ===== src/Browse/Handler/Contents.antt =====
-- What `Browse` lists, against the table of files that the database answers from.
use foldermcp.Base.{
  ℕ, ◌≡◌, refl, sym, ap, ◌∙◌, Bool, true, false, ◌&&◌, ◌||◌, List, [], ◌∷◌, ◌++◌, arith, Bytes,
  bytes_eq, bytes_eq_iff, starts_with, if◌then◌else◌, length, drop, All, any, any_find, any-append,
  Bool-ext,
}
use mathlib.Core.Bool.{or-false}
use mathlib.Core.List.{Permᴰ}
use foldermcp.Browse.Paths.{first_segment, trim_prefix}
use foldermcp.Browse.Prefix.{IsBytes, in_range, prefix_upper_bound, in_range-prefix_upper_bound}
use foldermcp.Browse.Handler.{
  rows, FileRow, BrowseDb, FolderEntry, entries, elem_bytes, add_segment, collect_segments,
  dir_entries, file_entry, file_entries, child_prefix_of, gather_dirs, gather_files, gather,
}

-- A row of the table `files`.
pub record StoredFile : Type 0 where
  pub row : FileRow
  pub parent_dir : Bytes
  pub live : Bool

abbrev pub in_folder : Bytes → StoredFile → Bool
in_folder path f = f.live && bytes_eq f.parent_dir path

abbrev pub select : Bytes → List StoredFile → List FileRow
select path [] = []
select path (f ∷ fs) = let rest = select path fs in if in_folder path f then f.row ∷ rest else rest

-- Both queries succeed and give what their SQL says, in any order of rows.
pub record Answers (db : BrowseDb) (files : List StoredFile) : Type 0 where
  pub subdirs_rows :
      (lo hi : Bytes)
      → (pds : List Bytes) × (db.subdirs lo hi ≡ rows pds)
        × ((d : Bytes)
            → elem_bytes d pds ≡ any (λ f. in_folder d f && in_range f.parent_dir lo hi) files)
  pub files_rows :
      (path : Bytes)
      → (rs : List FileRow) × (db.files_in path ≡ rows rs) × Permᴰ rs (select path files)
  pub dirs_IsBytes : All (λ f. IsBytes f.parent_dir) files

-- A live file somewhere below the subfolder with this name.
abbrev pub is_below : Bytes → Bytes → StoredFile → Bool
is_below child_prefix seg f =
    f.live
    && starts_with f.parent_dir child_prefix
    && bytes_eq (first_segment (drop (length child_prefix) f.parent_dir)) seg

abbrev pub has_dir : Bytes → List FolderEntry → Bool
has_dir seg = any (λ (e : FolderEntry). e.is_dir && bytes_eq e.name seg)

abbrev pub files_of : List FolderEntry → List FolderEntry
files_of [] = []
files_of (e ∷ es) = let rest = files_of es in if e.is_dir then rest else e ∷ rest

same_elem :
    (u t : Bytes) (segs : List Bytes) → bytes_eq u t ≡ true → elem_bytes u segs ≡ elem_bytes t segs
same_elem u t segs h = ap (λ v. elem_bytes v segs) ((bytes_eq_iff u t).0 h)

elem_bytes-add_segment :
    (c : ℕ) (s u : Bytes) (segs : List Bytes)
    → elem_bytes (c ∷ s) (add_segment u segs) ≡ (bytes_eq u (c ∷ s) || elem_bytes (c ∷ s) segs)
unfolding add_segment
elem_bytes-add_segment c s [] segs = refl
elem_bytes-add_segment c s (d ∷ u) segs = ground (
  arith,
  same_elem (d ∷ u) (c ∷ s) segs,
  any-append (λ v. bytes_eq v (c ∷ s)) segs ((d ∷ u) ∷ []),
)

abbrev segment_is : Bytes → Bytes → Bytes → Bool
segment_is child_prefix t pd = bytes_eq (first_segment (trim_prefix pd child_prefix)) t

elem_bytes-collect_segments :
    (cp : Bytes) (c : ℕ) (s : Bytes) (pds segs : List Bytes)
    → elem_bytes (c ∷ s) (collect_segments cp pds segs)
      ≡ (any (segment_is cp (c ∷ s)) pds || elem_bytes (c ∷ s) segs)
unfolding collect_segments
elem_bytes-collect_segments cp c s [] segs = refl
elem_bytes-collect_segments cp c s (pd ∷ pds) segs =
    let seg = first_segment (trim_prefix pd cp) in
    ground (
      arith,
      elem_bytes-collect_segments cp c s pds (add_segment seg segs),
      elem_bytes-add_segment c s seg segs,
    )

has_dir-dir_entries :
    (cp t : Bytes) (segs : List Bytes) → has_dir t (dir_entries cp segs) ≡ elem_bytes t segs
has_dir-dir_entries cp t [] = refl
has_dir-dir_entries cp t (s ∷ segs) = rw (has_dir-dir_entries cp t segs)

has_dir-file_entries : (t : Bytes) (rs : List FileRow) → has_dir t (file_entries rs) ≡ false
has_dir-file_entries t [] = refl
has_dir-file_entries t (r ∷ rs) = has_dir-file_entries t rs

files_of-dir_entries :
    (cp : Bytes) (segs : List Bytes) (es : List FolderEntry)
    → files_of (dir_entries cp segs ++ es) ≡ files_of es
files_of-dir_entries cp [] es = refl
files_of-dir_entries cp (s ∷ segs) es = files_of-dir_entries cp segs es

files_of-file_entries : (rs : List FileRow) → files_of (file_entries rs) ≡ file_entries rs
files_of-file_entries [] = refl
files_of-file_entries (r ∷ rs) = rw (files_of-file_entries rs)

file_entries-permᴰ :
    {rs ss : List FileRow} → Permᴰ rs ss → Permᴰ (file_entries rs) (file_entries ss)
file_entries-permᴰ Permᴰ.nil = Permᴰ.nil
file_entries-permᴰ (Permᴰ.cons e p) = Permᴰ.cons (ap file_entry e) (file_entries-permᴰ p)
file_entries-permᴰ (Permᴰ.swap d e) = Permᴰ.swap (ap file_entry d) (ap file_entry e)
file_entries-permᴰ (Permᴰ.trans p q) = Permᴰ.trans (file_entries-permᴰ p) (file_entries-permᴰ q)

module _ (db : BrowseDb) (files : List StoredFile) (a : Answers db files) (path : Bytes) where
  abbrev cp : Bytes
  cp = child_prefix_of path

  abbrev in_query : Bytes → StoredFile → Bool
  in_query d f = in_folder d f && in_range f.parent_dir cp (prefix_upper_bound cp)

  is_below-of_query :
      (t d : Bytes) (f : StoredFile)
      → IsBytes f.parent_dir
      → in_query d f ≡ true
      → segment_is cp t d ≡ true
      → is_below cp t f ≡ true
  is_below-of_query t d f b q h =
      let same : f.parent_dir ≡ d = (bytes_eq_iff f.parent_dir d).0 (ground arith) in
      let prefix : starts_with f.parent_dir cp ≡ true =
        ground (arith, in_range-prefix_upper_bound cp f.parent_dir b) in
      let live : f.live ≡ true = ground arith in
      let here : segment_is cp t f.parent_dir ≡ true = rw same h in
      rw (live, prefix) (rw prefix at here)

  query-of_is_below :
      (t : Bytes) (f : StoredFile)
      → IsBytes f.parent_dir
      → is_below cp t f ≡ true
      → (in_query f.parent_dir f ≡ true) × (segment_is cp t f.parent_dir ≡ true)
  query-of_is_below t f b h =
      let prefix : starts_with f.parent_dir cp ≡ true = ground arith in
      let live : f.live ≡ true = ground arith in
      let same : bytes_eq f.parent_dir f.parent_dir ≡ true =
        (bytes_eq_iff f.parent_dir f.parent_dir).1 refl in
      (
        rw (live, same, in_range-prefix_upper_bound cp f.parent_dir b, prefix),
        rw prefix (ground arith),
      )

  -- The segments of the rows in the range are those of the live files under the prefix.
  any-segment_is :
      (t : Bytes) (pds : List Bytes)
      → ((d : Bytes) → elem_bytes d pds ≡ any (in_query d) files)
      → any (segment_is cp t) pds ≡ any (is_below cp t) files
  any-segment_is t pds member = Bool-ext _ _ there back
    where
      there : any (segment_is cp t) pds ≡ true → any (is_below cp t) files ≡ true
      there h =
          let (d, pd, found, _) = any_find (segment_is cp t) pds h in
          let e = found (λ u. bytes_eq u d) ((bytes_eq_iff d d).1 refl) in
          let (f, pf, found', has) = any_find (in_query d) files (sym (member d) ∙ e) in
          found' (is_below cp t)
            (is_below-of_query t d f (has (λ g. IsBytes g.parent_dir) a.dirs_IsBytes) pf pd)

      back : any (is_below cp t) files ≡ true → any (segment_is cp t) pds ≡ true
      back h =
          let (f, pf, found, has) = any_find (is_below cp t) files h in
          let (q, s) = query-of_is_below t f (has (λ g. IsBytes g.parent_dir) a.dirs_IsBytes) pf in
          let e = member f.parent_dir ∙ found (in_query f.parent_dir) q in
          let (d, pd, found', _) = any_find (λ u. bytes_eq u f.parent_dir) pds e in
          let same : d ≡ f.parent_dir = (bytes_eq_iff d f.parent_dir).0 pd in
          found' (segment_is cp t) (rw same s)

  -- When the database answers from a table of files, a folder's directory entries are named by
  -- exactly the next segments of the live files below it, and its file entries are the live files
  -- that stand in it.
  pub gather_lem :
      (es : List FolderEntry) × (gather db path ≡ entries es)
      × ((c : ℕ) (s : Bytes) → has_dir (c ∷ s) es ≡ any (is_below cp (c ∷ s)) files)
      × Permᴰ (files_of es) (file_entries (select path files))
  unfolding gather gather_dirs gather_files
  gather_lem =
      let (pds, e, member) = a.subdirs_rows cp (prefix_upper_bound cp) in
      let (rs, e', p) = a.files_rows path in
      let segs = collect_segments cp pds [] in
      (
        dir_entries cp segs ++ file_entries rs,
        rw (e, e'),
        (λ c s.
            any-append (λ (x : FolderEntry). x.is_dir && bytes_eq x.name (c ∷ s))
              (dir_entries cp segs) (file_entries rs)
            ∙ rw (has_dir-dir_entries cp (c ∷ s) segs, has_dir-file_entries (c ∷ s) rs)
                (or-false (elem_bytes (c ∷ s) segs)
                  ∙ elem_bytes-collect_segments cp c s pds []
                  ∙ or-false (any (segment_is cp (c ∷ s)) pds)
                  ∙ any-segment_is (c ∷ s) pds member)),
        rw (files_of-dir_entries cp segs, files_of-file_entries rs) (file_entries-permᴰ p),
      )
