-- ===== src/Browse/Handler.antt =====
-- `Browse` of internal/v3/grpc/tools/browse_folder.go. The database is an interface with the two
-- queries that the handler sends; the cursor text (base64 of a decimal number) is another.
pub mod Pages
pub mod Contents
use Prim.Native.String.{String}
use foldermcp.Base.{
  ℕ, zero, suc, ◌+◌, ◌≤◌, ◌<◌, ◌≡◌, refl, Bool, true, false, not, ◌&&◌, ◌||◌, List, [], ◌∷◌, ◌++◌,
  Option, none, some, ◌==◌, ltb, leb, Bytes, any, bytes_eq, if◌then◌else◌, length, take, drop,
  arith,
}
use foldermcp.Base.Int.{ℤ, pos, negsuc}
use foldermcp.Base.Sort.{sort_slice}
use foldermcp.Browse.Paths.{
  sep, normalize_browse_path, is_root, first_segment, trim_prefix, base_name,
}
use foldermcp.Browse.Prefix.{prefix_upper_bound, text_lt}

-- What a query gives: it fails, a row cannot be scanned, the iteration ends early, or rows.
pub data Rows (A : Type 0) : Type 0 where
  query_failed scan_failed iteration_failed : Rows A
  rows : List A → Rows A

-- The columns of the second query.
pub record FileRow : Type 0 where
  pub file_id : ℕ
  pub path : Bytes
  pub size : ℕ
  pub mtime : ℕ
  pub content_class : Bytes

pub record BrowseDb : Type 0 where
  -- the distinct `parent_dir` of live files from a lower bound up to an upper one, [] for none
  pub subdirs : Bytes → Bytes → Rows Bytes
  -- the live files with this `parent_dir`
  pub files_in : Bytes → Rows FileRow

-- `base64.StdEncoding` over `strconv.Itoa`; `decode` is `none` on an error and below 1.
pub record Cursors : Type 0 where
  pub encode : ℕ → Bytes
  pub decode : Bytes → Option ℕ
  pub encode_cons : (n : ℕ) → 0 < n → (c : ℕ) × (s : Bytes) × (encode n ≡ c ∷ s)
  pub decode_encode : (n : ℕ) → 0 < n → decode (encode n) ≡ some n

pub record BrowseRequest : Type 0 where
  pub path : Bytes
  pub max_items : ℤ
  pub cursor : Bytes

pub record FolderEntry : Type 0 where
  pub name : Bytes
  pub path : Bytes
  pub is_dir : Bool
  pub size : ℕ
  pub mtime : ℕ
  pub content_class : Bytes
  pub file_id : ℕ

pub record BrowseResponse : Type 0 where
  pub status : String
  pub error_message : String
  pub entries : List FolderEntry
  pub next_cursor : Bytes

unfoldable pub clamp_items : ℤ → ℕ
clamp_items (negsuc n) = 50
clamp_items (pos n) = if leb n 0 then 50 else if ltb 500 n then 500 else n

-- The entries of a folder before they are sorted, or a status with its message.
pub data Gathered : Type 0 where
  fault : String → String → Gathered
  entries : List FolderEntry → Gathered

abbrev pub elem_bytes : Bytes → List Bytes → Bool
elem_bytes s = any (λ t. bytes_eq t s)

-- `dirSet[seg] = true`, the set as the list of its members.
pub add_segment : Bytes → List Bytes → List Bytes
add_segment [] segs = segs
add_segment (c ∷ s) segs = if elem_bytes (c ∷ s) segs then segs else segs ++ (c ∷ s) ∷ []

-- The loop over the rows of the first query.
pub collect_segments : Bytes → List Bytes → List Bytes → List Bytes
unfolding add_segment
collect_segments child_prefix [] segs = segs
collect_segments child_prefix (pd ∷ pds) segs =
    collect_segments child_prefix pds
      (add_segment (first_segment (trim_prefix pd child_prefix)) segs)

abbrev pub dir_entry : Bytes → Bytes → FolderEntry
dir_entry child_prefix seg = record {
  name = seg;
  path = child_prefix ++ seg;
  is_dir = true;
  size = 0;
  mtime = 0;
  content_class = [];
  file_id = 0;
}

abbrev pub file_entry : FileRow → FolderEntry
file_entry r = record {
  name = base_name r.path;
  path = r.path;
  is_dir = false;
  size = r.size;
  mtime = r.mtime;
  content_class = r.content_class;
  file_id = r.file_id;
}

abbrev pub dir_entries : Bytes → List Bytes → List FolderEntry
dir_entries child_prefix [] = []
dir_entries child_prefix (s ∷ ss) = dir_entry child_prefix s ∷ dir_entries child_prefix ss

abbrev pub file_entries : List FileRow → List FolderEntry
file_entries [] = []
file_entries (r ∷ rs) = file_entry r ∷ file_entries rs

abbrev pub child_prefix_of : Bytes → Bytes
child_prefix_of path = if is_root path then sep else path ++ sep

gather_files : Rows FileRow → List FolderEntry → Gathered
gather_files query_failed dirs = fault "DEGRADED" "browse query failed"
gather_files scan_failed dirs = fault "CONTRACT_ERROR" "row scan failed"
gather_files iteration_failed dirs = fault "CONTRACT_ERROR" "result iteration failed"
gather_files (rows rs) dirs = entries (dirs ++ file_entries rs)

gather_dirs : BrowseDb → Bytes → Rows Bytes → Gathered
unfolding gather_files collect_segments
gather_dirs db path query_failed = fault "DEGRADED" "browse subdir query failed"
gather_dirs db path scan_failed = fault "CONTRACT_ERROR" "row scan failed"
gather_dirs db path iteration_failed = fault "CONTRACT_ERROR" "result iteration failed"
gather_dirs db path (rows pds) =
    gather_files (db.files_in path)
      (dir_entries (child_prefix_of path) (collect_segments (child_prefix_of path) pds []))

-- Both queries and the merged list.
pub gather : BrowseDb → Bytes → Gathered
unfolding gather_dirs
gather db path =
    gather_dirs db path
      (db.subdirs (child_prefix_of path) (prefix_upper_bound (child_prefix_of path)))

abbrev pub path_less : FolderEntry → FolderEntry → Bool
path_less a b = text_lt a.path b.path

abbrev pub refused : String → String → BrowseResponse
refused st message = record { status = st; error_message = message; entries = []; next_cursor = [] }

module _ (cursors : Cursors) where
  open cursors use {encode, decode}

  abbrev number_or_zero : Option ℕ → ℕ
  number_or_zero none = 0
  number_or_zero (some n) = n

  pub offset_of : Bytes → ℕ
  offset_of [] = 0
  offset_of (c ∷ s) = number_or_zero (decode (c ∷ s))

  -- The part of the sorted entries from an offset, and the cursor of the next one.
  pub page : ℕ → ℕ → List FolderEntry → BrowseResponse
  page max offset es =
      let start = if ltb (length es) offset then length es else offset in
      let end = start + max in
      if leb (length es) end
      then record { status = "OK"; error_message = ""; entries = drop start es; next_cursor = [] }
      else record {
        status = "OK";
        error_message = "";
        entries = take max (drop start es);
        next_cursor = encode end;
      }

  pub respond : BrowseRequest → Bytes → Gathered → BrowseResponse
  unfolding offset_of page
  respond req path (fault st message) = refused st message
  respond req path (entries []) =
      if is_root path
      then page (clamp_items req.max_items) (offset_of req.cursor) []
      else refused "NOT_FOUND" "no indexed entries under this path"
  respond req path (entries (e ∷ es)) =
      page (clamp_items req.max_items) (offset_of req.cursor) (sort_slice path_less (e ∷ es))

  unfoldable pub browse : BrowseDb → BrowseRequest → BrowseResponse
  unfolding gather respond
  browse db req = let path = normalize_browse_path req.path in respond req path (gather db path)
