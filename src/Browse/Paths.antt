-- ===== src/Browse/Paths.antt =====
-- The path helpers of internal/v3/grpc/tools/browse_folder.go on a system whose separator is `/`,
-- where `filepath.FromSlash` changes nothing, with `filepath.Clean`.
use foldermcp.Base.{
  ℕ, Bool, true, false, ◌||◌, List, [], ◌∷◌, ◌++◌, ◌==◌, Bytes, codes, bytes_eq, starts_with,
  if◌then◌else◌, length, drop,
}
use mathlib.Core.List.{reverse}

abbrev pub slash : ℕ
slash = b'/'

abbrev pub sep : Bytes
sep = slash ∷ []

-- The parts of a path between slashes.
segments : Bytes → Bytes → List Bytes
segments [] cur = cur ∷ []
segments (c ∷ s) cur = elim (c == slash) [
  | true ↦ cur ∷ segments s []
  | false ↦ segments s (cur ++ c ∷ [])
]

abbrev dot : Bytes
dot = codes "."

abbrev dots : Bytes
dots = codes ".."

-- `..` at the front of what is written so far, the last segment first.
go_up : Bool → List Bytes → List Bytes
go_up true [] = []
go_up false [] = dots ∷ []
go_up rooted (top ∷ rest) = if bytes_eq top dots then dots ∷ top ∷ rest else rest

clean_step : Bool → List Bytes → Bytes → List Bytes
unfolding go_up
clean_step rooted out seg =
    if bytes_eq seg [] || bytes_eq seg dot
    then out
    else if bytes_eq seg dots
    then go_up rooted out
    else seg ∷ out

clean_loop : Bool → List Bytes → List Bytes → List Bytes
unfolding clean_step
clean_loop rooted [] out = out
clean_loop rooted (seg ∷ segs) out = clean_loop rooted segs (clean_step rooted out seg)

join_slash : List Bytes → Bytes
join_slash [] = []
join_slash (s ∷ []) = s
join_slash (s ∷ t ∷ rest) = s ++ slash ∷ join_slash (t ∷ rest)

abbrev or_dot : Bytes → Bytes
or_dot [] = dot
or_dot (c ∷ s) = c ∷ s

-- `filepath.Clean`
clean : Bytes → Bytes
unfolding segments clean_loop join_slash
clean p =
    let rooted = starts_with p sep in
    let body = join_slash (reverse (clean_loop rooted (segments p []) [])) in
    or_dot (if rooted then slash ∷ body else body)

unfoldable pub normalize_browse_path : Bytes → Bytes
unfolding clean
normalize_browse_path [] = sep
normalize_browse_path (c ∷ p) = clean (c ∷ p)

abbrev pub is_root : Bytes → Bool
is_root p = bytes_eq p sep

-- `/` or `\`, on which `baseName` and the handler cut.
abbrev pub is_separator : ℕ → Bool
is_separator c = c == b'/' || c == b'\\'

-- What stands before the first separator.
unfoldable pub first_segment : Bytes → Bytes
first_segment [] = []
first_segment (c ∷ s) = if is_separator c then [] else c ∷ first_segment s

-- `strings.TrimPrefix`
abbrev pub trim_prefix : Bytes → Bytes → Bytes
trim_prefix s p = if starts_with s p then drop (length p) s else s

has_separator : Bytes → Bool
has_separator [] = false
has_separator (c ∷ s) = is_separator c || has_separator s

-- What stands behind the last separator.
unfoldable pub base_name : Bytes → Bytes
unfolding has_separator
base_name [] = []
base_name (c ∷ s) =
    let rest = base_name s in if has_separator s then rest else if is_separator c then s else c ∷ s
