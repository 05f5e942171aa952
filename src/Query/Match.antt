-- ===== src/Query/Match.antt =====
-- `buildFTSMatch`, `ftsTokenize` and `clampK` of internal/v3/grpc/query/fts.go.
use foldermcp.Base.{
  ℕ, zero, suc, ◌≤◌, Bool, List, [], ◌∷◌, ◌++◌, Option, none, some, Bytes, codes, length, take,
  drop, ltb, ◌==◌, if◌then◌else◌,
}
use foldermcp.Base.Int.{ℤ, pos, negsuc}

abbrev pub max_query_bytes : ℕ
max_query_bytes = 4096

abbrev pub max_fts_terms : ℕ
max_fts_terms = 64

-- `utf8.DecodeRuneInString` at the front of a text that is not empty: the width of the rune, and
-- whether it is a letter or a number; an invalid byte is a rune of width 1 that is neither.
pub record Decoder : Type 0 where
  pub width : Bytes → ℕ
  pub is_term : Bytes → Bool
  pub width_pos : (s : Bytes) → 1 ≤ width s

-- A term, where it is not empty.
abbrev pub term_of : Bytes → List Bytes
term_of [] = []
term_of (c ∷ cur) = (c ∷ cur) ∷ []

-- `strings.FieldsFunc`: the bytes of the rune at the front that are still to take, the term so far.
pub fields_func : Decoder → ℕ → Bytes → Bytes → List Bytes
fields_func d fuel cur [] = term_of cur
fields_func d zero cur (c ∷ s) = term_of cur
fields_func d (suc fuel) cur (c ∷ s) =
    let w = d.width (c ∷ s) in
    let more = fields_func d fuel (cur ++ take w (c ∷ s)) (drop w (c ∷ s)) in
    let apart = term_of cur ++ fields_func d fuel [] (drop w (c ∷ s)) in
    if d.is_term (c ∷ s) then more else apart

unfoldable pub fts_tokenize : Decoder → Bytes → List Bytes
unfolding fields_func
fts_tokenize d s = fields_func d (length s) [] s

-- `strings.ReplaceAll(t, "\"", "\"\"")`
abbrev pub doubled : Bytes → Bytes
doubled [] = []
doubled (c ∷ s) = let rest = doubled s in if c == 34 then 34 ∷ 34 ∷ rest else c ∷ rest

abbrev pub quoted : Bytes → Bytes
quoted t = 34 ∷ (doubled t ++ (34 ∷ []))

-- `strings.Join(quoted, " OR ")`
abbrev pub join_or : List Bytes → Bytes
join_or [] = []
join_or (t ∷ []) = quoted t
join_or (t ∷ u ∷ ts) = quoted t ++ (codes " OR " ++ join_or (u ∷ ts))

-- The first terms of a query.
abbrev pub terms_of : Decoder → Bytes → List Bytes
terms_of d raw =
    let clipped = if ltb max_query_bytes (length raw) then take max_query_bytes raw else raw in
    let terms = fts_tokenize d clipped in
    if ltb max_fts_terms (length terms) then take max_fts_terms terms else terms

unfoldable pub build_fts_match : Decoder → Bytes → Option Bytes
build_fts_match d raw = elim (terms_of d raw) [ [] ↦ none | t ∷ ts ↦ some (join_or (t ∷ ts)) ]

unfoldable pub clamp_k : ℤ → ℕ
clamp_k (negsuc n) = 20
clamp_k (pos zero) = 20
clamp_k (pos (suc k)) = if ltb 100 (suc k) then 100 else suc k
