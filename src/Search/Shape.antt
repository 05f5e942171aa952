-- ===== src/Search/Shape.antt =====
-- `shapeHits`, `firstSnippet` and `truncate` of internal/v3/grpc/tools/search_broadly.go.
use Prim.Native.String.{String}
use text.Mathlib.Text.{◌==◌ as str_eq}
use foldermcp.Base.{
  ℕ, ◌≡◌, refl, List, [], ◌∷◌, ◌++◌, none, some, Bytes, codes, leb, arith, length, take,
  if◌then◌else◌,
}
use foldermcp.Floats.{Floats}
use foldermcp.Proto.{HydratedChunk, HydratedNode, SearchHit}
use foldermcp.Search.Fuse.{Hit}

-- "…" in UTF-8.
abbrev pub ellipsis : Bytes
ellipsis = 0xe2 ∷ 0x80 ∷ 0xa6 ∷ []

pub truncate : Bytes → ℕ → Bytes
truncate s n = if leb (length s) n then s else take n s ++ ellipsis

-- `strings.Join`
pub join : Bytes → List Bytes → Bytes
join sep [] = []
join sep (s ∷ []) = s
join sep (s ∷ t ∷ rest) = s ++ sep ++ join sep (t ∷ rest)

abbrev texts : List HydratedChunk → List Bytes
texts [] = []
texts (c ∷ cs) = c.text ∷ texts cs

snippet_of : List HydratedChunk → String → Bytes
unfolding truncate join
snippet_of [] detail = []
snippet_of (c ∷ cs) detail =
    if str_eq detail "brief"
    then truncate c.text 120
    else if str_eq detail "full"
    then join (codes "\n---\n") (texts (c ∷ cs))
    else truncate c.text 400

pub first_snippet : HydratedNode → String → Bytes
unfolding snippet_of
first_snippet n detail = snippet_of n.chunks detail

module _ (fl : Floats) where
  open fl use {F32, to_f32}

  pub shape_hit : Hit fl → String → SearchHit F32
  shape_hit f detail = elim f.hydrated [
    | none ↦ record {
      node_id = f.node_id;
      path = [];
      title = [];
      snippet = [];
      score = to_f32 f.score;
      matched_sources = f.matched_sources;
    }
    | some n ↦ record {
      node_id = f.node_id;
      path = n.path;
      title = n.name;
      snippet = first_snippet n detail;
      score = to_f32 f.score;
      matched_sources = f.matched_sources;
    }
  ]

  unfoldable pub shape_hits : List (Hit fl) → String → List (SearchHit F32)
  unfolding shape_hit first_snippet
  shape_hits [] detail = []
  shape_hits (f ∷ fs) detail = shape_hit f detail ∷ shape_hits fs detail

  pub length-shape_hits :
      (fs : List (Hit fl)) (detail : String) → length (shape_hits fs detail) ≡ length fs
  unfolding shape_hits
  length-shape_hits [] detail = refl
  length-shape_hits (f ∷ fs) detail = omega (arith, length-shape_hits fs detail)
