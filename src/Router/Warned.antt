-- ===== src/Router/Warned.antt =====
-- The warnings of an answer, from `SearchBroadly` to the router.
use Prim.Native.String.{String}
use text.Mathlib.Text.{◌==◌ as str_eq}
use foldermcp.Base.{some, Bytes}
use foldermcp.Floats.{Floats}
use foldermcp.Search.Sources.{Sources, SearchResponse}
use foldermcp.Router.{SearchResult, search_result_from_proto, annotate_completeness}

abbrev pub search_answer : {F : Type 0} → (Bytes → Bytes) → SearchResponse F → SearchResult F
search_answer lower p = annotate_completeness (search_result_from_proto lower (some p))
