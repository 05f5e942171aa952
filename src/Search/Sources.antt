-- ===== src/Search/Sources.antt =====
-- The request of `SearchBroadly` in internal/v3/grpc/tools/search_broadly.go, the handlers that it
-- calls, and the goroutines: each is the one result that it will send.
use Prim.Native.String.{String}
use text.Mathlib.Text.{◌==◌ as str_eq}
use foldermcp.Base.{
  ℕ, ◌/◌, Bool, false, ◌&&◌, ◌||◌, List, [], ◌∷◌, ◌++◌, Option, none, some, Bytes, leb, ltb,
  if◌then◌else◌,
}
use foldermcp.Base.Int.{ℤ, pos, negsuc}
use foldermcp.Proto.{ScoredNode, SearchHit, SourceStatus}

pub record SearchRequest : Type 0 where
  pub query : Bytes
  pub detail : String
  pub mode : String
  pub content_classes : List String
  pub max_results : ℤ

-- The answer of a source, or `none` where it fails or is nil.
abbrev pub Answer : Type 0 → Type 0
Answer F = Option (List (ScoredNode F) × Option SourceStatus)

-- The handlers that `SearchBroadly` calls; `embed_query` is `none` where no embedder is there.
pub record Sources (F : Type 0) : Type 0 where
  pub fts : Bytes → ℕ → List String → Answer F
  pub filename : Bytes → ℕ → Answer F
  pub embed_query : Option (Bytes → Option Bytes)
  pub vector : Bytes → ℕ → List String → Answer F

pub record SearchResponse (F : Type 0) : Type 0 where
  pub overall_status : String
  pub completeness : String
  pub failed_sources : List String
  pub retryable : Bool
  pub sources : List (Option SourceStatus)
  pub results : List (SearchHit F)
  pub warnings : List String

-- `srcResult`
pub record SrcResult (F : Type 0) : Type 0 where
  pub name : String
  pub results : List (ScoredNode F)
  pub status : Option SourceStatus

-- What a round of the `select` takes: the pending result at an index, or the end of the context.
pub data Choice : Type 0 where
  receive : ℕ → Choice
  done : Choice

-- The bounds on `max`.
unfoldable pub clamp_max : ℤ → ℕ
clamp_max (negsuc n) = 20
clamp_max (pos n) = if leb n 0 then 20 else if ltb 100 n then 100 else n

abbrev pub or_default : String → String → String
or_default s d = if str_eq s "" then d else s

degraded : {F : Type 0} → String → String → SrcResult F
degraded name message = record {
  name = name;
  results = [];
  status = some (record { source_name = name; status = "DEGRADED"; error_message = message });
}

-- The common end of the three goroutines.
settle : {F : Type 0} → String → String → Answer F → SrcResult F
settle name message none = degraded name message
settle name message (some (rs, st)) = record { name = name; results = rs; status = st }

unfoldable pub executed : Option SourceStatus → Bool
executed none = false
executed (some st) = str_eq st.status "OK" || str_eq st.status "EMPTY_BUT_EXECUTED"

abbrev is_source : String → Option SourceStatus → Bool
is_source name none = false
is_source name (some st) = str_eq st.source_name name

unfoldable pub source_executed_ok : List (Option SourceStatus) → String → Bool
source_executed_ok [] name = false
source_executed_ok (st ∷ rest) name =
    is_source name st && executed st || source_executed_ok rest name

module _ {F : Type 0} (src : Sources F) where
  open src use {fts, filename, embed_query, vector}

  launch_fts : SearchRequest → ℕ → SrcResult F
  unfolding settle
  launch_fts req max = settle "fts" "fts source unavailable" (fts req.query max req.content_classes)

  launch_filename : SearchRequest → ℕ → SrcResult F
  unfolding settle
  launch_filename req max =
      settle "filename" "filename source unavailable" (filename req.query (max / 2))

  launch_vector : SearchRequest → ℕ → Option Bytes → SrcResult F
  unfolding settle degraded
  launch_vector req max none = degraded "vector" "embedding failed"
  launch_vector req max (some vec) =
      settle "vector" "vector source unavailable" (vector vec max req.content_classes)

  vector_launch : SearchRequest → ℕ → Option (Bytes → Option Bytes) → List (SrcResult F)
  unfolding launch_vector
  vector_launch req max none = []
  vector_launch req max (some embed) = launch_vector req max (embed req.query) ∷ []

  -- The results that the goroutines started for a mode will send.
  unfoldable pub launch : SearchRequest → ℕ → String → List (SrcResult F)
  unfolding launch_fts launch_filename vector_launch
  launch req max mode =
      (if str_eq mode "auto" || str_eq mode "lexical" then launch_fts req max ∷ [] else [])
      ++ (if str_eq mode "auto" || str_eq mode "filename" then launch_filename req max ∷ [] else [])
      ++ (if str_eq mode "auto" || str_eq mode "semantic"
          then vector_launch req max embed_query
          else [])
