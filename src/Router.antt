-- ===== src/Router.antt =====
-- internal/v3/router: convert.go and completeness.go, for the answer of a search. A nil pointer is
-- `none`; there is none among the results. `lower` is `strings.ToLower`.
pub mod Safe
pub mod Warned
mod Tests
use Prim.Native.String.{String}
use text.Mathlib.Text.{◌==◌ as str_eq}
use foldermcp.Base.{
  ℕ, ◌≡◌, refl, sym, ap, ◌∙◌, inl, inr, Bool, true, false, ◌&&◌, ◌||◌, Bool-cases, List, [], ◌∷◌,
  Option, none, some, Bytes, codes, starts_with, map, All, if◌then◌else◌,
}
use mathlib.Core.List.{Memᴰ}
use foldermcp.Proto.{SourceStatus, SearchHit}
use foldermcp.Search.Sources.{SearchResponse}

pub record SourceInfo : Type 0 where
  pub source_name : String
  pub status : String
  pub error_message : String

pub record SearchResult (F : Type 0) : Type 0 where
  pub status : String
  pub completeness : String
  pub failed_sources : List String
  pub retryable : Bool
  pub sources : List SourceInfo
  pub results : List (SearchHit F)
  pub warnings : List String

-- `strings.Contains`
abbrev pub contains : Bytes → Bytes → Bool
contains [] sub = starts_with [] sub
contains (c ∷ s) sub = starts_with (c ∷ s) sub || contains s sub

unfoldable pub sanitize_source_error : (Bytes → Bytes) → String → String
sanitize_source_error lower msg =
    let low = lower (codes msg) in
    if str_eq msg ""
    then ""
    else if contains low (codes "sql") || contains low (codes "sqlite")
    then "database query failed"
    else if contains low (codes "embed")
    then "embedding operation failed"
    else if contains low (codes "timeout") || contains low (codes "deadline")
    then "operation timed out"
    else if contains low (codes "connect") || contains low (codes "refused")
    then "service connection failed"
    else "internal error"

abbrev pub source_info : (Bytes → Bytes) → SourceStatus → SourceInfo
source_info lower s = record {
  source_name = s.source_name;
  status = s.status;
  error_message = sanitize_source_error lower s.error_message;
}

-- A nil source is passed over.
abbrev pub source_infos : (Bytes → Bytes) → List (Option SourceStatus) → List SourceInfo
source_infos lower [] = []
source_infos lower (none ∷ ss) = source_infos lower ss
source_infos lower (some s ∷ ss) = source_info lower s ∷ source_infos lower ss

abbrev pub warned : List String → List String
warned [] = "completeness=partial; some sources failed. See failed_sources and sources[]." ∷ []
warned (w ∷ ws) = w ∷ ws

module _ {F : Type 0} where
  unfoldable pub search_result_from_proto :
      (Bytes → Bytes) → Option (SearchResponse F) → SearchResult F
  search_result_from_proto lower none = record {
    status = "error";
    completeness = "partial";
    failed_sources = [];
    retryable = false;
    sources = [];
    results = [];
    warnings = [];
  }
  search_result_from_proto lower (some p) = record {
    status = p.overall_status;
    completeness = p.completeness;
    failed_sources = p.failed_sources;
    retryable = p.retryable;
    sources = source_infos lower p.sources;
    results = p.results;
    warnings = p.warnings;
  }

  unfoldable pub annotate_completeness : SearchResult F → SearchResult F
  annotate_completeness r =
      if str_eq r.completeness "partial" then record r { warnings = warned r.warnings } else r

abbrev pub public_errors : List String
public_errors =
    "" ∷ "database query failed" ∷ "embedding operation failed" ∷ "operation timed out"
    ∷ "service connection failed" ∷ "internal error" ∷ []
