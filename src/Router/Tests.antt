-- ===== src/Router/Tests.antt =====
-- The answer to a search whose source failed.
use foldermcp.Base.{refl, All, codes, map, ◌≡◌, [], ◌∷◌, none, some, true}
use Prim.Native.Nat.{ℕ}
use foldermcp.Base.Int.{pos}
use foldermcp.Router.Safe.{IsPublic, labels, search_result-IsPublic}
use foldermcp.Search.Sources.{SearchRequest, Sources, SearchResponse}
use foldermcp.Router.{
  SourceInfo, sanitize_source_error, search_result_from_proto, annotate_completeness,
}

abbrev failed_response : SearchResponse ℕ
failed_response = record {
  overall_status = "degraded";
  completeness = "partial";
  failed_sources = "fts" ∷ [];
  retryable = true;
  sources =
      none
      ∷ some (record {
        source_name = "fts";
        status = "DEGRADED";
        error_message = "sqlite: no such table";
      })
      ∷ [];
  results = [];
  warnings = [];
}

shown :
    map
      (λ (s : SourceInfo). s.error_message)
      (annotate_completeness (search_result_from_proto (λ s. s) (some failed_response))).sources
    ≡ "database query failed" ∷ []
unfolding annotate_completeness search_result_from_proto sanitize_source_error
shown = refl

search_result-IsPublic_example :
    let r = annotate_completeness (search_result_from_proto (λ s. s) (some failed_response)) in
    All IsPublic r.sources
    × (map (λ (s : SourceInfo). (s.source_name, s.status)) r.sources
        ≡ labels failed_response.sources)
search_result-IsPublic_example = search_result-IsPublic (λ s. s) failed_response

-- A search by file names over an index that has one file.
abbrev one_file : Sources ℕ
one_file = record {
  fts = λ q k cs. none;
  filename = λ q k. some (
    record { node_id = 7; score = 0; hydrated = none } ∷ [],
    some (record { source_name = "filename"; status = "OK"; error_message = "" }),
  );
  embed_query = none;
  vector = λ q k cs. none;
}

abbrev request : SearchRequest
request = record {
  query = codes "config";
  detail = "";
  mode = "auto";
  content_classes = [];
  max_results = pos 5;
}
