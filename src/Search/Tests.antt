-- ===== src/Search/Tests.antt =====
-- Runs of the search, and its theorems at concrete inputs.
use Prim.Native.String.{String}
use mathlib.Core.List.{Permᴰ}
use text.Mathlib.TextEquality.{eq_iff}
use foldermcp.Base.{
  ℕ, ◌≤◌, ◌≡◌, ◌≢◌, ◌↔◌, inl, inr, refl, List, [], ◌∷◌, Option, none, some, false, length, codes,
  All, AllPairs, arith,
}
use foldermcp.Base.Int.{negsuc}
use foldermcp.Base.Sort.{sort_slice}
use foldermcp.Floats.{millionths}
use foldermcp.Proto.{ScoredNode, SourceStatus}
use foldermcp.Search.Fuse.{Hit, Ranked, add_lists, ranks_before, rrf_fuse}
use foldermcp.Search.Fuse.Order.{Precedes, rrf_fuse_order, rrf_fuse_range}
use foldermcp.Search.Fuse.Totals.{
  reference, has_id, is_cons, places, rrf_fuse_sound, rrf_fuse_complete,
}
use foldermcp.Search.Sources.{SearchRequest, Sources, receive, done, clamp_max, launch}
use foldermcp.Search.Broadly.{search_broadly, initial}
use foldermcp.Search.Broadly.Loop.{rounds}
use foldermcp.Search.Broadly.Status.{
  IsHonest, search_broadly-results-le, search_broadly-IsHonest, search_broadly-accounts,
}
use foldermcp.Search.Broadly.Required.{
  IsMode, HasRun, search_broadly-HasRun, search_broadly_unknown_mode, search_broadly_lost_source,
}

abbrev node : ℕ → ScoredNode ℕ
node id = record { node_id = id; score = 0; hydrated = none }

-- The lists of TestRRFFuseTieBreakOnNodeID.
abbrev tied_lists : Ranked millionths
tied_lists = ("fts", node 10 ∷ node 20 ∷ []) ∷ ("filename", node 20 ∷ node 10 ∷ []) ∷ []

abbrev ids : List (Hit millionths) → List ℕ
ids [] = []
ids (h ∷ hs) = h.node_id ∷ ids hs

tie_break : ids (rrf_fuse millionths tied_lists 60) ≡ 10 ∷ 20 ∷ []
unfolding rrf_fuse
tie_break = refl

-- The lists of TestRRFFuseMultiSourceBoostsScore.
abbrev boost_lists : Ranked millionths
boost_lists = ("fts", node 1 ∷ []) ∷ ("filename", node 2 ∷ []) ∷ ("vector", node 1 ∷ []) ∷ []

boosted : ids (rrf_fuse millionths boost_lists 60) ≡ 1 ∷ 2 ∷ []
unfolding rrf_fuse
boosted = refl

rrf_fuse_order_example :
    AllPairs (Precedes millionths) (rrf_fuse millionths tied_lists 60)
    × AllPairs (λ f g. f.node_id ≢ g.node_id) (rrf_fuse millionths tied_lists 60)
rrf_fuse_order_example = rrf_fuse_order millionths tied_lists 60

-- The two hits, the other way round.
abbrev turned : List (Hit millionths)
turned =
    record {
      node_id = 20;
      hydrated = none;
      score = 32522;
      matched_sources = "fts" ∷ "filename" ∷ [];
    }
    ∷ record {
      node_id = 10;
      hydrated = none;
      score = 32522;
      matched_sources = "fts" ∷ "filename" ∷ [];
    }
    ∷ []

turned_permᴰ : Permᴰ (add_lists millionths 60 tied_lists []) turned
unfolding rrf_fuse
turned_permᴰ = Permᴰ.swap refl refl

rrf_fuse_range_example :
    sort_slice (ranks_before millionths) turned ≡ rrf_fuse millionths tied_lists 60
rrf_fuse_range_example = rrf_fuse_range millionths tied_lists 60 turned_permᴰ

rrf_fuse_sound_example :
    All
      (λ h. h ≡ reference millionths 60 h.node_id boost_lists)
      (rrf_fuse millionths boost_lists 60)
rrf_fuse_sound_example = rrf_fuse_sound millionths boost_lists 60

rrf_fuse_complete_example :
    has_id millionths 2 (rrf_fuse millionths boost_lists 60)
    ≡ is_cons (places millionths 2 boost_lists)
rrf_fuse_complete_example = rrf_fuse_complete millionths boost_lists 60 2

abbrev ok_status : String → Option SourceStatus
ok_status name = some (record { source_name = name; status = "OK"; error_message = "" })

-- The fts source fails, the filename source finds a node, and there is no embedder.
abbrev half_working : Sources ℕ
half_working = record {
  fts = λ q k cs. none;
  filename = λ q k. some (node 7 ∷ [], ok_status "filename");
  embed_query = none;
  vector = λ q k cs. none;
}

abbrev request : String → SearchRequest
request mode = record {
  query = codes "config";
  detail = "";
  mode = mode;
  content_classes = [];
  max_results = negsuc 0;
}

degraded-ne-error : ◌≢◌ {A = String} "degraded" "error"
degraded-ne-error = ground (arith, eq_iff "degraded" "error")

fuzzy-unknown : ¬ IsMode "fuzzy"
fuzzy-unknown = ground (
  arith,
  eq_iff "fuzzy" "",
  eq_iff "fuzzy" "auto",
  eq_iff "fuzzy" "lexical",
  eq_iff "fuzzy" "filename",
  eq_iff "fuzzy" "semantic",
)

partial_answer :
    (search_broadly millionths half_working
      (request "")
      (receive 1 ∷ receive 0 ∷ [])).overall_status
    ≡ "degraded"
unfolding search_broadly rrf_fuse
partial_answer = refl

search_broadly-results-le_example :
    (length
        (search_broadly millionths half_working (request "") (receive 1 ∷ receive 0 ∷ [])).results
      ≤ clamp_max (negsuc 0))
    × (clamp_max (negsuc 0) ≤ 100)
search_broadly-results-le_example =
    search_broadly-results-le millionths half_working (request "") (receive 1 ∷ receive 0 ∷ [])

search_broadly-IsHonest_example :
    IsHonest (search_broadly millionths half_working (request "") (receive 1 ∷ done ∷ []))
unfolding search_broadly rrf_fuse
search_broadly-IsHonest_example =
    search_broadly-IsHonest millionths half_working (request "") (receive 1 ∷ done ∷ [])
      degraded-ne-error

search_broadly-accounts_example :
    rounds (search_broadly millionths half_working (request "") (receive 1 ∷ done ∷ []))
    ≡ length (launch half_working (request "") (clamp_max (negsuc 0)) "auto")
search_broadly-accounts_example =
    search_broadly-accounts millionths half_working (request "") (receive 1 ∷ done ∷ []) refl

search_broadly-HasRun_example :
    ((search_broadly millionths half_working (request "filename") (receive 0 ∷ [])).overall_status
      ≢ "error")
    ↔ HasRun "filename"
        (search_broadly millionths half_working (request "filename") (receive 0 ∷ [])).sources
search_broadly-HasRun_example =
    search_broadly-HasRun millionths half_working (request "filename") (receive 0 ∷ [])
      (inr (inl (refl, refl)))

search_broadly_unknown_mode_example :
    search_broadly millionths half_working (request "fuzzy") [] ≡ initial
search_broadly_unknown_mode_example =
    search_broadly_unknown_mode millionths half_working (request "fuzzy") [] fuzzy-unknown

search_broadly_lost_source_example :
    let r = search_broadly millionths half_working (request "lexical") (receive 0 ∷ []) in
    (r.overall_status ≡ "error")
    × (r.completeness ≡ "full")
    × (r.failed_sources ≡ "fts" ∷ [])
    × (r.retryable ≡ false)
search_broadly_lost_source_example =
    search_broadly_lost_source millionths half_working (request "lexical") [] refl refl
