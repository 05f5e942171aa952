-- ===== src/Search/Broadly.antt =====
-- `SearchBroadly` of internal/v3/grpc/tools/search_broadly.go: the `select` loop, where a schedule
-- says which pending result a round receives, or that the deadline comes first, and what follows.
pub mod Loop
pub mod Status
pub mod Required
pub mod Sent
use Prim.Native.String.{String}
use text.Mathlib.Text.{◌==◌ as str_eq}
use foldermcp.Base.{
  ℕ, zero, suc, Bool, true, false, not, ◌&&◌, ◌||◌, List, [], ◌∷◌, ◌++◌, Option, none, some, Bytes,
  length, take, if◌then◌else◌,
}
use foldermcp.Floats.{Floats}
use foldermcp.Proto.{ScoredNode, SourceStatus}
use foldermcp.Search.Fuse.{Ranked, rrf_fuse, rrf_k}
use foldermcp.Search.Shape.{shape_hits}
use foldermcp.Search.Sources.{
  SearchRequest, Sources, SearchResponse, SrcResult, Choice, receive, done, clamp_max, or_default,
  executed, source_executed_ok, launch,
}

-- `r.status != nil`, and neither of the two good statuses.
abbrev pub failed : Option SourceStatus → Bool
failed none = false
failed (some st) = not (executed (some st))

module _ {F : Type 0} where
  -- A receive from the channel: the result at an index, and what stays pending.
  pub pick : ℕ → List (SrcResult F) → Option (SrcResult F × List (SrcResult F))
  pick i [] = none
  pick zero (r ∷ rs) = some (r, rs)
  pick (suc i) (r ∷ rs) = elim (pick i rs) [ none ↦ none | some (s, rest) ↦ some (s, r ∷ rest) ]

  -- An empty result is not put into the map of ranked lists.
  abbrev pub add_ranked :
      String
      → List (ScoredNode F)
      → List (String × List (ScoredNode F))
      → List (String × List (ScoredNode F))
  add_ranked name [] lists = lists
  add_ranked name (n ∷ ns) lists = lists ++ (name, n ∷ ns) ∷ []

  -- `case r := <-ch`
  pub received : SrcResult F → SearchResponse F → SearchResponse F
  unfolding executed
  received r resp = record resp {
    sources = resp.sources ++ r.status ∷ [];
    failed_sources =
        if failed r.status then resp.failed_sources ++ r.name ∷ [] else resp.failed_sources;
  }

  -- `case <-ctx.Done()`
  pub expired : SearchResponse F → SearchResponse F
  expired resp = record resp {
    warnings = resp.warnings ++ "deadline exceeded" ∷ [];
    completeness = "partial";
    overall_status = "degraded";
  }

  -- The `select` loop. A receive of what is not pending waits, until the context ends; so does a
  -- round for which the schedule says nothing.
  pub collect :
      ℕ
      → List (SrcResult F)
      → List Choice
      → SearchResponse F
      → List (String × List (ScoredNode F))
      → SearchResponse F × List (String × List (ScoredNode F))
  unfolding pick received expired
  collect zero pending cs resp lists = (resp, lists)
  collect (suc n) pending [] resp lists = collect n pending [] (expired resp) lists
  collect (suc n) pending (done ∷ cs) resp lists = collect n pending cs (expired resp) lists
  collect (suc n) pending (receive i ∷ cs) resp lists = elim (pick i pending) [
    | none ↦ collect n pending cs (expired resp) lists
    | some (r, rest) ↦ collect n rest cs (received r resp) (add_ranked r.name r.results lists)
  ]

  abbrev pub initial : SearchResponse F
  initial = record {
    overall_status = "ok";
    completeness = "full";
    failed_sources = [];
    retryable = false;
    sources = [];
    results = [];
    warnings = [];
  }

  -- The answer where the semantic mode has no embedder.
  abbrev no_embedder : SearchResponse F
  no_embedder = record initial {
    overall_status = "error";
    completeness = "partial";
    failed_sources = "vector" ∷ [];
  }

  -- The three modes that need one source: a response in which it has not run.
  unfoldable pub lacks_required : String → SearchResponse F → Bool
  lacks_required mode resp =
      str_eq mode "lexical" && not (source_executed_ok resp.sources "fts")
      || str_eq mode "filename" && not (source_executed_ok resp.sources "filename")
      || str_eq mode "semantic" && not (source_executed_ok resp.sources "vector")

  -- The last `if` of the handler.
  pub settle_failures : SearchResponse F → SearchResponse F
  settle_failures resp = elim resp.failed_sources [
    | [] ↦ resp
    | s ∷ ss ↦ record resp {
      completeness = "partial";
      overall_status = if str_eq resp.overall_status "ok" then "degraded" else resp.overall_status;
      retryable = true;
    }
  ]

module _ (fl : Floats) where
  open fl use {F32}

  -- What follows the loop: the required source, the fusion, the shaping.
  pub conclude : String → String → ℕ → SearchResponse F32 → Ranked fl → SearchResponse F32
  unfolding lacks_required source_executed_ok settle_failures
  conclude mode detail max resp lists =
      if lacks_required mode resp
      then record resp { overall_status = "error" }
      else settle_failures
          (record resp { results = shape_hits fl (take max (rrf_fuse fl lists rrf_k)) detail })

  abbrev no_vector : Option (Bytes → Option Bytes) → Bool
  no_vector none = true
  no_vector (some embed) = false

  unfoldable pub search_broadly : Sources F32 → SearchRequest → List Choice → SearchResponse F32
  unfolding clamp_max launch collect conclude
  search_broadly src req schedule =
      let max = clamp_max req.max_results in
      let mode = or_default req.mode "auto" in
      let detail = or_default req.detail "standard" in
      let pending = launch src req max mode in
      let loop = collect (length pending) pending schedule initial [] in
      if str_eq mode "semantic" && no_vector src.embed_query
      then no_embedder
      else conclude mode detail max loop.0 loop.1
