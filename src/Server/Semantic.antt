-- ===== src/Server/Semantic.antt =====
-- A semantic search of a whole server.
use mathlib.Core.Bool.{false≢true}
use foldermcp.Base.{
  ℕ, Bool, true, false, not, ◌≡◌, ◌≢◌, ◌⊎◌, refl, sym, inl, inr, List, Option, none, some, Bytes,
  length, Option-cases,
}
use foldermcp.Base.Int.{pos}
use foldermcp.Floats.{Floats}
use foldermcp.Search.Sources.{SearchRequest, Choice, clamp_max, launch}
use foldermcp.Search.Broadly.{search_broadly}
use foldermcp.Search.Broadly.Status.{mode_of}
use foldermcp.Search.Broadly.Required.{HasRun, search_broadly-HasRun}
use foldermcp.Search.Broadly.Sent.{statuses, search_broadly-sent}
use foldermcp.Query.Match.{clamp_k}
use foldermcp.Query.Hydrate.{rows}
use foldermcp.Query.Handlers.{Answered, vector_search}
use foldermcp.Query.Gate.{IsRun, ReportsRun, degraded-not-IsRun, vector_search-HasRun}
use foldermcp.Pipeline.Engine.{Engine}
use foldermcp.Pipeline.Compat.{semantic_index_compatible}
use foldermcp.Server.{Queries, disabled, new_server, search_hint}

not-false : (b : Bool) → not b ≡ false → b ≡ true
not-false true h = refl
not-false false h = absurd (false≢true (sym h))

only_run : {A B : Type 0} → (A × B) ⊎ ⊥ → B
only_run (inl h) = h.1
only_run (inr h) = absurd h

module _ (fl : Floats) {G : Type 0} (E : Engine) (db : E.Db) (q : Queries fl.F32 G) where
  open fl use {F32}

  -- The embedding of the query, and its search, went well.
  abbrev pub Embedded : SearchRequest → Option (Bytes → Option Bytes) → Type 0
  Embedded req none = ⊥
  Embedded req (some embed) =
      (vec : Bytes) × (embed req.query ≡ some vec)
      × (length vec ≡ 384)
      × (rs : List (ℕ × G)) × (q.vector_rows req.content_classes vec
            (clamp_k (pos (clamp_max req.max_results)))
          ≡ rows rs)

  abbrev asked : SearchRequest → Bytes → Option (Answered F32)
  asked req vec =
      vector_search q.nodes search_hint q.vector_score (disabled E db q)
        (q.vector_rows req.content_classes) vec (pos (clamp_max req.max_results))

  launched-Embedded :
      (req : SearchRequest) (embedder : Option (Bytes → Option Bytes))
      → HasRun "vector" (
          statuses (launch (new_server E db q embedder) req (clamp_max req.max_results) "semantic"))
      → ((semantic_index_compatible E db).0 ≡ true) × Embedded req embedder
  unfolding launch
  launched-Embedded req none h = absurd h
  launched-Embedded req (some embed) h = elim (Option-cases (embed req.query)) [
    | inl e ↦ absurd (degraded-not-IsRun (only_run (rw e at h)))
    | inr (vec, e) ↦ elim (Option-cases (asked req vec)) [
      | inl f ↦ absurd (degraded-not-IsRun (only_run (rw (e, f) at h)))
      | inr (a, f) ↦
          let good : IsRun a.status.status = only_run (rw (e, f) at h) in
          let ran : ReportsRun (asked req vec) = rw f good in
          let (on, size, rs, ended) =
            vector_search-HasRun q.nodes search_hint q.vector_score (disabled E db q)
              (q.vector_rows req.content_classes) vec (pos (clamp_max req.max_results)) ran in
          (not-false _ on, (vec, e, size, rs, ended))
    ]
  ]

  -- A semantic search that reports no error was made with an index that is compatible with the
  -- queries, by an embedder that embeds the query in 384 bytes, and the query for their neighbours
  -- ended without an error.
  pub semantic_search-Embedded :
      (embedder : Option (Bytes → Option Bytes)) (req : SearchRequest) (schedule : List Choice)
      → req.mode ≡ "semantic"
      → (search_broadly fl (new_server E db q embedder) req schedule).overall_status ≢ "error"
      → ((semantic_index_compatible E db).0 ≡ true) × Embedded req embedder
  semantic_search-Embedded embedder req schedule e h =
      let src = new_server E db q embedder in
      let run = (search_broadly-HasRun fl src req schedule (inr (inr (e, refl)))).0 h in
      let sent = search_broadly-sent fl src req schedule "vector" run in
      let is : mode_of fl req ≡ "semantic" = rw e refl in
      launched-Embedded req embedder (rw is at sent)
