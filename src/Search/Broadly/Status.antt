-- ===== src/Search/Broadly/Status.antt =====
-- What the response of `SearchBroadly` says of itself.
use Prim.Native.String.{String}
use text.Mathlib.Text.{◌==◌ as str_eq}
use text.Mathlib.TextEquality.{eq_iff}
use foldermcp.Base.{
  ℕ, ◌≤◌, ◌≡◌, ◌≢◌, ◌⊎◌, ◌↔◌, refl, sym, ◌∙◌, List, [], arith, length, true, false, ◌&&◌, inl, inr,
  Bool-cases, List-cases, length-take,
}
use foldermcp.Base.Int.{ℤ, pos, negsuc}
use foldermcp.Floats.{Floats}
use foldermcp.Search.Fuse.{Ranked, rrf_fuse, rrf_k}
use foldermcp.Search.Shape.{length-shape_hits}
use foldermcp.Search.Sources.{
  SearchRequest, Sources, SearchResponse, Choice, clamp_max, or_default, launch,
}
use foldermcp.Search.Broadly.{
  collect, initial, no_embedder, no_vector, lacks_required, settle_failures, conclude,
  search_broadly,
}
use foldermcp.Search.Broadly.Loop.{IsOpen, collect-IsOpen, results-collect, rounds, rounds-collect}

pub clamp_max-le : (n : ℤ) → clamp_max n ≤ 100
unfolding clamp_max
clamp_max-le (negsuc n) = omega arith
clamp_max-le (pos n) = ground arith

pub initial-IsOpen : {F : Type 0} → IsOpen {F = F} initial
initial-IsOpen = record {
  before = λ h. (refl, refl);
  after = λ h. absurd (h refl);
  no_retry = refl;
}

-- "full" is said of an answer exactly when no source failed and no deadline passed.
abbrev pub IsHonest : {F : Type 0} → SearchResponse F → Type 0
IsHonest resp = (resp.completeness ≡ "full") ↔ ((resp.failed_sources ≡ []) × (resp.warnings ≡ []))

abbrev pub IsWord : String → Type 0
IsWord s = (s ≡ "full") ⊎ (s ≡ "partial")

IsOpen-IsWord : {F : Type 0} (resp : SearchResponse F) → IsOpen resp → IsWord resp.completeness
IsOpen-IsWord resp o = elim (List-cases resp.warnings) [
  | inl e ↦ inl (o.before e).0
  | inr (w, ws, e) ↦ inr (o.after (λ q. absurd (cc))).0
]

pub partial-ne-full : ◌≢◌ {A = String} "partial" "full"
partial-ne-full = ground (arith, eq_iff "partial" "full")

settle-IsHonest :
    {F : Type 0} (resp : SearchResponse F) → IsOpen resp → IsHonest (settle_failures resp)
unfolding settle_failures
settle-IsHonest resp o = elim (List-cases resp.failed_sources) [
  | inl none_failed ↦ elim (List-cases resp.warnings) [
    | inl in_time ↦
        rw (none_failed, settle_failures)
          ((λ h. (none_failed, in_time)), (λ h. (o.before in_time).0))
    | inr (w, ws, e) ↦
        let ne : resp.warnings ≢ [] = λ q. absurd (cc) in
        rw (none_failed, settle_failures)
          ((λ h. absurd (partial-ne-full (sym (o.after ne).0 ∙ h))), (λ h. absurd (ne h.1)))
  ]
  | inr (s, ss, e) ↦ rw (e, settle_failures) ((λ h. absurd (partial-ne-full h)), (λ h. absurd (cc)))
]

module _ (fl : Floats) where
  open fl use {F32}

  abbrev pub mode_of : SearchRequest → String
  mode_of req = or_default req.mode "auto"

  abbrev pub loop_of : Sources F32 → SearchRequest → List Choice → SearchResponse F32 × Ranked fl
  loop_of src req schedule =
      let pending = launch src req (clamp_max req.max_results) (mode_of req) in
      collect (length pending) pending schedule initial []

  -- The two ways through the handler.
  pub search_broadly-cases {κ} :
      (P : SearchResponse F32 → Type κ) (src : Sources F32) (req : SearchRequest)
      (schedule : List Choice)
      → ((str_eq (mode_of req) "semantic" && no_vector fl src.embed_query) ≡ true → P no_embedder)
      → P (
          conclude fl
            (mode_of req)
            (or_default req.detail "standard")
            (clamp_max req.max_results)
            (loop_of src req schedule).0
            (loop_of src req schedule).1)
      → P (search_broadly fl src req schedule)
  unfolding search_broadly
  search_broadly-cases P src req schedule early late =
      elim (Bool-cases (str_eq (mode_of req) "semantic" && no_vector fl src.embed_query)) [
        | inl e ↦ rw e (early e)
        | inr e ↦ rw e late
      ]

  settle_failures-results :
      (resp : SearchResponse F32) → (settle_failures resp).results ≡ resp.results
  unfolding settle_failures
  settle_failures-results resp = ground arith

  conclude-results-le :
      (mode detail : String) (max : ℕ) (resp : SearchResponse F32) (lists : Ranked fl)
      → resp.results ≡ []
      → length (conclude fl mode detail max resp lists).results ≤ max
  unfolding conclude
  conclude-results-le mode detail max resp lists h = elim (Bool-cases (lacks_required mode resp)) [
    | inl e ↦ rw (e, h) (omega arith)
    | inr e ↦
        rw (e, settle_failures-results, length-shape_hits)
          (omega (arith, length-take max (rrf_fuse fl lists rrf_k)))
  ]

  -- A response holds at most `max` results, the request's number brought between 1 and 100.
  pub search_broadly-results-le :
      (src : Sources F32) (req : SearchRequest) (schedule : List Choice)
      → (length (search_broadly fl src req schedule).results ≤ clamp_max req.max_results)
        × (clamp_max req.max_results ≤ 100)
  search_broadly-results-le src req schedule = (
    search_broadly-cases (λ r. length r.results ≤ clamp_max req.max_results) src req schedule
        (λ e. omega arith)
        (conclude-results-le _ _ _ _ _ (results-collect _ _ schedule initial [])),
    clamp_max-le req.max_results,
  )

  conclude-IsHonest :
      (mode detail : String) (max : ℕ) (resp : SearchResponse F32) (lists : Ranked fl)
      → IsOpen resp
      → (conclude fl mode detail max resp lists).overall_status ≢ "error"
      → IsHonest (conclude fl mode detail max resp lists)
  unfolding conclude
  conclude-IsHonest mode detail max resp lists o = elim (Bool-cases (lacks_required mode resp)) [
    | inl e ↦ rw e (λ h. absurd (h refl))
    | inr e ↦ rw e (λ h.
        settle-IsHonest _ (record { before = o.before; after = o.after; no_retry = o.no_retry }))
  ]

  -- Unless it reports an error, a response claims to be full exactly when no source failed and
  -- the deadline did not pass.
  pub search_broadly-IsHonest :
      (src : Sources F32) (req : SearchRequest) (schedule : List Choice)
      → (search_broadly fl src req schedule).overall_status ≢ "error"
      → IsHonest (search_broadly fl src req schedule)
  search_broadly-IsHonest src req schedule =
      search_broadly-cases (λ r. r.overall_status ≢ "error" → IsHonest r) src req schedule
        (λ e h. absurd (h refl))
        (conclude-IsHonest _ _ _ _ _ (collect-IsOpen _ _ schedule initial [] initial-IsOpen))

  pub settle_failures-sources :
      (resp : SearchResponse F32)
      → ((settle_failures resp).sources ≡ resp.sources)
        × ((settle_failures resp).warnings ≡ resp.warnings)
  unfolding settle_failures
  settle_failures-sources resp = ground arith

  pub conclude-sources :
      (mode detail : String) (max : ℕ) (resp : SearchResponse F32) (lists : Ranked fl)
      → ((conclude fl mode detail max resp lists).sources ≡ resp.sources)
        × ((conclude fl mode detail max resp lists).warnings ≡ resp.warnings)
  unfolding conclude
  conclude-sources mode detail max resp lists = elim (Bool-cases (lacks_required mode resp)) [
    | inl e ↦ rw e (refl, refl)
    | inr e ↦ rw e (settle_failures-sources _)
  ]

  -- Every source that was started is accounted for, by its status or by a deadline's warning,
  -- unless the semantic mode has no embedder.
  pub search_broadly-accounts :
      (src : Sources F32) (req : SearchRequest) (schedule : List Choice)
      → (str_eq (mode_of req) "semantic" && no_vector fl src.embed_query) ≡ false
      → rounds (search_broadly fl src req schedule)
        ≡ length (launch src req (clamp_max req.max_results) (mode_of req))
  search_broadly-accounts src req schedule h =
      search_broadly-cases
        (λ r. rounds r ≡ length (launch src req (clamp_max req.max_results) (mode_of req))) src req
        schedule (λ e. absurd (cc))
        (let loop = loop_of src req schedule in
          let kept =
            conclude-sources (mode_of req) (or_default req.detail "standard")
              (clamp_max req.max_results) loop.0 loop.1 in
          rw (kept.0, kept.1)
            (omega (
              arith,
              rounds-collect (length (launch src req (clamp_max req.max_results) (mode_of req)))
                  (launch src req (clamp_max req.max_results) (mode_of req)) schedule initial [],
            )))

  settle_failures-IsWord :
      (resp : SearchResponse F32)
      → IsWord resp.completeness
      → IsWord (settle_failures resp).completeness
  unfolding settle_failures
  settle_failures-IsWord resp h = elim (List-cases resp.failed_sources) [
    | inl e ↦ rw (e, settle_failures) h
    | inr (s, ss, e) ↦ rw (e, settle_failures) (inr refl)
  ]

  conclude-IsWord :
      (mode detail : String) (max : ℕ) (resp : SearchResponse F32) (lists : Ranked fl)
      → IsWord resp.completeness
      → IsWord (conclude fl mode detail max resp lists).completeness
  unfolding conclude
  conclude-IsWord mode detail max resp lists h = elim (Bool-cases (lacks_required mode resp)) [
    | inl e ↦ rw e h
    | inr e ↦ rw e (settle_failures-IsWord _ h)
  ]

  -- A response is full or partial.
  pub search_broadly-IsWord :
      (src : Sources F32) (req : SearchRequest) (schedule : List Choice)
      → IsWord (search_broadly fl src req schedule).completeness
  search_broadly-IsWord src req schedule =
      search_broadly-cases (λ r. IsWord r.completeness) src req schedule (λ e. inr refl)
        (conclude-IsWord _ _ _ _ _
          (IsOpen-IsWord _ (collect-IsOpen _ _ schedule initial [] initial-IsOpen)))
