-- ===== src/Search/Broadly/Required.antt =====
-- The required source of a mode, and modes that start nothing.
use Prim.Native.String.{String}
use text.Mathlib.Text.{◌==◌ as str_eq}
use text.Mathlib.TextEquality.{eq_iff}
use mathlib.Core.Bool.{false≢true}
use foldermcp.Base.{
  ℕ, zero, suc, ◌≡◌, ◌≢◌, ◌⊎◌, refl, sym, ◌∙◌, List, [], ◌∷◌, Option, none, some, arith, true,
  false, inl, inr, Bool-cases, List-cases, not, ◌↔◌, take,
}
use foldermcp.Floats.{Floats}
use foldermcp.Proto.{SourceStatus}
use foldermcp.Search.Fuse.{Ranked, rrf_fuse}
use foldermcp.Search.Shape.{shape_hits}
use foldermcp.Search.Sources.{
  SearchRequest, Sources, SearchResponse, Choice, receive, clamp_max, executed, source_executed_ok,
}
use foldermcp.Search.Broadly.{initial, lacks_required, settle_failures, conclude, search_broadly}
use foldermcp.Search.Broadly.Loop.{IsOpen, collect-IsOpen}
use foldermcp.Search.Broadly.Status.{
  mode_of, search_broadly-cases, settle_failures-sources, initial-IsOpen,
}

-- A source of this name reported one of the two good statuses.
abbrev pub HasRun : String → List (Option SourceStatus) → Type 0
HasRun name [] = ⊥
HasRun name (none ∷ rest) = HasRun name rest
HasRun name (some st ∷ rest) =
    ((st.source_name ≡ name) × ((st.status ≡ "OK") ⊎ (st.status ≡ "EMPTY_BUT_EXECUTED")))
    ⊎ HasRun name rest

pub HasRun-executed :
    (sts : List (Option SourceStatus)) (name : String)
    → (source_executed_ok sts name ≡ true) ↔ HasRun name sts
unfolding source_executed_ok executed
HasRun-executed [] name = ((λ h. cc), (λ h. absurd h))
HasRun-executed (none ∷ rest) name = HasRun-executed rest name
HasRun-executed (some st ∷ rest) name =
    let ih = HasRun-executed rest name in
    (
      (λ h. ground (
        arith,
        eq_iff st.source_name name,
        eq_iff st.status "OK",
        eq_iff st.status "EMPTY_BUT_EXECUTED",
        ih.0,
      )),
      (λ h. ground (
        arith,
        eq_iff st.source_name name,
        eq_iff st.status "OK",
        eq_iff st.status "EMPTY_BUT_EXECUTED",
        ih.1,
      )),
    )

-- The source without which a mode fails.
abbrev pub Requires : String → String → Type 0
Requires mode name =
    ((mode ≡ "lexical") × (name ≡ "fts"))
    ⊎ ((mode ≡ "filename") × (name ≡ "filename"))
    ⊎ ((mode ≡ "semantic") × (name ≡ "vector"))

-- The modes that the handler knows.
abbrev pub IsMode : String → Type 0
IsMode m = (m ≡ "") ⊎ (m ≡ "auto") ⊎ (m ≡ "lexical") ⊎ (m ≡ "filename") ⊎ (m ≡ "semantic")

take-nil {ℓ} : {A : Type ℓ} (n : ℕ) → take {A = A} n [] ≡ []
take-nil zero = refl
take-nil (suc n) = refl

str_ne : (s t : String) → s ≢ t → str_eq s t ≡ false
str_ne s t h = ground (arith, eq_iff s t)

module _ (fl : Floats) where
  open fl use {F32}

  pub lacks_required-Requires :
      (mode name : String) (resp : SearchResponse F32)
      → Requires mode name
      → lacks_required mode resp ≡ not (source_executed_ok resp.sources name)
  unfolding lacks_required
  lacks_required-Requires mode name resp (inl (e, n)) = rw (e, n) (ground arith)
  lacks_required-Requires mode name resp (inr (inl (e, n))) = rw (e, n) (ground arith)
  lacks_required-Requires mode name resp (inr (inr (e, n))) = rw (e, n) (ground arith)

  pub mode_of-Requires :
      (req : SearchRequest) (name : String) → Requires req.mode name → mode_of fl req ≡ req.mode
  mode_of-Requires req name (inl (e, n)) = rw e refl
  mode_of-Requires req name (inr (inl (e, n))) = rw e refl
  mode_of-Requires req name (inr (inr (e, n))) = rw e refl

  settle_failures-ne-error :
      (resp : SearchResponse F32)
      → resp.overall_status ≢ "error"
      → (settle_failures resp).overall_status ≢ "error"
  unfolding settle_failures
  settle_failures-ne-error resp h = ground (arith, eq_iff "degraded" "error")

  IsOpen-ne-error : (resp : SearchResponse F32) → IsOpen resp → resp.overall_status ≢ "error"
  IsOpen-ne-error resp o = elim (List-cases resp.warnings) [
    | inl e ↦ ground (arith, eq_iff "ok" "error", o.before e)
    | inr (w, ws, e) ↦
        let late : resp.warnings ≢ [] = λ q. absurd (cc) in
        ground (arith, eq_iff "degraded" "error", o.after late)
  ]

  conclude-HasRun :
      (mode detail name : String) (max : ℕ) (resp : SearchResponse F32) (lists : Ranked fl)
      → IsOpen resp
      → Requires mode name
      → ((conclude fl mode detail max resp lists).overall_status ≢ "error")
        ↔ HasRun name (conclude fl mode detail max resp lists).sources
  unfolding conclude
  conclude-HasRun mode detail name max resp lists o q =
      let test = lacks_required-Requires mode name resp q in
      let runs = HasRun-executed resp.sources name in
      elim (Bool-cases (source_executed_ok resp.sources name)) [
        | inl e ↦
            rw (test, e, (settle_failures-sources fl _).0)
              ((λ h. runs.0 e), (λ h. settle_failures-ne-error _ (IsOpen-ne-error resp o)))
        | inr e ↦
            rw (test, e) ((λ h. absurd (h refl)), (λ h. absurd (false≢true (sym e ∙ runs.1 h))))
      ]

  -- In the modes lexical, filename and semantic a response reports an error exactly when the fts,
  -- the filename or the vector source is not among those that reported a run, by one of the statuses
  -- OK and EMPTY_BUT_EXECUTED.
  pub search_broadly-HasRun :
      (src : Sources F32) (req : SearchRequest) (schedule : List Choice) {name : String}
      → Requires req.mode name
      → ((search_broadly fl src req schedule).overall_status ≢ "error")
        ↔ HasRun name (search_broadly fl src req schedule).sources
  search_broadly-HasRun src req schedule {name} q =
      let mode = mode_of-Requires req name q in
      search_broadly-cases fl (λ r. (r.overall_status ≢ "error") ↔ HasRun name r.sources) src req
        schedule (λ e. ((λ h. absurd (h refl)), (λ h. absurd h)))
        (conclude-HasRun _ _ name _ _ _ (collect-IsOpen _ _ schedule initial [] initial-IsOpen)
          (rw mode q))

  -- A mode that the handler does not know starts no source: the answer is empty, and claims to be
  -- ok and full.
  pub search_broadly_unknown_mode :
      (src : Sources F32) (req : SearchRequest) (schedule : List Choice)
      → ¬ IsMode req.mode
      → search_broadly fl src req schedule ≡ initial
  unfolding search_broadly rrf_fuse shape_hits
  search_broadly_unknown_mode src req schedule h =
      let e0 : str_eq req.mode "" ≡ false = str_ne _ _ (λ q. h (inl q)) in
      let e1 : str_eq req.mode "auto" ≡ false = str_ne _ _ (λ q. h (inr (inl q))) in
      let e2 : str_eq req.mode "lexical" ≡ false = str_ne _ _ (λ q. h (inr (inr (inl q)))) in
      let e3 : str_eq req.mode "filename" ≡ false = str_ne _ _ (λ q. h (inr (inr (inr (inl q))))) in
      let e4 : str_eq req.mode "semantic" ≡ false = str_ne _ _ (λ q. h (inr (inr (inr (inr q))))) in
      rw (e0, e1, e2, e3, e4, take-nil)

  -- In the mode lexical, where the fts source fails and its failure is received, the response is
  -- an error that names the source as failed, and still claims to be full and not retryable.
  pub search_broadly_lost_source :
      (src : Sources F32) (req : SearchRequest) (schedule : List Choice)
      → req.mode ≡ "lexical"
      → src.fts req.query (clamp_max req.max_results) req.content_classes ≡ none
      → let r = search_broadly fl src req (receive 0 ∷ schedule) in
        (r.overall_status ≡ "error")
        × (r.completeness ≡ "full")
        × (r.failed_sources ≡ "fts" ∷ [])
        × (r.retryable ≡ false)
  unfolding search_broadly
  search_broadly_lost_source src req schedule e u = rw (e, u) (refl, refl, refl, refl)
