-- ===== src/Search/Broadly/Loop.antt =====
-- The `select` loop of `SearchBroadly`.
use Prim.Native.String.{String}
use foldermcp.Base.{
  ℕ, zero, suc, ◌+◌, ◌≡◌, ◌≢◌, refl, List, [], ◌∷◌, ◌++◌, arith, length, false, length-append, inl,
  inr, Option-cases,
}
use foldermcp.Proto.{ScoredNode}
use foldermcp.Search.Sources.{SearchResponse, SrcResult, Choice, receive, done}
use foldermcp.Search.Broadly.{pick, received, expired, add_ranked, collect}

-- What the loop keeps: the response is as at the start until a deadline, and then degraded.
pub record IsOpen {F : Type 0} (resp : SearchResponse F) : Type 0 where
  pub before : resp.warnings ≡ [] → (resp.completeness ≡ "full") × (resp.overall_status ≡ "ok")
  pub after :
      resp.warnings ≢ [] → (resp.completeness ≡ "partial") × (resp.overall_status ≡ "degraded")
  pub no_retry : resp.retryable ≡ false

snoc-ne-nil : (ws : List String) (w : String) → ws ++ w ∷ [] ≢ []
snoc-ne-nil [] w h = cc
snoc-ne-nil (v ∷ ws) w h = cc

module _ {F : Type 0} where
  received-IsOpen :
      (r : SrcResult F) (resp : SearchResponse F) → IsOpen resp → IsOpen (received r resp)
  unfolding received
  received-IsOpen r resp o = record { before = o.before; after = o.after; no_retry = o.no_retry }

  expired-IsOpen : (resp : SearchResponse F) → IsOpen resp → IsOpen (expired resp)
  unfolding expired
  expired-IsOpen resp o = record {
    before = λ h. absurd (snoc-ne-nil resp.warnings _ h);
    after = λ h. (refl, refl);
    no_retry = o.no_retry;
  }

  pub collect-IsOpen :
      (n : ℕ) (pending : List (SrcResult F)) (cs : List Choice) (resp : SearchResponse F)
      (lists : List (String × List (ScoredNode F)))
      → IsOpen resp
      → IsOpen (collect n pending cs resp lists).0
  unfolding collect
  collect-IsOpen zero pending cs resp lists o = o
  collect-IsOpen (suc n) pending [] resp lists o =
      collect-IsOpen n pending [] (expired resp) lists (expired-IsOpen resp o)
  collect-IsOpen (suc n) pending (done ∷ cs) resp lists o =
      collect-IsOpen n pending cs (expired resp) lists (expired-IsOpen resp o)
  collect-IsOpen (suc n) pending (receive i ∷ cs) resp lists o =
      elim (Option-cases (pick i pending)) [
        | inl e ↦
            rw (e, collect)
              (collect-IsOpen n pending cs (expired resp) lists (expired-IsOpen resp o))
        | inr ((r, rest), e) ↦
            rw (e, collect)
              (collect-IsOpen n rest cs (received r resp) (add_ranked r.name r.results lists)
                (received-IsOpen r resp o))
      ]

  -- Rounds that are accounted for: a status or a warning each.
  abbrev pub rounds : SearchResponse F → ℕ
  rounds resp = length resp.sources + length resp.warnings

  rounds-received :
      (r : SrcResult F) (resp : SearchResponse F) → rounds (received r resp) ≡ rounds resp + 1
  unfolding received
  rounds-received r resp = omega (arith, length-append resp.sources (r.status ∷ []))

  rounds-expired : (resp : SearchResponse F) → rounds (expired resp) ≡ rounds resp + 1
  unfolding expired
  rounds-expired resp = omega (arith, length-append resp.warnings ("deadline exceeded" ∷ []))

  pub rounds-collect :
      (n : ℕ) (pending : List (SrcResult F)) (cs : List Choice) (resp : SearchResponse F)
      (lists : List (String × List (ScoredNode F)))
      → rounds (collect n pending cs resp lists).0 ≡ rounds resp + n
  unfolding collect
  rounds-collect zero pending cs resp lists = omega arith
  rounds-collect (suc n) pending [] resp lists =
      omega (arith, rounds-collect n pending [] (expired resp) lists, rounds-expired resp)
  rounds-collect (suc n) pending (done ∷ cs) resp lists =
      omega (arith, rounds-collect n pending cs (expired resp) lists, rounds-expired resp)
  rounds-collect (suc n) pending (receive i ∷ cs) resp lists =
      elim (Option-cases (pick i pending)) [
        | inl e ↦
            rw (e, collect)
              (omega (arith, rounds-collect n pending cs (expired resp) lists, rounds-expired resp))
        | inr ((r, rest), e) ↦
            rw (e, collect)
              (omega (
                arith,
                rounds-collect n rest cs (received r resp) (add_ranked r.name r.results lists),
                rounds-received r resp,
              ))
      ]

  pub results-collect :
      (n : ℕ) (pending : List (SrcResult F)) (cs : List Choice) (resp : SearchResponse F)
      (lists : List (String × List (ScoredNode F)))
      → (collect n pending cs resp lists).0.results ≡ resp.results
  unfolding collect received expired
  results-collect zero pending cs resp lists = refl
  results-collect (suc n) pending [] resp lists = results-collect n pending [] (expired resp) lists
  results-collect (suc n) pending (done ∷ cs) resp lists =
      results-collect n pending cs (expired resp) lists
  results-collect (suc n) pending (receive i ∷ cs) resp lists =
      elim (Option-cases (pick i pending)) [
        | inl e ↦ rw (e, collect) (results-collect n pending cs (expired resp) lists)
        | inr ((r, rest), e) ↦
            rw (e, collect)
              (results-collect n rest cs (received r resp) (add_ranked r.name r.results lists))
      ]
