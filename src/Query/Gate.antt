-- ===== src/Query/Gate.antt =====
-- What the vector handler answers, and where it asks the database.
use Prim.Native.String.{String}
use text.Mathlib.TextEquality.{eq_iff}
use foldermcp.Base.{
  ℕ, ◌≤◌, ◌≡◌, ◌⊎◌, List, ==_iff, refl, inl, inr, Bool, true, false, [], Option, none, some, arith,
  Bytes, length, ◌==◌, Bool-cases,
}
use foldermcp.Base.Int.{ℤ}
use foldermcp.Query.Match.{clamp_k}
use foldermcp.Query.Hydrate.{
  Fetched, query_failed, scan_failed, rows_failed, rows, NodeDb, HydrationHint,
}
use foldermcp.Query.Handlers.{Answered, answered, scored, conclude, vector_search}
use foldermcp.Query.Statuses.{fetched_rows, Limited, IsReport, bounded, conclude-IsReport}

-- One of the two statuses of a query that ran.
abbrev pub IsRun : String → Type 0
IsRun st = (st ≡ "OK") ⊎ (st ≡ "EMPTY_BUT_EXECUTED")

abbrev pub ReportsRun : {F : Type 0} → Option (Answered F) → Type 0
ReportsRun none = ⊥
ReportsRun (some a) = IsRun a.status.status

pub degraded-not-IsRun : ¬ IsRun "DEGRADED"
degraded-not-IsRun = ground (arith, eq_iff "DEGRADED" "OK", eq_iff "DEGRADED" "EMPTY_BUT_EXECUTED")

contract-not-IsRun : ¬ IsRun "CONTRACT_ERROR"
contract-not-IsRun =
    ground (arith, eq_iff "CONTRACT_ERROR" "OK", eq_iff "CONTRACT_ERROR" "EMPTY_BUT_EXECUTED")

module _ {F G : Type 0} (db : NodeDb) (hint : Option HydrationHint) (to_score : G → F) where
  -- A vector handler that reports a run is not disabled, was given 384 bytes, and its query ended.
  pub vector_search-HasRun :
      (disabled : Bool) (run : Bytes → ℕ → Fetched (ℕ × G)) (vec : Bytes) (k : ℤ)
      → ReportsRun (vector_search db hint to_score disabled run vec k)
      → (disabled ≡ false)
        × (length vec ≡ 384)
        × (rs : List (ℕ × G)) × (run vec (clamp_k k) ≡ rows rs)
  unfolding vector_search
  vector_search-HasRun true run vec k h = absurd (degraded-not-IsRun h)
  vector_search-HasRun false run vec k h = elim (Bool-cases (length vec == 384)) [
    | inr e ↦
        let same : vector_search db hint to_score false run vec k
            ≡ some (answered "vector" "CONTRACT_ERROR" "embedding len, want 384" []) =
          rw (e, vector_search) in
        absurd (contract-not-IsRun (rw same at h))
    | inl e ↦
        let (rs, q) = go e (run vec (clamp_k k)) refl in
        (refl, (==_iff (length vec) 384).0 e, rs, q)
  ]
    where
      go :
          (length vec == 384) ≡ true
          → (f : Fetched (ℕ × G)) → run vec (clamp_k k) ≡ f
          → (rs : List (ℕ × G)) × (run vec (clamp_k k) ≡ rows rs)
      go e (query_failed m) q =
          let same : vector_search db hint to_score false run vec k
              ≡ some (answered "vector" "DEGRADED" m []) =
            rw (e, q, vector_search) in
          absurd (degraded-not-IsRun (rw same at h))
      go e (scan_failed rs m) q =
          let same : vector_search db hint to_score false run vec k ≡ none =
            rw (e, q, vector_search) in
          absurd (rw same at h)
      go e (rows_failed rs m) q =
          let same : vector_search db hint to_score false run vec k
              ≡ some (answered "vector" "DEGRADED" m (scored to_score rs)) =
            rw (e, q, vector_search) in
          absurd (degraded-not-IsRun (rw same at h))
      go e (rows rs) q = (rs, q)

  -- Where the query respects its limit, the answer of the vector handler, if it is not an error of
  -- the call, names vector and holds at most 100 results; its status is OK and there is a result, or
  -- EMPTY_BUT_EXECUTED and there is none, or one of the two statuses of a failure.
  pub vector_search-IsReport :
      (disabled : Bool) (run : Bytes → ℕ → Fetched (ℕ × G))
      → Limited run
      → (vec : Bytes) (k : ℤ)
      → IsReport "vector" (vector_search db hint to_score disabled run vec k)
  unfolding vector_search
  vector_search-IsReport true run lim vec k = (refl, inr (inr (inl refl)), omega arith)
  vector_search-IsReport false run lim vec k = elim (Bool-cases (length vec == 384)) [
    | inr e ↦
        let same : vector_search db hint to_score false run vec k
            ≡ some (answered "vector" "CONTRACT_ERROR" "embedding len, want 384" []) =
          rw (e, vector_search) in
        rw same (refl, inr (inr (inr refl)), omega arith)
    | inl e ↦ go e (run vec (clamp_k k)) refl (lim vec (clamp_k k))
  ]
    where
      go :
          (length vec == 384) ≡ true
          → (f : Fetched (ℕ × G)) → run vec (clamp_k k) ≡ f
          → length (fetched_rows (run vec (clamp_k k))) ≤ clamp_k k
          → IsReport "vector" (vector_search db hint to_score false run vec k)
      go e (query_failed m) q h =
          let same : vector_search db hint to_score false run vec k
              ≡ some (answered "vector" "DEGRADED" m []) =
            rw (e, q, vector_search) in
          rw same (refl, inr (inr (inl refl)), omega arith)
      go e (scan_failed rs m) q h =
          let same : vector_search db hint to_score false run vec k ≡ none =
            rw (e, q, vector_search) in
          rw same tt
      go e (rows_failed rs m) q h =
          let same : vector_search db hint to_score false run vec k
              ≡ some (answered "vector" "DEGRADED" m (scored to_score rs)) =
            rw (e, q, vector_search) in
          rw same (refl, inr (inr (inl refl)), bounded to_score rs k (rw q at h))
      go e (rows rs) q h =
          let same : vector_search db hint to_score false run vec k
              ≡ conclude db hint "vector" (scored to_score rs) =
            rw (e, q, vector_search) in
          rw same (
            conclude-IsReport db hint "vector" (scored to_score rs)
              (bounded to_score rs k (rw q at h)))
