-- ===== src/Query/Handlers.antt =====
-- The handlers of internal/v3/grpc/query/fts.go, vector.go and filename.go. An error of the call
-- itself is `none`; latencies, and the length in the message on a vector of another one, are left
-- out.
use Prim.Native.String.{String}
use foldermcp.Base.{
  ℕ, Bool, List, [], ◌∷◌, ◌++◌, Option, none, some, map, Bytes, codes, length, if◌then◌else◌, ◌==◌,
}
use foldermcp.Base.Int.{ℤ}
use foldermcp.Proto.{ScoredNode, SourceStatus}
use foldermcp.Query.Hydrate.{
  Fetched, query_failed, scan_failed, rows_failed, rows, NodeDb, HydrationHint, hydrate_nodes,
}
use foldermcp.Query.Match.{Decoder, build_fts_match, clamp_k}

pub record Answered (F : Type 0) : Type 0 where
  pub status : SourceStatus
  pub results : List (ScoredNode F)

module _ {F : Type 0} where
  abbrev pub answered : String → String → String → List (ScoredNode F) → Answered F
  answered name st message results = record {
    status = record { source_name = name; status = st; error_message = message };
    results = results;
  }

  abbrev pub executed_status : List (ScoredNode F) → String
  executed_status [] = "EMPTY_BUT_EXECUTED"
  executed_status (r ∷ rs) = "OK"

  -- A row of a node and what its score is made of.
  abbrev pub scored : {G : Type 0} → (G → F) → List (ℕ × G) → List (ScoredNode F)
  scored f [] = []
  scored f ((id, g) ∷ rs) = record { node_id = id; score = f g; hydrated = none } ∷ scored f rs

  -- The hydration, where it is asked for, and the status of a query that ran.
  abbrev pub conclude :
      NodeDb → Option HydrationHint → String → List (ScoredNode F) → Option (Answered F)
  conclude db none name results = some (answered name (executed_status results) "" results)
  conclude db (some hint) name results = elim (hydrate_nodes db hint results) [
    | none ↦ none
    | some filled ↦ some (answered name (executed_status filled) "" filled)
  ]

  module _ (db : NodeDb) (hint : Option HydrationHint) where
    unfoldable pub fts_search :
        Decoder → (Bytes → ℕ → Fetched (ℕ × F)) → Bytes → ℤ → Option (Answered F)
    fts_search d run query k = elim (build_fts_match d query) [
      | none ↦ some (answered "fts" "EMPTY_BUT_EXECUTED" "" [])
      | some expr ↦ elim (run expr (clamp_k k)) [
        | query_failed e ↦ some (answered "fts" "DEGRADED" e [])
        | scan_failed rs e ↦ some (answered "fts" "CONTRACT_ERROR" e (scored (λ x. x) rs))
        | rows_failed rs e ↦ some (answered "fts" "CONTRACT_ERROR" e (scored (λ x. x) rs))
        | rows rs ↦ conclude db hint "fts" (scored (λ x. x) rs)
      ]
    ]

    -- `run` is the KNN query; the score of a distance is 1 / (1 + distance).
    unfoldable pub vector_search :
        {G : Type 0}
        → (G → F)
        → Bool
        → (Bytes → ℕ → Fetched (ℕ × G))
        → Bytes
        → ℤ
        → Option (Answered F)
    vector_search to_score disabled run vec k =
        let asked = elim (run vec (clamp_k k)) as (λ x. Option (Answered F)) [
          | query_failed e ↦ some (answered "vector" "DEGRADED" e [])
          | scan_failed rs e ↦ none
          | rows_failed rs e ↦ some (answered "vector" "DEGRADED" e (scored to_score rs))
          | rows rs ↦ conclude db hint "vector" (scored to_score rs)
        ] in
        if disabled
        then some (
            answered "vector" "DEGRADED"
              "semantic search disabled: index quantization is incompatible with this server — rebuild the index"
              [])
        else if length vec == 384
        then asked
        else some (answered "vector" "CONTRACT_ERROR" "embedding len, want 384" [])

    -- `tokens` is `strings.Fields` of `strings.ToLower`; the score is made of the length of the path.
    unfoldable pub filename_search :
        (ℕ → F)
        → (Bytes → List Bytes)
        → (List Bytes → ℕ → Fetched (ℕ × ℕ))
        → Bytes
        → ℤ
        → Option (Answered F)
    filename_search to_score tokens run query k =
        let patterns = map (λ tok. codes "%" ++ (tok ++ codes "%")) (tokens query) in
        let asked = elim (run patterns (clamp_k k)) as (λ x. Option (Answered F)) [
          | query_failed e ↦ some (answered "filename" "DEGRADED" e [])
          | scan_failed rs e ↦ none
          | rows_failed rs e ↦ none
          | rows rs ↦ conclude db hint "filename" (scored to_score rs)
        ] in
        elim (tokens query) [
          | [] ↦ some (answered "filename" "EMPTY_BUT_EXECUTED" "" [])
          | t ∷ ts ↦ asked
        ]
