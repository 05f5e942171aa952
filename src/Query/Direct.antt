-- ===== src/Query/Direct.antt =====
-- The handlers of internal/v3/grpc/query/metadata.go, nodes.go, chunks.go and graph.go. An error of the
-- call itself is its message; latencies are left out.
use Prim.Native.String.{String}
use foldermcp.Base.{ℕ, zero, suc, List, [], ◌∷◌, ◌++◌, Option, none, some, Bytes, codes}
use foldermcp.Base.Int.{ℤ, pos, negsuc}
use foldermcp.Proto.{HydratedChunk, HydratedNode, ScoredNode, SourceStatus}
use foldermcp.Query.Hydrate.{
  Fetched, query_failed, scan_failed, rows_failed, rows, NodeDb, HydrationHint, hydrate_nodes,
  found_nodes,
}
use foldermcp.Query.Match.{clamp_k}
use foldermcp.Query.Handlers.{Answered, answered, scored, executed_status}

-- What a call gives: its answer, or the message of its error.
pub data Reply (A : Type 0) : Type 0 where
  reply : A → Reply A
  refusal : String → Reply A

pub record MetadataRequest : Type 0 where
  pub content_class : Bytes
  pub path_prefix : Bytes
  pub mtime_from : ℤ
  pub mtime_to : ℤ
  pub k : ℤ

-- A condition of the query, with its argument, beside those on `deleted_at`.
pub data Condition : Type 0 where
  class_is : Bytes → Condition
  path_like : Bytes → Condition
  mtime_at_least : ℤ → Condition
  mtime_at_most : ℤ → Condition

abbrev pub unless_empty : Bytes → Condition → List Condition
unless_empty [] c = []
unless_empty (b ∷ s) c = c ∷ []

abbrev pub if_positive : ℤ → Condition → List Condition
if_positive (pos zero) c = []
if_positive (pos (suc n)) c = c ∷ []
if_positive (negsuc n) c = []

abbrev pub conditions : MetadataRequest → List Condition
conditions req =
    unless_empty req.content_class (class_is req.content_class)
    ++ (unless_empty req.path_prefix (path_like (req.path_prefix ++ codes "%"))
        ++ (if_positive req.mtime_from (mtime_at_least req.mtime_from)
            ++ if_positive req.mtime_to (mtime_at_most req.mtime_to)))

module _ {F : Type 0} (db : NodeDb) where
  abbrev pub metadata_hydrated : Option HydrationHint → List (ScoredNode F) → Reply (Answered F)
  metadata_hydrated none results = reply (answered "metadata" (executed_status results) "" results)
  metadata_hydrated (some hint) results = elim (hydrate_nodes db hint results) [
    | none ↦ refusal "metadata"
    | some filled ↦ reply (answered "metadata" (executed_status filled) "" filled)
  ]

  -- `run` is the query; the score is made of the time of change.
  unfoldable pub metadata_search :
      (ℕ → F)
      → (List Condition → ℕ → Fetched (ℕ × ℕ))
      → Option HydrationHint
      → MetadataRequest
      → Reply (Answered F)
  metadata_search to_score run hint req = elim (run (conditions req) (clamp_k req.k)) [
    | query_failed e ↦ reply (answered "metadata" "DEGRADED" e [])
    | scan_failed rs e ↦ refusal e
    | rows_failed rs e ↦ refusal e
    | rows rs ↦ metadata_hydrated hint (scored to_score rs)
  ]

-- The chunks of the nodes are read before an error of the iteration is.
abbrev pub nodes_hydrated :
    NodeDb → Option HydrationHint → List HydratedNode → Reply (List HydratedNode)
nodes_hydrated db none hs = reply hs
nodes_hydrated db (some hint) hs = elim (found_nodes db hint hs) [
  | none ↦ refusal "get_nodes hydrate"
  | some filled ↦ reply filled
]

abbrev pub or_rows_error : {A : Type 0} → String → Reply A → Reply A
or_rows_error e (reply _) = refusal e
or_rows_error e (refusal m) = refusal m

unfoldable pub get_nodes : NodeDb → Option HydrationHint → List ℕ → Reply (List HydratedNode)
get_nodes db hint [] = reply []
get_nodes db hint (id ∷ ids) = elim (db.nodes (id ∷ ids)) [
  | query_failed e ↦ refusal e
  | scan_failed hs e ↦ refusal e
  | rows_failed hs e ↦ or_rows_error e (nodes_hydrated db hint hs)
  | rows hs ↦ nodes_hydrated db hint hs
]

unfoldable pub get_chunks : (List ℕ → Fetched HydratedChunk) → List ℕ → Reply (List HydratedChunk)
get_chunks run [] = reply []
get_chunks run (id ∷ ids) = elim (run (id ∷ ids)) [
  | query_failed e ↦ refusal e
  | scan_failed cs e ↦ refusal e
  | rows_failed cs e ↦ refusal e
  | rows cs ↦ reply cs
]

abbrev pub graph_expand : SourceStatus
graph_expand = record { source_name = "graph"; status = "EMPTY_BUT_EXECUTED"; error_message = "" }
