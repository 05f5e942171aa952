-- ===== src/Query/Hydrate.antt =====
-- `hydrateNodes` of internal/v3/grpc/query/hydrate.go; an error is `none`.
use Prim.Native.String.{String}
use foldermcp.Base.{
  ℕ, zero, suc, Bool, List, [], ◌∷◌, Option, none, some, ◌>>=◌, map, if◌then◌else◌, ◌==◌,
}
use foldermcp.Base.Int.{ℤ, pos, negsuc}
use foldermcp.Proto.{HydratedChunk, HydratedNode, ScoredNode}

-- What a query gives: it fails, or a scan fails behind some rows, or the iteration does, or it
-- ends.
pub data Fetched (R : Type 0) : Type 0 where
  query_failed : String → Fetched R
  scan_failed : List R → String → Fetched R
  rows_failed : List R → String → Fetched R
  rows : List R → Fetched R

-- `nodeByID[id]`: of two rows of one id the later one.
abbrev pub node_by_id : ℕ → List HydratedNode → Option HydratedNode
node_by_id id [] = none
node_by_id id (h ∷ hs) = elim (node_by_id id hs) [
  | some found ↦ some found
  | none ↦ if h.node_id == id then some h else none
]

abbrev pub chunks_per_node : ℤ → ℤ
chunks_per_node (pos zero) = pos 2
chunks_per_node (pos (suc n)) = pos (suc n)
chunks_per_node (negsuc n) = negsuc n

pub record HydrationHint : Type 0 where
  pub chunks : Bool
  pub per_node : ℤ

-- The query of the nodes by their ids, and `fetchTopChunks`.
pub record NodeDb : Type 0 where
  pub nodes : List ℕ → Fetched HydratedNode
  pub top_chunks : ℕ → ℤ → Option (List HydratedChunk)

pub with_chunks : NodeDb → ℤ → List HydratedNode → Option (List HydratedNode)
with_chunks db limit [] = some []
with_chunks db limit (h ∷ hs) = do
  cs ← db.top_chunks h.node_id limit
  rest ← with_chunks db limit hs
  some (record h { chunks = cs } ∷ rest)

-- The nodes, with their first chunks where they are asked for.
pub found_nodes : NodeDb → HydrationHint → List HydratedNode → Option (List HydratedNode)
unfolding with_chunks
found_nodes db hint hs =
    let filled = with_chunks db (chunks_per_node hint.per_node) hs in
    if hint.chunks then filled else some hs

module _ {F : Type 0} where
  abbrev pub attach : List HydratedNode → List (ScoredNode F) → List (ScoredNode F)
  attach hs [] = []
  attach hs (s ∷ ss) =
      let rest = attach hs ss in
      elim (node_by_id s.node_id hs) [
        | none ↦ s ∷ rest
        | some h ↦ record s { hydrated = some h } ∷ rest
      ]

  unfoldable pub hydrate_nodes :
      NodeDb → HydrationHint → List (ScoredNode F) → Option (List (ScoredNode F))
  unfolding found_nodes
  hydrate_nodes db hint [] = some []
  hydrate_nodes db hint (s ∷ ss) =
      elim (db.nodes (map (λ (r : ScoredNode F). r.node_id) (s ∷ ss))) [
        | query_failed e ↦ none
        | scan_failed hs e ↦ none
        | rows_failed hs e ↦ none
        | rows hs ↦ elim (found_nodes db hint hs) [
          | none ↦ none
          | some found ↦ some (attach found (s ∷ ss))
        ]
      ]
