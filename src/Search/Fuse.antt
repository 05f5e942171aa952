-- ===== src/Search/Fuse.antt =====
-- `rrfFuse` of internal/v3/grpc/tools/search_broadly.go. The map from node ids to hits is the list
-- of its values in the order of insertion; a map of ranked lists is given in the order of its range.
pub mod Order
pub mod Totals
use Prim.Native.String.{String}
use foldermcp.Base.{
  ℕ, zero, suc, ◌+◌, Bool, List, [], ◌∷◌, ◌++◌, Option, none, some, ltb, ◌==◌, if◌then◌else◌,
}
use foldermcp.Base.Sort.{sort_slice}
use foldermcp.Floats.{Floats}
use foldermcp.Proto.{HydratedNode, ScoredNode}

abbrev pub rrf_k : ℕ
rrf_k = 60

pub record FusedHit (F : Type 0) : Type 0 where
  pub node_id : ℕ
  pub hydrated : Option HydratedNode
  pub score : F
  pub matched_sources : List String

-- Keep what is there, or take the other.
abbrev pub or_else {ℓ} : {A : Type ℓ} → Option A → Option A → Option A
or_else (some a) b = some a
or_else none b = b

module _ (fl : Floats) where
  open fl use {F64, F32, zero_f, add, reciprocal, eq, lt}

  abbrev pub Hit : Type 0
  Hit = FusedHit F64

  abbrev pub Ranked : Type 0
  Ranked = List (String × List (ScoredNode F32))

  -- `&fusedHit{nodeID: node.NodeId, hydrated: node.Hydrated}`
  abbrev pub fresh_hit : ScoredNode F32 → Hit
  fresh_hit node = record {
    node_id = node.node_id;
    hydrated = node.hydrated;
    score = zero_f;
    matched_sources = [];
  }

  -- What the loop's body does to the hit of a node.
  abbrev pub boost : ℕ → String → ℕ → ScoredNode F32 → Hit → Hit
  boost k src rank node h = record h {
    score = add h.score (reciprocal (k + rank + 1));
    matched_sources = h.matched_sources ++ src ∷ [];
    hydrated = or_else h.hydrated node.hydrated;
  }

  -- The body of the inner loop, with the lookup in the map.
  pub upsert : ℕ → String → ℕ → ScoredNode F32 → List Hit → List Hit
  upsert k src rank node [] = boost k src rank node (fresh_hit node) ∷ []
  upsert k src rank node (h ∷ hs) =
      if h.node_id == node.node_id
      then boost k src rank node h ∷ hs
      else h ∷ upsert k src rank node hs

  -- `for rank, node := range list`
  pub add_list : ℕ → String → ℕ → List (ScoredNode F32) → List Hit → List Hit
  add_list k src rank [] hits = hits
  add_list k src rank (n ∷ ns) hits = add_list k src (suc rank) ns (upsert k src rank n hits)

  -- `for srcName, list := range lists`
  pub add_lists : ℕ → Ranked → List Hit → List Hit
  add_lists k [] hits = hits
  add_lists k ((src, list) ∷ rest) hits = add_lists k rest (add_list k src 0 list hits)

  -- The comparison given to `sort.Slice`.
  pub ranks_before : Hit → Hit → Bool
  ranks_before f g = if eq f.score g.score then ltb f.node_id g.node_id else lt g.score f.score

  unfoldable pub rrf_fuse : Ranked → ℕ → List Hit
  unfolding upsert add_list add_lists ranks_before sort_slice
  rrf_fuse lists k = sort_slice ranks_before (add_lists k lists [])
