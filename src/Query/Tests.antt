-- ===== src/Query/Tests.antt =====
-- Match expressions of ASCII queries, and the theorem at one.
use Prim.Native.String.{String}
use foldermcp.Base.{
  ◌↔◌, List, map, ℕ, ◌≤◌, ◌≡◌, ◌⊎◌, refl, Bool, true, false, ◌||◌, ◌&&◌, [], ◌∷◌, Option, none,
  some, arith, Bytes, codes, length, leb, take, length-take,
}
use foldermcp.Query.Match.{Decoder, clamp_k, terms_of, build_fts_match, fts_tokenize}
use foldermcp.Base.Int.{pos}
use foldermcp.Proto.{HydratedNode, ScoredNode}
use foldermcp.Query.Hydrate.{Fetched, rows, NodeDb, HydrationHint, hydrate_nodes}
use foldermcp.Query.Handlers.{answered, fts_search, vector_search}
use foldermcp.Query.Statuses.{Limited, IsReport, keys, fts_search-IsReport, keys-hydrate_nodes}
use foldermcp.Query.Gate.{vector_search-IsReport}
use mathlib.Core.List.{Memᴰ}
use foldermcp.Query.Direct.{Reply, reply, refusal, get_nodes}
use foldermcp.Query.Batch.{
  BatchHandler, BatchOp, vector_op, fts_op, unknown_op, BatchResponse, dispatch, batch_all,
}
use foldermcp.Query.Batch.Order.{IsFailure, batch_all-IsOrdered}
use foldermcp.Query.Reader.{read_match, build_fts_match_lem}

abbrev ascii_letter : Bytes → Bool
ascii_letter [] = false
ascii_letter (c ∷ s) = leb 97 c && leb c 122 || leb 48 c && leb c 57

abbrev ascii : Decoder
ascii = record { width = λ s. 1; is_term = ascii_letter; width_pos = λ s. omega arith }

build_fts_match_text :
    build_fts_match ascii (codes "what is \"rrf\"?") ≡ some (codes "\"what\" OR \"is\" OR \"rrf\"")
unfolding build_fts_match fts_tokenize
build_fts_match_text = refl

build_fts_match_blank : build_fts_match ascii (codes "?!") ≡ none
unfolding build_fts_match fts_tokenize
build_fts_match_blank = refl

build_fts_match_lem_example :
    ((build_fts_match ascii (codes "a b?") ≡ none) × (terms_of ascii (codes "a b?") ≡ []))
    ⊎ ((m : Bytes) × (build_fts_match ascii (codes "a b?") ≡ some m)
        × (read_match m ≡ some (terms_of ascii (codes "a b?")))
        × (length (terms_of ascii (codes "a b?")) ≤ 64))
build_fts_match_lem_example = build_fts_match_lem ascii (codes "a b?")

abbrev note : HydratedNode
note = record { node_id = 7; path = codes "a.md"; name = codes "a.md"; chunks = [] }

abbrev one_node : NodeDb
one_node = record {
  nodes = λ ids. rows (note ∷ []);
  top_chunks = λ id limit. some (record { chunk_id = 1; text = codes "hi"; token_count = 1 } ∷ []);
}

abbrev both : Option HydrationHint
both = some (record { chunks = true; per_node = pos 0 })

abbrev first_row : Bytes → ℕ → Fetched (ℕ × ℕ)
first_row q k = rows (take k ((7, 12) ∷ (8, 3) ∷ []))

first_row-Limited : Limited first_row
first_row-Limited q k = omega (arith, length-take {A = ℕ × ℕ} k ((7, 12) ∷ (8, 3) ∷ []))

abbrev hit : ScoredNode ℕ
hit = record { node_id = 7; score = 12; hydrated = none }

fts_search_one :
    fts_search one_node none ascii first_row (codes "hi") (pos 1)
    ≡ some (answered "fts" "OK" "" (hit ∷ []))
unfolding fts_search build_fts_match fts_tokenize clamp_k
fts_search_one = refl

fts_search-IsReport_example :
    IsReport "fts" (fts_search one_node both ascii first_row (codes "hi there") (pos 5))
fts_search-IsReport_example =
    fts_search-IsReport one_node both ascii first_row first_row-Limited (codes "hi there") (pos 5)

vector_search-IsReport_example :
    IsReport "vector"
      (vector_search one_node both (λ (d : ℕ). d) false first_row (codes "abc") (pos 5))
vector_search-IsReport_example =
    vector_search-IsReport one_node both (λ d. d) false first_row first_row-Limited (codes "abc")
      (pos 5)

keys-hydrate_nodes_example : keys (record hit { hydrated = some note } ∷ []) ≡ keys (hit ∷ [])
unfolding hydrate_nodes
keys-hydrate_nodes_example =
    keys-hydrate_nodes one_node (record { chunks = false; per_node = pos 0 }) (hit ∷ [])
      (record hit { hydrated = some note } ∷ []) refl

-- Handlers of which only two answer.
abbrev refusing : ℕ → Reply ℕ
refusing q = refusal "Internal"

abbrev handlers : BatchHandler ℕ ℕ ℕ ℕ ℕ ℕ ℕ ℕ
handlers = record {
  vector = λ q. reply q;
  fts = refusing;
  filename = refusing;
  metadata = refusing;
  graph = λ q. reply 0;
  nodes = refusing;
  chunks = refusing;
}

abbrev three_ops : List (BatchOp ℕ ℕ ℕ ℕ ℕ ℕ ℕ)
three_ops = vector_op 7 ∷ fts_op 1 ∷ unknown_op ∷ []

batch_all-IsOrdered_example :
    (out : BatchResponse ℕ) × (batch_all handlers three_ops ≡ reply out)
    × (out.results ≡ map (dispatch handlers) three_ops)
    × ((i : ℕ) (e : String) → Memᴰ (i, e) out.warnings ↔ IsFailure handlers three_ops i e)
batch_all-IsOrdered_example = batch_all-IsOrdered handlers three_ops (omega arith)

get_nodes_none : get_nodes one_node both [] ≡ reply []
unfolding get_nodes
get_nodes_none = refl
