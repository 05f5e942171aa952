-- ===== src/Server.antt =====
-- `NewServer` of internal/v3/grpc/server.go, as far as `SearchBroadly` uses it: the handlers over one
-- database, and what `SearchBroadly` asks of them.
pub mod Semantic
mod Tests
use Prim.Native.String.{String}
use foldermcp.Base.{ℕ, Bool, true, not, List, Option, none, some, Bytes}
use foldermcp.Base.Int.{pos}
use foldermcp.Proto.{SourceStatus}
use foldermcp.Search.Sources.{Answer, Sources}
use foldermcp.Query.Match.{Decoder}
use foldermcp.Query.Hydrate.{Fetched, NodeDb, HydrationHint}
use foldermcp.Query.Handlers.{Answered, fts_search, vector_search, filename_search}
use foldermcp.Pipeline.Engine.{Engine}
use foldermcp.Pipeline.Compat.{semantic_index_compatible}

-- What the handlers take from the database and from libraries: their queries, for the content classes
-- of a request, and the scores.
pub record Queries (F G : Type 0) : Type 0 where
  pub nodes : NodeDb
  pub decoder : Decoder
  pub fts_rows : List String → Bytes → ℕ → Fetched (ℕ × F)
  pub tokens : Bytes → List Bytes
  pub filename_score : ℕ → F
  pub filename_rows : List Bytes → ℕ → Fetched (ℕ × ℕ)
  pub vector_score : G → F
  pub vector_rows : List String → Bytes → ℕ → Fetched (ℕ × G)

-- The handler's response, and its status; an error of the call is `none`.
abbrev pub answer_of : {F : Type 0} → Option (Answered F) → Answer F
answer_of none = none
answer_of (some a) = some (a.results, some a.status)

-- The hint of `SearchBroadly`.
abbrev pub search_hint : Option HydrationHint
search_hint = some (record { chunks = true; per_node = pos 2 })

module _ {F G : Type 0} (E : Engine) (db : E.Db) (q : Queries F G) where
  -- `vec.Disabled`
  abbrev pub disabled : Bool
  disabled = not (semantic_index_compatible E db).0

  -- The handlers of a new server, called as `SearchBroadly` calls them.
  abbrev pub new_server : Option (Bytes → Option Bytes) → Sources F
  new_server embedder = record {
    fts = λ query k classes.
        answer_of (fts_search q.nodes search_hint q.decoder (q.fts_rows classes) query (pos k));
    filename = λ query k. answer_of (
        filename_search q.nodes search_hint q.filename_score q.tokens q.filename_rows query
          (pos k));
    embed_query = embedder;
    vector = λ vec k classes. answer_of (
        vector_search q.nodes search_hint q.vector_score disabled (q.vector_rows classes) vec
          (pos k));
  }
