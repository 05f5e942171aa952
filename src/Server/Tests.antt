-- ===== src/Server/Tests.antt =====
-- The theorems of the server at concrete inputs.
use Prim.Native.String.{String}
use text.Mathlib.TextEquality.{eq_iff}
use mathlib.Core.Option.{none-ne-some}
use foldermcp.Base.{
  ℕ, zero, suc, ◌≡◌, ◌≢◌, refl, sym, ◌∙◌, true, [], ◌∷◌, Option, none, some, Bytes, codes, arith,
}
use foldermcp.Base.Int.{pos}
use foldermcp.Floats.{millionths}
use foldermcp.Proto.{HydratedNode}
use foldermcp.Search.Sources.{SearchRequest, receive}
use foldermcp.Search.Broadly.{search_broadly}
use foldermcp.Query.Match.{Decoder}
use foldermcp.Query.Hydrate.{rows, NodeDb, hydrate_nodes}
use foldermcp.Query.Handlers.{vector_search}
use foldermcp.Pipeline.Tables.{Fingerprint}
use foldermcp.Pipeline.Memory.Store.{Memory}
use foldermcp.Pipeline.Memory.{in_memory}
use foldermcp.Pipeline.Fingerprint.{writer_fingerprint}
use foldermcp.Pipeline.Compat.{semantic_index_compatible}
use foldermcp.Server.{Queries, new_server}
use foldermcp.Server.Semantic.{Embedded, semantic_search-Embedded}

abbrev zeros : ℕ → Bytes
zeros zero = []
zeros (suc n) = 0 ∷ zeros n

abbrev marked_by : Fingerprint → Memory
marked_by fp = record {
  tables = record {
    file = λ _. none;
    pass_row = λ _ _. none;
    node = λ _. none;
    chunk = λ _. none;
    vector = λ _. none;
    fingerprint = some fp;
  };
  ids = [];
  next = 1;
  distinct = tt;
  covers = λ g x h. absurd (none-ne-some x h);
}

abbrev note : HydratedNode
note = record { node_id = 7; path = codes "a.md"; name = codes "a.md"; chunks = [] }

abbrev one_node : NodeDb
one_node = record { nodes = λ ids. rows (note ∷ []); top_chunks = λ id limit. some [] }

abbrev ascii : Decoder
ascii = record { width = λ s. 1; is_term = λ s. true; width_pos = λ s. omega arith }

abbrev queries : Queries ℕ ℕ
queries = record {
  nodes = one_node;
  decoder = ascii;
  fts_rows = λ classes expr k. rows [];
  tokens = λ query. [];
  filename_score = λ n. n;
  filename_rows = λ patterns k. rows [];
  vector_score = λ d. d;
  vector_rows = λ classes vec k. rows ((7, 3) ∷ []);
}

abbrev embed : Bytes → Option Bytes
embed query = some (zeros 384)

abbrev request : SearchRequest
request = record {
  query = codes "config";
  detail = "";
  mode = "semantic";
  content_classes = [];
  max_results = pos 5;
}

-- An index whose vectors were coded in another way.
abbrev other_mode : Fingerprint
other_mode = record writer_fingerprint { quantization_mode = "int8_per_vector" }

refuses_other_mode :
    (search_broadly millionths
      (new_server in_memory (marked_by other_mode) queries (some embed))
      request
      (receive 0 ∷ [])).overall_status
    ≡ "error"
unfolding search_broadly semantic_index_compatible vector_search
refuses_other_mode = refl

reports_ok :
    (search_broadly millionths
      (new_server in_memory (marked_by writer_fingerprint) queries (some embed))
      request
      (receive 0 ∷ [])).overall_status
    ≡ "ok"
unfolding search_broadly semantic_index_compatible vector_search hydrate_nodes
reports_ok = refl

ok-ne-error : ◌≢◌ {A = String} "ok" "error"
ok-ne-error = ground (arith, eq_iff "ok" "error")

no_error :
    (search_broadly millionths
      (new_server in_memory (marked_by writer_fingerprint) queries (some embed))
      request
      (receive 0 ∷ [])).overall_status
    ≢ "error"
no_error h = ok-ne-error (sym reports_ok ∙ h)

semantic_search-Embedded_example :
    ((semantic_index_compatible in_memory (marked_by writer_fingerprint)).0 ≡ true)
    × Embedded millionths in_memory (marked_by writer_fingerprint) queries request (some embed)
semantic_search-Embedded_example =
    semantic_search-Embedded millionths in_memory (marked_by writer_fingerprint) queries
      (some embed) request (receive 0 ∷ []) refl no_error
