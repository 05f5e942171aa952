-- ===== src/Lib.antt =====
-- FolderMCP: models of the parts of the program that carry its own logic, with their theorems.
--
-- The program indexes a folder into one SQLite database (internal/v3/pipeline: walk, chunk, embed)
-- and serves searches from it (internal/v3/grpc). A search goes from internal/v3/router over gRPC
-- to the tools of internal/v3/grpc/tools, which call the handlers of internal/v3/grpc/query.
--
-- Base       shared names, lists over the native numbers, predicates, byte strings, `sort.Slice`
-- Floats     the float64 operations that a score needs, as an interface with their order laws
-- Proto      the messages of internal/v3/proto/foldermcp.proto, with the fields that are read
-- Search     internal/v3/grpc/tools/search_broadly.go: Search/Fuse is rrfFuse, Search/Shape is
--            shapeHits, firstSnippet and truncate, Search/Sources and Search/Broadly the handler
-- Browse     internal/v3/grpc/tools/browse_folder.go: Browse/Prefix is prefixUpperBound,
--            Browse/Paths the path helpers, Browse/Handler the handler
-- Chunker    internal/v3/chunker: Chunker/Text is what it uses of strings and utf8, Chunker/Prose is
--            prose.go (Tiles, Cover and Offsets are about its chunks), Chunker/Code is ast.go. The
--            hard cut runs on fuel, the length of the text, enough since every cut takes a byte
-- Tokenizer  internal/v3/embed/berttok/berttok.go: Tokenizer/Pieces is wordPiece, Tokenizer/Words
--            the normalizer and basicTokenize, Tokenizer/Added splitOnAddedTokens,
--            Tokenizer/Encode New and Encode. The loops over a word and over a text run on fuel,
--            their length, which is enough since a piece and an added token are not empty
-- Query      internal/v3/grpc/query: Query/Match is buildFTSMatch, ftsTokenize and clampK, Query/Reader
--            a reader of its expressions, Query/Hydrate hydrate.go, Query/Handlers the handlers of
--            fts.go, vector.go and filename.go, Query/Statuses and Query/Gate their theorems;
--            Query/Direct metadata.go, nodes.go, chunks.go and graph.go, Query/Batch batch.go. The
--            split into terms runs on fuel, the length of the query, since a rune has a byte
-- State      internal/lifecycle/controller.go is State/Lifecycle; internal/state/store.go is
--            State/Store over the interface State/Table of a SQLite table; State/Updates,
--            State/Upserts and State/History hold the theorems. An error of the start of a
--            transaction is one of its first statement
-- Walker     internal/v3/walker: Walker/Classes is mime.go and binary.go, Walker/Walk walker.go and
--            hash.go over the entries of a disk
-- Pipeline   internal/v3/pipeline: Pipeline/Tables is the tables that it writes, by their primary keys,
--            and what its statements do, Pipeline/Engine SQLite as an interface, with the statements of
--            pipeline.go; Pipeline/Tx the steps of a transaction; Pipeline/Runner the three passes of
--            runner.go and WriteBatch of internal/v3/embed/writer.go, Pipeline/Process runPerFile and
--            processOneFile, Pipeline/Run the run, Pipeline/Fingerprint internal/v3/store/fingerprint.go,
--            Pipeline/Compat internal/v3/embed/compat.go.
--            The loop of the run runs on fuel, enough if more than the files, since each turn but the
--            last attempts a new one. Pipeline/Sound holds what the tables keep
--            and what a walk leaves in them, Pipeline/Memory a
--            database in memory for the tests. A panic is an outcome beside an error
-- Router     convert.go and completeness.go of internal/v3/router, for the answer of a search, with
--            Router/Safe and Router/Warned about it
-- Server     NewServer of internal/v3/grpc/server.go as far as SearchBroadly uses it: it puts together the
--            models of Search, Query and Pipeline/Compat
-- Watcher    poll and emit of internal/watcher/watcher.go: Watcher/Changes and Watcher/Poll
--
-- Go strings are lists of bytes, in the tokenizer lists of runes, where the text is valid UTF-8; the
-- unicode tables, NFD and ToLower are an interface. Status words, modes and the columns of a tool,
-- which are only compared, are texts. Row ids are positive, so natural numbers. A goroutine is the
-- one value that it sends, and a `select` takes the pending value, or the deadline, that a schedule
-- names. A map that is ranged over is a list in some order. A query of the database is an operation
-- of an interface whose law is its SQL; a failed query, scan or iteration is a value of its own.
--
-- Not modelled: the HTTP and gRPC plumbing, the database engine, the embedding model and the
-- command line.
pub mod Base
pub mod Floats
pub mod Proto
pub mod Search
pub mod Browse
pub mod Chunker
pub mod Tokenizer
pub mod State
pub mod Query
pub mod Watcher
pub mod Walker
pub mod Pipeline
pub mod Router
pub mod Server
