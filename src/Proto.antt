-- ===== src/Proto.antt =====
-- The messages of internal/v3/proto/foldermcp.proto that the handlers exchange. A nil pointer is
-- `none`. Row ids are positive int64 numbers, and `F` is the type of a float32.
use Prim.Native.String.{String}
use foldermcp.Base.{ℕ, List, Option, Bytes}

pub record HydratedChunk : Type 0 where
  pub chunk_id : ℕ
  pub text : Bytes
  pub token_count : ℕ

pub record HydratedNode : Type 0 where
  pub node_id : ℕ
  pub path : Bytes
  pub name : Bytes
  pub chunks : List HydratedChunk

pub record ScoredNode (F : Type 0) : Type 0 where
  pub node_id : ℕ
  pub score : F
  pub hydrated : Option HydratedNode

pub record SourceStatus : Type 0 where
  pub source_name : String
  pub status : String
  pub error_message : String

pub record SearchHit (F : Type 0) : Type 0 where
  pub node_id : ℕ
  pub path : Bytes
  pub title : Bytes
  pub snippet : Bytes
  pub score : F
  pub matched_sources : List String
