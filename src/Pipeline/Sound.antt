-- ===== src/Pipeline/Sound.antt =====
-- What the tables keep between files, and what holds inside the transaction of a file.
mod Update
mod Effects
mod Clean
mod Steps
mod Chunks
mod Embeds
mod File
mod Walked
pub mod Seen
pub mod Visits
pub mod Process
pub mod Batch
pub mod Loop
pub mod Whole
use Prim.Native.String.{String}
use foldermcp.Base.{ℕ, ◌≡◌, ◌≢◌, ◌⊎◌, ◌↔◌, Bytes, List, Option, none, some, length, map}
use mathlib.Core.List.{Memᴰ}
use foldermcp.Pipeline.Tables.{
  Pass, embeddings, finished, FileRow, FilesRow, NodeRow, ChunkRow, PassRow, Fingerprint, Tables,
  row_of,
}
use foldermcp.Pipeline.Engine.{Sql, done}
use foldermcp.Pipeline.Tx.{PendingChunk}
use foldermcp.Pipeline.Runner.{to_byte, bytes_to_int8, dimension}

abbrev pub HasFile : Tables → ℕ → ℕ → Type 0
HasFile t n g = (r : NodeRow) × (t.node n ≡ some r) × (r.file_id ≡ g)

-- Row `r` is chunk `c`, of file `g`.
abbrev pub IsChunk : Tables → ℕ → ℕ → ChunkRow → Type 0
IsChunk t g c r = (t.chunk c ≡ some r) × HasFile t r.node_id g

-- Chunks have nodes, vectors have chunks.
pub record IsIntact (t : Tables) : Type 0 where
  pub node_of_chunk : (c : ℕ) (r : ChunkRow) → t.chunk c ≡ some r → (g : ℕ) × HasFile t r.node_id g
  pub chunk_of_vector :
      (c : ℕ) (v : Bytes) → t.vector c ≡ some v → (r : ChunkRow) × (t.chunk c ≡ some r)

module _ (embed_query : Bytes → Sql Bytes) where
  abbrev pub IsEmbedding : Bytes → Bytes → Type 0
  IsEmbedding text v =
      (blob : Bytes) × (embed_query text ≡ done blob)
      × (length (bytes_to_int8 blob) ≡ dimension)
      × (v ≡ map to_byte (bytes_to_int8 blob))

  abbrev pub IsStored : Tables → ℕ → Bytes → Type 0
  IsStored t c text = (v : Bytes) × (t.vector c ≡ some v) × IsEmbedding text v

  -- And the chunks of a finished file have the vectors of their texts.
  pub record IsSound (t : Tables) : Type 0 where
    pub intact : IsIntact t
    pub embedded :
        (f c : ℕ) (r : ChunkRow) (m : Option (List String))
        → t.pass_row f embeddings ≡ some (row_of finished m)
        → IsChunk t f c r
        → IsStored t c r.text

-- Nothing that is not of file `f` has changed.
pub record Frame (f : ℕ) (before after : Tables) : Type 0 where
  pub file_same : (g : ℕ) → after.file g ≡ before.file g
  pub fingerprint_same : after.fingerprint ≡ before.fingerprint
  pub pass_same : (g : ℕ) (p : Pass) → g ≢ f → after.pass_row g p ≡ before.pass_row g p
  pub node_same :
      (n : ℕ) (r : NodeRow) → r.file_id ≢ f → (after.node n ≡ some r) ↔ (before.node n ≡ some r)
  pub chunk_same : (g c : ℕ) (r : ChunkRow) → g ≢ f → IsChunk after g c r ↔ IsChunk before g c r
  pub vector_same :
      (g c : ℕ) (r : ChunkRow) → g ≢ f → IsChunk before g c r → after.vector c ≡ before.vector c

abbrev pub Waits : ℕ → Bytes → List PendingChunk → Type 0
Waits c text ps = (p : PendingChunk) × Memᴰ p ps × (p.chunk_id ≡ c) × (p.text ≡ text)

-- In the transaction of `f`: its chunks have their vectors or are in the list of those that wait.
pub record Working (embed_query : Bytes → Sql Bytes) (f : ℕ) (before : Tables)
    (ps : List PendingChunk) (t : Tables) : Type 0 where
  pub intact : IsIntact t
  pub frame : Frame f before t
  pub own :
      (c : ℕ) (r : ChunkRow) → IsChunk t f c r → IsStored embed_query t c r.text ⊎ Waits c r.text ps
  pub listed :
      (p : PendingChunk) → Memᴰ p ps → (r : ChunkRow) × IsChunk t f p.chunk_id r × (r.text ≡ p.text)
