-- ===== src/Chunker/Tests.antt =====
-- Chunks of a small text, and the theorems at it; a token is a byte here.
use foldermcp.Base.{ℕ, ◌≡◌, refl, List, [], ◌∷◌, arith, Bytes, codes, length, map, All, some, ◌>>=◌}
use foldermcp.Chunker.Text.{split, is_blank}
use foldermcp.Chunker.Prose.{ProseChunk, Config, chunk_prose, whole_chunk, separators}
use foldermcp.Chunker.Prose.Tiles.{Tiles}
use foldermcp.Chunker.Prose.Cover.{chunk_prose-Tiles}
use foldermcp.Chunker.Code.{Symbol, CodeChunk, IsWithin, chunk_code, chunk_code-IsWithin}
use foldermcp.Chunker.Prose.Offsets.{chunk_prose_early}

abbrev tiny : Config
tiny = record { target_tokens = 5; min_tokens = 2; max_tokens = 6; overlap_toks = 0 }

abbrev sample : Bytes
sample = codes "one two.\n\nthree forty-five"

abbrev size : Bytes → ℕ
size s = length s

chunk_prose_texts :
    map (λ (c : ProseChunk). c.text) (chunk_prose tiny size sample)
    ≡ codes "one" ∷ codes "two." ∷ codes "three" ∷ codes "forty" ∷ codes "-five" ∷ []
unfolding chunk_prose
chunk_prose_texts = refl

chunk_prose-Tiles_example : Tiles separators size 0 sample (chunk_prose tiny size sample)
chunk_prose-Tiles_example = chunk_prose-Tiles tiny size (omega arith) sample

chunk_prose_early_example :
    chunk_prose tiny size (codes "\n\nabcde") ≡ whole_chunk tiny size (codes "abcde") 0 ∷ []
unfolding split is_blank
chunk_prose_early_example =
    chunk_prose_early tiny size (codes "abcde") refl refl (omega arith) (omega arith)

abbrev symbol_at : ℕ → ℕ → Symbol
symbol_at low high = record {
  kind = codes "function";
  name = codes "f";
  byte_start = low;
  byte_end = high;
  line_start = 1;
  line_end = 1;
  signature = [];
}

abbrev some_symbols : List Symbol
some_symbols = symbol_at 4 8 ∷ symbol_at 10 26 ∷ []

chunk_code_starts :
    (chunk_code sample tiny size some_symbols >>= λ cs.
    some (map (λ (c : CodeChunk). c.byte_start) cs))
    ≡ some (4 ∷ 10 ∷ 16 ∷ 21 ∷ [])
unfolding chunk_code chunk_prose
chunk_code_starts = refl

chunk_code-IsWithin_example :
    (out : List CodeChunk) × (chunk_code sample tiny size some_symbols ≡ some out)
    × All (IsWithin size) out
chunk_code-IsWithin_example =
    chunk_code-IsWithin sample tiny size (omega arith) some_symbols
      ((omega arith, omega arith), ((omega arith, omega arith), tt))
