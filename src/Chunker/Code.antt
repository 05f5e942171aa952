-- ===== src/Chunker/Code.antt =====
-- internal/v3/chunker/ast.go. A slice out of range is `none`, where the program panics.
use foldermcp.Base.{
  ℕ, ◌+◌, ◌-◌, ◌≤◌, ◌≡◌, refl, ap, ◌∙◌, true, ◌&&◌, List, [], ◌∷◌, ◌++◌, Option, none, some, ◌>>=◌,
  map, length-append, arith, Bytes, length, take, drop, length-take, length-drop, leb, le→leb,
  Bool-cases, inl, inr, if◌then◌else◌, All, All-append,
}
use foldermcp.Chunker.Prose.{ProseChunk, Config, chunk_prose}
use foldermcp.Chunker.Prose.Tiles.{Tiles}
use foldermcp.Chunker.Prose.Cover.{chunk_prose-Tiles}

-- internal/v3/grammar/grammar.go.
pub record Symbol : Type 0 where
  pub kind : Bytes
  pub name : Bytes
  pub byte_start : ℕ
  pub byte_end : ℕ
  pub line_start : ℕ
  pub line_end : ℕ
  pub signature : Bytes

pub record CodeChunk : Type 0 where
  pub symbol : Symbol
  pub text : Bytes
  pub byte_start : ℕ
  pub byte_end : ℕ
  pub token_count : ℕ

-- `source[low:high]`
abbrev pub slice : Bytes → ℕ → ℕ → Option Bytes
slice source low high =
    if leb low high && leb high (length source)
    then some (take (high - low) (drop low source))
    else none

-- A chunk of the prose chunker, moved to its symbol.
abbrev pub moved : Symbol → ProseChunk → CodeChunk
moved s sc = record {
  symbol = s;
  text = sc.text;
  byte_start = s.byte_start + sc.byte_start;
  byte_end = s.byte_start + sc.byte_end;
  token_count = sc.token_count;
}

module _ (source : Bytes) (cfg : Config) (count : Bytes → ℕ) where
  abbrev pub symbol_chunks : Symbol → Bytes → List CodeChunk
  symbol_chunks s body =
      let whole : CodeChunk = record {
        symbol = s;
        text = body;
        byte_start = s.byte_start;
        byte_end = s.byte_end;
        token_count = count body;
      } in
      if leb (count body) cfg.max_tokens
      then whole ∷ []
      else map (moved s) (chunk_prose cfg count body)

  unfoldable pub chunk_code : List Symbol → Option (List CodeChunk)
  chunk_code [] = some []
  chunk_code (s ∷ syms) = do
    body ← slice source s.byte_start s.byte_end
    rest ← chunk_code syms
    some (symbol_chunks s body ++ rest)

-- The end of a chunk is its start plus its length and lies in the text.
abbrev IsInside : (Bytes → ℕ) → ℕ → ProseChunk → Type 0
IsInside count most c =
    (c.byte_end ≤ most)
    × (c.byte_end ≡ c.byte_start + length c.text)
    × (c.token_count ≡ count c.text)

Tiles-IsInside :
    {seps : List Bytes} {count : Bytes → ℕ} {pos : ℕ} {text : Bytes} {cs : List ProseChunk}
    → Tiles seps count pos text cs
    → (most : ℕ) → pos + length text ≤ most
    → All (IsInside count most) cs
Tiles-IsInside (Tiles.done x) most h = tt
Tiles-IsInside (Tiles.next {rest} g c x e n s b t after a r) most h =
    let size =
      ap (λ (u : Bytes). length u) e
      ∙ length-append g (c.text ++ rest)
      ∙ ap (λ k. length g + k) (length-append c.text rest) in
    ((omega arith, b, t), Tiles-IsInside r most (omega arith))

-- A chunk lies in the range of its symbol; its end is its start plus its length, and its token count
-- is the counter's.
abbrev pub IsWithin : (Bytes → ℕ) → CodeChunk → Type 0
IsWithin count c =
    (c.symbol.byte_start ≤ c.byte_start)
    × (c.byte_end ≤ c.symbol.byte_end)
    × (c.byte_end ≡ c.byte_start + length c.text)
    × (c.token_count ≡ count c.text)

abbrev pub InSource : Bytes → Symbol → Type 0
InSource source s = (s.byte_start ≤ s.byte_end) × (s.byte_end ≤ length source)

module _ (source : Bytes) (cfg : Config) (count : Bytes → ℕ)
    (sane : cfg.target_tokens ≤ cfg.max_tokens) where
  moved-IsWithin :
      (s : Symbol)
      → s.byte_start ≤ s.byte_end
      → (cs : List ProseChunk) → All (IsInside count (s.byte_end - s.byte_start)) cs
      → All (IsWithin count) (map (moved s) cs)
  moved-IsWithin s h [] k = tt
  moved-IsWithin s h (c ∷ cs) k =
      let (a, b, t) = k.0 in ((omega arith, omega arith, omega arith, t), moved-IsWithin s h cs k.1)

  symbol_chunks-IsWithin :
      (s : Symbol) (body : Bytes)
      → length body ≡ s.byte_end - s.byte_start
      → s.byte_start ≤ s.byte_end
      → All (IsWithin count) (symbol_chunks source cfg count s body)
  symbol_chunks-IsWithin s body e h = elim (Bool-cases (leb (count body) cfg.max_tokens)) [
    | inl small ↦ rw small ((omega arith, omega arith, omega arith, refl), tt)
    | inr large ↦ rw large (
        moved-IsWithin s h (chunk_prose cfg count body) (
          Tiles-IsInside (chunk_prose-Tiles cfg count sane body) (s.byte_end - s.byte_start)
            (omega arith)))
  ]

  slice_in :
      (s : Symbol)
      → InSource source s
      → (body : Bytes) × (slice source s.byte_start s.byte_end ≡ some body)
        × (length body ≡ s.byte_end - s.byte_start)
  slice_in s h =
      let body = take (s.byte_end - s.byte_start) (drop s.byte_start source) in
      let low : leb s.byte_start s.byte_end ≡ true = le→leb h.0 in
      let high : leb s.byte_end (length source) ≡ true = le→leb h.1 in
      (
        body,
        rw (low, high),
        omega (
          arith,
          length-take (s.byte_end - s.byte_start) (drop s.byte_start source),
          length-drop s.byte_start source,
          h.0,
          h.1,
        ),
      )

  -- Where the target size is at most the maximum and every symbol lies in the source, ChunkCode does
  -- not panic; each of its chunks lies in the range of its symbol, its end is its start plus the
  -- length of its text, and its token count is the counter's.
  pub chunk_code-IsWithin :
      (syms : List Symbol)
      → All (InSource source) syms
      → (out : List CodeChunk) × (chunk_code source cfg count syms ≡ some out)
        × All (IsWithin count) out
  unfolding chunk_code
  chunk_code-IsWithin [] h = ([], refl, tt)
  chunk_code-IsWithin (s ∷ syms) h =
      let (body, e, size) = slice_in s h.0 in
      let (rest, f, within) = chunk_code-IsWithin syms h.1 in
      (
        symbol_chunks source cfg count s body ++ rest,
        rw (e, f),
        All-append (IsWithin count) (symbol_chunks source cfg count s body) rest
            (symbol_chunks-IsWithin s body size h.0.0) within,
      )
