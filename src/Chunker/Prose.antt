-- ===== src/Chunker/Prose.antt =====
-- internal/v3/chunker/prose.go. The token counter is an argument, as the interface Counter is.
pub mod Tiles
pub mod Cover
pub mod Offsets
use foldermcp.Base.{
  ℕ, zero, suc, ◌+◌, ◌*◌, ◌/◌, ◌≤◌, ◌≡◌, Bool, true, false, ◌&&◌, List, [], ◌∷◌, ◌++◌, ltb, leb,
  ◌==◌, Bytes, codes, if◌then◌else◌, length, take, drop,
}
use foldermcp.Chunker.Text.{is_blank, rune_start, split}

pub record ProseChunk : Type 0 where
  pub text : Bytes
  pub byte_start : ℕ
  pub byte_end : ℕ
  pub token_count : ℕ
  pub header : Bytes

pub record Config : Type 0 where
  pub target_tokens : ℕ
  pub min_tokens : ℕ
  pub max_tokens : ℕ
  pub overlap_toks : ℕ

abbrev pub default_config : Config
default_config = record {
  target_tokens = 200;
  min_tokens = 80;
  max_tokens = 260;
  overlap_toks = 30;
}

-- The bytes of the first `i` parts, each with its separator.
pub position_of : List Bytes → ℕ → Bytes → ℕ
position_of parts zero sep = 0
position_of [] (suc i) sep = 0
position_of (p ∷ ps) (suc i) sep = length p + length sep + position_of ps i sep

-- `for cut < len(text) && !utf8.RuneStart(text[cut]) { cut++ }`, on the bytes behind `cut`.
pub align_cut : ℕ → Bytes → ℕ
align_cut cut [] = cut
align_cut cut (b ∷ rest) = if rune_start b then cut else align_cut (suc cut) rest

abbrev pub separators : List Bytes
separators = codes "\n\n" ∷ codes "\n" ∷ codes ". " ∷ codes " " ∷ []

module _ (cfg : Config) (count : Bytes → ℕ) where
  open cfg use {target_tokens, max_tokens}

  abbrev pub whole_chunk : Bytes → ℕ → ProseChunk
  whole_chunk text offset = record {
    text = text;
    byte_start = offset;
    byte_end = offset + length text;
    token_count = count text;
    header = [];
  }

  abbrev pub first_cut : Bytes → ℕ
  first_cut text =
      let cut = length text * target_tokens / count text in if ltb cut 1 then 1 else cut

  -- Where a text with no separator left is cut.
  pub cut_of : Bytes → ℕ
  unfolding align_cut
  cut_of text = align_cut (first_cut text) (drop (first_cut text) text)

  -- `recursiveSplit` with no separators: its calls of itself are on the rest behind the cut. Where the
  -- target is above the maximum, the cut may lie behind the text: Go panics there, `take` stops.
  pub hard_split : ℕ → Bytes → ℕ → List ProseChunk
  unfolding is_blank cut_of
  hard_split zero text offset = []
  hard_split (suc fuel) text offset =
      let cut = cut_of text in
      let left = take cut text in
      let rest = hard_split fuel (drop cut text) (offset + cut) in
      let chunk : ProseChunk = record {
        text = left;
        byte_start = offset;
        byte_end = offset + cut;
        token_count = count left;
        header = [];
      } in
      if is_blank text
      then []
      else if leb (count text) max_tokens
      then whole_chunk text offset ∷ []
      else chunk ∷ rest

  -- The loop over the parts of a text: the parts, the index of the first one that is left, the
  -- buffer and where it is taken to start. `recurse` is the split by the separators that are left.
  pub split_loop :
      (Bytes → ℕ → List ProseChunk)
      → Bytes
      → ℕ
      → List Bytes
      → ℕ
      → List Bytes
      → Bytes
      → ℕ
      → List ProseChunk
  unfolding position_of
  split_loop recurse sep offset parts i [] [] start = []
  split_loop recurse sep offset parts i [] (b ∷ buf) start = recurse (b ∷ buf) start
  split_loop recurse sep offset parts i (p ∷ ps) [] start =
      split_loop recurse sep offset parts (suc i) ps p start
  split_loop recurse sep offset parts i (p ∷ ps) (b ∷ buf) start =
      let candidate = (b ∷ buf) ++ (sep ++ p) in
      let emit =
        recurse (b ∷ buf) start
        ++ split_loop recurse sep offset parts (suc i) ps p (offset + position_of parts i sep) in
      let keep = split_loop recurse sep offset parts (suc i) ps candidate start in
      if ltb target_tokens (count candidate) then emit else keep

  pub recursive_split : List Bytes → Bytes → ℕ → List ProseChunk
  unfolding hard_split split_loop split
  recursive_split [] text offset = hard_split (length text) text offset
  recursive_split (sep ∷ seps) text offset =
      let parts = split text sep in
      let pieces = split_loop (recursive_split seps) sep offset parts 0 parts [] offset in
      if is_blank text
      then []
      else if leb (count text) max_tokens
      then whole_chunk text offset ∷ []
      else pieces

  unfoldable pub chunk_prose : Bytes → List ProseChunk
  unfolding recursive_split
  chunk_prose text = recursive_split separators text 0
