-- ===== src/Chunker/Prose/Offsets.antt =====
-- The offsets that `recursiveSplit` keeps for its buffer.
use foldermcp.Base.{
  ℕ, ◌≤◌, ◌<◌, ◌≡◌, refl, sym, ap, ◌∙◌, true, false, List, [], ◌∷◌, ◌++◌, Bytes, codes, leb, le→leb,
  lt→leb,
}
use mathlib.Core.Bool.{false≢true}
use foldermcp.Chunker.Text.{is_blank, split}
use foldermcp.Chunker.Prose.{
  ProseChunk, Config, whole_chunk, split_loop, recursive_split, chunk_prose,
}

blank_line : (r : Bytes) → is_blank r ≡ false → is_blank (10 ∷ 10 ∷ r) ≡ false
unfolding is_blank
blank_line [] h = h
blank_line (a ∷ []) h = h
blank_line (a ∷ b ∷ r) h = h

fits_whole :
    (cfg : Config) (count : Bytes → ℕ) (sep : Bytes) (seps : List Bytes) (text : Bytes) (offset : ℕ)
    → is_blank text ≡ false
    → leb (count text) cfg.max_tokens ≡ true
    → recursive_split cfg count (sep ∷ seps) text offset ≡ whole_chunk cfg count text offset ∷ []
unfolding recursive_split
fits_whole cfg count sep seps text offset b s = rw (b, s)

split_blank_line :
    (r : Bytes) → split (codes "\n\n" ++ r) (codes "\n\n") ≡ [] ∷ split r (codes "\n\n")
unfolding split
split_blank_line r = refl

lone_part :
    (cfg : Config) (count : Bytes → ℕ) (recurse : Bytes → ℕ → List ProseChunk) (sep r : Bytes)
    → is_blank r ≡ false
    → split_loop cfg count recurse sep 0 ([] ∷ r ∷ []) 0 ([] ∷ r ∷ []) [] 0 ≡ recurse r 0
unfolding split_loop is_blank
lone_part cfg count recurse sep [] b = absurd (false≢true (sym b))
lone_part cfg count recurse sep (c ∷ r) b = refl

at_parts :
    (cfg : Config) (count : Bytes → ℕ) (sep : Bytes) (seps : List Bytes) (text : Bytes)
    (parts : List Bytes)
    → is_blank text ≡ false
    → leb (count text) cfg.max_tokens ≡ false
    → split text sep ≡ parts
    → recursive_split cfg count (sep ∷ seps) text 0
      ≡ split_loop cfg count (recursive_split cfg count seps) sep 0 parts 0 parts [] 0
unfolding recursive_split
at_parts cfg count sep seps text parts b s e = rw (b, s, e)

-- A text that is too large, of a blank line and a rest that holds no further blank line and fits,
-- is one chunk of this rest, which is said to begin at byte 0.
pub chunk_prose_early :
    (cfg : Config) (count : Bytes → ℕ) (r : Bytes)
    → split r (codes "\n\n") ≡ r ∷ []
    → is_blank r ≡ false
    → cfg.max_tokens < count (codes "\n\n" ++ r)
    → count r ≤ cfg.max_tokens
    → chunk_prose cfg count (codes "\n\n" ++ r) ≡ whole_chunk cfg count r 0 ∷ []
unfolding chunk_prose
chunk_prose_early cfg count r one full large small =
    let rest : List Bytes = codes "\n" ∷ codes ". " ∷ codes " " ∷ [] in
    let text = codes "\n\n" ++ r in
    let parts : split text (codes "\n\n") ≡ [] ∷ r ∷ [] =
      split_blank_line r ∙ ap (λ ps. [] ∷ ps) one in
    let big : leb (count text) cfg.max_tokens ≡ false = lt→leb large in
    let fits : leb (count r) cfg.max_tokens ≡ true = le→leb small in
    at_parts cfg count (codes "\n\n") rest text ([] ∷ r ∷ []) (blank_line r full) big parts
    ∙ lone_part cfg count (recursive_split cfg count rest) (codes "\n\n") r full
    ∙ fits_whole cfg count (codes "\n") (codes ". " ∷ codes " " ∷ []) r 0 full fits
