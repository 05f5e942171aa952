-- ===== src/Chunker/Prose/Cover.antt =====
-- The chunks of `ChunkProse` tile its input.
use foldermcp.Base.{
  ℕ, zero, suc, ◌+◌, ◌*◌, ◌/◌, ◌≤◌, ◌<◌, ◌≡◌, refl, sym, true, false, List, [], ◌∷◌, ◌++◌,
  append_assoc, append-nil, arith, Bytes, length, take, drop, length-append, length-take,
  length-drop, take-append-drop, ltb, leb, Bool-cases, inl, inr, All,
}
use mathlib.Core.Bool.{false≢true}
use native.Mathlib.Nat.{mul-le-mul_left, div-le_of_le-mul, mul_comm}
use mathlib.Core.List.{Memᴰ, cons-ne-nil}
use foldermcp.Chunker.Text.{is_blank, split, separated, split_cons}
use foldermcp.Chunker.Prose.{
  ProseChunk, Config, position_of, align_cut, whole_chunk, first_cut, cut_of, hard_split,
  split_loop, recursive_split, separators, chunk_prose,
}
use foldermcp.Chunker.Prose.Tiles.{IsGap, Tiles, Tiles-later, Tiles-gap, Tiles-append}

module _ (cfg : Config) (count : Bytes → ℕ) (sane : cfg.target_tokens ≤ cfg.max_tokens) where
  open cfg use {target_tokens, max_tokens}

  align_cut_bounds :
      (cut : ℕ) (rest : Bytes)
      → (cut ≤ align_cut cut rest) × (align_cut cut rest ≤ cut + length rest)
  unfolding align_cut
  align_cut_bounds cut [] = omega arith
  align_cut_bounds cut (b ∷ rest) = ground (arith, align_cut_bounds (suc cut) rest)

  first_cut_bounds :
      (text : Bytes)
      → 1 ≤ length text
      → max_tokens < count text
      → (1 ≤ first_cut cfg count text) × (first_cut cfg count text ≤ length text)
  first_cut_bounds text h k =
      let n = count text in
      let most = mul-le-mul_left (length text) (omega arith) in
      let inside : length text * target_tokens / n ≤ length text =
        div-le_of_le-mul n (rw (mul_comm n (length text)) most) in
      ground (arith, inside)

  -- The cut leaves something on the left, and lies in the text.
  pub cut_of_bounds :
      (text : Bytes)
      → 1 ≤ length text
      → max_tokens < count text
      → (1 ≤ cut_of cfg count text) × (cut_of cfg count text ≤ length text)
  unfolding cut_of
  cut_of_bounds text h k =
      let cut = first_cut cfg count text in
      let inside = first_cut_bounds text h k in
      omega (arith, align_cut_bounds cut (drop cut text), inside.0, inside.1, length-drop cut text)

  module _ (seps : List Bytes) where
    abbrev Cut : ℕ → Bytes → List ProseChunk → Type 0
    Cut = Tiles seps count

    Tiles-blank : {pos : ℕ} (text : Bytes) → is_blank text ≡ true → Cut pos text []
    Tiles-blank text h = Tiles.done (IsGap.blank text h IsGap.empty (sym (append-nil text)))

    Tiles-whole :
        (text : Bytes) (offset : ℕ)
        → 1 ≤ length text
        → Cut offset text (whole_chunk cfg count text offset ∷ [])
    Tiles-whole text offset h =
        Tiles.next [] (whole_chunk cfg count text offset) IsGap.empty (sym (append-nil text)) h
          (omega arith) refl refl (offset + 0 + length text) refl (Tiles.done IsGap.empty)

    nonempty : (text : Bytes) → is_blank text ≡ false → 1 ≤ length text
    unfolding is_blank
    nonempty [] h = absurd (false≢true (sym h))
    nonempty (c ∷ s) h = omega arith

    pub hard_split-Tiles :
        (fuel : ℕ) (text : Bytes) (offset : ℕ)
        → length text ≤ fuel
        → Cut offset text (hard_split cfg count fuel text offset)
    unfolding hard_split
    hard_split-Tiles zero [] offset h = Tiles.done IsGap.empty
    hard_split-Tiles zero (c ∷ s) offset h = absurd (omega arith)
    hard_split-Tiles (suc fuel) text offset h = elim (Bool-cases (is_blank text)) [
      | inl e ↦ rw e (Tiles-blank text e)
      | inr e ↦ elim (Bool-cases (leb (count text) max_tokens)) [
        | inl small ↦ rw (e, small) (Tiles-whole text offset (nonempty text e))
        | inr large ↦
            let cut = cut_of cfg count text in
            let b = cut_of_bounds text (nonempty text e) (ground arith) in
            let rest =
              hard_split-Tiles fuel (drop cut text) (offset + cut)
                (omega (arith, length-drop cut text, b.0, nonempty text e)) in
            let size : length (take cut text) ≡ cut = omega (arith, length-take cut text, b.1) in
            rw (e, large)
              (Tiles.next [] _ IsGap.empty (sym (take-append-drop cut text))
                (omega (arith, size, b.0)) (omega arith) (omega (arith, size)) refl (offset + cut)
                (omega (arith, size)) rest)
      ]
    ]

-- The loop over the parts.
next_part :
    (sep : Bytes) (parts : List Bytes) (i : ℕ) (p : Bytes) (ps : List Bytes)
    → drop i parts ≡ p ∷ ps
    → (position_of parts (suc i) sep ≡ position_of parts i sep + length p + length sep)
      × (drop (suc i) parts ≡ ps)
unfolding position_of
next_part sep [] zero p ps h = absurd (cons-ne-nil p ps (sym h))
next_part sep [] (suc i) p ps h = absurd (cons-ne-nil p ps (sym h))
next_part sep (q ∷ qs) zero p ps h = let e : length q ≡ length p = cc in (omega (arith, e), cc)
next_part sep (q ∷ qs) (suc i) p ps h =
    let r = next_part sep qs i p ps h in (omega (arith, r.0), r.1)

module _ (cfg : Config) (count : Bytes → ℕ) (seps : List Bytes) (sep : Bytes) (m : Memᴰ sep seps)
    (recurse : Bytes → ℕ → List ProseChunk)
    (tiles : (text : Bytes) (offset : ℕ) → Tiles seps count offset text (recurse text offset))
    (offset : ℕ) (parts : List Bytes) where
  sep_gap : IsGap seps sep
  sep_gap = IsGap.separator sep m IsGap.empty (sym (append-nil sep))

  pub split_loop-Tiles :
      (i : ℕ) (ps : List Bytes) (buf : Bytes) (start pos : ℕ)
      → drop i parts ≡ ps
      → start ≤ pos
      → pos + length buf + length sep ≡ offset + position_of parts i sep
      → Tiles seps count pos
          (buf ++ separated sep ps)
          (split_loop cfg count recurse sep offset parts i ps buf start)
  unfolding split_loop
  split_loop-Tiles i [] [] start pos h k e = Tiles.done IsGap.empty
  split_loop-Tiles i [] (b ∷ buf) start pos h k e =
      rw (append-nil buf) (Tiles-later seps count (tiles (b ∷ buf) start) pos k)
  split_loop-Tiles i (p ∷ ps) [] start pos h k e =
      let n = next_part sep parts i p ps h in
      let rest =
        split_loop-Tiles (suc i) ps p start (pos + length sep) n.1 (omega arith)
          (omega (arith, n.0)) in
      Tiles-gap seps count sep_gap refl rest
  split_loop-Tiles i (p ∷ ps) (b ∷ buf) start pos h k e =
      let n = next_part sep parts i p ps h in
      let place = offset + position_of parts i sep in
      let candidate = (b ∷ buf) ++ (sep ++ p) in
      let size : length candidate ≡ length (b ∷ buf) + (length sep + length p) =
        omega (arith, length-append (b ∷ buf) (sep ++ p), length-append sep p) in
      elim (Bool-cases (ltb cfg.target_tokens (count candidate))) [
        | inl over ↦
            let first = Tiles-later seps count (tiles (b ∷ buf) start) pos k in
            let rest =
              split_loop-Tiles (suc i) ps p place place n.1 (omega arith) (omega (arith, n.0)) in
            rw over
              (Tiles-append seps count first refl (Tiles-gap seps count sep_gap (omega arith) rest))
        | inr fits ↦
            let rest =
              split_loop-Tiles (suc i) ps candidate start pos n.1 k (omega (arith, n.0, size)) in
            rw fits (rw (append_assoc, append_assoc) at rest)
      ]

-- A separator that is not empty, and is among `seps`.
abbrev pub IsSeparator : List Bytes → Bytes → Type 0
IsSeparator seps s = (d : ℕ) × (r : Bytes) × (s ≡ d ∷ r) × Memᴰ s seps

module _ (cfg : Config) (count : Bytes → ℕ) (sane : cfg.target_tokens ≤ cfg.max_tokens)
    (all : List Bytes) where
  split_parts-Tiles :
      (d : ℕ) (sep : Bytes) (m : Memᴰ (d ∷ sep) all) (recurse : Bytes → ℕ → List ProseChunk)
      → ((text : Bytes) (offset : ℕ) → Tiles all count offset text (recurse text offset))
      → (text : Bytes) (offset : ℕ)
      → Tiles all count offset text (
          split_loop cfg count recurse
            (d ∷ sep)
            offset
            (split text (d ∷ sep))
            0
            (split text (d ∷ sep))
            []
            offset)
  unfolding split_loop position_of
  split_parts-Tiles d sep m recurse tiles text offset =
      let (p, ps, e, spell) = split_cons text d sep in
      let run =
        split_loop-Tiles cfg count all (d ∷ sep) m recurse tiles offset (p ∷ ps) 1 ps p offset
          offset refl (omega arith) (omega arith) in
      rw e (rw spell at run)

  pub recursive_split-Tiles :
      (seps : List Bytes)
      → All (IsSeparator all) seps
      → (text : Bytes) (offset : ℕ)
      → Tiles all count offset text (recursive_split cfg count seps text offset)
  unfolding recursive_split
  recursive_split-Tiles [] h text offset =
      hard_split-Tiles cfg count sane all (length text) text offset (omega arith)
  recursive_split-Tiles (sep ∷ seps) h text offset =
      let (d, r, e, m) = h.0 in
      let rest = recursive_split-Tiles seps h.1 in
      let recurse = recursive_split cfg count seps in
      let parts = split_parts-Tiles d r (rw e at m) recurse rest text offset in
      elim (Bool-cases (is_blank text)) [
        | inl b ↦ rw b (Tiles-blank cfg count sane all text b)
        | inr b ↦ elim (Bool-cases (leb (count text) cfg.max_tokens)) [
          | inl small ↦
              rw (b, small)
                (Tiles-whole cfg count sane all text offset (nonempty cfg count sane all text b))
          | inr large ↦ rw (b, large, e) parts
        ]
      ]

-- Where the target size is at most the maximum, the chunks of ChunkProse stand in the text in their
-- order and none is empty; between, before and behind them stand only separators and blank text.
-- The end of a chunk is its start plus its length, its token count is the counter's, and its start
-- is never behind its true place.
pub chunk_prose-Tiles :
    (cfg : Config) (count : Bytes → ℕ)
    → cfg.target_tokens ≤ cfg.max_tokens
    → (text : Bytes) → Tiles separators count 0 text (chunk_prose cfg count text)
unfolding chunk_prose
chunk_prose-Tiles cfg count sane text =
    recursive_split-Tiles cfg count sane separators separators
      (
        (10, 10 ∷ [], refl, Memᴰ.head refl),
        (
          (10, [], refl, Memᴰ.tail (Memᴰ.head refl)),
          (
            (46, 32 ∷ [], refl, Memᴰ.tail (Memᴰ.tail (Memᴰ.head refl))),
            ((32, [], refl, Memᴰ.tail (Memᴰ.tail (Memᴰ.tail (Memᴰ.head refl)))), tt),
          ),
        ),
      )
      text 0
