-- ===== src/Chunker/Prose/Tiles.antt =====
-- A text cut into chunks: what lies between them is separators and blank text, and no chunk is
-- taken to start behind its place.
use foldermcp.Base.{
  ℕ, ◌+◌, ◌≤◌, ◌≡◌, refl, sym, ap, ◌∙◌, true, List, [], ◌∷◌, ◌++◌, append_assoc, arith, Bytes,
  length, length-append,
}
use mathlib.Core.List.{Memᴰ}
use foldermcp.Chunker.Text.{is_blank}
use foldermcp.Chunker.Prose.{ProseChunk}

module _ (seps : List Bytes) where
  -- What may stand between chunks.
  pub data IsGap : Bytes → Type 0 where
    empty : IsGap []
    separator : {g t : Bytes} (s : Bytes) → Memᴰ s seps → IsGap g → t ≡ s ++ g → IsGap t
    blank : {g t : Bytes} (s : Bytes) → is_blank s ≡ true → IsGap g → t ≡ s ++ g → IsGap t

  pub IsGap-append : {g h : Bytes} → IsGap g → IsGap h → IsGap (g ++ h)
  IsGap-append empty k = k
  IsGap-append {h} (separator {g} s m x e) k =
      separator s m (IsGap-append x k) (ap (λ t. t ++ h) e ∙ append_assoc s g h)
  IsGap-append {h} (blank {g} s b x e) k =
      blank s b (IsGap-append x k) (ap (λ t. t ++ h) e ∙ append_assoc s g h)

  module _ (count : Bytes → ℕ) where
    -- The text from a position on, cut into chunks.
    pub data Tiles : ℕ → Bytes → List ProseChunk → Type 0 where
      done : {pos : ℕ} {g : Bytes} → IsGap g → Tiles pos g []
      next :
          {pos : ℕ} {text rest : Bytes} {cs : List ProseChunk} (g : Bytes) (c : ProseChunk)
          → IsGap g
          → text ≡ g ++ (c.text ++ rest)
          → 1 ≤ length c.text
          → c.byte_start ≤ pos + length g
          → c.byte_end ≡ c.byte_start + length c.text
          → c.token_count ≡ count c.text
          → (after : ℕ) → after ≡ pos + length g + length c.text
          → Tiles after rest cs
          → Tiles pos text (c ∷ cs)

    -- A later place is one behind which no chunk starts either.
    pub Tiles-later :
        {pos : ℕ} {text : Bytes} {cs : List ProseChunk}
        → Tiles pos text cs
        → (later : ℕ) → pos ≤ later
        → Tiles later text cs
    Tiles-later (done x) later h = done x
    Tiles-later {pos} (next g c x e n s b t after a r) later h =
        next g c x e n (omega arith) b t (later + length g + length c.text) refl
          (Tiles-later r (later + length g + length c.text) (omega arith))

    -- A gap in front.
    pub Tiles-gap :
        {pos from : ℕ} {g text : Bytes} {cs : List ProseChunk}
        → IsGap g
        → from ≡ pos + length g
        → Tiles from text cs
        → Tiles pos (g ++ text) cs
    Tiles-gap x q (done y) = done (IsGap-append x y)
    Tiles-gap {pos} {g} x q (next {rest} h c y e n s b t after a r) =
        next (g ++ h) c (IsGap-append x y)
          (ap (λ t. g ++ t) e ∙ sym (append_assoc g h (c.text ++ rest))) n
          (omega (arith, length-append g h)) b t after (omega (arith, length-append g h)) r

    pub Tiles-append :
        {pos from : ℕ} {left right : Bytes} {cs ds : List ProseChunk}
        → Tiles pos left cs
        → from ≡ pos + length left
        → Tiles from right ds
        → Tiles pos (left ++ right) (cs ++ ds)
    Tiles-append (done x) q r = Tiles-gap x q r
    Tiles-append {right} (next {rest} g c x e n s b t after a r) q k =
        next g c x
          (ap (λ t. t ++ right) e
            ∙ append_assoc g (c.text ++ rest) right
            ∙ ap (λ t. g ++ t) (append_assoc c.text rest right))
          n s b t after a
          (Tiles-append r
            (omega (
              arith,
              ap (λ (u : Bytes). length u) e,
              length-append g (c.text ++ rest),
              length-append c.text rest,
            ))
            k)
