-- ===== src/Browse/Prefix.antt =====
-- `prefixUpperBound` of internal/v3/grpc/tools/browse_folder.go, and why its range is the prefix.
use foldermcp.Base.{
  ℕ, ◌+◌, ◌<◌, ◌≡◌, refl, sym, ap, ◌∙◌, Bool, true, false, not, ◌&&◌, ◌||◌, [], ◌∷◌, ◌++◌, arith,
  ltb, ◌==◌, Bytes, starts_with, if◌then◌else◌, All, Bool-cases, inl, inr,
}
use mathlib.Core.List.{reverse, reverse-append, reverse-cons}

-- The loop from the last byte down: the argument is what is left of the bytes, the last one first.
bump : Bytes → Bytes
bump [] = []
bump (b ∷ rest) = if ltb b 0xff then reverse ((b + 1) ∷ rest) else bump rest

-- The empty string stands for no upper bound.
unfoldable pub prefix_upper_bound : Bytes → Bytes
unfolding bump
prefix_upper_bound s = bump (reverse s)

-- SQLite's order of texts: byte by byte, a prefix before what extends it.
abbrev pub text_lt : Bytes → Bytes → Bool
text_lt [] [] = false
text_lt [] (d ∷ t) = true
text_lt (c ∷ s) [] = false
text_lt (c ∷ s) (d ∷ t) = ltb c d || (c == d && text_lt s t)

-- `parent_dir >= lo`, and `parent_dir < hi` where there is an upper bound.
abbrev below_bound : Bytes → Bytes → Bool
below_bound t [] = true
below_bound t (h ∷ hs) = text_lt t (h ∷ hs)

abbrev pub in_range : Bytes → Bytes → Bytes → Bool
in_range t lo hi = not (text_lt t lo) && below_bound t hi

abbrev pub IsBytes : Bytes → Type 0
IsBytes = All (λ c. c < 256)

abbrev extend : ℕ → Bytes → Bytes
extend c [] = if ltb c 0xff then (c + 1) ∷ [] else []
extend c (d ∷ t) = c ∷ d ∷ t

extend-snoc : (c : ℕ) (ys : Bytes) (z : ℕ) → extend c (ys ++ z ∷ []) ≡ c ∷ ys ++ z ∷ []
extend-snoc c [] z = refl
extend-snoc c (y ∷ ys) z = refl

extend-reverse : (c b : ℕ) (xs : Bytes) → extend c (reverse (b ∷ xs)) ≡ c ∷ reverse (b ∷ xs)
extend-reverse c b xs = rw reverse-cons (extend-snoc c (reverse xs) b)

bump-snoc : (c : ℕ) (xs : Bytes) → bump (xs ++ c ∷ []) ≡ extend c (bump xs)
unfolding bump
bump-snoc c [] = refl
bump-snoc c (b ∷ xs) = elim (Bool-cases (ltb b 0xff)) [
  | inl e ↦ rw e (reverse-append ((b + 1) ∷ xs) (c ∷ []) ∙ sym (extend-reverse c (b + 1) xs))
  | inr e ↦ rw e (bump-snoc c xs)
]

prefix_upper_bound-cons :
    (c : ℕ) (s : Bytes) → prefix_upper_bound (c ∷ s) ≡ extend c (prefix_upper_bound s)
unfolding prefix_upper_bound
prefix_upper_bound-cons c s = ap bump (reverse-cons c s) ∙ bump-snoc c (reverse s)

text_lt-nil : (t : Bytes) → text_lt t [] ≡ false
text_lt-nil [] = refl
text_lt-nil (d ∷ t) = refl

in_range-extend :
    (c d : ℕ) (s t u : Bytes)
    → d < 256
    → in_range (d ∷ t) (c ∷ s) (extend c u) ≡ (d == c && in_range t s u)
in_range-extend c d s t [] h = ground (arith, text_lt-nil t)
in_range-extend c d s t (x ∷ u) h = ground arith

-- The range from a text to its upper bound, in the order of SQLite, holds exactly the texts that
-- begin with it.
pub in_range-prefix_upper_bound :
    (s t : Bytes) → IsBytes t → in_range t s (prefix_upper_bound s) ≡ starts_with t s
in_range-prefix_upper_bound [] t h = unfold prefix_upper_bound in (rw (text_lt-nil t))
in_range-prefix_upper_bound (c ∷ s) [] h = refl
in_range-prefix_upper_bound (c ∷ s) (d ∷ t) h =
    rw (prefix_upper_bound-cons c s, in_range-extend c d s t (prefix_upper_bound s) h.0)
      (ap (λ b. d == c && b) (in_range-prefix_upper_bound s t h.1))
