-- ===== src/Chunker/Text.antt =====
-- What prose.go uses of Go's strings and utf8 packages.
use mathlib.Core.List.{cons-ne-nil}
use foldermcp.Base.{
  ℕ, zero, suc, ◌-◌, ◌≡◌, refl, sym, ap, ◌∙◌, Bool, true, false, ◌&&◌, ◌||◌, List, [], ◌∷◌, ◌++◌,
  append_assoc, arith, ltb, leb, ◌==◌, Bytes, starts_with, starts_with-append-drop, if◌then◌else◌,
  length, drop, Bool-cases, inl, inr,
}

-- The UTF-8 of `unicode.IsSpace`, in one, two and three bytes.
abbrev space_1 : ℕ → Bool
space_1 a = leb 9 a && leb a 13 || a == b' '

abbrev space_2 : ℕ → ℕ → Bool
space_2 a b = a == 0xc2 && (b == 0x85 || b == 0xa0)

abbrev space_3 : ℕ → ℕ → ℕ → Bool
space_3 a b c =
    a == 0xe1 && b == 0x9a && c == 0x80
    || a == 0xe2 && b == 0x80 && (leb 0x80 c && leb c 0x8a || c == 0xa8 || c == 0xa9 || c == 0xaf)
    || a == 0xe2 && b == 0x81 && c == 0x9f
    || a == 0xe3 && b == 0x80 && c == 0x80

-- `strings.TrimSpace(text) == ""`
unfoldable pub is_blank : Bytes → Bool
is_blank [] = true
is_blank (a ∷ []) = space_1 a
is_blank (a ∷ b ∷ []) = if space_1 a then space_1 b else space_2 a b
is_blank (a ∷ b ∷ c ∷ s) = elim (space_1 a) [
  | true ↦ is_blank (b ∷ c ∷ s)
  | false ↦ elim (space_2 a b) [
    | true ↦ is_blank (c ∷ s)
    | false ↦ elim (space_3 a b c) [ true ↦ is_blank s | false ↦ false ]
  ]
]

-- `utf8.RuneStart`
abbrev pub rune_start : ℕ → Bool
rune_start b = ltb b 0x80 || leb 0xc0 b

-- The loop of `strings.Split` at a non-empty separator: the bytes of a separator still to skip, the
-- part so far, the text that is left.
split_from : Bytes → ℕ → Bytes → Bytes → List Bytes
split_from sep skip cur [] = cur ∷ []
split_from sep (suc k) cur (c ∷ s) = split_from sep k cur s
split_from sep zero cur (c ∷ s) = elim (starts_with (c ∷ s) sep) [
  | true ↦ cur ∷ split_from sep (length sep - 1) [] s
  | false ↦ split_from sep zero (cur ++ c ∷ []) s
]

unfoldable pub split : Bytes → Bytes → List Bytes
unfolding split_from
split text sep = split_from sep zero [] text

-- Every part behind a separator.
abbrev pub separated : Bytes → List Bytes → Bytes
separated sep [] = []
separated sep (p ∷ ps) = sep ++ (p ++ separated sep ps)

abbrev pub glue : Bytes → List Bytes → Bytes
glue sep [] = []
glue sep (p ∷ ps) = p ++ separated sep ps

separated-split_from :
    (d : ℕ) (sep : Bytes) (skip : ℕ) (cur s : Bytes)
    → separated (d ∷ sep) (split_from (d ∷ sep) skip cur s) ≡ (d ∷ sep) ++ (cur ++ drop skip s)
unfolding split_from
separated-split_from d sep zero cur [] = refl
separated-split_from d sep (suc k) cur [] = refl
separated-split_from d sep (suc k) cur (c ∷ s) = separated-split_from d sep k cur s
separated-split_from d sep zero cur (c ∷ s) =
    let less : length (d ∷ sep) - 1 ≡ length sep = omega arith in
    elim (Bool-cases (starts_with (c ∷ s) (d ∷ sep))) [
      | inl e ↦
          rw (e, split_from, less, separated-split_from d sep (length sep) [] s)
            (ap (λ t. (d ∷ sep) ++ (cur ++ t)) (starts_with-append-drop (c ∷ s) (d ∷ sep) e))
      | inr e ↦
          rw (e, split_from) (separated-split_from d sep zero (cur ++ c ∷ []) s ∙ rw append_assoc)
    ]

append_cancel : (s : Bytes) {t u : Bytes} → s ++ t ≡ s ++ u → t ≡ u
append_cancel [] h = h
append_cancel (c ∷ s) h = append_cancel s (cc)

-- The parts of a split: there is a first one, and with the separators they spell the text.
pub split_cons :
    (text : Bytes) (d : ℕ) (sep : Bytes)
    → (p : Bytes) × (ps : List Bytes) × (split text (d ∷ sep) ≡ p ∷ ps)
      × (p ++ separated (d ∷ sep) ps ≡ text)
unfolding split
split_cons text d sep = go (split_from (d ∷ sep) zero [] text) refl
  where
    whole : separated (d ∷ sep) (split_from (d ∷ sep) zero [] text) ≡ (d ∷ sep) ++ text
    whole = separated-split_from d sep zero [] text

    go :
        (parts : List Bytes)
        → split_from (d ∷ sep) zero [] text ≡ parts
        → (p : Bytes) × (ps : List Bytes) × (split_from (d ∷ sep) zero [] text ≡ p ∷ ps)
          × (p ++ separated (d ∷ sep) ps ≡ text)
    go [] e = absurd (cons-ne-nil d (sep ++ text) (sym (rw e at whole)))
    go (p ∷ ps) e = (p, ps, e, append_cancel (d ∷ sep) (rw e at whole))
