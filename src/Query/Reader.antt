-- ===== src/Query/Reader.antt =====
-- The reader of a match expression: string literals, in which a quote is doubled, between ORs.
use foldermcp.Base.{
  ℕ, zero, suc, ◌≤◌, ◌≡◌, refl, sym, ap, ◌∙◌, ◌⊎◌, inl, inr, true, false, List, [], ◌∷◌, ◌++◌,
  append_assoc, Option, none, some, arith, Bytes, codes, length, length-append, take, length-take,
  drop, starts_with, ltb, ◌==◌, ==_iff, ◌<◌, if◌then◌else◌, Bool-cases, List-cases,
}
use foldermcp.Query.Match.{
  Decoder, doubled, quoted, join_or, terms_of, build_fts_match, fts_tokenize, max_query_bytes,
  max_fts_terms,
}

abbrev pub with_byte : ℕ → Option (Bytes × Bytes) → Option (Bytes × Bytes)
with_byte c none = none
with_byte c (some (t, rest)) = some (c ∷ t, rest)

-- A literal behind its opening quote, and what follows it.
pub read_literal : Bytes → Option (Bytes × Bytes)
read_literal [] = none
read_literal (c ∷ []) = if c == 34 then some ([], []) else none
read_literal (c ∷ d ∷ s) = elim (c == 34) [
  | true ↦ elim (d == 34) [ true ↦ with_byte 34 (read_literal s) | false ↦ some ([], d ∷ s) ]
  | false ↦ with_byte c (read_literal (d ∷ s))
]

pub read_terms : ℕ → Bytes → Option (List Bytes)
unfolding read_literal
read_terms zero s = none
read_terms (suc fuel) [] = none
read_terms (suc fuel) (c ∷ s) = elim (c == 34) [
  | false ↦ none
  | true ↦ elim (read_literal s) [
    | none ↦ none
    | some found ↦ elim found.1 [
      | [] ↦ some (found.0 ∷ [])
      | b ∷ rest ↦ elim (starts_with (b ∷ rest) (codes " OR ")) [
        | false ↦ none
        | true ↦ elim (read_terms fuel (drop 4 (b ∷ rest))) [
          | none ↦ none
          | some ts ↦ some (found.0 ∷ ts)
        ]
      ]
    ]
  ]
]

unfoldable pub read_match : Bytes → Option (List Bytes)
unfolding read_terms
read_match s = read_terms (length s) s

read_plain :
    (c : ℕ) (s : Bytes) → (c == 34) ≡ false → read_literal (c ∷ s) ≡ with_byte c (read_literal s)
unfolding read_literal
read_plain c [] e = rw (e, read_literal)
read_plain c (d ∷ s) e = rw (e, read_literal)

-- What follows a literal does not begin with a quote.
abbrev Apart : Bytes → Type 0
Apart [] = Unit
Apart (d ∷ s) = (d == 34) ≡ false

read_literal-doubled :
    (t rest : Bytes) → Apart rest → read_literal (doubled t ++ (34 ∷ rest)) ≡ some (t, rest)
unfolding read_literal
read_literal-doubled [] [] h = refl
read_literal-doubled [] (d ∷ rest) h = rw (h, read_literal)
read_literal-doubled (c ∷ t) rest h =
    let again = read_literal-doubled t rest h in
    elim (Bool-cases (c == 34)) [
      | inl e ↦ let same : c ≡ 34 = (==_iff c 34).0 e in rw same (rw (again))
      | inr e ↦ rw (e, read_plain c (doubled t ++ (34 ∷ rest)) e, again)
    ]

read_terms-join_or :
    (ts : List Bytes) (fuel : ℕ) (t : Bytes)
    → length ts < fuel
    → read_terms fuel (join_or (t ∷ ts)) ≡ some (t ∷ ts)
unfolding read_terms
read_terms-join_or ts zero t h = absurd (omega arith)
read_terms-join_or [] (suc fuel) t h = let e = read_literal-doubled t [] tt in rw (e, read_terms)
read_terms-join_or (u ∷ ts) (suc fuel) t h =
    let rest = codes " OR " ++ join_or (u ∷ ts) in
    let shape : join_or (t ∷ u ∷ ts) ≡ 34 ∷ (doubled t ++ (34 ∷ rest)) =
      ap (λ z. 34 ∷ z) (append_assoc (doubled t) (34 ∷ []) rest) in
    let e = read_literal-doubled t rest refl in
    let f = read_terms-join_or ts fuel u (omega arith) in rw shape (rw (e, f, read_terms))

length-join_or : (ts : List Bytes) (t : Bytes) → length ts < length (join_or (t ∷ ts))
length-join_or [] t = omega arith
length-join_or (u ∷ ts) t = omega (
  arith,
  length-join_or ts u,
  length-append (quoted t) (codes " OR " ++ join_or (u ∷ ts)),
  length-append (codes " OR ") (join_or (u ∷ ts)),
)

terms_of-le : (d : Decoder) (raw : Bytes) → length (terms_of d raw) ≤ max_fts_terms
terms_of-le d raw =
    let clipped = if ltb max_query_bytes (length raw) then take max_query_bytes raw else raw in
    let terms = fts_tokenize d clipped in
    elim (Bool-cases (ltb max_fts_terms (length terms))) [
      | inl e ↦ rw e (omega (arith, length-take max_fts_terms terms))
      | inr e ↦ rw e (ground arith)
    ]

-- For every query, buildFTSMatch reports that there is no term where there is none; otherwise the
-- reader of string literals between ORs reads its expression as the terms of the query, which are at
-- most 64.
pub build_fts_match_lem :
    (d : Decoder) (raw : Bytes)
    → ((build_fts_match d raw ≡ none) × (terms_of d raw ≡ []))
      ⊎ ((m : Bytes) × (build_fts_match d raw ≡ some m)
          × (read_match m ≡ some (terms_of d raw))
          × (length (terms_of d raw) ≤ 64))
unfolding build_fts_match read_match
build_fts_match_lem d raw = elim (List-cases (terms_of d raw)) [
  | inl e ↦ inl (rw (e, build_fts_match), e)
  | inr (t, ts, e) ↦
      let read = read_terms-join_or ts (length (join_or (t ∷ ts))) t (length-join_or ts t) in
      inr (
        join_or (t ∷ ts),
        rw (e, build_fts_match),
        read ∙ ap (λ z. some z) (sym e),
        terms_of-le d raw,
      )
]
