-- ===== src/Tokenizer/Words.antt =====
-- `normalize` and `basicTokenize` of berttok.go.
use foldermcp.Base.{
  ℕ, ◌≤◌, ◌≡◌, refl, sym, ◌∙◌, Bool, true, false, not, ◌&&◌, ◌||◌, List, [], ◌∷◌, ◌++◌,
  append_assoc, append-nil, arith, leb, ◌==◌, if◌then◌else◌, Bool-cases, inl, inr, All, All-append,
  ◌⊎◌, length,
}
use foldermcp.Tokenizer.Runes.{Runes, Unicode, Tokenizer}

abbrev pub between : ℕ → ℕ → ℕ → Bool
between low high r = leb low r && leb r high

abbrev pub is_chinese_char : ℕ → Bool
is_chinese_char r =
    between 0x4e00 0x9fff r
    || between 0x3400 0x4dbf r
    || between 0x20000 0x2a6df r
    || between 0x2a700 0x2b73f r
    || between 0x2b740 0x2b81f r
    || between 0x2b920 0x2ceaf r
    || between 0xf900 0xfaff r
    || between 0x2f800 0x2fa1f r

abbrev pub handle_chinese_chars : Runes → Runes
handle_chinese_chars [] = []
handle_chinese_chars (r ∷ rs) =
    let rest = handle_chinese_chars rs in if is_chinese_char r then 32 ∷ r ∷ 32 ∷ rest else r ∷ rest

-- The runes that pass a test.
abbrev pub kept : (ℕ → Bool) → Runes → Runes
kept p [] = []
kept p (r ∷ rs) = let rest = kept p rs in if p r then r ∷ rest else rest

module _ (u : Unicode) where
  open u use {is_space, is_c, is_zs, is_mn, is_punct, nfd, to_lower}

  abbrev pub is_control : ℕ → Bool
  is_control r = if r == 9 || r == 10 || r == 13 then false else is_c r

  abbrev pub is_whitespace : ℕ → Bool
  is_whitespace r = if r == 32 || r == 9 || r == 10 || r == 13 then true else is_zs r

  abbrev pub is_punctuation : ℕ → Bool
  is_punctuation r =
      if between 33 47 r || between 58 64 r || between 91 96 r || between 123 126 r
      then true
      else is_punct r

  abbrev pub clean_text : Runes → Runes
  clean_text [] = []
  clean_text (r ∷ rs) =
      let rest = clean_text rs in
      if r == 0 || r == 0xfffd || is_control r
      then rest
      else if is_whitespace r
      then 32 ∷ rest
      else r ∷ rest

  abbrev pub strip_accents : Runes → Runes
  strip_accents s = kept (λ r. not (is_mn r)) (nfd s)

  unfoldable pub normalize : Tokenizer → Runes → Runes
  normalize t s =
      let cleaned = if t.clean then clean_text s else s in
      let spaced = if t.handle_chinese then handle_chinese_chars cleaned else cleaned in
      let bare = if t.strips_accents then strip_accents spaced else spaced in
      if t.lowercase then to_lower bare else bare

  -- `flush`
  abbrev pub flush : Runes → List Runes
  flush [] = []
  flush (r ∷ cur) = (r ∷ cur) ∷ []

  -- The loop of `splitOnPunct` with the runes since the last piece.
  pub split_on_punct_from : Runes → Runes → List Runes
  split_on_punct_from cur [] = flush cur
  split_on_punct_from cur (r ∷ rs) =
      let apart = flush cur ++ ((r ∷ []) ∷ split_on_punct_from [] rs) in
      let more = split_on_punct_from (cur ++ r ∷ []) rs in if is_punctuation r then apart else more

  abbrev pub split_on_punct : Runes → List Runes
  split_on_punct word = split_on_punct_from [] word

  -- `strings.Fields` with the runes of the field so far.
  pub fields_from : Runes → Runes → List Runes
  fields_from cur [] = flush cur
  fields_from cur (r ∷ rs) =
      let apart = flush cur ++ fields_from [] rs in
      let more = fields_from (cur ++ r ∷ []) rs in if is_space r then apart else more

  abbrev pub pieces_of : List Runes → List Runes
  pieces_of [] = []
  pieces_of (w ∷ ws) = split_on_punct w ++ pieces_of ws

  unfoldable pub basic_tokenize : Runes → List Runes
  unfolding split_on_punct_from fields_from
  basic_tokenize s = pieces_of (fields_from [] s)

  -- The words joined.
  abbrev pub joined : List Runes → Runes
  joined [] = []
  joined (w ∷ ws) = w ++ joined ws

  joined-append : (vs ws : List Runes) → joined (vs ++ ws) ≡ joined vs ++ joined ws
  joined-append [] ws = refl
  joined-append (v ∷ vs) ws =
      rw (joined-append vs ws) (sym (append_assoc v (joined vs) (joined ws)))

  joined-flush : (cur : Runes) → joined (flush cur) ≡ cur
  joined-flush [] = refl
  joined-flush (r ∷ cur) = append-nil (r ∷ cur)

  joined-split_on_punct_from : (cur s : Runes) → joined (split_on_punct_from cur s) ≡ cur ++ s
  unfolding split_on_punct_from
  joined-split_on_punct_from cur [] = joined-flush cur ∙ sym (append-nil cur)
  joined-split_on_punct_from cur (r ∷ rs) =
      let rest = joined-split_on_punct_from [] rs in
      let more = joined-split_on_punct_from (cur ++ r ∷ []) rs in
      elim (Bool-cases (is_punctuation r)) [
        | inl e ↦ rw e (
            joined-append (flush cur) ((r ∷ []) ∷ split_on_punct_from [] rs)
            ∙ rw (joined-flush cur, rest))
        | inr e ↦ rw e (more ∙ append_assoc cur (r ∷ []) rs)
      ]

  kept-fields_from :
      (cur s : Runes) → joined (fields_from cur s) ≡ cur ++ kept (λ r. not (is_space r)) s
  unfolding fields_from
  kept-fields_from cur [] = joined-flush cur ∙ sym (append-nil cur)
  kept-fields_from cur (r ∷ rs) =
      let rest = kept-fields_from [] rs in
      let more = kept-fields_from (cur ++ r ∷ []) rs in
      elim (Bool-cases (is_space r)) [
        | inl e ↦ rw e (joined-append (flush cur) (fields_from [] rs) ∙ rw (joined-flush cur, rest))
        | inr e ↦ rw e (more ∙ append_assoc cur (r ∷ []) (kept (λ r. not (is_space r)) rs))
      ]

  joined-pieces_of : (ws : List Runes) → joined (pieces_of ws) ≡ joined ws
  joined-pieces_of [] = refl
  joined-pieces_of (w ∷ ws) =
      joined-append (split_on_punct w) (pieces_of ws)
      ∙ rw (joined-split_on_punct_from [] w, joined-pieces_of ws)

  -- A piece is one punctuation rune, or is not empty and holds no punctuation.
  abbrev pub IsPiece : Runes → Type 0
  IsPiece w =
      ((r : ℕ) × (w ≡ r ∷ []) × (is_punctuation r ≡ true))
      ⊎ ((1 ≤ length w) × All (λ r. is_punctuation r ≡ false) w)

  flush-IsPiece : (cur : Runes) → All (λ r. is_punctuation r ≡ false) cur → All IsPiece (flush cur)
  flush-IsPiece [] h = tt
  flush-IsPiece (r ∷ cur) h = (inr (omega arith, h), tt)

  split_on_punct_from-IsPiece :
      (cur s : Runes)
      → All (λ r. is_punctuation r ≡ false) cur
      → All IsPiece (split_on_punct_from cur s)
  unfolding split_on_punct_from
  split_on_punct_from-IsPiece cur [] h = flush-IsPiece cur h
  split_on_punct_from-IsPiece cur (r ∷ rs) h =
      let rest = split_on_punct_from-IsPiece [] rs tt in
      elim (Bool-cases (is_punctuation r)) [
        | inl e ↦ rw e (
            All-append IsPiece (flush cur) ((r ∷ []) ∷ split_on_punct_from [] rs)
              (flush-IsPiece cur h) (inl (r, refl, e), rest))
        | inr e ↦ rw e (
            split_on_punct_from-IsPiece (cur ++ r ∷ []) rs
              (All-append (λ q. is_punctuation q ≡ false) cur (r ∷ []) h (e, tt)))
      ]

  pieces_of-IsPiece : (ws : List Runes) → All IsPiece (pieces_of ws)
  pieces_of-IsPiece [] = tt
  pieces_of-IsPiece (w ∷ ws) =
      All-append IsPiece (split_on_punct w) (pieces_of ws) (split_on_punct_from-IsPiece [] w tt)
        (pieces_of-IsPiece ws)

  -- The words of basicTokenize, joined, are the text without its white space; each is one
  -- punctuation rune or is not empty and free of punctuation.
  pub basic_tokenize_words :
      (s : Runes)
      → (joined (basic_tokenize s) ≡ kept (λ r. not (is_space r)) s)
        × All IsPiece (basic_tokenize s)
  unfolding basic_tokenize
  basic_tokenize_words s = (
    joined-pieces_of (fields_from [] s) ∙ kept-fields_from [] s,
    pieces_of-IsPiece (fields_from [] s),
  )
