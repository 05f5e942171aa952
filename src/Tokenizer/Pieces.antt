-- ===== src/Tokenizer/Pieces.antt =====
-- `wordPiece` of berttok.go and the greedy decomposition that it computes.
use foldermcp.Base.{
  ℕ, zero, suc, ◌≤◌, ◌<◌, ◌≡◌, refl, sym, ◌⊎◌, inl, inr, Bool, true, false, List, [], ◌∷◌, ◌++◌,
  Option, none, some, arith, length, take, drop, length-drop, leb, ltb, leb→le, ltb→lt, Bool-cases,
  Option-cases, if◌then◌else◌,
}
use foldermcp.Tokenizer.Runes.{Runes, Tokenizer}

module _ (t : Tokenizer) where
  open t use {vocab, unk_id, cont_prefix, max_input_char}

  -- A piece of a word as the vocabulary spells it: behind the first it carries the prefix.
  abbrev pub spelled : Bool → Runes → Runes
  spelled true sub = sub
  spelled false sub = cont_prefix ++ sub

  -- The inner loop, on the runes from `start` on: from the given end down, the first end whose piece
  -- is in the vocabulary, with its id.
  pub longest : Bool → Runes → ℕ → Option (ℕ × ℕ)
  longest first rest zero = none
  longest first rest (suc n) = elim (vocab (spelled first (take (suc n) rest))) [
    | some v ↦ some (suc n, v)
    | none ↦ longest first rest n
  ]

  -- The outer loop, on the runes that are left; `none` where a piece misses.
  pub pieces : ℕ → Bool → Runes → Option (List ℕ)
  unfolding longest
  pieces fuel first [] = some []
  pieces zero first (r ∷ rs) = none
  pieces (suc fuel) first (r ∷ rs) = elim (longest first (r ∷ rs) (length (r ∷ rs))) [
    | none ↦ none
    | some found ↦ elim (pieces fuel false (drop found.0 (r ∷ rs))) [
      | none ↦ none
      | some ids ↦ some (found.1 ∷ ids)
    ]
  ]

  unfoldable pub word_piece : Runes → List ℕ
  unfolding pieces
  word_piece token =
      let found : List ℕ = elim (pieces (length token) true token) [
        | none ↦ unk_id ∷ []
        | some ids ↦ ids
      ] in
      if ltb max_input_char (length token) then unk_id ∷ [] else found

  -- No piece of `low` to `high` runes at the front is in the vocabulary.
  abbrev pub Missing : Bool → Runes → ℕ → ℕ → Type 0
  Missing first rest low high =
      (k : ℕ) → low ≤ k → k ≤ high → vocab (spelled first (take k rest)) ≡ none

  -- Longest pieces up to the end.
  pub data Greedy : Bool → Runes → List ℕ → Type 0 where
    done : {first : Bool} → Greedy first [] []
    piece :
        {first : Bool} {rest : Runes} {v : ℕ} {ids : List ℕ} (n : ℕ)
        → 1 ≤ n
        → n ≤ length rest
        → vocab (spelled first (take n rest)) ≡ some v
        → Missing first rest (suc n) (length rest)
        → Greedy false (drop n rest) ids
        → Greedy first rest (v ∷ ids)

  -- Longest pieces up to a place where none fits.
  pub data Stuck : Bool → Runes → Type 0 where
    here :
        {first : Bool} {rest : Runes}
        → 1 ≤ length rest
        → Missing first rest 1 (length rest)
        → Stuck first rest
    later :
        {first : Bool} {rest : Runes} {v : ℕ} (n : ℕ)
        → 1 ≤ n
        → n ≤ length rest
        → vocab (spelled first (take n rest)) ≡ some v
        → Missing first rest (suc n) (length rest)
        → Stuck false (drop n rest)
        → Stuck first rest

  -- What the inner loop finds from an end down, where nothing above fits.
  abbrev Longest : Bool → Runes → ℕ → Option (ℕ × ℕ) → Type 0
  Longest first rest high none = Missing first rest 1 high
  Longest first rest high (some (n, v)) =
      (1 ≤ n)
      × (n ≤ high)
      × (vocab (spelled first (take n rest)) ≡ some v)
      × Missing first rest (suc n) high

  Missing-suc :
      (first : Bool) (rest : Runes) (low high : ℕ)
      → Missing first rest low high
      → vocab (spelled first (take (suc high) rest)) ≡ none
      → Missing first rest low (suc high)
  Missing-suc first rest low high m e k a b = elim (Bool-cases (leb k high)) [
    | inl small ↦ m k a (leb→le k high small)
    | inr large ↦ let same : k ≡ suc high = ground arith in rw (sym same) at e
  ]

  longest_lem : (first : Bool) (rest : Runes) (n : ℕ) → Longest first rest n (longest first rest n)
  unfolding longest
  longest_lem first rest zero = λ k a b. absurd (omega arith)
  longest_lem first rest (suc n) = elim (Option-cases (vocab (spelled first (take (suc n) rest)))) [
    | inl e ↦ rw (e, longest) (extend (longest first rest n) e (longest_lem first rest n))
    | inr (v, e) ↦ rw (e, longest) (omega arith, omega arith, e, (λ k a b. absurd (omega arith)))
  ]
    where
      extend :
          (found : Option (ℕ × ℕ))
          → vocab (spelled first (take (suc n) rest)) ≡ none
          → Longest first rest n found
          → Longest first rest (suc n) found
      extend none e h = Missing-suc first rest 1 n h e
      extend (some (k, v)) e h =
          let (low, high, known, most) = h in
          (low, omega (arith, high), known, Missing-suc first rest (suc k) n most e)

  -- The outcome of the outer loop.
  abbrev Outcome : Bool → Runes → Option (List ℕ) → Type 0
  Outcome first rest none = Stuck first rest
  Outcome first rest (some ids) = Greedy first rest ids

  pieces_lem :
      (fuel : ℕ) (first : Bool) (rest : Runes)
      → length rest ≤ fuel
      → Outcome first rest (pieces fuel first rest)
  unfolding pieces
  pieces_lem fuel first [] h = Greedy.done
  pieces_lem zero first (r ∷ rs) h = absurd (omega arith)
  pieces_lem (suc fuel) first (r ∷ rs) h =
      go (longest first (r ∷ rs) (length (r ∷ rs))) refl
        (longest_lem first (r ∷ rs) (length (r ∷ rs))) (pieces_lem fuel false)
    where
      go :
          (found : Option (ℕ × ℕ))
          → longest first (r ∷ rs) (length (r ∷ rs)) ≡ found
          → Longest first (r ∷ rs) (length (r ∷ rs)) found
          → ((rest : Runes) → length rest ≤ fuel → Outcome false rest (pieces fuel false rest))
          → Outcome first (r ∷ rs) (pieces (suc fuel) first (r ∷ rs))
      go none e l again = rw (e, pieces) (Stuck.here (omega arith) l)
      go (some (n, v)) e l again =
          let (low, high, known, most) = l in
          let later = again (drop n (r ∷ rs)) (omega (arith, length-drop n (r ∷ rs), low, h)) in
          elim (Option-cases (pieces fuel false (drop n (r ∷ rs)))) [
            | inl s ↦ rw (e, s, pieces) (Stuck.later n low high known most (rw s at later))
            | inr (ids, s) ↦ rw (e, s, pieces) (Greedy.piece n low high known most (rw s at later))
          ]

  -- wordPiece gives the unknown token for a word that is too long. For another word its tokens are
  -- those of the longest pieces of the vocabulary, one behind the other, up to the end; or at some
  -- place behind such pieces no piece fits, and the unknown token alone is the result.
  pub word_piece-Greedy :
      (token : Runes)
      → ((max_input_char < length token) × (word_piece token ≡ unk_id ∷ []))
        ⊎ ((length token ≤ max_input_char)
            × (Greedy true token (word_piece token)
                ⊎ (Stuck true token × (word_piece token ≡ unk_id ∷ []))))
  unfolding word_piece
  word_piece-Greedy token = elim (Bool-cases (ltb max_input_char (length token))) [
    | inl long ↦ inl (ltb→lt max_input_char (length token) long, rw long)
    | inr short ↦
        let fits : length token ≤ max_input_char = ground arith in
        let whole = pieces_lem (length token) true token (omega arith) in
        elim (Option-cases (pieces (length token) true token)) [
          | inl e ↦ inr (fits, inr (rw e at whole, rw (short, e)))
          | inr (ids, e) ↦ inr (fits, inl (rw (short, e) (rw e at whole)))
        ]
  ]
