-- ===== src/Tokenizer/Added/Segments.antt =====
-- The segments of `splitOnAddedTokens`.
use foldermcp.Base.{
  ℕ, zero, suc, ◌+◌, ◌≤◌, ◌≡◌, refl, sym, ap, ◌∙◌, true, false, List, [], ◌∷◌, ◌++◌, none, some,
  arith, length, take, drop, drop-add, length-drop, length-append, length-take, take-append-drop,
  ltb, lt→ltb, starts_with, starts_with-append-drop, if◌then◌else◌, Option-cases, List-cases, inl,
  inr,
}
use mathlib.Core.List.{Memᴰ}
use foldermcp.Tokenizer.Runes.{Runes, AddedTok, Tokenizer}
use foldermcp.Tokenizer.Added.{Segment, plain, token, best_of, split_from, split_on_added_tokens}
use foldermcp.Tokenizer.Added.Places.{best_of-Beats, best_of-IsPlace}

module _ (added : List AddedTok) where
  -- No token occurs in the text.
  abbrev pub Free : Runes → Type 0
  Free text = (a : AddedTok) → Memᴰ a added → (k : ℕ) → starts_with (drop k text) a.content ≡ false

  -- No token occurs before the place `i`, and none at it that is longer than `n`.
  abbrev pub Leftmost : Runes → ℕ → ℕ → Type 0
  Leftmost text i n =
      (a : AddedTok)
      → Memᴰ a added
      → (k : ℕ) → starts_with (drop k text) a.content ≡ true
      → (i ≤ k) × (k ≡ i → length a.content ≤ n)

  -- The plain segment in front of a token, where there is one.
  abbrev pub in_front : Runes → List Segment
  in_front [] = []
  in_front (r ∷ rs) = plain (r ∷ rs) ∷ []

  -- A text cut at the leftmost and there the longest token, again and again.
  pub data Segments : Runes → List Segment → Type 0 where
    done : Segments [] []
    rest : {text : Runes} → Free text → Segments text (plain text ∷ [])
    next :
        {text : Runes} {segs : List Segment} (gap later : Runes) (a : AddedTok)
        → Memᴰ a added
        → text ≡ gap ++ (a.content ++ later)
        → Leftmost text (length gap) (length a.content)
        → Segments later segs
        → Segments text (in_front gap ++ (token a.id ∷ segs))

  next_at :
      (text : Runes) (i : ℕ) (a : AddedTok) (segs : List Segment)
      → Memᴰ a added
      → starts_with (drop i text) a.content ≡ true
      → 1 ≤ length a.content
      → Leftmost text i (length a.content)
      → Segments (drop (i + length a.content) text) segs
      → Segments text (in_front (take i text) ++ (token a.id ∷ segs))
  next_at text i a segs m at full most later =
      let behind = starts_with-append-drop (drop i text) a.content at in
      let size : length (take i text) ≡ i = omega (
        arith,
        length-take i text,
        length-drop i text,
        length-append a.content (drop (length a.content) (drop i text)),
        ap (λ (u : Runes). length u) behind,
        full,
      ) in
      Segments.next (take i text) (drop (i + length a.content) text) a m
        (sym (rw (drop-add i (length a.content) text, behind) (take-append-drop i text)))
        (rw size most) later

  front_lem :
      (i r : ℕ) (rs : Runes) (found : List Segment)
      → (if ltb 0 i then plain (take i (r ∷ rs)) ∷ found else found)
        ≡ in_front (take i (r ∷ rs)) ++ found
  front_lem zero r rs found = refl
  front_lem (suc i) r rs found =
      let e : ltb 0 (suc i) ≡ true = lt→ltb zero (suc i) (omega arith) in rw e

  split_from-Segments :
      ((a : AddedTok) → Memᴰ a added → 1 ≤ length a.content)
      → (fuel : ℕ) (text : Runes) → length text ≤ fuel
      → Segments text (split_from added fuel text)
  unfolding split_from
  split_from-Segments full zero [] h = Segments.done
  split_from-Segments full zero (r ∷ rs) h = absurd (omega arith)
  split_from-Segments full (suc fuel) [] h = Segments.done
  split_from-Segments full (suc fuel) (r ∷ rs) h =
      let text = r ∷ rs in
      let beats = best_of-Beats text added none in
      let place = best_of-IsPlace text added added none (λ a m. m) tt in
      elim (Option-cases (best_of text added none)) [
        | inl e ↦ rw (e, split_from) (Segments.rest (rw e at beats))
        | inr (b, e) ↦
            let (a, m, same, at) = rw e at place in
            let n = length a.content in
            let rest =
              split_from-Segments full fuel (drop (b.idx + n) text)
                (omega (arith, length-drop (b.idx + n) text, full a m, h)) in
            let most : Leftmost text b.idx n = rw (e, same) at beats in
            rw (e ∙ ap (λ x. some x) same, split_from)
              (rw
                (front_lem b.idx r rs (token a.id ∷ split_from added fuel (drop (b.idx + n) text)))
                (next_at text b.idx a (split_from added fuel (drop (b.idx + n) text)) m at
                  (full a m) most rest))
      ]

-- Where no added token is empty, splitOnAddedTokens cuts the text at the leftmost added token, and at
-- the longest of those that begin there, again behind it and so on; what stands between two tokens
-- is a plain segment, and so is the end where no token occurs any more.
pub split_on_added_tokens-Segments :
    (t : Tokenizer)
    → ((a : AddedTok) → Memᴰ a t.added → 1 ≤ length a.content)
    → (text : Runes) → Segments t.added text (split_on_added_tokens t text)
unfolding split_on_added_tokens
split_on_added_tokens-Segments t full text = elim (List-cases t.added) [
  | inl e ↦ rw e (Segments.rest (λ a m. elim m [ ]))
  | inr (a, r, e) ↦
      rw e (split_from-Segments (a ∷ r) (rw e at full) (length text) text (omega arith))
]
