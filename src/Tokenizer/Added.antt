-- ===== src/Tokenizer/Added.antt =====
-- `splitOnAddedTokens` of berttok.go.
pub mod Places
pub mod Segments
use foldermcp.Base.{
  ℕ, zero, suc, ◌+◌, ◌≤◌, ◌≡◌, refl, sym, ap, ◌∙◌, Bool, true, false, ◌&&◌, ◌||◌, List, [], ◌∷◌,
  ◌++◌, Option, none, some, arith, length, take, drop, drop-add, length-drop, length-append,
  take-append-drop, ltb, ◌==◌, starts_with, starts_with-append-drop, if◌then◌else◌, Bool-cases,
  Option-cases, ◌⊎◌, inl, inr,
}
use mathlib.Core.Bool.{true≢false}
use mathlib.Core.List.{Memᴰ}
use foldermcp.Tokenizer.Runes.{Runes, AddedTok, Tokenizer}

-- `strings.Index`
pub index : Runes → Runes → Option ℕ
index [] s = if starts_with [] s then some 0 else none
index (r ∷ rs) s = elim (starts_with (r ∷ rs) s) [
  | true ↦ some 0
  | false ↦ elim (index rs s) [ none ↦ none | some i ↦ some (suc i) ]
]

pub record Segment : Type 0 where
  pub special : Bool
  pub id : ℕ
  pub text : Runes

abbrev pub plain : Runes → Segment
plain s = record { special = false; id = 0; text = s }

abbrev pub token : ℕ → Segment
token i = record { special = true; id = i; text = [] }

pub record Best : Type 0 where
  pub idx : ℕ
  pub len : ℕ
  pub id : ℕ

module _ (text : Runes) where
  abbrev pub candidate : ℕ → AddedTok → Best
  candidate i a = record { idx = i; len = length a.content; id = a.id }

  -- One turn of the loop over the added tokens.
  pub improve : AddedTok → Option Best → Option Best
  unfolding index
  improve a best = elim (index text a.content) [
    | none ↦ best
    | some i ↦ elim best [
      | none ↦ some (candidate i a)
      | some b ↦
          if ltb i b.idx || i == b.idx && ltb b.len (length a.content)
          then some (candidate i a)
          else some b
    ]
  ]

  pub best_of : List AddedTok → Option Best → Option Best
  unfolding improve
  best_of [] best = best
  best_of (a ∷ as') best = best_of as' (improve a best)

-- The loop of `splitOnAddedTokens` on the text that is left.
pub split_from : List AddedTok → ℕ → Runes → List Segment
unfolding best_of
split_from added zero text = []
split_from added (suc fuel) [] = []
split_from added (suc fuel) (r ∷ rs) = elim (best_of (r ∷ rs) added none) [
  | none ↦ plain (r ∷ rs) ∷ []
  | some b ↦
      let rest = split_from added fuel (drop (b.idx + b.len) (r ∷ rs)) in
      let found = token b.id ∷ rest in
      if ltb 0 b.idx then plain (take b.idx (r ∷ rs)) ∷ found else found
]

unfoldable pub split_on_added_tokens : Tokenizer → Runes → List Segment
unfolding split_from
split_on_added_tokens t text = elim t.added [
  | [] ↦ plain text ∷ []
  | _ ∷ _ ↦ split_from t.added (length text) text
]
