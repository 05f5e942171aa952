-- ===== src/Tokenizer/Encode/Loaded.antt =====
-- The added tokens of a tokenizer that `New` returns.
use foldermcp.Base.{
  ℕ, ◌≤◌, ◌≡◌, Bool, true, not, ◌&&◌, List, [], ◌∷◌, arith, length, Bool-cases, inl, inr,
}
use mathlib.Core.List.{Memᴰ}
use foldermcp.Tokenizer.Runes.{Runes, AddedTok}
use foldermcp.Tokenizer.Added.{split_on_added_tokens}
use foldermcp.Tokenizer.Added.Segments.{Segments, split_on_added_tokens-Segments}
use foldermcp.Tokenizer.Encode.{TokenizerJson, AddedJson, is_empty, added_of, new_tokenizer}

filled :
    (special normalized : Bool) (s : Runes)
    → (special && not normalized && not (is_empty s)) ≡ true
    → 1 ≤ length s
filled special normalized [] h = ground arith
filled special normalized (r ∷ rs) h = omega arith

added_of-full : (as' : List AddedJson) (a : AddedTok) → Memᴰ a (added_of as') → 1 ≤ length a.content
unfolding added_of
added_of-full [] a m = elim m [ ]
added_of-full (c ∷ as') a m =
    elim (Bool-cases (c.special && not c.normalized && not (is_empty c.content))) [
      | inl e ↦ elim (rw (e, added_of) at m) [
        | Memᴰ.head q ↦ rw q (filled c.special c.normalized c.content e)
        | Memᴰ.tail k ↦ added_of-full as' a k
      ]
      | inr e ↦ added_of-full as' a (rw (e, added_of) at m)
    ]

-- A tokenizer that New returns cuts a text at the leftmost of its added tokens, and at the longest of
-- those that begin there, again behind it and so on; what stands between two tokens is a plain
-- segment, and so is the end where no token occurs any more.
pub new_tokenizer-Segments :
    (hf : TokenizerJson) (max_seq_len : ℕ) (text : Runes)
    → Segments
        (new_tokenizer hf max_seq_len).added
        text
        (split_on_added_tokens (new_tokenizer hf max_seq_len) text)
unfolding new_tokenizer
new_tokenizer-Segments hf max_seq_len text =
    split_on_added_tokens-Segments (new_tokenizer hf max_seq_len) (added_of-full hf.added_tokens)
      text
