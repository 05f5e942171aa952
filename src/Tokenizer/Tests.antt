-- ===== src/Tokenizer/Tests.antt =====
-- A small vocabulary, and the theorems at it.
use foldermcp.Base.{
  ℕ, ◌+◌, ◌≤◌, ◌<◌, ◌≡◌, refl, ◌⊎◌, true, false, not, [], ◌∷◌, ◌++◌, Option, none, some, arith, All,
  length, codes, ◌==◌, bytes_eq, if◌then◌else◌,
}
use foldermcp.Tokenizer.Runes.{Runes, Unicode, Tokenizer}
use foldermcp.Tokenizer.Pieces.{word_piece, Greedy, Stuck, word_piece-Greedy}
use foldermcp.Tokenizer.Words.{
  basic_tokenize, joined, kept, IsPiece, basic_tokenize_words, normalize,
}
use foldermcp.Tokenizer.Added.{split_on_added_tokens}
use foldermcp.Tokenizer.Added.Segments.{Segments}
use foldermcp.Tokenizer.Encode.{TokenizerJson, new_tokenizer, added_of, encode, repeat}
use foldermcp.Tokenizer.Encode.Shape.{kept_content, encode_lem}
use foldermcp.Tokenizer.Encode.Loaded.{new_tokenizer-Segments}

-- The tables for ASCII.
abbrev ascii : Unicode
ascii = record {
  is_space = λ r. r == 32;
  is_c = λ r. false;
  is_zs = λ r. false;
  is_mn = λ r. false;
  is_punct = λ r. false;
  nfd = λ s. s;
  to_lower = λ s. s;
}

abbrev words : Runes → Option ℕ
words s =
    if bytes_eq s (codes "[CLS]")
    then some 1
    else if bytes_eq s (codes "[SEP]")
    then some 2
    else if bytes_eq s (codes "[UNK]")
    then some 3
    else if bytes_eq s (codes "un")
    then some 4
    else if bytes_eq s (codes "##aff")
    then some 5
    else if bytes_eq s (codes "##able")
    then some 6
    else if bytes_eq s (codes "##a")
    then some 7
    else none

abbrev file : TokenizerJson
file = record {
  clean_text = none;
  handle_chinese = none;
  strip_accents = none;
  lowercase = some false;
  unk_token = [];
  continuing_prefix = [];
  max_input_chars = 0;
  vocab = words;
  added_tokens =
      record { id = 2; content = codes "[SEP]"; special = true; normalized = false } ∷ [];
}

abbrev small : Tokenizer
unfolding new_tokenizer added_of
small = new_tokenizer file 8

abbrev text : Runes
text = codes "unaffable[SEP]un."

word_piece_unaffable : word_piece small (codes "unaffable") ≡ 4 ∷ 5 ∷ 6 ∷ []
unfolding word_piece small
word_piece_unaffable = refl

encode_text :
    encode ascii small text ≡ some (1 ∷ 4 ∷ 5 ∷ 6 ∷ 2 ∷ 4 ∷ 3 ∷ 2 ∷ [], repeat 8 1, repeat 8 0)
unfolding encode word_piece normalize basic_tokenize split_on_added_tokens small
encode_text = refl

word_piece-Greedy_example :
    ((small.max_input_char < length (codes "unaffable"))
      × (word_piece small (codes "unaffable") ≡ small.unk_id ∷ []))
    ⊎ ((length (codes "unaffable") ≤ small.max_input_char)
        × (Greedy small true (codes "unaffable") (word_piece small (codes "unaffable"))
            ⊎ (Stuck small true (codes "unaffable")
                × (word_piece small (codes "unaffable") ≡ small.unk_id ∷ []))))
word_piece-Greedy_example = word_piece-Greedy small (codes "unaffable")

basic_tokenize_words_example :
    (joined ascii (basic_tokenize ascii (codes "a, b")) ≡ kept (λ r. not (r == 32)) (codes "a, b"))
    × All (IsPiece ascii) (basic_tokenize ascii (codes "a, b"))
basic_tokenize_words_example = basic_tokenize_words ascii (codes "a, b")

new_tokenizer-Segments_example :
    Segments (new_tokenizer file 8).added text (split_on_added_tokens (new_tokenizer file 8) text)
new_tokenizer-Segments_example = new_tokenizer-Segments file 8 text

encode_lem_example :
    (p : ℕ) × (length (kept_content ascii small text) + 2 + p ≡ 8)
    × (encode ascii small text
        ≡ some (
          1 ∷ (kept_content ascii small text ++ (2 ∷ repeat p 0)),
          repeat (length (kept_content ascii small text) + 2) 1 ++ repeat p 0,
          repeat 8 0,
        ))
unfolding small
encode_lem_example = encode_lem ascii small (omega arith) text
