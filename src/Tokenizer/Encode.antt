-- ===== src/Tokenizer/Encode.antt =====
-- `New` and `Encode` of berttok.go. A slice out of range is `none`, where the program panics.
pub mod Shape
pub mod Loaded
use foldermcp.Base.{
  ℕ, zero, suc, ◌+◌, ◌-◌, ◌≤◌, ◌<◌, ◌≡◌, refl, sym, ap, ◌∙◌, Bool, true, false, not, ◌&&◌, List, [],
  ◌∷◌, ◌++◌, Option, none, some, arith, length, length-append, take, length-take, get_elem?, ltb,
  leb, ◌==◌, bytes_eq, codes, if◌then◌else◌, Bool-cases, inl, inr,
}
use mathlib.Core.List.{Memᴰ}
use mathlib.Core.List.Memᴰ
use foldermcp.Tokenizer.Runes.{Runes, Unicode, AddedTok, Tokenizer}
use foldermcp.Tokenizer.Pieces.{word_piece}
use foldermcp.Tokenizer.Words.{normalize, basic_tokenize}
use foldermcp.Tokenizer.Added.{Segment, split_on_added_tokens}

pub record AddedJson : Type 0 where
  pub id : ℕ
  pub content : Runes
  pub special : Bool
  pub normalized : Bool

-- `tokenizerJSON`: an absent Boolean is `none`, an absent text empty.
pub record TokenizerJson : Type 0 where
  pub clean_text : Option Bool
  pub handle_chinese : Option Bool
  pub strip_accents : Option Bool
  pub lowercase : Option Bool
  pub unk_token : Runes
  pub continuing_prefix : Runes
  pub max_input_chars : ℕ
  pub vocab : Runes → Option ℕ
  pub added_tokens : List AddedJson

abbrev pub bool_or : Option Bool → Bool → Bool
bool_or none d = d
bool_or (some b) d = b

-- A text, or its default where it is empty.
abbrev pub text_or : Runes → Runes → Runes
text_or [] d = d
text_or (r ∷ rs) d = r ∷ rs

-- An id of the vocabulary, 0 where it is missing, as a Go map gives it.
abbrev pub id_of : (Runes → Option ℕ) → Runes → ℕ
id_of vocab s = elim (vocab s) [ none ↦ 0 | some v ↦ v ]

abbrev pub is_empty : Runes → Bool
is_empty [] = true
is_empty (r ∷ rs) = false

unfoldable pub added_of : List AddedJson → List AddedTok
added_of [] = []
added_of (a ∷ as') =
    let rest = added_of as' in
    if a.special && not a.normalized && not (is_empty a.content)
    then record { content = a.content; id = a.id } ∷ rest
    else rest

unfoldable pub new_tokenizer : TokenizerJson → ℕ → Tokenizer
unfolding added_of
new_tokenizer hf max_seq_len =
    let lower = bool_or hf.lowercase true in
    record {
      vocab = hf.vocab;
      added = added_of hf.added_tokens;
      cls_id = id_of hf.vocab (codes "[CLS]");
      sep_id = id_of hf.vocab (codes "[SEP]");
      unk_id = id_of hf.vocab (text_or hf.unk_token (codes "[UNK]"));
      pad_id = id_of hf.vocab (codes "[PAD]");
      cont_prefix = text_or hf.continuing_prefix (codes "##");
      max_input_char = if hf.max_input_chars == 0 then 100 else hf.max_input_chars;
      max_seq_len = max_seq_len;
      clean = bool_or hf.clean_text true;
      handle_chinese = bool_or hf.handle_chinese true;
      strips_accents = bool_or hf.strip_accents lower;
      lowercase = lower;
    }

-- The cells `i`, `i + 1`, ... of an array, as many as `n`.
abbrev pub fill : (ℕ → ℕ) → ℕ → ℕ → List ℕ
fill cell i zero = []
fill cell i (suc n) = cell i ∷ fill cell (suc i) n

abbrev pub repeat : ℕ → ℕ → List ℕ
repeat zero x = []
repeat (suc n) x = x ∷ repeat n x

module _ (u : Unicode) (t : Tokenizer) where
  open t use {cls_id, sep_id, pad_id, max_seq_len}

  abbrev pub word_pieces : List Runes → List ℕ
  word_pieces [] = []
  word_pieces (w ∷ ws) = word_piece t w ++ word_pieces ws

  abbrev pub segment_ids : Segment → List ℕ
  segment_ids seg =
      if seg.special then seg.id ∷ [] else word_pieces (basic_tokenize u (normalize u t seg.text))

  abbrev pub content_of : List Segment → List ℕ
  content_of [] = []
  content_of (seg ∷ segs) = segment_ids seg ++ content_of segs

  -- `content[i-1]`, which is in range where it is read.
  abbrev pub content_at : List ℕ → ℕ → ℕ
  content_at content i = elim (get_elem? content (i - 1)) [ none ↦ 0 | some v ↦ v ]

  -- The cells of the identifiers and of the mask.
  abbrev pub id_cell : List ℕ → ℕ → ℕ
  id_cell content i =
      if i == 0
      then cls_id
      else if leb i (length content)
      then content_at content i
      else if i == length content + 1
      then sep_id
      else pad_id

  abbrev pub mask_cell : List ℕ → ℕ → ℕ
  mask_cell content i =
      if i == 0
      then 1
      else if leb i (length content)
      then 1
      else if i == length content + 1
      then 1
      else 0

  -- `content = content[:max]` with `max := t.maxSeqLen - 2`, which may be negative.
  abbrev pub shortened : List ℕ → Option (List ℕ)
  shortened content =
      if ltb max_seq_len 2
      then none
      else some (
          if ltb (max_seq_len - 2) (length content)
          then take (max_seq_len - 2) content
          else content)

  abbrev pub all_content : Runes → List ℕ
  all_content text = content_of (split_on_added_tokens t text)

  unfoldable pub encode : Runes → Option (List ℕ × List ℕ × List ℕ)
  encode text = elim (shortened (all_content text)) [
    | none ↦ none
    | some content ↦ some (
      fill (id_cell content) 0 max_seq_len,
      fill (mask_cell content) 0 max_seq_len,
      repeat max_seq_len 0,
    )
  ]
