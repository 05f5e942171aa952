-- ===== src/Tokenizer/Runes.antt =====
-- What berttok.go reads of the unicode and norm packages, and the settings of a tokenizer. A string
-- of valid UTF-8 is the list of its runes.
use foldermcp.Base.{ℕ, Bool, List, Option}

abbrev pub Runes : Type 0
Runes = List ℕ

-- The tables of the unicode package, `norm.NFD.String` and `strings.ToLower`.
pub record Unicode : Type 0 where
  pub is_space : ℕ → Bool
  pub is_c : ℕ → Bool
  pub is_zs : ℕ → Bool
  pub is_mn : ℕ → Bool
  pub is_punct : ℕ → Bool
  pub nfd : Runes → Runes
  pub to_lower : Runes → Runes

pub record AddedTok : Type 0 where
  pub content : Runes
  pub id : ℕ

-- The vocabulary is the map of the file as a function.
pub record Tokenizer : Type 0 where
  pub vocab : Runes → Option ℕ
  pub added : List AddedTok
  pub cls_id : ℕ
  pub sep_id : ℕ
  pub unk_id : ℕ
  pub pad_id : ℕ
  pub cont_prefix : Runes
  pub max_input_char : ℕ
  pub max_seq_len : ℕ
  pub clean : Bool
  pub handle_chinese : Bool
  pub strips_accents : Bool
  pub lowercase : Bool
