-- ===== src/Walker/Classes.antt =====
-- The classes of files, of internal/v3/walker/mime.go and binary.go. `strings.ToLower` is taken on
-- ASCII, which the extensions that are told apart consist of.
use Prim.Native.String.{String}
use text.Mathlib.Text.{◌==◌ as str_eq}
use foldermcp.Base.{
  ℕ, ◌+◌, Bool, not, ◌&&◌, ◌||◌, List, [], ◌∷◌, Bytes, codes, bytes_eq, starts_with, any, map, take,
  leb, ◌==◌, if◌then◌else◌,
}

abbrev pub lower : ℕ → ℕ
lower c = if leb 65 c && leb c 90 then c + 32 else c

-- The loop of `filepath.Ext` from the front: the suffix from the last dot on, of those behind the
-- last slash.
abbrev pub ext_from : Bytes → Bytes → Bytes
ext_from found [] = found
ext_from found (c ∷ s) = ext_from (if c == 46 then c ∷ s else if c == 47 then [] else found) s

-- `strings.ToLower(filepath.Ext(path))`
abbrev pub lower_ext : Bytes → Bytes
lower_ext path = map lower (ext_from [] path)

abbrev pub is_one_of : Bytes → List Bytes → Bool
is_one_of e es = any (λ x. bytes_eq e x) es

abbrev pub binary_document_exts : List Bytes
binary_document_exts = codes ".pdf" ∷ codes ".docx" ∷ codes ".odt" ∷ []

unfoldable pub is_binary_document_ext : Bytes → Bool
is_binary_document_ext path = is_one_of (lower_ext path) binary_document_exts

unfoldable pub is_binary_content : Bytes → Bool
is_binary_content sample = any (λ b. b == 0) sample

abbrev code_exts : List Bytes
code_exts =
    codes ".py"
    ∷ codes ".go"
    ∷ codes ".js"
    ∷ codes ".ts"
    ∷ codes ".rs"
    ∷ codes ".java"
    ∷ codes ".c"
    ∷ codes ".cc"
    ∷ codes ".cpp"
    ∷ codes ".h"
    ∷ codes ".hpp"
    ∷ []

abbrev document_exts : List Bytes
document_exts =
    codes ".md"
    ∷ codes ".txt"
    ∷ codes ".rst"
    ∷ codes ".org"
    ∷ codes ".tex"
    ∷ codes ".pdf"
    ∷ codes ".docx"
    ∷ codes ".odt"
    ∷ []

abbrev image_exts : List Bytes
image_exts =
    codes ".png"
    ∷ codes ".jpg"
    ∷ codes ".jpeg"
    ∷ codes ".gif"
    ∷ codes ".webp"
    ∷ codes ".heic"
    ∷ codes ".tiff"
    ∷ []

abbrev media_exts : List Bytes
media_exts =
    codes ".mp4"
    ∷ codes ".mkv"
    ∷ codes ".mov"
    ∷ codes ".avi"
    ∷ codes ".mp3"
    ∷ codes ".wav"
    ∷ codes ".flac"
    ∷ codes ".ogg"
    ∷ codes ".webm"
    ∷ []

abbrev data_exts : List Bytes
data_exts =
    codes ".csv"
    ∷ codes ".tsv"
    ∷ codes ".json"
    ∷ codes ".yaml"
    ∷ codes ".yml"
    ∷ codes ".xml"
    ∷ codes ".sqlite"
    ∷ []

abbrev pub class_from_mime : Bytes → String
class_from_mime mime =
    if starts_with mime (codes "text/")
    then "document"
    else if starts_with mime (codes "image/")
    then "image"
    else if starts_with mime (codes "video/") || starts_with mime (codes "audio/")
    then "media"
    else "unknown"

unfoldable pub class_from_ext_or_mime : Bytes → Bytes → String
class_from_ext_or_mime e mime =
    if is_one_of e code_exts
    then "code"
    else if is_one_of e document_exts
    then "document"
    else if is_one_of e image_exts
    then "image"
    else if is_one_of e media_exts
    then "media"
    else if is_one_of e data_exts
    then "data"
    else class_from_mime mime

abbrev pub binary_sniff_bytes : ℕ
binary_sniff_bytes = 8192

-- `ClassifyFile` of a file that can be read; `detect` is `http.DetectContentType`.
unfoldable pub classify_file : (Bytes → Bytes) → Bytes → Bytes → Bytes × String
unfolding class_from_ext_or_mime is_binary_document_ext is_binary_content
classify_file detect path content =
    let sample = take binary_sniff_bytes content in
    let mime = detect (take 512 sample) in
    let class = class_from_ext_or_mime (lower_ext path) mime in
    let at_risk =
      str_eq class "code" || str_eq class "document" && not (is_binary_document_ext path) in
    (mime, if at_risk && is_binary_content sample then "unknown" else class)
