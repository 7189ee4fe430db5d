-- ===== src/Format.antt =====
-- zizq/src/format.rs: the serialization formats and the media types that name them. A header's text is
-- the list of its code points.
use zizq_rust.Prelude.{
  ℕ, ◌≡◌, refl, Bool, true, false, ◌&&◌, ◌||◌, ◌==◌, leb, if◌then◌else◌, Option, some, none, List,
  [], ◌∷◌, ◌++◌, is_empty, codes,
}

pub data Format : Type 0 where
  json message_pack : Format

-- `Format::default()`
abbrev pub default_format : Format
default_format = message_pack

-- `==` of two formats.
abbrev pub same_format : Format → Format → Bool
same_format json json = true
same_format message_pack message_pack = true
same_format _ _ = false

unfoldable pub content_type : Format → List ℕ
content_type json = codes "application/json"
content_type message_pack = codes "application/msgpack"

unfoldable pub stream_content_type : Format → List ℕ
stream_content_type json = codes "application/x-ndjson"
stream_content_type message_pack = codes "application/vnd.zizq.msgpack-stream"

-- `split(';').next()`
abbrev pub before_semicolon : List ℕ → List ℕ
before_semicolon [] = []
before_semicolon (c ∷ s) = if c == b';' then [] else c ∷ before_semicolon s

-- `trim`, of the white space that is ASCII.
abbrev pub is_space : ℕ → Bool
is_space c = (leb 9 c && leb c 13) || (c == 32)

abbrev pub trim_start : List ℕ → List ℕ
trim_start [] = []
trim_start (c ∷ s) = if is_space c then trim_start s else c ∷ s

abbrev pub trim_end : List ℕ → List ℕ
trim_end [] = []
trim_end (c ∷ s) = let rest = trim_end s in if is_space c && is_empty rest then [] else c ∷ rest

abbrev pub same_text : List ℕ → List ℕ → Bool
same_text [] [] = true
same_text (a ∷ s) (b ∷ t) = (a == b) && same_text s t
same_text _ _ = false

abbrev format_of : List ℕ → Option Format
format_of mime =
    if same_text mime (codes "application/json") || same_text mime (codes "application/x-ndjson")
    then some json
    else if same_text mime (codes "application/msgpack")
        || same_text mime (codes "application/vnd.zizq.msgpack-stream")
    then some message_pack
    else none

unfoldable pub from_content_type : List ℕ → Option Format
from_content_type s = format_of (trim_end (trim_start (before_semicolon s)))

-- A media type of a format names it, with any parameters behind it.
pub from_content_type-parameters :
    (f : Format) (rest : List ℕ)
    → (from_content_type (content_type f ++ b';' ∷ rest) ≡ some f)
      × (from_content_type (stream_content_type f ++ b';' ∷ rest) ≡ some f)
unfolding from_content_type content_type stream_content_type
from_content_type-parameters json rest = (refl, refl)
from_content_type-parameters message_pack rest = (refl, refl)

pub from_content_type-content_type :
    (f : Format)
    → (from_content_type (content_type f) ≡ some f)
      × (from_content_type (stream_content_type f) ≡ some f)
unfolding from_content_type content_type stream_content_type
from_content_type-content_type json = (refl, refl)
from_content_type-content_type message_pack = (refl, refl)
