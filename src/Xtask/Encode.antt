-- ===== src/Xtask/Encode.antt =====
-- tooling/xtask/src/discovery.rs: the escaping of texts in HTML, XML and URLs.
pub mod Percent
pub mod Escape
use Prim.Native.Char.{Char, code}
use Prim.Native.String
use rust_v.Prelude.{
  ℕ, ◌+◌, ◌-◌, ◌/◌, ◌%◌, String, Bool, ◌&&◌, ◌||◌, List, [], ◌∷◌, ◌++◌, ltb, leb, ◌==◌,
  if◌then◌else◌,
}
use rust_v.Prelude.Text.Search.{replace_char}

-- The bytes of a character in UTF-8.
unfoldable pub utf8 : ℕ → List ℕ
utf8 c =
    if ltb c 0x80
    then c ∷ []
    else if ltb c 0x800
    then (0xc0 + c / 64) ∷ (0x80 + c % 64) ∷ []
    else if ltb c 0x1_0000
    then (0xe0 + c / 4096) ∷ (0x80 + c / 64 % 64) ∷ (0x80 + c % 64) ∷ []
    else (0xf0 + c / 262144) ∷ (0x80 + c / 4096 % 64) ∷ (0x80 + c / 64 % 64) ∷ (0x80 + c % 64) ∷ []

-- `value.bytes()`
unfoldable pub bytes : String → List ℕ
unfolding utf8
bytes String.[] = []
bytes (String.◌∷◌ c s) = utf8 (code c) ++ bytes s

abbrev pub is_digit : ℕ → Bool
is_digit b = leb b'0' b && leb b b'9'

abbrev pub is_alphanumeric : ℕ → Bool
is_alphanumeric b = is_digit b || (leb b'A' b && leb b b'Z') || (leb b'a' b && leb b b'z')

unfoldable pub is_unreserved : ℕ → Bool
is_unreserved b = is_alphanumeric b || b == b'-' || b == b'_' || b == b'.' || b == b'~'

-- A digit of `{:02X}`.
unfoldable pub hex_digit : ℕ → ℕ
hex_digit n = if ltb n 10 then b'0' + n else b'A' + (n - 10)

-- `percent_encode`, from the bytes of the text to those of the result.
unfoldable pub percent_encode : List ℕ → List ℕ
unfolding is_unreserved hex_digit
percent_encode [] = []
percent_encode (b ∷ bs) =
    let rest = percent_encode bs in
    if is_unreserved b then b ∷ rest else b'%' ∷ hex_digit (b / 16) ∷ hex_digit (b % 16) ∷ rest

unfoldable pub html_escape : String → String
html_escape value = replace_char b'\'' "&#39;" (
    replace_char b'"' "&quot;"
      (replace_char b'>' "&gt;" (replace_char b'<' "&lt;" (replace_char b'&' "&amp;" value))))

unfoldable pub xml_escape : String → String
xml_escape value = replace_char b'\'' "&apos;" (
    replace_char b'"' "&quot;"
      (replace_char b'>' "&gt;" (replace_char b'<' "&lt;" (replace_char b'&' "&amp;" value))))
