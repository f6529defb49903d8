-- ===== src/Codec/Utf8.antt =====
-- The platform's `TextEncoder`: the UTF-8 bytes of a text of UTF-16 code units, where a lone
-- surrogate becomes U+FFFD.
use terminus_web.Prelude.{
  ℕ, ◌+◌, ◌-◌, ◌*◌, ◌/◌, ◌%◌, Bool, ◌&&◌, [], ◌∷◌, ◌++◌, Text, ltb, leb, if◌then◌else◌,
}
use terminus_web.Codec.Base64.{Bytes}
pub mod Whole

abbrev pub is_high : ℕ → Bool
is_high c = leb 0xd800 c && leb c 0xdbff

abbrev pub is_low : ℕ → Bool
is_low c = leb 0xdc00 c && leb c 0xdfff

-- The bytes of a code unit that stands alone.
pub utf8_unit : ℕ → Bytes
utf8_unit c =
    if ltb c 0x80
    then c ∷ []
    else if ltb c 0x800
    then (0xc0 + c / 64) ∷ (0x80 + c % 64) ∷ []
    else if leb 0xd800 c && leb c 0xdfff
    then 0xef ∷ 0xbf ∷ 0xbd ∷ []
    else (0xe0 + c / 4096) ∷ (0x80 + c / 64 % 64) ∷ (0x80 + c % 64) ∷ []

-- The four bytes of a surrogate pair.
pub utf8_point : ℕ → Bytes
utf8_point p =
    (0xf0 + p / 262144) ∷ (0x80 + p / 4096 % 64) ∷ (0x80 + p / 64 % 64) ∷ (0x80 + p % 64) ∷ []

-- `new TextEncoder().encode(text)`
unfoldable pub utf8 : Text → Bytes
unfolding utf8_unit utf8_point
utf8 [] = []
utf8 (c ∷ []) = utf8_unit c
utf8 (c ∷ d ∷ rest) =
    let pair = utf8_point (0x10000 + (c - 0xd800) * 1024 + (d - 0xdc00)) ++ utf8 rest in
    let single = utf8_unit c ++ utf8 (d ∷ rest) in if is_high c && is_low d then pair else single
