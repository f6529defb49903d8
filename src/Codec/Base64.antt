-- ===== src/Codec/Base64.antt =====
-- apps/web/protocol/codec.ts: `encodeBase64Url` and `decodeBase64Url`, over the platform's `btoa`
-- and `atob`. A byte is a number below 256.
pub mod RoundTrip
pub mod Canonical
use terminus_web.Prelude.{
  ℕ, ◌+◌, ◌-◌, ◌*◌, ◌/◌, ◌%◌, Bool, true, false, not, ◌&&◌, ◌||◌, List, [], ◌∷◌, ◌++◌, map, Option,
  none, some, Text, text_eq, length, all, replicate, ltb, leb, ◌==◌, if◌then◌else◌, Result, ok,
  schema_error,
}

abbrev pub Bytes : Type 0
Bytes = List ℕ

-- The character of the standard base64 alphabet for six bits.
unfoldable pub sextet_char : ℕ → ℕ
sextet_char n =
    if ltb n 26
    then n + 65
    else if ltb n 52
    then n + 71
    else if ltb n 62
    then n - 4
    else if n == 62
    then b'+'
    else b'/'

unfoldable pub char_sextet : ℕ → Option ℕ
char_sextet c =
    if leb 65 c && leb c 90
    then some (c - 65)
    else if leb 97 c && leb c 122
    then some (c - 71)
    else if leb 48 c && leb c 57
    then some (c + 4)
    else if c == b'+'
    then some 62
    else if c == b'/'
    then some 63
    else none

-- `btoa`
unfoldable pub btoa : Bytes → Text
btoa [] = []
btoa (a ∷ []) = sextet_char (a / 4) ∷ sextet_char (a % 4 * 16) ∷ b'=' ∷ b'=' ∷ []
btoa (a ∷ b ∷ []) =
    sextet_char (a / 4) ∷ sextet_char (a % 4 * 16 + b / 16) ∷ sextet_char (b % 16 * 4) ∷ b'=' ∷ []
btoa (a ∷ b ∷ c ∷ rest) =
    sextet_char (a / 4)
    ∷ sextet_char (a % 4 * 16 + b / 16)
    ∷ sextet_char (b % 16 * 4 + c / 64)
    ∷ sextet_char (c % 64)
    ∷ btoa rest

infixl 5 ◌>>=◌
abbrev ◌>>=◌ {ℓ κ} : {A : Type ℓ} {B : Type κ} → Option A → (A → Option B) → Option B
none >>= k = none
some a >>= k = k a

-- The bytes of groups of four characters; a last group of two or three leaves spare bits unread.
unfoldable pub char_groups : Text → Option Bytes
char_groups [] = some []
char_groups (p ∷ []) = none
char_groups (p ∷ q ∷ []) = do a ← char_sextet p; b ← char_sextet q; some ((a * 4 + b / 16) ∷ [])
char_groups (p ∷ q ∷ r ∷ []) = do
  a ← char_sextet p
  b ← char_sextet q
  c ← char_sextet r
  some ((a * 4 + b / 16) ∷ (b % 16 * 16 + c / 4) ∷ [])
char_groups (p ∷ q ∷ r ∷ s ∷ rest) = do
  a ← char_sextet p
  b ← char_sextet q
  c ← char_sextet r
  d ← char_sextet s
  more ← char_groups rest
  some ((a * 4 + b / 16) ∷ (b % 16 * 16 + c / 4) ∷ (c % 4 * 64 + d) ∷ more)

-- One trailing `=` less.
unfoldable pub drop_pad : Text → Text
drop_pad [] = []
drop_pad (c ∷ []) = if c == b'=' then [] else c ∷ []
drop_pad (c ∷ d ∷ cs) = c ∷ drop_pad (d ∷ cs)

-- `atob` on a text without white space; `none` for the exception. Up to two `=` are taken off a
-- text whose length is a multiple of four, and any other is refused as no base64 character.
unfoldable pub atob : Text → Option Bytes
unfolding drop_pad char_groups
atob t = char_groups (if length t % 4 == 0 then drop_pad (drop_pad t) else t)

-- `.replace(/\+/g, "-").replace(/\//g, "_")` and back.
unfoldable pub to_url : ℕ → ℕ
to_url c = if c == b'+' then b'-' else if c == b'/' then b'_' else c

unfoldable pub from_url : ℕ → ℕ
from_url c = if c == b'-' then b'+' else if c == b'_' then b'/' else c

-- `.replace(/=+$/u, "")`
unfoldable pub strip_pads : Text → Text
strip_pads [] = []
strip_pads (c ∷ cs) =
    let rest = strip_pads cs in
    elim rest [ [] ↦ if c == b'=' then [] else c ∷ [] | d ∷ ds ↦ c ∷ d ∷ ds ]

unfoldable pub encode_base64url : Bytes → Text
unfolding btoa to_url strip_pads
encode_base64url bytes = strip_pads (map to_url (btoa bytes))

-- `/^[A-Za-z0-9_-]+$/`
unfoldable pub is_url_char : ℕ → Bool
is_url_char c =
    leb 65 c && leb c 90 || leb 97 c && leb c 122 || leb 48 c && leb c 57 || c == b'_' || c == b'-'

unfoldable pub is_base64url : Text → Bool
unfolding is_url_char
is_base64url [] = false
is_base64url (c ∷ cs) = all is_url_char (c ∷ cs)

-- `"=".repeat((4 - (value.length % 4)) % 4)`
unfoldable pub padding : Text → Text
padding t = replicate ((4 - length t % 4) % 4) b'='

-- `expectedBytes !== undefined && bytes.length !== expectedBytes`, negated.
abbrev pub has_expected : Option ℕ → Bytes → Bool
has_expected none bytes = true
has_expected (some n) bytes = length bytes == n

-- `bytes.length === 0`
unfoldable pub is_empty : Bytes → Bool
is_empty [] = true
is_empty (b ∷ bs) = false

-- What is checked of the decoded bytes.
unfoldable pub check_bytes : Text → Option ℕ → Option Bytes → Result Bytes
unfolding is_empty encode_base64url text_eq
check_bytes value expected none = schema_error
check_bytes value expected (some bytes) =
    if is_empty bytes
      || not (has_expected expected bytes)
      || not (text_eq (encode_base64url bytes) value)
    then schema_error
    else ok bytes

unfoldable pub decode_base64url : Text → Option ℕ → Result Bytes
unfolding is_base64url padding from_url atob check_bytes
decode_base64url value expected =
    if is_base64url value
    then check_bytes value expected (atob (map from_url value ++ padding value))
    else schema_error
