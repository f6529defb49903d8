-- ===== src/Control/Values.antt =====
-- services/control-plane/src/authorization.mjs: the values of a request, and the tests on them.
use terminus_web.Prelude.{ℕ, Bool, true, false, not, ◌||◌, List, [], ◌∷◌, Text, text_eq, leb}
use terminus_web.Codec.Identifiers.{matches, between, is_digit, is_dash}

-- Integers, over the naturals that the tactics read.
pub data ℤ : Type 0 where
  pos negsuc : ℕ → ℤ

-- `a <= b`
abbrev pub le_int : ℤ → ℤ → Bool
le_int (pos a) (pos b) = leb a b
le_int (pos a) (negsuc b) = false
le_int (negsuc a) (pos b) = true
le_int (negsuc a) (negsuc b) = leb b a

-- `a < b`
abbrev pub lt_int : ℤ → ℤ → Bool
lt_int a b = not (le_int b a)

-- A value of unknown type: a text, a safe integer, `null`, `undefined`, or any other.
pub data Value : Type 0 where
  text : Text → Value
  integer : ℤ → Value
  null undefined other : Value

abbrev pub is : Text → Value → Bool
is t (text s) = text_eq s t
is t _ = false

-- `a === b`, where one of the two is known to be a text.
abbrev pub same : Value → Value → Bool
same (text s) v = is s v
same _ v = false

abbrev pub is_null : Value → Bool
is_null null = true
is_null _ = false

-- `Number.isSafeInteger`
abbrev pub is_integer : Value → Bool
is_integer (integer n) = true
is_integer _ = false

-- `a <= b` and `a < b` of values that have been found to be safe integers.
abbrev pub le_value : Value → Value → Bool
le_value (integer a) (integer b) = le_int a b
le_value _ _ = false

abbrev pub lt_value : Value → Value → Bool
lt_value (integer a) (integer b) = lt_int a b
lt_value _ _ = false

-- `[0-9a-f]` with the flag for either case.
abbrev pub is_hex : ℕ → Bool
is_hex c = is_digit c || between 0x61 0x66 c || between 0x41 0x46 c

-- `[89ab]`
abbrev pub is_variant : ℕ → Bool
is_variant c = between 0x38 0x39 c || between 0x61 0x62 c || between 0x41 0x42 c

-- `[1-8]`
abbrev pub is_version_digit : ℕ → Bool
is_version_digit = between 0x31 0x38

-- `UUID_PATTERN`
abbrev pub uuid_pattern : List (ℕ → Bool)
uuid_pattern =
    is_hex ∷ is_hex ∷ is_hex ∷ is_hex ∷ is_hex ∷ is_hex ∷ is_hex ∷ is_hex ∷ is_dash ∷ is_hex
    ∷ is_hex ∷ is_hex ∷ is_hex ∷ is_dash ∷ is_version_digit ∷ is_hex ∷ is_hex ∷ is_hex ∷ is_dash
    ∷ is_variant ∷ is_hex ∷ is_hex ∷ is_hex ∷ is_dash ∷ is_hex ∷ is_hex ∷ is_hex ∷ is_hex ∷ is_hex
    ∷ is_hex ∷ is_hex ∷ is_hex ∷ is_hex ∷ is_hex ∷ is_hex ∷ is_hex ∷ []

-- `isUuid`
unfoldable pub is_uuid : Value → Bool
unfolding matches
is_uuid (text t) = matches uuid_pattern t
is_uuid _ = false
