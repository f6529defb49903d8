-- ===== src/Codec/Scan.antt =====
-- apps/web/protocol/codec.ts: `assertJsonWithoutDuplicateKeys` and `parseProtocolFrame`. The index
-- into the raw text is the rest of the text behind it. JSON.parse is a parameter, of which
-- `parse_string` is the use on the slice of a string, `none` where it throws.
pub mod Lengths
pub mod Terminates
pub mod Distinct
use terminus_web.Prelude.{
  ℕ, zero, suc, ◌+◌, ◌*◌, Bool, true, false, not, ◌&&◌, ◌||◌, List, [], ◌∷◌, Option, none, some,
  Text, codes, text_eq, is_space, includes, length, leb, ltb, ◌==◌, if◌then◌else◌, ErrorCode,
  Result, ok, err, ◌>>=◌, ◌>>◌, violation, require,
}
use terminus_web.Json.{Json}
use terminus_web.Codec.Identifiers.{between, is_digit}
use terminus_web.Codec.Utf8.{utf8}
use terminus_web.Codec.Frames.{Frame, max_frame_bytes}
use terminus_web.Codec.Validate.{validate_frame}

-- The rest of the text behind what was read, or a call of `invalidJson`.
pub data Scan : Type 0 where
  left : Text → Scan
  refused out_of_fuel : Scan

abbrev pub proceed : Scan → (Text → Scan) → Scan
proceed (left rest) next = next rest
proceed refused next = refused
proceed out_of_fuel next = out_of_fuel

-- `skipWhitespace`
unfoldable pub skip_whitespace : Text → Text
unfolding is_space
skip_whitespace [] = []
skip_whitespace (c ∷ cs) = if is_space c then skip_whitespace cs else c ∷ cs

-- `raw[index] === character`
abbrev pub starts : ℕ → Text → Bool
starts p [] = false
starts p (c ∷ cs) = c == p

abbrev pub tail : Text → Text
tail [] = []
tail (c ∷ cs) = cs

abbrev pub expect : ℕ → Text → Scan
expect p t = if starts p t then left (tail t) else refused

abbrev pub prepend : ℕ → Option (Text × Text) → Option (Text × Text)
prepend c none = none
prepend c (some (slice, rest)) = some (c ∷ slice, rest)

-- The loop of `parseString`, behind the first quote: the slice up to the last quote and the rest.
unfoldable pub scan_string : Text → Option (Text × Text)
scan_string [] = none
scan_string (c ∷ []) = if c == b'"' then some (c ∷ [], []) else none
scan_string (c ∷ d ∷ cs) =
    let escaped = prepend c (prepend d (scan_string cs)) in
    let more = prepend c (scan_string (d ∷ cs)) in
    if c == 0x5c
    then escaped
    else if c == b'"'
    then some (c ∷ [], d ∷ cs)
    else if ltb c 0x20
    then none
    else more

-- The digits at the head of a text are skipped.
unfoldable pub skip_digits : Text → Text
skip_digits [] = []
skip_digits (c ∷ cs) = if is_digit c then skip_digits cs else c ∷ cs

abbrev pub starts_digit : Text → Bool
starts_digit [] = false
starts_digit (c ∷ cs) = is_digit c

-- `\d+`
abbrev pub digits : Text → Option Text
digits t = if starts_digit t then some (skip_digits t) else none

abbrev pub or_skip : Option Text → Text → Text
or_skip none t = t
or_skip (some rest) t = rest

-- `(?:\.\d+)?`
unfoldable pub fraction : Text → Text
unfolding skip_digits
fraction t = if starts b'.' t then or_skip (digits (tail t)) t else t

abbrev pub skip_sign : Text → Text
skip_sign t = if starts b'+' t || starts b'-' t then tail t else t

-- `(?:[eE][+-]?\d+)?`
unfoldable pub exponent : Text → Text
unfolding skip_digits
exponent t = if starts b'e' t || starts b'E' t then or_skip (digits (skip_sign (tail t))) t else t

-- `0|[1-9]\d*`
abbrev pub whole : Text → Option Text
whole t = if starts b'0' t then some (tail t) else digits t

abbrev pub skip_minus : Text → Text
skip_minus t = if starts b'-' t then tail t else t

abbrev pub behind_whole : Option Text → Option Text
behind_whole none = none
behind_whole (some rest) = some (exponent (fraction rest))

-- What the regular expression of a number leaves.
unfoldable pub number : Text → Option Text
unfolding skip_digits fraction exponent
number t = behind_whole (whole (skip_minus t))

-- What follows a prefix.
unfoldable pub after : Text → Text → Option Text
after [] t = some t
after (p ∷ ps) [] = none
after (p ∷ ps) (c ∷ cs) = if c == p then after ps cs else none

abbrev pub first_of : Option Text → Option Text → Option Text
first_of none o = o
first_of (some t) o = some t

-- `/^(true|false|null)/u`
unfoldable pub literal : Text → Option Text
unfolding after
literal t =
    first_of (after (codes "true") t) (first_of (after (codes "false") t) (after (codes "null") t))

abbrev pub left_of : Option Text → Scan
left_of none = refused
left_of (some rest) = left rest

-- The end of `parseValue`: a literal, or else a number.
abbrev pub scan_scalar : Text → Scan
scan_scalar t = left_of (first_of (literal t) (number t))

abbrev pub skip_string : Option (Text × Text) → Scan
skip_string none = refused
skip_string (some (key, rest)) = left rest

-- A key that is not repeated, with the rest.
abbrev pub with_key : List Text → Option (Text × Text) → (Text → Text → Scan) → Scan
with_key keys none next = refused
with_key keys (some (key, rest)) next = if includes keys key then refused else next key rest

abbrev pub key_with : Text → Option Text → Option (Text × Text)
key_with rest none = none
key_with rest (some key) = some (key, rest)

abbrev pub at_end : Text → Scan
at_end [] = left []
at_end (c ∷ cs) = refused

abbrev pub checked : Scan → Result (Unit {0})
checked (left rest) = ok tt
checked _ = violation ErrorCode.invalid_json 1007

abbrev pub parsed_json : Option Json → Result Json
parsed_json none = violation ErrorCode.invalid_json 1007
parsed_json (some v) = ok v

module _ (parse_string : Text → Option Text) where
  abbrev pub parsed_slice : Option (Text × Text) → Option (Text × Text)
  parsed_slice none = none
  parsed_slice (some (slice, rest)) = key_with rest (parse_string (b'"' ∷ slice))

  -- `parseString`, with the rest.
  unfoldable pub scan_key : Text → Option (Text × Text)
  unfolding scan_string
  scan_key t = if starts b'"' t then parsed_slice (scan_string (tail t)) else none

  unfoldable mutual
    -- `parseValue`
    pub scan_value : ℕ → Text → Scan
    scan_value zero t = out_of_fuel
    scan_value (suc fuel) t =
        let u = skip_whitespace t in
        let inner = skip_whitespace (tail u) in
        let members = scan_members fuel [] inner in
        let elements = scan_elements fuel inner in
        if starts b'{' u
        then if starts b'}' inner then left (tail inner) else members
        else if starts b'[' u
        then if starts b']' inner then left (tail inner) else elements
        else if starts b'"' u
        then skip_string (scan_key u)
        else scan_scalar u

    -- The loop over the members of an object, with the keys read so far.
    pub scan_members : ℕ → List Text → Text → Scan
    scan_members zero keys t = out_of_fuel
    scan_members (suc fuel) keys t = with_key keys (scan_key t) λ key rest.
        proceed (expect b':' (skip_whitespace rest)) λ behind.
          proceed (scan_value fuel behind) λ next.
            let u = skip_whitespace next in
            let more = scan_members fuel (key ∷ keys) (skip_whitespace (tail u)) in
            if starts b'}' u then left (tail u) else if starts b',' u then more else refused

    -- The loop over the elements of an array.
    pub scan_elements : ℕ → Text → Scan
    scan_elements zero t = out_of_fuel
    scan_elements (suc fuel) t = proceed (scan_value fuel t) λ next.
        let u = skip_whitespace next in
        let more = scan_elements fuel (tail u) in
        if starts b']' u then left (tail u) else if starts b',' u then more else refused

  -- `assertJsonWithoutDuplicateKeys`, with fuel for each unit of the text. The stack has no limit:
  -- where the source's overflows, its `catch` refuses the text.
  unfoldable pub scan_json : Text → Scan
  unfolding scan_value scan_members scan_elements scan_key skip_whitespace literal number
  scan_json raw =
      proceed (scan_value (2 * length raw + 1) raw) λ rest. at_end (skip_whitespace rest)

  -- `parseProtocolFrame`, where `parse` is JSON.parse.
  unfoldable pub parse_frame : (Text → Option Json) → Text → Result Frame
  unfolding scan_json utf8
  parse_frame parse raw = do
    require (leb (length (utf8 raw)) max_frame_bytes) ErrorCode.frame_too_large 1009
    checked (scan_json raw)
    value ← parsed_json (parse raw)
    validate_frame value
