-- ===== src/Codec/Identifiers.antt =====
-- apps/web/protocol/codec.ts: the regular expressions of identifiers, time stamps and versions.
use terminus_web.Prelude.{
  ℕ, ◌+◌, ◌-◌, ◌*◌, ◌%◌, Bool, true, false, not, ◌&&◌, ◌||◌, List, [], ◌∷◌, ◌++◌, Text, replicate,
  take, drop, leb, ◌==◌, if◌then◌else◌,
}

-- A regular expression that is a sequence of character classes, anchored at both ends.
unfoldable pub matches : List (ℕ → Bool) → Text → Bool
matches [] [] = true
matches (p ∷ ps) (c ∷ cs) = p c && matches ps cs
matches _ _ = false

abbrev pub between : ℕ → ℕ → ℕ → Bool
between lo hi c = leb lo c && leb c hi

abbrev pub is_digit : ℕ → Bool
is_digit = between b'0' b'9'

-- `[0-9a-f]`
abbrev pub is_hex : ℕ → Bool
is_hex c = is_digit c || between b'a' b'f' c

-- `[89ab]`
abbrev pub is_variant : ℕ → Bool
is_variant c = c == b'8' || c == b'9' || c == b'a' || c == b'b'

abbrev pub is_dash : ℕ → Bool
is_dash c = c == b'-'

-- `UUID_V4`
abbrev pub uuid_v4 : List (ℕ → Bool)
uuid_v4 =
    replicate 8 is_hex
    ++ (is_dash ∷ replicate 4 is_hex)
    ++ (is_dash ∷ (λ c. c == b'4') ∷ replicate 3 is_hex)
    ++ (is_dash ∷ is_variant ∷ replicate 3 is_hex)
    ++ (is_dash ∷ replicate 12 is_hex)

unfoldable pub is_uuid_v4 : Text → Bool
unfolding matches
is_uuid_v4 = matches uuid_v4

-- `[0-9a-hjkmnp-tv-z]`
abbrev pub is_session_char : ℕ → Bool
is_session_char c =
    is_digit c
    || between b'a' b'h' c
    || c == b'j'
    || c == b'k'
    || c == b'm'
    || c == b'n'
    || between b'p' b't' c
    || between b'v' b'z' c

-- `SESSION_ID`
abbrev pub session_id : List (ℕ → Bool)
session_id =
    replicate 4 is_session_char
    ++ (is_dash ∷ replicate 4 is_session_char)
    ++ (is_dash ∷ replicate 4 is_session_char)

unfoldable pub is_session_id : Text → Bool
unfolding matches
is_session_id = matches session_id

-- The digits of `TIMESTAMP` and what stands between them.
abbrev pub timestamp : List (ℕ → Bool)
timestamp =
    replicate 4 is_digit
    ++ (is_dash ∷ replicate 2 is_digit)
    ++ (is_dash ∷ replicate 2 is_digit)
    ++ ((λ c. c == b'T') ∷ replicate 2 is_digit)
    ++ ((λ c. c == b':') ∷ replicate 2 is_digit)
    ++ ((λ c. c == b':') ∷ replicate 2 is_digit)
    ++ ((λ c. c == b'.') ∷ replicate 3 is_digit)
    ++ ((λ c. c == b'Z') ∷ [])

decimal_from : ℕ → Text → ℕ
decimal_from acc [] = acc
decimal_from acc (c ∷ cs) = decimal_from (acc * 10 + (c - 48)) cs

-- The number written by `size` digits at position `start`.
unfoldable pub number_at : Text → ℕ → ℕ → ℕ
unfolding decimal_from
number_at t start size = decimal_from 0 (take size (drop start t))

unfoldable pub is_leap : ℕ → Bool
is_leap y = y % 4 == 0 && not (y % 100 == 0) || y % 400 == 0

unfoldable pub days_in_month : ℕ → ℕ → ℕ
unfolding is_leap
days_in_month y m =
    if m == 2
    then (if is_leap y then 29 else 28)
    else if m == 4 || m == 6 || m == 9 || m == 11
    then 30
    else 31

-- `assertTimestamp`: the expression's ranges of month, day, hour, minute and second, and the day
-- of the month, since a day past the month's end prints as another day, or is no date.
unfoldable pub is_timestamp : Text → Bool
unfolding matches number_at days_in_month
is_timestamp t =
    matches timestamp t
    && between 1 12 (number_at t 5 2)
    && between 1 (days_in_month (number_at t 0 4) (number_at t 5 2)) (number_at t 8 2)
    && leb (number_at t 11 2) 23
    && leb (number_at t 14 2) 59
    && leb (number_at t 17 2) 59

-- `\.\d+$` once a digit has been read, and `\d+$` behind the point.
digits_end : Text → Bool
digits_end [] = true
digits_end (c ∷ cs) = is_digit c && digits_end cs

fraction_follows : Text → Bool
fraction_follows (d ∷ ds) = is_digit d && digits_end ds
fraction_follows [] = false

point_follows : Text → Bool
point_follows [] = false
point_follows (c ∷ cs) =
    let more = point_follows cs in if c == b'.' then fraction_follows cs else is_digit c && more

-- `/^\d+\.\d+$/u`
unfoldable pub is_version : Text → Bool
unfolding point_follows fraction_follows digits_end
is_version (c ∷ cs) = is_digit c && point_follows cs
is_version [] = false
