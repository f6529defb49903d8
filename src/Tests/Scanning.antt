-- ===== src/Tests/Scanning.antt =====
-- The scanner of codec.ts, and raw text at the contract machine.
use terminus_web.Prelude.{
  ◌≡◌, ◌≢◌, refl, [], ◌∷◌, Option, none, some, Text, codes, text_eq, includes, is_space,
}
use terminus_web.Json.{Json}
use terminus_web.Codec.Scan.{
  left, refused, out_of_fuel, skip_whitespace, scan_string, skip_digits, fraction, exponent, number,
  after, literal, scan_key, scan_value, scan_members, scan_elements, scan_json,
}
use terminus_web.Codec.Scan.Terminates.{scan_json_ends}
use terminus_web.Codec.Scan.Distinct.{HasValue, scan_json-HasValue}
use terminus_web.Tests.Protocol.{hello_json}

unfoldable scanning : Unit {0}
unfolding text_eq includes is_space skip_whitespace scan_string skip_digits fraction exponent number
    after literal scan_key scan_value scan_members scan_elements scan_json
scanning = tt

-- JSON.parse of a text in quotes and without escapes.
abbrev unquoted : Text → Option Text
unquoted [] = none
unquoted (c ∷ t) = some t

abbrev nested : Text
nested = codes "[{} , [1.5e3, true, null], {\"a\":-0, \"b\":[]}] "

reads_nested : scan_json unquoted nested ≡ left []
unfolding scanning
reads_nested = refl

refuses_repeated : scan_json unquoted (codes "{\"a\":1,\"b\":2,\"a\":3}") ≡ refused
unfolding scanning
refuses_repeated = refl

scan_json_ends_example : scan_json unquoted nested ≢ out_of_fuel
scan_json_ends_example = scan_json_ends unquoted nested

scan_json-HasValue_example :
    (rest : Text) × HasValue unquoted nested rest × (skip_whitespace rest ≡ [])
scan_json-HasValue_example = scan_json-HasValue unquoted nested reads_nested

abbrev gives_hello : Text → Option Json
gives_hello t = some hello_json
