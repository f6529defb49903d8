-- ===== src/Codec/Base64/RoundTrip.antt =====
-- codec.ts: encoding bytes to base64url and decoding the text gives the bytes back.
use terminus_web.Prelude.{
  ℕ, ◌+◌, ◌*◌, ◌/◌, ◌%◌, ◌<◌, ◌≡◌, refl, ap, ◌∙◌, ◌≢◌, true, false, not, ◌||◌, [], ◌∷◌, ◌++◌, map,
  Option, some, Text, text_eq, text_eq_self, length, all, All, replicate, ◌==◌, if◌then◌else◌, ok,
  schema_error, arith,
}
use terminus_web.Codec.Base64.{
  Bytes, sextet_char, char_sextet, btoa, char_groups, drop_pad, atob, to_url, from_url, strip_pads,
  encode_base64url, is_url_char, is_base64url, padding, has_expected, is_empty, check_bytes,
  decode_base64url,
}

abbrev pub IsByte : ℕ → Type 0
IsByte b = b < 256

-- The alphabet: each of the 64 values has its own character, which is no padding.
char_sextet-sextet_char : (n : ℕ) → n < 64 → char_sextet (sextet_char n) ≡ some n
unfolding char_sextet sextet_char
char_sextet-sextet_char n h = ground arith

from_url-to_url : (n : ℕ) → n < 64 → from_url (to_url (sextet_char n)) ≡ sextet_char n
unfolding from_url to_url sextet_char
from_url-to_url n h = ground arith

sextet_char-ne-pad : (n : ℕ) → n < 64 → (sextet_char n == b'=') ≡ false
unfolding sextet_char
sextet_char-ne-pad n h = ground arith

to_url-ne-pad : (n : ℕ) → n < 64 → (to_url (sextet_char n) == b'=') ≡ false
unfolding to_url sextet_char
to_url-ne-pad n h = ground arith

is_url_char-to_url : (n : ℕ) → n < 64 → is_url_char (to_url (sextet_char n)) ≡ true
unfolding is_url_char to_url sextet_char
is_url_char-to_url n h = ground arith

-- The text without its padding, by groups.
abbrev encode_groups : (ℕ → ℕ) → Bytes → Text
encode_groups f [] = []
encode_groups f (a ∷ []) = f (a / 4) ∷ f (a % 4 * 16) ∷ []
encode_groups f (a ∷ b ∷ []) = f (a / 4) ∷ f (a % 4 * 16 + b / 16) ∷ f (b % 16 * 4) ∷ []
encode_groups f (a ∷ b ∷ c ∷ rest) =
    f (a / 4)
    ∷ f (a % 4 * 16 + b / 16)
    ∷ f (b % 16 * 4 + c / 64)
    ∷ f (c % 64)
    ∷ encode_groups f rest

-- A character that is no padding stays, whatever follows.
strip_pads-cons :
    (c : ℕ) (cs : Text) → (c == b'=') ≡ false → strip_pads (c ∷ cs) ≡ c ∷ strip_pads cs
unfolding strip_pads
strip_pads-cons c cs h = ground arith

drop_pad-cons : (c : ℕ) (cs : Text) → (c == b'=') ≡ false → drop_pad (c ∷ cs) ≡ c ∷ drop_pad cs
unfolding drop_pad
drop_pad-cons c [] h = ground arith
drop_pad-cons c (d ∷ cs) h = refl

-- What is said of each of the sextets of a group of bytes.
module _ {κ} (P : ℕ → Type κ) (each : (n : ℕ) → n < 64 → P n) where
  sextets :
      (a b c : ℕ)
      → IsByte a
      → IsByte b
      → IsByte c
      → P (a / 4) × P (a % 4 * 16 + b / 16) × P (b % 16 * 4 + c / 64) × P (c % 64)
  sextets a b c ha hb hc = (
    each (a / 4) (omega arith),
    each (a % 4 * 16 + b / 16) (omega arith),
    each (b % 16 * 4 + c / 64) (omega arith),
    each (c % 64) (omega arith),
  )

  last_sextets : (a b : ℕ) → IsByte a → IsByte b → P (a % 4 * 16) × P (b % 16 * 4)
  last_sextets a b ha hb = (each (a % 4 * 16) (omega arith), each (b % 16 * 4) (omega arith))

abbrev url_char : ℕ → ℕ
url_char n = to_url (sextet_char n)

strip_pads-eq-groups :
    (bs : Bytes) → All IsByte bs → strip_pads (map to_url (btoa bs)) ≡ encode_groups url_char bs
unfolding btoa
strip_pads-eq-groups [] h = unfold strip_pads in refl
strip_pads-eq-groups (a ∷ []) (ha, _) =
    let (p, _, _, _) = sextets (λ n. (url_char n == b'=') ≡ false) to_url-ne-pad a a a ha ha ha in
    let (q, _) = last_sextets (λ n. (url_char n == b'=') ≡ false) to_url-ne-pad a a ha ha in
    simp (strip_pads-cons _ _ p, strip_pads-cons _ _ q) (unfold strip_pads to_url in refl)
strip_pads-eq-groups (a ∷ b ∷ []) (ha, (hb, _)) =
    let (p, q, _, _) = sextets (λ n. (url_char n == b'=') ≡ false) to_url-ne-pad a b b ha hb hb in
    let (_, r) = last_sextets (λ n. (url_char n == b'=') ≡ false) to_url-ne-pad a b ha hb in
    simp (strip_pads-cons _ _ p, strip_pads-cons _ _ q, strip_pads-cons _ _ r)
      (unfold strip_pads to_url in refl)
strip_pads-eq-groups (a ∷ b ∷ c ∷ rest) (ha, (hb, (hc, h))) =
    let (p, q, r, s) = sextets (λ n. (url_char n == b'=') ≡ false) to_url-ne-pad a b c ha hb hc in
    simp (
      strip_pads-cons _ _ p,
      strip_pads-cons _ _ q,
      strip_pads-cons _ _ r,
      strip_pads-cons _ _ s,
      strip_pads-eq-groups rest h,
    )

encode-eq-groups : (bs : Bytes) → All IsByte bs → encode_base64url bs ≡ encode_groups url_char bs
unfolding encode_base64url
encode-eq-groups bs h = strip_pads-eq-groups bs h

padding-group : (w x y z : ℕ) (t : Text) → padding (w ∷ x ∷ y ∷ z ∷ t) ≡ padding t
unfolding padding
padding-group w x y z t = ap (λ n. replicate n b'=') (omega arith)

standard-eq-btoa :
    (bs : Bytes)
    → All IsByte bs
    → map from_url (encode_groups url_char bs) ++ padding (encode_groups url_char bs) ≡ btoa bs
unfolding btoa
standard-eq-btoa [] h = unfold padding in refl
standard-eq-btoa (a ∷ []) (ha, _) =
    let (p, _, _, _) =
      sextets (λ n. from_url (url_char n) ≡ sextet_char n) from_url-to_url a a a ha ha ha in
    let (q, _) =
      last_sextets (λ n. from_url (url_char n) ≡ sextet_char n) from_url-to_url a a ha ha in
    simp (p, q) (unfold padding in refl)
standard-eq-btoa (a ∷ b ∷ []) (ha, (hb, _)) =
    let (p, q, _, _) =
      sextets (λ n. from_url (url_char n) ≡ sextet_char n) from_url-to_url a b b ha hb hb in
    let (_, r) =
      last_sextets (λ n. from_url (url_char n) ≡ sextet_char n) from_url-to_url a b ha hb in
    simp (p, q, r) (unfold padding in refl)
standard-eq-btoa (a ∷ b ∷ c ∷ rest) (ha, (hb, (hc, h))) =
    let (p, q, r, s) =
      sextets (λ n. from_url (url_char n) ≡ sextet_char n) from_url-to_url a b c ha hb hc in
    simp (p, q, r, s, padding-group, standard-eq-btoa rest h)

length-btoa : (bs : Bytes) → length (btoa bs) % 4 ≡ 0
unfolding btoa
length-btoa [] = omega arith
length-btoa (a ∷ []) = omega arith
length-btoa (a ∷ b ∷ []) = omega arith
length-btoa (a ∷ b ∷ c ∷ rest) = omega (arith, length-btoa rest)

drop_pad-btoa :
    (bs : Bytes) → All IsByte bs → drop_pad (drop_pad (btoa bs)) ≡ encode_groups sextet_char bs
unfolding btoa
drop_pad-btoa [] h = unfold drop_pad in refl
drop_pad-btoa (a ∷ []) (ha, _) =
    let (p, _, _, _) =
      sextets (λ n. (sextet_char n == b'=') ≡ false) sextet_char-ne-pad a a a ha ha ha in
    let (q, _) = last_sextets (λ n. (sextet_char n == b'=') ≡ false) sextet_char-ne-pad a a ha ha in
    simp (drop_pad-cons _ _ p, drop_pad-cons _ _ q) (unfold drop_pad in refl)
drop_pad-btoa (a ∷ b ∷ []) (ha, (hb, _)) =
    let (p, q, _, _) =
      sextets (λ n. (sextet_char n == b'=') ≡ false) sextet_char-ne-pad a b b ha hb hb in
    let (_, r) = last_sextets (λ n. (sextet_char n == b'=') ≡ false) sextet_char-ne-pad a b ha hb in
    simp (drop_pad-cons _ _ p, drop_pad-cons _ _ q, drop_pad-cons _ _ r) (unfold drop_pad in refl)
drop_pad-btoa (a ∷ b ∷ c ∷ rest) (ha, (hb, (hc, h))) =
    let (p, q, r, s) =
      sextets (λ n. (sextet_char n == b'=') ≡ false) sextet_char-ne-pad a b c ha hb hc in
    simp (
      drop_pad-cons _ _ p,
      drop_pad-cons _ _ q,
      drop_pad-cons _ _ r,
      drop_pad-cons _ _ s,
      drop_pad-btoa rest h,
    )

char_groups-encode :
    (bs : Bytes) → All IsByte bs → char_groups (encode_groups sextet_char bs) ≡ some bs
unfolding char_groups
char_groups-encode [] h = refl
char_groups-encode (a ∷ []) (ha, _) =
    let (p, _, _, _) =
      sextets (λ n. char_sextet (sextet_char n) ≡ some n) char_sextet-sextet_char a a a ha ha ha in
    let (q, _) =
      last_sextets (λ n. char_sextet (sextet_char n) ≡ some n) char_sextet-sextet_char a a ha ha in
    rw (p, q) (ground arith)
char_groups-encode (a ∷ b ∷ []) (ha, (hb, _)) =
    let (p, q, _, _) =
      sextets (λ n. char_sextet (sextet_char n) ≡ some n) char_sextet-sextet_char a b b ha hb hb in
    let (_, r) =
      last_sextets (λ n. char_sextet (sextet_char n) ≡ some n) char_sextet-sextet_char a b ha hb in
    rw (p, q, r) (ground arith)
char_groups-encode (a ∷ b ∷ c ∷ rest) (ha, (hb, (hc, h))) =
    let (p, q, r, s) =
      sextets (λ n. char_sextet (sextet_char n) ≡ some n) char_sextet-sextet_char a b c ha hb hc in
    rw (p, q, r, s, char_groups-encode rest h) (ground arith)

atob-btoa : (bs : Bytes) → All IsByte bs → atob (btoa bs) ≡ some bs
unfolding atob
atob-btoa bs h =
    rw (length-btoa bs)
      (unfold char_groups drop_pad in (rw (drop_pad-btoa bs h) (char_groups-encode bs h)))

url_chars : (bs : Bytes) → All IsByte bs → all is_url_char (encode_groups url_char bs) ≡ true
url_chars [] h = refl
url_chars (a ∷ []) (ha, _) =
    let (p, _, _, _) =
      sextets (λ n. is_url_char (url_char n) ≡ true) is_url_char-to_url a a a ha ha ha in
    let (q, _) = last_sextets (λ n. is_url_char (url_char n) ≡ true) is_url_char-to_url a a ha ha in
    rw (p, q)
url_chars (a ∷ b ∷ []) (ha, (hb, _)) =
    let (p, q, _, _) =
      sextets (λ n. is_url_char (url_char n) ≡ true) is_url_char-to_url a b b ha hb hb in
    let (_, r) = last_sextets (λ n. is_url_char (url_char n) ≡ true) is_url_char-to_url a b ha hb in
    rw (p, q, r)
url_chars (a ∷ b ∷ c ∷ rest) (ha, (hb, (hc, h))) =
    let (p, q, r, s) =
      sextets (λ n. is_url_char (url_char n) ≡ true) is_url_char-to_url a b c ha hb hc in
    rw (p, q, r, s) (url_chars rest h)

is_base64url-encode :
    (bs : Bytes)
    → All IsByte bs
    → is_empty bs ≡ false
    → is_base64url (encode_groups url_char bs) ≡ true
unfolding is_base64url is_empty
is_base64url-encode [] h e = cc e
is_base64url-encode (a ∷ []) h e = url_chars (a ∷ []) h
is_base64url-encode (a ∷ b ∷ []) h e = url_chars (a ∷ b ∷ []) h
is_base64url-encode (a ∷ b ∷ c ∷ rest) h e = url_chars (a ∷ b ∷ c ∷ rest) h

pub decode_base64url_lem :
    (value : Text) (size : Option ℕ)
    → decode_base64url value size ≡ (
        if is_base64url value
        then check_bytes value size (atob (map from_url value ++ padding value))
        else schema_error)
unfolding decode_base64url
decode_base64url_lem value size = refl

pub check_bytes_lem :
    (value : Text) (size : Option ℕ) (bs : Bytes)
    → check_bytes value size (some bs) ≡ (
        if is_empty bs || not (has_expected size bs) || not (text_eq (encode_base64url bs) value)
        then schema_error
        else ok bs)
unfolding check_bytes
check_bytes_lem value size bs = refl

pub not_empty : (bs : Bytes) → bs ≢ [] → is_empty bs ≡ false
unfolding is_empty
not_empty [] h = absurd (h refl)
not_empty (b ∷ bs) h = refl

-- Decoding the base64url text of any bytes but none gives the bytes back, where no size or their
-- own size is asked for.
pub decode-encode :
    (bs : Bytes) (size : Option ℕ)
    → All IsByte bs
    → bs ≢ []
    → has_expected size bs ≡ true
    → decode_base64url (encode_base64url bs) size ≡ ok bs
decode-encode bs size h e s =
    let groups = encode-eq-groups bs h in
    let full = not_empty bs e in
    let valid : is_base64url (encode_base64url bs) ≡ true =
      rw groups (is_base64url-encode bs h full) in
    let bytes : atob (map from_url (encode_base64url bs) ++ padding (encode_base64url bs))
        ≡ some bs =
      rw groups (rw (standard-eq-btoa bs h) (atob-btoa bs h)) in
    decode_base64url_lem (encode_base64url bs) size
    ∙ rw (valid, bytes, check_bytes_lem, full, s, text_eq_self (encode_base64url bs))
