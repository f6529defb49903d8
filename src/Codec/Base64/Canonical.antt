-- ===== src/Codec/Base64/Canonical.antt =====
-- codec.ts: `decodeBase64Url` accepts the canonical texts alone.
use terminus_web.Prelude.{
  ℕ, ◌<◌, ◌≡◌, refl, sym, ap, ◌≢◌, ◌↔◌, inl, inr, true, [], ◌∷◌, ◌++◌, map, Option, none, some,
  Bool-cases, Text, text_eq, text_eq_iff, All, ok, arith,
}
use terminus_web.Codec.Base64.{
  Bytes, ◌>>=◌, char_sextet, char_groups, atob, from_url, encode_base64url, is_base64url, padding,
  has_expected, is_empty, check_bytes, decode_base64url,
}
use terminus_web.Codec.Base64.RoundTrip.{
  IsByte, decode_base64url_lem, check_bytes_lem, decode-encode,
}

char_sextet-lt : (c : ℕ) {n : ℕ} → char_sextet c ≡ some n → n < 64
unfolding char_sextet
char_sextet-lt c h = ground arith

bind-eq-some {ℓ κ} :
    {A : Type ℓ} {B : Type κ} (o : Option A) (k : A → Option B) {b : B}
    → (o >>= k) ≡ some b
    → (a : A) × (o ≡ some a) × (k a ≡ some b)
bind-eq-some (some a) k h = (a, refl, h)
bind-eq-some none k h = cc h

-- Groups of characters give bytes.
char_groups-IsByte : (t : Text) {bs : Bytes} → char_groups t ≡ some bs → All IsByte bs
unfolding char_groups
char_groups-IsByte [] h = ground arith
char_groups-IsByte (p ∷ []) h = cc h
char_groups-IsByte (p ∷ q ∷ []) h =
    let (a, ea, h1) = bind-eq-some (char_sextet p) _ h in
    let (b, eb, h2) = bind-eq-some (char_sextet q) _ h1 in
    ground (arith, char_sextet-lt p ea, char_sextet-lt q eb)
char_groups-IsByte (p ∷ q ∷ r ∷ []) h =
    let (a, ea, h1) = bind-eq-some (char_sextet p) _ h in
    let (b, eb, h2) = bind-eq-some (char_sextet q) _ h1 in
    let (c, ec, h3) = bind-eq-some (char_sextet r) _ h2 in
    ground (arith, char_sextet-lt p ea, char_sextet-lt q eb, char_sextet-lt r ec)
char_groups-IsByte (p ∷ q ∷ r ∷ s ∷ rest) h =
    let (a, ea, h1) = bind-eq-some (char_sextet p) _ h in
    let (b, eb, h2) = bind-eq-some (char_sextet q) _ h1 in
    let (c, ec, h3) = bind-eq-some (char_sextet r) _ h2 in
    let (d, ed, h4) = bind-eq-some (char_sextet s) _ h3 in
    let (more, em, h5) = bind-eq-some (char_groups rest) _ h4 in
    ground (
      arith,
      char_sextet-lt p ea,
      char_sextet-lt q eb,
      char_sextet-lt r ec,
      char_sextet-lt s ed,
      char_groups-IsByte rest em,
    )

atob-IsByte : (t : Text) {bs : Bytes} → atob t ≡ some bs → All IsByte bs
unfolding atob
atob-IsByte t h = char_groups-IsByte _ h

check_bytes-eq-ok :
    (value : Text) (size : Option ℕ) (o : Option Bytes) {bs : Bytes}
    → check_bytes value size o ≡ ok bs
    → (o ≡ some bs) × (bs ≢ []) × (has_expected size bs ≡ true) × (value ≡ encode_base64url bs)
unfolding is_empty
check_bytes-eq-ok value size none h = unfold check_bytes in cc h
check_bytes-eq-ok value size (some []) h = cc (rw (check_bytes_lem value size []) at h)
check_bytes-eq-ok value size (some (c ∷ cs)) {bs} h =
    let h' = rw (check_bytes_lem value size (c ∷ cs)) at h in
    let same : c ∷ cs ≡ bs = ground arith in
    let sized : has_expected size (c ∷ cs) ≡ true = ground arith in
    let coded : text_eq (encode_base64url (c ∷ cs)) value ≡ true = ground arith in
    (
      ap some same,
      rw (← same) (λ e. cc e),
      rw (← same) sized,
      rw (← same) (sym ((text_eq_iff (encode_base64url (c ∷ cs)) value).0 coded)),
    )

-- A text is decoded to `bs` exactly if it is the encoding of `bs`, where `bs` holds at least one
-- byte, nothing but bytes, and has the size asked for, if any.
pub decode-eq-ok_iff :
    (value : Text) (size : Option ℕ) (bs : Bytes)
    → (decode_base64url value size ≡ ok bs)
      ↔ (All IsByte bs × (bs ≢ []) × (has_expected size bs ≡ true) × (value ≡ encode_base64url bs))
decode-eq-ok_iff value size bs = (
  λ h. elim (Bool-cases (is_base64url value)) [
    | inr e ↦ cc (rw (decode_base64url_lem value size, e) at h)
    | inl e ↦
        let h' = rw (decode_base64url_lem value size, e) at h in
        let (bytes, full, sized, same) =
          check_bytes-eq-ok value size (atob (map from_url value ++ padding value)) h' in
        (atob-IsByte _ bytes, full, sized, same)
  ],
  λ c. rw c.3 (decode-encode bs size c.0 c.1 c.2),
)
