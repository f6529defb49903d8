-- ===== src/Codec/WellFormed.antt =====
-- codec.ts: what every frame that `validateProtocolFrame` lets through satisfies, whatever value it
-- was read from.
use terminus_web.Prelude.{
  ℕ, ◌≤◌, ◌≡◌, refl, Bool, true, List, [], ◌∷◌, Option, none, some, Text, codes, length, leb,
  leb→le, ErrorCode, ok, require, require-eq-ok, >>=-eq-ok, Result-cases, inl, inr, Ensures, holds,
  >>=-Ensures, Ensures-elim, All, arith,
}
use terminus_web.Json.{nat, Json, num, str, arr, Fields, elements, get, is_record, has_exact_keys}
use terminus_web.Codec.Base64.{Bytes, decode_base64url}
use terminus_web.Codec.Identifiers.{between, is_uuid_v4, is_session_id, is_timestamp, is_version}
use terminus_web.Codec.Frames.{
  MessageType, Payload, Frame, Dimensions, type_of, max_safe_sequence, max_terminal_input_bytes,
  max_terminal_output_bytes, protocol_version,
}
use terminus_web.Codec.Values.{
  text_that, assert_uuid, assert_session_id, assert_timestamp, base64url_text, assert_offset,
  assert_dimension, assert_dimensions, assert_optional_uuid, all_versions, are_distinct,
  assert_versions, is_text, is_true, assert_boolean, read_table, or_else, message_types,
  error_codes, close_reasons, closed_reason, heartbeat_kinds,
}
use terminus_web.Codec.Validate.{
  terminal_data, read_payload, validate_payload, frame_keys, validate_frame, required_keys,
  optional_keys,
}

-- The canonical base64url text of `size` bytes, or of one to `most` bytes.
abbrev pub Encodes : ℕ → Text → Type 0
Encodes size t = (bytes : Bytes) × (decode_base64url t (some size) ≡ ok bytes)

abbrev pub EncodesAtMost : ℕ → Text → Type 0
EncodesAtMost most t =
    (bytes : Bytes) × (decode_base64url t none ≡ ok bytes) × (length bytes ≤ most)

abbrev pub IsDimension : Dimensions → Type 0
IsDimension d = (1 ≤ d.columns) × (d.columns ≤ 1000) × (1 ≤ d.rows) × (d.rows ≤ 1000)

abbrev pub IsOptionalUuid : Option Text → Type 0
IsOptionalUuid none = Unit
IsOptionalUuid (some t) = is_uuid_v4 t ≡ true

-- One to eight version texts, no two alike.
abbrev pub AreVersions : List Text → Type 0
AreVersions ts =
    All (λ t. is_version t ≡ true) ts × (are_distinct ts ≡ true) × (1 ≤ length ts) × (length ts ≤ 8)

-- The formats of the fields of a payload.
abbrev pub IsWellFormed : Payload → Type 0
IsWellFormed (Payload.hello a b c) = (is_uuid_v4 a ≡ true) × (IsOptionalUuid b) × (AreVersions c)
IsWellFormed (Payload.hello_ack b) = is_uuid_v4 b ≡ true
IsWellFormed (Payload.pairing_request a) = Encodes 16 a
IsWellFormed (Payload.pairing_result a b c) =
    (is_uuid_v4 a ≡ true) × (Encodes 32 b) × (is_timestamp c ≡ true)
IsWellFormed (Payload.auth_challenge a b c) =
    (is_uuid_v4 a ≡ true) × (Encodes 32 b) × (is_timestamp c ≡ true)
IsWellFormed (Payload.auth_response a b c) =
    (is_uuid_v4 a ≡ true) × (is_uuid_v4 b ≡ true) × (Encodes 32 c)
IsWellFormed (Payload.auth_result b) = is_timestamp b ≡ true
IsWellFormed (Payload.open_session b) = IsDimension b
IsWellFormed (Payload.session_opened a) = is_session_id a ≡ true
IsWellFormed (Payload.session_reopened a) = is_session_id a ≡ true
IsWellFormed (Payload.detach a) = is_session_id a ≡ true
IsWellFormed (Payload.session_detached a) = is_session_id a ≡ true
IsWellFormed (Payload.reopen_session a b) = (is_session_id a ≡ true) × (IsDimension b)
IsWellFormed (Payload.history_begin a b c d) =
    (is_session_id a ≡ true) × (b ≤ max_safe_sequence) × (c ≤ max_safe_sequence)
IsWellFormed (Payload.history_end a b) = (is_session_id a ≡ true) × (b ≤ max_safe_sequence)
IsWellFormed (Payload.terminal_input a b) =
    (is_session_id a ≡ true) × (EncodesAtMost max_terminal_input_bytes b)
IsWellFormed (Payload.terminal_output a b c) =
    (is_session_id a ≡ true) × (b ≤ max_safe_sequence) × (EncodesAtMost max_terminal_output_bytes c)
IsWellFormed (Payload.history_chunk a b c) =
    (is_session_id a ≡ true) × (b ≤ max_safe_sequence) × (EncodesAtMost max_terminal_output_bytes c)
IsWellFormed (Payload.resize a b) = (is_session_id a ≡ true) × (IsDimension b)
IsWellFormed (Payload.heartbeat a b) = Encodes 16 b
IsWellFormed (Payload.close_session a b) = is_session_id a ≡ true
IsWellFormed (Payload.session_closed a b) = is_session_id a ≡ true
IsWellFormed (Payload.error a) = Unit

text_that-eq-ok : (q : Text → Bool) (v : Option Json) {t : Text} → text_that q v ≡ ok t → q t ≡ true
text_that-eq-ok q (some (str s)) h = ground arith
text_that-eq-ok q v h = cc

assert_offset-le : (v : Option Json) {n : ℕ} → assert_offset v ≡ ok n → n ≤ max_safe_sequence
assert_offset-le (some (num (nat k))) h = ground arith
assert_offset-le v h = cc

assert_dimension_bounds :
    (v : Option Json) {n : ℕ} → assert_dimension v ≡ ok n → (1 ≤ n) × (n ≤ 1000)
assert_dimension_bounds (some (num (nat k))) h = ground arith
assert_dimension_bounds v h = cc

assert_dimensions-IsDimension :
    (v : Option Json) {d : Dimensions} → assert_dimensions v ≡ ok d → IsDimension d
unfolding assert_dimensions
assert_dimensions-IsDimension v h =
    let (fs, e1, h1) = >>=-eq-ok (is_record v) _ h in
    let (u, e2, h2) =
      >>=-eq-ok
        (require (has_exact_keys fs (codes "columns" ∷ codes "rows" ∷ []) [])
          ErrorCode.schema_invalid 1002)
        _ h1 in
    let (c, e3, h3) = >>=-eq-ok (assert_dimension (get (codes "columns") fs)) _ h2 in
    let (r, e4, h4) = >>=-eq-ok (assert_dimension (get (codes "rows") fs)) _ h3 in
    ground (
      arith,
      assert_dimension_bounds (get (codes "columns") fs) e3,
      assert_dimension_bounds (get (codes "rows") fs) e4,
    )

assert_optional_uuid-IsOptionalUuid :
    (v : Option Json) {o : Option Text} → assert_optional_uuid v ≡ ok o → IsOptionalUuid o
assert_optional_uuid-IsOptionalUuid none h = ground arith
assert_optional_uuid-IsOptionalUuid (some v) h =
    let (t, e, h') = >>=-eq-ok (assert_uuid (some v)) _ h in
    ground (arith, text_that-eq-ok is_uuid_v4 (some v) e)

all_versions_lem :
    (vs : List Json) {ts : List Text}
    → all_versions vs ≡ ok ts
    → All (λ t. is_version t ≡ true) ts × (length ts ≡ length vs)
unfolding all_versions
all_versions_lem [] h = ground arith
all_versions_lem (v ∷ vs) h =
    let (t, e1, h1) = >>=-eq-ok (text_that is_version (some v)) _ h in
    let (ts, e2, h2) = >>=-eq-ok (all_versions vs) _ h1 in
    ground (arith, text_that-eq-ok is_version (some v) e1, all_versions_lem vs e2)

assert_versions-AreVersions :
    (v : Option Json) {ts : List Text} → assert_versions v ≡ ok ts → AreVersions ts
unfolding assert_versions
assert_versions-AreVersions (some (arr vs)) h =
    let (u, e1, h1) =
      >>=-eq-ok (require (between 1 8 (length (elements vs))) ErrorCode.schema_invalid 1002) _ h in
    let (ts, e2, h2) = >>=-eq-ok (all_versions (elements vs)) _ h1 in
    let (w, e3, h3) = >>=-eq-ok (require (are_distinct ts) ErrorCode.schema_invalid 1002) _ h2 in
    ground (arith, all_versions_lem (elements vs) e2)
assert_versions-AreVersions v h = cc

base64url_text-Encodes :
    (n : ℕ) (v : Option Json) {t : Text} → base64url_text (some n) v ≡ ok t → Encodes n t
base64url_text-Encodes n (some (str s)) {t} h = elim (Result-cases (decode_base64url s (some n))) [
  | inl (bytes, e) ↦ let same : s ≡ t = cc (rw e at h) in (bytes, rw (← same) e)
  | inr (v, e) ↦ cc (rw e at h)
]
base64url_text-Encodes n v h = cc

terminal_data-EncodesAtMost :
    (most : ℕ) (v : Option Json) {t : Text} → terminal_data most v ≡ ok t → EncodesAtMost most t
terminal_data-EncodesAtMost most (some (str s)) {t} h =
    elim (Result-cases (decode_base64url s none)) [
      | inl (bytes, e) ↦
          let h' = rw e at h in
          let (u, fits, h'') =
            >>=-eq-ok (require (leb (length bytes) most) ErrorCode.payload_too_large 1009) _ h' in
          let same : s ≡ t = cc h'' in
          (bytes, rw (← same) e, leb→le (length bytes) most (require-eq-ok _ _ _ fits))
      | inr (v, e) ↦ cc (rw e at h)
    ]
terminal_data-EncodesAtMost most v h = cc

read_payload-Ensures :
    (type : MessageType) (p : Text → Option Json)
    → Ensures (λ q. (type_of q ≡ type) × IsWellFormed q) (read_payload type p)
unfolding read_payload type_of
read_payload-Ensures MessageType.hello p =
    >>=-Ensures (assert_uuid (p (codes "clientInstanceId"))) _ λ a ea.
      >>=-Ensures (assert_optional_uuid (p (codes "credentialId"))) _ λ b eb.
        >>=-Ensures (assert_versions (p (codes "supportedVersions"))) _ λ c ec. holds (
          refl,
          (
            text_that-eq-ok is_uuid_v4 (p (codes "clientInstanceId")) ea,
            assert_optional_uuid-IsOptionalUuid (p (codes "credentialId")) eb,
            assert_versions-AreVersions (p (codes "supportedVersions")) ec,
          ),
        )
read_payload-Ensures MessageType.hello_ack p =
    >>=-Ensures
      (require (is_text protocol_version (p (codes "selectedVersion")))
        ErrorCode.unsupported_version 1002)
      _
      λ a ea.
        >>=-Ensures (assert_uuid (p (codes "agentId"))) _
          λ b eb. holds (refl, text_that-eq-ok is_uuid_v4 (p (codes "agentId")) eb)
read_payload-Ensures MessageType.pairing_request p =
    >>=-Ensures (base64url_text (some 16) (p (codes "pairingCode"))) _
      λ a ea. holds (refl, base64url_text-Encodes 16 (p (codes "pairingCode")) ea)
read_payload-Ensures MessageType.pairing_result p =
    >>=-Ensures (assert_uuid (p (codes "credentialId"))) _ λ a ea.
      >>=-Ensures (base64url_text (some 32) (p (codes "credentialSecret"))) _ λ b eb.
        >>=-Ensures (assert_timestamp (p (codes "credentialExpiresAt"))) _ λ c ec. holds (
          refl,
          (
            text_that-eq-ok is_uuid_v4 (p (codes "credentialId")) ea,
            base64url_text-Encodes 32 (p (codes "credentialSecret")) eb,
            text_that-eq-ok is_timestamp (p (codes "credentialExpiresAt")) ec,
          ),
        )
read_payload-Ensures MessageType.auth_challenge p =
    >>=-Ensures (assert_uuid (p (codes "challengeId"))) _ λ a ea.
      >>=-Ensures (base64url_text (some 32) (p (codes "challenge"))) _ λ b eb.
        >>=-Ensures (assert_timestamp (p (codes "expiresAt"))) _ λ c ec. holds (
          refl,
          (
            text_that-eq-ok is_uuid_v4 (p (codes "challengeId")) ea,
            base64url_text-Encodes 32 (p (codes "challenge")) eb,
            text_that-eq-ok is_timestamp (p (codes "expiresAt")) ec,
          ),
        )
read_payload-Ensures MessageType.auth_response p =
    >>=-Ensures (assert_uuid (p (codes "challengeId"))) _ λ a ea.
      >>=-Ensures (assert_uuid (p (codes "credentialId"))) _ λ b eb.
        >>=-Ensures (base64url_text (some 32) (p (codes "proof"))) _ λ c ec. holds (
          refl,
          (
            text_that-eq-ok is_uuid_v4 (p (codes "challengeId")) ea,
            text_that-eq-ok is_uuid_v4 (p (codes "credentialId")) eb,
            base64url_text-Encodes 32 (p (codes "proof")) ec,
          ),
        )
read_payload-Ensures MessageType.auth_result p =
    >>=-Ensures (require (is_true (p (codes "authenticated"))) ErrorCode.schema_invalid 1002) _
      λ a ea.
        >>=-Ensures (assert_timestamp (p (codes "authorizationExpiresAt"))) _
          λ b eb. holds (refl, text_that-eq-ok is_timestamp (p (codes "authorizationExpiresAt")) eb)
read_payload-Ensures MessageType.open_session p =
    >>=-Ensures
      (require (is_text (codes "powershell") (p (codes "shell"))) ErrorCode.schema_invalid 1002) _
      λ a ea.
        >>=-Ensures (assert_dimensions (p (codes "dimensions"))) _
          λ b eb. holds (refl, assert_dimensions-IsDimension (p (codes "dimensions")) eb)
read_payload-Ensures MessageType.session_opened p =
    >>=-Ensures (assert_session_id (p (codes "sessionId"))) _
      λ a ea. holds (refl, text_that-eq-ok is_session_id (p (codes "sessionId")) ea)
read_payload-Ensures MessageType.session_reopened p =
    >>=-Ensures (assert_session_id (p (codes "sessionId"))) _
      λ a ea. holds (refl, text_that-eq-ok is_session_id (p (codes "sessionId")) ea)
read_payload-Ensures MessageType.detach p =
    >>=-Ensures (assert_session_id (p (codes "sessionId"))) _
      λ a ea. holds (refl, text_that-eq-ok is_session_id (p (codes "sessionId")) ea)
read_payload-Ensures MessageType.session_detached p =
    >>=-Ensures (assert_session_id (p (codes "sessionId"))) _
      λ a ea. holds (refl, text_that-eq-ok is_session_id (p (codes "sessionId")) ea)
read_payload-Ensures MessageType.reopen_session p =
    >>=-Ensures (assert_session_id (p (codes "sessionId"))) _ λ a ea.
      >>=-Ensures (assert_dimensions (p (codes "dimensions"))) _ λ b eb. holds (
        refl,
        (
          text_that-eq-ok is_session_id (p (codes "sessionId")) ea,
          assert_dimensions-IsDimension (p (codes "dimensions")) eb,
        ),
      )
read_payload-Ensures MessageType.history_begin p =
    >>=-Ensures (assert_session_id (p (codes "sessionId"))) _ λ a ea.
      >>=-Ensures (assert_offset (p (codes "startOffset"))) _ λ b eb.
        >>=-Ensures (assert_offset (p (codes "endOffset"))) _ λ c ec.
          >>=-Ensures (assert_boolean (p (codes "truncated"))) _ λ d ed. holds (
            refl,
            (
              text_that-eq-ok is_session_id (p (codes "sessionId")) ea,
              assert_offset-le (p (codes "startOffset")) eb,
              assert_offset-le (p (codes "endOffset")) ec,
            ),
          )
read_payload-Ensures MessageType.history_end p =
    >>=-Ensures (assert_session_id (p (codes "sessionId"))) _ λ a ea.
      >>=-Ensures (assert_offset (p (codes "endOffset"))) _ λ b eb. holds (
        refl,
        (
          text_that-eq-ok is_session_id (p (codes "sessionId")) ea,
          assert_offset-le (p (codes "endOffset")) eb,
        ),
      )
read_payload-Ensures MessageType.terminal_input p =
    >>=-Ensures (assert_session_id (p (codes "sessionId"))) _ λ a ea.
      >>=-Ensures (terminal_data max_terminal_input_bytes (p (codes "data"))) _ λ b eb. holds (
        refl,
        (
          text_that-eq-ok is_session_id (p (codes "sessionId")) ea,
          terminal_data-EncodesAtMost max_terminal_input_bytes (p (codes "data")) eb,
        ),
      )
read_payload-Ensures MessageType.terminal_output p =
    >>=-Ensures (assert_session_id (p (codes "sessionId"))) _ λ a ea.
      >>=-Ensures (assert_offset (p (codes "offset"))) _ λ b eb.
        >>=-Ensures (terminal_data max_terminal_output_bytes (p (codes "data"))) _ λ c ec. holds (
          refl,
          (
            text_that-eq-ok is_session_id (p (codes "sessionId")) ea,
            assert_offset-le (p (codes "offset")) eb,
            terminal_data-EncodesAtMost max_terminal_output_bytes (p (codes "data")) ec,
          ),
        )
read_payload-Ensures MessageType.history_chunk p =
    >>=-Ensures (assert_session_id (p (codes "sessionId"))) _ λ a ea.
      >>=-Ensures (assert_offset (p (codes "offset"))) _ λ b eb.
        >>=-Ensures (terminal_data max_terminal_output_bytes (p (codes "data"))) _ λ c ec. holds (
          refl,
          (
            text_that-eq-ok is_session_id (p (codes "sessionId")) ea,
            assert_offset-le (p (codes "offset")) eb,
            terminal_data-EncodesAtMost max_terminal_output_bytes (p (codes "data")) ec,
          ),
        )
read_payload-Ensures MessageType.resize p =
    >>=-Ensures (assert_session_id (p (codes "sessionId"))) _ λ a ea.
      >>=-Ensures (assert_dimensions (p (codes "dimensions"))) _ λ b eb. holds (
        refl,
        (
          text_that-eq-ok is_session_id (p (codes "sessionId")) ea,
          assert_dimensions-IsDimension (p (codes "dimensions")) eb,
        ),
      )
read_payload-Ensures MessageType.heartbeat p =
    >>=-Ensures
      (or_else ErrorCode.schema_invalid 1002 (read_table heartbeat_kinds (p (codes "kind")))) _
      λ a ea.
        >>=-Ensures (base64url_text (some 16) (p (codes "nonce"))) _
          λ b eb. holds (refl, base64url_text-Encodes 16 (p (codes "nonce")) eb)
read_payload-Ensures MessageType.close_session p =
    >>=-Ensures (assert_session_id (p (codes "sessionId"))) _ λ a ea.
      >>=-Ensures
        (or_else ErrorCode.schema_invalid 1002 (read_table close_reasons (p (codes "reason")))) _
        λ b eb. holds (refl, text_that-eq-ok is_session_id (p (codes "sessionId")) ea)
read_payload-Ensures MessageType.session_closed p =
    >>=-Ensures (assert_session_id (p (codes "sessionId"))) _ λ a ea.
      >>=-Ensures (or_else ErrorCode.schema_invalid 1002 (closed_reason (p (codes "reason")))) _
        λ b eb. holds (refl, text_that-eq-ok is_session_id (p (codes "sessionId")) ea)
read_payload-Ensures MessageType.error p =
    >>=-Ensures (or_else ErrorCode.schema_invalid 1002 (read_table error_codes (p (codes "code"))))
      _
      λ a ea.
        >>=-Ensures (require (is_true (p (codes "fatal"))) ErrorCode.schema_invalid 1002) _
          λ b eb. holds (refl, tt)

validate_payload_lem :
    (type : MessageType) (fs : Fields) {q : Payload}
    → validate_payload type fs ≡ ok q
    → (type_of q ≡ type) × IsWellFormed q
unfolding validate_payload
validate_payload_lem type fs h =
    let (u, e, h') =
      >>=-eq-ok
        (require (has_exact_keys fs (required_keys type) (optional_keys type))
          ErrorCode.schema_invalid 1002)
        _ h in
    Ensures-elim (λ q. (type_of q ≡ type) × IsWellFormed q)
      (read_payload-Ensures type (λ k. get k fs)) h'

pub validate_frame-IsWellFormed :
    (value : Json) (f : Frame)
    → validate_frame value ≡ ok f
    → (is_uuid_v4 f.connection_id ≡ true)
      × (f.sequence ≤ max_safe_sequence)
      × IsWellFormed f.payload
unfolding validate_frame
validate_frame-IsWellFormed value f h =
    let (fs, e1, h1) = >>=-eq-ok (is_record (some value)) _ h in
    let (u2, e2, h2) =
      >>=-eq-ok (require (has_exact_keys fs frame_keys []) ErrorCode.schema_invalid 1002) _ h1 in
    let (u3, e3, h3) =
      >>=-eq-ok
        (require (is_text protocol_version (get (codes "version") fs)) ErrorCode.unsupported_version
          1002)
        _ h2 in
    let (type, e4, h4) =
      >>=-eq-ok
        (or_else ErrorCode.unknown_type 1002 (read_table message_types (get (codes "type") fs))) _
        h3 in
    let (connection, e5, h5) = >>=-eq-ok (assert_uuid (get (codes "connectionId") fs)) _ h4 in
    let (sequence, e6, h6) = >>=-eq-ok (assert_offset (get (codes "sequence") fs)) _ h5 in
    let (properties, e7, h7) = >>=-eq-ok (is_record (get (codes "payload") fs)) _ h6 in
    let (payload, e8, h8) = >>=-eq-ok (validate_payload type properties) _ h7 in
    let made : ◌≡◌ {A = Frame}
        (record { connection_id = connection; sequence = sequence; payload = payload }) f =
      cc h8 in
    rw (← made) (
      text_that-eq-ok is_uuid_v4 (get (codes "connectionId") fs) e5,
      assert_offset-le (get (codes "sequence") fs) e6,
      (validate_payload_lem type properties e8).1,
    )
