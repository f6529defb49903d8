-- ===== src/Machine/Auth.antt =====
-- apps/web/protocol/auth.ts, and `validateContext` of contractMachine.ts.
use terminus_web.Prelude.{
  ℕ, Bool, false, [], ◌∷◌, ◌++◌, Option, none, some, Text, codes, text_eq, leb, ErrorCode, Result,
  ok, ◌>>=◌, ◌>>◌, violation, require, not,
}
use terminus_web.Codec.Base64.{Bytes, encode_base64url, decode_base64url}
use terminus_web.Codec.Utf8.{utf8}
use terminus_web.Codec.Frames.{Payload, Frame}
use terminus_web.Machine.State.{ReopenDecision, allow, Context, Host}

-- `AUTH_DOMAIN`
abbrev pub auth_domain : Bytes
auth_domain = codes "Terminus/0.2/auth" ++ 0 ∷ []

-- The bytes that are signed, by `concatenate`.
unfoldable pub auth_message : Text → Text → Bytes → Bytes
unfolding utf8
auth_message connection id challenge =
    auth_domain ++ (utf8 connection ++ (0 ∷ (utf8 id ++ (0 ∷ challenge))))

module _ (host : Host) where
  open host use {Key, import_key, sign, date_value}

  unfoldable pub import_credential_key : Text → Result Key
  import_credential_key secret = do bytes ← decode_base64url secret (some 32); ok (import_key bytes)

  unfoldable pub compute_authentication_proof : Key → Text → Text → Text → Result Text
  unfolding auth_message
  compute_authentication_proof key connection id challenge = do
    bytes ← decode_base64url challenge (some 32)
    ok (encode_base64url (sign key (auth_message connection id bytes)))

  -- `new Date(now) >= new Date(expiry)`, false where either is NaN.
  abbrev pub is_past : Option ℕ → Option ℕ → Bool
  is_past (some now) (some expiry) = leb expiry now
  is_past _ _ = false

  unfoldable pub is_expired : Option Text → Option Text → Bool
  is_expired (some now) (some expiry) = is_past (date_value now) (date_value expiry)
  is_expired _ _ = false

  -- The proof is compared only where the context holds both the secret and the challenge.
  unfoldable pub check_proof : Option Text → Option Text → Text → Text → Text → Result (Unit {0})
  unfolding import_credential_key compute_authentication_proof
  check_proof (some secret) (some challenge) connection id proof = do
    key ← import_credential_key secret
    computed ← compute_authentication_proof key connection id challenge
    require (text_eq computed proof) ErrorCode.authentication_failed 1008
  check_proof _ _ connection id proof = ok tt

  abbrev pub check_decision : Option ReopenDecision → Result (Unit {0})
  check_decision none = ok tt
  check_decision (some allow) = ok tt
  check_decision (some _) = violation ErrorCode.session_reopen_rejected 1008

  unfoldable pub check_context : Context → Text → Payload → Result (Unit {0})
  unfolding is_expired check_proof
  check_context context connection (Payload.auth_response id credential proof) = do
    require (not (is_expired context.now context.challenge_expires_at))
        ErrorCode.authentication_failed 1008
    check_proof context.credential_secret context.challenge connection id proof
  check_context context connection (Payload.reopen_session id dimensions) =
      check_decision context.reopen_decision
  check_context context connection _ = ok tt

  -- `validateContext`
  unfoldable pub validate_context : Frame → Context → Result (Unit {0})
  unfolding check_context
  validate_context frame context = check_context context frame.connection_id frame.payload
