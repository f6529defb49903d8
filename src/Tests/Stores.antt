-- ===== src/Tests/Stores.antt =====
-- The credential stores and the answers of the intelligence service on concrete values.
use terminus_web.Prelude.{
  ◌≡◌, refl, Bool, true, false, List, [], ◌∷◌, none, some, Text, codes, text_eq, includes,
}
use terminus_web.Json.{Json, bool, obj, end, field, keys, get}
use terminus_web.Codec.Base64.{
  encode_base64url, decode_base64url, btoa, atob, sextet_char, char_sextet, char_groups, drop_pad,
  to_url, from_url, strip_pads, is_url_char, is_base64url, padding, is_empty, check_bytes,
}
use terminus_web.Codec.Identifiers.{matches, is_uuid_v4}
use terminus_web.Credentials.{
  Platform, StoredCredential, loaded, Call, clear_credential, get_client_instance_id,
  load_credential, save_credential, new_store, is_signing_key, is_lifetime, save, is_usable,
  indexed_call, memory_call, indexed_run, memory_run,
}
use terminus_web.Credentials.Agreement.{KeepsImport, runs_agree, save_load}
use terminus_web.Intelligence.Answers.{terminal_record, shape_of, valid_result, object, check_field}
use terminus_web.Intelligence.Exact.{IsExact, valid_result-IsExact}

computing : Unit {0}
unfolding text_eq includes encode_base64url decode_base64url btoa atob sextet_char char_sextet
    char_groups drop_pad to_url from_url strip_pads is_url_char is_base64url padding is_empty
    check_bytes matches is_uuid_v4 keys get object check_field shape_of valid_result is_signing_key
    save is_usable indexed_call memory_call
computing = tt

-- A key is what it is imported with, and every date lies a second behind the earliest one.
abbrev platform : Platform
platform = record {
  Key = Bool × List Text;
  import_key = λ bytes extractable usages. (extractable, usages);
  extractable = λ key. some key.0;
  usages = λ key. some key.1;
  date_value = λ t. some 1000;
}

keeps_import : KeepsImport platform
unfolding computing
keeps_import bytes = refl

abbrev uuid : Text
uuid = codes "12345678-1234-4123-8123-123456789abc"

-- 32 bytes of 0.
abbrev secret : Text
secret = codes "AAAAAAAAAAAAAAAAAAAAAAAAAAAAAAAAAAAAAAAAAAA"

abbrev calls : List Call
calls =
    get_client_instance_id uuid
    ∷ save_credential uuid secret (codes "later") 10
    ∷ load_credential 999
    ∷ load_credential 1000
    ∷ clear_credential
    ∷ []

runs_agree_example :
    indexed_run platform calls (new_store platform) ≡ memory_run platform calls (new_store platform)
unfolding computing
runs_agree_example =
    runs_agree platform calls (new_store platform) keeps_import (refl, (tt, (tt, (tt, (tt, tt)))))
      (tt, tt)

abbrev kept : StoredCredential (Bool × List Text)
kept = record { credential_id = uuid; key = (false, codes "sign" ∷ []); expires_at = codes "later" }

save_load_example :
    ((indexed_call platform
        (load_credential 1000)
        (indexed_call platform
          (save_credential uuid secret (codes "later") 10)
          (new_store platform)).0).1
      ≡ loaded none)
    × (is_lifetime platform (some 1000) 10 ≡ true)
unfolding computing
save_load_example =
    save_load platform uuid secret (codes "later") 10 1000 (new_store platform) keeps_import refl

abbrev recorded_answer : Json
recorded_answer = obj (field (codes "recorded") (bool true) end)

valid_result-IsExact_example : IsExact (shape_of terminal_record) recorded_answer
unfolding computing
valid_result-IsExact_example = valid_result-IsExact terminal_record recorded_answer refl
