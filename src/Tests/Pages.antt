-- ===== src/Tests/Pages.antt =====
-- The codec of bytes, the endpoint policies, the connection profiles, the recent sessions and the
-- recovery on concrete values.
use terminus_web.Prelude.{
  ◌+◌, ◌≤◌, ◌≡◌, ◌↔◌, refl, ◌≢◌, true, false, List, [], ◌∷◌, none, some, Text, codes, text_eq,
  is_space, includes, ok, violation, ErrorCode, All, arith, take,
}
use terminus_web.Json.{nat, elements, keys, get, has_own, is_record, has_exact_keys}
use terminus_web.Codec.Base64.{
  Bytes, has_expected, encode_base64url, decode_base64url, btoa, atob, sextet_char, char_sextet,
  char_groups, drop_pad, to_url, from_url, strip_pads, is_url_char, is_base64url, padding, is_empty,
  check_bytes,
}
use terminus_web.Codec.Base64.RoundTrip.{IsByte}
use terminus_web.Codec.Base64.Canonical.{decode-eq-ok_iff}
use terminus_web.Codec.Identifiers.{matches, is_uuid_v4, is_session_id}
use terminus_web.Sessions.Fragment.{
  session, strip_prefix, parse_session_fragment, session_fragment, parse-eq-session_iff,
}
use terminus_web.Sessions.Recent.{
  missing, limit, add_new, read, list, update, read_entry, read_entries, entries_json,
}
use terminus_web.Sessions.Recent.Laws.{AreValid, others, read-update}
use terminus_web.Recovery.{
  detached, World, Recovery, new, max_attempts, Event, timer_fired, attempt_settled, page_shows,
  step, run, schedule, fire, visibility, pagehide, pageshow, state_changed,
}
use terminus_web.Recovery.Bounds.{
  connects, IsValid, step-IsValid, episode_is_bounded, stopped_never_connects,
}
use terminus_web.Connect.Endpoint.{
  is_loopback_hostname, ends_with, is_private_disallowed_hostname, parse_common_urls,
  validate_private_wss_policy, validate_local_wss_policy, validate_wss_policy,
}
use terminus_web.Connect.Profiles.{
  find, is_connect_profile, is_blank, set_all, resolve_profiles, select_initial_profile,
}

computing : Unit {0}
unfolding text_eq includes elements keys get has_own is_record has_exact_keys encode_base64url
    decode_base64url btoa atob sextet_char char_sextet char_groups drop_pad to_url from_url
    strip_pads is_url_char is_base64url padding is_empty check_bytes matches is_uuid_v4
    is_session_id strip_prefix parse_session_fragment session_fragment read list update read_entry
    read_entries entries_json step run schedule fire visibility pagehide pageshow state_changed
    is_loopback_hostname ends_with is_private_disallowed_hostname parse_common_urls
    validate_private_wss_policy validate_local_wss_policy validate_wss_policy find is_space is_blank
    is_connect_profile set_all resolve_profiles select_initial_profile
computing = tt

-- A byte text with no padding left over, and one that is not canonical.
base64_tests :
    (encode_base64url (104 ∷ 105 ∷ []) ≡ codes "aGk")
    × (decode_base64url (codes "aGk") none ≡ ok (104 ∷ 105 ∷ []))
    × (decode_base64url (codes "aGl") none ≡ violation ErrorCode.schema_invalid 1002)
unfolding computing
base64_tests = (refl, refl, refl)

abbrev hi : Bytes
hi = 104 ∷ 105 ∷ []

decode-eq-ok_iff_example : (decode_base64url (codes "aGk") (some 2) ≡ ok hi) ↔ (
    All IsByte hi
    × (hi ≢ [])
    × (has_expected (some 2) hi ≡ true)
    × (codes "aGk" ≡ encode_base64url hi))
decode-eq-ok_iff_example = decode-eq-ok_iff (codes "aGk") (some 2) hi

parse-eq-session_iff_example :
    (parse_session_fragment (codes "#/s/abcd-efgh-jkmn") ≡ session (codes "abcd-efgh-jkmn"))
    ↔ (session_fragment (codes "abcd-efgh-jkmn") ≡ some (codes "#/s/abcd-efgh-jkmn"))
parse-eq-session_iff_example =
    parse-eq-session_iff (codes "#/s/abcd-efgh-jkmn") (codes "abcd-efgh-jkmn")

abbrev credential : Text
credential = codes "12345678-1234-4123-8123-123456789abc"

abbrev recent : Text
recent = codes "abcd-efgh-jkmn"

recent-AreValid : AreValid (codes "home") credential recent
unfolding computing
recent-AreValid = record { short = omega arith; is_credential = refl; is_session = refl }

read-update_example :
    read (update true (codes "home") credential recent (some (nat 5)) missing)
    ≡ take limit (
        add_new
          (codes "home")
          credential
          recent
          (some (nat 5))
          (others (codes "home") credential recent missing))
read-update_example =
    read-update (codes "home") credential recent (some (nat 5)) missing recent-AreValid

-- A shown page, online, with a session that was left.
abbrev world : World
world = record {
  document_visible = true;
  online = true;
  state = detached;
  transport_failure = false;
  reopen_rejected = false;
  session = some recent;
  can_release = true;
  can_detach = true;
}

-- The timer of the second attempt is set.
abbrev waiting : Recovery
waiting = record new { attempts = 1; timer = some 1000 }

waiting-IsValid : IsValid waiting
waiting-IsValid = record {
  bounded = omega arith;
  timed = λ h. (refl, omega arith);
  running = λ h. (refl, refl, refl);
}

step-IsValid_example : IsValid (step world timer_fired waiting).0
step-IsValid_example = step-IsValid world timer_fired waiting waiting-IsValid

abbrev events : List (World × Event)
events = (world, timer_fired) ∷ (world, attempt_settled) ∷ (world, timer_fired) ∷ []

recovery_tests : connects (run events waiting).1 ≡ 2
unfolding computing
recovery_tests = refl

episode_is_bounded_example : connects (run events waiting).1 + 1 ≤ max_attempts
episode_is_bounded_example =
    episode_is_bounded events waiting waiting-IsValid (refl, (refl, (refl, tt)))

stopped_never_connects_example :
    connects (run ((world, page_shows) ∷ events) (record waiting { stopped = true })).1 ≡ 0
stopped_never_connects_example =
    stopped_never_connects ((world, page_shows) ∷ events) (record waiting { stopped = true }) refl
      (refl, (refl, (refl, (refl, tt))))
