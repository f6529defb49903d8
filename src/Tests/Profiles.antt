-- ===== src/Tests/Profiles.antt =====
-- The endpoint policies and the connection profiles on concrete values.
use terminus_web.Prelude.{
  ◌≡◌, refl, ◌≢◌, List, [], ◌∷◌, ◌++◌, Option, none, some, Text, codes, text_eq, is_space, ok,
  violation, ErrorCode, if◌then◌else◌,
}
use terminus_web.Connect.Endpoint.{
  ConnectionMode, local, private, WssPolicy, ValidatedPolicy, Url, is_loopback_hostname, ends_with,
  is_private_disallowed_hostname, parse_common_urls, validate_private_wss_policy,
  validate_local_wss_policy, validate_wss_policy,
}
use terminus_web.Connect.Isolation.{modes_are_disjoint}
use terminus_web.Connect.Profiles.{
  Profile, ConnectState, to_list, find, is_connect_profile, is_blank, set_all, resolve_profiles,
  select_initial_profile, read_persisted_connect_state, persist_connect_state,
}
use terminus_web.Connect.Choice.{chosen, resolve-eq-chosen, read-persist}

computing : Unit {0}
unfolding text_eq is_loopback_hostname ends_with is_private_disallowed_hostname parse_common_urls
    validate_private_wss_policy validate_local_wss_policy validate_wss_policy find is_space is_blank
    is_connect_profile set_all resolve_profiles select_initial_profile
computing = tt

abbrev url : Text → Text → Text → Url
url protocol hostname origin = record {
  protocol = protocol;
  username = [];
  password = [];
  hostname = hostname;
  pathname = codes "/";
  search = [];
  hash = [];
  origin = origin;
  href = origin ++ codes "/";
}

abbrev table : List (Text × Url)
table =
    (codes "wss://localhost", url (codes "wss:") (codes "localhost") (codes "wss://localhost"))
    ∷ (codes "http://localhost", url (codes "http:") (codes "localhost") (codes "http://localhost"))
    ∷ (codes "wss://agent.net", url (codes "wss:") (codes "agent.net") (codes "wss://agent.net"))
    ∷ (codes "https://web.net", url (codes "https:") (codes "web.net") (codes "https://web.net"))
    ∷ []

unfoldable look_up : List (Text × Url) → Text → Option Url
unfolding text_eq
look_up [] t = none
look_up ((s, u) ∷ rows) t = if text_eq s t then some u else look_up rows t

-- A parser that knows the addresses of the table only.
abbrev parse : Text → Option Url
parse = look_up table

abbrev local_policy : WssPolicy
local_policy = record {
  mode = some local;
  endpoint = codes "wss://localhost";
  expected_web_origin = codes "http://localhost";
}

abbrev private_policy : WssPolicy
private_policy = record {
  mode = none;
  endpoint = codes "wss://agent.net";
  expected_web_origin = codes "https://web.net";
}

abbrev accepted : ConnectionMode → Text → Text → ValidatedPolicy
accepted mode endpoint origin = record {
  mode = mode;
  endpoint = endpoint ++ codes "/";
  expected_web_origin = origin;
  csp_source = endpoint;
}

-- The local endpoint is no private one.
policy_tests :
    (validate_wss_policy parse local_policy (codes "http://localhost")
      ≡ ok (accepted local (codes "wss://localhost") (codes "http://localhost")))
    × (validate_wss_policy parse
          (record {
            mode = none;
            endpoint = codes "wss://localhost";
            expected_web_origin = codes "https://web.net";
          })
          (codes "https://web.net")
        ≡ violation ErrorCode.origin_rejected 1008)
unfolding computing look_up
policy_tests = (refl, refl)

modes_are_disjoint_example : codes "wss://localhost" ≢ codes "wss://agent.net"
unfolding computing look_up
modes_are_disjoint_example =
    modes_are_disjoint parse local_policy private_policy (codes "http://localhost")
      (codes "https://web.net")
      (accepted local (codes "wss://localhost") (codes "http://localhost"))
      (accepted private (codes "wss://agent.net") (codes "https://web.net")) refl refl

abbrev local_profile : Profile
local_profile = record {
  mode = local;
  endpoint = codes "wss://localhost";
  expected_web_origin = codes "http://localhost";
}

abbrev private_profile : Profile
private_profile = record {
  mode = private;
  endpoint = codes "wss://agent.net";
  expected_web_origin = codes "https://web.net";
}

abbrev stored_state : ConnectState
stored_state = record { selected_mode = private; profiles = local_profile ∷ private_profile ∷ [] }

resolve-eq-chosen_example :
    resolve_profiles parse (local_profile ∷ []) (some stored_state)
    ≡ to_list (chosen parse local (local_profile ∷ []) (some stored_state))
      ++ to_list (chosen parse private (local_profile ∷ []) (some stored_state))
resolve-eq-chosen_example = resolve-eq-chosen parse (local_profile ∷ []) (some stored_state)

read-persist_example :
    read_persisted_connect_state parse (some (persist_connect_state stored_state))
    ≡ some stored_state
unfolding computing look_up
read-persist_example = read-persist parse stored_state (refl, (refl, tt)) (λ h. cc)
