-- ===== src/Connect/Endpoint.antt =====
-- apps/web/protocol/endpointPolicy.ts: the two policies for a WSS endpoint. The platform's `URL` is
-- a parameter: a function from texts to the parts of a URL, `none` where the constructor throws.
use terminus_web.Prelude.{
  Bool, true, false, not, ◌&&◌, ◌||◌, [], ◌∷◌, Option, none, some, Text, codes, text_eq,
  if◌then◌else◌, ErrorCode, Result, ok, ◌>>=◌, ◌>>◌, violation, require,
}

-- `ConnectionMode`
pub data ConnectionMode : Type 0 where
  local private : ConnectionMode

-- `PrivateWssPolicy`
pub record WssPolicy : Type 0 where
  pub mode : Option ConnectionMode
  pub endpoint : Text
  pub expected_web_origin : Text

-- `ValidatedPrivateWssPolicy`, whose subprotocol is always "terminus.v0_2".
pub record ValidatedPolicy : Type 0 where
  pub mode : ConnectionMode
  pub endpoint : Text
  pub expected_web_origin : Text
  pub csp_source : Text

-- The parts of a `URL` that are read.
pub record Url : Type 0 where
  pub protocol : Text
  pub username : Text
  pub password : Text
  pub hostname : Text
  pub pathname : Text
  pub search : Text
  pub hash : Text
  pub origin : Text
  pub href : Text

abbrev pub is : Text → Text → Bool
is a b = text_eq a b

abbrev pub is_none : Text → Bool
is_none [] = true
is_none (c ∷ cs) = false

unfoldable pub is_loopback_hostname : Text → Bool
unfolding text_eq
is_loopback_hostname h =
    is h (codes "localhost")
    || is h (codes "127.0.0.1")
    || is h (codes "::1")
    || is h (codes "[::1]")

-- `hostname.endsWith(suffix)`
unfoldable pub ends_with : Text → Text → Bool
unfolding text_eq
ends_with suffix [] = text_eq [] suffix
ends_with suffix (c ∷ cs) = text_eq (c ∷ cs) suffix || ends_with suffix cs

unfoldable pub is_private_disallowed_hostname : Text → Bool
unfolding is_loopback_hostname ends_with
is_private_disallowed_hostname h = is_loopback_hostname h || ends_with (codes ".local") h

abbrev pub origin_error {ℓ} : {A : Type ℓ} → Result A
origin_error = violation ErrorCode.origin_rejected 1008

-- `if (!test) throw new ProtocolViolation("ORIGIN_REJECTED", 1008)`
abbrev pub require_origin : Bool → Result (Unit {0})
require_origin b = require b ErrorCode.origin_rejected 1008

abbrev pub parsed_url : Option Url → Result Url
parsed_url none = origin_error
parsed_url (some u) = ok u

-- An endpoint with no credentials, query or fragment.
abbrev pub is_clean_endpoint : Url → Bool
is_clean_endpoint u =
    is u.protocol (codes "wss:")
    && is_none u.username
    && is_none u.password
    && is_none u.search
    && is_none u.hash

abbrev pub is_clean_origin : Url → Bool
is_clean_origin u =
    is u.pathname (codes "/")
    && is_none u.search
    && is_none u.hash
    && is_none u.username
    && is_none u.password

module _ (parse_url : Text → Option Url) where
  -- `parseCommonUrls`
  unfoldable pub parse_common_urls : WssPolicy → Result (Url × Url)
  parse_common_urls policy = do
    endpoint ← parsed_url (parse_url policy.endpoint)
    wanted ← parsed_url (parse_url policy.expected_web_origin)
    require_origin (is_clean_endpoint endpoint && is_clean_origin wanted)
    ok (endpoint, wanted)

  abbrev pub validated : ConnectionMode → Url → Url → ValidatedPolicy
  validated mode endpoint wanted = record {
    mode = mode;
    endpoint = endpoint.href;
    expected_web_origin = wanted.origin;
    csp_source = endpoint.origin;
  }

  unfoldable pub validate_private_wss_policy : WssPolicy → Text → Result ValidatedPolicy
  validate_private_wss_policy policy current = do
    (endpoint, wanted) ← parse_common_urls policy
    actual ← parsed_url (parse_url current)
    require_origin (
        is wanted.protocol (codes "https:")
        && is policy.expected_web_origin wanted.origin
        && is wanted.origin actual.origin
        && not (is_none endpoint.hostname)
        && not (is_none wanted.hostname)
        && not (is_private_disallowed_hostname endpoint.hostname))
    ok (validated private endpoint wanted)

  unfoldable pub validate_local_wss_policy : WssPolicy → Text → Result ValidatedPolicy
  validate_local_wss_policy policy current = do
    (endpoint, wanted) ← parse_common_urls policy
    actual ← parsed_url (parse_url current)
    require_origin (is wanted.protocol (codes "http:") || is wanted.protocol (codes "https:"))
    require_origin (
        is policy.expected_web_origin wanted.origin
        && is actual.origin wanted.origin
        && is_loopback_hostname endpoint.hostname
        && is_loopback_hostname wanted.hostname
        && is_loopback_hostname actual.hostname)
    ok (validated local endpoint wanted)

  -- `policy.mode ?? "private"`
  abbrev pub by_mode : Option ConnectionMode → WssPolicy → Text → Result ValidatedPolicy
  by_mode (some local) policy current = validate_local_wss_policy policy current
  by_mode _ policy current = validate_private_wss_policy policy current

  unfoldable pub validate_wss_policy : WssPolicy → Text → Result ValidatedPolicy
  unfolding validate_private_wss_policy validate_local_wss_policy
  validate_wss_policy policy current = by_mode policy.mode policy current

  -- `privateWssCspSource`: nothing for no value, the origin, or one of the two errors.
  pub data CspSource : Type 0 where
    no_source not_absolute not_clean : CspSource
    source : Text → CspSource

  abbrev pub source_of : Option Url → CspSource
  source_of none = not_absolute
  source_of (some u) = if is_clean_endpoint u then source u.origin else not_clean

  unfoldable pub private_wss_csp_source : Option Text → CspSource
  private_wss_csp_source none = no_source
  private_wss_csp_source (some []) = no_source
  private_wss_csp_source (some (c ∷ cs)) = source_of (parse_url (c ∷ cs))
