-- ===== src/Connect/Isolation.antt =====
-- endpointPolicy.ts: what an accepted policy guarantees, and that the two modes share no endpoint.
use terminus_web.Prelude.{
  ◌≡◌, sym, ap, ◌≢◌, true, false, not, ◌&&◌, ◌||◌, Option, none, some, Text, codes, text_eq_iff, ok,
  require-eq-ok, >>=-eq-ok, and-eq-true, arith,
}
use terminus_web.Connect.Endpoint.{
  ConnectionMode, local, private, WssPolicy, ValidatedPolicy, Url, is, is_none,
  is_loopback_hostname, is_private_disallowed_hostname, require_origin, parsed_url,
  is_clean_endpoint, is_clean_origin, parse_common_urls, validated, validate_private_wss_policy,
  validate_local_wss_policy,
}

parsed_url-eq-ok : (o : Option Url) {u : Url} → parsed_url o ≡ ok u → o ≡ some u
parsed_url-eq-ok none h = cc
parsed_url-eq-ok (some v) h = cc

module _ (parse_url : Text → Option Url) where
  -- What both modes guarantee of an accepted policy: where it leads, and the page that may use it.
  pub record IsAccepted (mode : ConnectionMode) (policy : WssPolicy) (current : Text)
      (v : ValidatedPolicy) : Type 0 where
    pub endpoint : Url
    pub wanted : Url
    pub actual : Url
    pub endpoint_parsed : parse_url policy.endpoint ≡ some endpoint
    pub wanted_parsed : parse_url policy.expected_web_origin ≡ some wanted
    pub actual_parsed : parse_url current ≡ some actual
    pub encrypted : endpoint.protocol ≡ codes "wss:"
    pub anonymous : (is_none endpoint.username ≡ true) × (is_none endpoint.password ≡ true)
    pub exact_origin : policy.expected_web_origin ≡ wanted.origin
    pub same_origin : actual.origin ≡ wanted.origin
    pub result : v ≡ validated parse_url mode endpoint wanted

  abbrev pub IsLocal :
      {mode : ConnectionMode} {policy : WssPolicy} {current : Text} {v : ValidatedPolicy}
      → IsAccepted mode policy current v
      → Type 0
  IsLocal a =
      (is_loopback_hostname a.endpoint.hostname ≡ true)
      × (is_loopback_hostname a.wanted.hostname ≡ true)
      × (is_loopback_hostname a.actual.hostname ≡ true)

  abbrev pub IsPrivate :
      {mode : ConnectionMode} {policy : WssPolicy} {current : Text} {v : ValidatedPolicy}
      → IsAccepted mode policy current v
      → Type 0
  IsPrivate a =
      (a.wanted.protocol ≡ codes "https:")
      × (is_private_disallowed_hostname a.endpoint.hostname ≡ false)

  parse_common_urls-eq-ok :
      (policy : WssPolicy) {both : Url × Url}
      → parse_common_urls parse_url policy ≡ ok both
      → (parse_url policy.endpoint ≡ some both.0)
        × (parse_url policy.expected_web_origin ≡ some both.1)
        × (is_clean_endpoint both.0 ≡ true)
  unfolding parse_common_urls
  parse_common_urls-eq-ok policy {both} h =
      let (e, e1, h1) = >>=-eq-ok (parsed_url (parse_url policy.endpoint)) _ h in
      let (w, e2, h2) = >>=-eq-ok (parsed_url (parse_url policy.expected_web_origin)) _ h1 in
      let (u, e3, h3) =
        >>=-eq-ok (require_origin (is_clean_endpoint e && is_clean_origin w)) _ h2 in
      let clean = and-eq-true (is_clean_endpoint e) (is_clean_origin w) (require-eq-ok _ _ _ e3) in
      let first : e ≡ both.0 = cc h3 in
      let second : w ≡ both.1 = cc h3 in
      (
        rw (← first) (parsed_url-eq-ok (parse_url policy.endpoint) e1),
        rw (← second) (parsed_url-eq-ok (parse_url policy.expected_web_origin) e2),
        rw (← first) clean.0,
      )

  clean_endpoint :
      (u : Url)
      → is_clean_endpoint u ≡ true
      → (u.protocol ≡ codes "wss:") × (is_none u.username ≡ true) × (is_none u.password ≡ true)
  clean_endpoint u h =
      ((text_eq_iff u.protocol (codes "wss:")).0 (ground arith), ground arith, ground arith)

  -- A policy that is accepted in local mode leads over wss and without credentials to a loopback
  -- host, from a page on a loopback host whose origin is exactly the expected one.
  pub validate_local_sound :
      (policy : WssPolicy) (current : Text) (v : ValidatedPolicy)
      → validate_local_wss_policy parse_url policy current ≡ ok v
      → (a : IsAccepted local policy current v) × IsLocal a
  unfolding validate_local_wss_policy
  validate_local_sound policy current v h =
      let ((e, w), e0, h0) = >>=-eq-ok (parse_common_urls parse_url policy) _ h in
      let (a, e1, h1) = >>=-eq-ok (parsed_url (parse_url current)) _ h0 in
      let (u2, e2, h2) =
        >>=-eq-ok (require_origin (is w.protocol (codes "http:") || is w.protocol (codes "https:")))
          _ h1 in
      let (u3, e3, h3) =
        >>=-eq-ok
          (require_origin (
            is policy.expected_web_origin w.origin
            && is a.origin w.origin
            && is_loopback_hostname e.hostname
            && is_loopback_hostname w.hostname
            && is_loopback_hostname a.hostname))
          _ h2 in
      let checks = require-eq-ok _ _ _ e3 in
      let (parsed, parsed', clean) = parse_common_urls-eq-ok policy e0 in
      let (wss, user, password) = clean_endpoint e clean in
      (
        record {
          endpoint = e;
          wanted = w;
          actual = a;
          endpoint_parsed = parsed;
          wanted_parsed = parsed';
          actual_parsed = parsed_url-eq-ok (parse_url current) e1;
          encrypted = wss;
          anonymous = (user, password);
          exact_origin = (text_eq_iff policy.expected_web_origin w.origin).0 (ground arith);
          same_origin = (text_eq_iff a.origin w.origin).0 (ground arith);
          result = cc h3;
        },
        (ground arith, ground arith, ground arith),
      )

  -- A policy that is accepted in private mode leads over wss and without credentials to a host that
  -- is neither loopback nor under ".local", from a page served over https whose origin is exactly
  -- the expected one.
  pub validate_private_sound :
      (policy : WssPolicy) (current : Text) (v : ValidatedPolicy)
      → validate_private_wss_policy parse_url policy current ≡ ok v
      → (a : IsAccepted private policy current v) × IsPrivate a
  unfolding validate_private_wss_policy
  validate_private_sound policy current v h =
      let ((e, w), e0, h0) = >>=-eq-ok (parse_common_urls parse_url policy) _ h in
      let (a, e1, h1) = >>=-eq-ok (parsed_url (parse_url current)) _ h0 in
      let (u3, e3, h3) =
        >>=-eq-ok
          (require_origin (
            is w.protocol (codes "https:")
            && is policy.expected_web_origin w.origin
            && is w.origin a.origin
            && not (is_none e.hostname)
            && not (is_none w.hostname)
            && not (is_private_disallowed_hostname e.hostname)))
          _ h1 in
      let checks = require-eq-ok _ _ _ e3 in
      let (parsed, parsed', clean) = parse_common_urls-eq-ok policy e0 in
      let (wss, user, password) = clean_endpoint e clean in
      (
        record {
          endpoint = e;
          wanted = w;
          actual = a;
          endpoint_parsed = parsed;
          wanted_parsed = parsed';
          actual_parsed = parsed_url-eq-ok (parse_url current) e1;
          encrypted = wss;
          anonymous = (user, password);
          exact_origin = (text_eq_iff policy.expected_web_origin w.origin).0 (ground arith);
          same_origin = sym ((text_eq_iff w.origin a.origin).0 (ground arith));
          result = cc h3;
        },
        ((text_eq_iff w.protocol (codes "https:")).0 (ground arith), ground arith),
      )

-- A loopback host is refused in private mode.
disallows_loopback :
    (h : Text) → is_loopback_hostname h ≡ true → is_private_disallowed_hostname h ≡ true
unfolding is_private_disallowed_hostname
disallows_loopback h e = rw e

-- No endpoint is accepted in both modes, whatever the pages and the expected origins: a profile
-- cannot pass from the private path to the local machine or back.
pub modes_are_disjoint :
    (parse_url : Text → Option Url) (p q : WssPolicy) (current current' : Text)
    (v w : ValidatedPolicy)
    → validate_local_wss_policy parse_url p current ≡ ok v
    → validate_private_wss_policy parse_url q current' ≡ ok w
    → p.endpoint ≢ q.endpoint
modes_are_disjoint parse_url p q current current' v w hp hq same =
    let (a, near) = validate_local_sound parse_url p current v hp in
    let (b, far) = validate_private_sound parse_url q current' w hq in
    let one : a.endpoint ≡ b.endpoint = cc (a.endpoint_parsed, b.endpoint_parsed, same) in
    cc (disallows_loopback a.endpoint.hostname near.0, far.1, ap (λ u. u.hostname) one)
