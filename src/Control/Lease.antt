-- ===== src/Control/Lease.antt =====
-- services/control-plane/src/authorization.mjs: `authorizeLease`.
use terminus_web.Prelude.{Bool, not, ◌&&◌, ◌||◌, codes, text_eq, any, if◌then◌else◌}
use terminus_web.Control.Values.{
  pos, Value, integer, is, same, is_null, is_integer, le_value, lt_value,
}
use terminus_web.Control.Policy.{
  Outcome, allow, deny, invalid_request, forbidden, conflict, Actor, Resource, Target,
}

abbrev pub at_least_one : Value → Bool
at_least_one = le_value (integer (pos 1))

-- The lifetime and the amount that are asked for.
abbrev pub is_measured : Target → Bool
is_measured t =
    at_least_one t.requested_ttl_seconds
    && le_value t.requested_ttl_seconds (integer (pos 300))
    && at_least_one t.requested_quota_units

-- `requiredTimes`, and the end of the entitlement, which may be `null`.
abbrev pub is_timed : Resource → Target → Value → Bool
is_timed r t now =
    is_integer now
    && is_integer t.pairing_expires_at
    && is_integer r.device_key_valid_after
    && is_integer r.device_key_expires_at
    && is_integer t.entitlement_starts_at
    && (is_null t.entitlement_ends_at || is_integer t.entitlement_ends_at)

abbrev pub is_host_ready : Resource → Value → Bool
is_host_ready r now =
    is (codes "active") r.host_state
    && is (codes "active") r.device_key_state
    && le_value r.device_key_valid_after now
    && lt_value now r.device_key_expires_at

abbrev pub is_paired : Actor → Resource → Target → Value → Value → Bool
is_paired actor r t requested now =
    is (codes "confirmed") t.pairing_state
    && same t.pairing_id requested
    && same t.pairing_membership_id actor.membership_id
    && same t.pairing_host_id r.host_id
    && lt_value now t.pairing_expires_at

abbrev pub is_entitled : Actor → Target → Value → Bool
is_entitled actor t now =
    any (same t.entitlement_key) actor.entitlements
    && is (codes "active") t.entitlement_state
    && le_value t.entitlement_starts_at now
    && (is_null t.entitlement_ends_at || lt_value now t.entitlement_ends_at)

abbrev pub is_affordable : Actor → Target → Bool
is_affordable actor t = le_value t.requested_quota_units actor.available_quota_units

-- `authorizeLease`, each test of which is the negation of the source's.
unfoldable pub authorize_lease : Actor → Resource → Target → Value → Value → Outcome
unfolding text_eq
authorize_lease actor r t requested now =
    if not (is_measured t)
    then deny invalid_request 422
    else if not (is_timed r t now)
    then deny invalid_request 422
    else if not (is_host_ready r now)
    then deny conflict 409
    else if not (is_paired actor r t requested now)
    then deny forbidden 403
    else if not (is_entitled actor t now)
    then deny forbidden 403
    else if not (is_affordable actor t)
    then deny conflict 409
    else allow
