-- ===== src/Tests/Tenants.antt =====
-- services/control-plane/src/authorization.mjs on concrete requests.
use terminus_web.Prelude.{◌≡◌, refl, ◌⊎◌, true, false, [], ◌∷◌, some, codes, text_eq}
use terminus_web.Codec.Identifiers.{matches}
use terminus_web.Control.Values.{pos, Value, text, integer, null, is_uuid}
use terminus_web.Control.Policy.{
  operator, auditor, Action, role_assign, lease_issue, subscription_sync, permits, role_of,
  known_roles, Given, object, Actor, Resource, Target, has_complete_identity,
}
use terminus_web.Control.Lease.{authorize_lease}
use terminus_web.Control.Authorize.{
  Request, authorize_role_mutation, authorize_active, authorize_actor, authorize, Principal,
  authorize_provider_action,
}
use terminus_web.Control.Granted.{
  is_allowed, IsWithinTenant, authorize-IsWithinTenant, no_escalation,
}
use terminus_web.Control.Terms.{powers_are_disjoint}
use terminus_web.Tests.Protocol.{uuid}

unfoldable deciding : Unit {0}
unfolding text_eq matches is_uuid permits role_of known_roles has_complete_identity authorize_lease
    authorize_role_mutation authorize_active authorize_actor authorize authorize_provider_action
deciding = tt

abbrev id : Value
id = text uuid

abbrev active : Value
active = text (codes "active")

abbrev administrator : Actor
administrator = record {
  authenticated = true;
  tenant_id = id;
  membership_id = id;
  membership_state = active;
  roles = text (codes "admin") ∷ text (codes "unheard") ∷ [];
  entitlements = text (codes "terminal_access") ∷ [];
  available_quota_units = integer (pos 5);
}

abbrev host : Resource
host = record {
  tenant_id = id;
  host_id = id;
  device_key_id = id;
  host_state = active;
  device_key_state = active;
  device_key_valid_after = integer (pos 10);
  device_key_expires_at = integer (pos 30);
}

abbrev member : Target
member = record {
  tenant_id = id;
  membership_id = id;
  membership_state = active;
  role = text (codes "operator");
  pairing_id = id;
  pairing_membership_id = id;
  pairing_host_id = id;
  pairing_state = text (codes "confirmed");
  pairing_expires_at = integer (pos 30);
  entitlement_key = text (codes "terminal_access");
  entitlement_state = active;
  entitlement_starts_at = integer (pos 10);
  entitlement_ends_at = null;
  requested_ttl_seconds = integer (pos 300);
  requested_quota_units = integer (pos 5);
}

abbrev request : Action → Request
request a = record {
  actor = object administrator;
  request_tenant_id = id;
  action = a;
  resource = object host;
  target = object member;
  requested_pairing_id = id;
  tenant_state = active;
  evaluated_at = integer (pos 20);
}

authorize-IsWithinTenant_example : (actor : Actor) × IsWithinTenant (request lease_issue) actor
unfolding deciding
authorize-IsWithinTenant_example = authorize-IsWithinTenant (request lease_issue) refl

no_escalation_example :
    (t : Target) × ((request role_assign).target ≡ object t)
    × (t.membership_state ≡ active)
    × ((role_of t.role ≡ some operator) ⊎ (role_of t.role ≡ some auditor))
unfolding deciding
no_escalation_example = no_escalation (request role_assign) administrator refl tt refl refl

abbrev provider : Given Principal
provider = object (record { authenticated = true; kind = text (codes "provider_adapter") })

provider_syncs :
    is_allowed (authorize_provider_action provider subscription_sync (text (codes "approved")))
    ≡ true
unfolding deciding
provider_syncs = refl

powers_are_disjoint_example :
    is_allowed (authorize_provider_action provider lease_issue (text (codes "approved"))) ≡ false
unfolding deciding
powers_are_disjoint_example =
    powers_are_disjoint (request lease_issue) provider (text (codes "approved")) refl
