-- ===== src/Control/Policy.antt =====
-- services/control-plane/src/authorization.mjs: roles, their permissions, decisions, and the check
-- that a request names what its action needs.
use terminus_web.Prelude.{
  ℕ, Bool, true, false, ◌&&◌, List, [], ◌∷◌, Option, none, some, codes, text_eq, if◌then◌else◌,
}
use terminus_web.Control.Values.{Value, is, same, is_uuid}

pub data Role : Type 0 where
  owner admin operator auditor : Role

-- The actions that the source names, and any other text.
pub data Action : Type 0 where
  membership_read role_assign role_revoke host_read host_manage device_key_manage : Action
  pairing_create pairing_revoke lease_issue audit_read subscription_sync unknown : Action

-- `ROLE_PERMISSIONS[role].has(action)`
unfoldable pub permits : Role → Action → Bool
permits _ subscription_sync = false
permits _ unknown = false
permits owner _ = true
permits admin _ = true
permits operator host_read = true
permits operator pairing_create = true
permits operator pairing_revoke = true
permits operator lease_issue = true
permits operator _ = false
permits auditor host_read = true
permits auditor audit_read = true
permits auditor _ = false

-- `KNOWN_ROLES.has(role)`, with the role.
unfoldable pub role_of : Value → Option Role
unfolding text_eq
role_of v =
    if is (codes "owner") v
    then some owner
    else if is (codes "admin") v
    then some admin
    else if is (codes "operator") v
    then some operator
    else if is (codes "auditor") v
    then some auditor
    else none

-- `ADMIN_MANAGED_ROLES.has(role)`
abbrev pub is_admin_managed : Role → Bool
is_admin_managed operator = true
is_admin_managed auditor = true
is_admin_managed _ = false

abbrev pub keep_known : Option Role → List Role → List Role
keep_known none rs = rs
keep_known (some r) rs = r ∷ rs

-- The known ones of the actor's roles, in their order; a repeated one does no harm.
unfoldable pub known_roles : List Value → List Role
unfolding role_of
known_roles [] = []
known_roles (v ∷ vs) = keep_known (role_of v) (known_roles vs)

abbrev pub is_owner : Role → Bool
is_owner owner = true
is_owner _ = false

pub data Code : Type 0 where
  allowed unauthenticated not_found invalid_request forbidden conflict : Code

-- `decision(allowed, code, status)`, or the TypeError of reading a property of `null`.
pub data Outcome : Type 0 where
  decision : (granted : Bool) (code : Code) (status : ℕ) → Outcome
  type_error : Outcome

-- `ALLOW`
abbrev pub allow : Outcome
allow = decision true allowed 200

abbrev pub deny : Code → ℕ → Outcome
deny = decision false

-- An argument that may be missing: `undefined`, `null` or an object.
pub data Given (A : Type 0) : Type 0 where
  absent nothing : Given A
  object : A → Given A

-- `actor`; a value of `roles` or `entitlements` that is no text belongs to no set.
pub record Actor : Type 0 where
  pub authenticated : Bool
  pub tenant_id : Value
  pub membership_id : Value
  pub membership_state : Value
  pub roles : List Value
  pub entitlements : List Value
  pub available_quota_units : Value

-- `resource`
pub record Resource : Type 0 where
  pub tenant_id : Value
  pub host_id : Value
  pub device_key_id : Value
  pub host_state : Value
  pub device_key_state : Value
  pub device_key_valid_after : Value
  pub device_key_expires_at : Value

-- `target`
pub record Target : Type 0 where
  pub tenant_id : Value
  pub membership_id : Value
  pub membership_state : Value
  pub role : Value
  pub pairing_id : Value
  pub pairing_membership_id : Value
  pub pairing_host_id : Value
  pub pairing_state : Value
  pub pairing_expires_at : Value
  pub entitlement_key : Value
  pub entitlement_state : Value
  pub entitlement_starts_at : Value
  pub entitlement_ends_at : Value
  pub requested_ttl_seconds : Value
  pub requested_quota_units : Value

-- `hasUuidFields`, with the test of the fields.
abbrev pub has_fields : {A : Type 0} → Given A → (A → Bool) → Bool
has_fields (object a) test = test a
has_fields _ test = false

abbrev pub names_host : Resource → Bool
names_host r = is_uuid r.tenant_id && is_uuid r.host_id

abbrev pub names_device_key : Resource → Bool
names_device_key r = is_uuid r.tenant_id && is_uuid r.host_id && is_uuid r.device_key_id

abbrev pub names_membership : Target → Bool
names_membership t = is_uuid t.tenant_id && is_uuid t.membership_id

abbrev pub names_pairing : Value → Target → Bool
names_pairing requested t =
    is_uuid t.tenant_id
    && is_uuid t.pairing_id
    && is_uuid t.pairing_membership_id
    && is_uuid t.pairing_host_id
    && is_uuid requested
    && same t.pairing_id requested
    && is (codes "terminal_access") t.entitlement_key

-- `hasCompleteActionIdentity`
unfoldable pub has_complete_identity : Action → Given Resource → Given Target → Value → Bool
unfolding is_uuid
has_complete_identity role_assign resource target requested = has_fields target names_membership
has_complete_identity role_revoke resource target requested = has_fields target names_membership
has_complete_identity lease_issue resource target requested =
    has_fields resource names_device_key && has_fields target (names_pairing requested)
has_complete_identity host_read resource target requested = has_fields resource names_host
has_complete_identity host_manage resource target requested = has_fields resource names_host
has_complete_identity pairing_create resource target requested = has_fields resource names_host
has_complete_identity pairing_revoke resource target requested = has_fields resource names_host
has_complete_identity device_key_manage resource target requested =
    has_fields resource names_device_key
has_complete_identity membership_read resource target requested =
    has_fields resource (λ r. is_uuid r.tenant_id)
has_complete_identity audit_read resource target requested =
    has_fields resource (λ r. is_uuid r.tenant_id)
has_complete_identity _ resource target requested = true
