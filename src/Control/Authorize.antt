-- ===== src/Control/Authorize.antt =====
-- services/control-plane/src/authorization.mjs: `authorize` and `authorizeProviderAction`.
use terminus_web.Prelude.{
  Bool, true, false, not, ◌&&◌, ◌||◌, List, Option, none, some, codes, text_eq, any, if◌then◌else◌,
}
use terminus_web.Control.Values.{Value, is, same, is_uuid}
use terminus_web.Control.Policy.{
  Role, Action, role_assign, role_revoke, lease_issue, subscription_sync, permits, role_of,
  is_admin_managed, known_roles, is_owner, Outcome, type_error, allow, deny, unauthenticated,
  not_found, invalid_request, forbidden, Given, absent, nothing, object, Actor, Resource, Target,
  has_complete_identity,
}
use terminus_web.Control.Lease.{authorize_lease}

-- The fields of a request, with `tenantState` after its default.
pub record Request : Type 0 where
  pub actor : Given Actor
  pub request_tenant_id : Value
  pub action : Action
  pub resource : Given Resource
  pub target : Given Target
  pub requested_pairing_id : Value
  pub tenant_state : Value
  pub evaluated_at : Value

abbrev pub managed_role : List Role → Option Role → Outcome
managed_role roles none = deny invalid_request 422
managed_role roles (some r) =
    if not (any is_owner roles) && not (is_admin_managed r) then deny forbidden 403 else allow

-- `authorizeRoleMutation`
unfoldable pub authorize_role_mutation : List Role → Given Target → Outcome
unfolding text_eq role_of
authorize_role_mutation roles (object t) =
    if not (is (codes "active") t.membership_state)
    then deny invalid_request 422
    else managed_role roles (role_of t.role)
authorize_role_mutation roles _ = deny invalid_request 422

-- The call of `authorizeLease`; without both objects the identity of the action was not complete.
abbrev pub lease_of : Actor → Given Resource → Given Target → Value → Value → Outcome
lease_of actor (object r) (object t) requested now = authorize_lease actor r t requested now
lease_of actor _ _ requested now = deny invalid_request 422

abbrev pub act : Actor → List Role → Request → Action → Outcome
act actor roles q role_assign = authorize_role_mutation roles q.target
act actor roles q role_revoke = authorize_role_mutation roles q.target
act actor roles q lease_issue =
    lease_of actor q.resource q.target q.requested_pairing_id q.evaluated_at
act actor roles q _ = allow

abbrev pub is_sync : Action → Bool
is_sync subscription_sync = true
is_sync _ = false

-- The checks of the states and of the permission, and what follows.
unfoldable pub authorize_active : Actor → Request → Outcome
unfolding text_eq known_roles permits authorize_role_mutation authorize_lease
authorize_active actor q =
    let roles = known_roles actor.roles in
    if not (is (codes "active") actor.membership_state) || not (is (codes "active") q.tenant_state)
    then deny forbidden 403
    else if is_sync q.action
    then deny forbidden 403
    else if not (any (λ r. permits r q.action) roles)
    then deny forbidden 403
    else act actor roles q q.action

-- `x !== undefined && x.tenantId !== requestTenantId`, for the resource and then for the target.
abbrev pub check_target : Given Target → Value → Outcome → Outcome
check_target absent tenant next = next
check_target nothing tenant next = type_error
check_target (object t) tenant next =
    if not (same t.tenant_id tenant) then deny not_found 404 else next

abbrev pub check_resource : Given Resource → Value → Outcome → Outcome
check_resource absent tenant next = next
check_resource nothing tenant next = type_error
check_resource (object r) tenant next =
    if not (same r.tenant_id tenant) then deny not_found 404 else next

-- `authorize` for an actor that is an object.
unfoldable pub authorize_actor : Actor → Request → Outcome
unfolding is_uuid text_eq has_complete_identity authorize_active
authorize_actor actor q =
    if not actor.authenticated
    then deny unauthenticated 401
    else if not (is_uuid q.request_tenant_id)
        || not (is_uuid actor.tenant_id)
        || not (same actor.tenant_id q.request_tenant_id)
    then deny not_found 404
    else if not (is_uuid actor.membership_id)
    then deny invalid_request 422
    else if not (has_complete_identity q.action q.resource q.target q.requested_pairing_id)
    then deny invalid_request 422
    else check_resource q.resource q.request_tenant_id
        (check_target q.target q.request_tenant_id (authorize_active actor q))

-- `authorize`
unfoldable pub authorize : Request → Outcome
unfolding authorize_actor
authorize q = elim q.actor [ object actor ↦ authorize_actor actor q | _ ↦ deny unauthenticated 401 ]

-- `principal`
pub record Principal : Type 0 where
  pub authenticated : Bool
  pub kind : Value

abbrev pub provider_outcome : Bool → Action → Value → Value → Outcome
provider_outcome authenticated action kind activation =
    if not authenticated
    then deny unauthenticated 401
    else if not (is_sync action) || not (is (codes "provider_adapter") kind)
    then deny forbidden 403
    else if not (is (codes "approved") activation)
    then deny forbidden 403
    else allow

-- `authorizeProviderAction`
unfoldable pub authorize_provider_action : Given Principal → Action → Value → Outcome
unfolding text_eq
authorize_provider_action (object p) action activation =
    provider_outcome p.authenticated action p.kind activation
authorize_provider_action _ action activation = deny unauthenticated 401
