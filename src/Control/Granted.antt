-- ===== src/Control/Granted.antt =====
-- services/control-plane/src/authorization.mjs: what an allowed request is known to be.
use terminus_web.Prelude.{
  ◌≡◌, refl, sym, ap, ◌≢◌, ◌⊎◌, inl, inr, Bool, true, false, not, ◌||◌, List, Option, none, some,
  Text, codes, text_eq_iff, any, if◌then◌else◌,
}
use terminus_web.Control.Values.{Value, text, integer, null, undefined, other, is, same, is_uuid}
use terminus_web.Control.Policy.{
  Role, owner, admin, operator, auditor, Action, role_assign, role_revoke, subscription_sync,
  permits, role_of, known_roles, is_owner, Outcome, decision, type_error, deny, not_found, Given,
  absent, nothing, object, Actor, Resource, Target, has_complete_identity,
}
use terminus_web.Control.Authorize.{
  Request, managed_role, authorize_role_mutation, act, is_sync, authorize_active, check_target,
  check_resource, authorize_actor, authorize,
}

abbrev pub is_allowed : Outcome → Bool
is_allowed (decision granted code status) = granted
is_allowed type_error = false

-- A guarded outcome is granted only behind its guard.
pub guarded :
    (b : Bool) (c : Outcome) (next : Outcome)
    → is_allowed c ≡ false
    → is_allowed (if b then c else next) ≡ true
    → (b ≡ false) × (is_allowed next ≡ true)
guarded true c next d h = cc
guarded false c next d h = (refl, h)

pub not-eq-false : (b : Bool) → not b ≡ false → b ≡ true
not-eq-false true h = refl
not-eq-false false h = cc

pub is-eq-true : (t : Text) (v : Value) → is t v ≡ true → v ≡ text t
is-eq-true t (text s) h = ap text ((text_eq_iff s t).0 h)
is-eq-true t (integer n) h = cc
is-eq-true t null h = cc
is-eq-true t undefined h = cc
is-eq-true t other h = cc

pub same-eq-true : (a b : Value) → same a b ≡ true → a ≡ b
same-eq-true (text s) b h = sym (is-eq-true s b h)
same-eq-true (integer n) b h = cc
same-eq-true null b h = cc
same-eq-true undefined b h = cc
same-eq-true other b h = cc

-- A thing that is given belongs to the tenant.
abbrev pub BelongsTo : {A : Type 0} → Value → (A → Value) → Given A → Type 0
BelongsTo tenant tenant_of (object a) = tenant_of a ≡ tenant
BelongsTo tenant tenant_of absent = Unit
BelongsTo tenant tenant_of nothing = ⊥

check_resource-allowed :
    (r : Given Resource) (tenant : Value) (next : Outcome)
    → is_allowed (check_resource r tenant next) ≡ true
    → BelongsTo tenant (λ x. x.tenant_id) r × (is_allowed next ≡ true)
check_resource-allowed absent tenant next h = (tt, h)
check_resource-allowed nothing tenant next h = cc
check_resource-allowed (object r) tenant next h =
    let (e, h') = guarded (not (same r.tenant_id tenant)) (deny not_found 404) next refl h in
    (same-eq-true r.tenant_id tenant (not-eq-false _ e), h')

check_target-allowed :
    (t : Given Target) (tenant : Value) (next : Outcome)
    → is_allowed (check_target t tenant next) ≡ true
    → BelongsTo tenant (λ x. x.tenant_id) t × (is_allowed next ≡ true)
check_target-allowed absent tenant next h = (tt, h)
check_target-allowed nothing tenant next h = cc
check_target-allowed (object t) tenant next h =
    let (e, h') = guarded (not (same t.tenant_id tenant)) (deny not_found 404) next refl h in
    (same-eq-true t.tenant_id tenant (not-eq-false _ e), h')

-- What holds of every allowed request, whatever its action.
pub record IsWithinTenant (q : Request) (actor : Actor) : Type 0 where
  pub acting : q.actor ≡ object actor
  pub authenticated : actor.authenticated ≡ true
  pub own_tenant : actor.tenant_id ≡ q.request_tenant_id
  pub own_resource : BelongsTo q.request_tenant_id (λ x. x.tenant_id) q.resource
  pub own_target : BelongsTo q.request_tenant_id (λ x. x.tenant_id) q.target
  pub active :
      (actor.membership_state ≡ text (codes "active")) × (q.tenant_state ≡ text (codes "active"))
  pub no_sync : q.action ≢ subscription_sync
  pub permitted : any (λ r. permits r q.action) (known_roles actor.roles) ≡ true
  pub acted : is_allowed (act actor (known_roles actor.roles) q q.action) ≡ true

or-eq-false : (a b : Bool) → (a || b) ≡ false → (a ≡ false) × (b ≡ false)
or-eq-false true b h = cc
or-eq-false false b h = (refl, h)

not_sync : (a : Action) → is_sync a ≡ false → a ≢ subscription_sync
not_sync a h e = cc (rw e at h)

authorize_actor-IsWithinTenant :
    (q : Request) (actor : Actor)
    → q.actor ≡ object actor
    → is_allowed (authorize_actor actor q) ≡ true
    → IsWithinTenant q actor
unfolding authorize_actor authorize_active
authorize_actor-IsWithinTenant q actor e h =
    let (a, h1) = guarded (not actor.authenticated) _ _ refl h in
    let (b, h2) =
      guarded
        (not (is_uuid q.request_tenant_id)
          || not (is_uuid actor.tenant_id)
          || not (same actor.tenant_id q.request_tenant_id))
        _ _ refl h1 in
    let (c, h3) = guarded (not (is_uuid actor.membership_id)) _ _ refl h2 in
    let (d, h4) =
      guarded (not (has_complete_identity q.action q.resource q.target q.requested_pairing_id)) _ _
        refl h3 in
    let (r, h5) = check_resource-allowed q.resource q.request_tenant_id _ h4 in
    let (t, h6) = check_target-allowed q.target q.request_tenant_id _ h5 in
    let (s, h7) =
      guarded
        (not (is (codes "active") actor.membership_state)
          || not (is (codes "active") q.tenant_state))
        _ _ refl h6 in
    let (y, h8) = guarded (is_sync q.action) _ _ refl h7 in
    let (p, h9) =
      guarded (not (any (λ r. permits r q.action) (known_roles actor.roles))) _ _ refl h8 in
    let (m, n) = or-eq-false _ _ s in
    record {
      acting = e;
      authenticated = not-eq-false _ a;
      own_tenant = same-eq-true actor.tenant_id q.request_tenant_id (
          not-eq-false _
            (or-eq-false (not (is_uuid q.request_tenant_id) || not (is_uuid actor.tenant_id))
              (not (same actor.tenant_id q.request_tenant_id)) b).1);
      own_resource = r;
      own_target = t;
      active = (
        is-eq-true (codes "active") _ (not-eq-false _ m),
        is-eq-true (codes "active") _ (not-eq-false _ n),
      );
      no_sync = not_sync q.action y;
      permitted = not-eq-false _ p;
      acted = h9;
    }

-- Whatever the action, a request is allowed only to an authenticated member of the tenant that the
-- request names, on things of that tenant, while the membership and the tenant are active, and by a
-- permission of a role that the member has. The provider's action is allowed to no member.
pub authorize-IsWithinTenant :
    (q : Request) → is_allowed (authorize q) ≡ true → (actor : Actor) × IsWithinTenant q actor
unfolding authorize
authorize-IsWithinTenant q h = elim (given_cases q.actor) [
  | inl (actor, e) ↦ (actor, authorize_actor-IsWithinTenant q actor e (rw e at h))
  | inr (inl e) ↦ cc (rw e at h)
  | inr (inr e) ↦ cc (rw e at h)
]
  where
    given_cases :
        {A : Type 0} (g : Given A) → ((a : A) × (g ≡ object a)) ⊎ ((g ≡ absent) ⊎ (g ≡ nothing))
    given_cases (object a) = inl (a, refl)
    given_cases absent = inr (inl refl)
    given_cases nothing = inr (inr refl)

abbrev pub IsRoleChange : Action → Type 0
IsRoleChange role_assign = Unit
IsRoleChange role_revoke = Unit
IsRoleChange _ = ⊥

role_change :
    (a : Action) (actor : Actor) (roles : List Role) (q : Request)
    → IsRoleChange a
    → act actor roles q a ≡ authorize_role_mutation roles q.target
role_change role_assign actor roles q c = refl
role_change role_revoke actor roles q c = refl
role_change _ actor roles q c = absurd c

managed_role-allowed :
    (roles : List Role) (o : Option Role)
    → any is_owner roles ≡ false
    → is_allowed (managed_role roles o) ≡ true
    → (o ≡ some operator) ⊎ (o ≡ some auditor)
managed_role-allowed roles none n h = cc
managed_role-allowed roles (some owner) n h = cc (rw n at h)
managed_role-allowed roles (some admin) n h = cc (rw n at h)
managed_role-allowed roles (some operator) n h = inl refl
managed_role-allowed roles (some auditor) n h = inr refl

mutation-allowed :
    (roles : List Role) (g : Given Target)
    → any is_owner roles ≡ false
    → is_allowed (authorize_role_mutation roles g) ≡ true
    → (t : Target) × (g ≡ object t)
      × (t.membership_state ≡ text (codes "active"))
      × ((role_of t.role ≡ some operator) ⊎ (role_of t.role ≡ some auditor))
unfolding authorize_role_mutation
mutation-allowed roles (object t) n h =
    let (a, h') = guarded (not (is (codes "active") t.membership_state)) _ _ refl h in
    (
      t,
      refl,
      is-eq-true (codes "active") _ (not-eq-false _ a),
      managed_role-allowed roles (role_of t.role) n h',
    )
mutation-allowed roles absent n h = cc
mutation-allowed roles nothing n h = cc

-- Who is no owner may assign or revoke nothing but the roles of operators and auditors, and that of
-- an active membership: an administrator makes nobody an administrator or an owner.
pub no_escalation :
    (q : Request) (actor : Actor)
    → q.actor ≡ object actor
    → IsRoleChange q.action
    → any is_owner (known_roles actor.roles) ≡ false
    → is_allowed (authorize q) ≡ true
    → (t : Target) × (q.target ≡ object t)
      × (t.membership_state ≡ text (codes "active"))
      × ((role_of t.role ≡ some operator) ⊎ (role_of t.role ≡ some auditor))
no_escalation q actor e c n h =
    let (member, w) = authorize-IsWithinTenant q h in
    let same_actor : member ≡ actor = cc (w.acting, e) in
    let acted : is_allowed (act actor (known_roles actor.roles) q q.action) ≡ true =
      rw (← same_actor) w.acted in
    mutation-allowed (known_roles actor.roles) q.target n
      (rw (role_change q.action actor (known_roles actor.roles) q c) at acted)
