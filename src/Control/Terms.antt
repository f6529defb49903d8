-- ===== src/Control/Terms.antt =====
-- services/control-plane/src/authorization.mjs: the terms of an allowed lease.
use terminus_web.Prelude.{ℕ, ◌≤◌, ◌≡◌, refl, ◌≢◌, ◌⊎◌, true, false, codes, any, arith}
use terminus_web.Control.Values.{ℤ, pos, le_int, lt_int, Value, text, integer, null, same}
use terminus_web.Control.Policy.{
  Action, subscription_sync, Given, absent, nothing, object, Actor, Resource, Target,
}
use terminus_web.Control.Authorize.{
  Request, is_sync, authorize, Principal, authorize_provider_action,
}
use terminus_web.Control.Granted.{is_allowed, authorize-IsWithinTenant}

-- An amount from one up to a bound.
abbrev pub IsAmount : Value → ℕ → Type 0
IsAmount v bound = (n : ℕ) × (v ≡ integer (pos n)) × (1 ≤ n) × (n ≤ bound)

-- A point in time that is reached, and one that lies ahead.
abbrev pub IsReached : ℤ → Value → Type 0
IsReached now v = (t : ℤ) × (v ≡ integer t) × (le_int t now ≡ true)

abbrev pub IsAhead : ℤ → Value → Type 0
IsAhead now v = (t : ℤ) × (v ≡ integer t) × (lt_int now t ≡ true)

pub record AreTerms (q : Request) (actor : Actor) (r : Resource) (t : Target) : Type 0 where
  pub on_resource : q.resource ≡ object r
  pub on_target : q.target ≡ object t
  pub now : ℤ
  pub evaluated : q.evaluated_at ≡ integer now
  pub lifetime : IsAmount t.requested_ttl_seconds 300
  pub available : ℕ
  pub balance : actor.available_quota_units ≡ integer (pos available)
  pub quota : IsAmount t.requested_quota_units available
  pub host_active :
      (r.host_state ≡ text (codes "active")) × (r.device_key_state ≡ text (codes "active"))
  pub key_valid : IsReached now r.device_key_valid_after × IsAhead now r.device_key_expires_at
  pub confirmed : t.pairing_state ≡ text (codes "confirmed")
  pub own_pairing :
      (t.pairing_id ≡ q.requested_pairing_id)
      × (t.pairing_membership_id ≡ actor.membership_id)
      × (t.pairing_host_id ≡ r.host_id)
  pub pairing_valid : IsAhead now t.pairing_expires_at
  pub entitled : any (same t.entitlement_key) actor.entitlements ≡ true
  pub entitlement_active : t.entitlement_state ≡ text (codes "active")
  pub entitlement_valid :
      IsReached now t.entitlement_starts_at
      × ((t.entitlement_ends_at ≡ null) ⊎ IsAhead now t.entitlement_ends_at)

provider_needs_sync :
    (g : Given Principal) (action : Action) (activation : Value)
    → is_sync action ≡ false
    → is_allowed (authorize_provider_action g action activation) ≡ false
unfolding authorize_provider_action
provider_needs_sync (object p) action activation n = rw n (ground arith)
provider_needs_sync absent action activation n = refl
provider_needs_sync nothing action activation n = refl

sync_of : (a : Action) → a ≢ subscription_sync → is_sync a ≡ false
sync_of subscription_sync n = absurd (n refl)
sync_of _ n = refl

-- What is allowed to a member is allowed to no provider, whatever the principal and the activation.
pub powers_are_disjoint :
    (q : Request) (g : Given Principal) (activation : Value)
    → is_allowed (authorize q) ≡ true
    → is_allowed (authorize_provider_action g q.action activation) ≡ false
powers_are_disjoint q g activation h =
    let (actor, w) = authorize-IsWithinTenant q h in
    provider_needs_sync g q.action activation (sync_of q.action w.no_sync)
