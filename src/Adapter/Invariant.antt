-- ===== src/Adapter/Invariant.antt =====
-- protocolTerminalAdapter.ts: what holds of the adapter between two events, and that the ends of a
-- connection keep it.
use terminus_web.Prelude.{
  ℕ, ◌≤◌, ◌<◌, ◌≡◌, Bool, true, false, Option, none, some, is_some, arith, Violation,
}
use terminus_web.Recovery.{AdapterState, connected, detaching, replaying, closing}
use terminus_web.Adapter.State.{Socket, Phase, Operation, Adapter, new_adapter}
use terminus_web.Adapter.Connection.{release, is_error, fail, is_idle, handle_transport_close}

-- The states in which a session is attached, or is being left.
abbrev pub is_attached : AdapterState → Bool
is_attached connected = true
is_attached detaching = true
is_attached replaying = true
is_attached closing = true
is_attached _ = false

abbrev pub is_closing : Option Operation → Bool
is_closing none = false
is_closing (some o) = elim o.phase [ Phase.closing ↦ true | Phase.opening ↦ false ]

-- The socket was made under this work or an older one, and under an older one while a new connection
-- waits for its credential.
abbrev pub IsOld : Option Socket → ℕ → Bool → Type 0
IsOld none work loading = Unit
IsOld (some s) work true = s.work < work
IsOld (some s) work false = s.work ≤ work

pub record IsValid (a : Adapter) : Type 0 where
  pub explained : is_error a.state ≡ true → is_some a.error_code ≡ true
  pub has_session : is_attached a.state ≡ true → is_some a.session_id ≡ true
  pub replaced : is_closing a.new_session_operation ≡ true → is_some a.session_id ≡ true
  pub silent : is_idle a.state ≡ true → a.heartbeat_timer ≡ false
  pub silent_loading : a.loading ≡ true → a.heartbeat_timer ≡ false
  pub socket_old : IsOld a.socket a.work a.loading

pub new_adapter-IsValid : IsValid new_adapter
new_adapter-IsValid = ground arith

pub release-IsValid : (a : Adapter) → IsValid a → IsValid (release a).0
unfolding release
release-IsValid a v = ground arith

pub fail-IsValid :
    (opened : Bool) (x : Violation) (a : Adapter) → IsValid a → IsValid (fail opened x a).0
unfolding fail
fail-IsValid opened x a v = ground arith

pub handle_transport_close-IsValid :
    (a : Adapter) → IsValid a → IsValid (handle_transport_close a).0
unfolding handle_transport_close
handle_transport_close-IsValid a v = ground arith
