-- ===== src/Adapter/Stale.antt =====
-- protocolTerminalAdapter.ts: the events of a connection that was given up.
use terminus_web.Prelude.{ℕ, ◌≤◌, ◌≡◌, all, Bool, true, false, List, [], ◌∷◌, ◌++◌, Option, Text}
use terminus_web.Json.{Json}
use terminus_web.Machine.State.{Host}
use terminus_web.Connect.Endpoint.{Url}
use terminus_web.Adapter.State.{Adapter, Action, throws, Step}
use terminus_web.Adapter.Events.{
  Event, credential_loaded, socket_opened, socket_failed, socket_closed, connect_timed_out,
  message_received, message_taken, message_applied, frame_applied, save_due, credential_saved,
  proof_computed, response_sent, receive_failed, send_failed, pairing_sent, close_failed,
  reconnect_due, heartbeat_due, step,
}

abbrev pub is_throw : Action → Bool
is_throw (throws v) = true
is_throw _ = false

-- The event was begun under the work or under an older one.
abbrev pub IsOf : ℕ → Event → Type 0
IsOf work (socket_opened s right opened client) = s.work ≤ work
IsOf work (socket_failed s) = s.work ≤ work
IsOf work (socket_closed s) = s.work ≤ work
IsOf work (connect_timed_out s) = s.work ≤ work
IsOf work (message_received s message) = s.work ≤ work
IsOf work (message_taken s message) = s.work ≤ work
IsOf work (message_applied s raw) = s.work ≤ work
IsOf work (frame_applied s p dated) = s.work ≤ work
IsOf work (save_due s id secret expiry) = s.work ≤ work
IsOf work (credential_saved s x) = s.work ≤ work
IsOf work (proof_computed s id proof late) = s.work ≤ work
IsOf work (response_sent s) = s.work ≤ work
IsOf work (receive_failed s opened failure) = s.work ≤ work
IsOf work (credential_loaded w loaded connection_id socket) = w ≤ work
IsOf work (send_failed w opened failure) = w ≤ work
IsOf work (pairing_sent w) = w ≤ work
IsOf work (close_failed w operation x) = w ≤ work
IsOf work (reconnect_due w operation) = w ≤ work
IsOf work (heartbeat_due w silent nonce) = w ≤ work
IsOf work _ = ⊥

module _ (host : Host) (parse_string : Text → Option Text) (parse : Text → Option Json)
    (parse_url : Text → Option Url) (endpoint : Text) where
  abbrev taken : Event → Adapter → Step
  taken e a = step host parse_string parse parse_url endpoint e a

  -- Events in turn, with all that is done.
  unfoldable pub run : List Event → Adapter → Step
  run [] a = (a, [])
  run (e ∷ es) a = let (b, actions) = taken e a in let (c, more) = run es b in (c, actions ++ more)

  -- An event of a connection that is gone changes nothing, and does nothing but throw in a part of
  -- `receive`, of which the `catch` is such an event again.
  abbrev pub IsInert : Adapter → Step → Type 0
  IsInert a next = (next.0 ≡ a) × (all is_throw next.1 ≡ true)
