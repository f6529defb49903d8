-- ===== src/Intelligence/Client/Silence.antt =====
-- apps/web/intelligence/client.ts: the client after `dispose`.
use terminus_web.Prelude.{◌≡◌, refl, Bool, true, false, List, [], ◌∷◌, ◌++◌, none, some, all, arith}
use terminus_web.Intelligence.Client.{Client, Action, notifies, rejects, closes, Step, failed}
use terminus_web.Intelligence.Client.Steps.{
  World, load_failed, missing, found, find, open_socket, connect, continue_open, on_message,
  on_proof, on_close, request, time_out, dispose, Event, connect_called, dispose_called,
  handshake_due, retry_due, credential_loaded, message_received, proof_made, socket_failed,
  socket_closed, request_called, request_timed_out, step,
}

-- What is still done after `dispose`: listeners that have been removed are told of a state, calls of
-- `request` are refused, and old sockets closed.
abbrev pub is_quiet : Action → Bool
is_quiet (notifies s) = true
is_quiet (rejects id error) = true
is_quiet (closes s code) = true
is_quiet _ = false

abbrev pub IsEnded : Client → Type 0
IsEnded c =
    (c.disposed ≡ true)
    × (c.socket ≡ none)
    × (c.retry_timer ≡ false)
    × (c.handshake_timer ≡ false)
    × (c.pending ≡ [])

abbrev pub StaysEnded : Step → Type 0
StaysEnded next = IsEnded next.0 × (all is_quiet next.1 ≡ true)

module _ (world : World) where
  step-StaysEnded : (e : Event) (c : Client) → IsEnded c → StaysEnded (step world e c)
  unfolding step connect continue_open on_message on_proof on_close request time_out dispose
      open_socket failed find
  step-StaysEnded connect_called c e = ground arith
  step-StaysEnded dispose_called c (d, s, r, h, p) =
      rw (s, p) ((refl, refl, refl, refl, refl), refl)
  step-StaysEnded handshake_due c e = ground arith
  step-StaysEnded retry_due c e = ground arith
  step-StaysEnded (credential_loaded g load_failed) c e = ground arith
  step-StaysEnded (credential_loaded g missing) c e = ground arith
  step-StaysEnded (credential_loaded g (found s)) c e = ground arith
  step-StaysEnded (message_received s right message now) c e = ground arith
  step-StaysEnded (proof_made s none now) c e = ground arith
  step-StaysEnded (proof_made s (some proof) now) c e = ground arith
  step-StaysEnded (socket_failed s) c e = ground arith
  step-StaysEnded (socket_closed s) c e = ground arith
  step-StaysEnded (request_called id method params sent) c e = ground arith
  step-StaysEnded (request_timed_out id) c e = ground arith

  -- Events in turn, with all that is done.
  unfoldable pub run : List Event → Client → Step
  run [] c = (c, [])
  run (e ∷ es) c =
      let (d, actions) = step world e c in let (last, more) = run es d in (last, actions ++ more)

  all_append :
      (xs ys : List Action)
      → all is_quiet xs ≡ true
      → all is_quiet ys ≡ true
      → all is_quiet (xs ++ ys) ≡ true
  all_append [] ys h k = k
  all_append (x ∷ xs) ys h k = ground (arith, all_append xs ys)

  run-StaysEnded : (es : List Event) (c : Client) → IsEnded c → StaysEnded (run es c)
  unfolding run
  run-StaysEnded [] c e = (e, refl)
  run-StaysEnded (e ∷ es) c h =
      let (ended, quiet) = step-StaysEnded e c h in
      let (last, more) = run-StaysEnded es (step world e c).0 ended in
      (last, all_append (step world e c).1 (run es (step world e c).0).1 quiet more)

  dispose-IsEnded : (c : Client) → IsEnded (dispose world c).0
  unfolding dispose failed
  dispose-IsEnded c = (refl, refl, refl, refl, refl)

  -- After `dispose` the client does nothing more, whatever is called and whatever still happens: no
  -- credential is loaded, no socket opened, no proof made or sent, no request sent or answered and no
  -- retry begun, and it holds no socket, timer or request again.
  pub disposed_is_silent : (es : List Event) (c : Client) → StaysEnded (run es (dispose world c).0)
  disposed_is_silent es c = run-StaysEnded es (dispose world c).0 (dispose-IsEnded c)
