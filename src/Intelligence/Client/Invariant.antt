-- ===== src/Intelligence/Client/Invariant.antt =====
-- apps/web/intelligence/client.ts: what holds of the client between two events.
use terminus_web.Prelude.{
  ℕ, suc, ◌+◌, ◌≤◌, ◌≡◌, refl, inl, inr, Bool, true, false, not, ◌&&◌, List, [], ◌∷◌, Option, none,
  some, is_some, Text, length, ◌==◌, Bool-cases, if◌then◌else◌, arith,
}
use terminus_web.Json.{Json, Fields}
use terminus_web.Intelligence.Answers.{Method}
use terminus_web.Intelligence.Client.{
  Phase, awaiting_challenge, signing, active, Channel, Pending, Client, new_client, Step, failed,
}
use terminus_web.Intelligence.Client.Messages.{
  Challenge, Answer, accepted, refused, read_frame, read_challenge, read_answer,
}
use terminus_web.Intelligence.Client.Steps.{
  World, Loaded, load_failed, missing, found, is_ready_state, settled_by, challenged, at_socket,
  answered, id_of, by_phase, on_frame, find, remove, put, open_socket, connect, continue_open,
  on_message, on_proof, on_close, request, time_out, dispose, Event, connect_called, dispose_called,
  handshake_due, retry_due, credential_loaded, message_received, proof_made, socket_failed,
  socket_closed, request_called, request_timed_out, step,
}

abbrev pub is_active : Option Channel → Bool
is_active none = false
is_active (some ch) = elim ch.phase [ active ↦ true | _ ↦ false ]

abbrev pub count_of : Bool → ℕ
count_of false = 0
count_of true = 1

pub record IsValid (c : Client) : Type 0 where
  pub bounded : length c.pending ≤ 5
  pub attempts_bounded : c.attempts ≤ 3
  pub ready_active : is_ready_state c.state && not c.disposed ≡ true → is_active c.socket ≡ true
  pub pending_active : is_active c.socket ≡ false → c.pending ≡ []
  pub one_attempt : count_of c.loading + count_of c.retry_timer + count_of (is_some c.socket) ≤ 1
  pub disposed_idle :
      c.disposed ≡ true
      → count_of c.loading
          + count_of c.retry_timer
          + count_of c.handshake_timer
          + count_of (is_some c.socket)
        ≡ 0

pub new_client-IsValid : IsValid new_client
new_client-IsValid = ground arith

length-remove_le : (id : Text) (ps : List Pending) → length (remove id ps) ≤ length ps
unfolding remove
length-remove_le id [] = omega arith
length-remove_le id (p ∷ ps) = ground (arith, length-remove_le id ps)

length-put_le : (p : Pending) (ps : List Pending) → length (put p ps) ≤ suc (length ps)
unfolding put
length-put_le p [] = omega arith
length-put_le p (q ∷ qs) = ground (arith, length-put_le p qs)

find-none : (id : Text) (ps : List Pending) → ps ≡ [] → find id ps ≡ none
unfolding find
find-none id ps e = rw e refl

unless-IsValid :
    (b : Bool) (c : Client) (next : Step)
    → IsValid c
    → (b ≡ false → IsValid next.0)
    → IsValid (if b then (c, []) else next).0
unless-IsValid true c next v k = v
unless-IsValid false c next v k = k refl

module _ (world : World) where
  open_socket-IsValid :
      (c : Client)
      → IsValid c
      → c.retry_timer ≡ false
      → c.socket ≡ none
      → IsValid (open_socket world c).0
  unfolding open_socket
  open_socket-IsValid c v r s = ground arith

  connect-IsValid : (c : Client) → IsValid c → IsValid (connect world c).0
  unfolding connect
  connect-IsValid c v = ground arith

  continue_open-IsValid :
      (g : ℕ) (l : Loaded) (c : Client) → IsValid c → IsValid (continue_open world g l c).0
  unfolding continue_open failed
  continue_open-IsValid g load_failed c v = ground arith
  continue_open-IsValid g missing c v = ground arith
  continue_open-IsValid g (found none) c v = ground arith
  continue_open-IsValid g (found (some s)) c v = ground arith

  settled_by-IsValid :
      (ch : Channel) (p : Option Pending) (a : Answer) (c : Client)
      → is_active c.socket ≡ true
      → IsValid c
      → IsValid (settled_by world ch p a c).0
  settled_by-IsValid ch none a c e v = v
  settled_by-IsValid ch (some p) (accepted id x) c e v =
      ground (arith, length-remove_le id c.pending)
  settled_by-IsValid ch (some p) (refused id x) c e v =
      ground (arith, length-remove_le id c.pending)

  answered-IsValid :
      (ch : Channel) (a : Option Answer) (c : Client)
      → is_active c.socket ≡ true
      → IsValid c
      → IsValid (answered world ch a c).0
  answered-IsValid ch none c e v = v
  answered-IsValid ch (some a) c e v =
      settled_by-IsValid ch (find (id_of world a) c.pending) a c e v

  challenged-IsValid :
      (ch : Channel) (x : Option Challenge) (c : Client)
      → IsValid c
      → c.disposed ≡ false
      → c.socket ≡ some ch
      → ch.phase ≡ awaiting_challenge
      → IsValid (challenged world ch x c).0
  challenged-IsValid ch none c v d e f = v
  challenged-IsValid ch (some x) c v d e f = ground arith

  by_phase-IsValid :
      (now : ℕ) (ch : Channel) (p : Phase) (frame : Fields) (c : Client)
      → IsValid c
      → c.disposed ≡ false
      → c.socket ≡ some ch
      → ch.phase ≡ p
      → IsValid (by_phase world now ch p frame c).0
  by_phase-IsValid now ch awaiting_challenge frame c v d e f =
      challenged-IsValid ch (read_challenge world.date_value now frame) c v d e f
  by_phase-IsValid now ch (signing expiry) frame c v d e f = v
  by_phase-IsValid now ch Phase.ready frame c v d e f = ground arith
  by_phase-IsValid now ch active frame c v d e f =
      answered-IsValid ch (read_answer frame) c (rw (e, f) refl) v

  on_frame-IsValid :
      (now : ℕ) (ch : Channel) (frame : Option Fields) (c : Client)
      → IsValid c
      → c.disposed ≡ false
      → c.socket ≡ some ch
      → IsValid (on_frame world now ch frame c).0
  on_frame-IsValid now ch none c v d e = v
  on_frame-IsValid now ch (some frame) c v d e = by_phase-IsValid now ch ch.phase frame c v d e refl

  at_socket-IsValid :
      (o : Option Channel) (s : ℕ) (f : Channel → Step) (c : Client)
      → IsValid c
      → c.socket ≡ o
      → ((ch : Channel) → c.socket ≡ some ch → IsValid (f ch).0)
      → IsValid (at_socket world o s f c).0
  at_socket-IsValid none s f c v e k = v
  at_socket-IsValid (some ch) s f c v e k = elim (Bool-cases (ch.id == s)) [
    | inl i ↦ rw i (k ch e)
    | inr i ↦ rw i v
  ]

  on_message-IsValid :
      (s : ℕ) (right : Bool) (message : Option Text) (now : ℕ) (c : Client)
      → IsValid c
      → IsValid (on_message world s right message now c).0
  unfolding on_message
  on_message-IsValid s right message now c v =
      unless-IsValid c.disposed c
        (at_socket world c.socket s
          (λ ch. on_frame world now ch (read_frame world.parse right message) c) c)
        v
        (λ d.
          at_socket-IsValid c.socket s
            (λ ch. on_frame world now ch (read_frame world.parse right message) c) c v refl
            (λ ch e. on_frame-IsValid now ch (read_frame world.parse right message) c v d e))

  on_proof-IsValid :
      (s : ℕ) (proof : Option Text) (now : ℕ) (c : Client)
      → IsValid c
      → IsValid (on_proof world s proof now c).0
  unfolding on_proof
  on_proof-IsValid s none now c v = v
  on_proof-IsValid s (some proof) now c v = ground arith

  on_close-IsValid : (s : ℕ) (c : Client) → IsValid c → IsValid (on_close world s c).0
  unfolding on_close failed
  on_close-IsValid s c v = ground arith

  request-IsValid :
      (id : Text) (method : Method) (params : Json) (sent : Bool) (c : Client)
      → IsValid c
      → IsValid (request world id method params sent c).0
  unfolding request
  request-IsValid id method params sent c v =
      let p : Pending = record { id = id; method = method } in
      ground (arith, length-put_le p c.pending, length-remove_le id (put p c.pending))

  time_out-IsValid : (id : Text) (c : Client) → IsValid c → IsValid (time_out world id c).0
  unfolding time_out
  time_out-IsValid id c v = ground (arith, length-remove_le id c.pending, find-none id c.pending)

  dispose-IsValid : (c : Client) → IsValid c → IsValid (dispose world c).0
  unfolding dispose failed
  dispose-IsValid c v = ground arith

  -- Every call, message, timer and promise keeps what holds of the client: at most five requests are
  -- pending and three attempts made, requests are pending only on a socket that is authenticated, and
  -- until `dispose` the state is "ready" only with such a socket. At most one of these is there: a
  -- socket, the wait to retry, and the wait for the credential of the current generation (a load that
  -- a newer generation has overtaken is not counted). After `dispose` there is no socket, no such wait
  -- and no timer.
  pub step_client-IsValid : (e : Event) (c : Client) → IsValid c → IsValid (step world e c).0
  unfolding step open_socket
  step_client-IsValid connect_called c v = connect-IsValid c v
  step_client-IsValid dispose_called c v = dispose-IsValid c v
  step_client-IsValid handshake_due c v = ground arith
  step_client-IsValid retry_due c v = ground arith
  step_client-IsValid (credential_loaded g l) c v = continue_open-IsValid g l c v
  step_client-IsValid (message_received s right message now) c v =
      on_message-IsValid s right message now c v
  step_client-IsValid (proof_made s proof now) c v = on_proof-IsValid s proof now c v
  step_client-IsValid (socket_failed s) c v = v
  step_client-IsValid (socket_closed s) c v = on_close-IsValid s c v
  step_client-IsValid (request_called id method params sent) c v =
      request-IsValid id method params sent c v
  step_client-IsValid (request_timed_out id) c v = time_out-IsValid id c v
