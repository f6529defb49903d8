-- ===== src/Intelligence/Client/Settlement.antt =====
-- apps/web/intelligence/client.ts: every request is settled, once.
use terminus_web.Prelude.{
  ℕ, ◌+◌, ◌≡◌, refl, ap, inl, inr, Bool, false, [], map, Option, none, some, is_some, Text,
  Bool-cases, arith,
}
use terminus_web.Json.{Json, Fields}
use terminus_web.Intelligence.Answers.{Method}
use terminus_web.Intelligence.Client.{
  Phase, awaiting_challenge, signing, active, Channel, Pending, Client, new_client, reject_pending,
  Step, retried, failed,
}
use terminus_web.Intelligence.Client.Messages.{Answer, accepted, refused, read_frame, read_answer}
use terminus_web.Intelligence.Client.Steps.{
  World, Loaded, load_failed, missing, found, settled_by, at_socket, answered, id_of, by_phase,
  on_frame, find, open_socket, connect, continue_open, on_message, on_proof, on_close, request,
  time_out, close_channel, ended, dispose, Event, connect_called, dispose_called, handshake_due,
  retry_due, credential_loaded, message_received, proof_made, socket_failed, socket_closed,
  request_called, request_timed_out, step,
}
use terminus_web.Intelligence.Client.Counts.{
  same, count, settlements, settlements-append, settlements-reject_pending, count-remove, count-put,
  remove-put,
}

-- The requests of the id `t` that are asked for and those that are pending are the ones that are
-- settled and those that are pending then.
abbrev pub Balances : Text → ℕ → Client → Step → Type 0
Balances t asked c next = asked + count t c.pending ≡ settlements t next.1 + count t next.0.pending

failed-Balances : (t : Text) (c : Client) → Balances t 0 c (failed c)
unfolding failed
failed-Balances t c = ground (
  arith,
  settlements-append t (map reject_pending c.pending) (retried (record c { pending = [] })).1,
  settlements-reject_pending t c.pending,
)

module _ (world : World) where
  open_socket-Balances : (t : Text) (c : Client) → Balances t 0 c (open_socket world c)
  unfolding open_socket
  open_socket-Balances t c = ground arith

  connect-Balances : (t : Text) (c : Client) → Balances t 0 c (connect world c)
  unfolding connect open_socket
  connect-Balances t c = ground arith

  settled_by-Balances :
      (t : Text) (ch : Channel) (p : Option Pending) (a : Answer) (c : Client)
      → find (id_of world a) c.pending ≡ p
      → Balances t 0 c (settled_by world ch p a c)
  settled_by-Balances t ch none a c e = omega arith
  settled_by-Balances t ch (some p) (accepted id x) c e =
      ground (arith, count-remove t id c.pending (rw e refl))
  settled_by-Balances t ch (some p) (refused id x) c e =
      ground (arith, count-remove t id c.pending (rw e refl))

  continue_open-Balances :
      (t : Text) (g : ℕ) (l : Loaded) (c : Client) → Balances t 0 c (continue_open world g l c)
  unfolding continue_open
  continue_open-Balances t g load_failed c = ground arith
  continue_open-Balances t g missing c = ground arith
  continue_open-Balances t g (found none) c =
      ground (arith, failed-Balances t (record c { loading = false }))
  continue_open-Balances t g (found (some s)) c = ground arith

  answered-Balances :
      (t : Text) (ch : Channel) (a : Option Answer) (c : Client)
      → Balances t 0 c (answered world ch a c)
  answered-Balances t ch none c = omega arith
  answered-Balances t ch (some a) c =
      settled_by-Balances t ch (find (id_of world a) c.pending) a c refl

  by_phase-Balances :
      (t : Text) (now : ℕ) (ch : Channel) (p : Phase) (frame : Fields) (c : Client)
      → Balances t 0 c (by_phase world now ch p frame c)
  by_phase-Balances t now ch awaiting_challenge frame c = ground arith
  by_phase-Balances t now ch (signing expiry) frame c = omega arith
  by_phase-Balances t now ch Phase.ready frame c = ground arith
  by_phase-Balances t now ch active frame c = answered-Balances t ch (read_answer frame) c

  on_frame-Balances :
      (t : Text) (now : ℕ) (ch : Channel) (frame : Option Fields) (c : Client)
      → Balances t 0 c (on_frame world now ch frame c)
  on_frame-Balances t now ch none c = omega arith
  on_frame-Balances t now ch (some frame) c = by_phase-Balances t now ch ch.phase frame c

  at_socket-Balances :
      (t : Text) (o : Option Channel) (s : ℕ) (f : Channel → Step) (c : Client)
      → ((ch : Channel) → Balances t 0 c (f ch))
      → Balances t 0 c (at_socket world o s f c)
  at_socket-Balances t none s f c k = omega arith
  at_socket-Balances t (some ch) s f c k = ground (arith, k ch)

  on_message-Balances :
      (t : Text) (s : ℕ) (right : Bool) (message : Option Text) (now : ℕ) (c : Client)
      → Balances t 0 c (on_message world s right message now c)
  unfolding on_message
  on_message-Balances t s right message now c =
      let f : Channel → Step =
        λ ch. on_frame world now ch (read_frame world.parse right message) c in
      ground (
        arith,
        at_socket-Balances t c.socket s f c
            (λ ch. on_frame-Balances t now ch (read_frame world.parse right message) c),
      )

  on_proof-Balances :
      (t : Text) (s : ℕ) (proof : Option Text) (now : ℕ) (c : Client)
      → Balances t 0 c (on_proof world s proof now c)
  unfolding on_proof
  on_proof-Balances t s none now c = omega arith
  on_proof-Balances t s (some proof) now c = ground arith

  on_close-Balances : (t : Text) (s : ℕ) (c : Client) → Balances t 0 c (on_close world s c)
  unfolding on_close
  on_close-Balances t s c =
      ground (arith, failed-Balances t (record c { socket = none; handshake_timer = false }))

  request-Balances :
      (t id : Text) (method : Method) (params : Json) (sent : Bool) (c : Client)
      → is_some (find id c.pending) ≡ false
      → Balances t (same id t) c (request world id method params sent c)
  unfolding request
  request-Balances t id method params sent c h =
      let p : Pending = record { id = id; method = method } in
      ground (arith, count-put t p c.pending h, ap (count t) (remove-put p c.pending h))

  time_out-Balances : (t id : Text) (c : Client) → Balances t 0 c (time_out world id c)
  unfolding time_out
  time_out-Balances t id c = elim (Bool-cases (is_some (find id c.pending))) [
    | inl e ↦ ground (arith, count-remove t id c.pending e)
    | inr e ↦ ground arith
  ]

  dispose-Balances : (t : Text) (c : Client) → Balances t 0 c (dispose world c)
  unfolding dispose
  dispose-Balances t c = ground (
    arith,
    failed-Balances t (ended c),
    settlements-append t (close_channel world c.socket 1000) (failed (ended c)).1,
  )

  dispose_empties : (c : Client) → (dispose world c).0.pending ≡ []
  unfolding dispose failed
  dispose_empties c = refl

  -- The id of a request is a new one: `crypto.randomUUID`.
  abbrev pub IsFresh : Event → Client → Type 0
  IsFresh (request_called id method params sent) c = is_some (find id c.pending) ≡ false
  IsFresh _ c = Unit

  abbrev pub asks : Text → Event → ℕ
  asks t (request_called id method params sent) = same id t
  asks t _ = 0

  step-Balances :
      (t : Text) (e : Event) (c : Client) → IsFresh e c → Balances t (asks t e) c (step world e c)
  unfolding step
  step-Balances t connect_called c f = connect-Balances t c
  step-Balances t dispose_called c f = dispose-Balances t c
  step-Balances t handshake_due c f = ground arith
  step-Balances t retry_due c f =
      ground (arith, open_socket-Balances t (record c { retry_timer = false }))
  step-Balances t (credential_loaded g l) c f = continue_open-Balances t g l c
  step-Balances t (message_received s right message now) c f =
      on_message-Balances t s right message now c
  step-Balances t (proof_made s proof now) c f = on_proof-Balances t s proof now c
  step-Balances t (socket_failed s) c f = omega arith
  step-Balances t (socket_closed s) c f = on_close-Balances t s c
  step-Balances t (request_called id method params sent) c f =
      request-Balances t id method params sent c f
  step-Balances t (request_timed_out id) c f = time_out-Balances t id c

  -- The clients that are reached from a client, with how often a request of the id `t` was asked for
  -- and how often one was settled.
  pub data Run (t : Text) : Client → Client → ℕ → ℕ → Type 0 where
    stay : {c : Client} → Run t c c 0 0
    on :
        {c d : Client} {asked settled : ℕ} (e : Event)
        → IsFresh e c
        → Run t (step world e c).0 d asked settled
        → Run t c d (asks t e + asked) (settlements t (step world e c).1 + settled)

  run-Balances :
      {t : Text} {c d : Client} {asked settled : ℕ}
      → Run t c d asked settled
      → asked + count t c.pending ≡ settled + count t d.pending
  run-Balances stay = omega arith
  run-Balances {t} {c} (on e f r) = omega (arith, step-Balances t e c f, run-Balances r)

  -- Whatever happens to a new client, every request of every id is resolved or rejected exactly once
  -- for each time that it was asked for, at the latest by `dispose`, after which none is pending. The
  -- ids are new while they are pending.
  pub requests_are_settled :
      {t : Text} {d : Client} {asked settled : ℕ}
      → Run t new_client d asked settled
      → (asked ≡ settled + settlements t (dispose world d).1) × ((dispose world d).0.pending ≡ [])
  requests_are_settled {t} {d} r =
      let none_left = dispose_empties d in
      (omega (arith, run-Balances r, dispose-Balances t d, ap (count t) none_left), none_left)
