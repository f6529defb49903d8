-- ===== src/Intelligence/Client/Steps.antt =====
-- apps/web/intelligence/client.ts: the methods of `IntelligenceClient` and the handlers of its
-- socket, timers and promises.
use terminus_web.Prelude.{
  ℕ, suc, Bool, true, false, not, ◌&&◌, ◌||◌, List, [], ◌∷◌, ◌++◌, Option, none, some, is_some,
  Text, codes, text_eq, length, leb, ltb, ◌==◌, if◌then◌else◌,
}
use terminus_web.Json.{Json, str, obj, end, field, Fields}
use terminus_web.Codec.Utf8.{utf8}
use terminus_web.Intelligence.Answers.{Method, valid_result}
use terminus_web.Intelligence.Requests.{valid_request}
use terminus_web.Intelligence.Client.{
  IntelligenceState, connecting, unavailable, pairing_required, Phase, awaiting_challenge, signing,
  active, Channel, Pending, Client, Action, notifies, loads_credential, opens, signs, authenticates,
  sends, closes, resolves, rejects, Step, set_state, unavailable_error, failed,
}
use terminus_web.Intelligence.Client.Messages.{
  Challenge, Answer, accepted, refused, read_frame, read_challenge, is_ready, read_answer,
}

-- The platform: `JSON.parse`, `none` where it throws, `JSON.stringify`, `Date.parse`, `none` for NaN
-- and before 1970, and the URL of the policy by `intelligenceEndpoint`. `method_name` gives the text
-- of a method.
pub record World : Type 0 where
  pub parse : Text → Option Json
  pub stringify : Json → Text
  pub date_value : Text → Option ℕ
  pub endpoint : Option Text
  pub method_name : Method → Text

-- How `loadCredential` ends, and for a credential what `socketFactory` returns or `none` if it
-- throws.
pub data Loaded : Type 0 where
  load_failed missing : Loaded
  found : (socket : Option ℕ) → Loaded

abbrev pub is_ready_state : IntelligenceState → Bool
is_ready_state IntelligenceState.ready = true
is_ready_state _ = false

abbrev pub is_socket : Option Channel → ℕ → Bool
is_socket none s = false
is_socket (some ch) s = ch.id == s

-- `this.pending.get(id)`, `delete` and `set`
unfoldable pub find : Text → List Pending → Option Pending
unfolding text_eq
find id [] = none
find id (p ∷ ps) = if text_eq p.id id then some p else find id ps

unfoldable pub remove : Text → List Pending → List Pending
unfolding text_eq
remove id [] = []
remove id (p ∷ ps) = if text_eq p.id id then ps else p ∷ remove id ps

unfoldable pub put : Pending → List Pending → List Pending
unfolding text_eq
put p [] = p ∷ []
put p (q ∷ qs) = if text_eq q.id p.id then p ∷ qs else q ∷ put p qs

-- What the client is called with, and what happens to it.
pub data Event : Type 0 where
  connect_called dispose_called handshake_due retry_due : Event
  credential_loaded : (generation : ℕ) → Loaded → Event
  message_received : (socket : ℕ) (right_protocol : Bool) → Option Text → (now : ℕ) → Event
  proof_made : (socket : ℕ) → Option Text → (now : ℕ) → Event
  socket_failed socket_closed : (socket : ℕ) → Event
  request_called : (id : Text) → Method → Json → (sent : Bool) → Event
  request_timed_out : (id : Text) → Event

-- The fields after `dispose`, before `failed`.
abbrev pub ended : Client → Client
ended c = record c {
  disposed = true;
  generation = suc c.generation;
  loading = false;
  retry_timer = false;
  handshake_timer = false;
  socket = none;
}

module _ (world : World) where
  -- `open`, up to the await: the endpoint's error is caught.
  abbrev pub located : Option Text → Client → Step
  located none c =
      (record c { state = unavailable }, notifies connecting ∷ notifies unavailable ∷ [])
  located (some url) c = (
    record c { state = connecting; loading = true },
    notifies connecting ∷ loads_credential c.generation ∷ [],
  )

  unfoldable pub open_socket : Client → Step
  open_socket c =
      if c.disposed
      then (c, [])
      else located world.endpoint (record c { generation = suc c.generation; loading = false })

  abbrev pub reconnected : Option Channel → Client → Step
  reconnected (some ch) c =
      if is_ready_state c.state then (c, notifies IntelligenceState.ready ∷ []) else (c, [])
  reconnected none c = open_socket (record c { retry_timer = false; attempts = 0 })

  -- `connect`
  unfoldable pub connect : Client → Step
  unfolding open_socket
  connect c = if c.disposed then (c, []) else reconnected c.socket c

  abbrev pub opened : Option ℕ → Client → Step
  opened none c = failed c
  opened (some s) c = (
    record c {
      socket = some (record { id = s; phase = awaiting_challenge });
      handshake_timer = true;
    },
    elim world.endpoint [ none ↦ [] | some url ↦ opens url ∷ [] ],
  )

  -- `open` behind the await. The rejection is caught before the test of the generation.
  unfoldable pub continue_open : ℕ → Loaded → Client → Step
  continue_open generation load_failed c =
      set_state unavailable (if generation == c.generation then record c { loading = false } else c)
  continue_open generation missing c =
      if c.disposed || not (generation == c.generation && c.loading)
      then (c, [])
      else set_state pairing_required (record c { loading = false })
  continue_open generation (found socket) c =
      if c.disposed || not (generation == c.generation && c.loading)
      then (c, [])
      else opened socket (record c { loading = false })

  abbrev pub in_phase : Channel → Phase → Client → Client
  in_phase ch p c = record c { socket = some (record { id = ch.id; phase = p }) }

  -- The `catch` of the handler.
  abbrev pub spurned : Channel → Client → Step
  spurned ch c = (c, closes ch.id 1002 ∷ [])

  abbrev pub challenged : Channel → Option Challenge → Client → Step
  challenged ch none c = spurned ch c
  challenged ch (some x) c =
      (in_phase ch (signing x.expiry) c, signs ch.id x.connection x.id x.challenge ∷ [])

  -- A request is answered; an answer to none that is pending is dropped.
  abbrev pub settled_by : Channel → Option Pending → Answer → Client → Step
  settled_by ch none a c = (c, [])
  settled_by ch (some p) (accepted id v) c =
      if valid_result p.method v
      then (record c { pending = remove id c.pending }, resolves id v ∷ [])
      else spurned ch c
  settled_by ch (some p) (refused id error) c =
      (record c { pending = remove id c.pending }, rejects id error ∷ [])

  abbrev pub id_of : Answer → Text
  id_of (accepted id v) = id
  id_of (refused id error) = id

  abbrev pub answered : Channel → Option Answer → Client → Step
  answered ch none c = spurned ch c
  answered ch (some a) c = settled_by ch (find (id_of a) c.pending) a c

  abbrev pub by_phase : ℕ → Channel → Phase → Fields → Client → Step
  by_phase now ch awaiting_challenge frame c =
      challenged ch (read_challenge world.date_value now frame) c
  by_phase now ch (signing expiry) frame c = spurned ch c
  by_phase now ch Phase.ready frame c =
      if is_ready frame
      then (
        record (in_phase ch active c) {
          handshake_timer = false;
          attempts = 0;
          state = IntelligenceState.ready;
        },
        notifies IntelligenceState.ready ∷ [],
      )
      else spurned ch c
  by_phase now ch active frame c = answered ch (read_answer frame) c

  abbrev pub on_frame : ℕ → Channel → Option Fields → Client → Step
  on_frame now ch none c = spurned ch c
  on_frame now ch (some frame) c = by_phase now ch ch.phase frame c

  abbrev pub at_socket : Option Channel → ℕ → (Channel → Step) → Client → Step
  at_socket none s f c = (c, [])
  at_socket (some ch) s f c = if ch.id == s then f ch else (c, [])

  -- `socket.onmessage` of the socket `s`.
  unfoldable pub on_message : ℕ → Bool → Option Text → ℕ → Client → Step
  unfolding read_frame
  on_message s right_protocol message now c =
      if c.disposed
      then (c, [])
      else at_socket c.socket s
          (λ ch. on_frame now ch (read_frame world.parse right_protocol message) c) c

  abbrev pub signed : ℕ → Channel → Phase → Text → Client → Step
  signed now ch (signing expiry) proof c =
      if leb expiry now
      then spurned ch c
      else (in_phase ch Phase.ready c, authenticates ch.id proof ∷ [])
  signed now ch _ proof c = (c, [])

  -- The handler of the challenge behind `intelligenceProof`, which throws for `none`: the `catch`
  -- closes the handler's own socket.
  unfoldable pub on_proof : ℕ → Option Text → ℕ → Client → Step
  on_proof s none now c = (c, closes s 1002 ∷ [])
  on_proof s (some proof) now c =
      if c.disposed then (c, []) else at_socket c.socket s (λ ch. signed now ch ch.phase proof c) c

  -- `socket.onclose`
  unfoldable pub on_close : ℕ → Client → Step
  unfolding failed
  on_close s c =
      at_socket c.socket s (λ ch. failed (record c { socket = none; handshake_timer = false })) c

  abbrev pub request_frame : Text → Method → Json → Json
  request_frame id method params = obj (
      field (codes "type") (str (codes "request")) (
        field (codes "id") (str id) (
          field (codes "method") (str (world.method_name method))
            (field (codes "params") params end))))

  abbrev pub request_error : Text → Text → Client → Step
  request_error id e c = (c, rejects id e ∷ [])

  abbrev pub request_on : Option Channel → Text → Method → Json → (sent : Bool) → Client → Step
  request_on none id method params sent c = request_error id unavailable_error c
  request_on (some ch) id method params sent c =
      let frame = request_frame id method params in
      if not (is_ready_state c.state) || leb 5 (length c.pending)
      then request_error id unavailable_error c
      else if not (valid_request frame) || ltb 65536 (length (utf8 (world.stringify frame)))
      then request_error id (codes "INVALID_REQUEST") c
      else if sent
      then (
        record c { pending = put (record { id = id; method = method }) c.pending },
        sends ch.id (world.stringify frame) ∷ [],
      )
      else (
        record c { pending = remove id (put (record { id = id; method = method }) c.pending) },
        rejects id unavailable_error ∷ [],
      )

  -- `request`; `id` is `crypto.randomUUID()`, and `sent` tells whether `send` returns.
  unfoldable pub request : Text → Method → Json → (sent : Bool) → Client → Step
  request id method params sent c = request_on c.socket id method params sent c

  -- The timer of a request.
  unfoldable pub time_out : Text → Client → Step
  unfolding find remove
  time_out id c =
      if is_some (find id c.pending)
      then (record c { pending = remove id c.pending }, rejects id unavailable_error ∷ [])
      else (c, [])

  abbrev pub close_channel : Option Channel → ℕ → List Action
  close_channel none code = []
  close_channel (some ch) code = closes ch.id code ∷ []

  -- `dispose`
  unfoldable pub dispose : Client → Step
  unfolding failed
  dispose c = let (d, actions) = failed (ended c) in (d, close_channel c.socket 1000 ++ actions)

  unfoldable pub step : Event → Client → Step
  unfolding connect continue_open on_message on_proof on_close request time_out dispose open_socket
  step connect_called c = connect c
  step dispose_called c = dispose c
  step handshake_due c = if c.handshake_timer then (c, close_channel c.socket 1005) else (c, [])
  step retry_due c =
      if c.retry_timer then open_socket (record c { retry_timer = false }) else (c, [])
  step (credential_loaded generation loaded) c = continue_open generation loaded c
  step (message_received s right_protocol message now) c = on_message s right_protocol message now c
  step (proof_made s proof now) c = on_proof s proof now c
  step (socket_failed s) c = (c, closes s 1005 ∷ [])
  step (socket_closed s) c = on_close s c
  step (request_called id method params sent) c = request id method params sent c
  step (request_timed_out id) c = time_out id c
