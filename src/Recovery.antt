-- ===== src/Recovery.antt =====
-- apps/web/terminal/browserRecovery.ts: one bounded episode of reconnection attempts, driven by the
-- page's visibility, the network and the adapter's state.
pub mod Bounds
use terminus_web.Prelude.{
  ℕ, zero, suc, ◌+◌, Bool, true, false, not, ◌&&◌, ◌||◌, List, [], ◌∷◌, ◌++◌, Option, none, some,
  is_some, Text, leb, if◌then◌else◌,
}

-- `TerminalConnectionState` of apps/web/terminal/adapter.ts.
pub data AdapterState : Type 0 where
  disconnected connecting pairing reconnecting authenticating : AdapterState
  opening replaying connected detaching detached closing error : AdapterState

-- What the callbacks read of the page and of the adapter: `document.visibilityState`,
-- `navigator.onLine`, the adapter's state, cause and error code, its session if it has one that is
-- not empty, and which of the methods `release` and `detach` it has.
pub record World : Type 0 where
  pub document_visible : Bool
  pub online : Bool
  pub state : AdapterState
  pub transport_failure : Bool
  pub reopen_rejected : Bool
  pub session : Option Text
  pub can_release : Bool
  pub can_detach : Bool

-- The variables of the closure. `timer` holds the delay of the timer that is set.
pub record Recovery : Type 0 where
  pub attempts : ℕ
  pub stopped : Bool
  pub disposed : Bool
  pub page_hidden : Bool
  pub timer : Option ℕ

-- What is done to the adapter.
pub data Action : Type 0 where
  connect : Option Text → Action
  release : Action
  detach : Action

abbrev pub new : Recovery
new = record { attempts = 0; stopped = false; disposed = false; page_hidden = false; timer = none }

-- `DELAYS[attempts]`, `none` past the end.
abbrev pub delay : ℕ → Option ℕ
delay zero = some 500
delay (suc zero) = some 1000
delay (suc (suc zero)) = some 2000
delay (suc (suc (suc zero))) = some 4000
delay (suc (suc (suc (suc zero)))) = some 8000
delay (suc (suc (suc (suc (suc zero))))) = some 16000
delay (suc (suc (suc (suc (suc (suc zero)))))) = some 16000
delay (suc (suc (suc (suc (suc (suc (suc zero))))))) = some 16000
delay _ = none

-- `DELAYS.length`
abbrev pub max_attempts : ℕ
max_attempts = 8

abbrev pub cancel : Recovery → Recovery
cancel r = record r { timer = none }

abbrev pub visible : Recovery → World → Bool
visible r w = not r.page_hidden && w.document_visible && w.online

abbrev pub eligible_in : AdapterState → Bool → Bool → Bool
eligible_in detached transport rejected = true
eligible_in error transport rejected = transport || rejected
eligible_in _ transport rejected = false

abbrev pub eligible : World → Bool
eligible w = eligible_in w.state w.transport_failure w.reopen_rejected

unfoldable pub schedule : World → Recovery → Recovery
schedule w r =
    if r.disposed
      || r.stopped
      || is_some r.timer
      || not (visible r w)
      || not (eligible w)
      || leb max_attempts r.attempts
    then r
    else record r { timer = delay r.attempts }

-- The timer's callback. The session is passed on where the adapter has one.
unfoldable pub fire : World → Recovery → Recovery × List Action
fire w r =
    if r.disposed || r.stopped || not (visible r w) || not (eligible w)
    then (cancel r, [])
    else (record r { timer = none; attempts = r.attempts + 1 }, connect w.session ∷ [])

abbrev pub is_connected : AdapterState → Bool
is_connected connected = true
is_connected _ = false

abbrev pub release_actions : World → List Action
release_actions w =
    if w.can_release
    then release ∷ []
    else if is_connected w.state && w.can_detach
    then detach ∷ []
    else []

-- The states in which a hidden page gives the connection up.
abbrev pub is_live : AdapterState → Bool
is_live connected = true
is_live connecting = true
is_live reconnecting = true
is_live authenticating = true
is_live opening = true
is_live replaying = true
is_live detaching = true
is_live _ = false

-- The states that a page that is being left does not release.
abbrev pub is_idle : AdapterState → Bool
is_idle disconnected = true
is_idle detached = true
is_idle error = true
is_idle closing = true
is_idle _ = false

unfoldable pub visibility : World → Recovery → Recovery × List Action
unfolding schedule
visibility w r =
    if not (visible r w)
    then (cancel r, if is_live w.state then release_actions w else [])
    else (schedule w r, [])

unfoldable pub pagehide : World → Recovery → Recovery × List Action
pagehide w r = (
  cancel (record r { page_hidden = true }),
  if not (is_idle w.state) then release_actions w else [],
)

unfoldable pub pageshow : World → Recovery → Recovery × List Action
unfolding visibility
pageshow w r = visibility w (record r { page_hidden = false })

-- The adapter's listener. The world's state is the new one.
unfoldable pub state_changed : World → Recovery → Recovery × List Action
unfolding schedule
state_changed w r =
    if is_connected w.state
    then if r.stopped || not (visible r w)
      then (cancel r, release_actions w)
      else (cancel (record r { attempts = 0; stopped = false }), [])
    else (schedule w r, [])

-- What happens: a timer runs out, an attempt settles, an event of the page, a change of the
-- adapter's state, and the calls of the three methods.
pub data Event : Type 0 where
  timer_fired attempt_settled visibility_event page_hides page_shows adapter_changed : Event
  stop manual dispose : Event

-- An event of a source from which `dispose` unsubscribes.
abbrev pub unless_disposed : Recovery → Recovery × List Action → Recovery × List Action
unless_disposed r next = if r.disposed then (r, []) else next

-- Only a timer that is set fires.
abbrev pub if_set : Recovery → Recovery × List Action → Recovery × List Action
if_set r next = if is_some r.timer then next else (r, [])

unfoldable pub step : World → Event → Recovery → Recovery × List Action
unfolding schedule fire visibility pagehide pageshow state_changed
step w timer_fired r = if_set r (fire w r)
step w attempt_settled r = (schedule w r, [])
step w visibility_event r = unless_disposed r (visibility w r)
step w page_hides r = unless_disposed r (pagehide w r)
step w page_shows r = unless_disposed r (pageshow w r)
step w adapter_changed r = unless_disposed r (state_changed w r)
step w stop r = (cancel (record r { stopped = true }), [])
step w manual r = (cancel (record r { stopped = false; attempts = 1 }), [])
step w dispose r =
    (cancel (record r { disposed = true }), if w.can_release then release ∷ [] else [])

-- Events with the world in which each finds itself, and all that is done.
unfoldable pub run : List (World × Event) → Recovery → Recovery × List Action
unfolding step
run [] r = (r, [])
run ((w, e) ∷ es) r =
    let (r', actions) = step w e r in let (r'', more) = run es r' in (r'', actions ++ more)
