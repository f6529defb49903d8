-- ===== src/Intelligence/Client.antt =====
-- apps/web/intelligence/client.ts: `IntelligenceClient`, its fields and what it does to the world.
use terminus_web.Prelude.{
  ℕ, suc, ◌+◌, ◌*◌, ◌^◌, Bool, true, false, not, ◌&&◌, List, [], ◌∷◌, ◌++◌, Option, none, some,
  Text, codes, text_eq, map, length, ltb, if◌then◌else◌, Result, ok, ◌>>=◌,
}
use terminus_web.Json.{Json}
use terminus_web.Codec.Base64.{Bytes, encode_base64url, decode_base64url}
use terminus_web.Codec.Utf8.{utf8}
use terminus_web.Connect.Endpoint.{WssPolicy, ValidatedPolicy, Url, validate_wss_policy}
use terminus_web.Machine.State.{Host}
use terminus_web.Intelligence.Answers.{Method}
pub mod Messages
pub mod Steps
pub mod Invariant
pub mod Counts
pub mod Settlement
pub mod Silence
pub mod Domain

-- `IntelligenceState`
pub data IntelligenceState : Type 0 where
  disconnected connecting ready unavailable pairing_required : IntelligenceState

-- The phase of a socket's handshake: `awaiting_challenge` for "challenge", and `signing` with the expiry that the proof has to meet.
pub data Phase : Type 0 where
  awaiting_challenge : Phase
  signing : (expiry : ℕ) → Phase
  ready active : Phase

-- A socket, by its number, with its phase.
pub record Channel : Type 0 where
  pub id : ℕ
  pub phase : Phase

pub record Pending : Type 0 where
  pub id : Text
  pub method : Method

-- `loading` holds while `open` waits for the credential of the current generation. The timer of a
-- pending request lives as long as its entry.
pub record Client : Type 0 where
  pub disposed : Bool
  pub generation : ℕ
  pub loading : Bool
  pub attempts : ℕ
  pub retry_timer : Bool
  pub handshake_timer : Bool
  pub state : IntelligenceState
  pub socket : Option Channel
  pub pending : List Pending

abbrev pub new_client : Client
new_client = record {
  disposed = false;
  generation = 0;
  loading = false;
  attempts = 0;
  retry_timer = false;
  handshake_timer = false;
  state = disconnected;
  socket = none;
  pending = [];
}

-- What is done besides the change of the fields, in order. `signs` is the call of
-- `intelligenceProof`, `closes` has the code 1005 for `close()`.
pub data Action : Type 0 where
  notifies : IntelligenceState → Action
  loads_credential : (generation : ℕ) → Action
  opens : (url : Text) → Action
  signs : (socket : ℕ) (connection challenge_id challenge : Text) → Action
  authenticates : (socket : ℕ) (proof : Text) → Action
  sends : (socket : ℕ) (body : Text) → Action
  closes : (socket code : ℕ) → Action
  resolves : (id : Text) (data' : Json) → Action
  rejects : (id error : Text) → Action
  waits : (milliseconds : ℕ) → Action

abbrev pub Step : Type 0
Step = Client × List Action

abbrev pub set_state : IntelligenceState → Client → Step
set_state s c = (record c { state = s }, notifies s ∷ [])

abbrev pub unavailable_error : Text
unavailable_error = codes "UNAVAILABLE"

abbrev pub reject_pending : Pending → Action
reject_pending p = rejects p.id unavailable_error

-- `failed` behind the requests that it rejects.
abbrev pub retried : Client → Step
retried c =
    if c.disposed
    then (c, [])
    else if ltb c.attempts 3
    then (
      record c { state = unavailable; attempts = suc c.attempts; retry_timer = true },
      notifies unavailable ∷ waits (1000 * 2 ^ c.attempts) ∷ [],
    )
    else set_state unavailable c

-- `failed`
unfoldable pub failed : Client → Step
failed c =
    let (d, actions) = retried (record c { pending = [] }) in
    (d, map reject_pending c.pending ++ actions)

-- `pathname !== "/terminal"` throws; `url.pathname = …; return url.href` is a call of the platform.
abbrev pub on_terminal : (Url → Text → Text) → Option Url → Option Text
on_terminal with_pathname none = none
on_terminal with_pathname (some u) =
    if text_eq u.pathname (codes "/terminal")
    then some (with_pathname u (codes "/intelligence"))
    else none

-- `intelligenceEndpoint`, `none` where it throws.
unfoldable pub intelligence_endpoint :
    (Text → Option Url) → (Url → Text → Text) → WssPolicy → Text → Option Text
unfolding text_eq
intelligence_endpoint parse_url with_pathname policy origin =
    elim (validate_wss_policy parse_url policy origin) [
      | Result.ok validated ↦ on_terminal with_pathname (parse_url validated.endpoint)
      | Result.err thrown ↦ none
    ]

-- The bytes that are signed.
unfoldable pub intelligence_message : Text → Text → Bytes → Bytes
unfolding utf8
intelligence_message connection id challenge =
    codes "Terminus/intelligence/1/auth"
    ++ (0 ∷ (utf8 connection ++ (0 ∷ (utf8 id ++ (0 ∷ challenge)))))

module _ (host : Host) where
  open host use {Key, sign}

  -- `intelligenceProof`
  unfoldable pub intelligence_proof : Key → Text → Text → Text → Result Text
  unfolding intelligence_message
  intelligence_proof key connection id challenge = do
    bytes ← decode_base64url challenge (some 32)
    ok (encode_base64url (sign key (intelligence_message connection id bytes)))
