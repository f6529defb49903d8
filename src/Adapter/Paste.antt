-- ===== src/Adapter/Paste.antt =====
-- protocolTerminalAdapter.ts: `sendPaste`, where nothing interrupts it: each frame finds room before
-- the deadline, and the connection and the session stay the same.
use terminus_web.Prelude.{
  ℕ, zero, suc, ◌+◌, ◌-◌, Bool, true, false, ◌&&◌, ◌||◌, List, [], ◌∷◌, map, Option, none, some,
  Text, ltb, length, take, drop, if◌then◌else◌,
}
use terminus_web.Codec.Base64.{Bytes, encode_base64url}
use terminus_web.Codec.Utf8.{utf8}
use terminus_web.Codec.Utf8.Whole.{is_continuation}
use terminus_web.Codec.Frames.{Payload, max_terminal_input_bytes}
use terminus_web.Recovery.{AdapterState, connected}
use terminus_web.Adapter.State.{Adapter}

-- `MAX_PASTE_BYTES`
abbrev pub max_paste_bytes : ℕ
max_paste_bytes = 262144

-- `(bytes[i]! & 0xc0) === 0x80`, false past the end.
unfoldable pub continues_at : Bytes → ℕ → Bool
continues_at [] i = false
continues_at (b ∷ bs) zero = is_continuation b
continues_at (b ∷ bs) (suc i) = continues_at bs i

-- `while (end < bytes.length && …) end--`. No text's bytes begin with a continuation, so that it
-- stops at 0 at the latest.
unfoldable pub step_back : Bytes → ℕ → ℕ
unfolding continues_at
step_back bytes zero = 0
step_back bytes (suc end) =
    let before = step_back bytes end in if continues_at bytes (suc end) then before else suc end

-- `Math.min(offset + MAX_TERMINAL_INPUT_BYTES, bytes.length)`
abbrev pub reach : Bytes → ℕ → ℕ
reach bytes offset =
    if ltb (length bytes) (offset + max_terminal_input_bytes)
    then length bytes
    else offset + max_terminal_input_bytes

-- `bytes.subarray(offset, end)`
abbrev pub subarray : Bytes → ℕ → ℕ → Bytes
subarray bytes offset end = take (end - offset) (drop offset bytes)

abbrev pub with_chunk : Bytes → Option (List Bytes) → Option (List Bytes)
with_chunk chunk none = none
with_chunk chunk (some rest) = some (chunk ∷ rest)

-- The chunks of the loop over `offset`, `none` when out of fuel.
unfoldable pub chunks : (fuel : ℕ) → Bytes → (offset : ℕ) → Option (List Bytes)
unfolding step_back
chunks zero bytes offset = none
chunks (suc fuel) bytes offset =
    let end = step_back bytes (reach bytes offset) in
    let rest = chunks fuel bytes end in
    if ltb offset (length bytes) then with_chunk (subarray bytes offset end) rest else some []

-- What `sendPaste` sends, or its Error.
pub data Paste : Type 0 where
  too_large still_sending interrupted out_of_fuel : Paste
  sent : List Payload → Paste

abbrev pub is_connected : AdapterState → Bool
is_connected connected = true
is_connected _ = false

abbrev pub inputs : Text → List Bytes → List Payload
inputs id cs = map (λ chunk. Payload.terminal_input id (encode_base64url chunk)) cs

abbrev pub sent_to : Option Text → Option (List Bytes) → Paste
sent_to (some id) (some cs) = sent (inputs id cs)
sent_to (some id) none = out_of_fuel
sent_to none cs = interrupted

-- `sendPaste`; `opened` is `socket?.readyState === SOCKET_OPEN`. A connected adapter has a session.
unfoldable pub send_paste : (opened : Bool) → Text → Adapter → Paste
unfolding utf8 chunks encode_base64url
send_paste opened t a =
    if ltb max_paste_bytes (length t) || ltb max_paste_bytes (length (utf8 t))
    then too_large
    else if a.paste_operation
    then still_sending
    else if opened && is_connected a.state
    then sent_to a.session_id (chunks (suc (length (utf8 t))) (utf8 t) 0)
    else interrupted
