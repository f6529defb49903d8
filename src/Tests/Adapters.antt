-- ===== src/Tests/Adapters.antt =====
-- protocolTerminalAdapter.ts on concrete events.
use terminus_web.Prelude.{
  ◌≡◌, refl, true, false, List, [], ◌∷◌, Option, none, some, Text, codes, All, text_eq, ok,
}
use terminus_web.Json.{Json}
use terminus_web.Codec.Frames.{Payload}
use terminus_web.Codec.Base64.{Bytes}
use terminus_web.Codec.Utf8.{utf8}
use terminus_web.Connect.Endpoint.{Url}
use terminus_web.Recovery.{connected}
use terminus_web.Adapter.State.{sends, Socket, Adapter, new_adapter}
use terminus_web.Adapter.Receive.{take_proof}
use terminus_web.Adapter.Events.{Event, connect_called, detach_called, proof_computed, step}
use terminus_web.Adapter.Invariant.{IsValid, new_adapter-IsValid}
use terminus_web.Adapter.Preservation.{step_adapter-IsValid}
use terminus_web.Adapter.Paste.{sent, inputs, send_paste}
use terminus_web.Adapter.Cuts.{IsInput, concat}
use terminus_web.Adapter.Chunks.{send_paste-IsInput}
use terminus_web.Tests.Protocol.{host, hello_json, session}

abbrev quoted : Text → Option Text
quoted t = some t

abbrev parsed : Text → Option Json
parsed t = some hello_json

abbrev no_url : Text → Option Url
no_url t = none

abbrev endpoint : Text
endpoint = codes "wss://agent.example/terminal"

step_adapter-IsValid_example :
    IsValid
      (step host quoted parsed no_url endpoint (connect_called none (some session)) new_adapter).0
step_adapter-IsValid_example =
    step_adapter-IsValid host quoted parsed no_url endpoint (connect_called none (some session))
      new_adapter tt new_adapter-IsValid

abbrev socket : Socket
socket = record { id = 3; work = 0 }

abbrev busy : Adapter
busy = record new_adapter {
  state = connected;
  socket = some socket;
  session_id = some session;
  credential = some session;
}

-- The page connects again before the old socket closes.
abbrev later : List Event
later = connect_called none none ∷ detach_called ∷ []

-- The answer to a challenge of the old connection is computed when it is gone.
late_proof :
    step host quoted parsed no_url endpoint (proof_computed socket session (ok session) false) busy
    ≡ (busy, sends (Payload.auth_response session session session) ∷ [])
unfolding text_eq step take_proof
late_proof = refl

-- A line of text with a character of three bytes.
abbrev line : Text
line = 0x20ac ∷ codes "5"

send_paste-IsInput_example :
    (cs : List Bytes) × (send_paste true line busy ≡ sent (inputs session cs))
    × (concat cs ≡ utf8 line)
    × All IsInput cs
unfolding utf8
send_paste-IsInput_example = send_paste-IsInput line session busy refl refl refl refl
