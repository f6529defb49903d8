-- ===== src/Tests/Clients.antt =====
-- apps/web/intelligence/client.ts on concrete calls.
use terminus_web.Prelude.{
  ◌+◌, ◌≡◌, ◌≢◌, refl, ◌&&◌, true, List, [], ◌∷◌, Option, some, Text, codes, text_eq, includes,
}
use terminus_web.Json.{Json, obj, str, field, end, keys, get, has_own}
use terminus_web.Codec.Identifiers.{matches, is_uuid_v4}
use terminus_web.Machine.Auth.{auth_message}
use terminus_web.Intelligence.Answers.{one_of, usage_get}
use terminus_web.Intelligence.Requests.{
  valid_params, method_of, fields, field_is, field_may_be, valid_command, valid_request,
}
use terminus_web.Intelligence.Commands.{command_request, valid_request-command_request}
use terminus_web.Intelligence.Client.{
  IntelligenceState, failed, active, Client, new_client, intelligence_message,
}
use terminus_web.Codec.Utf8.{utf8}
use terminus_web.Intelligence.Client.Messages.{
  exact, says, read_frame, read_challenge, is_ready, read_answer,
}
use terminus_web.Intelligence.Client.Steps.{
  find, remove, put, connect, open_socket, continue_open, on_message, on_proof, on_close, request,
  time_out, proof_made, message_received, World, Event, connect_called, credential_loaded, found,
  request_called, socket_closed, dispose, step,
}
use terminus_web.Intelligence.Client.Invariant.{IsValid, new_client-IsValid, step_client-IsValid}
use terminus_web.Intelligence.Client.Counts.{settlements}
use terminus_web.Intelligence.Client.Settlement.{Run, stay, on, requests_are_settled}
use terminus_web.Intelligence.Client.Silence.{StaysEnded, run, disposed_is_silent}
use terminus_web.Intelligence.Client.Domain.{domains_are_separate}
use terminus_web.Tests.Protocol.{uuid, secret, timestamp}

-- The frames of the service: `ready` for the empty text, and a challenge for any other.
abbrev frame_of : Text → Option Json
frame_of [] = some (obj (field (codes "type") (str (codes "ready")) end))
frame_of (c ∷ t) = some (
    obj (
      field (codes "type") (str (codes "challenge")) (
        field (codes "connectionId") (str uuid) (
          field (codes "challengeId") (str uuid) (
            field (codes "challenge") (str secret)
              (field (codes "expiresAt") (str timestamp) end))))))

abbrev world : World
world = record {
  parse = frame_of;
  stringify = λ v. codes "{}";
  date_value = λ t. some 7;
  endpoint = some (codes "wss://agent.example/intelligence");
  method_name = λ m. codes "usage.get";
}

unfoldable talking : Unit {0}
unfolding text_eq includes keys get has_own matches is_uuid_v4 utf8 exact says read_frame
    read_challenge is_ready read_answer find remove put connect open_socket continue_open on_message
    on_proof on_close request time_out dispose failed step valid_request valid_params method_of
    fields field_is field_may_be one_of
talking = tt

step_client-IsValid_example : IsValid (step world connect_called new_client).0
step_client-IsValid_example = step_client-IsValid world connect_called new_client new_client-IsValid

-- A request before the handshake is refused at once.
abbrev events : List Event
events =
    connect_called
    ∷ request_called uuid usage_get (obj end) true
    ∷ credential_loaded 1 (found (some 3))
    ∷ socket_closed 3
    ∷ []

-- A request is sent once the service is ready.
abbrev waiting : Client
waiting = record new_client {
  generation = 1;
  state = IntelligenceState.ready;
  socket = some (record { id = 3; phase = active });
  pending = record { id = uuid; method = usage_get } ∷ [];
}

asks_once : Run world uuid new_client waiting 1 0
unfolding talking
asks_once = on connect_called tt (
    on (credential_loaded 1 (found (some 3))) tt (
      on (message_received 3 true (some (codes "c")) 1) tt (
        on (proof_made 3 (some secret) 2) tt (
          on (message_received 3 true (some []) 3) tt
            (on (request_called uuid usage_get (obj end) true) refl stay)))))

requests_are_settled_example :
    (1 ≡ 0 + settlements uuid (dispose world waiting).1) × ((dispose world waiting).0.pending ≡ [])
requests_are_settled_example = requests_are_settled world asks_once

disposed_is_silent_example : StaysEnded (run world events (dispose world new_client).0)
disposed_is_silent_example = disposed_is_silent world events new_client

domains_are_separate_example :
    intelligence_message uuid uuid (1 ∷ []) ≢ auth_message uuid uuid (1 ∷ [])
domains_are_separate_example = domains_are_separate uuid uuid uuid uuid (1 ∷ []) (1 ∷ [])

valid_request-command_request_example :
    valid_request (command_request uuid uuid (codes "ls -l"))
    ≡ (is_uuid_v4 uuid && (is_uuid_v4 uuid && valid_command (codes "ls -l")))
valid_request-command_request_example = valid_request-command_request uuid uuid (codes "ls -l")
