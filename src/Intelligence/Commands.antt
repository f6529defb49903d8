-- ===== src/Intelligence/Commands.antt =====
-- apps/web/intelligence: the two checks of a command, `validCommand` of client.ts and that of
-- request.ts.
use terminus_web.Prelude.{◌≡◌, ◌&&◌, Text, codes, arith, text_eq, includes}
use terminus_web.Json.{Json, str, obj, end, field, keys, get, has_own}
use terminus_web.Codec.Identifiers.{is_uuid_v4}
use terminus_web.Intelligence.Answers.{one_of}
use terminus_web.Intelligence.Requests.{
  fields, field_is, valid_command, method_of, valid_params, valid_request,
}

-- The request that `record` sends for a command.
abbrev pub command_request : (id event command : Text) → Json
command_request id event command = obj (
    field (codes "type") (str (codes "request")) (
      field (codes "id") (str id) (
        field (codes "method") (str (codes "command.record")) (
          field (codes "params")
            (obj (field (codes "eventId") (str event) (field (codes "command") (str command) end)))
            end))))

-- The request that records a command passes the check exactly if its two ids are UUIDs and the
-- command passes `validCommand`: it is not blank, at most 4096 bytes long and without control
-- characters.
pub valid_request-command_request :
    (id event command : Text)
    → valid_request (command_request id event command)
      ≡ (is_uuid_v4 id && (is_uuid_v4 event && valid_command command))
unfolding valid_request fields field_is valid_params method_of get keys has_own text_eq includes
    one_of valid_command
valid_request-command_request id event command = ground arith
