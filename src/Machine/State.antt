-- ===== src/Machine/State.antt =====
-- apps/web/protocol/types.ts and contractMachine.ts: the state of `ProtocolContractMachine`, the
-- context of a check, and how frames are answered.
use terminus_web.Prelude.{ℕ, Bool, false, Option, none, Text}
use terminus_web.Codec.Base64.{Bytes}

pub data Direction : Type 0 where
  client_to_agent agent_to_client : Direction

-- `ProtocolConnectionState`
pub data ConnectionState : Type 0 where
  fresh negotiating unauthenticated pairing challenged proving ready closing closed :
      ConnectionState

-- `ProtocolSessionState`
pub data SessionState : Type 0 where
  absent opening open_ detaching detached reopening replaying closing closed : SessionState

pub record History : Type 0 where
  pub begun : Bool
  pub cursor : ℕ
  pub end_offset : ℕ

-- `ProtocolMachineSnapshot` with `nextOutputOffsetKnown`; `nextSequence` is a field for each
-- direction.
pub record Machine : Type 0 where
  pub connection_state : ConnectionState
  pub session_state : SessionState
  pub next_client : ℕ
  pub next_agent : ℕ
  pub connection_id : Option Text
  pub next_output_offset : ℕ
  pub output_offset_known : Bool
  pub history : Option History
  pub session_id : Option Text

-- The state of a machine that is made with no argument.
abbrev pub new : Machine
new = record {
  connection_state = fresh;
  session_state = absent;
  next_client = 0;
  next_agent = 0;
  connection_id = none;
  next_output_offset = 0;
  output_offset_known = false;
  history = none;
  session_id = none;
}

pub data ReopenDecision : Type 0 where
  allow unknown_session already_attached wrong_credential : ReopenDecision
  wrong_source_device missing_source_device closed_by_new_session : ReopenDecision

-- `ProtocolValidationContext`
pub record Context : Type 0 where
  pub now : Option Text
  pub challenge_expires_at : Option Text
  pub credential_secret : Option Text
  pub challenge : Option Text
  pub reopen_decision : Option ReopenDecision

-- `{}`
abbrev pub no_context : Context
no_context = record {
  now = none;
  challenge_expires_at = none;
  credential_secret = none;
  challenge = none;
  reopen_decision = none;
}

-- What the platform supplies: `crypto.subtle` for HMAC-SHA-256, and the value of a `Date` made from
-- a text, `none` for NaN.
pub record Host : Type 1 where
  pub Key : Type 0
  pub import_key : Bytes → Key
  pub sign : Key → Bytes → Bytes
  pub date_value : Text → Option ℕ

-- `nextSequence[direction]`
abbrev pub expected : Direction → Machine → ℕ
expected client_to_agent m = m.next_client
expected agent_to_client m = m.next_agent

abbrev pub set_expected : Direction → ℕ → Machine → Machine
set_expected client_to_agent n m = record m { next_client = n }
set_expected agent_to_client n m = record m { next_agent = n }

abbrev pub opposite : Direction → Direction
opposite client_to_agent = agent_to_client
opposite agent_to_client = client_to_agent
