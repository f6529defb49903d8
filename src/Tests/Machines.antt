-- ===== src/Tests/Machines.antt =====
-- The state machine of contractMachine.ts on concrete calls.
use terminus_web.Prelude.{
  ◌+◌, ◌⊎◌, ◌≡◌, refl, inl, true, [], ◌∷◌, none, some, codes, ErrorCode, violation, arith,
}
use terminus_web.Codec.Frames.{MessageType}
use terminus_web.Machine.State.{
  client_to_agent, agent_to_client, ConnectionState, SessionState, Machine, new, no_context,
}
use terminus_web.Machine.Apply.{apply_frame, apply}
use terminus_web.Machine.Invariant.{IsValid, new-IsValid}
use terminus_web.Machine.Preservation.{apply-IsValid}
use terminus_web.Machine.Outcomes.{bound_to}
use terminus_web.Machine.Sequence.{Advances, apply_frame-Advances, refused_keeps, replay_refused}
use terminus_web.Machine.Graph.{Edge, apply_frame-Edge}
use terminus_web.Machine.Authentication.{Authenticated, ready_is_Authenticated}
use terminus_web.Machine.Output.{total_output, output_is_contiguous}
use terminus_web.Machine.Replay.{IsComplete, total_replay, replay-IsComplete}
use terminus_web.Machine.Session.{works_on_open_session}
use terminus_web.Tests.Protocol.{
  computing, session, host, hello_json, hello, greeting, handshake, handshake-Run, output_json,
  output, open_machine, output-Run, replaying_machine, begin_json, begin_frame, chunk, end_json,
  end_frame, replay-Run,
}

ready_is_Authenticated_example : Authenticated handshake
ready_is_Authenticated_example = ready_is_Authenticated host handshake-Run refl

apply-IsValid_example : IsValid (apply host client_to_agent hello_json no_context new).0
apply-IsValid_example = apply-IsValid host client_to_agent hello_json no_context new new-IsValid

output_is_contiguous_example :
    12 ≡ open_machine.next_output_offset + total_output ((agent_to_client, output 4 10) ∷ [])
unfolding computing
output_is_contiguous_example =
    output_is_contiguous host agent_to_client (output_json 5 12) no_context (output 5 12) session 12
      (codes "aGk") refl output-Run refl refl

apply_frame-Advances_example :
    Advances client_to_agent hello new (apply_frame host client_to_agent hello no_context new).0
unfolding computing
apply_frame-Advances_example = apply_frame-Advances host client_to_agent hello no_context new refl

replay_refused_example :
    let m = (apply_frame host client_to_agent hello no_context new).0 in
    apply_frame host client_to_agent hello no_context m
    ≡ (m, violation ErrorCode.sequence_replay 1008)
unfolding computing
replay_refused_example = replay_refused host client_to_agent hello no_context no_context new refl

-- An agent's frame sent by the client: the connection is fixed all the same.
refused_keeps_example :
    let m' = (apply_frame host client_to_agent greeting no_context new).0 in
    (m' ≡ new) ⊎ (new.connection_id ≡ none) × (m' ≡ bound_to greeting new)
unfolding computing
refused_keeps_example =
    refused_keeps host client_to_agent greeting no_context new (omega arith) refl

apply_frame-Edge_example :
    Edge ConnectionState.fresh SessionState.absent client_to_agent MessageType.hello
      ConnectionState.negotiating SessionState.absent
unfolding computing
apply_frame-Edge_example = apply_frame-Edge host client_to_agent hello no_context new refl

replay-IsComplete_example :
    IsComplete (5 + total_replay ((agent_to_client, chunk) ∷ [])) 7 7 (record replaying_machine {
      session_state = SessionState.open_;
      next_agent = 7;
      next_output_offset = 7;
      output_offset_known = true;
    })
unfolding computing
replay-IsComplete_example =
    replay-IsComplete host replaying_machine agent_to_client agent_to_client begin_json end_json
      no_context no_context begin_frame end_frame session session 5 7 7 true refl refl replay-Run
      (refl, tt) refl refl

open_machine-IsValid : IsValid open_machine
open_machine-IsValid = record {
  client_bound = omega arith;
  agent_bound = omega arith;
  output_bound = omega arith;
  history_valid = tt;
  history_replaying = λ h. cc;
  session_named = λ h. refl;
  session_ready = λ h. inl refl;
}

works_on_open_session_example :
    (agent_to_client ≡ agent_to_client)
    × (open_machine.connection_state ≡ ConnectionState.ready)
    × (open_machine.session_state ≡ SessionState.open_)
    × (open_machine.session_id ≡ some session)
unfolding computing
works_on_open_session_example =
    works_on_open_session host agent_to_client agent_to_client (output 4 10) no_context open_machine
      session open_machine-IsValid refl refl

abbrev closing_machine : Machine
closing_machine = record open_machine { connection_state = ConnectionState.closing }
