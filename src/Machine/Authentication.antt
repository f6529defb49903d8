-- ===== src/Machine/Authentication.antt =====
-- contractMachine.ts: no connection is ready, and no session exists, before the peer has proved that
-- it holds its credential.
use terminus_web.Prelude.{◌≡◌, refl, ◌⊎◌, inl, inr, List, [], ◌∷◌, subst}
use terminus_web.Codec.Frames.{MessageType, Frame, type_of}
use terminus_web.Machine.State.{
  Direction, client_to_agent, agent_to_client, ConnectionState, SessionState, Machine, Host, new,
}
use terminus_web.Machine.Graph.{
  Edge, fail, say_hello, greet, ask_pairing, pair, challenge, respond, authenticate,
  apply_frame-Edge,
}
use terminus_web.Machine.Runs.{Run, start, accept, refuse, apply-eq-ok, apply-eq-err}

-- A frame of the type went in the direction.
abbrev pub Seen : Direction → MessageType → List (Direction × Frame) → Type 0
Seen d ty [] = ⊥
Seen d ty ((e, f) ∷ trace) = (e ≡ d) × (type_of f.payload ≡ ty) ⊎ Seen d ty trace

-- The steps of the handshake that each connection state has behind it.
abbrev pub Greeted : List (Direction × Frame) → Type 0
Greeted trace =
    Seen client_to_agent MessageType.hello trace × Seen agent_to_client MessageType.hello_ack trace

abbrev pub Authenticated : List (Direction × Frame) → Type 0
Authenticated trace =
    Greeted trace
    × Seen agent_to_client MessageType.auth_challenge trace
    × Seen client_to_agent MessageType.auth_response trace
    × Seen agent_to_client MessageType.auth_result trace

abbrev Behind : ConnectionState → List (Direction × Frame) → Type 0
Behind ConnectionState.negotiating trace = Seen client_to_agent MessageType.hello trace
Behind ConnectionState.unauthenticated trace = Greeted trace
Behind ConnectionState.pairing trace = Greeted trace
Behind ConnectionState.challenged trace =
    Greeted trace × Seen agent_to_client MessageType.auth_challenge trace
Behind ConnectionState.proving trace =
    Greeted trace
    × Seen agent_to_client MessageType.auth_challenge trace
    × Seen client_to_agent MessageType.auth_response trace
Behind ConnectionState.ready trace = Authenticated trace
Behind _ trace = Unit

-- Every edge keeps the account of the handshake.
Behind-Edge :
    {c c' : ConnectionState} {s s' : SessionState} {d : Direction} {ty : MessageType} (f : Frame)
    (trace : List (Direction × Frame))
    → Edge c s d ty c' s'
    → type_of f.payload ≡ ty
    → Behind c trace
    → Behind c' ((d, f) ∷ trace)
Behind-Edge f trace (fail x) e b = tt
Behind-Edge f trace say_hello e b = inl (refl, e)
Behind-Edge f trace greet e b = (inr b, inl (refl, e))
Behind-Edge f trace ask_pairing e b = (inr b.0, inr b.1)
Behind-Edge f trace pair e b = (inr b.0, inr b.1)
Behind-Edge f trace challenge e b = ((inr b.0, inr b.1), inl (refl, e))
Behind-Edge f trace respond e b = ((inr b.0.0, inr b.0.1), inr b.1, inl (refl, e))
Behind-Edge f trace authenticate e b = ((inr b.0.0, inr b.0.1), inr b.1, inr b.2, inl (refl, e))
Behind-Edge f trace _ e b = ((inr b.0.0, inr b.0.1), inr b.1, inr b.2, inr b.3)

module _ (host : Host) where
  Run-Behind :
      {n : Machine} {trace : List (Direction × Frame)}
      → Run host new trace n
      → Behind n.connection_state trace
  Run-Behind start = tt
  Run-Behind (accept {trace} {n} d input context f r e) =
      let (same, valid) = apply-eq-ok host d input context n e in
      let e' = rw same at e in
      rw same (Behind-Edge f trace (apply_frame-Edge host d f context n e') refl (Run-Behind r))
  Run-Behind (refuse {trace} {n} d input context v r b e) =
      elim (apply-eq-err host d input context n b e) [
        | inl same ↦ rw same (Run-Behind r)
        | inr (f, same) ↦ rw same (Run-Behind r)
      ]

  -- In every run of a machine made with no argument, a connection that is ready has seen the whole
  -- handshake, each frame in its direction: hello, hello_ack, auth_challenge, auth_response and
  -- auth_result.
  pub ready_is_Authenticated :
      {n : Machine} {trace : List (Direction × Frame)}
      → Run host new trace n
      → n.connection_state ≡ ConnectionState.ready
      → Authenticated trace
  ready_is_Authenticated {trace} r e = subst (λ c. Behind c trace) e (Run-Behind r)
