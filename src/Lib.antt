-- ===== src/Lib.antt =====
-- A library about the web client of Terminus (apps/web): the protocol that the browser and the agent
-- speak, the client end of a terminal, the client of the intelligence service, and the parts of the
-- page that decide where and when to connect; and about the policy of services/control-plane.
--
-- The parts and how they interact.
--   A frame arrives as a text. `parseProtocolFrame` of apps/web/protocol/codec.ts checks its size and
--   its keys, has it parsed to a JSON value (Json) and checks the form of that (Codec). The contract
--   machine of apps/web/protocol/contractMachine.ts takes it through the connection and session
--   states, with the proof of apps/web/protocol/auth.ts (Machine). The terminal of
--   apps/web/terminal/protocolTerminalAdapter.ts owns the machine, the socket and the timers
--   (Adapter). The page connects to an endpoint that apps/web/protocol/endpointPolicy.ts allows, in a
--   profile that apps/web/protocol/connectConfig.ts selects (Connect); the session is named in the
--   address and in a list of recent ones (Sessions); apps/web/terminal/browserRecovery.ts connects
--   again when the page or the network comes back (Recovery). The secret of a challenge is kept by
--   apps/web/protocol/credentialStore.ts (Credentials). apps/web/intelligence is a second client, with
--   its own handshake, of which the endpoint and the credential are shared (Intelligence).
--   services/control-plane/src/authorization.mjs decides who may do what (Control).
--
-- The files.
--   Prelude: the names that are shared. Texts are lists of UTF-16 code units (Prelude/Texts), and a
--     `throw new ProtocolViolation` is a value (Prelude/Results).
--   Codec/Base64: encodeBase64Url is `encode_base64url`, decodeBase64Url is `decode_base64url`, with
--     the platform's btoa and atob written out. Codec/Identifiers: the regular expressions as lists
--     of classes. Codec/Utf8: TextEncoder; Codec/Utf8/Whole: what whole characters are. Codec/Frames:
--     the types. Codec/Values and Codec/Validate: validateProtocolFrame is `validate_frame`, which
--     returns the checked fields as a `Frame`. Codec/Scan: assertJsonWithoutDuplicateKeys is
--     `scan_json`, whose index is the text that is left, and parseProtocolFrame is `parse_frame`.
--     Codec/WellFormed, Codec/Base64/RoundTrip, Codec/Base64/Canonical and the files of Codec/Scan/:
--     their properties.
--   Machine/State: the snapshot is the record `Machine`. Machine/Transitions: the two tables and
--     findTransition. Machine/Auth: validateContext. Machine/Apply: `apply`, whose answer is the new
--     state with the frame or the violation, since a call that throws may have changed the state.
--     Machine/Texts: `apply` on raw text. Machine/Runs: any sequence of calls, refused ones included.
--     The other files of Machine/ prove.
--   Adapter/State: the fields of ProtocolTerminalAdapter, and what it does to the world as a list of
--     `Action`. Adapter/Connection: release, fail, handleSendFailure and handleTransportClose.
--     Adapter/Methods: connect, pair, detach, disconnect, newSession, resize and sendInput.
--     Adapter/Receive: onmessage, receive and answerChallenge, a function for each part between two
--     awaits. Adapter/Events: `step` is one call, or one event of the socket, of a timer or of a
--     promise, and what stands behind an await is an event of its own. A ConnectionWork is a number,
--     so that an event may bear that of an older one. There a frame that is handed to sendFrame is an
--     `Action`, and its failure an event; sendFrame and withMachine themselves are Adapter/Sending,
--     over one ConnectionWork, from the queue to machine.apply, to socket.send and to the `finally`.
--     Adapter/Paste: sendPaste. Adapter/Invariant, Adapter/Answers, Adapter/Preservation,
--     Adapter/Growth, Adapter/Stale, Adapter/Reserved, Adapter/Numbers, Adapter/Cuts and
--     Adapter/Chunks prove.
--   Connect/Endpoint and Connect/Profiles: the two policies and the profiles. Connect/Isolation and
--     Connect/Choice: their properties.
--   Sessions/Fragment: the fragment of the address. Sessions/Recent: the list of recent sessions.
--   Credentials: the two stores of apps/web/protocol/credentialStore.ts as `indexed_call` and
--     `memory_call`. Credentials/Agreement: their properties.
--   Intelligence/Answers: validResult of apps/web/intelligence/validate.ts is `valid_result`.
--     Intelligence/Requests: validRequest of apps/web/intelligence/request.ts is `valid_request`.
--     Intelligence/Client: the fields of IntelligenceClient of apps/web/intelligence/client.ts;
--     Intelligence/Client/Messages: its frames; Intelligence/Client/Steps: `step`, as for the adapter.
--     Intelligence/Exact, Intelligence/Commands and the other files of Intelligence/Client/ prove.
--   Control/Values, Control/Policy, Control/Lease, Control/Authorize: authorize, authorizeRoleMutation,
--     authorizeLease and authorizeProviderAction. Control/Granted and Control/Terms: their properties.
--   Recovery: `step` is one callback or method call, with the page and the adapter as it finds them.
--   Tests: concrete runs.
--
-- Bounds and fuel. Two loops run on fuel. The scanner of Codec/Scan gets one more than twice the
--   length of the text, since each of its calls reads a character or is followed by one that does; the
--   loop of `sendPaste` gets one more than the number of bytes, since each round sends one at least.
--   Both amounts are proved to be enough. Every other loop goes over a list. Numbers are the naturals;
--   a JSON number that is no natural is `other`, which every check refuses alike. The control plane
--   compares safe integers, which are those of Control/Values.
--
-- What stands for code that is elsewhere. HMAC-SHA-256, the import of a key and the value of a Date
--   are the fields of `Host`; the URL class is a function from texts to its parts; JSON.parse is a
--   function of a text, and for the scanner's strings another; the intelligence client takes the
--   platform as a `World`; the queue of frames takes the object of a frame and the length of its text.
--   Nothing is assumed of them but that the text of a frame is no shorter for a larger number
--   (`IsMonotone`), where a theorem says so. The credential stores take a `Platform`, with
--   two hypotheses where a theorem names them: an imported key keeps its flag and usages
--   (`KeepsImport`), and randomUUID gives identifiers of version 4 (`IsFresh`). The intelligence
--   client's ids are new while they are pending, where a theorem says so.
--
-- What is not modelled. Of the adapter a paste that is interrupted, the TextDecoder and the listeners;
--   the queue stands beside its other events and is not joined with them. The limit of the stack,
--   which makes the scanner refuse a text that is nested too deeply. Calls of `apply` whose awaits
--   interleave, which the adapter's queue rules out; requests of IndexedDB that fail; the export of
--   apps/web/intelligence; the React components; apps/windows-agent and packages, which are other
--   programs.
pub mod Prelude
pub mod Json
pub mod Codec
pub mod Machine
pub mod Sessions
pub mod Recovery
pub mod Connect
pub mod Control
pub mod Tests
pub mod Intelligence
pub mod Credentials
pub mod Adapter
