-- ===== src/Lib.antt =====
-- subraum: voice chat for squads. Companions talk to each other over WebRTC; a signaling server
-- brings them together and sees no media. This library models the parts that decide something, as
-- functions that can be run.
--
-- The parts, and where they stand:
--   Sessions      server/init/src/sessions.rs: share codes and PINs, the lock after wrong PINs, the
--                 sweep. `Sessions.Session` is the record, `create`, `join_at` and `reap` are the
--                 methods of `Sessions`. ConstantTime is the comparison of PINs and tokens.
--   Protocol      crates/protocol/src/lib.rs: the messages of companion and server.
--   Server        server/init: Auth is auth.rs, Turn is turn.rs, RateLimit is `RateLimiter`
--                 and Brokering the handlers `create_session` and `join_session` of main.rs, Pages is
--                 its `esc`, `render_changelog` and `ui_of` with the languages and sizes of i18n.rs,
--                 and Relay is its `handle_socket`. A frame of a socket is one step on `AppState` and the locals
--                 of the socket (`Relay.Socket`): `on_text` for a text, `cleanup` for the end. What is
--                 sent is a list of channel and message, and `deliver` puts it in the queues.
--   Crypto        apps/companion-core/src/crypto.rs: Handshake is the hybrid key agreement, Session
--                 seals and opens under the keys that come of it, Replay is its window, PeerCrypto
--                 has the sessions by peer id, RoomAudio has the keys of group audio.
--   Engine        apps/companion-core/src/lib.rs: Authority and Coordinator say who mints the key of
--                 the room and who takes it; they use RoomAudio of Crypto. Channels is the directory
--                 of channels and who hears whom, Watchdog the decisions of the periodic tick.
--                 Loop is the loop of `start`: Signals, Events, Commands, Reconnect and Tick are the
--                 arms of its `select!`, a turn of the loop is one step on `Loop.Loop`, and Turns
--                 runs a list of arms. Messages has what peers tell each other, and Handle the
--                 methods of `Engine`.
--   Signaling     apps/companion-core/src/signaling.rs: `connect_inner`, the pin of a certificate, and
--                 the two tasks of a connection, a message of which is one step.
--   Audio         apps/companion-core/src/audio.rs: Buffers are the bounded queues, Streams the
--                 callbacks that fill and empty those of the devices, Encode goes from
--                 the captured samples to the packets (through Dsp, the voice chain), Decode from the
--                 packets to the queues of the mix, Mixer from the mix to the speaker (through Gains
--                 and Radio). Earcon has the cues, Devices the change of a device, and Rig all that
--                 happens to the mix, as a list of events.
--   Serverless    apps/companion-core/src/serverless.rs: two peers who hand each other texts. A method
--                 gives a result and a list of effects, with those of `Drop` after an error.
--   Mesh          apps/companion-core/src/mesh.rs: the connections to the peers. Links has offers and
--                 answers, Ice the candidates and the queue of early ones, Callbacks what the webrtc
--                 crate reports, Ctrl the control channel, Sending what goes out over it, Diag the
--                 diagnosis of a failed connection. What a method does to the crate is a list of
--                 effects.
--   Ptt           apps/companion/src-tauri/src/lib.rs: Chord, Sources and Raw are the key chords, the
--                 merged transmit state and `handle_raw`, Bindings the commands that set a binding,
--                 Pads the buttons of a game pad (`diff_buttons`), and Controllers what becomes of
--                 the commands of the control server.
--   Commands      apps/companion/src-tauri/src/lib.rs: the commands of the webview on `AppState`.
--                 Starting has those that begin and end a session, Steering those to what runs, Links
--                 the link of a cold start. A command is one step; Ledger runs a list of them.
--   Control       apps/companion/src-tauri/src/control.rs: the gate of the control server for Stream
--                 Deck and the commands behind it. A message of a connection is one step (`serve`).
--   Inputs        apps/companion-core/src/signaling.rs and apps/companion/src-tauri/src/lib.rs: which
--                 server URLs (Url), which fields (Fields) and texts (Texts) of the webview are let
--                 in, and the ranges to which settings are brought (Ranges).
--   Base          Boolean tests on numbers, lists, dictionaries, strings as lists of bytes, bits,
--                 big-endian bytes and decimal digits.
--
-- Brokering asks the limiter and then Sessions. A session of Sessions gives out the room and the token
-- that Server.Auth checks at the join; the relay carries what the companions need to connect; over the
-- connection PeerCrypto agrees on keys, and the coordinator hands out the key of the room under them.
-- Commands puts what Inputs lets through into the configuration of an engine, whose URL and pin
-- Signaling dials; the engine's handle sets what the threads of Audio read.
--
-- How the code is modelled. Rust strings are lists of bytes, and the order and equality on them are
-- those of the bytes. Integers are natural numbers; where the code adds on u32 or u64 the wrap or the
-- saturation is written out. A `HashMap` is an association list, and the order of its entries stands
-- for the order of iteration. What comes from outside is an argument: the clock, the draws of the
-- random generator, JSON. Lowercasing and trimming of names too: they are library functions on
-- Unicode. The HMACs of the server are arguments, and so are the headers of a request. `f32` is a record
-- of its operations (`Audio.Float.Float`), with what the standard library documents of `clamp` as
-- `IsClamping`; Opus, RNNoise, the resampler and cpal are records too, and so are rustls, hex and
-- SHA-256 of the client (`Signaling.Libs`). ML-KEM, X25519, HKDF, SHA-256 and ChaCha20-Poly1305
-- are the fields of a record, and a theorem that relies on what they promise has that as its
-- hypothesis (`Crypto.Primitives.IsSound`). What the webrtc crate answers is a record
-- (`Mesh.Links.Webrtc`); JSON and base64 on the control channel are another (`Mesh.Codec`), with
-- `IsFaithful` for what reads back what it wrote.
--
-- Loops are recursion on the list that they go through, but for some. `create` draws codes until one
-- is free: it goes through a list of draws, and has no result where they end. On fuel run
-- `parse_binding` and `mark_all`, with the length of the text; `blocks`, with the length of the list,
-- which is at least the number of the blocks; `decimal`, with twenty digits, which are enough for 64
-- bits; `refill` of the mixer, whose fuel bounds the rounds that one refill takes, and `badge_of`, which
-- polls ten times as the code does.
--
-- Not modelled: the webrtc crate, cpal, Opus and RNNoise, the resampler and the rendering of the cues,
-- the rates of the network report (they are floating point), the setup of the engine before its loop,
-- TLS, the texts and the styling of the pages and the downloads, the sockets of the control server, the
-- ducking of other programs, windows and updates, the TypeScript front end. They are input and output,
-- or fixed data, or they call libraries; the manifest says of each why. Commands are single steps: that
-- two of them overlap while one waits is not in the model.
mod Base
pub mod ConstantTime
pub mod Sessions
pub mod Crypto
pub mod Audio
pub mod Commands
pub mod Control
pub mod Engine
pub mod Mesh
pub mod Protocol
pub mod Server
pub mod Serverless
pub mod Signaling
pub mod Ptt
pub mod Inputs
