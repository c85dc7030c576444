-- ===== src/Lib.antt =====
-- The native engine of the TeamSpeak client (native/src/lib.rs and native/src/api.rs) in antt.
--
-- The engine keeps a table of sessions, one to a server connection. The user interface calls entry
-- points `ts_*`, which check their arguments and send a `Command` to the session's channel; the
-- event loop takes the commands from the channel through a token bucket that protects the
-- connection from flood kicks, makes messages and voice packets of them, turns what the server tells
-- into the roster and into events, and decodes incoming voice into a jitter buffer for each speaker,
-- from which the audio callback plays. The end of the loop takes the session out of the
-- table.
--
-- - Base: shared names, Boolean tests, lists over native numbers, maps as association lists, machine
--   words.
-- - Command, Budget: `Command`, `flood_cost`, `supersedes` and `CommandBudget` of native/src/lib.rs,
--   and the drain loop of `event_loop`. Budget/Invariant, Rate, Order, Progress and Merge hold its
--   theorems; Budget/Runs has its runs as a relation between budgets, for the event loop.
-- - Text: how C strings are read, trimmed and cut (native/src/api.rs).
-- - Events, Engine: the events, the roster, `TsConnection`, `Session` and the statics of
--   native/src/lib.rs. Locks and atomics are the values that they guard, an entry point is one step.
-- - Requests: the entry points that queue one command, in Chat, Channels, Moderation, Status and
--   Files; Calls has them as one type. Admission is about what they send, Admission/Accepted about
--   what they let through.
-- - Connect: `ts_connect` and `ts_cancel_connect`; Connect/Server is what passes between `do_connect`
--   and tsclientlib, Connect/Handshake the task with `do_connect`, Connect/Failures its failures.
-- - Disconnect: `ts_disconnect`, `finalize_disconnect` with the audio that they drop, and how events
--   and panics reach `ts_poll_events`.
-- - Roster: `refresh_from_book` of native/src/api.rs, from the book of tsclientlib to the channels
--   and clients that the user interface sees.
-- - EventLoop: `event_loop` of native/src/api.rs with `handle_control_item`,
--   `decode_to_client_buffer` and `hybrid_vad_should_transmit`. It uses Budget for the pace, Roster,
--   Transfers and Jitter for what it hears, and Disconnect for its end. EventLoop/Asked joins it with
--   the entry points of Requests, over a channel that is a list of commands.
-- - Redact: `redact` of native/src/lib.rs, which takes secrets out of what is logged.
-- - Settings: the entry points of native/src/api.rs for the microphone, the voice gate and the volume
--   of a client.
-- - Maintenance: the ticks of `spawn_maintenance_task` of native/src/api.rs, which clean up speakers
--   and restart the output.
-- - Uid: `base64_decode_uid`.
-- - Whisper: target lists, allow list and switches of whispering.
-- - Transfers: downloads, uploads and their answers; Transfers/Listings: listings of directories and
--   the metadata of files, from the entry points to `handle_control_item`.
-- - Jitter: `ClientJitterBuffer`, the writer in `decode_to_client_buffer` and the reader in
--   `build_output_stream`.
--
-- Representation. Integers are native numbers, with each wrap-around written out; an `f32` that is
-- only stored is its bit pattern. Token balances and times are exact: one unit is half a billionth
-- of a token and one nanosecond, where the source rounds to `f32`. The drain loop runs on fuel, one
-- more than there are commands, and each round takes one. A map is a list of entries. Of the
-- tables of decoders and buffers the engine record has the keys; Jitter has the buffer of one
-- speaker. `ts_connect` is split where its background task starts, so that both orders of the two
-- can be told.
-- Parameters stand for what the engine only calls: the sending half of the tokio channel, what
-- tsclientlib answers to an attempt and to the calls of the event loop, the Opus encoder, the
-- arithmetic of `f32` in the voice gate, the parsers of JSON texts and IP addresses, the size of a
-- local file. What the Opus decoders make of a packet comes with it, as do the texts that the source
-- gets from values of tsclientlib. A round of the event loop is a function of what it finds, with one
-- time for all its calls of `Instant::now`; the loop over the frames of a call of `SendAudio` runs
-- on fuel, one more than there are whole frames, and each frame takes one.
--
-- Not modelled: the vendored native/local_tsclientlib, Opus and cpal, the mixing of samples, the
-- sockets of file transfers, the printing of logs and statistics, the getters that print JSON, the
-- volume of all servers, and the interleaving of threads inside one entry point, round or tick.
pub mod Base
pub mod Command
pub mod Budget
pub mod Text
pub mod Events
pub mod Engine
pub mod Requests
pub mod Roster
pub mod Maintenance
pub mod Settings
pub mod Redact
pub mod Whisper
pub mod Jitter
pub mod Transfers
pub mod Connect
pub mod Disconnect
pub mod Uid
pub mod EventLoop
