-- ===== src/Lib.antt =====
-- A model of the Python package atv_homekit_remote, a HomeKit remote for the Apple TV, and what was
-- proved of it. Paths are those of the repository.
--
-- The program: an Apple TV talks to the accessory through HomeKit characteristics, whose values are
-- TLV8 texts (src/atv_homekit_remote/tlv8.py), and over a HomeKit Data Stream, whose messages are
-- written by src/atv_homekit_remote/hds_codec.py. The characteristics
-- (src/atv_homekit_remote/hap.py) end in the handlers of `AppleTVHomeKitRemote` in
-- src/atv_homekit_remote/remote.py, which keep the targets; an utterance is sent over the data stream
-- (src/atv_homekit_remote/hds.py) by `SiriSession` in src/atv_homekit_remote/audio.py. Programs reach
-- the remote over HTTP (src/atv_homekit_remote/http_api.py).
--
-- The modules:
-- - Prelude: Booleans, lists, byte strings, texts, integers, dictionaries, and `Result`, a Python call
--   that returns or raises. `out_of_fuel` is no Python exception.
-- - Utf8: Python's `str.encode("utf-8")` and `bytes.decode("utf-8")`, which both codecs call.
-- - Tlv8: tlv8.py, a function for each function, and for each loop. Its children are the parser
--   (Parsing), the written form (Chunks), and the round trips (RoundTrip, ItemLists, ListLeads,
--   ListRoundTrip, Numbers, ByteValues).
-- - HdsCodec: hds_codec.py. Value has the Python values with their equality, and the interface
--   `Formats` for floats and UUIDs; Words the `struct` formats of integers; Tag the tags; Encoder and
--   Decoder the two classes, with the list of tracked values handed on. Tracking, Exact, Literals,
--   References, Scalars, Sequences, Entries, Containers and RoundTrip carry the round trip, and
--   Integers what becomes of every integer; Leaves, Progress and Ends have what the reads leave of
--   the input.
-- - Remote: remote.py. Target has the target configurations, read and written; State what the
--   handlers read and change, and what they call; Control the Target Control handlers, Media those of
--   audio, data stream and buttons, Press the call `press`, Config `RemoteConfig`, Loading
--   `_load_targets`, and Saving the value that `_save_targets` writes; Valid, Handlers, Writes,
--   Removal, Requests, Atomic, Streams, Life and Loaded the invariants and the behaviour on errors;
--   Arranged, SavedTarget and Saved what is loaded of what was saved; Buttons what holds of a target's
--   buttons; Accepts, SetupReply and SetUp which configurations and set ups are accepted. Sessions and
--   Events have the data stream connections and Siri sessions that the remote registers, as objects
--   named by numbers; Exclusive, Utterances, Watching and OneUtterance what is true of them in any
--   order of the operations.
-- - Audio: audio.py. Session and Steps have the methods and their sequences; Order, Handed, Orderly,
--   Calls, Drained and Complete what the connection is handed, and that the loops end.
-- - Hds: hds.py. Message has the nonces, payloads and frame headers, Connection `HDSConnection` with
--   its counters, pending requests and receive loop, Server the sessions that wait for their
--   connection, Handling `_handle_message`; Life has a connection's calls as steps; Framing, Replies,
--   Waiting, Pending, Closing, Accepting, Sealing, Answers, Futures, Served and Receiving what was proved of them.
-- - Hap: hap.py. Characteristic is the client's write to a characteristic, Driver the lookups of a HAP
--   connection, Rollback what was proved of the write.
-- - Http: http_api.py. Server has the settings and the token check, Handlers the statuses, the audio
--   limit and the files; Access and Replies what was proved of them.
-- - Tests: runs on small inputs.
--
-- Bounds: the loops of `segments`, `uint_le`, `write` and `_flush_locked` run on fuel that is the
-- length of what they read or one more, of which each round takes one at least; so does the receive
-- loop of `HDSConnection`. The decoder's recursion has fuel for 66 levels, where `_check_depth` stops
-- at depth 65. `send_request` draws identifiers from a list that stands for `secrets.randbits`, and
-- fails with `out_of_fuel` when all of it is in use. `str` of a number has the number itself as fuel,
-- of which each digit takes one.
--
-- Assumed of code that is not here: what `Formats` (struct, uuid), the `Platform` of Remote
-- (HAP-python, base64 and the file system), `Cipher` (ChaCha20-Poly1305) and `Codec` (libopus) say;
-- `Conversions` is Python's `str` and `int` of a decoded value, `Crypto` the key derivation and
-- decryption of the first frame, `Rules` HAP-python's characteristic, and the `Platform` of Http
-- Python's texts and `ipaddress`. What a connection's `drain` raises is a parameter, and so are the
-- values that `json.loads`, `wave` and `os.stat` give.
--
-- Not modelled: cli.py, and the constructors of hap.py that build HAP-python's services; of http_api.py,
-- starting, stopping and the JSON bodies; of hds.py, the TCP server's start and stop and the timers; of
-- remote.py, starting, stopping and `send_pcm`; of audio.py, the timeouts, `start`, `wait_closed`, and
-- other calls taken up while a send waits. A coroutine runs to its next wait without interruption. The
-- handlers of Control write down the connections that they close as calls, and Sessions has what a
-- closed connection changes. Exceptions have their class only.
pub mod Prelude
pub mod Utf8
pub mod Tlv8
pub mod HdsCodec
pub mod Remote
pub mod Audio
pub mod Tests
pub mod Hds
pub mod Http
pub mod Hap
