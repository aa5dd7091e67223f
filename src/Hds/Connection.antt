-- ===== src/Hds/Connection.antt =====
-- `HDSConnection` of hds.py: its counters, the requests that wait for their response, `_send` and the
-- three calls above it, `_dispatch`, `_run` and `close`.
use atv_homekit_remote.Prelude.{
  ℕ, zero, suc, ◌+◌, Bool, true, false, Option, none, some, List, [], ◌∷◌, ◌++◌, ltb, ◌&&◌,
  if◌then◌else◌, ◌≡◌, length, take, drop, Bytes, Result, ok, err, Error, value_error,
  connection_error, invalid_tag, out_of_fuel, ◌>>=◌,
}
use atv_homekit_remote.Prelude.Int.{ℤ, pos, negsuc}
use atv_homekit_remote.Prelude.Dict.{Dict, lookup, contains, insert, erase}
use atv_homekit_remote.Utf8.{Text}
use atv_homekit_remote.HdsCodec.Value.{HdsValue, Fields, Formats, dict, end, list_eq}
use atv_homekit_remote.Hds.Message.{
  Message, event_message, request_message, response_message, Conversions, nonce, decode_message,
  build_payload, frame_header, read_frame_header, event_header, request_header, response_header,
}

-- ChaCha20-Poly1305: a key, a nonce, a text and the data that is only authenticated. A text is
-- longer by the tag, and opens under the same key, nonce and data.
pub record Cipher : Type 0 where
  pub encrypt : (key nonce plain header : Bytes) → Bytes
  pub decrypt : (key nonce encrypted header : Bytes) → Option Bytes
  pub length-encrypt :
      (key nonce plain header : Bytes) → length (encrypt key nonce plain header) ≡ length plain + 16
  pub decrypt-encrypt :
      (key nonce plain header : Bytes)
      → decrypt key nonce (encrypt key nonce plain header) header ≡ some plain

-- "control" and "hello"
abbrev pub control_protocol : Text
control_protocol = 99 ∷ 111 ∷ 110 ∷ 116 ∷ 114 ∷ 111 ∷ 108 ∷ []

abbrev pub hello_topic : Text
hello_topic = 104 ∷ 101 ∷ 108 ∷ 108 ∷ 111 ∷ []

-- `await self.reader.readexactly(n)`, where the rest of the stream is known.
unfoldable pub readexactly : ℕ → Bytes → Option (Bytes × Bytes)
readexactly n stream = if ltb (length stream) n then none else some (take n stream, drop n stream)

-- `self._responses.pop(id, None)` reads the entry of an identifier that came from outside.
abbrev pub lookup_id {ℓ} : {V : Type ℓ} → ℤ → Dict V → Option V
lookup_id (pos n) d = lookup n d
lookup_id (negsuc n) d = none

abbrev pub erase_id {ℓ} : {V : Type ℓ} → ℤ → Dict V → Dict V
erase_id (pos n) d = erase n d
erase_id (negsuc n) d = d

module _ (fm : Formats) where
  open fm use {Float}

  -- What a future was given: `set_result`, `set_exception` or `cancel`.
  pub data Answer : Type 0 where
    result_of : (status : ℤ) → Fields Float → Answer
    exception_of : Error → Answer
    cancelled : Answer

  -- A future is named by a number; `answers` has what the futures were given, in order, and
  -- `written` the frames that went to the writer.
  pub record Connection : Type 0 where
    pub out_key : Bytes
    pub in_key : Bytes
    pub out_nonce : ℕ
    pub in_nonce : ℕ
    pub responses : Dict ℕ
    pub next_future : ℕ
    pub answers : List (ℕ × Answer)
    pub closed : Bool
    pub target_identifier : Option ℤ
    pub written : List Bytes

  -- How a call ended, and the connection then.
  abbrev pub Sent {ℓ} : Type ℓ → Type ℓ
  Sent A = Result A × Connection

  -- `HDSConnection.__init__`
  unfoldable pub new_connection : Bytes → Bytes → Connection
  new_connection out_key in_key = record {
    out_key = out_key;
    in_key = in_key;
    out_nonce = 0;
    in_nonce = 1;
    responses = [];
    next_future = 0;
    answers = [];
    closed = false;
    target_identifier = none;
    written = [];
  }

  -- `future.done()`
  abbrev pub is_done : ℕ → List (ℕ × Answer) → Bool
  is_done future answers = contains future answers

  -- `if not future.done(): future.set_...(...)`
  unfoldable pub settle : ℕ → Answer → List (ℕ × Answer) → List (ℕ × Answer)
  unfolding contains
  settle future answer answers =
      if is_done future answers then answers else answers ++ ((future, answer) ∷ [])

  -- The loop of `close` over the futures.
  unfoldable pub fail_all : Dict ℕ → List (ℕ × Answer) → List (ℕ × Answer)
  unfolding settle
  fail_all [] answers = answers
  fail_all ((id, future) ∷ responses) answers =
      fail_all responses (settle future (exception_of connection_error) answers)

  unfoldable pub close : Connection → Connection
  unfolding fail_all
  close c =
      if c.closed
      then c
      else record c { closed = true; responses = []; answers = fail_all c.responses c.answers }

  -- The part of `_dispatch` for a response.
  unfoldable pub take_response : ℤ → ℤ → Fields Float → Connection → Connection
  unfolding settle
  take_response id status message c = elim (lookup_id id c.responses) [
    | none ↦ c
    | some future ↦ record c {
      responses = erase_id id c.responses;
      answers = settle future (result_of status message) c.answers;
    }
  ]

  -- The loop of `send_request` over what `secrets.randbits` gives.
  unfoldable pub draw_id : List ℕ → Dict ℕ → Result ℕ
  draw_id [] responses = err out_of_fuel
  draw_id (id ∷ draws) responses =
      let again = draw_id draws responses in if contains id responses then again else ok id

  -- The `finally` of `send_request`.
  unfoldable pub end_request : ℕ → ℕ → Connection → Connection
  unfolding settle
  end_request id future c = record c {
    responses = erase id c.responses;
    answers = settle future cancelled c.answers;
  }

  -- The future of a new request is registered.
  unfoldable pub register : ℕ → Connection → Connection
  register id c = record c {
    responses = insert id c.next_future c.responses;
    next_future = suc c.next_future;
  }

  abbrev pub drained : Option Error → Connection → Sent (Unit {0})
  drained none c = (ok tt, c)
  drained (some e) c = (err e, c)

  module _ (cf : Cipher) where
    -- A frame: its header, then the text under a nonce.
    unfoldable pub seal_frame : Bytes → Bytes → Bytes → Bytes
    unfolding frame_header
    seal_frame key counter payload =
        frame_header fm payload ++ cf.encrypt key counter payload (frame_header fm payload)

    -- `_send`, with what `drain` raises.
    unfoldable pub send :
        Option Error → HdsValue Float → HdsValue Float → Connection → Sent (Unit {0})
    unfolding build_payload nonce seal_frame
    send fault header message c =
        if c.closed then (err connection_error, c) else elim (build_payload fm header message) [
          | err e ↦ (err e, c)
          | ok payload ↦ elim (nonce (pos c.out_nonce)) [
            | err e ↦ (err e, c)
            | ok counter ↦ drained fault (record c {
              out_nonce = suc c.out_nonce;
              written = c.written ++ (seal_frame c.out_key counter payload ∷ []);
            })
          ]
        ]

    unfoldable pub send_event :
        Option Error → Text → Text → Fields Float → Connection → Sent (Unit {0})
    unfolding send
    send_event fault protocol topic message c =
        send fault (event_header fm protocol topic) (dict message) c

    unfoldable pub send_response :
        Option Error → Text → Text → ℤ → ℤ → Fields Float → Connection → Sent (Unit {0})
    unfolding send
    send_response fault protocol topic id status message c =
        send fault (response_header fm protocol topic id status) (dict message) c

    -- The `finally` after a send that raises; after one that returns, the call waits.
    abbrev pub then_wait : ℕ → ℕ → Sent (Unit {0}) → Sent (ℕ × ℕ)
    then_wait id future (ok x, c) = (ok (id, future), c)
    then_wait id future (err e, c) = (err e, end_request id future c)

    -- `send_request`, up to the wait; what it returns is the identifier and the future.
    unfoldable pub begin_request :
        Option Error → List ℕ → Text → Text → Fields Float → Connection → Sent (ℕ × ℕ)
    unfolding draw_id register send end_request
    begin_request fault draws protocol topic message c = elim (draw_id draws c.responses) [
      | err e ↦ (err e, c)
      | ok id ↦
          then_wait id c.next_future
            (send fault (request_header fm protocol topic (pos id)) (dict message) (register id c))
    ]

    -- What `_run` finds in the stream: its end, a frame that it refuses, or a payload.
    pub data Received : Type 0 where
      ended : Received
      refused : Error → Received
      received : Bytes → Bytes → Received

    -- The text behind a frame's header.
    unfoldable pub open_frame : Bytes → ℕ → Bytes → Option (Bytes × Bytes) → Received
    unfolding nonce
    open_frame key counter header none = ended
    open_frame key counter header (some (encrypted, rest)) = elim (nonce (pos counter)) [
      | err e ↦ refused e
      | ok n ↦ elim (cf.decrypt key n encrypted header) [
        | none ↦ refused invalid_tag
        | some payload ↦ received payload rest
      ]
    ]

    unfoldable pub read_frame : Bytes → ℕ → Option (Bytes × Bytes) → Received
    unfolding read_frame_header open_frame readexactly
    read_frame key counter none = ended
    read_frame key counter (some (header, rest)) = elim (read_frame_header header) [
      | err e ↦ refused e
      | ok size ↦ open_frame key counter header (readexactly (size + 16) rest)
    ]

    -- One round of the loop of `_run`, up to the dispatch.
    unfoldable pub receive : Bytes → ℕ → Bytes → Received
    unfolding read_frame readexactly
    receive key counter stream = read_frame key counter (readexactly 4 stream)

    module _ (cv : Conversions fm) (on_message : Message fm → Connection → Sent (Unit {0})) where
      -- `_dispatch`; `on_message` takes events and requests.
      unfoldable pub dispatch : Message fm → Connection → Sent (Unit {0})
      unfolding take_response
      dispatch (response_message protocol topic message id status) c =
          (ok tt, take_response id status message c)
      dispatch (event_message protocol topic message) c =
          on_message (event_message protocol topic message) c
      dispatch (request_message protocol topic message id) c =
          on_message (request_message protocol topic message id) c

      unfoldable pub dispatch_payload : Bytes → Connection → Sent (Unit {0})
      unfolding dispatch decode_message
      dispatch_payload payload c = elim (decode_message fm cv payload) [
        | err e ↦ (err e, c)
        | ok message ↦ dispatch message c
      ]

      abbrev pub then_receive : Sent (Unit {0}) → (Connection → Sent (Unit {0})) → Sent (Unit {0})
      then_receive (err e, c) more = (err e, c)
      then_receive (ok x, c) more = more c

      -- The loop of `_run`. A round that goes on takes a byte at least.
      unfoldable pub run_loop : ℕ → Bytes → Connection → Sent (Unit {0})
      unfolding receive dispatch_payload
      run_loop zero stream c = (err out_of_fuel, c)
      run_loop (suc fuel) stream c =
          let round : Sent (Unit {0}) = elim (receive c.in_key c.in_nonce stream) [
            | ended ↦ (ok tt, c)
            | refused e ↦ (err e, c)
            | received payload rest ↦
                then_receive (dispatch_payload payload (record c { in_nonce = suc c.in_nonce }))
                  (run_loop fuel rest)
          ] in
          if c.closed then (ok tt, c) else round

      -- The first message is control/hello, and is answered.
      unfoldable pub check_hello : Message fm → Result ℤ
      unfolding list_eq
      check_hello (request_message protocol topic message id) =
          if list_eq protocol control_protocol && list_eq topic hello_topic
          then ok id
          else err value_error
      check_hello _ = err value_error

      -- The answer to the first message, then the loop.
      unfoldable pub greet : Option Error → Bytes → Connection → Result ℤ → Sent (Unit {0})
      unfolding run_loop send_response
      greet fault stream c (err e) = (err e, c)
      greet fault stream c (ok id) =
          then_receive (send_response fault control_protocol hello_topic id (pos 0) end c)
            (run_loop (suc (length stream)) stream)

      abbrev pub closing : Sent (Unit {0}) → Sent (Unit {0})
      closing (x, c) = (x, close c)

      -- `_run`: whatever ends it, the connection is closed; an exception is logged only.
      unfoldable pub run : Option Error → Bytes → Bytes → Connection → Sent (Unit {0})
      unfolding greet check_hello close
      run fault first stream c =
          closing (greet fault stream c (decode_message fm cv first >>= check_hello))
