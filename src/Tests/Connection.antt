-- ===== src/Tests/Connection.antt =====
-- A connection of hds.py, with a cipher that only appends a tag.
use atv_homekit_remote.Prelude.{
  ℕ, suc, ◌+◌, ◌-◌, ◌≡◌, refl, ap, ◌∙◌, ◌<◌, true, false, none, some, [], ◌∷◌, ◌++◌, arith, length,
  length-append, take, take-append, replicate, concat, Bytes, ok,
}
use atv_homekit_remote.Prelude.Dict.{contains}
use atv_homekit_remote.HdsCodec.Value.{end}
use atv_homekit_remote.Hds.Message.{Message}
use atv_homekit_remote.Hds.Connection.{
  Cipher, Connection, Sent, new_connection, run_loop, send_event, begin_request, close,
}
use atv_homekit_remote.Hds.Life.{
  Reachable, opened, after, event_sent, request_begun, closed_now, Seals, seal_all,
}
use atv_homekit_remote.Hds.Sealing.{Reachable-Seals}
use atv_homekit_remote.Hds.Served.{Reachable-answered}
use atv_homekit_remote.Hds.Receiving.{deliver, run_loop-frames}
use atv_homekit_remote.Remote.Valid.{HasUniqueKeys}
use atv_homekit_remote.Tests.Floats.{two_floats}
use atv_homekit_remote.Tests.Stream.{conversions, topic, protocol, message, event_payload}

abbrev tag : Bytes
tag = replicate 16 0

length-tag : (plain : Bytes) → length (plain ++ tag) ≡ length plain + 16
length-tag plain = length-append plain tag

opened_again :
    (plain : Bytes) → some (take (length (plain ++ tag) - 16) (plain ++ tag)) ≡ some plain
opened_again plain =
    let same : length (plain ++ tag) - 16 ≡ length plain = omega (arith, length-tag plain) in
    ap (λ n. some (take n (plain ++ tag))) same ∙ ap (λ t. some t) (take-append plain tag)

abbrev tagging : Cipher
tagging = record {
  encrypt = λ key nonce plain header. plain ++ tag;
  decrypt = λ key nonce encrypted header. some (take (length encrypted - 16) encrypted);
  length-encrypt = λ key nonce plain header. length-tag plain;
  decrypt-encrypt = λ key nonce plain header. opened_again plain;
}

abbrev fresh : Connection two_floats
fresh = new_connection two_floats (1 ∷ []) (2 ∷ [])

abbrev after_event : Connection two_floats
after_event = (send_event two_floats tagging none protocol topic message fresh).1

abbrev after_request : Connection two_floats
after_request = (begin_request two_floats tagging none (9 ∷ []) protocol topic end after_event).1

abbrev reached_request : Reachable two_floats tagging (1 ∷ []) (2 ∷ []) after_request
reached_request =
    after (after opened (event_sent none protocol topic message fresh))
      (request_begun none (9 ∷ []) protocol topic end after_event)

Reachable-Seals_example : Seals two_floats tagging (1 ∷ []) after_request
Reachable-Seals_example = Reachable-Seals two_floats tagging (1 ∷ []) reached_request

is_shut : (c : Connection two_floats) → c.closed ≡ false → (close two_floats c).closed ≡ true
unfolding close
is_shut c e = rw e refl

after_request_open : after_request.closed ≡ false
unfolding begin_request send_event new_connection atv_homekit_remote.HdsCodec.Encoder.encode
    atv_homekit_remote.HdsCodec.Encoder.checked atv_homekit_remote.HdsCodec.Encoder.fields_length
    atv_homekit_remote.HdsCodec.Encoder.◌⨾◌ atv_homekit_remote.HdsCodec.Encoder.append
    atv_homekit_remote.HdsCodec.Encoder.compress_or
    atv_homekit_remote.HdsCodec.Encoder.string_literal atv_homekit_remote.Utf8.utf8_encode
    atv_homekit_remote.Utf8.encode_point atv_homekit_remote.HdsCodec.Encoder.track_literal
    atv_homekit_remote.HdsCodec.Encoder.put_int64 atv_homekit_remote.HdsCodec.Words.pack_signed
    atv_homekit_remote.Prelude.to_le
after_request_open = refl

-- Both were written, under the counters 0 and 1.
after_request_sent : (length after_request.written ≡ 2) × (after_request.out_nonce ≡ 2)
unfolding begin_request send_event new_connection atv_homekit_remote.HdsCodec.Encoder.encode
    atv_homekit_remote.HdsCodec.Encoder.checked atv_homekit_remote.HdsCodec.Encoder.fields_length
    atv_homekit_remote.HdsCodec.Encoder.◌⨾◌ atv_homekit_remote.HdsCodec.Encoder.append
    atv_homekit_remote.HdsCodec.Encoder.compress_or
    atv_homekit_remote.HdsCodec.Encoder.string_literal atv_homekit_remote.Utf8.utf8_encode
    atv_homekit_remote.Utf8.encode_point atv_homekit_remote.HdsCodec.Encoder.track_literal
    atv_homekit_remote.HdsCodec.Encoder.put_int64 atv_homekit_remote.HdsCodec.Words.pack_signed
    atv_homekit_remote.Prelude.to_le
after_request_sent = (refl, refl)

Reachable-answered_example :
    let c = close two_floats after_request in
    (c.responses ≡ [])
    × HasUniqueKeys c.answers
    × ((f : ℕ) → f < c.next_future → contains f c.answers ≡ true)
unfolding close
Reachable-answered_example =
    Reachable-answered two_floats tagging {out_key = 1 ∷ []} {in_key = 2 ∷ []}
      (after reached_request (closed_now after_request)) (tt, (tt, (tt, tt)))
      (is_shut after_request after_request_open)

-- A handler that does nothing.
abbrev ignore : Message two_floats → Connection two_floats → Sent two_floats (Unit {0})
ignore m c = (ok tt, c)

run_loop-frames_example :
    let stream =
      concat (seal_all two_floats tagging (2 ∷ []) 1 (event_payload ∷ event_payload ∷ [])) in
    run_loop two_floats tagging conversions ignore (suc (length stream)) stream fresh
    ≡ deliver two_floats tagging conversions ignore (event_payload ∷ event_payload ∷ []) fresh
unfolding new_connection
run_loop-frames_example =
    run_loop-frames two_floats tagging conversions ignore (λ m c. (refl, refl))
      (event_payload ∷ event_payload ∷ []) fresh (omega arith, (omega arith, tt)) (omega arith)
