-- ===== src/Hds/Life.antt =====
-- The life of an `HDSConnection` of hds.py as calls in any order, each run to its end, and the frames
-- that it writes.
use atv_homekit_remote.Prelude.{
  ℕ, suc, ◌+◌, ◌≡◌, ap, ◌∙◌, ◌^◌, ◌≤◌, Option, some, List, [], ◌∷◌, ◌++◌, arith, length, All, Bytes,
  to_le, ok, Error,
}
use atv_homekit_remote.Prelude.Int.{ℤ}
use atv_homekit_remote.Utf8.{Text}
use atv_homekit_remote.HdsCodec.Value.{HdsValue, Fields, Formats}
use atv_homekit_remote.Hds.Message.{build_payload}
use atv_homekit_remote.Hds.Connection.{
  Cipher, Connection, new_connection, close, take_response, end_request, seal_frame, send_event,
  send_response, begin_request,
}

-- What `_nonce` gives for a counter of 64 bits.
abbrev pub nonce_bytes : ℕ → Bytes
nonce_bytes n = 0 ∷ 0 ∷ 0 ∷ 0 ∷ to_le 8 n

module _ (fm : Formats) where
  open fm use {Float}

  module _ (cf : Cipher) where
    -- A call on the connection, or a frame that was opened.
    pub data Step : Connection fm → Connection fm → Type 0 where
      event_sent :
          (fault : Option Error) (protocol topic : Text) (message : Fields Float)
          (c : Connection fm)
          → Step c (send_event fm cf fault protocol topic message c).1
      response_sent :
          (fault : Option Error) (protocol topic : Text) (id status : ℤ) (message : Fields Float)
          (c : Connection fm)
          → Step c (send_response fm cf fault protocol topic id status message c).1
      request_begun :
          (fault : Option Error) (draws : List ℕ) (protocol topic : Text) (message : Fields Float)
          (c : Connection fm)
          → Step c (begin_request fm cf fault draws protocol topic message c).1
      request_ended : (id future : ℕ) (c : Connection fm) → Step c (end_request fm id future c)
      response_taken :
          (id status : ℤ) (message : Fields Float) (c : Connection fm)
          → Step c (take_response fm id status message c)
      payload_opened : (c : Connection fm) → Step c (record c { in_nonce = suc c.in_nonce })
      identified :
          (identifier : ℤ) (c : Connection fm)
          → Step c (record c { target_identifier = some identifier })
      closed_now : (c : Connection fm) → Step c (close fm c)

    pub data Reachable (out_key in_key : Bytes) : Connection fm → Type 0 where
      opened : Reachable out_key in_key (new_connection fm out_key in_key)
      after :
          {c d : Connection fm} → Reachable out_key in_key c → Step c d → Reachable out_key in_key d

  -- The payload was built for some message.
  abbrev pub IsPayload : Bytes → Type 0
  IsPayload payload =
      (header : HdsValue Float) × (message : HdsValue Float) × (build_payload fm header message
        ≡ ok payload)

  module _ (cf : Cipher) where
    -- The frames of some payloads, under consecutive counters.
    abbrev pub seal_all : Bytes → ℕ → List Bytes → List Bytes
    seal_all key start [] = []
    seal_all key start (payload ∷ payloads) =
        seal_frame fm cf key (nonce_bytes start) payload ∷ seal_all key (suc start) payloads

    pub seal_all-append :
        (key : Bytes) (start : ℕ) (ps : List Bytes) (p : Bytes)
        → seal_all key start (ps ++ (p ∷ []))
          ≡ seal_all key start ps ++ (seal_frame fm cf key (nonce_bytes (length ps + start)) p ∷ [])
    seal_all-append key start [] p =
        let same : start ≡ 0 + start = omega arith in
        ap (λ n. seal_frame fm cf key (nonce_bytes n) p ∷ []) same
    seal_all-append key start (q ∷ ps) p =
        let same : length ps + suc start ≡ suc (length ps) + start = omega arith in
        ap (λ t. seal_frame fm cf key (nonce_bytes start) q ∷ t)
          (seal_all-append key (suc start) ps p
            ∙ ap (λ n. seal_all key (suc start) ps ++ (seal_frame fm cf key (nonce_bytes n) p ∷ []))
                same)

    -- The frames written are those of some payloads, each under its own counter, from 0 on.
    pub record IsSealed (out_key : Bytes) (c : Connection fm) (payloads : List Bytes) : Type 0 where
      pub key : c.out_key ≡ out_key
      pub frames : c.written ≡ seal_all out_key 0 payloads
      pub counter : c.out_nonce ≡ length payloads
      pub bounded : length payloads ≤ 2 ^ 64
      pub built : All IsPayload payloads

    abbrev pub Seals : Bytes → Connection fm → Type 0
    Seals out_key c = (payloads : List Bytes) × IsSealed out_key c payloads
