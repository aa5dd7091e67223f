-- ===== src/Remote/SetupReply.antt =====
-- The answer of `hap_setup_hds_write` of remote.py is read back by the TLV8 decoder.
use atv_homekit_remote.Prelude.{
  ℕ, ◌≡◌, refl, sym, ◌∙◌, ◌^◌, inl, inr, none, List, [], ◌∷◌, ◌++◌, append_assoc, append-nil, arith,
  ltb, Bytes, to_le, Result, ok, err, overflow_error, Bool-cases,
}
use atv_homekit_remote.Prelude.Int.{pos, is_within}
use atv_homekit_remote.Prelude.Dict.{insert}
use atv_homekit_remote.Tlv8.{bytes, normalize_value, encode, decode, serialize, u16, to_bytes}
use atv_homekit_remote.Tlv8.Parsing.{segments-serialize, serialize-append}
use atv_homekit_remote.Tlv8.Chunks.{encode_lem, entry_values, item_segments, value_segments}
use atv_homekit_remote.Tlv8.RoundTrip.{AreSeparated, store, decode_loop-item_segments}
use atv_homekit_remote.Remote.Media.{setup_reply, bytes_entry}

-- The status, the port, and the accessory's salt.
abbrev pub reply_items : ℕ → Bytes → List (ℕ × Bytes)
reply_items port salt = (0x01, 0 ∷ []) ∷ (0x02, 1 ∷ 2 ∷ to_le 2 port) ∷ (0x03, salt) ∷ []

-- The status and the port, as they are written.
abbrev stripped_items : ℕ → List (ℕ × Bytes)
stripped_items port = (0x01, 0 ∷ []) ∷ (0x02, 1 ∷ 2 ∷ to_le 2 port) ∷ []

pub ok_inj : {A : Type 0} {x y : A} → Path (Result A) (ok x) (ok y) → x ≡ y
ok_inj h = cc

setup_reply-serialize :
    (port : ℕ) (stripped : Bytes)
    → setup_reply port ≡ ok stripped
    → stripped ≡ serialize (item_segments (stripped_items port))
unfolding setup_reply u16 to_bytes encode to_le item_segments value_segments serialize
setup_reply-serialize port stripped e = elim (Bool-cases (ltb port (256 ^ 2))) [
  | inl small ↦ sym (ok_inj (rw small at e))
  | inr large ↦ absurd (refused (rw large at e))
]
  where
    refused : {x : Bytes} → Path (Result Bytes) (err overflow_error) (ok x) → ⊥
    refused h = cc

bytes_entry-serialize :
    (salt bs : Bytes)
    → bytes_entry 0x03 salt ≡ ok bs
    → bs ≡ serialize (item_segments ((0x03, salt) ∷ []))
unfolding entry_values is_within normalize_value
bytes_entry-serialize salt bs e = ok_inj (sym e ∙ encode_lem ((pos 0x03, bytes salt) ∷ []))

store-reply_items :
    (port : ℕ) (salt : Bytes) → store (reply_items port salt) [] ≡ reply_items port salt
unfolding store insert to_le
store-reply_items port salt = refl

joined :
    (port : ℕ) (salt : Bytes)
    → serialize (item_segments (reply_items port salt))
      ≡ serialize (item_segments (stripped_items port))
        ++ serialize (item_segments ((0x03, salt) ∷ []))
unfolding item_segments
joined port salt = simp (serialize-append, append_assoc, append-nil)

pub reply-decode :
    (port : ℕ) (salt stripped tail : Bytes)
    → setup_reply port ≡ ok stripped
    → bytes_entry 0x03 salt ≡ ok tail
    → decode (stripped ++ tail) ≡ ok (reply_items port salt)
unfolding decode
reply-decode port salt stripped tail e h =
    rw
      (
        setup_reply-serialize port stripped e,
        bytes_entry-serialize salt tail h,
        ← joined port salt,
        segments-serialize (item_segments (reply_items port salt)),
        decode_loop-item_segments (reply_items port salt) [] none separated,
        store-reply_items port salt,
      )
      refl
  where
    separated : AreSeparated none (reply_items port salt)
    separated = ((λ e. omega arith), ((λ e. omega arith), tt))
