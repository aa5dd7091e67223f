-- ===== src/HdsCodec/Decoder.antt =====
-- `Decoder`. The state is the data from `i` on, and `seen`.
use atv_homekit_remote.Prelude.{
  ℕ, zero, suc, Bool, true, false, none, some, List, [], ◌∷◌, ◌++◌, ltb, ◌==◌, if◌then◌else◌,
  length, take, drop, get_elem?, Bytes, from_le, Result, ok, err, value_error, out_of_fuel, ◌>>=◌,
}
use atv_homekit_remote.Prelude.Int.{pos, negsuc}
use atv_homekit_remote.Utf8.{utf8_decode}
use atv_homekit_remote.HdsCodec.Value.{
  HdsValue, Items, Fields, null, terminator, bool, int, float, str, bytes, array, dict, nil, cons,
  end, Formats, is_hashable, put_field,
}
use atv_homekit_remote.HdsCodec.Words.{unpack_signed}
use atv_homekit_remote.HdsCodec.Encoder.{max_depth}
use atv_homekit_remote.HdsCodec.Tag.{Kind, tag_kind}
use atv_homekit_remote.HdsCodec.Tag

-- `_take`, on the data that is left.
unfoldable pub take_bytes : ℕ → Bytes → Result (Bytes × Bytes)
take_bytes count rest =
    if ltb (length rest) count then err value_error else ok (take count rest, drop count rest)

-- `_length`
unfoldable pub take_length : ℕ → Bytes → Result (ℕ × Bytes)
unfolding take_bytes
take_length width rest = do (bs, rest') ← take_bytes width rest; ok (from_le bs, rest')

-- `_read_terminated`: what stands before the terminator, and what follows it.
unfoldable pub read_terminated : ℕ → Bytes → Result (Bytes × Bytes)
read_terminated end_byte [] = err value_error
read_terminated end_byte (b ∷ bs) =
    if b == end_byte
    then ok ([], bs)
    else (do (front, rest) ← read_terminated end_byte bs; ok (b ∷ front, rest))

module _ (fm : Formats) where
  open fm use {Float, unpack_f, unpack_d, uuid_text}

  pub record Reader : Type 0 where
    pub rest : Bytes
    pub seen : List (HdsValue Float)

  abbrev pub Read {ℓ} : Type ℓ → Type ℓ
  Read A = Reader → Result (A × Reader)

  -- `return self._track(value)`
  unfoldable pub track : HdsValue Float → Read (HdsValue Float)
  track v r = ok (v, record r { seen = r.seen ++ (v ∷ []) })

  -- `count` bytes taken, and the value that they stand for tracked.
  unfoldable pub take_tracked : ℕ → (Bytes → Result (HdsValue Float)) → Read (HdsValue Float)
  unfolding take_bytes track
  take_tracked count read r = do
    (bs, rest') ← take_bytes count r.rest
    v ← read bs
    track v (record r { rest = rest' })

  -- The same, where `width` bytes hold the count.
  unfoldable pub sized_tracked : ℕ → (Bytes → Result (HdsValue Float)) → Read (HdsValue Float)
  unfolding take_length take_tracked
  sized_tracked width read r = do
    (count, rest') ← take_length width r.rest
    take_tracked count read (record r { rest = rest' })

  unfoldable pub terminated_tracked : ℕ → (Bytes → Result (HdsValue Float)) → Read (HdsValue Float)
  unfolding read_terminated track
  terminated_tracked end_byte read r = do
    (bs, rest') ← read_terminated end_byte r.rest
    v ← read bs
    track v (record r { rest = rest' })

  abbrev pub read_text : Bytes → Result (HdsValue Float)
  read_text bs = utf8_decode bs >>= λ t. ok (str t)

  abbrev pub read_bytes : Bytes → Result (HdsValue Float)
  read_bytes bs = ok (bytes bs)

  unfoldable pub read_reference : ℕ → Read (HdsValue Float)
  read_reference index r = elim (get_elem? r.seen index) [
    | none ↦ err value_error
    | some v ↦ ok (v, r)
  ]

  unfoldable pub is_terminator : HdsValue Float → Bool
  is_terminator terminator = true
  is_terminator _ = false

  -- `[self._value(depth=depth + 1) for _ in range(count)]`; `read` is that call.
  unfoldable pub read_items : Read (HdsValue Float) → ℕ → Read (Items Float)
  read_items read zero r = ok (nil, r)
  read_items read (suc count) r = do
    (x, r') ← read r
    (xs, r'') ← read_items read count r'
    ok (cons x xs, r'')

  -- `while True` up to the terminator. Each round reads a byte at least.
  unfoldable pub read_items_until : Read (HdsValue Float) → ℕ → Read (Items Float)
  unfolding is_terminator
  read_items_until read zero r = err out_of_fuel
  read_items_until read (suc fuel) r = do
    (x, r') ← read r
    let more = read_items_until read fuel r' >>= λ (xs, r''). ok (cons x xs, r'')
    if is_terminator x then ok (nil, r') else more

  -- `result[key] = self._value(...)`; an unhashable key raises after the value is read.
  unfoldable pub read_field :
      Read (HdsValue Float) → HdsValue Float → Fields Float → Read (Fields Float)
  unfolding is_hashable put_field
  read_field read key result r = do
    (v, r') ← read r
    if is_hashable fm key then ok (put_field fm key v result, r') else err value_error

  unfoldable pub read_fields : Read (HdsValue Float) → ℕ → Fields Float → Read (Fields Float)
  unfolding read_field
  read_fields read zero result r = ok (result, r)
  read_fields read (suc count) result r = do
    (key, r') ← read r
    (result', r'') ← read_field read key result r'
    read_fields read count result' r''

  unfoldable pub read_fields_until : Read (HdsValue Float) → ℕ → Fields Float → Read (Fields Float)
  unfolding read_field is_terminator
  read_fields_until read zero result r = err out_of_fuel
  read_fields_until read (suc fuel) result r = do
    (key, r') ← read r
    let more =
        read_field read key result r' >>= λ (result', r''). read_fields_until read fuel result' r''
    if is_terminator key then ok (result, r') else more

  -- What `_value` does on a tag of each kind; `read` is `_value` at the next depth.
  unfoldable pub read_kind : Read (HdsValue Float) → Kind → Read (HdsValue Float)
  unfolding track take_tracked sized_tracked terminated_tracked read_reference read_items
      read_items_until read_fields read_fields_until
  read_kind read Tag.invalid r = err value_error
  read_kind read Tag.true_tag r = track (bool true) r
  read_kind read Tag.false_tag r = track (bool false) r
  read_kind read Tag.terminator r = ok (terminator, r)
  read_kind read Tag.null r = ok (null, r)
  read_kind read Tag.uuid r = take_tracked 16 (λ bs. ok (str (uuid_text bs))) r
  read_kind read Tag.date r = take_tracked 8 (λ bs. ok (float (unpack_d bs))) r
  read_kind read Tag.minus_one r = track (int (negsuc 0)) r
  read_kind read (Tag.small_int n) r = track (int (pos n)) r
  read_kind read (Tag.int_of width) r =
      take_tracked width (λ bs. ok (int (unpack_signed width bs))) r
  read_kind read Tag.float32 r = take_tracked 4 (λ bs. ok (float (unpack_f bs))) r
  read_kind read Tag.float64 r = take_tracked 8 (λ bs. ok (float (unpack_d bs))) r
  read_kind read (Tag.utf8_short n) r = take_tracked n read_text r
  read_kind read (Tag.utf8_sized width) r = sized_tracked width read_text r
  read_kind read Tag.utf8_null r = terminated_tracked 0 read_text r
  read_kind read (Tag.data_short n) r = take_tracked n read_bytes r
  read_kind read (Tag.data_sized width) r = sized_tracked width read_bytes r
  read_kind read Tag.data_terminated r = terminated_tracked 3 read_bytes r
  read_kind read (Tag.compressed index) r = read_reference index r
  read_kind read (Tag.array_of count) r = read_items read count r >>= λ (xs, r'). ok (array xs, r')
  read_kind read Tag.array_terminated r =
      read_items_until read (suc (length r.rest)) r >>= λ (xs, r'). ok (array xs, r')
  read_kind read (Tag.dict_of count) r =
      read_fields read count end r >>= λ (fs, r'). ok (dict fs, r')
  read_kind read Tag.dict_terminated r =
      read_fields_until read (suc (length r.rest)) end r >>= λ (fs, r'). ok (dict fs, r')
  read_kind read Tag.unknown r = err value_error

  -- `_tag`, then the dispatch.
  unfoldable pub read_tagged : Read (HdsValue Float) → Bytes → Read (HdsValue Float)
  unfolding read_kind tag_kind
  read_tagged read [] r = err value_error
  read_tagged read (tag ∷ rest') r = read_kind read (tag_kind tag) (record r { rest = rest' })

  -- The depth check bounds the recursion, so 66 levels of fuel are enough from depth 0.
  unfoldable pub read_value : ℕ → ℕ → Read (HdsValue Float)
  unfolding read_tagged
  read_value zero depth r = err out_of_fuel
  read_value (suc fuel) depth r =
      let next = read_value fuel (suc depth) in
      if ltb max_depth depth then err value_error else read_tagged next r.rest r

  unfoldable pub finish : HdsValue Float × Reader → Result (HdsValue Float)
  unfolding is_terminator
  finish (v, r) =
      if is_terminator v
      then err value_error
      else if ltb 0 (length r.rest)
      then err value_error
      else ok v

  unfoldable pub decode : Bytes → Result (HdsValue Float)
  unfolding read_value finish
  decode input = read_value 66 0 (record { rest = input; seen = [] }) >>= finish
