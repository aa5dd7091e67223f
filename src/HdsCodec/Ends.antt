-- ===== src/HdsCodec/Ends.antt =====
-- The recursion of `Decoder` in hds_codec.py and the fuel that the model gives it.
use atv_homekit_remote.Prelude.{
  either, either_some, ℕ, zero, suc, ◌+◌, ◌≢◌, ◌≤◌, ◌<◌, [], ◌∷◌, ltb, arith, length, get_elem?,
  Bytes, Result, ok, err, value_error, out_of_fuel, ◌>>=◌,
}
use atv_homekit_remote.Utf8.{utf8_decode}
use atv_homekit_remote.HdsCodec.Value.{
  HdsValue, Fields, str, array, dict, nil, cons, end, Formats, is_hashable,
}
use atv_homekit_remote.HdsCodec.Encoder.{max_depth}
use atv_homekit_remote.HdsCodec.Tag.{Kind, tag_kind}
use atv_homekit_remote.HdsCodec.Tag
use atv_homekit_remote.HdsCodec.Decoder.{
  take_bytes, take_length, read_terminated, Reader, Read, track, take_tracked, sized_tracked,
  terminated_tracked, read_text, read_reference, is_terminator, read_items, read_items_until,
  read_field, read_fields, read_fields_until, read_kind, read_tagged, read_value, finish, decode,
}
use atv_homekit_remote.HdsCodec.Leaves.{
  NoFuel, fine, both_fine, utf8_loop-NoFuel, take_bytes-Leaves, take_length-Leaves,
  read_terminated-Leaves,
}
use atv_homekit_remote.HdsCodec.Progress.{Reads, returns, raises, and_then, then_takes, then_value}

module _ (fm : Formats) where
  open fm use {Float}

  -- A call of `_value` that returns has taken a byte at least.
  abbrev IsStep : Read fm (HdsValue Float) → Type 0
  IsStep read = (r : Reader fm) → Reads (length r.rest) (read r)

  read_items-Reads :
      (read : Read fm (HdsValue Float))
      → IsStep read
      → (count : ℕ) (r : Reader fm) (n : ℕ) → length r.rest < n
      → Reads n (read_items fm read count r)
  unfolding read_items
  read_items-Reads read step zero r n h = returns n nil r h
  read_items-Reads read step (suc count) r n h = and_then _ n (read r) _ (step r) (λ x r' h'.
      and_then n n (read_items fm read count r') _
        (read_items-Reads read step count r' n (omega arith))
        (λ xs r'' h''. returns n (cons x xs) r'' h''))

  read_items_until-Reads :
      (read : Read fm (HdsValue Float))
      → IsStep read
      → (rounds : ℕ) (r : Reader fm) (n : ℕ) → length r.rest < rounds
      → length r.rest < n
      → Reads n (read_items_until fm read rounds r)
  unfolding read_items_until
  read_items_until-Reads read step zero r n enough h = absurd (omega arith)
  read_items_until-Reads read step (suc rounds) r n enough h =
      and_then _ n (read r) _ (step r) (λ x r' h'.
        either (Reads n) (is_terminator fm x) (λ e. returns n nil r' (omega arith))
          (λ e.
            and_then n n (read_items_until fm read rounds r') _
              (read_items_until-Reads read step rounds r' n (omega arith) (omega arith))
              (λ xs r'' h''. returns n (cons x xs) r'' h'')))

  read_field-Reads :
      (read : Read fm (HdsValue Float))
      → IsStep read
      → (key : HdsValue Float) (result : Fields Float) (r : Reader fm) (n : ℕ) → length r.rest < n
      → Reads n (read_field fm read key result r)
  unfolding read_field
  read_field-Reads read step key result r n h = and_then _ n (read r) _ (step r) (λ v r' h'.
      either (Reads n) (is_hashable fm key) (λ e. returns n _ r' (omega arith))
        (λ e. raises fm _ n value_error (λ e. cc)))

  read_fields-Reads :
      (read : Read fm (HdsValue Float))
      → IsStep read
      → (count : ℕ) (result : Fields Float) (r : Reader fm) (n : ℕ) → length r.rest < n
      → Reads n (read_fields fm read count result r)
  unfolding read_fields
  read_fields-Reads read step zero result r n h = returns n result r h
  read_fields-Reads read step (suc count) result r n h =
      and_then _ n (read r) _ (step r) (λ key r' h'.
        and_then n n (read_field fm read key result r') _
          (read_field-Reads read step key result r' n (omega arith))
          (λ result' r'' h''. read_fields-Reads read step count result' r'' n h''))

  read_fields_until-Reads :
      (read : Read fm (HdsValue Float))
      → IsStep read
      → (rounds : ℕ) (result : Fields Float) (r : Reader fm) (n : ℕ) → length r.rest < rounds
      → length r.rest < n
      → Reads n (read_fields_until fm read rounds result r)
  unfolding read_fields_until
  read_fields_until-Reads read step zero result r n enough h = absurd (omega arith)
  read_fields_until-Reads read step (suc rounds) result r n enough h =
      and_then _ n (read r) _ (step r) (λ key r' h'.
        either (Reads n) (is_terminator fm key) (λ e. returns n result r' (omega arith))
          (λ e.
            and_then (length r.rest) n (read_field fm read key result r') _
              (read_field-Reads read step key result r' (length r.rest) h')
              (λ result' r'' h''.
                read_fields_until-Reads read step rounds result' r'' n (omega arith)
                  (omega arith))))

  track-Reads :
      (v : HdsValue Float) (r : Reader fm) (n : ℕ) → length r.rest < n → Reads n (track fm v r)
  unfolding track
  track-Reads v r n h = returns n v _ h

  -- What stands for a literal's value does not run out of fuel.
  abbrev IsPlainRead : (Bytes → Result (HdsValue Float)) → Type 0
  IsPlainRead read = (bs : Bytes) → read bs ≢ err out_of_fuel

  take_tracked-Reads :
      (count : ℕ) (read : Bytes → Result (HdsValue Float)) (r : Reader fm) (n : ℕ)
      → IsPlainRead read
      → length r.rest < n
      → Reads n (take_tracked fm count read r)
  unfolding take_tracked
  take_tracked-Reads count read r n plain h =
      then_takes n n (take_bytes count r.rest) _ (take_bytes-Leaves count r.rest n h)
        (λ bs rest' h'.
          then_value n (read bs) _ (plain bs) (λ v. track-Reads v (record r { rest = rest' }) n h'))

  sized_tracked-Reads :
      (width : ℕ) (read : Bytes → Result (HdsValue Float)) (r : Reader fm) (n : ℕ)
      → IsPlainRead read
      → length r.rest < n
      → Reads n (sized_tracked fm width read r)
  unfolding sized_tracked
  sized_tracked-Reads width read r n plain h =
      then_takes n n (take_length width r.rest) _ (take_length-Leaves width r.rest n h)
        (λ count rest' h'. take_tracked-Reads count read (record r { rest = rest' }) n plain h')

  terminated_tracked-Reads :
      (end_byte : ℕ) (read : Bytes → Result (HdsValue Float)) (r : Reader fm) (n : ℕ)
      → IsPlainRead read
      → length r.rest < n
      → Reads n (terminated_tracked fm end_byte read r)
  unfolding terminated_tracked
  terminated_tracked-Reads end_byte read r n plain h =
      then_takes n n (read_terminated end_byte r.rest) _
        (read_terminated-Leaves end_byte r.rest n h)
        (λ bs rest' h'.
          then_value n (read bs) _ (plain bs) (λ v. track-Reads v (record r { rest = rest' }) n h'))

  read_reference-Reads :
      (index : ℕ) (r : Reader fm) (n : ℕ) → length r.rest < n → Reads n (read_reference fm index r)
  unfolding read_reference
  read_reference-Reads index r n h =
      either_some (Reads n) (get_elem? r.seen index) (λ e. raises fm _ n value_error (λ e. cc))
        (λ v e. returns n v r h)

  read_text-IsPlainRead : IsPlainRead (read_text fm)
  unfolding utf8_decode NoFuel
  read_text-IsPlainRead bs =
      both_fine (utf8_decode bs) _ (utf8_loop-NoFuel bs _) (λ t. fine (str t))

  plain-IsPlainRead : (f : Bytes → HdsValue Float) → IsPlainRead (λ bs. ok (f bs))
  plain-IsPlainRead f bs e = cc

  read_kind-Reads :
      (read : Read fm (HdsValue Float))
      → IsStep read
      → (kind : Kind) (r : Reader fm) (n : ℕ) → length r.rest < n
      → Reads n (read_kind fm read kind r)
  unfolding read_kind
  read_kind-Reads read step Tag.invalid r n h = raises fm _ n value_error (λ e. cc)
  read_kind-Reads read step Tag.true_tag r n h = track-Reads _ r n h
  read_kind-Reads read step Tag.false_tag r n h = track-Reads _ r n h
  read_kind-Reads read step Tag.terminator r n h = returns n _ r h
  read_kind-Reads read step Tag.null r n h = returns n _ r h
  read_kind-Reads read step Tag.uuid r n h = take_tracked-Reads _ _ r n (plain-IsPlainRead _) h
  read_kind-Reads read step Tag.date r n h = take_tracked-Reads _ _ r n (plain-IsPlainRead _) h
  read_kind-Reads read step Tag.minus_one r n h = track-Reads _ r n h
  read_kind-Reads read step (Tag.small_int k) r n h = track-Reads _ r n h
  read_kind-Reads read step (Tag.int_of width) r n h =
      take_tracked-Reads _ _ r n (plain-IsPlainRead _) h
  read_kind-Reads read step Tag.float32 r n h = take_tracked-Reads _ _ r n (plain-IsPlainRead _) h
  read_kind-Reads read step Tag.float64 r n h = take_tracked-Reads _ _ r n (plain-IsPlainRead _) h
  read_kind-Reads read step (Tag.utf8_short k) r n h =
      take_tracked-Reads _ _ r n read_text-IsPlainRead h
  read_kind-Reads read step (Tag.utf8_sized width) r n h =
      sized_tracked-Reads _ _ r n read_text-IsPlainRead h
  read_kind-Reads read step Tag.utf8_null r n h =
      terminated_tracked-Reads _ _ r n read_text-IsPlainRead h
  read_kind-Reads read step (Tag.data_short k) r n h =
      take_tracked-Reads _ _ r n (plain-IsPlainRead _) h
  read_kind-Reads read step (Tag.data_sized width) r n h =
      sized_tracked-Reads _ _ r n (plain-IsPlainRead _) h
  read_kind-Reads read step Tag.data_terminated r n h =
      terminated_tracked-Reads _ _ r n (plain-IsPlainRead _) h
  read_kind-Reads read step (Tag.compressed index) r n h = read_reference-Reads index r n h
  read_kind-Reads read step (Tag.array_of count) r n h =
      and_then n n (read_items fm read count r) _ (read_items-Reads read step count r n h)
        (λ xs r' h'. returns n (array xs) r' h')
  read_kind-Reads read step Tag.array_terminated r n h =
      and_then n n (read_items_until fm read (suc (length r.rest)) r) _
        (read_items_until-Reads read step (suc (length r.rest)) r n (omega arith) h)
        (λ xs r' h'. returns n (array xs) r' h')
  read_kind-Reads read step (Tag.dict_of count) r n h =
      and_then n n (read_fields fm read count end r) _ (read_fields-Reads read step count end r n h)
        (λ fs r' h'. returns n (dict fs) r' h')
  read_kind-Reads read step Tag.dict_terminated r n h =
      and_then n n (read_fields_until fm read (suc (length r.rest)) end r) _
        (read_fields_until-Reads read step (suc (length r.rest)) end r n (omega arith) h)
        (λ fs r' h'. returns n (dict fs) r' h')
  read_kind-Reads read step Tag.unknown r n h = raises fm _ n value_error (λ e. cc)

  read_tagged-Reads :
      (read : Read fm (HdsValue Float))
      → IsStep read
      → (rest : Bytes) (r : Reader fm) → Reads (length rest) (read_tagged fm read rest r)
  unfolding read_tagged
  read_tagged-Reads read step [] r = raises fm _ _ value_error (λ e. cc)
  read_tagged-Reads read step (tag ∷ rest') r =
      read_kind-Reads read step (tag_kind tag) (record r { rest = rest' }) _ (omega arith)

  read_value-IsStep :
      (fuel depth : ℕ) → 66 ≤ suc fuel + depth → IsStep (read_value fm (suc fuel) depth)
  unfolding read_value
  read_value-IsStep zero depth h r =
      either (Reads (length r.rest)) (ltb max_depth depth)
        (λ e. raises fm _ _ value_error (λ e. cc)) (λ e. absurd (ground arith))
  read_value-IsStep (suc fuel) depth h r =
      either (Reads (length r.rest)) (ltb max_depth depth)
        (λ e. raises fm _ _ value_error (λ e. cc))
        (λ e.
          read_tagged-Reads (read_value fm (suc fuel) (suc depth))
            (read_value-IsStep fuel (suc depth) (omega arith)) r.rest r)

  finish-NoFuel : (v : HdsValue Float) (r : Reader fm) → finish fm (v, r) ≢ err out_of_fuel
  unfolding finish
  finish-NoFuel v r =
      either (λ m. m ≢ err out_of_fuel) (is_terminator fm v) (λ e e'. ground arith)
        (λ e.
          either (λ m. m ≢ err out_of_fuel) (ltb 0 (length r.rest)) (λ e e'. ground arith)
            (λ e e'. ground arith))

  then_ends :
      (n : ℕ) (m : Result (HdsValue Float × Reader fm))
      → Reads n m
      → (m >>= finish fm) ≢ err out_of_fuel
  unfolding Reads
  then_ends n (ok (v, r)) h = finish-NoFuel v r
  then_ends n (err x) h = λ e. h.0 (ground arith)

  -- Whatever the input, the decoder ends: the depth limit and the bytes that are left bound its
  -- recursion, so the fuel the model gives it is never used up, and it returns a value or raises.
  pub decode-ne-out_of_fuel : (input : Bytes) → decode fm input ≢ err out_of_fuel
  unfolding decode
  decode-ne-out_of_fuel input =
      then_ends (length input) (read_value fm 66 0 (record { rest = input; seen = [] }))
        (read_value-IsStep 65 0 (omega arith) (record { rest = input; seen = [] }))
