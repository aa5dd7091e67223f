-- ===== src/HdsCodec/Leaves.antt =====
-- What the reads of hds_codec.py leave of the input, and that they end: take_bytes, lengths, terminated
-- literals and UTF-8 texts.
use atv_homekit_remote.Prelude.{
  either, ℕ, zero, suc, ◌+◌, ◌*◌, ◌-◌, ◌&&◌, ◌||◌, ◌≡◌, ◌≢◌, refl, ap, ◌<◌, [], ◌∷◌, leb, ltb, ◌==◌,
  arith, length, length-drop, Bytes, from_le, Result, ok, err, Error, value_error, unicode_error,
  out_of_fuel, ◌>>=◌,
}
use atv_homekit_remote.Utf8.{
  Pending, is_surrogate, lead_byte, next_byte, read_byte, end_of_text, utf8_loop,
}
use atv_homekit_remote.HdsCodec.Decoder.{take_bytes, take_length, read_terminated}

-- The call does not run out of fuel.
unfoldable pub NoFuel : {A : Type 0} → Result A → Type 0
NoFuel m = m ≢ err out_of_fuel

pub fine : {A : Type 0} (a : A) → NoFuel (ok a)
unfolding NoFuel
fine a h = cc

fails : (A : Type 0) (x : Error) → x ≢ out_of_fuel → NoFuel {A = A} (err x)
unfolding NoFuel
fails A x n h = n (ground arith)

pub both_fine :
    {A B : Type 0} (m : Result A) (f : A → Result B)
    → NoFuel m
    → ((a : A) → NoFuel (f a))
    → NoFuel (m >>= f)
unfolding NoFuel
both_fine (ok a) f h k = k a
both_fine (err x) f h k = λ e. h (ground arith)

unicode : (A : Type 0) → NoFuel {A = A} (err unicode_error)
unicode A = fails A unicode_error (λ h. cc)

lead_byte-NoFuel : (b : ℕ) → NoFuel (lead_byte b)
unfolding lead_byte
lead_byte-NoFuel b =
    either NoFuel (ltb b 0x80) (λ e. fine _)
      (λ e.
        either NoFuel (leb 0xc2 b && ltb b 0xe0) (λ e. fine _)
          (λ e.
            either NoFuel (leb 0xe0 b && ltb b 0xf0) (λ e. fine _)
              (λ e. either NoFuel (leb 0xf0 b && ltb b 0xf5) (λ e. fine _) (λ e. unicode _))))

next_byte-NoFuel : (more : ℕ) (p : Pending) (b : ℕ) → NoFuel (next_byte more p b)
unfolding next_byte
next_byte-NoFuel more p b =
    let value = p.value * 64 + (b - 0x80) in
    either NoFuel (ltb b 0x80 || leb 0xc0 b) (λ e. unicode _)
      (λ e.
        either NoFuel (ltb 0 more) (λ e. fine _)
          (λ e.
            either NoFuel (ltb value p.least || is_surrogate value || leb 0x110000 value)
              (λ e. unicode _) (λ e. fine _)))

read_byte-NoFuel : (due : ℕ) (p : Pending) (b : ℕ) → NoFuel (read_byte due p b)
unfolding read_byte
read_byte-NoFuel zero p b = lead_byte-NoFuel b
read_byte-NoFuel (suc more) p b = next_byte-NoFuel more p b

end_of_text-NoFuel : (due : ℕ) → NoFuel (end_of_text due)
unfolding end_of_text
end_of_text-NoFuel zero = fine []
end_of_text-NoFuel (suc due) = unicode _

pub utf8_loop-NoFuel : (bs : Bytes) (p : Pending) → NoFuel (utf8_loop bs p)
unfolding utf8_loop
utf8_loop-NoFuel [] p = end_of_text-NoFuel p.due
utf8_loop-NoFuel (b ∷ bs) p =
    both_fine (read_byte p.due p b) _ (read_byte-NoFuel p.due p b)
      (λ (chars, q). both_fine (utf8_loop bs q) _ (utf8_loop-NoFuel bs q) (λ rest. fine _))

-- A part of the input is read: the call does not run out of fuel, and leaves less than `n` bytes.
unfoldable pub Leaves {ℓ} : {A : Type ℓ} → ℕ → Result (A × Bytes) → Type ℓ
Leaves {A = A} n m =
    (m ≢ err out_of_fuel) × ((a : A) (rest : Bytes) → m ≡ ok (a, rest) → length rest < n)

taken : {A : Type 0} (n : ℕ) (a : A) (rest : Bytes) → length rest < n → Leaves n (ok (a, rest))
unfolding Leaves
taken n a rest h = ((λ e. cc), λ b s e. ground arith)

refused : (A : Type 0) (n : ℕ) (x : Error) → x ≢ out_of_fuel → Leaves {A = A} n (err x)
unfolding Leaves
refused A n x h = ((λ e. h (ground arith)), λ a r e. cc)

rest_of : {A : Type 0} (n : ℕ) (a : A) (rest : Bytes) → Leaves n (ok (a, rest)) → length rest < n
unfolding Leaves
rest_of n a rest h = h.1 a rest refl

error_of : (A : Type 0) (n : ℕ) (x : Error) → Leaves {A = A} n (err x) → x ≢ out_of_fuel
unfolding Leaves
error_of A n x h e = h.0 (ap err e)

pub take_bytes-Leaves :
    (count : ℕ) (rest : Bytes) (n : ℕ) → length rest < n → Leaves n (take_bytes count rest)
unfolding take_bytes
take_bytes-Leaves count rest n h =
    either (Leaves n) (ltb (length rest) count) (λ e. refused _ n value_error (λ h. cc))
      (λ e. taken _ _ _ (omega (arith, length-drop count rest)))

pub take_length-Leaves :
    (width : ℕ) (rest : Bytes) (n : ℕ) → length rest < n → Leaves n (take_length width rest)
unfolding take_length
take_length-Leaves width rest n h =
    then_taken (take_bytes width rest) (take_bytes-Leaves width rest n h)
      (λ a r s. taken n (from_le a) r s)
  where
    then_taken :
        (m : Result (Bytes × Bytes))
        → Leaves n m
        → ((a r : Bytes) → length r < n → Leaves n (ok (from_le a, r)))
        → Leaves n (m >>= λ (bs, rest'). ok (from_le bs, rest'))
    then_taken (ok (a, r)) l k = k a r (rest_of n a r l)
    then_taken (err x) l k = refused ℕ n x (error_of (Bytes) n x l)

pub read_terminated-Leaves :
    (end_byte : ℕ) (rest : Bytes) (n : ℕ)
    → length rest < n
    → Leaves n (read_terminated end_byte rest)
unfolding read_terminated
read_terminated-Leaves end_byte [] n h = refused _ n value_error (λ e. cc)
read_terminated-Leaves end_byte (b ∷ bs) n h =
    either (Leaves n) (b == end_byte) (λ e. taken n [] bs (omega arith))
      (λ e.
        then_terminated (read_terminated end_byte bs)
          (read_terminated-Leaves end_byte bs n (omega arith)))
  where
    then_terminated :
        (m : Result (Bytes × Bytes))
        → Leaves n m
        → Leaves n (m >>= λ (front, rest). ok (b ∷ front, rest))
    then_terminated (ok (a, r)) l = taken n (b ∷ a) r (rest_of n a r l)
    then_terminated (err x) l = refused Bytes n x (error_of Bytes n x l)
