-- ===== src/Audio/Order.antt =====
-- What the connection is handed by a `SiriSession` of audio.py, in any order of its calls.
use atv_homekit_remote.Prelude.{
  ℕ, zero, suc, ◌+◌, ◌≡◌, refl, sym, ap, ◌∙◌, ◌≤◌, Bool, true, false, List, [], ◌∷◌, ◌++◌, ◌==◌,
  ◌&&◌, if◌then◌else◌, arith, length, append_assoc, append-nil, All, All-append,
}
use atv_homekit_remote.Prelude.Int.{ℤ}
use atv_homekit_remote.Audio.Session.{
  Codec, AudioFrame, Packet, Event, data_event, close_event, number_packets, frames_per_hds_event,
}

-- from, from + 1, ..., `count` numbers.
abbrev pub numbers_from : ℕ → ℕ → List ℕ
numbers_from start zero = []
numbers_from start (suc count) = start ∷ numbers_from (suc start) count

numbers_from-append :
    (start n m : ℕ)
    → numbers_from start (n + m) ≡ numbers_from start n ++ numbers_from (start + n) m
numbers_from-append start zero m =
    let same : start ≡ start + 0 = omega arith in
    let none_more : 0 + m ≡ m = omega arith in
    ap (λ k. numbers_from start k) none_more ∙ ap (λ k. numbers_from k m) same
numbers_from-append start (suc n) m =
    let shifted : suc n + m ≡ suc (n + m) = omega arith in
    let moved : suc start + n ≡ start + suc n = omega arith in
    let shape : numbers_from start (suc n + m) ≡ start ∷ numbers_from (suc start) (n + m) =
      ap (λ k. numbers_from start k) shifted in
    shape
    ∙ ap (λ t. start ∷ t) (numbers_from-append (suc start) n m)
    ∙ ap (λ k. start ∷ (numbers_from (suc start) n ++ numbers_from k m)) moved

module _ (cd : Codec) where
  abbrev pub packet_numbers : List (Packet cd) → List ℕ
  packet_numbers [] = []
  packet_numbers (p ∷ ps) = p.number ∷ packet_numbers ps

  abbrev pub event_numbers : Event cd → List ℕ
  event_numbers (data_event packets stream eos) = packet_numbers packets
  event_numbers (close_event stream reason) = []

  -- The sequence numbers of all packets handed over, in their order.
  abbrev pub log_numbers : List (Event cd × Bool) → List ℕ
  log_numbers [] = []
  log_numbers ((event, delivered) ∷ log) = event_numbers event ++ log_numbers log

  abbrev pub is_close : Event cd × Bool → Bool
  is_close (close_event stream reason, true) = true
  is_close _ = false

  abbrev pub is_end : Event cd × Bool → Bool
  is_end (data_event packets stream true, true) = true
  is_end _ = false

  abbrev pub is_data : Event cd × Bool → Bool
  is_data (data_event packets stream eos, delivered) = true
  is_data (close_event stream reason, delivered) = false

  abbrev pub count_if : (Event cd × Bool → Bool) → List (Event cd × Bool) → ℕ
  count_if p [] = 0
  count_if p (x ∷ xs) = (if p x then 1 else 0) + count_if p xs

  abbrev pub IsBounded : Event cd × Bool → Type 0
  IsBounded (data_event packets stream eos, delivered) = length packets ≤ frames_per_hds_event
  IsBounded (close_event stream reason, delivered) = Unit

  -- No data event stands behind a delivered end of stream.
  abbrev pub is_silent_after_end : List (Event cd × Bool) → Bool
  is_silent_after_end [] = true
  is_silent_after_end (x ∷ xs) =
      (if is_end x then (count_if is_data xs == 0) else true) && is_silent_after_end xs

  abbrev pub one_if : Bool → ℕ
  one_if true = 1
  one_if false = 0

  pub record IsOrder (log : List (Event cd × Bool)) (sequence : ℕ)
      (eos_sent close_sent ending : Bool) : Type 0 where
    pub numbered : log_numbers log ≡ numbers_from 0 sequence
    pub bounded : All IsBounded log
    pub one_end : count_if is_end log ≡ one_if eos_sent
    pub silent : is_silent_after_end log ≡ true
    pub one_close : count_if is_close log ≡ one_if close_sent
    pub ends_ending : (eos_sent ≡ true) → ending ≡ true

  log_numbers-append :
      (xs ys : List (Event cd × Bool)) → log_numbers (xs ++ ys) ≡ log_numbers xs ++ log_numbers ys
  log_numbers-append [] ys = refl
  log_numbers-append ((event, delivered) ∷ xs) ys =
      ap (λ t. event_numbers event ++ t) (log_numbers-append xs ys)
      ∙ sym (append_assoc (event_numbers event) (log_numbers xs) (log_numbers ys))

  count_if-append :
      (p : Event cd × Bool → Bool) (xs ys : List (Event cd × Bool))
      → count_if p (xs ++ ys) ≡ count_if p xs + count_if p ys
  count_if-append p [] ys = omega arith
  count_if-append p (x ∷ xs) ys = omega (arith, count_if-append p xs ys)

  packet_numbers-number_packets :
      (n : ℕ) (fs : List (AudioFrame cd))
      → packet_numbers (number_packets cd n fs) ≡ numbers_from n (length fs)
  unfolding number_packets
  packet_numbers-number_packets n [] = refl
  packet_numbers-number_packets n (f ∷ fs) =
      ap (λ t. n ∷ t) (packet_numbers-number_packets (suc n) fs)

  length-number_packets :
      (n : ℕ) (fs : List (AudioFrame cd)) → length (number_packets cd n fs) ≡ length fs
  unfolding number_packets
  length-number_packets n [] = refl
  length-number_packets n (f ∷ fs) = ap suc (length-number_packets (suc n) fs)

  -- An event that is no data event may stand anywhere; a data event, where no end of stream is before it.
  silent-append_close :
      (xs : List (Event cd × Bool)) (y : Event cd × Bool)
      → is_data y ≡ false
      → is_end y ≡ false
      → is_silent_after_end xs ≡ true
      → is_silent_after_end (xs ++ (y ∷ [])) ≡ true
  silent-append_close [] y d e h = rw e refl
  silent-append_close (x ∷ xs) y d e h =
      ground (arith, count_if-append is_data xs (y ∷ []), silent-append_close xs y d e)

  silent-append_data :
      (xs : List (Event cd × Bool)) (y : Event cd × Bool)
      → count_if is_end xs ≡ 0
      → is_silent_after_end (xs ++ (y ∷ [])) ≡ true
  silent-append_data [] y h = ground arith
  silent-append_data (x ∷ xs) y h = ground (arith, silent-append_data xs y)

  -- A data event handed over while no end of stream has been sent.
  pub data-IsOrder :
      (log : List (Event cd × Bool)) (sequence : ℕ) (close_sent ending : Bool)
      (fs : List (AudioFrame cd)) (stream : ℤ) (eos delivered : Bool)
      → length fs ≤ frames_per_hds_event
      → ((eos ≡ true) → ending ≡ true)
      → IsOrder log sequence false close_sent ending
      → IsOrder
          (log ++ ((data_event (number_packets cd sequence fs) stream eos, delivered) ∷ []))
          (sequence + length fs)
          (eos && delivered)
          close_sent
          ending
  data-IsOrder log sequence close_sent ending fs stream eos delivered few ending_if h =
      let packets = number_packets cd sequence fs in
      let start : sequence ≡ 0 + sequence = omega arith in
      let entry : Event cd × Bool = (data_event packets stream eos, delivered) in
      record {
        numbered =
            log_numbers-append log (entry ∷ [])
            ∙ ap (λ t. t ++ (packet_numbers packets ++ [])) h.numbered
            ∙ ap (λ t. numbers_from 0 sequence ++ t)
                (append-nil (packet_numbers packets) ∙ packet_numbers-number_packets sequence fs)
            ∙ ap (λ k. numbers_from 0 sequence ++ numbers_from k (length fs)) start
            ∙ sym (numbers_from-append 0 sequence (length fs));
        bounded =
            All-append IsBounded log (entry ∷ []) h.bounded
              (omega (arith, length-number_packets sequence fs), tt);
        one_end = ground (arith, count_if-append is_end log (entry ∷ []), h.one_end);
        silent = silent-append_data log entry h.one_end;
        one_close = ground (arith, count_if-append is_close log (entry ∷ []), h.one_close);
        ends_ending = λ e. ending_if (ground arith);
      }

  pub close-IsOrder :
      (log : List (Event cd × Bool)) (sequence : ℕ) (eos_sent ending : Bool) (stream : ℤ)
      (reason : ℕ) (delivered : Bool)
      → IsOrder log sequence eos_sent false ending
      → IsOrder
          (log ++ ((close_event stream reason, delivered) ∷ []))
          sequence
          eos_sent
          delivered
          ending
  close-IsOrder log sequence eos_sent ending stream reason delivered h =
      let entry : Event cd × Bool = (close_event stream reason, delivered) in
      record {
        numbered = log_numbers-append log (entry ∷ []) ∙ append-nil (log_numbers log) ∙ h.numbered;
        bounded = All-append IsBounded log (entry ∷ []) h.bounded (tt, tt);
        one_end = ground (arith, count_if-append is_end log (entry ∷ []), h.one_end);
        silent = silent-append_close log entry refl refl h.silent;
        one_close = ground (arith, count_if-append is_close log (entry ∷ []), h.one_close);
        ends_ending = h.ends_ending;
      }
