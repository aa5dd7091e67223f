-- ===== src/Http/Replies.antt =====
-- The status codes and the audio limit of http_api.py.
use atv_homekit_remote.Prelude.{
  ℕ, ◌+◌, ◌≡◌, ◌≢◌, refl, ap, inl, inr, ◌≤◌, ◌<◌, Bool, true, false, not, Option, none, some, List,
  [], ◌∷◌, ◌++◌, ltb, ◌==◌, arith, either, Bool-cases, length, concat, length-append, Bytes, Result,
  ok, err, value_error, ◌>>=◌,
}
use atv_homekit_remote.Prelude.Int.{ℤ}
use atv_homekit_remote.Utf8.{Text}
use atv_homekit_remote.Http.Handlers.{
  json, file_reply, query_int, bounded_chunks, FileSystem, read_wav, siri_file,
}

file_reply-ne : (x : Result (Unit {0})) → (file_reply x ≢ json 503) × (file_reply x ≢ json 504)
unfolding file_reply
file_reply-ne (ok x) = ((λ e. ground arith), λ e. ground arith)
file_reply-ne (err value_error) = ((λ e. ground arith), λ e. ground arith)
file_reply-ne (err e) = ((λ h. ground arith), λ h. ground arith)

-- Whatever the file, the query and the remote do, POST /siri/file never answers 503 or 504, the
-- statuses that its last handlers have for a lost connection and for the time limit.
pub siri_file-ne :
    (send_pcm : Option ℤ → Bytes → Result (Unit {0})) (parse_int : Text → Result ℤ)
    (fs : FileSystem) (limit : ℕ) (allowed : Bool) (file_name raw_target : Option Text)
    → let answer = siri_file send_pcm parse_int fs limit allowed file_name raw_target in
      (answer ≢ json 503) × (answer ≢ json 504)
unfolding siri_file
siri_file-ne send_pcm parse_int fs limit allowed none raw_target = (
  either (λ a. a ≢ json 503) (not allowed) (λ e h. cc) (λ e h. ground arith),
  either (λ a. a ≢ json 504) (not allowed) (λ e h. cc) (λ e h. ground arith),
)
siri_file-ne send_pcm parse_int fs limit allowed (some name) raw_target =
    let x : Result (Unit {0}) = query_int parse_int none raw_target >>= λ target.
    read_wav fs limit name >>= λ pcm. send_pcm target pcm in
    let (lost, late) = file_reply-ne x in
    (
      either (λ a. a ≢ json 503) (not allowed) (λ e h. cc)
          (λ e. either (λ a. a ≢ json 503) (length name == 0) (λ e h. ground arith) (λ e'. lost)),
      either (λ a. a ≢ json 504) (not allowed) (λ e h. cc)
          (λ e. either (λ a. a ≢ json 504) (length name == 0) (λ e h. ground arith) (λ e'. late)),
    )

bounded_from :
    (limit total : ℕ) (chunks : List Bytes)
    → total ≤ limit
    → let (yielded, cut) = bounded_chunks limit total chunks in
      (total + length (concat yielded) ≤ limit)
      × ((cut ≡ false) → yielded ≡ chunks)
      × ((cut ≡ true) → limit < total + length (concat chunks))
      × ((rest : List Bytes) × (chunks ≡ yielded ++ rest))
unfolding bounded_chunks
bounded_from limit total [] h = (omega arith, (λ e. refl), (λ e. cc), ([], refl))
bounded_from limit total (chunk ∷ chunks) h = elim (Bool-cases (ltb limit (total + length chunk))) [
  | inl over ↦ rw over (
    omega arith,
    (λ e. cc),
    (λ e. omega (arith, length-append chunk (concat chunks), above over)),
    (chunk ∷ chunks, refl),
  )
  | inr within ↦
      let (yielded, cut) = bounded_chunks limit (total + length chunk) chunks in
      let (few, whole, cut_off, rest) =
        bounded_from limit (total + length chunk) chunks (below within) in
      rw within (
        omega (arith, few, length-append chunk (concat yielded)),
        (λ e. ap (λ t. chunk ∷ t) (whole e)),
        (λ e. omega (arith, cut_off e, length-append chunk (concat chunks))),
        (rest.0, ap (λ t. chunk ∷ t) rest.1),
      )
]
  where
    above : ltb limit (total + length chunk) ≡ true → limit < total + length chunk
    above e = ground arith

    below : ltb limit (total + length chunk) ≡ false → total + length chunk ≤ limit
    below e = ground arith

-- The audio that is passed on stays within the limit and is a front part of the chunks that arrive:
-- all of them if they are within the limit, and otherwise reading ends with an exception.
pub bounded_chunks_lem :
    (limit : ℕ) (chunks : List Bytes)
    → let (yielded, cut) = bounded_chunks limit 0 chunks in
      (length (concat yielded) ≤ limit)
      × ((cut ≡ false) → yielded ≡ chunks)
      × ((cut ≡ true) → limit < length (concat chunks))
      × ((rest : List Bytes) × (chunks ≡ yielded ++ rest))
bounded_chunks_lem limit chunks =
    let (few, whole, cut_off, rest) = bounded_from limit 0 chunks (omega arith) in
    (omega (arith, few), whole, (λ e. omega (arith, cut_off e)), rest)
