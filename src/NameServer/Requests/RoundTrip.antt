-- ===== src/NameServer/Requests/RoundTrip.antt =====
-- The requests that were saved are the requests that are loaded.
use network_file_storage.Prelude.{
  if◌then◌else◌, ℕ, zero, suc, ◌^◌, ◌≤◌, ◌<◌, Bytes, codes, List, [], ◌∷◌, ◌++◌, some, ◌≡◌, ◌≢◌,
  refl, ap, ◌∙◌, arith, length, decimal, read_digits, Lacks, All, Bool-cases, inl, inr, ◌==◌,
  append_assoc, length-append, skip_space, str_eq,
}
use network_file_storage.Storage.Metadata.{lld, strtoll}
use network_file_storage.Disk.{Disk, path_max}
use network_file_storage.NameServer.Files.{write_file}
use network_file_storage.NameServer.{NmState}
use network_file_storage.NameServer.Requests.{
  path_max, NmState, write_file, AccessRequest, mode_text, request_line, requests_text, field,
  number, parse_request, parse_requests,
}
use network_file_storage.NameServer.Requests.Lines.{
  HeadDigit, decimal-HeadDigit, decimal-Numeral, Numeral-Lacks, Lacks-both, read-decimal,
  read_line-append, scan_field-append,
}

-- A request that a line of the file can hold.
pub record Storable (r : AccessRequest) : Type 0 where
  pub named : r.username ≢ []
  pub short : length r.username ≤ 127
  pub no_bar : Lacks b'|' r.username
  pub no_newline : Lacks 10 r.username
  pub flag : r.can_write ≤ 1
  pub time : r.requested_at < 2 ^ 63

-- A number behind the last bar.
head_number : (s : Bytes) → HeadDigit s → number s ≡ some (strtoll s)
unfolding number skip_space
head_number [] h = absurd h
head_number (c ∷ s) h = ground (arith, h.0, h.1)

head_value : (s : Bytes) → HeadDigit s → read_digits 0 s < 2 ^ 63 → strtoll s ≡ read_digits 0 s
unfolding strtoll skip_space
head_value [] h b = absurd h
head_value (c ∷ s) h b = ground (arith, h.0, h.1, b)

HeadDigit-append : (s t : Bytes) → HeadDigit s → HeadDigit (s ++ t)
HeadDigit-append [] t h = absurd h
HeadDigit-append (c ∷ s) t h = h

number-decimal : (n : ℕ) → n < 2 ^ 63 → number (decimal n ++ 10 ∷ []) ≡ some n
number-decimal n h =
    let head = HeadDigit-append (decimal n) (10 ∷ []) (decimal-HeadDigit n) in
    let read = read-decimal n 10 [] (omega (arith, h)) (omega arith) in
    head_number (decimal n ++ 10 ∷ []) head
    ∙ ap (λ (k : ℕ). some k) (head_value (decimal n ++ 10 ∷ []) head (rw (read) h) ∙ read)

field-append :
    (room : ℕ) (word rest : Bytes)
    → word ≢ []
    → length word ≤ room
    → Lacks b'|' word
    → field room (word ++ b'|' ∷ rest) ≡ some (word, rest)
unfolding field
field-append room [] rest n h l = absurd (n refl)
field-append room (c ∷ word) rest n h l = rw (scan_field-append room (c ∷ word) rest h l) refl

-- A line without its newline.
abbrev body : AccessRequest → Bytes
body r = r.username ++ b'|' ∷ (mode_text r.can_write ++ b'|' ∷ decimal r.requested_at)

request_line-body :
    (r : AccessRequest) → r.requested_at < 2 ^ 63 → request_line r ≡ body r ++ 10 ∷ []
unfolding request_line lld
request_line-body r h = ground (
  arith,
  h,
  append_assoc r.username (b'|' ∷ (mode_text r.can_write ++ b'|' ∷ decimal r.requested_at))
      (10 ∷ []),
  append_assoc (mode_text r.can_write) (b'|' ∷ decimal r.requested_at) (10 ∷ []),
)

-- What a mode is like as a field of a line, and which flag it is read as.
record Mode (w : ℕ) (m : Bytes) : Type 0 where
  filled : m ≢ []
  short : length m ≤ 5
  no_bar : Lacks b'|' m
  no_newline : Lacks 10 m
  flag : (if str_eq m (codes "write") then 1 else 0) ≡ w

mode_text-Mode : (w : ℕ) → w ≤ 1 → Mode w (mode_text w)
unfolding str_eq
mode_text-Mode w h = elim (Bool-cases (w == 0)) [
  | inl e ↦ rw (e) (record {
    filled = λ f. cc f;
    short = omega arith;
    no_bar = omega arith;
    no_newline = omega arith;
    flag = ground (arith, e);
  })
  | inr e ↦ rw (e) (record {
    filled = λ f. cc f;
    short = omega arith;
    no_bar = omega arith;
    no_newline = omega arith;
    flag = ground (arith, e, h);
  })
]

body-line : (r : AccessRequest) → Storable r → Lacks 10 (body r) × (length (body r) < 255)
body-line r h =
    let (numeral, short) = decimal-Numeral r.requested_at in
    let time = Numeral-Lacks (decimal r.requested_at) numeral in
    let mode = mode_text-Mode r.can_write h.flag in
    let tail = mode_text r.can_write ++ b'|' ∷ decimal r.requested_at in
    (
      Lacks-both r.username (b'|' ∷ tail) h.no_newline (
        λ f. omega (arith, f),
        Lacks-both (mode_text r.can_write) (b'|' ∷ decimal r.requested_at) mode.no_newline
            (λ f. omega (arith, f), time),
      ),
      omega (
        arith,
        h.short,
        short,
        mode.short,
        length-append r.username (b'|' ∷ tail),
        length-append (mode_text r.can_write) (b'|' ∷ decimal r.requested_at),
      ),
    )

parse-parts :
    (user mode s : Bytes) (w n : ℕ)
    → user ≢ []
    → length user ≤ 127
    → Lacks b'|' user
    → Mode w mode
    → number s ≡ some n
    → parse_request (user ++ b'|' ∷ (mode ++ b'|' ∷ s))
      ≡ some (record { username = user; can_write = w; requested_at = n })
unfolding parse_request
parse-parts user mode s w n named short no_bar m read =
    let first = field-append 127 user (mode ++ b'|' ∷ s) named short no_bar in
    let second = field-append 15 mode s m.filled (omega (arith, m.short)) m.no_bar in
    ground (arith, first, second, read, m.flag)

-- A line is parsed as the request that it was made of.
parse-line : (r : AccessRequest) → Storable r → parse_request (body r ++ 10 ∷ []) ≡ some r
parse-line r h =
    let tail = mode_text r.can_write ++ b'|' ∷ decimal r.requested_at in
    let apart = append_assoc r.username (b'|' ∷ tail) (10 ∷ []) in
    let apart' = append_assoc (mode_text r.can_write) (b'|' ∷ decimal r.requested_at) (10 ∷ []) in
    rw (apart, apart')
      (parse-parts r.username (mode_text r.can_write) (decimal r.requested_at ++ 10 ∷ [])
        r.can_write r.requested_at h.named h.short h.no_bar (mode_text-Mode r.can_write h.flag)
        (number-decimal r.requested_at h.time))

parse_requests-line :
    (line rest : Bytes) (r : AccessRequest) (fuel : ℕ)
    → line ≢ []
    → Lacks 10 line
    → length line < 255
    → parse_request (line ++ 10 ∷ []) ≡ some r
    → parse_requests (suc fuel) (line ++ 10 ∷ rest) ≡ r ∷ parse_requests fuel rest
unfolding parse_requests
parse_requests-line [] rest r fuel n l s e = absurd (n refl)
parse_requests-line (c ∷ line) rest r fuel n l s e =
    let read = read_line-append 255 (c ∷ line) rest s l in rw (read, e) refl

append_filled : (s t : Bytes) (c : ℕ) → s ++ c ∷ t ≢ []
append_filled [] t c e = cc e
append_filled (x ∷ s) t c e = cc e

body_filled : (r : AccessRequest) → body r ≢ []
body_filled r =
    append_filled r.username (mode_text r.can_write ++ b'|' ∷ decimal r.requested_at) b'|'

-- Requests that lines can hold are parsed as they were written: the same requests in the same order.
pub parse-requests_text :
    (requests : List AccessRequest) (fuel : ℕ)
    → All Storable requests
    → length (requests_text requests) < fuel
    → parse_requests fuel (requests_text requests) ≡ requests
unfolding requests_text parse_requests
parse-requests_text [] zero h enough = refl
parse-requests_text [] (suc fuel) h enough = refl
parse-requests_text (r ∷ requests) zero h enough = absurd (omega (arith, enough))
parse-requests_text (r ∷ requests) (suc fuel) h enough =
    let line = body r in
    let text = requests_text requests in
    let same = request_line-body r h.0.time in
    let split : request_line r ++ text ≡ line ++ 10 ∷ text =
      ap (λ (s : Bytes). s ++ text) same ∙ append_assoc line (10 ∷ []) text in
    let (lacks, short) = body-line r h.0 in
    let rest =
      parse-requests_text requests fuel h.1 (
        omega
          (arith, enough, ap (λ (s : Bytes). length s) split, length-append line (10 ∷ text))) in
    ap (parse_requests (suc fuel)) split
    ∙ parse_requests-line line text r fuel (body_filled r) lacks short (parse-line r h.0)
    ∙ ap (◌∷◌ r) rest
