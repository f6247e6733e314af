-- ===== src/NameServer/Requests/Lines.antt =====
-- Numbers and lines of the file of requests, read as they were written.
use mathlib.Core.Path.{subst}
use network_file_storage.Prelude.{
  sym, ap, All, ℕ, zero, suc, ◌+◌, ◌/◌, ◌%◌, ◌^◌, ◌≤◌, ◌<◌, Bytes, true, false, [], ◌∷◌, ◌++◌, ◌≡◌,
  refl, arith, length, digits, decimal, read_digits, Lacks, Bool-cases, inl, inr, ◌==◌,
}
use network_file_storage.NameServer.Requests.{read_line, scan_field}

-- A number of as many digits at most.
abbrev Fits : ℕ → ℕ → Type 0
Fits zero n = n ≡ 0
Fits (suc fuel) n = Fits fuel (n / 10)

read-digits :
    (fuel n : ℕ) (out : Bytes) → Fits fuel n → read_digits 0 (digits fuel n out) ≡ read_digits n out
unfolding digits read_digits
read-digits zero n out h = rw h refl
read-digits (suc fuel) n out h = elim (Bool-cases (n == 0)) [
  | inl e ↦ ground (arith, e)
  | inr e ↦
      let rest = read-digits fuel (n / 10) ((b'0' + n % 10) ∷ out) h in ground (arith, e, rest)
]

digits-append :
    (fuel n : ℕ) (out rest : Bytes) → digits fuel n out ++ rest ≡ digits fuel n (out ++ rest)
unfolding digits
digits-append zero n out rest = refl
digits-append (suc fuel) n out rest = elim (Bool-cases (n == 0)) [
  | inl e ↦ ground (arith, e)
  | inr e ↦ ground (arith, e, digits-append fuel (n / 10) ((b'0' + n % 10) ∷ out) rest)
]

digits_fit : (n : ℕ) → n < 2 ^ 64 → Fits 20 n
digits_fit n h = omega arith

-- Digits before a byte that is none.
pub read-decimal :
    (n c : ℕ) (rest : Bytes) → n < 2 ^ 64 → c < 48 → read_digits 0 (decimal n ++ c ∷ rest) ≡ n
unfolding decimal read_digits
read-decimal n c rest h d = elim (Bool-cases (n == 0)) [
  | inl e ↦ ground (arith, e, d)
  | inr e ↦
      let all = digits-append 20 n [] (c ∷ rest) in
      let read = read-digits 20 n (c ∷ rest) (digits_fit n h) in ground (arith, e, all, read, d)
]

-- A line is read up to its newline.
pub read_line-append :
    (room : ℕ) (line rest : Bytes)
    → length line < room
    → Lacks 10 line
    → read_line room (line ++ 10 ∷ rest) ≡ (line ++ 10 ∷ [], rest)
unfolding read_line
read_line-append zero line rest h l = absurd (omega (arith, h))
read_line-append (suc room) [] rest h l = refl
read_line-append (suc room) (c ∷ line) rest h l =
    ground (arith, l.0, read_line-append room line rest (omega (arith, h)) l.1)

-- A field is read up to its bar.
pub scan_field-append :
    (room : ℕ) (word rest : Bytes)
    → length word ≤ room
    → Lacks b'|' word
    → scan_field room (word ++ b'|' ∷ rest) ≡ (word, b'|' ∷ rest)
unfolding scan_field
scan_field-append zero [] rest h l = refl
scan_field-append zero (c ∷ word) rest h l = absurd (omega (arith, h))
scan_field-append (suc room) [] rest h l = refl
scan_field-append (suc room) (c ∷ word) rest h l =
    ground (arith, l.0, scan_field-append room word rest (omega (arith, h)) l.1)

digits_end : (fuel n : ℕ) (out : Bytes) → (n == 0) ≡ true → digits (suc fuel) n out ≡ out
unfolding digits
digits_end fuel n out e = ground (arith, e)

digits_next :
    (fuel n : ℕ) (out : Bytes)
    → (n == 0) ≡ false
    → digits (suc fuel) n out ≡ digits fuel (n / 10) ((b'0' + n % 10) ∷ out)
unfolding digits
digits_next fuel n out e = ground (arith, e)

-- A text that begins with a digit.
abbrev pub HeadDigit : Bytes → Type 0
HeadDigit [] = ⊥
HeadDigit (c ∷ s) = (48 ≤ c) × (c ≤ 57)

digits-HeadDigit : (fuel n : ℕ) (out : Bytes) → HeadDigit out → HeadDigit (digits fuel n out)
unfolding digits
digits-HeadDigit zero n out h = h
digits-HeadDigit (suc fuel) n out h =
    let more = digits-HeadDigit fuel (n / 10) ((b'0' + n % 10) ∷ out) (omega arith, omega arith) in
    elim (Bool-cases (n == 0)) [
      | inl e ↦ subst HeadDigit (sym (digits_end fuel n out e)) h
      | inr e ↦ subst HeadDigit (sym (digits_next fuel n out e)) more
    ]

pub decimal-HeadDigit : (n : ℕ) → HeadDigit (decimal n)
unfolding decimal
decimal-HeadDigit n = elim (Bool-cases (n == 0)) [
  | inl e ↦ rw (e) (omega arith, omega arith)
  | inr e ↦ rw (e) (
      subst HeadDigit (sym (digits_next 19 n [] e))
        (digits-HeadDigit 19 (n / 10) ((b'0' + n % 10) ∷ []) (omega arith, omega arith)))
]

-- All digits.
abbrev pub Numeral : Bytes → Type 0
Numeral s = All (λ (c : ℕ). (48 ≤ c) × (c ≤ 57)) s

digits-Numeral :
    (fuel n : ℕ) (out : Bytes)
    → Numeral out
    → Numeral (digits fuel n out) × (length (digits fuel n out) ≤ fuel + length out)
unfolding digits
digits-Numeral zero n out h = (h, omega arith)
digits-Numeral (suc fuel) n out h =
    let more =
      digits-Numeral fuel (n / 10) ((b'0' + n % 10) ∷ out) ((omega arith, omega arith), h) in
    elim (Bool-cases (n == 0)) [
      | inl e ↦
          let same = digits_end fuel n out e in
          (subst Numeral (sym same) h, omega (arith, ap (λ (s : Bytes). length s) same))
      | inr e ↦
          let same = digits_next fuel n out e in
          (
            subst Numeral (sym same) more.0,
            omega (arith, more.1, ap (λ (s : Bytes). length s) same),
          )
    ]

pub decimal-Numeral : (n : ℕ) → Numeral (decimal n) × (length (decimal n) ≤ 20)
unfolding decimal
decimal-Numeral n = elim (Bool-cases (n == 0)) [
  | inl e ↦ rw (e) (((omega arith, omega arith), tt), omega arith)
  | inr e ↦ rw (e) (digits-Numeral 20 n [] tt)
]

pub Numeral-Lacks : (s : Bytes) → Numeral s → Lacks 10 s
Numeral-Lacks [] h = tt
Numeral-Lacks (c ∷ s) h = (λ e. omega (arith, h.0.0, e), Numeral-Lacks s h.1)

pub Lacks-both : (s t : Bytes) → Lacks 10 s → Lacks 10 t → Lacks 10 (s ++ t)
Lacks-both [] t hs ht = ht
Lacks-both (c ∷ s) t hs ht = (hs.0, Lacks-both s t hs.1 ht)
