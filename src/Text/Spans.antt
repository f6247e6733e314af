-- ===== src/Text/Spans.antt =====
-- The spans of compute_spans against the text that they come from.
use mathlib.Core.Path.{subst}
use network_file_storage.Prelude.{
  ℕ, suc, ◌+◌, ◌-◌, ◌≤◌, ◌<◌, Bytes, All, true, false, if◌then◌else◌, List, [], ◌∷◌, ◌++◌,
  append_assoc, append-nil, ◌≡◌, refl, sym, ap, arith, length, length-append, Bool-cases, inl, inr,
  All-append,
}
use network_file_storage.Text.{SentenceSpan, is_delimiter, is_blank, scan_spans, compute_spans}

abbrev pub Plain : Bytes → Type 0
Plain = All (λ c. is_delimiter c ≡ false)

abbrev pub Blank : Bytes → Type 0
Blank = All (λ c. is_blank c ≡ true)

-- The text at `pos` is cut into sentences by the spans. A sentence is bytes that are no delimiters and
-- then a delimiter; blanks may follow it. No delimiter stands behind the last one.
pub data Tiles : ℕ → Bytes → List SentenceSpan → Type 0 where
  unfinished :
      {pos : ℕ} {text : Bytes} {spans : List SentenceSpan}
      → spans ≡ []
      → Plain text
      → Tiles pos text spans
  sentence :
      {pos : ℕ} {text : Bytes} {spans : List SentenceSpan} (body : Bytes) (d : ℕ) (gap rest : Bytes)
      (later : List SentenceSpan)
      → Plain body
      → is_delimiter d ≡ true
      → Blank gap
      → text ≡ body ++ d ∷ (gap ++ rest)
      → spans ≡ record { start = pos; length = length body + 1 } ∷ later
      → Tiles (pos + (length body + 1) + length gap) rest later
      → Tiles pos text spans

-- What the two modes of the loop yield for the same text.
record Modes (text : Bytes) : Type 0 where
  reading :
      (body : Bytes) (start i : ℕ)
      → Plain body
      → i ≡ start + length body
      → Tiles start (body ++ text) (scan_spans false i start text)
  skipping :
      (i : ℕ)
      → (gap rest : Bytes) × Blank gap
        × (text ≡ gap ++ rest)
        × Tiles (i + length gap) rest (scan_spans true i i text)

-- A delimiter ends the sentence whose body was read, and blanks may follow.
close_sentence :
    (body : Bytes) (c : ℕ) (rest : Bytes) (start i : ℕ)
    → Modes rest
    → Plain body
    → is_delimiter c ≡ true
    → i ≡ start + length body
    → Tiles start
        (body ++ c ∷ rest)
        (record { start = start; length = i + 1 - start } ∷ scan_spans true (i + 1) (i + 1) rest)
close_sentence body c rest start i m p d e =
    let (gap, rest', blank, cut, tiles) = m.skipping (i + 1) in
    let next : i + 1 ≡ start + (length body + 1) = omega arith in
    let size : i + 1 - start ≡ length body + 1 = omega arith in
    sentence body c gap rest' (scan_spans true (i + 1) (i + 1) rest) p d blank
      (ap (λ t. body ++ c ∷ t) cut)
      (ap (λ n. record { start = start; length = n } ∷ scan_spans true (i + 1) (i + 1) rest) size)
      (subst (λ k. Tiles (k + length gap) rest' (scan_spans true (i + 1) (i + 1) rest)) next tiles)

reading_step :
    (c : ℕ) (rest : Bytes)
    → Modes rest
    → (body : Bytes) (start i : ℕ) → Plain body
    → i ≡ start + length body
    → Tiles start (body ++ c ∷ rest) (scan_spans false i start (c ∷ rest))
unfolding scan_spans
reading_step c rest m body start i p e = elim (Bool-cases (is_delimiter c)) [
  | inl d ↦ rw (d, scan_spans) (close_sentence body c rest start i m p d e)
  | inr n ↦
      let longer : Plain (body ++ c ∷ []) = All-append _ body (c ∷ []) p (n, tt) in
      let at : i + 1 ≡ start + length (body ++ c ∷ []) =
        omega (arith, length-append body (c ∷ [])) in
      rw (n, scan_spans)
        (subst (λ t. Tiles start t (scan_spans false (i + 1) start rest))
          (append_assoc body (c ∷ []) rest) (m.reading (body ++ c ∷ []) start (i + 1) longer at))
]

scan_not_blank :
    (c : ℕ) (rest : Bytes) (i : ℕ)
    → is_blank c ≡ false
    → scan_spans true i i (c ∷ rest) ≡ scan_spans false i i (c ∷ rest)
unfolding scan_spans
scan_not_blank c rest i n = ground (arith, n)

skipping_step :
    (c : ℕ) (rest : Bytes) (i : ℕ)
    → Modes rest
    → (gap rest' : Bytes) × Blank gap
      × (c ∷ rest ≡ gap ++ rest')
      × Tiles (i + length gap) rest' (scan_spans true i i (c ∷ rest))
unfolding scan_spans
skipping_step c rest i m = elim (Bool-cases (is_blank c)) [
  | inl b ↦
      let (gap, rest', blank, cut, tiles) = m.skipping (i + 1) in
      let at : i + 1 + length gap ≡ i + length (c ∷ gap) = omega arith in
      (
        c ∷ gap,
        rest',
        (b, blank),
        ap (◌∷◌ c) cut,
        rw (b, scan_spans)
            (subst (λ k. Tiles k rest' (scan_spans true (i + 1) (i + 1) rest)) at tiles),
      )
  | inr n ↦
      let at : i + 0 ≡ i = omega arith in
      let at' : i ≡ i + 0 = omega arith in
      (
        [],
        c ∷ rest,
        tt,
        refl,
        rw (scan_not_blank c rest i n) (
            subst (λ k. Tiles k (c ∷ rest) (scan_spans false i i (c ∷ rest))) (sym at)
              (reading_step c rest m [] i i tt at')),
      )
]

scan-Modes : (text : Bytes) → Modes text
unfolding scan_spans
scan-Modes [] = record {
  reading = λ body start i p e. unfinished refl (rw (append-nil body) p);
  skipping = λ i. ([], [], tt, refl, unfinished refl tt);
}
scan-Modes (c ∷ rest) =
    let m = scan-Modes rest in
    record { reading = reading_step c rest m; skipping = λ i. skipping_step c rest i m }

-- The spans of compute_spans cut the text from its first byte on into sentences: each span is bytes
-- that are no delimiters and then one delimiter, only blanks stand between two spans, and no
-- delimiter stands behind the last.
pub compute_spans-Tiles : (text : Bytes) → Tiles 0 text (compute_spans text)
unfolding compute_spans
compute_spans-Tiles text = (scan-Modes text).reading [] 0 0 tt refl

-- The number of '.', '!' and '?' in a text.
pub delimiters : Bytes → ℕ
delimiters [] = 0
delimiters (c ∷ rest) = if is_delimiter c then suc (delimiters rest) else delimiters rest

delimiters-append : (s t : Bytes) → delimiters (s ++ t) ≡ delimiters s + delimiters t
unfolding delimiters
delimiters-append [] t = omega arith
delimiters-append (c ∷ s) t = ground (arith, delimiters-append s t)

delimiters-Plain : (s : Bytes) → Plain s → delimiters s ≡ 0
unfolding delimiters
delimiters-Plain [] p = refl
delimiters-Plain (c ∷ s) p = ground (arith, p.0, delimiters-Plain s p.1)

delimiters-Blank : (s : Bytes) → Blank s → delimiters s ≡ 0
unfolding delimiters
delimiters-Blank [] p = refl
delimiters-Blank (c ∷ s) p = ground (arith, p.0, delimiters-Blank s p.1)

-- A sentence has one delimiter and the blanks behind it none.
delimiters_cut :
    (body : Bytes) (d : ℕ) (gap rest : Bytes)
    → Plain body
    → is_delimiter d ≡ true
    → Blank gap
    → delimiters (body ++ d ∷ (gap ++ rest)) ≡ suc (delimiters rest)
unfolding delimiters
delimiters_cut body d gap rest p q b = ground (
  arith,
  q,
  delimiters-append body (d ∷ (gap ++ rest)),
  delimiters-append gap rest,
  delimiters-Plain body p,
  delimiters-Blank gap b,
)

Tiles-count :
    {pos : ℕ} {text : Bytes} {spans : List SentenceSpan}
    → Tiles pos text spans
    → length spans ≡ delimiters text
Tiles-count {text = text} (unfinished e p) = rw e (sym (delimiters-Plain text p))
Tiles-count (sentence body d gap rest later p q b cut e tiles) =
    rw (e, cut, delimiters_cut body d gap rest p q b) (ap suc (Tiles-count tiles))

-- The sentence count of a text is the number of '.', '!' and '?' in it.
pub length-compute_spans : (text : Bytes) → length (compute_spans text) ≡ delimiters text
length-compute_spans text = Tiles-count (compute_spans-Tiles text)

-- A span lies between two positions and is not empty.
abbrev pub Within : ℕ → ℕ → SentenceSpan → Type 0
Within from to s = (from ≤ s.start) × (s.start + s.length ≤ to) × (0 < s.length)

wider-Within :
    (from from' to : ℕ) (spans : List SentenceSpan)
    → from ≤ from'
    → All (Within from' to) spans
    → All (Within from to) spans
wider-Within from from' to [] le a = tt
wider-Within from from' to (s ∷ spans) le a =
    ((omega arith, a.0.1, a.0.2), wider-Within from from' to spans le a.1)

Tiles-Within :
    {pos : ℕ} {text : Bytes} {spans : List SentenceSpan} (to : ℕ)
    → Tiles pos text spans
    → pos + length text ≡ to
    → All (Within pos to) spans
Tiles-Within to (unfinished e p) at = rw e tt
Tiles-Within {pos} {text} to (sentence body d gap rest later p q b cut e tiles) at =
    let size : length text ≡ length body + (1 + (length gap + length rest)) =
      omega
        (arith, ap length cut, length-append body (d ∷ (gap ++ rest)), length-append gap rest) in
    rw e (
      (omega arith, omega arith, omega arith),
      wider-Within pos (pos + (length body + 1) + length gap) to later (omega arith)
          (Tiles-Within to tiles (omega arith)),
    )

-- Every span of compute_spans lies within the text and is not empty.
pub compute_spans-Within : (text : Bytes) → All (Within 0 (length text)) (compute_spans text)
compute_spans-Within text = Tiles-Within (length text) (compute_spans-Tiles text) (omega arith)
