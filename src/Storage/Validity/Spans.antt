-- ===== src/Storage/Validity/Spans.antt =====
-- The span that choose_span gives lies within the content, and its lock is among those it wants.
use network_file_storage.Prelude.{
  ℕ, zero, suc, ◌+◌, ◌≤◌, ◌<◌, Bytes, if◌then◌else◌, List, [], ◌∷◌, some, ◌≡◌, arith, length,
  get_elem?, drop, length-drop, All, Option-cases, inl, inr,
}
use network_file_storage.Text.Spans.{Within, compute_spans-Within}
use network_file_storage.Text.{SentenceSpan, compute_spans, is_empty}
use network_file_storage.Storage.Writing.{count_blanks, last_end, incomplete_start, choose_span}

count_blanks-le : (s : Bytes) → count_blanks s ≤ length s
unfolding count_blanks
count_blanks-le [] = omega arith
count_blanks-le (c ∷ s) = ground (arith, count_blanks-le s)

last_end-le :
    (len : ℕ) (spans : List SentenceSpan) → All (Within 0 len) spans → last_end spans ≤ len
unfolding last_end
last_end-le len [] h = omega arith
last_end-le len (s ∷ []) h = h.0.1
last_end-le len (s ∷ t ∷ spans) h = last_end-le len (t ∷ spans) h.1

incomplete_start-le :
    (content : Bytes) (spans : List SentenceSpan)
    → All (Within 0 (length content)) spans
    → incomplete_start content spans ≤ length content
unfolding incomplete_start
incomplete_start-le content [] h = omega arith
incomplete_start-le content (s ∷ spans) h =
    let end = last_end (s ∷ spans) in
    omega (
      arith,
      last_end-le (length content) (s ∷ spans) h,
      count_blanks-le (drop end content),
      length-drop end content,
    )

get-Within :
    (len i : ℕ) (spans : List SentenceSpan) (s : SentenceSpan)
    → All (Within 0 len) spans
    → get_elem? spans i ≡ some s
    → (i < length spans) × (s.start + s.length ≤ len)
get-Within len i [] s h e = absurd (cc e)
get-Within len zero (t ∷ spans) s h e = let same : t ≡ s = cc e in rw⁻¹ same (omega arith, h.0.1)
get-Within len (suc i) (t ∷ spans) s h e =
    let (lt, le) = get-Within len i spans s h.1 e in (omega (arith, lt), le)

-- The spans that choose_span looks at.
abbrev spans_of : Bytes → List SentenceSpan
spans_of content = if is_empty content then [] else compute_spans content

spans_of-Within : (content : Bytes) → All (Within 0 (length content)) (spans_of content)
spans_of-Within [] = tt
spans_of-Within (c ∷ s) = compute_spans-Within (c ∷ s)

-- The chosen span wants a lock at its own place, and lies within the content.
pub choose_span-Within :
    (content : Bytes) (sentence_index : ℕ) (span : SentenceSpan) (wanted : ℕ)
    → choose_span content sentence_index ≡ some (span, wanted)
    → (sentence_index < wanted) × (span.start + span.length ≤ length content)
unfolding choose_span
choose_span-Within content sentence_index span wanted e =
    let spans = spans_of content in
    elim (Option-cases (get_elem? spans sentence_index)) [
      | inl n ↦ ground (arith, e, n, incomplete_start-le content spans (spans_of-Within content))
      | inr (s, n) ↦
          let found =
            get-Within (length content) sentence_index spans s (spans_of-Within content) n in
          ground (
            arith,
            e,
            n,
            found.0,
            found.1,
            incomplete_start-le content spans (spans_of-Within content),
          )
    ]
