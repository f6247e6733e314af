-- ===== src/Text/Counting.antt =====
-- count_words against tokenize_words.
use network_file_storage.Prelude.{
  ℕ, ◌+◌, Bytes, false, not, if◌then◌else◌, [], ◌∷◌, ◌++◌, ◌≡◌, refl, arith, length, c_str,
}
use network_file_storage.Text.{
  is_empty, count_from, count_words, split_from, normalise_inline_whitespace, tokenize_words,
}

abbrev pending : Bytes → ℕ
pending word = if is_empty word then 0 else 1

is_empty-append : (s : Bytes) (c : ℕ) → is_empty (s ++ c ∷ []) ≡ false
is_empty-append [] c = refl
is_empty-append (x ∷ s) c = refl

-- A word that is being read is counted already.
count-split :
    (s word : Bytes)
    → count_from (not (is_empty word)) s + pending word
      ≡ length (split_from 32 word (normalise_inline_whitespace s))
unfolding count_from split_from normalise_inline_whitespace
count-split [] word = ground arith
count-split (c ∷ s) word =
    ground (arith, is_empty-append word c, count-split s [], count-split s (word ++ c ∷ []))

-- The word count of a text is the number of words that tokenize_words makes of it.
pub count-length-tokenize : (text : Bytes) → count_words text ≡ length (tokenize_words text)
unfolding count_words tokenize_words
count-length-tokenize text = omega (arith, count-split (c_str text) [])
