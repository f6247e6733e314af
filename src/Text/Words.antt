-- ===== src/Text/Words.antt =====
-- Words: what tokenize_words yields, and that it reads back what join_words has written.
use network_file_storage.Prelude.{
  ℕ, Bytes, All, false, List, [], ◌∷◌, ◌++◌, append_assoc, append-nil, ◌≡◌, ◌≢◌, refl, sym, ap, ◌∙◌,
  arith, Bool-cases, inl, inr, ◌==◌, All-append, c_str, c_str_of_LacksNul, c_str-LacksNul, LacksNul,
}
use network_file_storage.Text.{
  is_empty, split_from, normalise_byte, normalise_inline_whitespace, tokenize_words, join_words,
}

-- A byte that can stand in a word: no NUL and no blank.
abbrev pub InWord : ℕ → Type 0
InWord c = (c ≢ 0) × (c ≢ 32) × (c ≢ 9) × (c ≢ 10) × (c ≢ 13)

pub record IsWord (w : Bytes) : Type 0 where
  pub filled : is_empty w ≡ false
  pub bytes : All InWord w

is_empty-append : (s : Bytes) (c : ℕ) → is_empty (s ++ c ∷ []) ≡ false
is_empty-append [] c = refl
is_empty-append (x ∷ s) c = refl

-- The bytes that split_from meets in a normalised string.
abbrev Normal : ℕ → Type 0
Normal c = (c ≢ 0) × (c ≢ 9) × (c ≢ 10) × (c ≢ 13)

normalise-Normal : (s : Bytes) → LacksNul s → All Normal (normalise_inline_whitespace s)
unfolding normalise_inline_whitespace
normalise-Normal [] h = tt
normalise-Normal (c ∷ s) h = (ground (arith, h.0), normalise-Normal s h.1)

split-IsWord : (s word : Bytes) → All Normal s → All InWord word → All IsWord (split_from 32 word s)
unfolding split_from
split-IsWord [] word h w = elim (Bool-cases (is_empty word)) [
  | inl e ↦ rw e tt
  | inr n ↦ rw n (record { filled = n; bytes = w }, tt)
]
split-IsWord (c ∷ s) word h w = elim (Bool-cases (c == 32)) [
  | inl sep ↦ elim (Bool-cases (is_empty word)) [
    | inl e ↦ rw (sep, e, split_from) (split-IsWord s [] h.1 tt)
    | inr n ↦ rw (sep, n, split_from) (record { filled = n; bytes = w }, split-IsWord s [] h.1 tt)
  ]
  | inr other ↦
      rw (other, split_from)
        (split-IsWord s (word ++ c ∷ []) h.1
          (All-append InWord word (c ∷ []) w (ground (arith, other, h.0), tt)))
]

-- Every token of tokenize_words is a word: not empty, without blanks and without NUL.
pub tokenize-IsWord : (s : Bytes) → All IsWord (tokenize_words s)
unfolding tokenize_words
tokenize-IsWord s =
    split-IsWord (normalise_inline_whitespace (c_str s)) []
      (normalise-Normal (c_str s) (c_str-LacksNul s)) tt

-- A string of words and single blanks is what tokenize_words splits.
plain_of_word : (s : Bytes) → All InWord s → LacksNul s
plain_of_word [] h = tt
plain_of_word (c ∷ s) h = (h.0.0, plain_of_word s h.1)

normalise_word : (s : Bytes) → All InWord s → normalise_inline_whitespace s ≡ s
unfolding normalise_inline_whitespace
normalise_word [] h = refl
normalise_word (c ∷ s) h = ground (arith, h.0, normalise_word s h.1)

normalise-append :
    (s t : Bytes)
    → normalise_inline_whitespace (s ++ t)
      ≡ normalise_inline_whitespace s ++ normalise_inline_whitespace t
unfolding normalise_inline_whitespace
normalise-append [] t = refl
normalise-append (c ∷ s) t = ap (◌∷◌ (normalise_byte c)) (normalise-append s t)

split_word :
    (w word rest : Bytes)
    → All InWord w
    → split_from 32 word (w ++ rest) ≡ split_from 32 (word ++ w) rest
unfolding split_from
split_word [] word rest h = rw append-nil
split_word (c ∷ w) word rest h =
    ground (arith, h.0, split_word w (word ++ c ∷ []) rest h.1, append_assoc word (c ∷ []) w)

join-LacksNul : (words : List Bytes) → All IsWord words → LacksNul (join_words words)
unfolding join_words
join-LacksNul [] h = tt
join-LacksNul (w ∷ []) h = plain_of_word w h.0.bytes
join-LacksNul (w ∷ w' ∷ words) h =
    All-append _ w _ (plain_of_word w h.0.bytes) (omega arith, join-LacksNul (w' ∷ words) h.1)

split_end : (word : Bytes) → is_empty word ≡ false → split_from 32 word [] ≡ word ∷ []
unfolding split_from
split_end word n = ground (arith, n)

split_blank :
    (word rest : Bytes)
    → is_empty word ≡ false
    → split_from 32 word (32 ∷ rest) ≡ word ∷ split_from 32 [] rest
unfolding split_from
split_blank word rest n = ground (arith, n)

split_last : (w : Bytes) → IsWord w → split_from 32 [] w ≡ w ∷ []
split_last w h =
    ap (split_from 32 []) (sym (append-nil w)) ∙ split_word w [] [] h.bytes ∙ split_end w h.filled

split_first :
    (w rest : Bytes) → IsWord w → split_from 32 [] (w ++ 32 ∷ rest) ≡ w ∷ split_from 32 [] rest
split_first w rest h = split_word w [] (32 ∷ rest) h.bytes ∙ split_blank w rest h.filled

split-join :
    (words : List Bytes)
    → All IsWord words
    → split_from 32 [] (normalise_inline_whitespace (join_words words)) ≡ words
unfolding split_from join_words normalise_inline_whitespace
split-join [] h = refl
split-join (w ∷ []) h = ap (split_from 32 []) (normalise_word w h.0.bytes) ∙ split_last w h.0
split-join (w ∷ w' ∷ words) h =
    let after = normalise_inline_whitespace (join_words (w' ∷ words)) in
    let cut : normalise_inline_whitespace (w ++ 32 ∷ join_words (w' ∷ words)) ≡ w ++ 32 ∷ after =
      normalise-append w (32 ∷ join_words (w' ∷ words))
      ∙ ap (λ t. t ++ 32 ∷ after) (normalise_word w h.0.bytes) in
    ap (split_from 32 []) cut ∙ split_first w after h.0 ∙ ap (◌∷◌ w) (split-join (w' ∷ words) h.1)

-- tokenize_words reads back the words that join_words has written.
pub tokenize-join_words :
    (words : List Bytes) → All IsWord words → tokenize_words (join_words words) ≡ words
unfolding tokenize_words
tokenize-join_words words h =
    rw (c_str_of_LacksNul (join_words words) (join-LacksNul words h)) (split-join words h)
