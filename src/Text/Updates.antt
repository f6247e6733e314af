-- ===== src/Text/Updates.antt =====
-- What the updates of a write do to the words of a sentence.
use mathlib.Core.Path.{subst}
use mathlib.Core.List.{Sublist, sublist-append_right, nil-sublist}
use mathlib.Core.List.Sublist
use network_file_storage.Prelude.{
  ◌⊎◌, Bool, Option, false, ℕ, zero, suc, ◌+◌, ◌≤◌, Bytes, All, All-append, All-take, All-drop,
  List, [], ◌∷◌, ◌++◌, none, some, ◌≡◌, ◌≢◌, ◌↔◌, sym, ap, ◌∙◌, arith, length, length-append,
  length-take, length-drop, take, refl, drop, ◌||◌, Bool, false, ltb, Option-cases, inl, inr,
}
use network_file_storage.Text.{
  WordUpdate, insert_words, apply_update, apply_updates, UpdateResult, updated, refused,
  update_loop, tokenize_words, join_words,
}
use network_file_storage.Text.Words.{IsWord, tokenize-IsWord, tokenize-join_words}

-- An update that a sentence of `count` words accepts.
abbrev pub Fits : ℕ → WordUpdate → Type 0
Fits count u = (u.text ≢ none) × (u.index ≤ count)

-- The tokens of an update.
abbrev pub tokens_of : WordUpdate → List Bytes
tokens_of u = elim u.text [ none ↦ [] | some text ↦ tokenize_words text ]

-- Every update fits the count that the ones before it have left.
abbrev pub AllFit : ℕ → List WordUpdate → Type 0
AllFit count [] = Unit
AllFit count (u ∷ updates) = Fits count u × AllFit (count + length (tokens_of u)) updates

apply_update-some :
    (words : List Bytes) (u : WordUpdate) {words' : List Bytes}
    → apply_update words u ≡ some words'
    → Fits (length words) u × (words' ≡ insert_words words u.index (tokens_of u))
unfolding apply_update
apply_update-some words u h = elim (Option-cases u.text) [
  | inl e ↦ ground (arith, e)
  | inr (t, e) ↦ ground (arith, e)
]

apply_update-Fits :
    (words : List Bytes) (u : WordUpdate)
    → Fits (length words) u
    → apply_update words u ≡ some (insert_words words u.index (tokens_of u))
unfolding apply_update
apply_update-Fits words u h = elim (Option-cases u.text) [
  | inl e ↦ absurd (h.0 e)
  | inr (t, e) ↦ ground (arith, e, h.1)
]

length-insert_words :
    (words tokens : List Bytes) (index : ℕ)
    → index ≤ length words
    → length (insert_words words index tokens) ≡ length words + length tokens
length-insert_words words tokens index le = omega (
  arith,
  length-append (take index words) (tokens ++ drop index words),
  length-append tokens (drop index words),
  length-take index words,
  length-drop index words,
)

-- The order of the words that were there is kept.
insert_words-Sublist :
    (words tokens : List Bytes) (index : ℕ) → Sublist words (insert_words words index tokens)
insert_words-Sublist words tokens zero = sublist-append_right tokens words
insert_words-Sublist [] tokens (suc n) = nil-sublist (insert_words [] (suc n) tokens)
insert_words-Sublist (w ∷ words) tokens (suc n) =
    Sublist.cons-cons w (insert_words-Sublist words tokens n)

pub UpdateResult-cases :
    (r : UpdateResult)
    → ((words : List Bytes) × (r ≡ updated words)) ⊎ ((taken : Bool) × (r ≡ refused taken))
UpdateResult-cases (updated words) = inl (words, refl)
UpdateResult-cases (refused taken) = inr (taken, refl)

-- The words that the updates make, none where one of them does not fit.
words_after : List Bytes → List WordUpdate → Option (List Bytes)
unfolding apply_update
words_after words [] = some words
words_after words (u ∷ updates) = elim (apply_update words u) [
  | none ↦ none
  | some words' ↦ words_after words' updates
]

loop-words_after :
    (taken : Bool) (words words' : List Bytes) (updates : List WordUpdate)
    → update_loop taken words updates ≡ updated words'
    → words_after words updates ≡ some words'
unfolding update_loop words_after
loop-words_after taken words words' [] h = ground (arith, h)
loop-words_after taken words words' (u ∷ updates) h = elim (Option-cases (apply_update words u)) [
  | inl e ↦ absurd (ground (arith, e, h))
  | inr (w, e) ↦
      rw (e, words_after)
        (loop-words_after (taken || ltb (length words) (length w)) w words' updates
          (ground (arith, e, h)))
]

words_after-loop :
    (taken : Bool) (words words' : List Bytes) (updates : List WordUpdate)
    → words_after words updates ≡ some words'
    → update_loop taken words updates ≡ updated words'
unfolding update_loop words_after
words_after-loop taken words words' [] h = ground (arith, h)
words_after-loop taken words words' (u ∷ updates) h = elim (Option-cases (apply_update words u)) [
  | inl e ↦ absurd (ground (arith, e, h))
  | inr (w, e) ↦
      rw (e, update_loop)
        (words_after-loop (taken || ltb (length words) (length w)) w words' updates
          (ground (arith, e, h)))
]

updated-words_after :
    (words words' : List Bytes) (updates : List WordUpdate)
    → apply_updates words updates ≡ updated words'
    → words_after words updates ≡ some words'
unfolding apply_updates
updated-words_after words words' updates h = loop-words_after false words words' updates h

words_after-AllFit :
    (updates : List WordUpdate) (words words' : List Bytes)
    → words_after words updates ≡ some words'
    → AllFit (length words) updates
unfolding words_after
words_after-AllFit [] words words' h = tt
words_after-AllFit (u ∷ updates) words words' h = elim (Option-cases (apply_update words u)) [
  | inl e ↦ absurd (ground (arith, e))
  | inr (w, e) ↦
      let (fits, made) = apply_update-some words u e in
      let size : length w ≡ length words + length (tokens_of u) =
        ap length made ∙ length-insert_words words (tokens_of u) u.index fits.1 in
      (
        fits,
        subst (λ n. AllFit n updates) size
            (words_after-AllFit updates w words' (ground (arith, e))),
      )
]

some_of_AllFit :
    (updates : List WordUpdate) (words : List Bytes)
    → AllFit (length words) updates
    → words_after words updates ≢ none
unfolding words_after
some_of_AllFit [] words fits = λ e. cc
some_of_AllFit (u ∷ updates) words fits =
    let made = insert_words words u.index (tokens_of u) in
    let size : length words + length (tokens_of u) ≡ length made =
      sym (length-insert_words words (tokens_of u) u.index fits.0.1) in
    rw (apply_update-Fits words u fits.0, words_after)
      (some_of_AllFit updates made (subst (λ n. AllFit n updates) size fits.1))

-- apply_updates succeeds exactly if every update has a text and an index not past the end of the
-- words that the updates before it have left.
pub apply_updates_iff :
    (words : List Bytes) (updates : List WordUpdate)
    → ((words' : List Bytes) × (apply_updates words updates ≡ updated words'))
      ↔ AllFit (length words) updates
unfolding apply_updates
apply_updates_iff words updates = (
  λ made. words_after-AllFit updates words made.0 (updated-words_after words made.0 updates made.1),
  λ fits. elim (Option-cases (words_after words updates)) [
    | inl e ↦ absurd (some_of_AllFit updates words fits e)
    | inr (words', e) ↦ (words', words_after-loop false words words' updates e)
  ],
)

words_after-Sublist :
    (words words' : List Bytes) (updates : List WordUpdate)
    → words_after words updates ≡ some words'
    → Sublist words words'
unfolding words_after
words_after-Sublist words words' [] h = subst (Sublist words) (ground arith) (Sublist.refl words)
words_after-Sublist words words' (u ∷ updates) h = elim (Option-cases (apply_update words u)) [
  | inl e ↦ absurd (ground (arith, e))
  | inr (w, e) ↦
      let (_, made) = apply_update-some words u e in
      Sublist.trans
        (subst (Sublist words) (sym made) (insert_words-Sublist words (tokens_of u) u.index))
        (words_after-Sublist w words' updates (ground (arith, e)))
]

-- Updates that succeed keep every word of the sentence, in order, and add words only.
pub apply_updates-Sublist :
    (words words' : List Bytes) (updates : List WordUpdate)
    → apply_updates words updates ≡ updated words'
    → Sublist words words'
apply_updates-Sublist words words' updates h =
    words_after-Sublist words words' updates (updated-words_after words words' updates h)

tokens_of-IsWord : (u : WordUpdate) → All IsWord (tokens_of u)
tokens_of-IsWord u = elim (Option-cases u.text) [
  | inl e ↦ rw e tt
  | inr (t, e) ↦ rw e (tokenize-IsWord t)
]

insert_words-IsWord :
    (words tokens : List Bytes) (index : ℕ)
    → All IsWord words
    → All IsWord tokens
    → All IsWord (insert_words words index tokens)
insert_words-IsWord words tokens index h k =
    All-append IsWord (take index words) _ (All-take IsWord index words h)
      (All-append IsWord tokens _ k (All-drop IsWord index words h))

words_after-IsWord :
    (words words' : List Bytes) (updates : List WordUpdate)
    → All IsWord words
    → words_after words updates ≡ some words'
    → All IsWord words'
unfolding words_after
words_after-IsWord words words' [] a h = subst (All IsWord) (ground arith) a
words_after-IsWord words words' (u ∷ updates) a h = elim (Option-cases (apply_update words u)) [
  | inl e ↦ absurd (ground (arith, e))
  | inr (w, e) ↦
      let (_, made) = apply_update-some words u e in
      words_after-IsWord w words' updates
        (subst (All IsWord) (sym made)
          (insert_words-IsWord words (tokens_of u) u.index a (tokens_of-IsWord u)))
        (ground (arith, e))
]

-- A sentence that was edited, joined and split again has the edited words: for the words of any text,
-- tokenize_words of what join_words makes of the result of apply_updates is that result.
pub tokenize-join-updates :
    (text : Bytes) (words' : List Bytes) (updates : List WordUpdate)
    → apply_updates (tokenize_words text) updates ≡ updated words'
    → tokenize_words (join_words words') ≡ words'
tokenize-join-updates text words' updates h = tokenize-join_words words' (
    words_after-IsWord (tokenize_words text) words' updates (tokenize-IsWord text)
      (updated-words_after (tokenize_words text) words' updates h))
