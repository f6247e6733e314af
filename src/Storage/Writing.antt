-- ===== src/Storage/Writing.antt =====
-- storage_engine_write: the choice of the sentence, its lock, the edit and the new content.
use network_file_storage.Prelude.{
  ℕ, zero, suc, ◌+◌, ◌-◌, Bytes, true, false, ◌&&◌, ◌||◌, not, if◌then◌else◌, List, [], ◌∷◌, ◌++◌,
  Option, none, some, ◌==◌, leb, ltb, Bool, length, take, drop, get_elem?,
}
use network_file_storage.Text.{
  SentenceSpan, compute_spans, tokenize_words, apply_updates, updated, refused, join_words,
  WordUpdate, is_empty,
}
use network_file_storage.Storage.{
  StorageResult, storage_ok, err_not_found, err_invalid, err_locked, out_of_bounds, use_after_free,
  SentenceLock, free_lock, StorageFile, StorageEngine, ensure_sentence_capacity,
  update_metadata_from_content, generate_undo_token, store_at,
}
use network_file_storage.Storage.Loading.{
  get_or_load_file, persist_content, persist_metadata, persist_undo,
}

-- The loop that skips the blanks behind the last sentence: how many there are.
unfoldable pub count_blanks : Bytes → ℕ
count_blanks [] = 0
count_blanks (c ∷ s) =
    let more = count_blanks s in if c == 32 || (c == 9 || c == 10) then more + 1 else 0

-- spans[span_count - 1].start + spans[span_count - 1].length, and 0 without a sentence.
unfoldable pub last_end : List SentenceSpan → ℕ
last_end [] = 0
last_end (s ∷ []) = s.start + s.length
last_end (s ∷ t ∷ spans) = last_end (t ∷ spans)

-- The start of the text that no sentence holds.
unfoldable pub incomplete_start : Bytes → List SentenceSpan → ℕ
unfolding count_blanks last_end
incomplete_start content [] = 0
incomplete_start content (s ∷ spans) =
    let end = last_end (s ∷ spans) in end + count_blanks (drop end content)

-- The span that sentence_index stands for, and how many locks it wants; none is STORAGE_ERR_INVALID.
unfoldable pub choose_span : Bytes → ℕ → Option (SentenceSpan × ℕ)
unfolding incomplete_start
choose_span content sentence_index =
    let len = length content in
    let spans = if is_empty content then [] else compute_spans content in
    let count = length spans in
    let start = incomplete_start content spans in
    if count == 0 && sentence_index == 0
    then some (record { start = 0; length = len }, 1)
    else if sentence_index == count && not (is_empty content)
    then some (record { start = start; length = len - start }, count + 1)
    else if leb count sentence_index
    then none
    else elim (get_elem? spans sentence_index) [ none ↦ none | some span ↦ some (span, count) ]

-- A lock of the array is replaced.
unfoldable pub set_lock : ℕ → SentenceLock → List SentenceLock → List SentenceLock
set_lock i lock [] = []
set_lock zero lock (l ∷ locks) = lock ∷ locks
set_lock (suc i) lock (l ∷ locks) = l ∷ set_lock i lock locks

-- The bytes of a span.
abbrev pub sentence_at : Bytes → SentenceSpan → Bytes
sentence_at content span = take span.length (drop span.start content)

-- write_new_content, with the engine's undo_seq.
unfoldable pub write_new_content : ℕ → StorageFile → SentenceSpan → Bytes → ℕ × StorageFile
unfolding generate_undo_token
write_new_content undo_seq f span replacement =
    let (next, token) = generate_undo_token undo_seq in
    (
      next,
      record f {
        content =
            take span.start f.content ++ (replacement ++ drop (span.start + span.length) f.content);
        undo_snapshot = some f.content;
        undo_token = token;
      },
    )

-- The three files are written. The program does not look at the results.
unfoldable pub persist_all : StorageEngine → StorageFile → StorageEngine
persist_all e f = (persist_undo (persist_metadata (persist_content e f).1 f).1 f).1

-- What storage_engine_write does with the words of the sentence.
abbrev pub edited_sentence : Bytes → SentenceSpan → List WordUpdate → Option Bytes
edited_sentence content span updates =
    elim (apply_updates (tokenize_words (sentence_at content span)) updates) [
      | refused taken ↦ none
      | updated words ↦ some (join_words words)
    ]

-- Whether apply_updates fails when realloc has taken the words, which are then read and freed.
abbrev pub words_lost : Bytes → SentenceSpan → List WordUpdate → Bool
words_lost content span updates =
    elim (apply_updates (tokenize_words (sentence_at content span)) updates) [
      | refused taken ↦ taken
      | updated words ↦ false
    ]

-- The file while its lock is held, with the new content and what goes with it.
unfoldable pub edited_file : ℕ → StorageFile → ℕ → SentenceSpan → Bytes → ℕ → StorageFile
unfolding set_lock write_new_content
edited_file undo_seq f sentence_index span new_sentence now =
    let taken =
      set_lock sentence_index (record { held = true; locked = true; copied = false }) f.locks in
    let changed = (write_new_content undo_seq (record f { locks = taken }) span new_sentence).1 in
    update_metadata_from_content (record changed { modified_at = now; last_accessed = now })

-- Whether update_metadata_from_content has moved the locks of `f`, which has become `counted`.
abbrev pub moved_away : StorageEngine → StorageFile → StorageFile → Bool
moved_away e f counted = e.moves e.undo_seq && ltb (length f.locks) (length counted.locks)

abbrev pub left_lock : Bool → SentenceLock
left_lock moved = if moved then record { held = true; locked = true; copied = true } else free_lock

-- The file once its lock is given back. The pointer to the lock is older than the array: where this
-- was moved, the lock at the old place is given back, and the one in the array stays as it is.
abbrev pub released : Bool → ℕ → StorageFile → StorageFile
released moved sentence_index f = record f {
  locks = set_lock sentence_index (left_lock moved) f.locks;
}

-- The file behind a write that succeeds.
abbrev pub left_file : StorageEngine → StorageFile → ℕ → SentenceSpan → Bytes → ℕ → StorageFile
left_file e f sentence_index span new_sentence now =
    let counted = edited_file e.undo_seq f sentence_index span new_sentence now in
    released (moved_away e f counted) sentence_index counted

-- The lock is taken, the sentence edited and the lock given back, in the file at place `i`. Where the
-- edit fails the mutex is given back, and the flag beside it stays set; free_words then reads the words,
-- also when apply_updates has lost them.
unfoldable pub write_sentence :
    StorageEngine
    → ℕ
    → StorageFile
    → ℕ
    → SentenceSpan
    → List WordUpdate
    → ℕ
    → StorageResult × StorageEngine
unfolding set_lock write_new_content edited_file persist_all store_at
write_sentence e i f sentence_index span updates now = elim (get_elem? f.locks sentence_index) [
  | none ↦ (out_of_bounds, e)
  | some lock ↦
      if lock.held
      then (err_locked, record e { files = store_at i f e.files })
      else elim (edited_sentence f.content span updates) [
        | none ↦
            let given =
              set_lock sentence_index (record { held = false; locked = true; copied = false })
                f.locks in
            if words_lost f.content span updates
            then (use_after_free, e)
            else (err_invalid, record e { files = store_at i (record f { locks = given }) e.files })
        | some new_sentence ↦
            let counted = edited_file e.undo_seq f sentence_index span new_sentence now in
            let left = left_file e f sentence_index span new_sentence now in
            let next = (write_new_content e.undo_seq f span new_sentence).0 in
            let e' = persist_all (record e { undo_seq = next }) counted in
            (storage_ok, record e' { files = store_at i left e'.files })
      ]
]

-- storage_engine_write at the time `now`. A null pointer for the updates is the empty list.
unfoldable pub storage_engine_write :
    StorageEngine → Option Bytes → ℕ → List WordUpdate → ℕ → StorageResult × StorageEngine
unfolding get_or_load_file choose_span write_sentence
storage_engine_write e none sentence_index updates now = (err_invalid, e)
storage_engine_write e (some filename) sentence_index [] now = (err_invalid, e)
storage_engine_write e (some filename) sentence_index (u ∷ updates) now =
    let (found, e') = get_or_load_file e filename none now in
    elim found [
      | none ↦ (err_not_found, e')
      | some place ↦ elim (choose_span place.1.content sentence_index) [
        | none ↦ (err_invalid, e')
        | some choice ↦
            let f = record place.1 { locks = ensure_sentence_capacity place.1.locks choice.1 } in
            write_sentence e' place.0 f sentence_index choice.0 (u ∷ updates) now
      ]
    ]

-- The token that storage_engine_write leaves in a buffer of `len` bytes when it succeeds; none where
-- there is no buffer.
abbrev pub undo_token_of : StorageFile → ℕ → Option Bytes
undo_token_of f len = if len == 0 then none else some (take (len - 1) f.undo_token)
