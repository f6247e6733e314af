-- ===== src/Storage/Editing/Undo.antt =====
-- The sentence that a write changes, and undo as its inverse.
use mathlib.Core.List.{Sublist}
use network_file_storage.Prelude.{
  drop-drop, ℕ, ◌+◌, ◌≤◌, Bytes, List, ◌++◌, none, some, ◌≡◌, refl, sym, ap, ◌∙◌, arith, length,
  length-take, length-drop, take, drop, take-append-drop,
}
use network_file_storage.Text.{
  SentenceSpan, WordUpdate, tokenize_words, apply_updates, updated, join_words,
}
use network_file_storage.Text.Updates.{apply_updates-Sublist, tokenize-join-updates}
use network_file_storage.Storage.{
  storage_ok, StorageFile, StorageEngine, find_file_locked, update_metadata_from_content,
  ensure_sentence_capacity,
}
use network_file_storage.Storage.Loading.{get_or_load_file}
use network_file_storage.Storage.Writing.{
  choose_span, sentence_at, storage_engine_write, edited_file, left_file, write_new_content,
}
use network_file_storage.Storage.Validity.Spans.{choose_span-Within}
use network_file_storage.Storage.Editing.{Written, write-Written}
use network_file_storage.Storage.Editing.Memory.{
  in_memory, content_of, snapshot_of, find-store, find-get_or_load,
}

-- A text is what stands before a span, the span's bytes and what stands behind it.
span_split :
    (text : Bytes) (span : SentenceSpan)
    → text ≡ take span.start text ++ (sentence_at text span ++ drop (span.start + span.length) text)
span_split text span =
    sym (take-append-drop span.start text)
    ∙ ap (λ s. take span.start text ++ s)
        (sym (take-append-drop span.length (drop span.start text))
          ∙ ap (λ s. sentence_at text span ++ s) (drop-drop span.start span.length text))

module _ (e : StorageEngine) (name : Bytes) (sentence_index : ℕ) (updates : List WordUpdate)
    (now : ℕ) where
  abbrev before : StorageEngine
  before = (get_or_load_file e name none now).1

  abbrev after : StorageEngine
  after = (storage_engine_write e (some name) sentence_index updates now).1

  abbrev stored_file : Written e name sentence_index updates now → StorageFile
  stored_file w =
      left_file before (record w.file { locks = ensure_sentence_capacity w.file.locks w.wanted })
        sentence_index w.span (join_words w.words) now

  found_before :
      length name ≤ 255
      → (w : Written e name sentence_index updates now)
      → find_file_locked name before.files ≡ some (w.place, w.file)
  found_before short w = find-get_or_load e name none now w.place w.file short w.loaded

  found_after :
      length name ≤ 255
      → (w : Written e name sentence_index updates now)
      → find_file_locked name after.files ≡ some (w.place, stored_file w)
  unfolding edited_file write_new_content update_metadata_from_content
  found_after short w =
      ap (find_file_locked name) w.stored
      ∙ find-store name before.files w.place w.file (stored_file w) (found_before short w) refl

-- The content and the snapshot of a file that is found.
found_content :
    (e : StorageEngine) (name : Bytes) (i : ℕ) (f : StorageFile)
    → find_file_locked name e.files ≡ some (i, f)
    → (content_of e name ≡ some f.content) × (snapshot_of e name ≡ f.undo_snapshot)
found_content e name i f h =
    (rw (h, content_of, in_memory) refl, rw (h, snapshot_of, in_memory) refl)

-- A write that succeeds on a name of at most 255 bytes changes one sentence: the content before is
-- some bytes, the sentence that choose_span gives and more bytes; afterwards it is the same bytes, a
-- new sentence and the same more bytes. The words of the new sentence are those that apply_updates
-- makes, so that the old ones are all still there in their order.
pub write-sentence :
    (e : StorageEngine) (name : Bytes) (sentence_index : ℕ) (updates : List WordUpdate) (now : ℕ)
    → length name ≤ 255
    → (storage_engine_write e (some name) sentence_index updates now).0 ≡ storage_ok
    → (prefix : Bytes) × (old : Bytes) × (new : Bytes) × (suffix : Bytes) × (content_of
          (get_or_load_file e name none now).1
          name
        ≡ some (prefix ++ (old ++ suffix)))
      × (content_of (storage_engine_write e (some name) sentence_index updates now).1 name
          ≡ some (prefix ++ (new ++ suffix)))
      × ((wanted : ℕ) × (choose_span (prefix ++ (old ++ suffix)) sentence_index
            ≡ some (record { start = length prefix; length = length old }, wanted)))
      × (apply_updates (tokenize_words old) updates ≡ updated (tokenize_words new))
      × Sublist (tokenize_words old) (tokenize_words new)
unfolding edited_file write_new_content update_metadata_from_content
write-sentence e name sentence_index updates now short h =
    let w = write-Written e name sentence_index updates now h in
    let (restored, kept) =
      found_content (before e name sentence_index updates now) name w.place w.file
        (found_before e name sentence_index updates now short w) in
    let (content, snapshot) =
      found_content (after e name sentence_index updates now) name w.place
        (stored_file e name sentence_index updates now w)
        (found_after e name sentence_index updates now short w) in
    let text = w.file.content in
    let old = sentence_at text w.span in
    let prefix = take w.span.start text in
    let suffix = drop (w.span.start + w.span.length) text in
    let (fits, within) = choose_span-Within text sentence_index w.span w.wanted w.chosen in
    let start : w.span.start ≡ length prefix =
      omega (arith, length-take w.span.start text, within) in
    let size : w.span.length ≡ length old = omega (
      arith,
      length-take w.span.length (drop w.span.start text),
      length-drop w.span.start text,
      within,
    ) in
    let tokens = tokenize-join-updates old w.words updates w.edited in
    (
      prefix,
      old,
      join_words w.words,
      suffix,
      restored ∙ ap some (span_split text w.span),
      content,
      (w.wanted, rw⁻¹ (span_split text w.span) (w.chosen ∙ cc (start, size))),
      w.edited ∙ ap updated (sym tokens),
      rw tokens (apply_updates-Sublist (tokenize_words old) w.words updates w.edited),
    )
