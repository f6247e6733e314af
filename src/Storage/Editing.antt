-- ===== src/Storage/Editing.antt =====
-- What storage_engine_write and storage_engine_undo do to the content of the file.
pub mod Memory
pub mod Undo
pub mod Failure
use network_file_storage.Prelude.{
  ℕ, ◌+◌, Bytes, Bool, true, false, if◌then◌else◌, List, [], ◌∷◌, Option, none, some, ◌≡◌, ◌≢◌,
  refl, sym, ap, ◌∙◌, arith, get_elem?, Option-cases, Bool-cases, inl, inr,
}
use network_file_storage.Text.{
  SentenceSpan, WordUpdate, tokenize_words, apply_updates, updated, join_words,
}
use network_file_storage.Text.Updates.{UpdateResult-cases}
use network_file_storage.Storage.{
  StorageResult, storage_ok, err_locked, err_invalid, err_not_found, out_of_bounds, StorageFile,
  StorageEngine, store_at, ensure_sentence_capacity,
}
use network_file_storage.Storage.Loading.{get_or_load_file}
use network_file_storage.Storage.Writing.{
  choose_span, sentence_at, edited_sentence, write_sentence, write_new_content,
  storage_engine_write, edited_file, left_file, released, persist_all,
}
use network_file_storage.Storage.Validity.Arrays.{files-persist_all}

-- The choices of a write that succeeds: the place of the file, the file, the span of the sentence and
-- the words after the updates.
pub record Written (e : StorageEngine) (filename : Bytes) (sentence_index : ℕ)
    (updates : List WordUpdate) (now : ℕ) : Type 0 where
  pub place : ℕ
  pub file : StorageFile
  pub span : SentenceSpan
  pub wanted : ℕ
  pub words : List Bytes
  pub loaded : (get_or_load_file e filename none now).0 ≡ some (place, file)
  pub chosen : choose_span file.content sentence_index ≡ some (span, wanted)
  pub edited :
      apply_updates (tokenize_words (sentence_at file.content span)) updates ≡ updated words
  pub stored :
      (storage_engine_write e (some filename) sentence_index updates now).1.files
      ≡ store_at place
          (left_file
            (get_or_load_file e filename none now).1
            (record file { locks = ensure_sentence_capacity file.locks wanted })
            sentence_index
            span
            (join_words words)
            now)
          (get_or_load_file e filename none now).1.files

-- A sentence is edited only if its lock is there and free and the updates fit.
sentence_written :
    (e : StorageEngine) (i : ℕ) (f : StorageFile) (sentence_index : ℕ) (span : SentenceSpan)
    (updates : List WordUpdate) (now : ℕ)
    → (write_sentence e i f sentence_index span updates now).0 ≡ storage_ok
    → (words : List Bytes) × (apply_updates (tokenize_words (sentence_at f.content span)) updates
        ≡ updated words)
      × ((write_sentence e i f sentence_index span updates now).1.files
          ≡ store_at i (left_file e f sentence_index span (join_words words) now) e.files)
unfolding write_sentence
sentence_written e i f sentence_index span updates now h =
    elim (Option-cases (get_elem? f.locks sentence_index)) [
      | inl n ↦ absurd (ground (arith, n, h))
      | inr (lock, n) ↦ elim (Bool-cases lock.held) [
        | inl k ↦ absurd (ground (arith, n, k, h))
        | inr k ↦
            elim (UpdateResult-cases
              (apply_updates (tokenize_words (sentence_at f.content span)) updates)) [
                | inr (taken, m) ↦ elim (Bool-cases taken) [
                  | inl t ↦ absurd (ground (arith, n, k, m, t, h))
                  | inr t ↦ absurd (ground (arith, n, k, m, t, h))
                ]
                | inl (words, m) ↦
                    let counted =
                      edited_file e.undo_seq f sentence_index span (join_words words) now in
                    let next = (write_new_content e.undo_seq f span (join_words words)).0 in
                    (
                      words,
                      m,
                      ground (
                        arith,
                        n,
                        k,
                        m,
                        files-persist_all (record e { undo_seq = next }) counted,
                      ),
                    )
              ]
      ]
    ]

pub write-Written :
    (e : StorageEngine) (filename : Bytes) (sentence_index : ℕ) (updates : List WordUpdate)
    (now : ℕ)
    → (storage_engine_write e (some filename) sentence_index updates now).0 ≡ storage_ok
    → Written e filename sentence_index updates now
unfolding storage_engine_write
write-Written e filename sentence_index [] now h = absurd (cc h)
write-Written e filename sentence_index (u ∷ updates) now h =
    let got = get_or_load_file e filename none now in
    elim (Option-cases got.0) [
      | inl n ↦ absurd (ground (arith, n, h))
      | inr ((i, f), n) ↦ elim (Option-cases (choose_span f.content sentence_index)) [
        | inl m ↦ absurd (ground (arith, n, m, h))
        | inr ((span, wanted), m) ↦
            let grown : StorageFile = record f {
              locks = ensure_sentence_capacity f.locks wanted;
            } in
            let (words, edited, same) =
              sentence_written got.1 i grown sentence_index span (u ∷ updates) now
                (ground (arith, n, m, h)) in
            record {
              place = i;
              file = f;
              span = span;
              wanted = wanted;
              words = words;
              loaded = n;
              chosen = m;
              edited = edited;
              stored = ground (arith, n, m, same);
            }
      ]
    ]
