-- ===== src/Storage/Validity/Writing.antt =====
-- storage_engine_write keeps the files valid, and the lock of the sentence is there.
use mathlib.Core.Path.{subst}
use network_file_storage.Prelude.{
  ℕ, ◌<◌, Bytes, true, false, List, [], ◌∷◌, Option, none, some, ◌≡◌, ◌≢◌, refl, sym, ◌∙◌, arith,
  length, All, Option-cases, Bool-cases, inl, inr,
}
use network_file_storage.Text.{SentenceSpan, compute_spans, WordUpdate}
use network_file_storage.Storage.{
  SentenceLock, err_locked, out_of_bounds, StorageFile, StorageEngine, store_at,
  update_metadata_from_content, ensure_sentence_capacity,
}
use network_file_storage.Storage.Loading.{get_or_load_file}
use network_file_storage.Storage.Writing.{
  words_lost, set_lock, edited_file, left_file, left_lock, moved_away, choose_span, write_sentence,
  edited_sentence, write_new_content, storage_engine_write,
}
use network_file_storage.Storage.Validity.{
  FileValid, EngineValid, relock-FileValid, capacity-le, capacity-IsOwnerless, capacity-grows,
}
use network_file_storage.Storage.Validity.Arrays.{
  All-store_at, All-set_lock, length-set_lock, get-lock, files-persist_all,
}
use network_file_storage.Storage.Validity.Loading.{get_or_load-Valid}
use network_file_storage.Storage.Validity.Spans.{choose_span-Within}
use network_file_storage.Storage.Validity.Locks.{
  capacity-set_again, left_lock-IsOwnerless, CopiedLock, capacity-CopiedLock,
}

left_file-FileValid :
    (e : StorageEngine) (f : StorageFile) (sentence_index : ℕ) (span : SentenceSpan) (text : Bytes)
    (now : ℕ)
    → FileValid f
    → sentence_index < length f.locks
    → FileValid (left_file e f sentence_index span text now)
unfolding edited_file update_metadata_from_content
left_file-FileValid e f sentence_index span text now v lt =
    let taken : SentenceLock = record { held = true; locked = true; copied = false } in
    let counted = edited_file e.undo_seq f sentence_index span text now in
    let given = left_lock (moved_away e f counted) in
    let locks = set_lock sentence_index taken f.locks in
    let count = length (compute_spans (write_new_content e.undo_seq f span text).1.content) in
    record {
      words = refl;
      chars = refl;
      sentences = refl;
      room = omega (
        arith,
        capacity-le locks count,
        length-set_lock sentence_index given (ensure_sentence_capacity locks count),
      );
      free =
          capacity-set_again sentence_index count given taken f.locks v.free
            (left_lock-IsOwnerless (moved_away e f counted)) lt;
    }

-- Where the lock is there, what write_sentence leaves is valid, and it fails for the lock only if realloc
-- copied this while it was held.
write_sentence-Valid :
    (e : StorageEngine) (i : ℕ) (f : StorageFile) (sentence_index : ℕ) (span : SentenceSpan)
    (updates : List WordUpdate) (now : ℕ)
    → EngineValid e
    → FileValid f
    → sentence_index < length f.locks
    → EngineValid (write_sentence e i f sentence_index span updates now).1
      × ((write_sentence e i f sentence_index span updates now).0 ≡ err_locked
          → CopiedLock f.locks sentence_index)
      × ((write_sentence e i f sentence_index span updates now).0 ≢ out_of_bounds)
unfolding write_sentence
write_sentence-Valid e i f sentence_index span updates now h v lt =
    let (l, found, ownerless) = get-lock sentence_index f.locks lt v.free in
    elim (Bool-cases l.held) [
      | inl held ↦
          rw (found, held, write_sentence)
            (
              All-store_at FileValid i f e.files h v,
              λ _. (l, refl, sym ownerless ∙ held),
              λ k. cc k,
            )
      | inr free ↦ elim (Option-cases (edited_sentence f.content span updates)) [
        | inl n ↦
            let given : SentenceLock = record { held = false; locked = true; copied = false } in
            let locks = set_lock sentence_index given f.locks in
            elim (Bool-cases (words_lost f.content span updates)) [
              | inl t ↦ rw (found, free, n, t, write_sentence) (h, λ k. cc k, λ k. cc k)
              | inr t ↦
                  rw (found, free, n, t, write_sentence)
                    (
                      All-store_at FileValid i (record f { locks = locks }) e.files h
                          (relock-FileValid f locks v
                            (omega (arith, length-set_lock sentence_index given f.locks))
                            (All-set_lock sentence_index given f.locks v.free refl)),
                      λ k. cc k,
                      λ k. cc k,
                    )
            ]
        | inr (text, n) ↦
            let left = left_file e f sentence_index span text now in
            let counted = edited_file e.undo_seq f sentence_index span text now in
            let next = (write_new_content e.undo_seq f span text).0 in
            let same : store_at i left e.files
                ≡ (write_sentence e i f sentence_index span updates now).1.files =
              ground
                (arith, n, found, free, files-persist_all (record e { undo_seq = next }) counted) in
            (
              subst (All FileValid) same (
                  All-store_at FileValid i left e.files h
                    (left_file-FileValid e f sentence_index span text now v lt)),
              λ k. absurd (ground (arith, n, found, free, k)),
              ground (arith, n, found, free),
            )
      ]
    ]

-- The lock of a sentence of the file that a write loads, copied by realloc while it was held.
abbrev pub LeftHeld : StorageEngine → Option Bytes → ℕ → ℕ → Type 0
LeftHeld e filename sentence_index now =
    (name : Bytes) × (place : ℕ) × (f : StorageFile) × (filename ≡ some name)
    × ((get_or_load_file e name none now).0 ≡ some (place, f))
    × CopiedLock f.locks sentence_index

-- storage_engine_write keeps every file of the engine valid, finds the lock of the sentence inside of
-- the array of locks, and held only if realloc copied it while it was.
pub write-Valid :
    (e : StorageEngine) (filename : Option Bytes) (sentence_index : ℕ) (updates : List WordUpdate)
    (now : ℕ)
    → EngineValid e
    → EngineValid (storage_engine_write e filename sentence_index updates now).1
      × ((storage_engine_write e filename sentence_index updates now).0 ≡ err_locked
          → LeftHeld e filename sentence_index now)
      × ((storage_engine_write e filename sentence_index updates now).0 ≢ out_of_bounds)
unfolding storage_engine_write
write-Valid e none sentence_index updates now h = (h, λ k. cc k, λ k. cc k)
write-Valid e (some filename) sentence_index [] now h = (h, λ k. cc k, λ k. cc k)
write-Valid e (some filename) sentence_index (u ∷ updates) now h =
    let got = get_or_load_file e filename none now in
    let (kept, valid) = get_or_load-Valid e filename none now h in
    elim (Option-cases got.0) [
      | inl n ↦ rw (n, storage_engine_write) (kept, λ k. cc k, λ k. cc k)
      | inr ((i, f), n) ↦ elim (Option-cases (choose_span f.content sentence_index)) [
        | inl m ↦ rw (n, m, storage_engine_write) (kept, λ k. cc k, λ k. cc k)
        | inr ((span, wanted), m) ↦
            let locks = ensure_sentence_capacity f.locks wanted in
            let (left, held, inside) =
              write_sentence-Valid got.1 i (record f { locks = locks }) sentence_index span
                (u ∷ updates) now kept
                (relock-FileValid f locks (valid i f n) (capacity-grows f.locks wanted)
                  (capacity-IsOwnerless f.locks wanted (valid i f n).free))
                (omega (
                  arith,
                  capacity-le f.locks wanted,
                  (choose_span-Within f.content sentence_index span wanted m).0,
                )) in
            rw (n, m, storage_engine_write)
              (
                left,
                λ k. (
                  filename,
                  i,
                  f,
                  refl,
                  n,
                  capacity-CopiedLock f.locks wanted sentence_index (held k),
                ),
                inside,
              )
      ]
    ]
