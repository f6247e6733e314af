-- ===== src/Storage/Editing/Failure.antt =====
-- A write that fails.
use network_file_storage.Prelude.{
  ℕ, zero, suc, Bytes, true, false, if◌then◌else◌, List, [], ◌∷◌, ◌++◌, Option, none, some, ◌≡◌,
  ◌≢◌, refl, sym, ap, ◌∙◌, arith, length, get_elem?, Option-cases, Bool-cases, inl, inr, str_eq,
}
use network_file_storage.Text.{SentenceSpan, WordUpdate}
use network_file_storage.Storage.{
  SentenceLock, storage_ok, use_after_free, StorageFile, StorageEngine, find_file_locked, store_at,
  allocate_file, ensure_sentence_capacity,
}
use network_file_storage.Storage.Loading.{get_or_load_file, load_file_from_disk}
use network_file_storage.Storage.Writing.{
  choose_span, words_lost, write_sentence, edited_sentence, storage_engine_write, set_lock,
}
use network_file_storage.Storage.Editing.Memory.{in_memory, content_of, snapshot_of}

-- What is read of the files in memory: content and snapshot by name.
abbrev seen : List StorageFile → Bytes → Option (Bytes × Option Bytes)
seen files q = elim (find_file_locked q files) [
  | none ↦ none
  | some found ↦ some (found.1.content, found.1.undo_snapshot)
]

seen-cons :
    (f : StorageFile) (files : List StorageFile) (q : Bytes)
    → seen (f ∷ files) q
      ≡ (if str_eq f.filename q then some (f.content, f.undo_snapshot) else seen files q)
unfolding find_file_locked
seen-cons f files q = elim (Bool-cases (str_eq f.filename q)) [
  | inl e ↦ ground (arith, e)
  | inr n ↦ elim (Option-cases (find_file_locked q files)) [
    | inl m ↦ ground (arith, n, m)
    | inr ((j, k), m) ↦ ground (arith, n, m)
  ]
]

-- Other locks are not seen.
seen-relock :
    (files : List StorageFile) (i : ℕ) (f : StorageFile) (locks : List SentenceLock) (q : Bytes)
    → get_elem? files i ≡ some f
    → seen (store_at i (record f { locks = locks }) files) q ≡ seen files q
unfolding store_at
seen-relock [] i f locks q h = absurd (cc h)
seen-relock (g ∷ files) zero f locks q h =
    let same : g ≡ f = cc h in
    seen-cons (record f { locks = locks }) files q ∙ rw⁻¹ same (sym (seen-cons g files q))
seen-relock (g ∷ files) (suc i) f locks q h =
    seen-cons g (store_at i (record f { locks = locks }) files) q
    ∙ ap (λ r. if str_eq g.filename q then some (g.content, g.undo_snapshot) else r)
        (seen-relock files i f locks q h)
    ∙ sym (seen-cons g files q)

get-find :
    (q : Bytes) (files : List StorageFile) (i : ℕ) (f : StorageFile)
    → find_file_locked q files ≡ some (i, f)
    → get_elem? files i ≡ some f
unfolding find_file_locked
get-find q [] i f e = absurd (cc e)
get-find q (g ∷ files) i f e = elim (Bool-cases (str_eq g.filename q)) [
  | inl t ↦
      let place : 0 ≡ i = ground (arith, t, e) in
      let same : g ≡ f = ground (arith, t, e) in rw⁻¹ place (ap some same)
  | inr n ↦ elim (Option-cases (find_file_locked q files)) [
    | inl m ↦ absurd (ground (arith, n, m, e))
    | inr ((j, k), m) ↦
        let place : suc j ≡ i = ground (arith, n, m, e) in
        let same : k ≡ f = ground (arith, n, m, e) in
        rw⁻¹ place (get-find q files j k m ∙ ap some same)
  ]
]

get-append :
    (files : List StorageFile) (f : StorageFile)
    → get_elem? (files ++ f ∷ []) (length files) ≡ some f
get-append [] f = refl
get-append (g ∷ files) f = get-append files f

-- get_or_load_file gives the place of the file that it gives.
get-get_or_load :
    (e : StorageEngine) (name : Bytes) (owner : Option Bytes) (now i : ℕ) (f : StorageFile)
    → (get_or_load_file e name owner now).0 ≡ some (i, f)
    → get_elem? (get_or_load_file e name owner now).1.files i ≡ some f
unfolding get_or_load_file
get-get_or_load e name owner now i f h = elim (Option-cases (find_file_locked name e.files)) [
  | inr ((j, g), s) ↦
      let found : find_file_locked name e.files ≡ some (i, f) = ground (arith, s, h) in
      ground (arith, s, get-find name e.files i f found)
  | inl n ↦
      let fresh = allocate_file name owner in
      let e' = (load_file_from_disk e fresh now).1 in
      elim (Option-cases (load_file_from_disk e fresh now).0) [
        | inl m ↦ absurd (ground (arith, n, m, h))
        | inr (g, m) ↦ ground (arith, n, m, h, get-append e'.files g)
      ]
]

sentence_failed :
    (e : StorageEngine) (i : ℕ) (f : StorageFile) (locks : List SentenceLock) (sentence_index : ℕ)
    (span : SentenceSpan) (updates : List WordUpdate) (now : ℕ) (q : Bytes)
    → get_elem? e.files i ≡ some f
    → (write_sentence e i (record f { locks = locks }) sentence_index span updates now).0
      ≢ storage_ok
    → (write_sentence e i (record f { locks = locks }) sentence_index span updates now).0
      ≢ use_after_free
    → (seen
          (write_sentence e i (record f { locks = locks }) sentence_index span updates now).1.files
          q
        ≡ seen e.files q)
      × ((write_sentence e i (record f { locks = locks }) sentence_index span updates now).1.disk
          ≡ e.disk)
unfolding write_sentence
sentence_failed e i f locks sentence_index span updates now q h k safe =
    elim (Option-cases (get_elem? locks sentence_index)) [
      | inl n ↦ rw (n, write_sentence) (refl, refl)
      | inr (lock, n) ↦ elim (Bool-cases lock.held) [
        | inl m ↦ rw (n, m, write_sentence) (seen-relock e.files i f locks q h, refl)
        | inr m ↦ elim (Option-cases (edited_sentence f.content span updates)) [
          | inl s ↦
              let given =
                set_lock sentence_index (record { held = false; locked = true; copied = false })
                  locks in
              elim (Bool-cases (words_lost f.content span updates)) [
                | inl t ↦ absurd (ground (arith, n, m, s, t, safe))
                | inr t ↦ rw (n, m, s, t, write_sentence) (seen-relock e.files i f given q h, refl)
              ]
          | inr (text, s) ↦ absurd (ground (arith, n, m, s, k))
        ]
      ]
    ]

seen_content :
    (e : StorageEngine) (q : Bytes)
    → content_of e q ≡ elim (seen e.files q) [ none ↦ none | some s ↦ some s.0 ]
seen_content e q = elim (Option-cases (find_file_locked q e.files)) [
  | inl n ↦ rw (n, content_of, in_memory, seen) refl
  | inr (p, n) ↦ rw (n, content_of, in_memory, seen) refl
]

seen_snapshot :
    (e : StorageEngine) (q : Bytes)
    → snapshot_of e q ≡ elim (seen e.files q) [ none ↦ none | some s ↦ s.1 ]
seen_snapshot e q = elim (Option-cases (find_file_locked q e.files)) [
  | inl n ↦ rw (n, snapshot_of, in_memory, seen) refl
  | inr (p, n) ↦ rw (n, snapshot_of, in_memory, seen) refl
]

module _ (e : StorageEngine) (name : Bytes) (sentence_index : ℕ) (u : WordUpdate)
    (updates : List WordUpdate) (now : ℕ) where
  abbrev loaded : StorageEngine
  loaded = (get_or_load_file e name none now).1

  abbrev failed : StorageEngine
  failed = (storage_engine_write e (some name) sentence_index (u ∷ updates) now).1

  write_unseen :
      (q : Bytes)
      → (storage_engine_write e (some name) sentence_index (u ∷ updates) now).0 ≢ storage_ok
      → (storage_engine_write e (some name) sentence_index (u ∷ updates) now).0 ≢ use_after_free
      → (seen (storage_engine_write e (some name) sentence_index (u ∷ updates) now).1.files q
          ≡ seen (get_or_load_file e name none now).1.files q)
        × ((storage_engine_write e (some name) sentence_index (u ∷ updates) now).1.disk
            ≡ (get_or_load_file e name none now).1.disk)
  unfolding storage_engine_write
  write_unseen q h safe =
      let got = get_or_load_file e name none now in
      elim (Option-cases got.0) [
        | inl n ↦ rw (n, storage_engine_write) (refl, refl)
        | inr ((i, f), n) ↦ elim (Option-cases (choose_span f.content sentence_index)) [
          | inl m ↦ rw (n, m, storage_engine_write) (refl, refl)
          | inr ((span, wanted), m) ↦
              let locks = ensure_sentence_capacity f.locks wanted in
              rw (n, m, storage_engine_write)
                (sentence_failed got.1 i f locks sentence_index span (u ∷ updates) now q
                  (get-get_or_load e name none now i f n) (ground (arith, n, m, h))
                  (ground (arith, n, m, safe)))
        ]
      ]

-- A write with at least one update that does not succeed, and has not read the words of the sentence
-- after apply_updates gave them to realloc, leaves the content and the undo snapshot of
-- every file in memory, and the whole disk, as they were once the file was loaded.
pub write-failed :
    (e : StorageEngine) (name : Bytes) (sentence_index : ℕ) (u : WordUpdate)
    (updates : List WordUpdate) (now : ℕ) (q : Bytes)
    → (storage_engine_write e (some name) sentence_index (u ∷ updates) now).0 ≢ storage_ok
    → (storage_engine_write e (some name) sentence_index (u ∷ updates) now).0 ≢ use_after_free
    → (content_of (storage_engine_write e (some name) sentence_index (u ∷ updates) now).1 q
        ≡ content_of (get_or_load_file e name none now).1 q)
      × (snapshot_of (storage_engine_write e (some name) sentence_index (u ∷ updates) now).1 q
          ≡ snapshot_of (get_or_load_file e name none now).1 q)
      × ((storage_engine_write e (some name) sentence_index (u ∷ updates) now).1.disk
          ≡ (get_or_load_file e name none now).1.disk)
write-failed e name sentence_index u updates now q h safe =
    let before = loaded e name sentence_index u updates now in
    let after = failed e name sentence_index u updates now in
    let (same, disk) = write_unseen e name sentence_index u updates now q h safe in
    (
      seen_content after q
          ∙ ap (λ (s : Option (Bytes × Option Bytes)). elim s [ none ↦ none | some p ↦ some p.0 ])
              same
          ∙ sym (seen_content before q),
      seen_snapshot after q
          ∙ ap (λ (s : Option (Bytes × Option Bytes)). elim s [ none ↦ none | some p ↦ p.1 ]) same
          ∙ sym (seen_snapshot before q),
      disk,
    )
