-- ===== src/Storage/Validity/Handlers.antt =====
-- The operations of Storage/Handlers keep the files valid.
use mathlib.Core.Path.{subst}
use network_file_storage.Prelude.{
  ℕ, Bytes, List, Option, none, some, ◌≡◌, refl, sym, ◌∙◌, arith, get_elem?, All, Option-cases,
  Bool-cases, inl, inr, take,
}
use network_file_storage.Text.{is_empty}
use network_file_storage.Storage.{
  free_lock, StorageFile, StorageEngine, find_file_locked, update_metadata_from_content,
}
use network_file_storage.Storage.Loading.{
  build_paths, get_or_load_file, persist_content, persist_metadata,
}
use network_file_storage.Storage.Writing.{set_lock}
use network_file_storage.Storage.Handlers.{
  save, persist_both, storage_engine_create_file, storage_engine_delete_file, storage_engine_read,
  storage_engine_unlock_sentence, storage_engine_undo, storage_engine_info,
  storage_engine_mark_access, accessed_by,
}
use network_file_storage.Storage.Checkpoints.{persist_three}
use network_file_storage.Storage.Validity.{
  FileValid, EngineValid, update-FileValid, relock-FileValid,
}
use network_file_storage.Storage.Validity.Arrays.{
  All-store_at, All-remove_at, All-set_lock, length-set_lock, files-persist_content,
  files-persist_metadata, files-persist_undo, files-persist_all,
}
use network_file_storage.Storage.Validity.Loading.{get_or_load-Valid}

-- A valid file is written back, and what is persisted leaves the files alone.
pub save-Valid :
    (e : StorageEngine) (files : List StorageFile) (i : ℕ) (f : StorageFile)
    → EngineValid e
    → FileValid f
    → files ≡ (save e i f).files
    → All FileValid files
save-Valid e files i f h v same =
    subst (All FileValid) (sym same) (All-store_at FileValid i f e.files h v)

pub files-persist_both :
    (e : StorageEngine) (f : StorageFile) → (persist_both e f).1.files ≡ e.files
files-persist_both e f =
    ground (arith, files-persist_content e f, files-persist_metadata (persist_content e f).1 f)

pub files-persist_three :
    (e : StorageEngine) (f : StorageFile) → (persist_three e f).1.files ≡ e.files
files-persist_three e f =
    let e1 = (persist_content e f).1 in
    let e2 = (persist_metadata e1 f).1 in
    files-persist_undo e2 f ∙ files-persist_metadata e1 f ∙ files-persist_content e f

pub create-Valid :
    (e : StorageEngine) (filename owner : Option Bytes) (now : ℕ)
    → EngineValid e
    → EngineValid (storage_engine_create_file e filename owner now).1
unfolding storage_engine_create_file
create-Valid e none owner now h = h
create-Valid e (some filename) none now h = h
create-Valid e (some filename) (some owner) now h =
    let got = get_or_load_file e filename (some owner) now in
    let (kept, valid) = get_or_load-Valid e filename (some owner) now h in
    elim (Option-cases got.0) [
      | inl n ↦ rw (n, storage_engine_create_file) kept
      | inr ((i, f), n) ↦ elim (Bool-cases (is_empty f.content)) [
        | inr m ↦ rw (n, m, storage_engine_create_file) kept
        | inl m ↦
            let named : StorageFile = record f {
              created_at = now;
              modified_at = now;
              last_accessed = now;
              owner = take 127 owner;
            } in
            let counted = update_metadata_from_content named in
            rw (n, m, storage_engine_create_file)
              (save-Valid got.1 _ i counted kept (update-FileValid named (valid i f n).free)
                (files-persist_both (save got.1 i counted) counted))
      ]
    ]

pub delete-Valid :
    (e : StorageEngine) (filename : Option Bytes)
    → EngineValid e
    → EngineValid (storage_engine_delete_file e filename).1
unfolding storage_engine_delete_file
delete-Valid e none h = h
delete-Valid e (some filename) h = elim (Option-cases (find_file_locked filename e.files)) [
  | inl n ↦ rw (n, storage_engine_delete_file) h
  | inr ((i, f), n) ↦ elim (Option-cases (build_paths e.root_path e.ss_id filename)) [
    | inl m ↦ rw (n, m, storage_engine_delete_file) (All-remove_at FileValid i e.files h)
    | inr (p, m) ↦ rw (n, m, storage_engine_delete_file) (All-remove_at FileValid i e.files h)
  ]
]

pub read-Valid :
    (e : StorageEngine) (filename : Option Bytes) (now : ℕ)
    → EngineValid e
    → EngineValid (storage_engine_read e filename now).2
unfolding storage_engine_read
read-Valid e none now h = h
read-Valid e (some filename) now h =
    let got = get_or_load_file e filename none now in
    let (kept, valid) = get_or_load-Valid e filename none now h in
    elim (Option-cases got.0) [
      | inl n ↦ rw (n, storage_engine_read) kept
      | inr ((i, f), n) ↦
          let v = valid i f n in
          let g : StorageFile = record f { last_accessed = now } in
          rw (n, storage_engine_read)
            (save-Valid got.1 _ i g kept
              (record {
                words = v.words;
                chars = v.chars;
                sentences = v.sentences;
                room = v.room;
                free = v.free;
              })
              (files-persist_metadata (save got.1 i g) g))
    ]

pub unlock-Valid :
    (e : StorageEngine) (filename : Option Bytes) (sentence_index now : ℕ)
    → EngineValid e
    → EngineValid (storage_engine_unlock_sentence e filename sentence_index now).1
unfolding storage_engine_unlock_sentence
unlock-Valid e none sentence_index now h = h
unlock-Valid e (some filename) sentence_index now h =
    let got = get_or_load_file e filename none now in
    let (kept, valid) = get_or_load-Valid e filename none now h in
    elim (Option-cases got.0) [
      | inl n ↦ rw (n, storage_engine_unlock_sentence) kept
      | inr ((i, f), n) ↦ elim (Option-cases (get_elem? f.locks sentence_index)) [
        | inl m ↦ rw (n, m, storage_engine_unlock_sentence) kept
        | inr (l, m) ↦ elim (Bool-cases l.locked) [
          | inr k ↦ rw (n, m, k, storage_engine_unlock_sentence) kept
          | inl k ↦
              let v = valid i f n in
              let locks = set_lock sentence_index free_lock f.locks in
              rw (n, m, k, storage_engine_unlock_sentence)
                (save-Valid got.1 _ i (record f { locks = locks }) kept
                  (relock-FileValid f locks v
                    (omega (arith, length-set_lock sentence_index free_lock f.locks))
                    (All-set_lock sentence_index free_lock f.locks v.free refl))
                  refl)
        ]
      ]
    ]

pub undo-Valid :
    (e : StorageEngine) (filename : Option Bytes) (now : ℕ)
    → EngineValid e
    → EngineValid (storage_engine_undo e filename now).1
unfolding storage_engine_undo
undo-Valid e none now h = h
undo-Valid e (some filename) now h =
    let got = get_or_load_file e filename none now in
    let (kept, valid) = get_or_load-Valid e filename none now h in
    elim (Option-cases got.0) [
      | inl n ↦ rw (n, storage_engine_undo) kept
      | inr ((i, f), n) ↦ elim (Option-cases f.undo_snapshot) [
        | inl m ↦ rw (n, m, storage_engine_undo) kept
        | inr (snapshot, m) ↦
            let g : StorageFile = record f {
              content = snapshot;
              undo_snapshot = some f.content;
              modified_at = now;
              last_accessed = now;
            } in
            let counted = update_metadata_from_content g in
            rw (n, m, storage_engine_undo)
              (save-Valid got.1 _ i counted kept (update-FileValid g (valid i f n).free)
                (files-persist_all (save got.1 i counted) counted))
      ]
    ]

pub info-Valid :
    (e : StorageEngine) (filename : Option Bytes) (now : ℕ)
    → EngineValid e
    → EngineValid (storage_engine_info e filename now).2
unfolding storage_engine_info
info-Valid e none now h = h
info-Valid e (some filename) now h =
    let (kept, valid) = get_or_load-Valid e filename none now h in
    elim (Option-cases (get_or_load_file e filename none now).0) [
      | inl n ↦ rw (n, storage_engine_info) kept
      | inr ((i, f), n) ↦ rw (n, storage_engine_info) kept
    ]

pub mark_access-Valid :
    (e : StorageEngine) (filename username : Option Bytes) (now : ℕ)
    → EngineValid e
    → EngineValid (storage_engine_mark_access e filename username now).1
unfolding storage_engine_mark_access
mark_access-Valid e none username now h = h
mark_access-Valid e (some filename) username now h =
    let got = get_or_load_file e filename none now in
    let (kept, valid) = get_or_load-Valid e filename none now h in
    elim (Option-cases got.0) [
      | inl n ↦ rw (n, storage_engine_mark_access) kept
      | inr ((i, f), n) ↦
          let v = valid i f n in
          let g : StorageFile = record f {
            last_accessed = now;
            last_accessed_by = accessed_by f.last_accessed_by username;
          } in
          let same = files-persist_metadata (save got.1 i g) g in
          let stays =
            save-Valid got.1 (persist_metadata (save got.1 i g) g).1.files i g kept
              (record {
                words = v.words;
                chars = v.chars;
                sentences = v.sentences;
                room = v.room;
                free = v.free;
              })
              same in
          elim (Bool-cases (persist_metadata (save got.1 i g) g).0) [
            | inl m ↦ rw (n, m, storage_engine_mark_access) stays
            | inr m ↦ rw (n, m, storage_engine_mark_access) stays
          ]
    ]
