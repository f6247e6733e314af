-- ===== src/Storage/Validity/Checkpoints.antt =====
-- The operations of Storage/Checkpoints keep the files valid.
use mathlib.Core.Path.{subst}
use network_file_storage.Prelude.{
  ℕ, Bytes, if◌then◌else◌, Option, none, some, ◌≡◌, sym, arith, All, Option-cases, Bool-cases, inl,
  inr, codes, ◌==◌,
}
use network_file_storage.Text.{is_valid_checkpoint_tag}
use network_file_storage.Disk.{at, ensure_dir, read_file_if_exists, path_max}
use network_file_storage.Persistence.{ss_checkpoint_dir}
use network_file_storage.Storage.{StorageFile, StorageEngine, update_metadata_from_content}
use network_file_storage.Storage.Loading.{get_or_load_file}
use network_file_storage.Storage.Handlers.{save}
use network_file_storage.Storage.Checkpoints.{
  storage_engine_checkpoint, storage_engine_view_checkpoint, storage_engine_revert_checkpoint,
  storage_engine_import, checkpoint_path, save_checkpoint,
}
use network_file_storage.Storage.Validity.{FileValid, EngineValid, update-FileValid}
use network_file_storage.Storage.Validity.Handlers.{
  save-Valid, files-persist_both, files-persist_three,
}
use network_file_storage.Storage.Validity.Loading.{get_or_load-Valid}

same_files-EngineValid :
    (e e' : StorageEngine) → EngineValid e → e'.files ≡ e.files → EngineValid e'
same_files-EngineValid e e' h same = subst (All FileValid) (sym same) h

files-save_checkpoint :
    (e : StorageEngine) (filename tag content dir : Bytes)
    → (save_checkpoint e filename tag content dir).1.files ≡ e.files
files-save_checkpoint e filename tag content dir =
    elim (Option-cases (checkpoint_path e filename tag)) [
      | inl n ↦ ground (arith, n)
      | inr (path, n) ↦ elim (Option-cases (at (ensure_dir e.disk dir).1 path)) [
        | inl m ↦ ground (arith, n, m)
        | inr (k, m) ↦ ground (arith, n, m)
      ]
    ]

pub checkpoint-Valid :
    (e : StorageEngine) (filename tag : Option Bytes) (now : ℕ)
    → EngineValid e
    → EngineValid (storage_engine_checkpoint e filename tag now).1
unfolding storage_engine_checkpoint
checkpoint-Valid e none tag now h = h
checkpoint-Valid e (some filename) none now h = h
checkpoint-Valid e (some filename) (some tag) now h =
    let got = get_or_load_file e filename none now in
    let (kept, valid) = get_or_load-Valid e filename none now h in
    elim (Bool-cases (is_valid_checkpoint_tag tag)) [
      | inr n ↦ rw (n, storage_engine_checkpoint) h
      | inl n ↦ elim (Option-cases got.0) [
        | inl m ↦ rw (n, m, storage_engine_checkpoint) kept
        | inr ((i, f), m) ↦
            elim (Option-cases
              (ss_checkpoint_dir path_max (some e.root_path) (some e.ss_id) (some filename))) [
                | inl k ↦ rw (n, m, k, storage_engine_checkpoint) kept
                | inr (dir, k) ↦
                    rw (n, m, k, storage_engine_checkpoint)
                      (same_files-EngineValid got.1
                        (save_checkpoint got.1 filename tag f.content dir).1 kept
                        (files-save_checkpoint got.1 filename tag f.content dir))
              ]
      ]
    ]

pub view_checkpoint-Valid :
    (e : StorageEngine) (filename tag : Option Bytes)
    → EngineValid e
    → EngineValid (storage_engine_view_checkpoint e filename tag).2
unfolding storage_engine_view_checkpoint
view_checkpoint-Valid e none tag h = h
view_checkpoint-Valid e (some filename) none h = h
view_checkpoint-Valid e (some filename) (some tag) h =
    elim (Bool-cases (is_valid_checkpoint_tag tag)) [
      | inr n ↦ rw (n, storage_engine_view_checkpoint) h
      | inl n ↦ elim (Option-cases (checkpoint_path e filename tag)) [
        | inl m ↦ rw (n, m, storage_engine_view_checkpoint) h
        | inr (path, m) ↦ elim (Option-cases (read_file_if_exists e.disk path).0) [
          | inl k ↦ rw (n, m, k, storage_engine_view_checkpoint) h
          | inr (b, k) ↦ rw (n, m, k, storage_engine_view_checkpoint) h
        ]
      ]
    ]

pub revert-Valid :
    (e : StorageEngine) (filename tag : Option Bytes) (now : ℕ)
    → EngineValid e
    → EngineValid (storage_engine_revert_checkpoint e filename tag now).1
unfolding storage_engine_revert_checkpoint
revert-Valid e none tag now h = h
revert-Valid e (some filename) none now h = h
revert-Valid e (some filename) (some tag) now h =
    elim (Option-cases (checkpoint_path e filename tag)) [
      | inl n ↦ rw (n, storage_engine_revert_checkpoint) h
      | inr (path, n) ↦ elim (Option-cases (read_file_if_exists e.disk path).0) [
        | inl m ↦ rw (n, m, storage_engine_revert_checkpoint) h
        | inr (bytes, m) ↦
            let e1 : StorageEngine = record e { disk = (read_file_if_exists e.disk path).1 } in
            let got = get_or_load_file e1 filename none now in
            let (kept, valid) = get_or_load-Valid e1 filename none now h in
            elim (Option-cases got.0) [
              | inl k ↦ rw (n, m, k, storage_engine_revert_checkpoint) kept
              | inr ((i, f), k) ↦
                  let g : StorageFile = record f {
                    content = bytes;
                    undo_snapshot = some f.content;
                    modified_at = now;
                    last_accessed = now;
                  } in
                  let counted = update_metadata_from_content g in
                  rw (n, m, k, storage_engine_revert_checkpoint)
                    (save-Valid got.1 _ i counted kept (update-FileValid g (valid i f k).free)
                      (files-persist_three (save got.1 i counted) counted))
            ]
      ]
    ]

pub import-Valid :
    (e : StorageEngine) (filename content : Option Bytes) (now : ℕ)
    → EngineValid e
    → EngineValid (storage_engine_import e filename content now).1
unfolding storage_engine_import
import-Valid e none content now h = h
import-Valid e (some filename) none now h = h
import-Valid e (some filename) (some content) now h =
    let system = some (codes "system") in
    let got = get_or_load_file e filename system now in
    let (kept, valid) = get_or_load-Valid e filename system now h in
    elim (Option-cases got.0) [
      | inl n ↦ rw (n, storage_engine_import) kept
      | inr ((i, f), n) ↦
          let g : StorageFile = record f {
            content = content;
            modified_at = now;
            last_accessed = if f.last_accessed == 0 then now else f.last_accessed;
          } in
          let counted = update_metadata_from_content g in
          rw (n, storage_engine_import)
            (save-Valid got.1 _ i counted kept (update-FileValid g (valid i f n).free)
              (files-persist_both (save got.1 i counted) counted))
    ]
