-- ===== src/Storage/Tests.antt =====
-- The storage engine at work.
use mathlib.Core.List.{Sublist}
use network_file_storage.Prelude.{
  ◌⊎◌, true, ℕ, Bytes, codes, none, some, ◌≡◌, ◌≢◌, refl, List, [], ◌∷◌, ◌++◌, length, arith, c_str,
  str_eq, decimal, digits, padded, zeros,
}
use network_file_storage.Text.{
  WordUpdate, compute_spans, scan_spans, count_words, count_from, tokenize_words, split_from,
  normalise_inline_whitespace, apply_update, apply_updates, update_loop, updated, join_words,
}
use network_file_storage.Disk.{
  Disk, dir, ensure_dir, ensure_dir_fuel, mkdir, attempt, parent, lookup, insert, remove,
  atomic_write, ensure_parent_dir, replace_file, fill_temp, rename_temp, read_file_if_exists,
}
use network_file_storage.Persistence.{ss_root_path, ss_file_path, ss_metadata_path, ss_undo_path}
use network_file_storage.Storage.{
  use_after_free, StorageResult, storage_ok, err_locked, err_invalid, out_of_bounds, StorageEngine,
  find_file_locked, store_at, allocate_file, update_metadata_from_content, ensure_sentence_capacity,
  doubled, free_locks, generate_undo_token,
}
use network_file_storage.Storage.Metadata.{metadata_text, lld, load_metadata}
use network_file_storage.Storage.Loading.{
  storage_engine_init, ensure_engine_dirs, ensure_subs, build_paths, get_or_load_file,
  load_file_from_disk, persist_content, persist_metadata, persist_undo,
}
use network_file_storage.Storage.Writing.{
  storage_engine_write, choose_span, write_sentence, set_lock, write_new_content, edited_file,
  persist_all,
}
use network_file_storage.Storage.Checkpoints.{storage_engine_import}
use network_file_storage.Storage.Validity.{EngineValid}
use network_file_storage.Storage.Validity.Steps.{
  Reachable, started, stepped, import_content, run, Reachable-EngineValid, write-lock_free,
}
use network_file_storage.Storage.Validity.Writing.{LeftHeld}
use network_file_storage.Storage.Editing.Failure.{write-failed}
use network_file_storage.Storage.Editing.Memory.{content_of, snapshot_of}
use network_file_storage.Storage.Editing.Undo.{write-sentence}

-- A disk on which the directories of the storage server "s" below "d" are there.
abbrev disk : Disk
disk = record {
  nodes =
      (codes "d/ss_data_s", dir)
      ∷ (codes "d/ss_data_s/files", dir)
      ∷ (codes "d/ss_data_s/metadata", dir)
      ∷ (codes "d/ss_data_s/undo", dir)
      ∷ (codes "d/ss_data_s/logs", dir)
      ∷ (codes "d/ss_data_s/checkpoints", dir)
      ∷ [];
  answers = [];
  suffix = codes "k3";
}

-- The engine that storage_engine_init makes on it.
abbrev fresh : StorageEngine
fresh = record {
  root_path = codes "d";
  ss_id = codes "s";
  files = [];
  undo_seq = 0;
  disk = disk;
  moves = λ n. true;
}

init_run :
    storage_engine_init (λ n. true) disk (some (codes "d")) (some (codes "s")) ≡ (some fresh, disk)
unfolding storage_engine_init ensure_engine_dirs ensure_subs ensure_dir ensure_dir_fuel mkdir
    attempt parent lookup insert str_eq ss_root_path
init_run = refl

abbrev a_txt : Bytes
a_txt = codes "a.txt"

-- The engine after a replica's content was imported.
abbrev engine : StorageEngine
engine = run (import_content (some a_txt) (some (codes "One two. Three!"))) fresh 10

engine-Reachable : Reachable engine
engine-Reachable =
    stepped (import_content (some a_txt) (some (codes "One two. Three!"))) 10
      (started (λ n. true) disk disk (some (codes "d")) (some (codes "s")) init_run) tt refl

abbrev edits : List WordUpdate
edits = record { index = 1; text = some (codes "and a") } ∷ []

abbrev result : StorageResult × StorageEngine
result = storage_engine_write engine (some a_txt) 0 edits 11

write_run : result.0 ≡ storage_ok
unfolding run storage_engine_import get_or_load_file find_file_locked load_file_from_disk
    allocate_file build_paths ss_file_path ss_metadata_path ss_undo_path read_file_if_exists
    load_metadata update_metadata_from_content ensure_sentence_capacity doubled free_locks
    compute_spans scan_spans count_words count_from c_str store_at persist_content persist_metadata
    persist_undo atomic_write ensure_parent_dir replace_file fill_temp rename_temp remove
    metadata_text lld decimal digits storage_engine_write choose_span write_sentence set_lock
    write_new_content edited_file persist_all generate_undo_token padded zeros tokenize_words
    split_from normalise_inline_whitespace apply_updates update_loop apply_update join_words
    storage_engine_init ensure_engine_dirs ensure_subs ensure_dir ensure_dir_fuel mkdir attempt
    parent lookup insert str_eq ss_root_path
write_run = refl

written_run : content_of result.1 a_txt ≡ some (codes "One and a two. Three!")
unfolding run storage_engine_import get_or_load_file find_file_locked load_file_from_disk
    allocate_file build_paths ss_file_path ss_metadata_path ss_undo_path read_file_if_exists
    load_metadata update_metadata_from_content ensure_sentence_capacity doubled free_locks
    compute_spans scan_spans count_words count_from c_str store_at persist_content persist_metadata
    persist_undo atomic_write ensure_parent_dir replace_file fill_temp rename_temp remove
    metadata_text lld decimal digits storage_engine_write choose_span write_sentence set_lock
    write_new_content edited_file persist_all generate_undo_token padded zeros tokenize_words
    split_from normalise_inline_whitespace apply_updates update_loop apply_update join_words
    storage_engine_init ensure_engine_dirs ensure_subs ensure_dir ensure_dir_fuel mkdir attempt
    parent lookup insert str_eq ss_root_path
written_run = refl

-- Five sentences where there was one: realloc moves the locks, and the lock of the sentence is left held.
abbrev five : List WordUpdate
five = record { index = 0; text = some (codes "a. b. c. d.") } ∷ []

left_held_run :
    (storage_engine_write
      (storage_engine_write engine (some a_txt) 0 five 11).1
      (some a_txt)
      0
      edits
      12).0
    ≡ err_locked
unfolding run storage_engine_import get_or_load_file find_file_locked load_file_from_disk
    allocate_file build_paths ss_file_path ss_metadata_path ss_undo_path read_file_if_exists
    load_metadata update_metadata_from_content ensure_sentence_capacity doubled free_locks
    compute_spans scan_spans count_words count_from c_str store_at persist_content persist_metadata
    persist_undo atomic_write ensure_parent_dir replace_file fill_temp rename_temp remove
    metadata_text lld decimal digits storage_engine_write choose_span write_sentence set_lock
    write_new_content edited_file persist_all generate_undo_token padded zeros tokenize_words
    split_from normalise_inline_whitespace apply_updates update_loop apply_update join_words
    storage_engine_init ensure_engine_dirs ensure_subs ensure_dir ensure_dir_fuel mkdir attempt
    parent lookup insert str_eq ss_root_path
left_held_run = refl

-- An update that does not fit, behind one that has grown the words.
abbrev lost : List WordUpdate
lost =
    record { index = 0; text = some (codes "and") }
    ∷ record { index = 9; text = some (codes "a") }
    ∷ []

lost_run : (storage_engine_write engine (some a_txt) 0 lost 11).0 ≡ use_after_free
unfolding run storage_engine_import get_or_load_file find_file_locked load_file_from_disk
    allocate_file build_paths ss_file_path ss_metadata_path ss_undo_path read_file_if_exists
    load_metadata update_metadata_from_content ensure_sentence_capacity doubled free_locks
    compute_spans scan_spans count_words count_from c_str store_at persist_content persist_metadata
    persist_undo atomic_write ensure_parent_dir replace_file fill_temp rename_temp remove
    metadata_text lld decimal digits storage_engine_write choose_span write_sentence set_lock
    write_new_content edited_file persist_all generate_undo_token padded zeros tokenize_words
    split_from normalise_inline_whitespace apply_updates update_loop apply_update join_words
    storage_engine_init ensure_engine_dirs ensure_subs ensure_dir ensure_dir_fuel mkdir attempt
    parent lookup insert str_eq ss_root_path
lost_run = refl

-- A sentence that is not there.
invalid_run : (storage_engine_write engine (some a_txt) 3 edits 11).0 ≡ err_invalid
unfolding run storage_engine_import get_or_load_file find_file_locked load_file_from_disk
    allocate_file build_paths ss_file_path ss_metadata_path ss_undo_path read_file_if_exists
    load_metadata update_metadata_from_content ensure_sentence_capacity doubled free_locks
    compute_spans scan_spans count_words count_from c_str store_at persist_content persist_metadata
    persist_undo atomic_write ensure_parent_dir replace_file fill_temp rename_temp remove
    metadata_text lld decimal digits storage_engine_write choose_span write_sentence set_lock
    write_new_content edited_file persist_all generate_undo_token padded zeros tokenize_words
    split_from normalise_inline_whitespace apply_updates update_loop apply_update join_words
    storage_engine_init ensure_engine_dirs ensure_subs ensure_dir ensure_dir_fuel mkdir attempt
    parent lookup insert str_eq ss_root_path
invalid_run = refl

abbrev refused : StorageResult × StorageEngine
refused = storage_engine_write engine (some a_txt) 3 edits 11

refused_run : refused.0 ≢ storage_ok
refused_run e = cc (invalid_run, e)

refused_safe : refused.0 ≢ use_after_free
refused_safe e = cc (invalid_run, e)

write-failed_example :
    (content_of refused.1 a_txt ≡ content_of (get_or_load_file engine a_txt none 11).1 a_txt)
    × (snapshot_of refused.1 a_txt ≡ snapshot_of (get_or_load_file engine a_txt none 11).1 a_txt)
    × (refused.1.disk ≡ (get_or_load_file engine a_txt none 11).1.disk)
write-failed_example =
    write-failed engine a_txt 3 (record { index = 1; text = some (codes "and a") }) [] 11 a_txt
      refused_run refused_safe

Reachable-EngineValid_example : EngineValid engine
Reachable-EngineValid_example = Reachable-EngineValid engine-Reachable

write-lock_free_example :
    ((result.0 ≢ err_locked) ⊎ LeftHeld engine (some a_txt) 0 11) × (result.0 ≢ out_of_bounds)
write-lock_free_example = write-lock_free (some a_txt) 0 edits 11 engine-Reachable

write-sentence_example :
    (prefix : Bytes) × (old : Bytes) × (new : Bytes) × (suffix : Bytes) × (content_of
        (get_or_load_file engine a_txt none 11).1
        a_txt
      ≡ some (prefix ++ (old ++ suffix)))
    × (content_of result.1 a_txt ≡ some (prefix ++ (new ++ suffix)))
    × ((wanted : ℕ) × (choose_span (prefix ++ (old ++ suffix)) 0
          ≡ some (record { start = length prefix; length = length old }, wanted)))
    × (apply_updates (tokenize_words old) edits ≡ updated (tokenize_words new))
    × Sublist (tokenize_words old) (tokenize_words new)
write-sentence_example = write-sentence engine a_txt 0 edits 11 (omega arith) write_run
