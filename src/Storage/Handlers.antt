-- ===== src/Storage/Handlers.antt =====
-- The other operations of the storage engine. Each takes the time that time(NULL) gives, and a
-- pointer that it compares with NULL as an Option; engines and out-parameters are there.
use network_file_storage.Prelude.{
  ℕ, zero, suc, Bytes, if◌then◌else◌, List, [], ◌∷◌, Option, none, some, take, get_elem?, c_str,
}
use network_file_storage.Text.{is_empty}
use network_file_storage.Disk.{unlink}
use network_file_storage.Storage.{
  StorageResult, storage_ok, err_not_found, err_invalid, err_io, StorageFile, StorageEngine,
  free_lock, update_metadata_from_content, find_file_locked, store_at,
}
use network_file_storage.Storage.Loading.{
  build_paths, get_or_load_file, persist_content, persist_metadata,
}
use network_file_storage.Storage.Writing.{persist_all, set_lock}

-- The file at a place is written back.
abbrev pub save : StorageEngine → ℕ → StorageFile → StorageEngine
save e i f = record e { files = store_at i f e.files }

-- persist_content(engine, file) != 0 || persist_metadata(engine, file) != 0
abbrev pub persist_both : StorageEngine → StorageFile → StorageResult × StorageEngine
persist_both e f =
    let (written, e1) = persist_content e f in
    let (noted, e2) = persist_metadata e1 f in
    if written then (if noted then (storage_ok, e2) else (err_io, e2)) else (err_io, e1)

-- storage_engine_create_file
unfoldable pub storage_engine_create_file :
    StorageEngine → Option Bytes → Option Bytes → ℕ → StorageResult × StorageEngine
unfolding get_or_load_file persist_content persist_metadata
storage_engine_create_file e none owner now = (err_invalid, e)
storage_engine_create_file e (some filename) none now = (err_invalid, e)
storage_engine_create_file e (some filename) (some owner) now =
    let (found, e') = get_or_load_file e filename (some owner) now in
    elim found [
      | none ↦ (err_io, e')
      | some place ↦
          let f = record place.1 {
            created_at = now;
            modified_at = now;
            last_accessed = now;
            owner = take 127 owner;
          } in
          let counted = update_metadata_from_content f in
          if is_empty place.1.content
          then persist_both (save e' place.0 counted) counted
          else (err_invalid, e')
    ]

-- The loop that moves the files behind the place down by one.
unfoldable pub remove_at : ℕ → List StorageFile → List StorageFile
remove_at i [] = []
remove_at zero (f ∷ files) = files
remove_at (suc i) (f ∷ files) = f ∷ remove_at i files

-- storage_engine_delete_file
unfoldable pub storage_engine_delete_file :
    StorageEngine → Option Bytes → StorageResult × StorageEngine
unfolding find_file_locked remove_at build_paths
storage_engine_delete_file e none = (err_invalid, e)
storage_engine_delete_file e (some filename) = elim (find_file_locked filename e.files) [
  | none ↦ (err_not_found, e)
  | some place ↦
      let e' = record e { files = remove_at place.0 e.files } in
      elim (build_paths e.root_path e.ss_id filename) [
        | none ↦ (storage_ok, e')
        | some paths ↦
            let d =
              unlink (unlink (unlink e.disk paths.file_path) paths.metadata_path) paths.undo_path in
            (storage_ok, record e' { disk = d })
      ]
]

-- storage_engine_read: the content, as strdup copies it.
unfoldable pub storage_engine_read :
    StorageEngine → Option Bytes → ℕ → StorageResult × Option Bytes × StorageEngine
unfolding get_or_load_file persist_metadata
storage_engine_read e none now = (err_invalid, none, e)
storage_engine_read e (some filename) now =
    let (found, e') = get_or_load_file e filename none now in
    elim found [
      | none ↦ (err_not_found, none, e')
      | some place ↦
          let f = record place.1 { last_accessed = now } in
          (storage_ok, some (c_str f.content), (persist_metadata (save e' place.0 f) f).1)
    ]

-- storage_engine_unlock_sentence
unfoldable pub storage_engine_unlock_sentence :
    StorageEngine → Option Bytes → ℕ → ℕ → StorageResult × StorageEngine
unfolding get_or_load_file set_lock
storage_engine_unlock_sentence e none sentence_index now = (err_invalid, e)
storage_engine_unlock_sentence e (some filename) sentence_index now =
    let (found, e') = get_or_load_file e filename none now in
    elim found [
      | none ↦ (err_not_found, e')
      | some place ↦ elim (get_elem? place.1.locks sentence_index) [
        | none ↦ (err_invalid, e')
        | some lock ↦
            let f = record place.1 { locks = set_lock sentence_index free_lock place.1.locks } in
            if lock.locked then (storage_ok, save e' place.0 f) else (storage_ok, e')
      ]
    ]

-- storage_engine_undo
unfoldable pub storage_engine_undo :
    StorageEngine → Option Bytes → ℕ → StorageResult × StorageEngine
unfolding get_or_load_file persist_all
storage_engine_undo e none now = (err_invalid, e)
storage_engine_undo e (some filename) now =
    let (found, e') = get_or_load_file e filename none now in
    elim found [
      | none ↦ (err_not_found, e')
      | some place ↦ elim place.1.undo_snapshot [
        | none ↦ (err_invalid, e')
        | some snapshot ↦
            let f = update_metadata_from_content (record place.1 {
              content = snapshot;
              undo_snapshot = some place.1.content;
              modified_at = now;
              last_accessed = now;
            }) in
            (storage_ok, persist_all (save e' place.0 f) f)
      ]
    ]

-- storage_file_info_t
pub record FileInfo : Type 0 where
  pub filename : Bytes
  pub owner : Bytes
  pub word_count : ℕ
  pub char_count : ℕ
  pub sentence_count : ℕ
  pub created_at : ℕ
  pub modified_at : ℕ
  pub last_accessed : ℕ
  pub last_accessed_by : Bytes

-- storage_engine_info
unfoldable pub storage_engine_info :
    StorageEngine → Option Bytes → ℕ → StorageResult × Option FileInfo × StorageEngine
unfolding get_or_load_file
storage_engine_info e none now = (err_invalid, none, e)
storage_engine_info e (some filename) now =
    let (found, e') = get_or_load_file e filename none now in
    elim found [
      | none ↦ (err_not_found, none, e')
      | some place ↦
          let f = place.1 in
          (
            storage_ok,
            some (record {
              filename = take 255 f.filename;
              owner = take 127 f.owner;
              word_count = f.word_count;
              char_count = f.char_count;
              sentence_count = f.sentence_count;
              created_at = f.created_at;
              modified_at = f.modified_at;
              last_accessed = f.last_accessed;
              last_accessed_by = take 127 f.last_accessed_by;
            }),
            e',
          )
    ]

-- The name that is noted, if one is given.
abbrev pub accessed_by : Bytes → Option Bytes → Bytes
accessed_by old none = old
accessed_by old (some []) = old
accessed_by old (some (c ∷ s)) = take 127 (c ∷ s)

-- storage_engine_mark_access
unfoldable pub storage_engine_mark_access :
    StorageEngine → Option Bytes → Option Bytes → ℕ → StorageResult × StorageEngine
unfolding get_or_load_file persist_metadata
storage_engine_mark_access e none username now = (err_invalid, e)
storage_engine_mark_access e (some filename) username now =
    let (found, e') = get_or_load_file e filename none now in
    elim found [
      | none ↦ (err_not_found, e')
      | some place ↦
          let f = record place.1 {
            last_accessed = now;
            last_accessed_by = accessed_by place.1.last_accessed_by username;
          } in
          let (noted, e2) = persist_metadata (save e' place.0 f) f in
          if noted then (storage_ok, e2) else (err_io, e2)
    ]
