-- ===== src/Storage/Checkpoints.antt =====
-- Checkpoints and the import of a replica's content.
use network_file_storage.Prelude.{ℕ, Bytes, if◌then◌else◌, Option, none, some, ◌==◌, codes}
use network_file_storage.Text.{is_valid_checkpoint_tag}
use network_file_storage.Disk.{at, ensure_dir, atomic_write, read_file_if_exists, path_max}
use network_file_storage.Persistence.{ss_checkpoint_dir, ss_checkpoint_path}
use network_file_storage.Storage.{
  StorageResult, storage_ok, err_not_found, err_invalid, err_io, err_exists, StorageFile,
  StorageEngine, update_metadata_from_content,
}
use network_file_storage.Storage.Loading.{
  get_or_load_file, persist_content, persist_metadata, persist_undo,
}
use network_file_storage.Storage.Handlers.{save, persist_both}

-- The path of a checkpoint, into a buffer of PATH_MAX bytes.
abbrev pub checkpoint_path : StorageEngine → Bytes → Bytes → Option Bytes
checkpoint_path e filename tag =
    ss_checkpoint_path path_max (some e.root_path) (some e.ss_id) (some filename) (some tag)

-- storage_engine_checkpoint once the directory's path is there.
abbrev pub save_checkpoint :
    StorageEngine → Bytes → Bytes → Bytes → Bytes → StorageResult × StorageEngine
save_checkpoint e filename tag content dir =
    let (made, d1) = ensure_dir e.disk dir in
    let e1 = record e { disk = d1 } in
    if made
    then (elim (checkpoint_path e filename tag) [
      | none ↦ (err_io, e1)
      | some path ↦ elim (at d1 path) [
        | some n ↦ (err_exists, e1)
        | none ↦
            let (written, d2) = atomic_write d1 path content in
            (if written then storage_ok else err_io, record e { disk = d2 })
      ]
    ])
    else (err_io, e1)

-- storage_engine_checkpoint
unfoldable pub storage_engine_checkpoint :
    StorageEngine → Option Bytes → Option Bytes → ℕ → StorageResult × StorageEngine
unfolding get_or_load_file is_valid_checkpoint_tag
storage_engine_checkpoint e none tag now = (err_invalid, e)
storage_engine_checkpoint e (some filename) none now = (err_invalid, e)
storage_engine_checkpoint e (some filename) (some tag) now =
    let (found, e') = get_or_load_file e filename none now in
    if is_valid_checkpoint_tag tag
    then (elim found [
      | none ↦ (err_not_found, e')
      | some place ↦
          elim (ss_checkpoint_dir path_max (some e.root_path) (some e.ss_id) (some filename)) [
            | none ↦ (err_io, e')
            | some dir ↦ save_checkpoint e' filename tag place.1.content dir
          ]
    ])
    else (err_invalid, e)

-- storage_engine_view_checkpoint
unfoldable pub storage_engine_view_checkpoint :
    StorageEngine → Option Bytes → Option Bytes → StorageResult × Option Bytes × StorageEngine
unfolding is_valid_checkpoint_tag
storage_engine_view_checkpoint e none tag = (err_invalid, none, e)
storage_engine_view_checkpoint e (some filename) none = (err_invalid, none, e)
storage_engine_view_checkpoint e (some filename) (some tag) =
    if is_valid_checkpoint_tag tag
    then (elim (checkpoint_path e filename tag) [
      | none ↦ (err_io, none, e)
      | some path ↦
          let (content, d) = read_file_if_exists e.disk path in
          let e' = record e { disk = d } in
          elim content [
            | none ↦ (err_not_found, none, e')
            | some bytes ↦ (storage_ok, some bytes, e')
          ]
    ])
    else (err_invalid, none, e)

-- The three files are written, one after the other, also where one fails.
abbrev pub persist_three : StorageEngine → StorageFile → StorageResult × StorageEngine
persist_three e f =
    let (written, e1) = persist_content e f in
    let (noted, e2) = persist_metadata e1 f in
    let (kept, e3) = persist_undo e2 f in
    (
      if written then (if noted then (if kept then storage_ok else err_io) else err_io) else err_io,
      e3,
    )

-- storage_engine_revert_checkpoint
unfoldable pub storage_engine_revert_checkpoint :
    StorageEngine → Option Bytes → Option Bytes → ℕ → StorageResult × StorageEngine
unfolding get_or_load_file
storage_engine_revert_checkpoint e none tag now = (err_invalid, e)
storage_engine_revert_checkpoint e (some filename) none now = (err_invalid, e)
storage_engine_revert_checkpoint e (some filename) (some tag) now =
    elim (checkpoint_path e filename tag) [
      | none ↦ (err_io, e)
      | some path ↦
          let (snapshot, d) = read_file_if_exists e.disk path in
          let e1 = record e { disk = d } in
          elim snapshot [
            | none ↦ (err_not_found, e1)
            | some bytes ↦
                let (found, e2) = get_or_load_file e1 filename none now in
                elim found [
                  | none ↦ (err_not_found, e2)
                  | some place ↦
                      let f = update_metadata_from_content (record place.1 {
                        content = bytes;
                        undo_snapshot = some place.1.content;
                        modified_at = now;
                        last_accessed = now;
                      }) in
                      persist_three (save e2 place.0 f) f
                ]
          ]
    ]

-- storage_engine_import
unfoldable pub storage_engine_import :
    StorageEngine → Option Bytes → Option Bytes → ℕ → StorageResult × StorageEngine
unfolding get_or_load_file
storage_engine_import e none content now = (err_invalid, e)
storage_engine_import e (some filename) none now = (err_invalid, e)
storage_engine_import e (some filename) (some content) now =
    let (found, e') = get_or_load_file e filename (some (codes "system")) now in
    elim found [
      | none ↦ (err_io, e')
      | some place ↦
          let f = update_metadata_from_content (record place.1 {
            content = content;
            modified_at = now;
            last_accessed = if place.1.last_accessed == 0 then now else place.1.last_accessed;
          }) in
          persist_both (save e' place.0 f) f
    ]
