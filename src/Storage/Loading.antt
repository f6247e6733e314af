-- ===== src/Storage/Loading.antt =====
-- A file's paths, what is written to them and read from them, and how the engine comes by a file.
use network_file_storage.Prelude.{
  ℕ, ◌-◌, Bytes, Bool, true, false, if◌then◌else◌, List, [], ◌∷◌, ◌++◌, Option, none, some, ◌>>=◌,
  ltb, length, take, codes,
}
use network_file_storage.Disk.{
  Disk, ensure_dir, atomic_write, unlink, read_file_if_exists, path_max,
}
use network_file_storage.Persistence.{ss_root_path, ss_file_path, ss_metadata_path, ss_undo_path}
use network_file_storage.Storage.{
  StorageFile, StorageEngine, update_metadata_from_content, allocate_file, find_file_locked,
}
use network_file_storage.Storage.Metadata.{metadata_text, load_metadata}

-- The three paths of a file.
pub record FilePaths : Type 0 where
  pub file_path : Bytes
  pub metadata_path : Bytes
  pub undo_path : Bytes

-- build_paths, into buffers of PATH_MAX bytes.
unfoldable pub build_paths : Bytes → Bytes → Bytes → Option FilePaths
build_paths root_path ss_id filename =
    ss_file_path path_max (some root_path) (some ss_id) filename >>= λ file_path.
    ss_metadata_path path_max (some root_path) (some ss_id) filename >>= λ metadata_path.
    ss_undo_path path_max (some root_path) (some ss_id) filename >>= λ undo_path.
    some (record { file_path = file_path; metadata_path = metadata_path; undo_path = undo_path })

-- The loop over the directories of a storage server; false is the return value -1.
unfoldable pub ensure_subs : Disk → Bytes → List Bytes → Bool × Disk
ensure_subs d root [] = (true, d)
ensure_subs d root (sub ∷ subs) =
    let path = root ++ (codes "/" ++ sub) in
    let (made, d') = ensure_dir d path in
    let rest = ensure_subs d' root subs in
    if ltb (length path) path_max then (if made then rest else (false, d')) else (false, d)

-- ensure_engine_dirs
unfoldable pub ensure_engine_dirs : Disk → Bytes → Bytes → Bool × Disk
unfolding ensure_subs
ensure_engine_dirs d root_path ss_id = elim (ss_root_path path_max (some root_path) (some ss_id)) [
  | none ↦ (false, d)
  | some root ↦
      let (made, d') = ensure_dir d root in
      let subs =
        codes "files" ∷ codes "metadata" ∷ codes "undo" ∷ codes "logs" ∷ codes "checkpoints" ∷ [] in
      if made then ensure_subs d' root subs else (false, d')
]

-- persist_metadata writes what fits into 512 bytes.
unfoldable pub persist_metadata : StorageEngine → StorageFile → Bool × StorageEngine
unfolding build_paths
persist_metadata e f = elim (build_paths e.root_path e.ss_id f.filename) [
  | none ↦ (false, e)
  | some paths ↦
      let text = metadata_text f in
      let (written, d) = atomic_write e.disk paths.metadata_path text in
      if ltb (length text) 512 then (written, record e { disk = d }) else (false, e)
]

-- persist_content
unfoldable pub persist_content : StorageEngine → StorageFile → Bool × StorageEngine
unfolding build_paths
persist_content e f = elim (build_paths e.root_path e.ss_id f.filename) [
  | none ↦ (false, e)
  | some paths ↦
      let (written, d) = atomic_write e.disk paths.file_path f.content in
      (written, record e { disk = d })
]

-- persist_undo
unfoldable pub persist_undo : StorageEngine → StorageFile → Bool × StorageEngine
unfolding build_paths
persist_undo e f = elim (build_paths e.root_path e.ss_id f.filename) [
  | none ↦ (false, e)
  | some paths ↦ elim f.undo_snapshot [
    | none ↦ (true, record e { disk = unlink e.disk paths.undo_path })
    | some snapshot ↦
        let (written, d) = atomic_write e.disk paths.undo_path snapshot in
        (written, record e { disk = d })
  ]
]

-- An empty buffer in place of a null pointer.
abbrev pub or_empty : Option Bytes → Bytes
or_empty none = []
or_empty (some b) = b

-- load_file_from_disk; none is the return value -1.
unfoldable pub load_file_from_disk :
    StorageEngine → StorageFile → ℕ → Option StorageFile × StorageEngine
unfolding build_paths
load_file_from_disk e f now = elim (build_paths e.root_path e.ss_id f.filename) [
  | none ↦ (none, e)
  | some paths ↦
      let (content, d1) = read_file_if_exists e.disk paths.file_path in
      let (meta, d2) = read_file_if_exists d1 paths.metadata_path in
      let (snapshot, d3) = read_file_if_exists d2 paths.undo_path in
      let loaded = load_metadata (record f { content = or_empty content }) meta now in
      (
        some (update_metadata_from_content (record loaded { undo_snapshot = snapshot })),
        record e { disk = d3 },
      )
]

-- storage_engine_init over a disk, with what realloc will do; none is the return value -1.
unfoldable pub storage_engine_init :
    (ℕ → Bool) → Disk → Option Bytes → Option Bytes → Option StorageEngine × Disk
unfolding ensure_engine_dirs
storage_engine_init moves d none ss_id = (none, d)
storage_engine_init moves d (some base_dir) none = (none, d)
storage_engine_init moves d (some base_dir) (some ss_id) =
    let root = take (path_max - 1) base_dir in
    let id = take 127 ss_id in
    let (made, d') = ensure_engine_dirs d root id in
    if made
    then (
      some (record {
        root_path = root;
        ss_id = id;
        files = [];
        undo_seq = 0;
        disk = d';
        moves = moves;
      }),
      d',
    )
    else (none, d')

-- get_or_load_file: the place of the file and the file; none is a null pointer.
unfoldable pub get_or_load_file :
    StorageEngine → Bytes → Option Bytes → ℕ → Option (ℕ × StorageFile) × StorageEngine
unfolding find_file_locked allocate_file load_file_from_disk
get_or_load_file e filename owner_hint now = elim (find_file_locked filename e.files) [
  | some found ↦ (some found, e)
  | none ↦
      let (loaded, e') = load_file_from_disk e (allocate_file filename owner_hint) now in
      elim loaded [
        | none ↦ (none, e')
        | some f ↦ (some (length e'.files, f), record e' { files = e'.files ++ f ∷ [] })
      ]
]
