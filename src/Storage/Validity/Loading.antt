-- ===== src/Storage/Validity/Loading.antt =====
-- get_or_load_file keeps the files valid.
use mathlib.Core.Path.{subst}
use network_file_storage.Prelude.{
  ℕ, Bytes, [], ◌∷◌, ◌++◌, Option, none, some, ◌≡◌, refl, sym, ◌∙◌, arith, All, All-append,
  Option-cases, inl, inr,
}
use network_file_storage.Disk.{read_file_if_exists}
use network_file_storage.Storage.{
  StorageFile, StorageEngine, find_file_locked, allocate_file, update_metadata_from_content,
}
use network_file_storage.Storage.Metadata.{load_metadata}
use network_file_storage.Storage.Loading.{
  or_empty, build_paths, load_file_from_disk, get_or_load_file,
}
use network_file_storage.Storage.Validity.{IsOwnerless, FileValid, EngineValid, update-FileValid}
use network_file_storage.Storage.Validity.Arrays.{All-find_file}

locks-load_metadata :
    (f : StorageFile) (meta : Option Bytes) (now : ℕ) → (load_metadata f meta now).locks ≡ f.locks
unfolding load_metadata
locks-load_metadata f none now = refl
locks-load_metadata f (some b) now = refl

-- A file that was just allocated and loaded.
loaded-FileValid :
    (e : StorageEngine) (f : StorageFile) (now : ℕ) (g : StorageFile)
    → f.locks ≡ []
    → (load_file_from_disk e f now).0 ≡ some g
    → FileValid g
unfolding load_file_from_disk
loaded-FileValid e f now g h k = elim (Option-cases (build_paths e.root_path e.ss_id f.filename)) [
  | inl n ↦ absurd (ground (arith, n, k))
  | inr (p, s) ↦
      let content = read_file_if_exists e.disk p.file_path in
      let meta = read_file_if_exists content.1 p.metadata_path in
      let snapshot = read_file_if_exists meta.1 p.undo_path in
      let filled : StorageFile = record f { content = or_empty content.0 } in
      let read : StorageFile = record (load_metadata filled meta.0 now) {
        undo_snapshot = snapshot.0;
      } in
      let none_held : All IsOwnerless read.locks =
        subst (All IsOwnerless) (sym (locks-load_metadata filled meta.0 now ∙ h)) tt in
      let same : update_metadata_from_content read ≡ g = ground (arith, s, k) in
      subst FileValid same (update-FileValid read none_held)
]

files-load :
    (e : StorageEngine) (f : StorageFile) (now : ℕ)
    → (load_file_from_disk e f now).1.files ≡ e.files
unfolding load_file_from_disk
files-load e f now = elim (Option-cases (build_paths e.root_path e.ss_id f.filename)) [
  | inl n ↦ ground (arith, n)
  | inr (p, s) ↦ ground (arith, s)
]

pub get_or_load-Valid :
    (e : StorageEngine) (filename : Bytes) (owner : Option Bytes) (now : ℕ)
    → EngineValid e
    → EngineValid (get_or_load_file e filename owner now).1
      × ((i : ℕ) (f : StorageFile)
          → (get_or_load_file e filename owner now).0 ≡ some (i, f)
          → FileValid f)
unfolding get_or_load_file allocate_file
get_or_load-Valid e filename owner now h = elim (Option-cases (find_file_locked filename e.files)) [
  | inr ((j, g), s) ↦ (
    subst (All FileValid) (ground (arith, s)) h,
    λ i f k. All-find_file FileValid filename e.files i f h (ground (arith, s, k)),
  )
  | inl n ↦
      let fresh = allocate_file filename owner in
      let e' = (load_file_from_disk e fresh now).1 in
      let kept : EngineValid e' = subst (All FileValid) (sym (files-load e fresh now)) h in
      elim (Option-cases (load_file_from_disk e fresh now).0) [
        | inl m ↦ (
          subst (All FileValid) (ground (arith, n, m)) kept,
          λ i f k. absurd (ground (arith, n, m, k)),
        )
        | inr (g, m) ↦
            let valid : FileValid g = loaded-FileValid e fresh now g refl m in
            let grown : e'.files ++ g ∷ [] ≡ (get_or_load_file e filename owner now).1.files =
              ground (arith, n, m) in
            (
              subst (All FileValid) grown (All-append FileValid e'.files (g ∷ []) kept (valid, tt)),
              λ i f k. let same : g ≡ f = ground (arith, n, m, k) in subst FileValid same valid,
            )
      ]
]
