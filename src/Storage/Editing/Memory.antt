-- ===== src/Storage/Editing/Memory.antt =====
-- The files in memory by their names.
use network_file_storage.Prelude.{
  ℕ, suc, ◌≤◌, Bytes, true, List, [], ◌∷◌, ◌++◌, Option, none, some, ◌≡◌, refl, sym, ap, ◌∙◌, arith,
  length, take_of_length-le, Option-cases, Bool-cases, inl, inr, str_eq, str_eq_sound, str_eq_refl,
}
use network_file_storage.Disk.{read_file_if_exists}
use network_file_storage.Storage.{
  StorageFile, StorageEngine, find_file_locked, store_at, allocate_file,
  update_metadata_from_content,
}
use network_file_storage.Storage.Metadata.{load_metadata}
use network_file_storage.Storage.Loading.{build_paths, load_file_from_disk, get_or_load_file}

-- The file of a name in memory.
abbrev pub in_memory : StorageEngine → Bytes → Option StorageFile
in_memory e name = elim (find_file_locked name e.files) [ none ↦ none | some found ↦ some found.1 ]

abbrev pub content_of : StorageEngine → Bytes → Option Bytes
content_of e name = elim (in_memory e name) [ none ↦ none | some f ↦ some f.content ]

abbrev pub snapshot_of : StorageEngine → Bytes → Option Bytes
snapshot_of e name = elim (in_memory e name) [ none ↦ none | some f ↦ f.undo_snapshot ]

pub find-store :
    (name : Bytes) (files : List StorageFile) (i : ℕ) (f g : StorageFile)
    → find_file_locked name files ≡ some (i, f)
    → g.filename ≡ f.filename
    → find_file_locked name (store_at i g files) ≡ some (i, g)
unfolding find_file_locked store_at
find-store name [] i f g e s = absurd (cc e)
find-store name (h ∷ files) i f g e s = elim (Bool-cases (str_eq h.filename name)) [
  | inl t ↦
      let place : 0 ≡ i = ground (arith, t, e) in
      let same : h ≡ f = ground (arith, t, e) in
      let named : str_eq g.filename name ≡ true = cc (s, same, t) in
      rw⁻¹ place (ground (arith, named))
  | inr n ↦ elim (Option-cases (find_file_locked name files)) [
    | inl m ↦ absurd (ground (arith, n, m, e))
    | inr ((j, k), m) ↦
        let place : suc j ≡ i = ground (arith, n, m, e) in
        let same : k ≡ f = ground (arith, n, m, e) in
        rw⁻¹ place (ground (arith, n, find-store name files j k g m (cc (s, same))))
  ]
]

pub filename_of_find :
    (name : Bytes) (files : List StorageFile) (i : ℕ) (f : StorageFile)
    → find_file_locked name files ≡ some (i, f)
    → f.filename ≡ name
unfolding find_file_locked
filename_of_find name [] i f e = absurd (cc e)
filename_of_find name (h ∷ files) i f e = elim (Bool-cases (str_eq h.filename name)) [
  | inl t ↦ let same : h ≡ f = ground (arith, t, e) in cc (same, str_eq_sound h.filename name t)
  | inr n ↦ elim (Option-cases (find_file_locked name files)) [
    | inl m ↦ absurd (ground (arith, n, m, e))
    | inr ((j, k), m) ↦
        let same : k ≡ f = ground (arith, n, m, e) in cc (same, filename_of_find name files j k m)
  ]
]

find-append :
    (name : Bytes) (files : List StorageFile) (f : StorageFile)
    → find_file_locked name files ≡ none
    → f.filename ≡ name
    → find_file_locked name (files ++ f ∷ []) ≡ some (length files, f)
unfolding find_file_locked
find-append name [] f e s = rw (s, str_eq_refl name, find_file_locked) refl
find-append name (h ∷ files) f e s = elim (Bool-cases (str_eq h.filename name)) [
  | inl t ↦ absurd (ground (arith, t, e))
  | inr n ↦ elim (Option-cases (find_file_locked name files)) [
    | inr ((j, k), m) ↦ absurd (ground (arith, n, m, e))
    | inl m ↦ ground (arith, n, find-append name files f m s)
  ]
]

filename-load :
    (e : StorageEngine) (f g : StorageFile) (now : ℕ)
    → (load_file_from_disk e f now).0 ≡ some g
    → g.filename ≡ f.filename
unfolding load_file_from_disk load_metadata update_metadata_from_content
filename-load e f g now h = elim (Option-cases (build_paths e.root_path e.ss_id f.filename)) [
  | inl n ↦ absurd (ground (arith, n, h))
  | inr (p, s) ↦
      let content = read_file_if_exists e.disk p.file_path in
      elim (Option-cases (read_file_if_exists content.1 p.metadata_path).0) [
        | inl m ↦ sym (ground (arith, s, m, h))
        | inr (b, m) ↦ sym (ground (arith, s, m, h))
      ]
]

files-load :
    (e : StorageEngine) (f : StorageFile) (now : ℕ)
    → (load_file_from_disk e f now).1.files ≡ e.files
unfolding load_file_from_disk
files-load e f now = elim (Option-cases (build_paths e.root_path e.ss_id f.filename)) [
  | inl n ↦ ground (arith, n)
  | inr (p, s) ↦ ground (arith, s)
]

-- A file that get_or_load_file gives for a name that fits into the field is found under the name.
pub find-get_or_load :
    (e : StorageEngine) (name : Bytes) (owner : Option Bytes) (now i : ℕ) (f : StorageFile)
    → length name ≤ 255
    → (get_or_load_file e name owner now).0 ≡ some (i, f)
    → find_file_locked name (get_or_load_file e name owner now).1.files ≡ some (i, f)
unfolding get_or_load_file allocate_file
find-get_or_load e name owner now i f short h =
    elim (Option-cases (find_file_locked name e.files)) [
      | inr ((j, g), s) ↦ ground (arith, s, h)
      | inl n ↦
          let fresh = allocate_file name owner in
          let e' = (load_file_from_disk e fresh now).1 in
          elim (Option-cases (load_file_from_disk e fresh now).0) [
            | inl m ↦ absurd (ground (arith, n, m, h))
            | inr (g, m) ↦
                let named : g.filename ≡ name =
                  filename-load e fresh g now m ∙ take_of_length-le 255 name short in
                let free : find_file_locked name e'.files ≡ none =
                  ap (find_file_locked name) (files-load e fresh now) ∙ n in
                ground (arith, n, m, h, find-append name e'.files g free named)
          ]
    ]
