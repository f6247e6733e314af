-- ===== src/Disk/Atomic.antt =====
-- atomic_write replaces the whole file or leaves every file as it was.
use network_file_storage.Prelude.{
  inl, inr, Bool-cases, ◌⊎◌, sym, Bytes, str_eq, str_eq_iff, Bool, ◌&&◌, if◌then◌else◌, [], ◌∷◌,
  none, some, ◌≡◌, ◌≢◌, ap, arith, length, length-append,
}
use network_file_storage.Disk.{
  false, true, unlink, file, remove, Disk, attempt, at, put, fill_temp, rename_temp, temp_path,
  replace_file, atomic_write, ensure_parent_dir,
}
use network_file_storage.Disk.Nodes.{
  lookup-insert, lookup-remove, nodes-attempt, contents, contents-ensure_parent_dir,
}

pub temp_path-ne : (d : Disk) (path : Bytes) → temp_path d path ≢ path
temp_path-ne d path e = absurd (omega (arith, ap length e, length-append path (b'.' ∷ d.suffix)))

at-unlink : (d : Disk) (path q : Bytes) → str_eq path q ≡ false → at (unlink d path) q ≡ at d q
unfolding unlink
at-unlink d path q other =
    ground (arith, other, nodes-attempt d, lookup-remove path q (attempt d).1.nodes)

module _ (d : Disk) (path content q : Bytes) where
  abbrev tmp : Bytes
  tmp = temp_path d path

  abbrev opened : Disk
  opened = put (attempt d).1 tmp (file [])

  abbrev filled : Bool × Disk
  filled = fill_temp opened tmp content

  -- No file but the temporary one changes.
  at-fill_temp : str_eq tmp q ≡ false → at filled.1 q ≡ at d q
  unfolding fill_temp
  at-fill_temp other =
      let a1 = attempt opened in
      let a2 = attempt a1.1 in
      ground (
        arith,
        other,
        nodes-attempt d,
        nodes-attempt opened,
        nodes-attempt a1.1,
        lookup-insert tmp q (file []) (attempt d).1.nodes,
        lookup-insert tmp q (file content) a2.1.nodes,
        at-unlink a1.1 tmp q other,
        at-unlink a2.1 tmp q other,
      )

  at-rename_temp :
      (d' : Disk)
      → str_eq tmp q ≡ false
      → at (rename_temp d' tmp path content).1 q ≡ (
          if (rename_temp d' tmp path content).0 && str_eq path q
          then some (file content)
          else at d' q)
  unfolding rename_temp
  at-rename_temp d' other = ground (
    arith,
    other,
    nodes-attempt d',
    lookup-remove tmp q (attempt d').1.nodes,
    at-unlink (attempt d').1 tmp q other,
    lookup-insert path q (file content) (remove tmp (attempt d').1.nodes),
  )

  at-replace_file :
      str_eq tmp q ≡ false
      → at (replace_file d path content).1 q
        ≡ (if (replace_file d path content).0 && str_eq path q then some (file content) else at d q)
  unfolding replace_file
  at-replace_file other =
      ground (arith, other, nodes-attempt d, at-fill_temp other, at-rename_temp filled.1 other)

rename_temp-gone :
    (d d' : Disk) (path content : Bytes)
    → (rename_temp d' (temp_path d path) path content).0 ≡ true
    → at (rename_temp d' (temp_path d path) path content).1 (temp_path d path) ≡ none
unfolding rename_temp
rename_temp-gone d d' path content h =
    let tmp = temp_path d path in
    ground (
      arith,
      h,
      temp_path-ne d path,
      str_eq_iff path tmp,
      str_eq_iff tmp tmp,
      lookup-remove tmp tmp (attempt d').1.nodes,
      lookup-insert path tmp (file content) (remove tmp (attempt d').1.nodes),
    )

replace_file-gone :
    (d : Disk) (path content : Bytes)
    → (replace_file d path content).0 ≡ true
    → at (replace_file d path content).1 (temp_path d path) ≡ none
unfolding replace_file
replace_file-gone d path content h =
    let full = filled d path content path in
    ground (arith, h, rename_temp-gone d full.1 path content)

-- The name that mkstemp makes of the path.
abbrev pub temp_of : Disk → Bytes → Bytes
temp_of d path = temp_path (ensure_parent_dir d path).1 path

-- atomic_write either succeeds and its path then holds exactly the new bytes, or fails and the path
-- holds what it held; every other path but that of the temporary file holds what it held. The temporary
-- file is gone when it succeeds.
pub atomic_write-contents :
    (d : Disk) (path content q : Bytes)
    → q ≢ temp_of d path
    → (contents (atomic_write d path content).1 q
        ≡ (if (atomic_write d path content).0 && str_eq path q then some content else contents d q))
      × (((atomic_write d path content).0 ≡ false)
          ⊎ (at (atomic_write d path content).1 (temp_of d path) ≡ none))
unfolding atomic_write
atomic_write-contents d path content q other =
    let d' = (ensure_parent_dir d path).1 in
    let apart : temp_of d path ≢ q = λ e. other (sym e) in
    let differs : str_eq (temp_of d path) q ≡ false =
      ground (arith, str_eq_iff (temp_of d path) q, apart) in
    (
      ground
          (arith, at-replace_file d' path content q differs, contents-ensure_parent_dir d path q),
      elim (Bool-cases (atomic_write d path content).0) [
        | inr failed ↦ inl failed
        | inl done ↦ inr (ground (arith, done, replace_file-gone d' path content))
      ],
    )
