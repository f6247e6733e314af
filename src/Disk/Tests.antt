-- ===== src/Disk/Tests.antt =====
-- The disk at work.
use network_file_storage.Prelude.{
  ◌⊎◌, sym, ◌≢◌, codes, str_eq, true, false, ◌&&◌, if◌then◌else◌, none, some, ◌≡◌, refl, [], ◌∷◌,
}
use network_file_storage.Disk.{
  unlink, Disk, dir, file, at, attempt, atomic_write, ensure_parent_dir, ensure_dir,
  ensure_dir_fuel, mkdir, parent, lookup, insert, remove, replace_file, fill_temp, rename_temp,
}
use network_file_storage.Disk.Nodes.{contents}
use network_file_storage.Disk.Atomic.{atomic_write-contents, temp_of, temp_path-ne}

abbrev disk : Disk
disk = record {
  nodes = (codes "a", dir) ∷ (codes "a/old", file (codes "was")) ∷ [];
  answers = true ∷ true ∷ false ∷ [];
  suffix = codes "k3";
}

-- The directories above a path are made.
made_run : (ensure_dir disk (codes "a/b/c")).0 ≡ true
unfolding ensure_dir ensure_dir_fuel mkdir attempt parent lookup insert str_eq
made_run = refl

-- The third call, of write, fails.
failing_run :
    contents (atomic_write disk (codes "a/old") (codes "new")).1 (codes "a/old")
    ≡ some (codes "was")
unfolding atomic_write ensure_parent_dir ensure_dir ensure_dir_fuel mkdir attempt parent lookup
    insert remove replace_file fill_temp rename_temp unlink str_eq
failing_run = refl

old_apart : codes "a/old" ≢ temp_of disk (codes "a/old")
old_apart e = temp_path-ne (ensure_parent_dir disk (codes "a/old")).1 (codes "a/old") (sym e)

atomic_write-contents_example :
    (contents (atomic_write disk (codes "a/old") (codes "new")).1 (codes "a/old") ≡ (
      if (atomic_write disk (codes "a/old") (codes "new")).0
        && str_eq (codes "a/old") (codes "a/old")
      then some (codes "new")
      else contents disk (codes "a/old")))
    × (((atomic_write disk (codes "a/old") (codes "new")).0 ≡ false)
        ⊎ (at (atomic_write disk (codes "a/old") (codes "new")).1 (temp_of disk (codes "a/old"))
            ≡ none))
atomic_write-contents_example =
    atomic_write-contents disk (codes "a/old") (codes "new") (codes "a/old") old_apart
