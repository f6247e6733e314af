-- ===== src/NameServer/Files.antt =====
-- The files that the name server writes itself: ensure_parent_dirs, append_registry_entry and
-- persist_acl_file. fopen takes an answer of the disk where it makes a file; what is written to a file
-- that is open arrives.
use network_file_storage.Prelude.{
  Bytes, codes, Bool, true, false, if◌then◌else◌, List, [], ◌∷◌, ◌++◌, none, some, ◌==◌, take,
}
use network_file_storage.Disk.{
  Disk, dir, file, at, put, attempt, has_parent, mkdir, path_max, parent,
}
use network_file_storage.Persistence.{ns_registry_path, ns_acl_path}
use network_file_storage.FileIndex.{AclEntry, FileRecord}
use network_file_storage.NameServer.{NmState}

-- fopen(path, "w"), fprintf and fclose: whether the file was opened.
unfoldable pub write_file : Disk → Bytes → Bytes → Bool × Disk
unfolding attempt
write_file d path text = elim (at d path) [
  | some (file old) ↦
      let (opened, d') = attempt d in
      if opened then (true, put d' path (file text)) else (false, d')
  | some dir ↦ (false, d)
  | none ↦
      if has_parent d path
      then (let (opened, d') = attempt d in
          if opened then (true, put d' path (file text)) else (false, d'))
      else (false, d)
]

-- fopen(path, "a"), fprintf and fclose.
unfoldable pub append_file : Disk → Bytes → Bytes → Bool × Disk
unfolding write_file
append_file d path text = elim (at d path) [
  | some (file old) ↦ write_file d path (old ++ text)
  | _ ↦ write_file d path text
]

-- for (char *p = temp + 1; *p; ++p): a directory for each part that ends before a slash. `above` is
-- what stands before p.
unfoldable pub make_parts : Disk → Bytes → Bytes → Disk
unfolding mkdir
make_parts d above [] = d
make_parts d above (c ∷ s) =
    make_parts (if c == b'/' then (mkdir d above).1 else d) (above ++ c ∷ []) s

-- ensure_parent_dirs. Its result is always 0.
unfoldable pub ensure_parent_dirs : Disk → Bytes → Disk
unfolding make_parts mkdir parent
ensure_parent_dirs d path = elim (parent (take 4095 path)) [
  | none ↦ d
  | some p ↦ elim p [ [] ↦ d | c ∷ s ↦ (mkdir (make_parts d (c ∷ []) s) (c ∷ s)).1 ]
]

-- append_registry_entry
unfoldable pub append_registry_entry : NmState → Bytes → NmState
unfolding append_file ns_registry_path
append_registry_entry state entry = elim (ns_registry_path path_max (some state.data_dir)) [
  | none ↦ state
  | some path ↦ record state { disk = (append_file state.disk path (entry ++ codes "\n")).1 }
]

-- A line of the access file: the user and its letters. An entry without a right has none.
abbrev pub acl_line : Bytes → Bytes → Bytes
acl_line username letters = username ++ (codes ":" ++ (letters ++ codes "\n"))

abbrev pub acl_entry_line : AclEntry → Bytes
acl_entry_line e =
    if e.can_read == 0
    then if e.can_write == 0 then [] else acl_line e.username (codes "W")
    else acl_line e.username (if e.can_write == 0 then codes "R" else codes "RW")

unfoldable pub acl_lines : List AclEntry → Bytes
acl_lines [] = []
acl_lines (e ∷ acl) = acl_entry_line e ++ acl_lines acl

-- persist_acl_file. No caller looks at its result.
unfoldable pub persist_acl_file : NmState → FileRecord → NmState
unfolding write_file ns_acl_path acl_lines ensure_parent_dirs
persist_acl_file state r = elim (ns_acl_path path_max (some state.data_dir) (some r.filename)) [
  | none ↦ state
  | some path ↦
      let d = ensure_parent_dirs state.disk path in
      record state {
        disk = (write_file d path (acl_line r.owner (codes "RW") ++ acl_lines r.acl)).1;
      }
]
