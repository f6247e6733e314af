-- ===== src/Disk.antt =====
-- The file system calls of storage_server/src/storage_engine.c, and its functions over them:
-- ensure_dir, ensure_parent_dir, atomic_write and read_file_if_exists. The disk is a list of paths
-- with a directory or the bytes of a file at each. A call that can fail for a reason outside the
-- program takes the next of a list of answers, and succeeds when they are used up.
pub mod Nodes
pub mod Atomic
pub mod Directories
mod Tests
use network_file_storage.Prelude.{
  ℕ, zero, suc, ◌+◌, ◌-◌, Bytes, str_eq, Bool, true, false, ◌&&◌, ltb, if◌then◌else◌, List, [], ◌∷◌,
  ◌++◌, Option, none, some, ◌==◌, take, drop, length, codes,
}

pub data Node : Type 0 where
  dir : Node
  file : Bytes → Node

abbrev pub Nodes : Type 0
Nodes = List (Bytes × Node)

unfoldable pub lookup : Bytes → Nodes → Option Node
lookup path [] = none
lookup path ((p, n) ∷ nodes) = if str_eq p path then some n else lookup path nodes

unfoldable pub insert : Bytes → Node → Nodes → Nodes
insert path node [] = (path, node) ∷ []
insert path node ((p, n) ∷ nodes) =
    if str_eq p path then (p, node) ∷ nodes else (p, n) ∷ insert path node nodes

unfoldable pub remove : Bytes → Nodes → Nodes
remove path [] = []
remove path ((p, n) ∷ nodes) =
    let rest = remove path nodes in if str_eq p path then rest else (p, n) ∷ rest

-- The file system and the answers of its calls. `suffix` is what mkstemp puts in place of XXXXXX.
pub record Disk : Type 0 where
  pub nodes : Nodes
  pub answers : List Bool
  pub suffix : Bytes

-- The next answer.
unfoldable pub attempt : Disk → Bool × Disk
attempt d = elim d.answers [ [] ↦ (true, d) | b ∷ rest ↦ (b, record d { answers = rest }) ]

abbrev pub at : Disk → Bytes → Option Node
at d path = lookup path d.nodes

abbrev pub put : Disk → Bytes → Node → Disk
put d path node = record d { nodes = insert path node d.nodes }

abbrev pub without : Disk → Bytes → Disk
without d path = record d { nodes = remove path d.nodes }

-- unlink. The program does not look at its result.
unfoldable pub unlink : Disk → Bytes → Disk
unfolding remove attempt
unlink d path = let (ok, d') = attempt d in if ok then without d' path else d'

-- The part before the last slash, as strrchr finds it; none if there is no slash.
unfoldable pub parent : Bytes → Option Bytes
parent [] = none
parent (c ∷ s) = elim (parent s) [
  | some p ↦ some (c ∷ p)
  | none ↦ if c == b'/' then some [] else none
]

-- mkdir, with the value of errno where it fails.
pub data MkdirResult : Type 0 where
  made eexist enoent other : MkdirResult

abbrev is_dir : Option Node → Bool
is_dir (some dir) = true
is_dir _ = false

-- The directory that a path lies in is there: the working directory and the root always are.
abbrev pub has_parent : Disk → Bytes → Bool
has_parent d path = elim (parent path) [
  | none ↦ true
  | some p ↦ elim p [ [] ↦ true | c ∷ s ↦ is_dir (at d (c ∷ s)) ]
]

unfoldable pub mkdir : Disk → Bytes → MkdirResult × Disk
unfolding insert attempt parent lookup
mkdir d path = elim (at d path) [
  | some n ↦ (eexist, d)
  | none ↦
      if has_parent d path
      then (let (ok, d') = attempt d in if ok then (made, put d' path dir) else (other, d'))
      else (enoent, d)
]

-- ensure_dir. Each call of itself is on a shorter path, which the first argument bounds.
unfoldable pub ensure_dir_fuel : ℕ → Disk → Bytes → Bool × Disk
ensure_dir_fuel zero d path = (false, d)
ensure_dir_fuel (suc fuel) d path =
    let (result, d') = mkdir d path in
    elim result [
      | made ↦ (true, d')
      | eexist ↦ (true, d')
      | other ↦ (false, d')
      | enoent ↦ elim (parent (take 4095 path)) [
        | none ↦ (false, d')
        | some p ↦ elim p [
          | [] ↦ (false, d')
          | c ∷ s ↦
              let (above, d'') = ensure_dir_fuel fuel d' (c ∷ s) in
              let (again, d3) = mkdir d'' path in
              if above
              then elim again [ made ↦ (true, d3) | eexist ↦ (true, d3) | _ ↦ (false, d3) ]
              else (false, d'')
        ]
      ]
    ]

unfoldable pub ensure_dir : Disk → Bytes → Bool × Disk
unfolding ensure_dir_fuel
ensure_dir d path = ensure_dir_fuel (length path + 1) d path

-- ensure_parent_dir
unfoldable pub ensure_parent_dir : Disk → Bytes → Bool × Disk
ensure_parent_dir d path = elim (parent (take 4095 path)) [
  | none ↦ (true, d)
  | some p ↦ elim p [ [] ↦ (true, d) | c ∷ s ↦ ensure_dir d (c ∷ s) ]
]

-- write(fd, data, len) and fsync(fd) on the file at `tmp`, which is unlinked if one of them fails.
unfoldable pub fill_temp : Disk → Bytes → Bytes → Bool × Disk
fill_temp d tmp content =
    let (written, d1) = attempt d in
    let (synced, d2) = attempt d1 in
    if written
    then (if synced then (true, put d2 tmp (file content)) else (false, unlink d2 tmp))
    else (false, unlink d1 tmp)

-- rename(tmp, path): the file at `path` is replaced. `tmp` is unlinked where it fails.
unfoldable pub rename_temp : Disk → Bytes → Bytes → Bytes → Bool × Disk
rename_temp d tmp path content =
    let (renamed, d') = attempt d in
    if renamed then (true, put (without d' tmp) path (file content)) else (false, unlink d' tmp)

abbrev pub path_max : ℕ
path_max = 4096

-- The name that mkstemp makes of "<path>.XXXXXX".
abbrev pub temp_path : Disk → Bytes → Bytes
temp_path d path = path ++ b'.' ∷ d.suffix

-- atomic_write once the directory is there. mkstemp refuses a template that snprintf had to cut.
unfoldable pub replace_file : Disk → Bytes → Bytes → Bool × Disk
unfolding fill_temp rename_temp
replace_file d path content =
    let tmp = temp_path d path in
    let (opened, d1) = attempt d in
    let (filled, d2) = fill_temp (put d1 tmp (file [])) tmp content in
    if ltb (length path + 7) path_max && opened
    then (if filled then rename_temp d2 tmp path content else (false, d2))
    else (false, d1)

-- atomic_write
unfoldable pub atomic_write : Disk → Bytes → Bytes → Bool × Disk
unfolding ensure_parent_dir replace_file
atomic_write d path content =
    let (there, d') = ensure_parent_dir d path in
    if there then replace_file d' path content else (false, d')

-- read_file_if_exists; none is a null pointer.
unfoldable pub read_file_if_exists : Disk → Bytes → Option Bytes × Disk
unfolding attempt lookup
read_file_if_exists d path = elim (at d path) [
  | none ↦ (none, d)
  | some n ↦ elim n [
    | dir ↦ (none, d)
    | file content ↦ let (ok, d') = attempt d in if ok then (some content, d') else (none, d')
  ]
]
