-- ===== src/FileIndex.antt =====
-- The file index of the name server (name_server/include/file_index.h and
-- name_server/src/file_index.c): a trie over the bytes of file names whose nodes point to file
-- records. Records are shared, so they lie on a heap, and the trie and the cache hold pointers.
-- The access lists of a record are in `Acl`, the cache is in `Cache`.
pub mod Acl
pub mod Paths
pub mod Records
pub mod Removal
pub mod Listing
pub mod History
pub mod Cache
mod Tests
use network_file_storage.Prelude.{
  ℕ, zero, suc, ◌+◌, ◌-◌, ◌*◌, Bytes, take, length, ltb, leb, str_eq, Bool, true, false,
  if◌then◌else◌, List, [], ◌∷◌, ◌++◌, Option, none, some, ◌==◌, Memory, alloc,
}

-- errno after a call that failed.
pub data Errno : Type 0 where
  einval enoent enospc enomem : Errno

-- The return values 0 and -1.
pub data Status : Type 0 where
  ok : Status
  error : Errno → Status

abbrev pub max_ss_per_file : ℕ
max_ss_per_file = 8

-- acl_entry_t. The two flags are C truth values.
pub record AclEntry : Type 0 where
  pub username : Bytes
  pub can_read : ℕ
  pub can_write : ℕ

-- file_record_t. `ss_ids` holds the first `ss_count` slots of the array, and `acl` the first
-- `acl_count` entries.
pub record FileRecord : Type 0 where
  pub filename : Bytes
  pub owner : Bytes
  pub ss_ids : List Bytes
  pub acl : List AclEntry
  pub acl_capacity : ℕ
  pub created_at : ℕ
  pub modified_at : ℕ
  pub word_count : ℕ
  pub char_count : ℕ
  pub sentence_count : ℕ

-- struct trie_node, or a null pointer to one. The children are indexed by a byte.
pub data Trie : Type 0 where
  null : Trie
  node : Option ℕ → (ℕ → Trie) → Trie

-- file_index_t, with the heap of its records and the next free address.
pub record FileIndex : Type 0 where
  pub root : Trie
  pub file_count : ℕ
  pub heap : ℕ → Option FileRecord
  pub next : ℕ

abbrev pub update {ℓ} : {A : Type ℓ} → (ℕ → A) → ℕ → A → ℕ → A
update f k v j = if k == j then v else f j

-- trie_node_create
abbrev pub trie_node_create : Trie
trie_node_create = node none (λ _. null)

-- file_index_init
unfoldable pub file_index_init : Memory → Option FileIndex × Memory
file_index_init m =
    let (made, m') = alloc m in
    let (rooted, m'') = alloc m' in
    if made
    then (if rooted
        then (
          some (record { root = trie_node_create; file_count = 0; heap = λ _. none; next = 0 }),
          m'',
        )
        else (none, m''))
    else (none, m')

-- The walk of file_index_add: missing children are created on the way. The flag says whether the
-- end was reached.
unfoldable pub create_path : Trie → Bytes → Memory → Trie × Bool × Memory
create_path null s m = (null, false, m)
create_path (node r children) [] m = (node r children, true, m)
create_path (node r children) (c ∷ s) m = elim (children c) [
  | null ↦
      let (made, m') = alloc m in
      let (child, reached, m'') = create_path trie_node_create s m' in
      if made
      then (node r (update children c child), reached, m'')
      else (node r children, false, m')
  | node r' children' ↦
      let (child, reached, m') = create_path (node r' children') s m in
      (node r (update children c child), reached, m')
]

-- The record pointer at the end of the walk; a null child on the way ends it with none.
unfoldable pub find_record : Trie → Bytes → Option ℕ
find_record null s = none
find_record (node r children) [] = r
find_record (node r children) (c ∷ s) = find_record (children c) s

-- node->record = r, at the end of the walk.
unfoldable pub set_record : Trie → Bytes → Option ℕ → Trie
set_record null s r = null
set_record (node _ children) [] r = node r children
set_record (node r' children) (c ∷ s) r = node r' (update children c (set_record (children c) s r))

-- calloc(1, sizeof(file_record_t)) and the fields that file_index_add fills in.
abbrev pub new_record : Bytes → Bytes → ℕ → FileRecord
new_record filename owner now = record {
  filename = take 255 filename;
  owner = take 127 owner;
  ss_ids = [];
  acl = [];
  acl_capacity = 0;
  created_at = now;
  modified_at = now;
  word_count = 0;
  char_count = 0;
  sentence_count = 0;
}

-- The loop that looks for a storage server among those of a record.
unfoldable pub has_ss : List Bytes → Bytes → Bool
has_ss [] ss_id = false
has_ss (id ∷ ids) ss_id = if str_eq id ss_id then true else has_ss ids ss_id

-- The last part of file_index_add: the storage server, if there is a slot and it is new.
unfoldable pub add_ss : FileRecord → Bytes → FileRecord
unfolding has_ss
add_ss r ss_id =
    if ltb (length r.ss_ids) max_ss_per_file
    then (if has_ss r.ss_ids ss_id
        then r
        else record r { ss_ids = r.ss_ids ++ take 127 ss_id ∷ [] })
    else r

-- The record behind a pointer is replaced by what `f` makes of it.
abbrev pub modify : (ℕ → Option FileRecord) → ℕ → (FileRecord → FileRecord) → ℕ → Option FileRecord
modify heap p f = elim (heap p) [ none ↦ heap | some r ↦ update heap p (some (f r)) ]

-- file_index_add once the walk has reached its node. `now` is what time(NULL) returns.
unfoldable pub add_at :
    FileIndex → Option ℕ → Bytes → Bytes → Bytes → ℕ → Memory → FileIndex × Status × Memory
unfolding add_ss
add_at index (some p) filename owner ss_id now m =
    (record index { heap = modify index.heap p (λ r. add_ss r ss_id) }, ok, m)
add_at index none filename owner ss_id now m =
    let (made, m') = alloc m in
    if made
    then (
      record index {
        root = set_record index.root filename (some index.next);
        file_count = index.file_count + 1;
        heap = update index.heap index.next (some (add_ss (new_record filename owner now) ss_id));
        next = index.next + 1;
      },
      ok,
      m',
    )
    else (index, error enomem, m')

-- file_index_add
unfoldable pub file_index_add :
    FileIndex → Bytes → Bytes → Bytes → ℕ → Memory → FileIndex × Status × Memory
file_index_add index filename owner ss_id now m =
    let (root, reached, m') = create_path index.root filename m in
    if reached
    then add_at (record index { root = root }) (find_record root filename) filename owner ss_id now
        m'
    else (record index { root = root }, error enomem, m')

-- file_index_lookup: the pointer, and the record behind it.
unfoldable pub file_index_lookup : FileIndex → Bytes → Option ℕ
unfolding find_record
file_index_lookup index filename = find_record index.root filename

abbrev pub record_at : FileIndex → Option ℕ → Option FileRecord
record_at index none = none
record_at index (some p) = index.heap p

-- file_index_remove
unfoldable pub file_index_remove : FileIndex → Bytes → FileIndex × Status
file_index_remove index filename = elim (find_record index.root filename) [
  | none ↦ (index, error enoent)
  | some p ↦ (
    record index {
      root = set_record index.root filename none;
      file_count = index.file_count - 1;
      heap = update index.heap p none;
    },
    ok,
  )
]

-- file_index_add_ss_replica
unfoldable pub add_replica : FileRecord → Bytes → FileRecord × Status
unfolding has_ss
add_replica r ss_id =
    if leb max_ss_per_file (length r.ss_ids)
    then (r, error enospc)
    else if has_ss r.ss_ids ss_id
    then (r, ok)
    else (record r { ss_ids = r.ss_ids ++ take 127 ss_id ∷ [] }, ok)

unfoldable pub file_index_add_ss_replica : FileIndex → Bytes → Bytes → FileIndex × Status
unfolding file_index_lookup add_replica
file_index_add_ss_replica index filename ss_id = elim (file_index_lookup index filename) [
  | none ↦ (index, error enoent)
  | some p ↦ elim (index.heap p) [
    | none ↦ (index, error enoent)
    | some r ↦
        let (r', status) = add_replica r ss_id in
        (record index { heap = update index.heap p (some r') }, status)
  ]
]

-- The array that collect_files_recursive fills: its records and its capacity.
pub record Collected : Type 0 where
  pub records : List ℕ
  pub capacity : ℕ
  pub memory : Memory

-- for (i = first; i < first + rounds; i++) s = body i s
unfoldable pub for_range {ℓ} : {S : Type ℓ} → ℕ → ℕ → (ℕ → S → S) → S → S
for_range zero first body s = s
for_range (suc rounds) first body s = for_range rounds (first + 1) body (body first s)

-- Whether there is room for one more record, after realloc where the array is full.
unfoldable pub grow : Collected → Bool × Collected
grow s =
    if leb s.capacity (length s.records)
    then (let (made, m) = alloc s.memory in
        if made
        then (
          true,
          record s { capacity = if s.capacity == 0 then 16 else s.capacity * 2; memory = m },
        )
        else (false, record s { memory = m }))
    else (true, s)

-- collect_files_recursive. Out of memory, it returns without the record and without its subtree.
unfoldable pub collect_files : Trie → Collected → Collected
collect_files null s = s
collect_files (node none children) s = for_range 256 0 (λ i. collect_files (children i)) s
collect_files (node (some p) children) s =
    let (room, s') = grow s in
    let below =
      for_range 256 0 (λ i. collect_files (children i))
        (record s' { records = s'.records ++ p ∷ [] }) in
    if room then below else s'

-- file_index_get_all
unfoldable pub file_index_get_all : FileIndex → Memory → List ℕ
unfolding collect_files
file_index_get_all index m =
    (collect_files index.root (record { records = []; capacity = 0; memory = m })).records
