-- ===== src/FileIndex/Acl.antt =====
-- The access list of a file record: file_record_add_acl, file_record_remove_acl,
-- file_record_find_acl and file_record_check_access of name_server/src/file_index.c.
pub mod Entries
pub mod Laws
use network_file_storage.Prelude.{
  ℕ, ◌+◌, ◌*◌, Bytes, str_eq, Bool, true, false, ◌||◌, if◌then◌else◌, List, [], ◌∷◌, ◌++◌, Option,
  none, some, ◌==◌, Memory, alloc, length, leb, ltb, take,
}
use network_file_storage.FileIndex.{AclEntry, FileRecord, Status, ok, error, enomem, enoent}

-- The loop of file_record_find_acl.
unfoldable pub find_entry : List AclEntry → Bytes → Option AclEntry
find_entry [] username = none
find_entry (e ∷ acl) username =
    if str_eq e.username username then some e else find_entry acl username

-- The loop of file_record_add_acl: the first entry of the user gets the flags.
unfoldable pub set_entry : List AclEntry → Bytes → ℕ → ℕ → Option (List AclEntry)
set_entry [] username r w = none
set_entry (e ∷ acl) username r w =
    if str_eq e.username username
    then some (record e { can_read = r; can_write = w } ∷ acl)
    else elim (set_entry acl username r w) [ none ↦ none | some acl' ↦ some (e ∷ acl') ]

-- The name that strncpy(entry, username, 127) leaves in an entry that nobody has cleared: a name of
-- 127 bytes or more has no terminator, and a reader goes on with what memory holds from byte 127.
unfoldable pub copied_name : Bytes → Bytes → Bytes
copied_name username beyond =
    if ltb (length username) 127 then username else take 127 username ++ beyond

-- realloc of the entries where they are full: the new capacity, or none where it fails.
unfoldable pub grow_acl : FileRecord → Memory → Option ℕ × Memory
grow_acl r m =
    if leb r.acl_capacity (length r.acl)
    then (let (made, m') = alloc m in
        if made
        then (some (if r.acl_capacity == 0 then 4 else r.acl_capacity * 2), m')
        else (none, m'))
    else (some r.acl_capacity, m)

-- file_record_add_acl. `beyond` is what memory holds behind the new entry's name.
unfoldable pub file_record_add_acl :
    FileRecord → Bytes → ℕ → ℕ → Bytes → Memory → FileRecord × Status × Memory
unfolding set_entry grow_acl copied_name
file_record_add_acl r username can_read can_write beyond m =
    elim (set_entry r.acl username can_read can_write) [
      | some acl ↦ (record r { acl = acl }, ok, m)
      | none ↦
          let (capacity, m') = grow_acl r m in
          elim capacity [
            | none ↦ (r, error enomem, m')
            | some n ↦ (
              record r {
                acl =
                    r.acl
                    ++ record {
                      username = copied_name username beyond;
                      can_read = can_read;
                      can_write = can_write;
                    }
                      ∷ [];
                acl_capacity = n;
              },
              ok,
              m',
            )
          ]
    ]

-- The loop of file_record_remove_acl: the first entry of the user goes, and the rest moves down.
unfoldable pub remove_entry : List AclEntry → Bytes → Option (List AclEntry)
remove_entry [] username = none
remove_entry (e ∷ acl) username =
    if str_eq e.username username
    then some acl
    else elim (remove_entry acl username) [ none ↦ none | some acl' ↦ some (e ∷ acl') ]

-- file_record_remove_acl
unfoldable pub file_record_remove_acl : FileRecord → Bytes → FileRecord × Status
unfolding remove_entry
file_record_remove_acl r username = elim (remove_entry r.acl username) [
  | none ↦ (r, error enoent)
  | some acl ↦ (record r { acl = acl }, ok)
]

-- file_record_find_acl
unfoldable pub file_record_find_acl : FileRecord → Bytes → Option AclEntry
unfolding find_entry
file_record_find_acl r username = find_entry r.acl username

-- entry->can_read || entry->can_write
unfoldable pub or_flags : ℕ → ℕ → ℕ
or_flags r w = if r == 0 then (if w == 0 then 0 else 1) else 1

-- file_record_check_access
unfoldable pub file_record_check_access : FileRecord → Bytes → ℕ → ℕ
unfolding file_record_find_acl or_flags
file_record_check_access r username need_write =
    if str_eq r.owner username then 1 else elim (file_record_find_acl r username) [
      | none ↦ 0
      | some e ↦ if need_write == 0 then or_flags e.can_read e.can_write else e.can_write
    ]
