-- ===== src/Storage.antt =====
-- The storage engine of storage_server/src/storage_engine.c: its files in memory and what each has
-- on the disk. Memory does not run out. The functions that lock a file run one at a time, since each
-- holds the file's mutex from its first look at the file to its end.
pub mod Metadata
pub mod Loading
pub mod Writing
pub mod Handlers
pub mod Checkpoints
pub mod Validity
pub mod Editing
mod Tests
use network_file_storage.Prelude.{
  ℕ, zero, suc, ◌+◌, ◌*◌, ◌%◌, ◌^◌, ◌-◌, Bytes, Bool, true, false, if◌then◌else◌, List, [], ◌∷◌,
  ◌++◌, Option, none, some, ◌==◌, leb, ltb, length, take, codes, str_eq, padded,
}
use network_file_storage.Text.{count_words, compute_spans}
use network_file_storage.Disk.{Disk}

-- STORAGE_OK and the errors. The last two are no values of the source: they stand for an access outside
-- of an array and for one to memory that was given back, after which the program may do anything.
pub data StorageResult : Type 0 where
  storage_ok err_not_found err_invalid err_locked err_io err_exists out_of_bounds use_after_free :
      StorageResult

-- sentence_lock_t. `held` is the state of the mutex. `copied` notes that realloc has moved the lock to
-- this place while it was held: its owner gives back the lock at the old place.
pub record SentenceLock : Type 0 where
  pub held : Bool
  pub locked : Bool
  pub copied : Bool

-- storage_file_t. A time is the 64 bits of a time_t.
pub record StorageFile : Type 0 where
  pub filename : Bytes
  pub owner : Bytes
  pub content : Bytes
  pub undo_snapshot : Option Bytes
  pub undo_token : Bytes
  pub created_at : ℕ
  pub modified_at : ℕ
  pub last_accessed : ℕ
  pub last_accessed_by : Bytes
  pub word_count : ℕ
  pub char_count : ℕ
  pub sentence_count : ℕ
  pub locks : List SentenceLock

-- struct storage_engine, with the disk it works on. The array of files is as long as it is filled.
-- `moves` is what realloc does: whether it moves the array of locks, should the write grow it that
-- begins at this value of undo_seq.
pub record StorageEngine : Type 0 where
  pub root_path : Bytes
  pub ss_id : Bytes
  pub files : List StorageFile
  pub undo_seq : ℕ
  pub disk : Disk
  pub moves : ℕ → Bool

abbrev pub free_lock : SentenceLock
free_lock = record { held = false; locked = false; copied = false }

-- The loop that doubles the capacity. The first argument bounds its rounds.
unfoldable pub doubled : ℕ → ℕ → ℕ → ℕ
doubled zero capacity desired = capacity
doubled (suc fuel) capacity desired =
    let more = doubled fuel (capacity * 2) desired in
    if ltb capacity desired then more else capacity

unfoldable pub free_locks : ℕ → List SentenceLock
free_locks zero = []
free_locks (suc n) = free_lock ∷ free_locks n

-- ensure_sentence_capacity
unfoldable pub ensure_sentence_capacity : List SentenceLock → ℕ → List SentenceLock
unfolding doubled free_locks
ensure_sentence_capacity locks desired =
    let capacity = length locks in
    let grown = doubled desired (if capacity == 0 then 4 else capacity) desired in
    if leb desired capacity then locks else locks ++ free_locks (grown - capacity)

-- update_metadata_from_content
unfoldable pub update_metadata_from_content : StorageFile → StorageFile
unfolding ensure_sentence_capacity
update_metadata_from_content f =
    let count = length (compute_spans f.content) in
    record f {
      char_count = length f.content;
      word_count = count_words f.content;
      sentence_count = count;
      locks = ensure_sentence_capacity f.locks count;
    }

-- allocate_file
unfoldable pub allocate_file : Bytes → Option Bytes → StorageFile
allocate_file filename owner = record {
  filename = take 255 filename;
  owner = elim owner [ some name ↦ take 127 name | none ↦ codes "unknown" ];
  content = [];
  undo_snapshot = none;
  undo_token = [];
  created_at = 0;
  modified_at = 0;
  last_accessed = 0;
  last_accessed_by = [];
  word_count = 0;
  char_count = 0;
  sentence_count = 0;
  locks = [];
}

-- generate_undo_token, with the number that is counted up.
unfoldable pub generate_undo_token : ℕ → ℕ × Bytes
generate_undo_token undo_seq =
    let next = (undo_seq + 1) % 2 ^ 64 in (next, take 63 (codes "undo-" ++ padded 6 next))

-- find_file_locked: the place of the file in the array, and the file.
unfoldable pub find_file_locked : Bytes → List StorageFile → Option (ℕ × StorageFile)
find_file_locked filename [] = none
find_file_locked filename (f ∷ files) =
    let rest = find_file_locked filename files in
    if str_eq f.filename filename
    then some (0, f)
    else elim rest [ none ↦ none | some found ↦ some (found.0 + 1, found.1) ]

-- What is behind the pointer to the file at a place is replaced.
unfoldable pub store_at : ℕ → StorageFile → List StorageFile → List StorageFile
store_at i f [] = []
store_at zero f (g ∷ files) = f ∷ files
store_at (suc i) f (g ∷ files) = g ∷ store_at i f files
