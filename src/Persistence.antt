-- ===== src/Persistence.antt =====
-- The paths of the data directories, common/src/persistence.c. A pointer that a function compares with
-- NULL is an Option; the buffer that a path is written to is given by its size, and what the function
-- leaves in it is its result, with none for the return value -1.
pub mod Places
mod Tests
use network_file_storage.Prelude.{
  ℕ, ◌+◌, Bytes, codes, Option, none, some, ◌>>=◌, ltb, if◌then◌else◌, length, ◌++◌, ◌==◌, padded,
}

-- write_path. `text` is what the format makes of its arguments; vsnprintf does not fail on it.
abbrev pub write_path : ℕ → Bytes → Option Bytes
write_path len text = if ltb (length text) len then some text else none

unfoldable pub ns_registry_path : ℕ → Option Bytes → Option Bytes
ns_registry_path len base_dir =
    base_dir >>= λ base. write_path len (base ++ codes "/registry.jsonl")

unfoldable pub ns_files_index_path : ℕ → Option Bytes → Option Bytes
ns_files_index_path len base_dir =
    base_dir >>= λ base. write_path len (base ++ codes "/files_index.json")

unfoldable pub ns_acl_path : ℕ → Option Bytes → Option Bytes → Option Bytes
ns_acl_path len base_dir filename = base_dir >>= λ base.
    filename >>= λ name. write_path len (base ++ (codes "/acl/" ++ (name ++ codes ".acl.json")))

unfoldable pub ns_cache_path : ℕ → Option Bytes → Option Bytes
ns_cache_path len base_dir =
    base_dir >>= λ base. write_path len (base ++ codes "/cache/lookup.cache")

unfoldable pub ns_requests_path : ℕ → Option Bytes → Option Bytes → Option Bytes
ns_requests_path len base_dir filename = base_dir >>= λ base. filename >>= λ name.
    write_path len (base ++ (codes "/requests/" ++ (name ++ codes ".requests.json")))

-- The year, month and day that gmtime_r makes of a time.
pub record Date : Type 0 where
  pub year : ℕ
  pub month : ℕ
  pub day : ℕ

-- The clock: what time(NULL) gives, and gmtime_r, which fails with none.
pub record Clock : Type 0 where
  pub now : ℕ
  pub gmtime : ℕ → Option Date

-- format_date, for years from 0 on.
unfoldable pub format_date : Clock → ℕ → ℕ → Bytes → Option Bytes
unfolding padded
format_date clock len when prefix = clock.gmtime (if when == 0 then clock.now else when) >>= λ date.
    write_path len (
      prefix
      ++ (codes "_"
          ++ (padded 4 date.year ++ (padded 2 date.month ++ (padded 2 date.day ++ codes ".log")))))

unfoldable pub nm_log_path : Clock → ℕ → Option Bytes → ℕ → Option Bytes
unfolding format_date
nm_log_path clock len base_dir when = base_dir >>= λ base.
    format_date clock 32 when (codes "nm") >>= λ filename.
    write_path len (base ++ (codes "/logs/" ++ filename))

unfoldable pub ss_root_path : ℕ → Option Bytes → Option Bytes → Option Bytes
ss_root_path len base_dir ss_id =
    base_dir >>= λ base. ss_id >>= λ id. write_path len (base ++ (codes "/ss_data_" ++ id))

-- char root[512], char dir[512]
abbrev pub root_size : ℕ
root_size = 512

unfoldable pub ss_file_path : ℕ → Option Bytes → Option Bytes → Bytes → Option Bytes
unfolding ss_root_path
ss_file_path len base_dir ss_id filename = ss_root_path root_size base_dir ss_id >>= λ root.
    write_path len (root ++ (codes "/files/" ++ filename))

unfoldable pub ss_metadata_path : ℕ → Option Bytes → Option Bytes → Bytes → Option Bytes
unfolding ss_root_path
ss_metadata_path len base_dir ss_id filename = ss_root_path root_size base_dir ss_id >>= λ root.
    write_path len (root ++ (codes "/metadata/" ++ (filename ++ codes ".meta.json")))

unfoldable pub ss_undo_path : ℕ → Option Bytes → Option Bytes → Bytes → Option Bytes
unfolding ss_root_path
ss_undo_path len base_dir ss_id filename = ss_root_path root_size base_dir ss_id >>= λ root.
    write_path len (root ++ (codes "/undo/" ++ (filename ++ codes ".undo.json")))

unfoldable pub ss_log_path : Clock → ℕ → Option Bytes → Option Bytes → ℕ → Option Bytes
unfolding ss_root_path format_date
ss_log_path clock len base_dir ss_id when = ss_root_path root_size base_dir ss_id >>= λ root.
    format_date clock 32 when (codes "ss") >>= λ filename.
    write_path len (root ++ (codes "/logs/" ++ filename))

unfoldable pub ss_checkpoint_dir : ℕ → Option Bytes → Option Bytes → Option Bytes → Option Bytes
unfolding ss_root_path
ss_checkpoint_dir len base_dir ss_id filename = ss_root_path root_size base_dir ss_id >>= λ root.
    filename >>= λ name. write_path len (root ++ (codes "/checkpoints/" ++ name))

unfoldable pub ss_checkpoint_path :
    ℕ → Option Bytes → Option Bytes → Option Bytes → Option Bytes → Option Bytes
unfolding ss_checkpoint_dir
ss_checkpoint_path len base_dir ss_id filename tag =
    ss_checkpoint_dir root_size base_dir ss_id filename >>= λ dir.
    tag >>= λ t. write_path len (dir ++ (codes "/" ++ (t ++ codes ".chk")))
