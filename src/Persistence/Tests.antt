-- ===== src/Persistence/Tests.antt =====
-- The paths at work.
use network_file_storage.Prelude.{
  Bytes, codes, true, Option, some, ◌≡◌, refl, padded, decimal, digits, zeros,
}
use network_file_storage.Persistence.{
  ss_file_path, ss_root_path, ss_checkpoint_path, ss_checkpoint_dir, Clock, nm_log_path,
  format_date,
}
use network_file_storage.Persistence.Places.{
  content, place_path-injective, checkpoint_path-injective,
}
use network_file_storage.Text.{is_valid_checkpoint_tag, all_tag_bytes}

abbrev base : Option Bytes
base = some (codes "data")

abbrev ss1 : Option Bytes
ss1 = some (codes "ss1")

abbrev a_txt : Bytes
a_txt = codes "a.txt"

file_path_runs : ss_file_path 4096 base ss1 a_txt ≡ some (codes "data/ss_data_ss1/files/a.txt")
unfolding ss_file_path ss_root_path
file_path_runs = refl

checkpoint_path_runs :
    ss_checkpoint_path 4096 base ss1 (some a_txt) (some (codes "v1"))
    ≡ some (codes "data/ss_data_ss1/checkpoints/a.txt/v1.chk")
unfolding ss_checkpoint_path ss_checkpoint_dir ss_root_path
checkpoint_path_runs = refl

abbrev clock : Clock
clock = record { now = 5; gmtime = λ t. some (record { year = 2025; month = 3; day = 7 }) }

log_path_runs : nm_log_path clock 4096 base 0 ≡ some (codes "data/logs/nm_20250307.log")
unfolding nm_log_path format_date padded decimal digits zeros
log_path_runs = refl

valid_runs : is_valid_checkpoint_tag (codes "v1") ≡ true
unfolding is_valid_checkpoint_tag all_tag_bytes
valid_runs = refl

place_path-injective_example : (content ≡ content) × (a_txt ≡ a_txt)
place_path-injective_example =
    place_path-injective content content 4096 4096 base ss1 a_txt a_txt
      (codes "data/ss_data_ss1/files/a.txt") file_path_runs file_path_runs

checkpoint_path-injective_example : (a_txt ≡ a_txt) × (codes "v1" ≡ codes "v1")
checkpoint_path-injective_example =
    checkpoint_path-injective 4096 4096 base ss1 a_txt a_txt (codes "v1") (codes "v1")
      (codes "data/ss_data_ss1/checkpoints/a.txt/v1.chk") valid_runs valid_runs checkpoint_path_runs
      checkpoint_path_runs
