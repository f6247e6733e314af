-- ===== src/NameServer/Selection.antt =====
-- The choice among the storage servers of a file: select_storage_server_for_record and the loops of
-- handle_lookup_file.
pub mod Least
use network_file_storage.Prelude.{
  ℕ, ◌+◌, ◌-◌, ◌^◌, Bytes, codes, Bool, true, false, ◌&&◌, ◌||◌, not, if◌then◌else◌, List, [], ◌∷◌,
  ◌++◌, Option, none, some, ◌==◌, ltb, take, decimal,
}
use network_file_storage.FileIndex.{FileRecord}
use network_file_storage.NameServer.{
  StorageServerInfo, NmState, find_storage_server, is_alive, load_of,
}

abbrev is_null {ℓ} : {A : Type ℓ} → Option A → Bool
is_null none = true
is_null (some a) = false

-- The loop of select_storage_server_for_record: `best` and `min_load`.
unfoldable pub select_from :
    List StorageServerInfo → List Bytes → Option StorageServerInfo → ℕ → Option StorageServerInfo
unfolding find_storage_server
select_from servers [] best min_load = best
select_from servers (id ∷ ids) best min_load = elim (find_storage_server servers id) [
  | none ↦ select_from servers ids best min_load
  | some candidate ↦
      let load = load_of candidate in
      elim (is_null best || ltb load min_load) [
        | true ↦ select_from servers ids (some candidate) load
        | false ↦ select_from servers ids best min_load
      ]
]

-- select_storage_server_for_record
unfoldable pub select_storage_server_for_record : NmState → FileRecord → Option StorageServerInfo
unfolding select_from
select_storage_server_for_record state r = select_from state.servers r.ss_ids none (2 ^ 32 - 1)

-- The variables best_idx, min_load and found_active.
pub record Choice : Type 0 where
  pub best_idx : ℕ
  pub min_load : ℕ
  pub found_active : Bool

-- One round of the loop of handle_lookup_file.
unfoldable pub weigh : ℕ → ℕ → Option StorageServerInfo → Choice → Choice
weigh now i none c = c
weigh now i (some info) c =
    if is_alive now info && ltb (load_of info) c.min_load
    then record { best_idx = i; min_load = load_of info; found_active = true }
    else c

-- The loop, from the server at place i on.
unfoldable pub choose : List StorageServerInfo → ℕ → ℕ → List Bytes → Choice → Choice
unfolding weigh find_storage_server
choose servers now i [] c = c
choose servers now i (id ∷ ids) c =
    choose servers now (i + 1) ids (weigh now i (find_storage_server servers id) c)

abbrev pub no_choice : Choice
no_choice = record { best_idx = 0; min_load = 2 ^ 32 - 1; found_active = false }

-- {"ip":"…","port":…}, in a buffer of 128 bytes.
abbrev pub replica_entry : StorageServerInfo → Bytes
replica_entry info = take 127 (
    codes "{\"ip\":\""
    ++ (info.ip ++ (codes "\",\"port\":" ++ (decimal info.client_port ++ codes "}"))))

-- The entry of a server that is found, alive and not the first choice.
abbrev pub replica_at : ℕ → Bool → Option StorageServerInfo → Option Bytes
replica_at now is_best none = none
replica_at now is_best (some info) =
    if not is_best && is_alive now info then some (replica_entry info) else none

abbrev pub separated : Bool → Option Bytes → Bytes → Bytes
separated first none rest = rest
separated first (some entry) rest = (if first then [] else codes ",") ++ (entry ++ rest)

-- The entries of the other servers that are alive, from place i on.
unfoldable pub replica_entries : List StorageServerInfo → ℕ → ℕ → ℕ → Bool → List Bytes → Bytes
unfolding find_storage_server
replica_entries servers now best_idx i first [] = []
replica_entries servers now best_idx i first (id ∷ ids) =
    let here = replica_at now (i == best_idx) (find_storage_server servers id) in
    separated first here (replica_entries servers now best_idx (i + 1) (first && is_null here) ids)
