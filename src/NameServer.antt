-- ===== src/NameServer.antt =====
-- The name server of name_server/src/main.c: its state, the storage servers and clients that have
-- registered, and the messages it sends. The index of files and its cache are in FileIndex.
pub mod Files
pub mod Selection
pub mod Lookup
pub mod Registration
pub mod Requests
pub mod Commands
mod Tests
use network_file_storage.Prelude.{
  ℕ, ◌+◌, ◌-◌, ◌*◌, ◌%◌, ◌^◌, Bytes, codes, Bool, true, false, ◌||◌, if◌then◌else◌, List, [], ◌∷◌,
  ◌++◌, Option, none, some, leb, take, str_eq,
}
use network_file_storage.Protocol.{Opcode, ErrorCode, error, error_value}
use network_file_storage.Protocol.{protocol_error_name}
use network_file_storage.Disk.{Disk}
use network_file_storage.FileIndex.{FileIndex}
use network_file_storage.FileIndex.Cache.{LruCache}

-- connection_role_t
pub data ConnectionRole : Type 0 where
  pending storage_server client : ConnectionRole

-- connection_t, without its socket.
pub record Connection : Type 0 where
  pub role : ConnectionRole
  pub identifier : Bytes
  pub session_token : Bytes

-- storage_server_info_t. A time is the 64 bits of a time_t.
pub record StorageServerInfo : Type 0 where
  pub ss_id : Bytes
  pub ip : Bytes
  pub client_port : ℕ
  pub active_readers : ℕ
  pub active_writers : ℕ
  pub last_heartbeat : ℕ

-- client_info_t
pub record ClientInfo : Type 0 where
  pub username : Bytes
  pub ip : Bytes
  pub client_port : ℕ
  pub registered_at : ℕ

-- nm_state_t, with the disk that it works on. The connections are not part of it.
pub record NmState : Type 0 where
  pub servers : List StorageServerInfo
  pub clients : List ClientInfo
  pub session_seq : ℕ
  pub data_dir : Bytes
  pub file_index : FileIndex
  pub cache : LruCache
  pub next_primary_index : ℕ
  pub disk : Disk

-- A message that is sent on the connection of a request: one of the name server's own, or what a
-- storage server answered, with the opcode that it came with.
pub data Reply : Type 0 where
  sent : Opcode → Bytes → Reply
  relayed : ℕ → Bytes → Reply

abbrev pub respond : Opcode → Bytes → List Reply
respond opcode payload = sent opcode payload ∷ []

-- send_error, with a payload in a buffer of 256 bytes.
abbrev pub send_error : ErrorCode → Bytes → List Reply
send_error code message = respond error (
    take 255 (
      codes "{\"code\":\""
      ++ (codes (protocol_error_name (error_value code))
          ++ (codes "\",\"message\":\"" ++ (message ++ codes "\"}")))))

-- {"status":"OK","message":"…"}
abbrev pub ok_text : Bytes → Bytes
ok_text message = codes "{\"status\":\"OK\",\"message\":\"" ++ (message ++ codes "\"}")

-- find_storage_server: its place in the list, and what stands there.
unfoldable pub find_storage_server : List StorageServerInfo → Bytes → Option StorageServerInfo
find_storage_server [] ss_id = none
find_storage_server (info ∷ servers) ss_id =
    if str_eq info.ss_id ss_id then some info else find_storage_server servers ss_id

-- A change of what find_storage_server finds.
unfoldable pub update_storage_server :
    List StorageServerInfo
    → Bytes
    → (StorageServerInfo → StorageServerInfo)
    → List StorageServerInfo
update_storage_server [] ss_id f = []
update_storage_server (info ∷ servers) ss_id f =
    if str_eq info.ss_id ss_id
    then f info ∷ servers
    else info ∷ update_storage_server servers ss_id f

-- find_client
unfoldable pub find_client : List ClientInfo → Bytes → Option ClientInfo
find_client [] username = none
find_client (info ∷ clients) username =
    if str_eq info.username username then some info else find_client clients username

unfoldable pub update_client : List ClientInfo → Bytes → (ClientInfo → ClientInfo) → List ClientInfo
update_client [] username f = []
update_client (info ∷ clients) username f =
    if str_eq info.username username
    then f info ∷ clients
    else info ∷ update_client clients username f

-- now - info->last_heartbeat <= 15, for the 64 bits of two times.
abbrev pub is_alive : ℕ → StorageServerInfo → Bool
is_alive now info =
    let age = (now + 2 ^ 64 - info.last_heartbeat) % 2 ^ 64 in leb age 15 || leb (2 ^ 63) age

-- active_readers + active_writers * 2, in 32 bits.
abbrev pub load_of : StorageServerInfo → ℕ
load_of info = (info.active_readers + info.active_writers * 2) % 2 ^ 32
