-- ===== src/NameServer/Tests.antt =====
-- The name server at work.
use network_file_storage.Prelude.{
  ◌∙◌, ap, decimal, str_eq, if◌then◌else◌, ◌==◌, ℕ, ◌≤◌, Bytes, codes, none, some, Option, ◌≡◌, ◌≢◌,
  refl, [], ◌∷◌, length, arith, All, get_elem?,
}
use network_file_storage.Protocol.{lookup_resp}
use network_file_storage.Disk.{dir}
use network_file_storage.FileIndex.{FileIndex, FileRecord, null, node, record_at, file_index_lookup}
use network_file_storage.FileIndex.Acl.{file_record_check_access}
use network_file_storage.FileIndex.Cache.Laws.{CacheValid}
use network_file_storage.NameServer.{find_storage_server, NmState, StorageServerInfo, respond}
use network_file_storage.NameServer.Lookup.{field_or, need_write, handle_lookup_file, answer_lookup}
use network_file_storage.Json.{json_get_string}
use network_file_storage.NameServer.Selection.Least.{Alive}
use network_file_storage.NameServer.Lookup.Access.{Granted, lookup-Granted, lookup-answers}
use network_file_storage.NameServer.Requests.{AccessRequest, save_access_requests}
use network_file_storage.NameServer.Commands.{
  found_record, add_access, remove_access, approve_request, deny_request,
}
use network_file_storage.NameServer.Commands.Ownership.{NotOwner, owner_only}
use network_file_storage.NameServer.Commands.Storage.{
  delete_file, delete_requests, active_servers, pick_servers,
}
use network_file_storage.NameServer.Commands.Storage.Creation.{pick_servers-apart}
use network_file_storage.NameServer.Registration.{recovery}
use network_file_storage.NameServer.Registration.Recovery.{Copy, recovery-Copy}

abbrev one : StorageServerInfo
one = record {
  ss_id = codes "s1";
  ip = codes "127.0.0.1";
  client_port = 9001;
  active_readers = 2;
  active_writers = 1;
  last_heartbeat = 100;
}

abbrev two : StorageServerInfo
two = record {
  ss_id = codes "s2";
  ip = codes "127.0.0.1";
  client_port = 9002;
  active_readers = 1;
  active_writers = 0;
  last_heartbeat = 100;
}

-- A file on both servers.
abbrev held : FileRecord
held = record {
  filename = codes "a";
  owner = codes "ann";
  ss_ids = codes "s1" ∷ codes "s2" ∷ [];
  acl = [];
  acl_capacity = 0;
  created_at = 1;
  modified_at = 1;
  word_count = 0;
  char_count = 0;
  sentence_count = 0;
}

abbrev index : FileIndex
index = record {
  root = node none (λ c. if c == 97 then node (some 0) (λ d. null) else null);
  file_count = 1;
  heap = λ p. if p == 0 then some held else none;
  next = 1;
}

abbrev state : NmState
state = record {
  servers = one ∷ two ∷ [];
  clients = [];
  session_seq = 0;
  data_dir = codes "n";
  file_index = index;
  cache = record { entries = []; capacity = 4; size = 0 };
  next_primary_index = 1;
  disk = record {
    nodes = (codes "n", dir) ∷ (codes "n/acl", dir) ∷ (codes "n/requests", dir) ∷ [];
    answers = [];
    suffix = codes "k3";
  };
}

cache_valid : CacheValid state.cache state.file_index
cache_valid = record {
  counted = refl;
  fits = omega arith;
  positive = omega arith;
  distinct = tt;
  agree = tt;
}

abbrev wanted : Option Bytes
wanted = some (codes "{\"filename\":\"a\",\"username\":\"ann\",\"operation\":\"write\"}")

abbrev response : Bytes
response =
    codes
      "{\"filename\":\"a\",\"ss_ip\":\"127.0.0.1\",\"ss_port\":9002,\"owner\":\"ann\",\"replicas\":[{\"ip\":\"127.0.0.1\",\"port\":9001}]}"

lookup_run : (handle_lookup_file state wanted 110 []).0 ≡ respond lookup_resp response
unfolding handle_lookup_file file_index_lookup str_eq decimal
lookup_run = refl

lookup-Granted_example :
    (filename : Bytes) × (r : FileRecord) × (json_get_string wanted (codes "filename") 256
      ≡ some filename)
    × (record_at state.file_index (file_index_lookup state.file_index filename) ≡ some r)
    × Granted state r filename
        (field_or wanted (codes "username") 128 (codes "anonymous"))
        response
        (need_write wanted)
        110
lookup-Granted_example = lookup-Granted state wanted 110 [] response cache_valid lookup_run

owner_run : file_record_check_access held (codes "ann") 1 ≡ 1
unfolding file_record_check_access str_eq
owner_run = refl

server_two : Alive state.servers 110 (codes "s2") two
unfolding find_storage_server str_eq
server_two = (refl, refl)

lookup-answers_example :
    (text : Bytes) × (answer_lookup state held (codes "a") (codes "ann") 1 110
      ≡ respond lookup_resp text)
lookup-answers_example =
    lookup-answers state held (codes "a") (codes "ann") 1 110 1 (codes "s2") two
      (λ z. cc (owner_run, z)) refl server_two (omega arith)

abbrev request : AccessRequest
request = record { username = codes "eve"; can_write = 1; requested_at = 107 }

abbrev bob : Bytes
bob = codes "bob"

abbrev head_of : Bytes → ℕ
head_of [] = 0
head_of (c ∷ s) = c

abbrev owner_of : Option (ℕ × FileRecord) → Bytes
owner_of none = []
owner_of (some found) = found.1.owner

bob-NotOwner : NotOwner state bob (codes "a")
unfolding found_record file_index_lookup
bob-NotOwner p r e f =
    let same : codes "ann" ≡ r.owner = ap (λ (o : Option (ℕ × FileRecord)). owner_of o) e in
    omega (arith, ap head_of (same ∙ f))

owner_only_example :
    (delete_requests state bob (codes "a") ≡ [])
    × ((delete_file state bob (codes "a")).1 ≡ state)
    × ((add_access state bob (codes "a") wanted [] []).1 ≡ state)
    × ((remove_access state bob (codes "a") wanted).1 ≡ state)
    × ((approve_request state bob (codes "a") wanted [] []).1 ≡ state)
    × ((deny_request state bob (codes "a") wanted).1 ≡ state)
owner_only_example = owner_only state bob (codes "a") wanted [] [] bob-NotOwner

abbrev approved : Bytes
approved = codes "{\"status\":\"approved\",\"user\":\"eve\",\"mode\":\"write\"}"

-- The state behind the request, with its file on the disk.
abbrev asked : NmState
asked = (save_access_requests state (codes "a") (request ∷ [])).1

abbrev approval : Option Bytes
approval = some (codes "{\"target_user\":\"eve\",\"mode\":\"write\"}")

active_run : active_servers 16 110 state.servers ≡ one ∷ two ∷ []
unfolding active_servers
active_run = refl

two_active : 2 ≤ length (active_servers 16 110 state.servers)
two_active = rw active_run (omega arith)

pick_servers-apart_example :
    (length (active_servers 16 110 state.servers) ≤ 16)
    × ((i : ℕ) × (j : ℕ) × (primary : StorageServerInfo) × (replica : StorageServerInfo) × (i ≢ j)
        × (get_elem? (active_servers 16 110 state.servers) i ≡ some primary)
        × (get_elem? (active_servers 16 110 state.servers) j ≡ some replica)
        × (pick_servers 1 (active_servers 16 110 state.servers) ≡ (some primary, some replica, 3)))
pick_servers-apart_example = pick_servers-apart 1 110 state.servers two_active (omega arith)

recovery-Copy_example : All (Copy state 110 (codes "s1")) (recovery state 110 (codes "s1") (0 ∷ []))
recovery-Copy_example = recovery-Copy state 110 (codes "s1") (0 ∷ [])
