-- ===== src/NameServer/Registration.antt =====
-- handle_register_ss and handle_register_client. Memory does not run out here.
pub mod Recovery
use network_file_storage.Prelude.{
  ℕ, zero, suc, ◌+◌, ◌-◌, ◌%◌, ◌^◌, Bytes, codes, Bool, true, false, ◌&&◌, ◌||◌, not, if◌then◌else◌,
  List, [], ◌∷◌, ◌++◌, Option, none, some, ◌>>=◌, ◌==◌, ltb, length, take, str_eq, strstr,
  after_byte, before_byte, decimal, padded,
}
use network_file_storage.Protocol.{Opcode, register_ack, replicate_file, protocol}
use network_file_storage.Json.{json_get_string, json_get_uint}
use network_file_storage.FileIndex.{
  FileIndex, FileRecord, file_index_add, file_index_get_all, record_at, has_ss,
}
use network_file_storage.NameServer.{
  ConnectionRole, storage_server, client, Connection, StorageServerInfo, ClientInfo, NmState, Reply,
  respond, send_error, find_storage_server, update_storage_server, find_client, update_client,
  is_alive,
}
use network_file_storage.NameServer.Files.{append_registry_entry}
use network_file_storage.NameServer.Lookup.{field_or}

-- A file of the manifest: the name and the text behind it, with room for 255 bytes.
unfoldable pub manifest_name : ℕ → Bytes → Bytes × Bytes
manifest_name zero s = ([], s)
manifest_name (suc room) [] = ([], [])
manifest_name (suc room) (c ∷ s) =
    let (name, rest) = manifest_name room s in
    if c == b'"' || c == b',' then ([], c ∷ s) else (c ∷ name, rest)

-- while (*pos == ' ' || *pos == '\t' || *pos == ',' || *pos == '"') pos++;
unfoldable pub skip_separators : Bytes → Bytes
skip_separators [] = []
skip_separators (c ∷ s) =
    if c == 32 || (c == 9 || (c == b',' || c == b'"')) then skip_separators s else c ∷ s

abbrev pub name_after : List Bytes → Bytes → List Bytes
name_after names [] = names
name_after names (c ∷ s) = (c ∷ s) ∷ names

-- The names of a manifest. The first argument bounds the rounds.
unfoldable pub manifest_names : ℕ → Bytes → List Bytes
unfolding manifest_name skip_separators
manifest_names zero s = []
manifest_names (suc fuel) s =
    let (name, rest) = manifest_name 255 (skip_separators s) in
    elim name [ [] ↦ [] | c ∷ n ↦ (c ∷ n) ∷ manifest_names fuel rest ]

-- The text between the brackets behind "file_manifest", where it fits into 4096 bytes.
unfoldable pub manifest_text : Bytes → Option Bytes
unfolding strstr after_byte before_byte
manifest_text payload = strstr payload (codes "\"file_manifest\"") >>= λ start.
    after_byte b'[' start >>= λ from.
    before_byte b']' from >>= λ text. if ltb (length text) 4096 then some text else none

-- file_index_add for each name. Its results are not looked at.
unfoldable pub add_files : FileIndex → List Bytes → Bytes → ℕ → FileIndex
unfolding file_index_add
add_files index [] ss_id now = index
add_files index (name ∷ names) ss_id now =
    add_files (file_index_add index name (codes "system") ss_id now []).0 names ss_id now

abbrev pub manifest_of : Option Bytes → List Bytes
unfolding manifest_text manifest_names
manifest_of none = []
manifest_of (some payload) = elim (manifest_text payload) [
  | none ↦ []
  | some text ↦ manifest_names (length text + 1) text
]

-- send_register_ack, in a buffer of 256 bytes; the heartbeat interval is 5000.
abbrev pub register_ack_text : Bytes → Bytes
register_ack_text token = take 255 (
    codes "{\"status\":\"OK\",\"session_token\":\""
    ++ (token ++ codes "\",\"heartbeat_interval_ms\":5000}"))

-- The connection after a registration: "<prefix>-%06lu" of the session number, in 64 bytes.
abbrev pub registered : ConnectionRole → Bytes → Bytes → ℕ → Connection
registered role identifier prefix seq = record {
  role = role;
  identifier = take 127 identifier;
  session_token = take 63 (prefix ++ (codes "-" ++ padded 6 seq));
}

-- session_seq++, in 64 bits.
abbrev pub next_seq : ℕ → ℕ
next_seq seq = (seq + 1) % 2 ^ 64

-- The server of an identifier, new at the front of the list where it is not there.
unfoldable pub with_server : NmState → Bytes → ℕ → NmState
unfolding find_storage_server append_registry_entry
with_server state ss_id port = elim (find_storage_server state.servers ss_id) [
  | some info ↦ state
  | none ↦
      let info : StorageServerInfo = record {
        ss_id = ss_id;
        ip = [];
        client_port = 0;
        active_readers = 0;
        active_writers = 0;
        last_heartbeat = 0;
      } in
      append_registry_entry (record state { servers = info ∷ state.servers })
        (take 255 (
          codes "{\"type\":\"SS_REGISTER\",\"ss_id\":\""
          ++ (ss_id ++ (codes "\",\"port\":" ++ (decimal port ++ codes "}")))))
]

-- The request to copy a file from a server, in a buffer of 512 bytes.
abbrev pub replicate_text : FileRecord → StorageServerInfo → Bytes
replicate_text r source = take 511 (
    codes "{\"filename\":\""
    ++ (r.filename
        ++ (codes "\",\"source_ip\":\""
            ++ (source.ip
                ++ (codes "\",\"source_port\":" ++ (decimal source.client_port ++ codes "}"))))))

-- The first other server of a file that is alive.
unfoldable pub find_source :
    List StorageServerInfo → ℕ → Bytes → List Bytes → Option StorageServerInfo
unfolding find_storage_server str_eq
find_source servers now ss_id [] = none
find_source servers now ss_id (id ∷ ids) =
    let rest = find_source servers now ss_id ids in
    if str_eq id ss_id then rest else elim (find_storage_server servers id) [
      | none ↦ rest
      | some candidate ↦ if is_alive now candidate then some candidate else rest
    ]

-- The loop over all files: a request for each one that this server holds and another one that is
-- alive has.
unfoldable pub recovery : NmState → ℕ → Bytes → List ℕ → List Reply
unfolding has_ss find_source
recovery state now ss_id [] = []
recovery state now ss_id (p ∷ records) =
    let rest = recovery state now ss_id records in
    elim (record_at state.file_index (some p)) [
      | none ↦ rest
      | some r ↦
          if has_ss r.ss_ids ss_id
          then (elim (find_source state.servers now ss_id r.ss_ids) [
            | none ↦ rest
            | some source ↦ respond replicate_file (replicate_text r source) ++ rest
          ])
          else rest
    ]

-- handle_register_ss behind the checks of its payload.
unfoldable pub register_server :
    NmState → Option Bytes → Bytes → Bytes → ℕ → ℕ → List Reply × Connection × NmState
unfolding with_server update_storage_server add_files file_index_get_all recovery padded
    manifest_text manifest_names
register_server state payload ss_id ip port now =
    let seq = next_seq state.session_seq in
    let known = with_server state ss_id port in
    let state' : NmState = record known {
      servers = update_storage_server known.servers ss_id (λ info. record info {
        ip = take 63 ip;
        client_port = port % 2 ^ 16;
        last_heartbeat = now;
      });
      session_seq = seq;
      file_index = add_files known.file_index (manifest_of payload) ss_id now;
    } in
    let conn = registered storage_server ss_id (codes "ss") seq in
    (
      respond register_ack (register_ack_text conn.session_token)
          ++ recovery state' now ss_id (file_index_get_all state'.file_index []),
      conn,
      state',
    )

-- handle_register_ss
unfoldable pub handle_register_ss :
    NmState → Connection → Option Bytes → ℕ → List Reply × Connection × NmState
unfolding json_get_string json_get_uint register_server
handle_register_ss state conn payload now = elim (json_get_string payload (codes "ss_id") 128) [
  | none ↦ (send_error protocol (codes "Missing ss_id"), conn, state)
  | some ss_id ↦ elim (json_get_uint payload (codes "client_port")) [
    | none ↦ (send_error protocol (codes "Missing client_port"), conn, state)
    | some port ↦
        register_server state payload ss_id (field_or payload (codes "nm_ip") 64 (codes "0.0.0.0"))
          port now
  ]
]

-- The client of a name, new at the front of the list where it is not there.
unfoldable pub with_client : NmState → Bytes → NmState
unfolding find_client append_registry_entry
with_client state username = elim (find_client state.clients username) [
  | some info ↦ state
  | none ↦
      let info : ClientInfo = record {
        username = username;
        ip = [];
        client_port = 0;
        registered_at = 0;
      } in
      append_registry_entry (record state { clients = info ∷ state.clients })
        (take 255
          (codes "{\"type\":\"CLIENT_REGISTER\",\"username\":\"" ++ (username ++ codes "\"}")))
]

abbrev pub port_or : Option ℕ → ℕ
port_or none = 0
port_or (some port) = port % 2 ^ 16

-- handle_register_client
unfoldable pub handle_register_client :
    NmState → Connection → Option Bytes → ℕ → List Reply × Connection × NmState
unfolding json_get_string json_get_uint with_client update_client padded
handle_register_client state conn payload now =
    elim (json_get_string payload (codes "username") 128) [
      | none ↦ (send_error protocol (codes "Missing username"), conn, state)
      | some username ↦
          let seq = next_seq state.session_seq in
          let known = with_client state username in
          let state' : NmState = record known {
            clients = update_client known.clients username (λ info. record info {
              ip = take 63 (field_or payload (codes "client_ip") 64 (codes "0.0.0.0"));
              client_port = port_or (json_get_uint payload (codes "client_port"));
              registered_at = now;
            });
            session_seq = seq;
          } in
          let conn' = registered client username (codes "client") seq in
          (respond register_ack (register_ack_text conn'.session_token), conn', state')
    ]
