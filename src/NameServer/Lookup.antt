-- ===== src/NameServer/Lookup.antt =====
-- handle_lookup_file and handle_heartbeat.
pub mod Access
use network_file_storage.Prelude.{
  ℕ, ◌%◌, ◌^◌, Bytes, codes, Bool, true, false, ◌||◌, if◌then◌else◌, List, [], ◌∷◌, ◌++◌, Option,
  none, some, ◌==◌, get_elem?, decimal, strstr, Memory,
}
use network_file_storage.Protocol.{lookup_resp, protocol, file_not_found, no_access, storage_down}
use network_file_storage.Json.{json_get_string, json_get_uint}
use network_file_storage.FileIndex.{FileRecord, record_at, file_index_lookup}
use network_file_storage.FileIndex.Acl.{file_record_check_access}
use network_file_storage.FileIndex.Cache.{lru_cache_get}
use network_file_storage.NameServer.{
  NmState, Reply, StorageServerInfo, respond, send_error, find_storage_server,
  update_storage_server,
}
use network_file_storage.NameServer.Selection.{Choice, choose, no_choice, replica_entries}

-- A text that json_get_string reads, or a default.
abbrev pub field_or : Option Bytes → Bytes → ℕ → Bytes → Bytes
field_or payload key out_len default = elim (json_get_string payload key out_len) [
  | none ↦ default
  | some t ↦ t
]

abbrev pub contains : Bytes → Bytes → Bool
contains text pattern = elim (strstr text pattern) [ none ↦ false | some s ↦ true ]

-- Whether the payload asks for a right to write, as a C truth value.
abbrev pub need_write : Option Bytes → ℕ
need_write none = 0
need_write (some payload) = elim (strstr payload (codes "\"operation\"")) [
  | none ↦ 0
  | some operation ↦
      if contains operation (codes "write") || contains operation (codes "WRITE") then 1 else 0
]

-- The response with the server that was chosen and the replicas.
abbrev pub lookup_text : Bytes → StorageServerInfo → Bytes → Bytes → Bytes
lookup_text filename chosen owner replicas =
    codes "{\"filename\":\""
    ++ (filename
        ++ (codes "\",\"ss_ip\":\""
            ++ (chosen.ip
                ++ (codes "\",\"ss_port\":"
                    ++ (decimal chosen.client_port
                        ++ (codes ",\"owner\":\""
                            ++ (owner
                                ++ (codes "\",\"replicas\":[" ++ (replicas ++ codes "]}")))))))))

-- What is answered when the choice among the servers is made.
unfoldable pub answer_choice : NmState → FileRecord → Bytes → ℕ → Choice → List Reply
unfolding find_storage_server replica_entries
answer_choice state r filename now c =
    if c.found_active
    then (elim (get_elem? r.ss_ids c.best_idx) [
      | none ↦ send_error storage_down (codes "Storage server unavailable")
      | some id ↦ elim (find_storage_server state.servers id) [
        | none ↦ send_error storage_down (codes "Storage server unavailable")
        | some chosen ↦ respond lookup_resp (
            lookup_text filename chosen r.owner
              (replica_entries state.servers now c.best_idx 0 true r.ss_ids))
      ]
    ])
    else send_error storage_down (codes "All storage servers down")

-- The checks and the choice for a record.
unfoldable pub answer_lookup : NmState → FileRecord → Bytes → Bytes → ℕ → ℕ → List Reply
unfolding answer_choice choose file_record_check_access
answer_lookup state r filename username write now =
    if file_record_check_access r username write == 0
    then send_error no_access (codes "Access denied")
    else elim r.ss_ids [
      | [] ↦ send_error storage_down (codes "No storage servers available")
      | id ∷ ids ↦
          answer_choice state r filename now (choose state.servers now 0 (id ∷ ids) no_choice)
    ]

-- handle_lookup_file. A pointer of the cache is followed into the heap of the index.
unfoldable pub handle_lookup_file : NmState → Option Bytes → ℕ → Memory → List Reply × NmState
unfolding json_get_string lru_cache_get answer_lookup strstr
handle_lookup_file state payload now memory =
    elim (json_get_string payload (codes "filename") 256) [
      | none ↦ (send_error protocol (codes "Missing filename"), state)
      | some filename ↦
          let username = field_or payload (codes "username") 128 (codes "anonymous") in
          let (cache, found, m) = lru_cache_get state.cache state.file_index filename now memory in
          let state' = record state { cache = cache } in
          elim (record_at state.file_index found) [
            | none ↦ (send_error file_not_found (codes "File not found"), state')
            | some r ↦ (answer_lookup state' r filename username (need_write payload) now, state')
          ]
    ]

-- The counters of a heartbeat, of 32 bits each, where the payload has them.
abbrev pub counter_or : Option Bytes → Bytes → ℕ → ℕ
counter_or payload key old = elim (json_get_uint payload key) [ none ↦ old | some n ↦ n % 2 ^ 32 ]

-- handle_heartbeat. It answers nothing.
unfoldable pub handle_heartbeat : NmState → Option Bytes → ℕ → NmState
unfolding json_get_string json_get_uint update_storage_server
handle_heartbeat state payload now = elim (json_get_string payload (codes "ss_id") 128) [
  | none ↦ state
  | some ss_id ↦ record state {
    servers = update_storage_server state.servers ss_id (λ info. record info {
      active_readers = counter_or payload (codes "readers") info.active_readers;
      active_writers = counter_or payload (codes "writers") info.active_writers;
      last_heartbeat = now;
    });
  }
]
