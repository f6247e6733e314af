-- ===== src/NameServer/Commands/Storage.antt =====
-- The commands that reach a storage server: CREATE, DELETE and those on checkpoints. What a storage
-- server makes of a request is a parameter.
pub mod Creation
use network_file_storage.Prelude.{
  ℕ, zero, suc, ◌+◌, ◌%◌, ◌^◌, Bytes, codes, Bool, true, false, ◌&&◌, if◌then◌else◌, List, [], ◌∷◌,
  ◌++◌, Option, none, some, ◌>>=◌, ◌==◌, length, take, get_elem?, str_eq, Memory,
}
use network_file_storage.Protocol.{
  Opcode, opcode_value, command_forward, command_status, checkpoint_request,
  listcheckpoints_request, viewcheckpoint_request, revert_checkpoint_request, ErrorCode, protocol,
  no_access, duplicate, file_not_found, storage_down, execution_fail,
}
use network_file_storage.Json.{json_get_string}
use network_file_storage.Disk.{Disk, path_max, unlink}
use network_file_storage.Persistence.{ns_acl_path, ns_requests_path}
use network_file_storage.Storage.Metadata.{lld}
use network_file_storage.FileIndex.{
  FileRecord, file_index_lookup, file_index_add, file_index_add_ss_replica, file_index_remove,
}
use network_file_storage.FileIndex.Acl.{file_record_check_access}
use network_file_storage.NameServer.{
  NmState, StorageServerInfo, Reply, relayed, respond, send_error, ok_text, find_storage_server,
  is_alive,
}
use network_file_storage.NameServer.Files.{write_file, append_registry_entry, acl_line}
use network_file_storage.NameServer.Selection.{select_storage_server_for_record}
use network_file_storage.NameServer.Commands.{
  Outcome, fail, is_null, found_record, with_owned, invalidated,
}

-- What comes of a request to a storage server: no connection, no answer, or a message.
pub data Contact : Type 0 where
  unreachable silent : Contact
  answered : ℕ → Bytes → Contact

-- forward_storage_request, and the answer passed on.
abbrev pub relay : NmState → Contact → Outcome
relay state unreachable = fail storage_down (codes "Failed to contact storage server") state
relay state silent = fail storage_down (codes "Failed to contact storage server") state
relay state (answered opcode payload) = (relayed opcode payload ∷ [], state)

-- The frame of the commands on checkpoints behind the check of the tag.
unfoldable pub forward_checked :
    NmState
    → Bytes
    → Bytes
    → ℕ
    → Bytes
    → Opcode
    → Bytes
    → (StorageServerInfo → Opcode → Bytes → Contact)
    → Outcome
unfolding file_index_lookup file_record_check_access select_storage_server_for_record
forward_checked state username filename need_write denied opcode payload contact =
    elim (found_record state filename) [
      | none ↦ fail file_not_found (codes "File not found") state
      | some found ↦
          if file_record_check_access found.1 username need_write == 0
          then fail no_access denied state
          else elim (select_storage_server_for_record state found.1) [
            | none ↦ fail storage_down (codes "No storage server available") state
            | some ss ↦ relay state (contact ss opcode payload)
          ]
    ]

-- The field "tag", which may not be empty.
abbrev pub with_tag : NmState → Bytes → Option Bytes → (Bytes → Outcome) → Outcome
unfolding json_get_string
with_tag state filename payload act =
    if is_null filename
    then fail protocol (codes "Missing filename") state
    else elim (json_get_string payload (codes "tag") 128) [
      | none ↦ fail protocol (codes "Missing checkpoint tag") state
      | some tag ↦
          if is_null tag then fail protocol (codes "Missing checkpoint tag") state else act tag
    ]

-- The request to the storage server, in a buffer of 1024 bytes.
abbrev pub tag_payload : Bytes → Bytes → Bytes → Bytes
tag_payload filename tag username = take 1023 (
    codes "{\"filename\":\""
    ++ (filename
        ++ (codes "\",\"tag\":\""
            ++ (tag ++ (codes "\",\"username\":\"" ++ (username ++ codes "\"}"))))))

abbrev pub plain_tag_payload : Bytes → Bytes → Bytes
plain_tag_payload filename tag =
    take 1023
      (codes "{\"filename\":\"" ++ (filename ++ (codes "\",\"tag\":\"" ++ (tag ++ codes "\"}"))))

abbrev pub name_payload : Bytes → Bytes
name_payload filename = take 511 (codes "{\"filename\":\"" ++ (filename ++ codes "\"}"))

-- CHECKPOINT
unfoldable pub checkpoint :
    NmState
    → Bytes
    → Bytes
    → Option Bytes
    → (StorageServerInfo → Opcode → Bytes → Contact)
    → Outcome
unfolding json_get_string forward_checked
checkpoint state username filename payload contact = with_tag state filename payload (λ tag.
    forward_checked state username filename 1 (codes "Write access required") checkpoint_request
      (tag_payload filename tag username) contact)

-- LISTCHECKPOINTS
unfoldable pub list_checkpoints :
    NmState → Bytes → Bytes → (StorageServerInfo → Opcode → Bytes → Contact) → Outcome
unfolding forward_checked
list_checkpoints state username filename contact =
    if is_null filename
    then fail protocol (codes "Missing filename") state
    else forward_checked state username filename 0 (codes "Access denied") listcheckpoints_request
        (name_payload filename) contact

-- VIEWCHECKPOINT
unfoldable pub view_checkpoint :
    NmState
    → Bytes
    → Bytes
    → Option Bytes
    → (StorageServerInfo → Opcode → Bytes → Contact)
    → Outcome
unfolding json_get_string forward_checked
view_checkpoint state username filename payload contact = with_tag state filename payload (λ tag.
    forward_checked state username filename 0 (codes "Access denied") viewcheckpoint_request
      (plain_tag_payload filename tag) contact)

-- REVERTCHECKPOINT
unfoldable pub revert_checkpoint :
    NmState
    → Bytes
    → Bytes
    → Option Bytes
    → (StorageServerInfo → Opcode → Bytes → Contact)
    → Outcome
unfolding json_get_string forward_checked
revert_checkpoint state username filename payload contact = with_tag state filename payload (λ tag.
    forward_checked state username filename 1 (codes "Write access required")
      revert_checkpoint_request (tag_payload filename tag username) contact)

-- The loop of CREATE over the servers: those that are alive, `room` at most.
unfoldable pub active_servers : ℕ → ℕ → List StorageServerInfo → List StorageServerInfo
active_servers zero now servers = []
active_servers (suc room) now [] = []
active_servers (suc room) now (info ∷ servers) = elim (is_alive now info) [
  | true ↦ info ∷ active_servers room now servers
  | false ↦ active_servers (suc room) now servers
]

-- The round robin: the primary, a replica where there are two servers, and the counter behind it.
unfoldable pub pick_servers :
    ℕ → List StorageServerInfo → Option StorageServerInfo × Option StorageServerInfo × ℕ
pick_servers next active =
    let next' = (next + 1) % 2 ^ 32 in
    elim active [
      | [] ↦ (none, none, next)
      | info ∷ [] ↦ (some info, none, next')
      | info ∷ second ∷ rest ↦ (
        get_elem? (info ∷ second ∷ rest) (next % length (info ∷ second ∷ rest)),
        get_elem? (info ∷ second ∷ rest) (next' % length (info ∷ second ∷ rest)),
        (next' + 1) % 2 ^ 32,
      )
    ]

abbrev pub create_payload : Bytes → Bytes → Bytes
create_payload filename owner =
    take 511 (
      codes "{\"filename\":\"" ++ (filename ++ (codes "\",\"owner\":\"" ++ (owner ++ codes "\"}"))))

abbrev pub id_or : Option StorageServerInfo → Bytes → Bytes
id_or none default = default
id_or (some info) default = info.ss_id

-- The entry of the registry, in a buffer of 1024 bytes, and the response, in one of 512.
abbrev pub file_entry : Bytes → Bytes → StorageServerInfo → Option StorageServerInfo → ℕ → Bytes
unfolding lld
file_entry filename username primary replica now = take 1023 (
    codes "{\"type\":\"FILE_CREATE\",\"filename\":\""
    ++ (filename
        ++ (codes "\",\"owner\":\""
            ++ (username
                ++ (codes "\",\"ss_id\":\""
                    ++ (primary.ss_id
                        ++ (codes "\",\"replica_ss_id\":\""
                            ++ (id_or replica []
                                ++ (codes "\",\"created_at\":"
                                    ++ (lld now
                                        ++ (codes ",\"modified_at\":"
                                            ++ (lld now
                                                ++ codes
                                                    ",\"word_count\":0,\"char_count\":0,\"sentence_count\":0}"))))))))))))

abbrev pub created_text : StorageServerInfo → Option StorageServerInfo → Bytes
created_text primary replica = take 511 (
    codes "{\"status\":\"OK\",\"message\":\"File created\",\"ss_id\":\""
    ++ (primary.ss_id
        ++ (codes "\",\"replica\":\"" ++ (id_or replica (codes "none") ++ codes "\"}"))))

-- The first access file.
abbrev pub create_acl : NmState → Bytes → Bytes → NmState
unfolding write_file ns_acl_path
create_acl state filename username =
    elim (ns_acl_path path_max (some state.data_dir) (some filename)) [
      | none ↦ state
      | some path ↦ record state {
        disk = (write_file state.disk path (acl_line username (codes "RW"))).1;
      }
    ]

-- The index with the new file and its servers. The results of the two calls are not looked at.
unfoldable pub register_file :
    NmState → Bytes → Bytes → StorageServerInfo → Option StorageServerInfo → ℕ → Memory → NmState
unfolding file_index_add file_index_add_ss_replica
register_file state filename username primary replica now memory =
    let (index, status, m) =
      file_index_add state.file_index filename username primary.ss_id now memory in
    record state {
      file_index = elim replica [
        | none ↦ index
        | some info ↦ (file_index_add_ss_replica index filename info.ss_id).0
      ];
    }

-- CREATE once the primary has answered that the file was created. The replica is asked as well, and
-- what it answers has no effect here.
unfoldable pub finish_create :
    NmState → Bytes → Bytes → StorageServerInfo → Option StorageServerInfo → ℕ → Memory → Outcome
unfolding register_file append_registry_entry
finish_create state username filename primary replica now memory =
    let registered =
      invalidated (register_file state filename username primary replica now memory) filename in
    let noted =
      append_registry_entry (create_acl registered filename username)
        (file_entry filename username primary replica now) in
    (respond command_status (created_text primary replica), noted)

-- The bytes of a buffer that calloc cleared.
unfoldable pub cleared : ℕ → Bytes
cleared zero = []
cleared (suc n) = 0 ∷ cleared n

-- What CREATE makes of the primary's answer. Without one, the buffer still holds the header of the
-- request, so that this header is sent to the client, with as many zero bytes as the request has.
unfoldable pub create_answered :
    NmState
    → Bytes
    → Bytes
    → StorageServerInfo
    → Option StorageServerInfo
    → ℕ
    → Memory
    → Contact
    → Outcome
unfolding finish_create cleared
create_answered state username filename primary replica now memory unreachable =
    fail storage_down (codes "Failed to connect to storage server") state
create_answered state username filename primary replica now memory silent = (
  relayed (opcode_value command_forward) (cleared (length (create_payload filename username))) ∷ [],
  state,
)
create_answered state username filename primary replica now memory (answered opcode payload) =
    if opcode == opcode_value command_status
    then finish_create state username filename primary replica now memory
    else elim payload [
      | [] ↦ fail execution_fail (codes "Storage server failed to create file") state
      | c ∷ s ↦ (relayed opcode (c ∷ s) ∷ [], state)
    ]

-- CREATE
unfoldable pub create :
    NmState → Bytes → Bytes → ℕ → Memory → (StorageServerInfo → Opcode → Bytes → Contact) → Outcome
unfolding file_index_lookup active_servers pick_servers create_answered
create state username filename now memory contact =
    elim (file_index_lookup state.file_index filename) [
      | some p ↦ fail duplicate (codes "File already exists") state
      | none ↦
          let (primary, replica, next) =
            pick_servers state.next_primary_index (active_servers 16 now state.servers) in
          let state' = record state { next_primary_index = next } in
          elim primary [
            | none ↦ fail storage_down (codes "No active storage servers available") state
            | some info ↦
                create_answered state' username filename info replica now memory
                  (contact info command_forward (create_payload filename username))
          ]
    ]

-- The loop of DELETE over the servers of the file: those that are registered.
unfoldable pub delete_targets : List StorageServerInfo → List Bytes → List StorageServerInfo
unfolding find_storage_server
delete_targets servers [] = []
delete_targets servers (id ∷ ids) = elim (find_storage_server servers id) [
  | none ↦ delete_targets servers ids
  | some info ↦ info ∷ delete_targets servers ids
]

-- The servers that DELETE asks to delete the file; what they answer has no effect here.
unfoldable pub delete_requests : NmState → Bytes → Bytes → List StorageServerInfo
unfolding file_index_lookup found_record delete_targets
delete_requests state username filename = elim (found_record state filename) [
  | none ↦ []
  | some found ↦
      if str_eq found.1.owner username then delete_targets state.servers found.1.ss_ids else []
]

abbrev pub unlink_at : Option Bytes → NmState → NmState
unlink_at none state = state
unlink_at (some path) state = record state { disk = unlink state.disk path }

-- DELETE
unfoldable pub delete_file : NmState → Bytes → Bytes → Outcome
unfolding file_index_lookup file_index_remove ns_acl_path ns_requests_path
delete_file state username filename =
    with_owned state username filename (codes "Only owner can delete") (λ p r.
      let removed = record state { file_index = (file_index_remove state.file_index filename).0 } in
      (
        respond command_status (ok_text (codes "File deleted")),
        unlink_at (ns_requests_path path_max (some state.data_dir) (some filename)) (
            unlink_at (ns_acl_path path_max (some state.data_dir) (some filename))
              (invalidated removed filename)),
      ))
