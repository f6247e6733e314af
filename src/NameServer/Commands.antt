-- ===== src/NameServer/Commands.antt =====
-- handle_command_forward: its frame, and the commands on the access to a file. Each command is a
-- function of the state, the user, the name of the file and the payload. Where the source follows a
-- pointer of the index, the record is taken from the heap of the index.
pub mod Storage
pub mod Ownership
pub mod Grants
use network_file_storage.Prelude.{
  ℕ, ◌+◌, Bytes, codes, Bool, true, false, ◌&&◌, ◌||◌, not, if◌then◌else◌, List, [], ◌∷◌, ◌++◌,
  Option, none, some, ◌>>=◌, ◌==◌, take, str_eq, strstr, Memory,
}
use network_file_storage.Protocol.{
  ErrorCode, command_status, protocol, file_not_found, not_owner, unregistered_user, duplicate,
  execution_fail, no_request, no_access,
}
use network_file_storage.Json.{json_get_string}
use network_file_storage.FileIndex.{
  AclEntry, FileRecord, FileIndex, Status, ok, error, file_index_lookup, record_at, update,
}
use network_file_storage.FileIndex.Acl.{
  file_record_add_acl, file_record_remove_acl, file_record_check_access, file_record_find_acl,
}
use network_file_storage.FileIndex.Cache.{lru_cache_invalidate}
use network_file_storage.NameServer.{NmState, Reply, respond, send_error, ok_text, find_client}
use network_file_storage.NameServer.Files.{persist_acl_file}
use network_file_storage.NameServer.Lookup.{field_or, contains}
use network_file_storage.NameServer.Requests.{
  AccessRequest, parse_access_mode, mode_text, find_request_index, find_request_by_user,
  put_request, remove_request_at, load_access_requests, save_access_requests,
}

-- What a command answers, and the state behind it.
abbrev pub Outcome : Type 0
Outcome = List Reply × NmState

abbrev pub fail : ErrorCode → Bytes → NmState → Outcome
fail code message state = (send_error code message, state)

abbrev pub is_null : Bytes → Bool
is_null [] = true
is_null (c ∷ s) = false

-- The record of a file, with its place on the heap.
unfoldable pub found_record : NmState → Bytes → Option (ℕ × FileRecord)
unfolding file_index_lookup
found_record state filename = file_index_lookup state.file_index filename >>= λ p.
    record_at state.file_index (some p) >>= λ r. some (p, r)

-- A record is changed in its place.
abbrev pub store_record : NmState → ℕ → FileRecord → NmState
store_record state p r = record state {
  file_index = record state.file_index { heap = update state.file_index.heap p (some r) };
}

-- lru_cache_invalidate(state->cache, filename)
abbrev pub invalidated : NmState → Bytes → NmState
unfolding lru_cache_invalidate
invalidated state filename = record state { cache = lru_cache_invalidate state.cache filename }

-- The checks that the commands of an owner share: the file is there, and the user owns it.
abbrev pub with_owned : NmState → Bytes → Bytes → Bytes → (ℕ → FileRecord → Outcome) → Outcome
with_owned state username filename message act = elim (found_record state filename) [
  | none ↦ fail file_not_found (codes "File not found") state
  | some found ↦
      if str_eq found.1.owner username then act found.0 found.1 else fail not_owner message state
]

-- A field that a command requires.
abbrev pub with_target : NmState → Option Bytes → (Bytes → Outcome) → Outcome
unfolding json_get_string
with_target state payload act = elim (json_get_string payload (codes "target_user") 128) [
  | none ↦ fail protocol (codes "Missing target_user") state
  | some target_user ↦ act target_user
]

-- strstr(payload, "\"mode\"") and strstr(mode, "write")
abbrev pub wants_write : Option Bytes → ℕ
unfolding strstr
wants_write none = 0
wants_write (some payload) = elim (strstr payload (codes "\"mode\"")) [
  | none ↦ 0
  | some mode ↦ if contains mode (codes "write") then 1 else 0
]

-- ADDACCESS. The result of file_record_add_acl is not looked at; `beyond` is what memory holds behind
-- a name of 127 bytes.
unfoldable pub add_access : NmState → Bytes → Bytes → Option Bytes → Bytes → Memory → Outcome
unfolding file_index_lookup json_get_string find_client file_record_add_acl persist_acl_file
    lru_cache_invalidate strstr
add_access state username filename payload beyond memory =
    with_owned state username filename (codes "Only owner can modify access") (λ p r.
      with_target state payload (λ target_user. elim (find_client state.clients target_user) [
        | none ↦ fail unregistered_user (codes "User not registered") state
        | some c ↦
            let (r', status, m) =
              file_record_add_acl r target_user 1 (wants_write payload) beyond memory in
            let state' = invalidated (store_record state p r') filename in
            (respond command_status (ok_text (codes "Access granted")), persist_acl_file state' r')
      ]))

-- REMACCESS
unfoldable pub remove_access : NmState → Bytes → Bytes → Option Bytes → Outcome
unfolding file_index_lookup json_get_string file_record_remove_acl persist_acl_file
    lru_cache_invalidate
remove_access state username filename payload =
    with_owned state username filename (codes "Only owner can modify access") (λ p r.
      with_target state payload (λ target_user.
        let (r', status) = file_record_remove_acl r target_user in
        let state' = invalidated (store_record state p r') filename in
        (respond command_status (ok_text (codes "Access removed")), persist_acl_file state' r')))

-- The field "mode" as a flag; none is the result -1.
unfoldable pub mode_of : Option Bytes → Option ℕ
unfolding json_get_string parse_access_mode
mode_of payload = parse_access_mode (field_or payload (codes "mode") 16 [])

abbrev pub pending_text : ℕ → Bytes
pending_text can_write =
    codes "{\"status\":\"pending\",\"mode\":\"" ++ (mode_text can_write ++ codes "\"}")

-- The part of REQUESTACCESS behind its checks.
unfoldable pub queue_request : NmState → Bytes → Bytes → ℕ → ℕ → Outcome
unfolding load_access_requests save_access_requests find_request_by_user put_request
queue_request state username filename can_write now = elim (load_access_requests state filename) [
  | none ↦ fail execution_fail (codes "Failed to load existing requests") state
  | some requests ↦
      let entry : AccessRequest = record {
        username = take 127 username;
        can_write = can_write;
        requested_at = now;
      } in
      let (saved, state') =
        save_access_requests state filename
          (put_request requests (find_request_by_user requests username) entry) in
      if saved
      then (respond command_status (pending_text can_write), state')
      else fail execution_fail (codes "Failed to store request") state'
]

-- REQUESTACCESS
unfoldable pub request_access : NmState → Bytes → Bytes → Option Bytes → ℕ → Outcome
unfolding file_index_lookup json_get_string parse_access_mode file_record_check_access queue_request
request_access state username filename payload now =
    if is_null filename
    then fail protocol (codes "Missing filename") state
    else elim (found_record state filename) [
      | none ↦ fail file_not_found (codes "File not found") state
      | some found ↦
          if str_eq found.1.owner username
          then fail duplicate (codes "You already own this file") state
          else elim (mode_of payload) [
            | none ↦ fail protocol (codes "Mode must be 'read' or 'write'") state
            | some can_write ↦
                if file_record_check_access found.1 username can_write == 0
                then queue_request state username filename can_write now
                else fail duplicate
                    (if can_write == 0
                      then codes "You already have access"
                      else codes "You already have write access")
                    state
          ]
    ]

-- The answer to a decision of the owner, in a buffer of 256 bytes.
abbrev pub decided_text : Bytes → Bytes → ℕ → Bytes
decided_text status target_user can_write = take 255 (
    codes "{\"status\":\""
    ++ (status
        ++ (codes "\",\"user\":\""
            ++ (target_user ++ (codes "\",\"mode\":\"" ++ (mode_text can_write ++ codes "\"}"))))))

-- The end of both decisions: the request is taken out of the list.
unfoldable pub settle_request :
    NmState → Bytes → List AccessRequest → ℕ → Bytes → Bytes → ℕ → Outcome
unfolding save_access_requests remove_request_at
settle_request state filename requests i status target_user can_write =
    let (saved, state') = save_access_requests state filename (remove_request_at requests i) in
    if saved
    then (respond command_status (decided_text status target_user can_write), state')
    else fail execution_fail (codes "Failed to persist updated requests") state'

-- The checks that both decisions share; `act` gets the record, the requests and the place of the one
-- that is decided.
abbrev pub with_request :
    NmState
    → Bytes
    → Bytes
    → Option Bytes
    → Bytes
    → (ℕ → FileRecord → List AccessRequest → ℕ → Bytes → ℕ → Outcome)
    → Outcome
unfolding file_index_lookup json_get_string parse_access_mode load_access_requests
    find_request_index
with_request state username filename payload message act =
    if is_null filename
    then fail protocol (codes "Missing filename") state
    else with_target state payload (λ target_user. elim (mode_of payload) [
      | none ↦ fail protocol (codes "Mode must be 'read' or 'write'") state
      | some can_write ↦ with_owned state username filename message (λ p r.
          elim (load_access_requests state filename) [
            | none ↦ fail execution_fail (codes "Failed to load requests") state
            | some requests ↦ elim (find_request_index requests target_user can_write) [
              | none ↦ fail no_request (codes "No matching request found") state
              | some i ↦ act p r requests i target_user can_write
            ]
          ])
    ])

-- APPROVEREQUEST: the access, and then the request.
unfoldable pub grant_request :
    NmState → Bytes → ℕ → FileRecord → List AccessRequest → ℕ → Bytes → ℕ → Bytes → Memory → Outcome
unfolding file_record_add_acl persist_acl_file lru_cache_invalidate settle_request
grant_request state filename p r requests i target_user can_write beyond memory =
    let (r', status, m) = file_record_add_acl r target_user 1 can_write beyond memory in
    elim status [
      | error e ↦ fail execution_fail (codes "Failed to update ACL") (store_record state p r')
      | ok ↦
          let state' = invalidated (persist_acl_file (store_record state p r') r') filename in
          settle_request state' filename requests i (codes "approved") target_user can_write
    ]

unfoldable pub approve_request : NmState → Bytes → Bytes → Option Bytes → Bytes → Memory → Outcome
unfolding file_index_lookup json_get_string parse_access_mode load_access_requests
    find_request_index grant_request
approve_request state username filename payload beyond memory =
    with_request state username filename payload (codes "Only the owner can approve requests")
      (λ p r requests i target_user can_write.
        grant_request state filename p r requests i target_user can_write beyond memory)

-- DENYREQUEST
unfoldable pub deny_request : NmState → Bytes → Bytes → Option Bytes → Outcome
unfolding file_index_lookup json_get_string parse_access_mode load_access_requests
    find_request_index settle_request
deny_request state username filename payload =
    with_request state username filename payload (codes "Only the owner can deny requests")
      (λ p r requests i target_user can_write.
        settle_request state filename requests i (codes "denied") target_user can_write)

-- A line of ACLINFO.
abbrev pub perms : AclEntry → Bytes
perms e =
    if e.can_read == 0
    then if e.can_write == 0 then codes "-" else codes "W"
    else if e.can_write == 0
    then codes "R"
    else codes "RW"

unfoldable pub acl_info : List AclEntry → Bytes
acl_info [] = []
acl_info (e ∷ acl) = e.username ++ (codes " (" ++ (perms e ++ (codes ")\n" ++ acl_info acl)))

-- The user owns the file or stands in its list with a right.
abbrev pub may_see : FileRecord → Bytes → Bool
unfolding file_record_find_acl
may_see r username = str_eq r.owner username || elim (file_record_find_acl r username) [
  | none ↦ false
  | some e ↦ not (e.can_read == 0) || not (e.can_write == 0)
]

-- ACLINFO. The text is cut to the buffer of 2048 bytes.
unfoldable pub show_acl : NmState → Bytes → Bytes → Outcome
unfolding file_index_lookup file_record_find_acl acl_info
show_acl state username filename =
    if is_null filename
    then fail protocol (codes "Missing filename") state
    else elim (found_record state filename) [
      | none ↦ fail file_not_found (codes "File not found") state
      | some found ↦
          if may_see found.1 username
          then (
            respond command_status
                (take 2047 (found.1.owner ++ (codes " (RW)\n" ++ acl_info found.1.acl))),
            state,
          )
          else fail no_access (codes "Access denied") state
    ]
