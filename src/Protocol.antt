-- ===== src/Protocol.antt =====
-- The opcodes and error codes of the wire protocol (common/include/protocol.h) and the functions that
-- name them (common/src/protocol.c). A `switch` over an enumeration is a search in the list of its
-- cases, in their order. The header is in the child module `Header`.
pub mod Header
pub mod Names
mod Tests
use network_file_storage.Prelude.{ℕ, String, List, [], ◌∷◌, ◌==◌, if◌then◌else◌}

-- protocol_opcode_t
pub data Opcode : Type 0 where
  register_ss register_client register_ack heartbeat lookup_file lookup_resp command_forward
        command_status data_request data_response data_chunk data_ack write_request write_update
        write_commit write_ack stream_request info_request undo_request delete_request
        createfolder_request move_request viewfolder_request viewfolder_response checkpoint_request
        viewcheckpoint_request revert_checkpoint_request listcheckpoints_request
        listcheckpoints_response replicate_file list_folders_request list_folders_response stop
        error :
      Opcode

unfoldable pub opcode_value : Opcode → ℕ
opcode_value register_ss = 1
opcode_value register_client = 2
opcode_value register_ack = 32769
opcode_value heartbeat = 3
opcode_value lookup_file = 4
opcode_value lookup_resp = 32772
opcode_value command_forward = 5
opcode_value command_status = 32773
opcode_value data_request = 6
opcode_value data_response = 32775
opcode_value data_chunk = 32774
opcode_value data_ack = 7
opcode_value write_request = 8
opcode_value write_update = 9
opcode_value write_commit = 10
opcode_value write_ack = 32778
opcode_value stream_request = 11
opcode_value info_request = 12
opcode_value undo_request = 13
opcode_value delete_request = 14
opcode_value createfolder_request = 15
opcode_value move_request = 16
opcode_value viewfolder_request = 17
opcode_value viewfolder_response = 32785
opcode_value checkpoint_request = 18
opcode_value viewcheckpoint_request = 19
opcode_value revert_checkpoint_request = 20
opcode_value listcheckpoints_request = 21
opcode_value listcheckpoints_response = 32789
opcode_value replicate_file = 22
opcode_value list_folders_request = 23
opcode_value list_folders_response = 32791
opcode_value stop = 32767
opcode_value error = 65535

-- protocol_error_t
pub data ErrorCode : Type 0 where
  ok no_access file_not_found sentence_locked invalid_sentence invalid_word duplicate not_owner
        unregistered_user storage_down undo_empty execution_fail protocol folder_exists not_a_folder
        folder_not_empty checkpoint_exists checkpoint_not_found request_exists no_request :
      ErrorCode

unfoldable pub error_value : ErrorCode → ℕ
error_value ok = 0
error_value no_access = 1
error_value file_not_found = 2
error_value sentence_locked = 3
error_value invalid_sentence = 4
error_value invalid_word = 5
error_value duplicate = 6
error_value not_owner = 7
error_value unregistered_user = 8
error_value storage_down = 9
error_value undo_empty = 10
error_value execution_fail = 11
error_value protocol = 12
error_value folder_exists = 13
error_value not_a_folder = 14
error_value folder_not_empty = 15
error_value checkpoint_exists = 16
error_value checkpoint_not_found = 17
error_value request_exists = 18
error_value no_request = 19

-- switch (value) { case k: return name; ... } return fallback;
unfoldable pub switch : ℕ → List (ℕ × String) → String → String
switch value [] fallback = fallback
switch value ((key, name) ∷ cases) fallback =
    if value == key then name else switch value cases fallback

unfoldable pub opcode_cases : List (ℕ × String)
unfolding opcode_value
opcode_cases =
    (opcode_value register_ss, "OP_REGISTER_SS")
    ∷ (opcode_value register_client, "OP_REGISTER_CLIENT")
    ∷ (opcode_value register_ack, "OP_REGISTER_ACK")
    ∷ (opcode_value heartbeat, "OP_HEARTBEAT")
    ∷ (opcode_value lookup_file, "OP_LOOKUP_FILE")
    ∷ (opcode_value lookup_resp, "OP_LOOKUP_RESP")
    ∷ (opcode_value command_forward, "OP_COMMAND_FORWARD")
    ∷ (opcode_value command_status, "OP_COMMAND_STATUS")
    ∷ (opcode_value data_request, "OP_DATA_REQUEST")
    ∷ (opcode_value data_response, "OP_DATA_RESPONSE")
    ∷ (opcode_value data_chunk, "OP_DATA_CHUNK")
    ∷ (opcode_value data_ack, "OP_DATA_ACK")
    ∷ (opcode_value write_request, "OP_WRITE_REQUEST")
    ∷ (opcode_value write_update, "OP_WRITE_UPDATE")
    ∷ (opcode_value write_commit, "OP_WRITE_COMMIT")
    ∷ (opcode_value write_ack, "OP_WRITE_ACK")
    ∷ (opcode_value stream_request, "OP_STREAM_REQUEST")
    ∷ (opcode_value info_request, "OP_INFO_REQUEST")
    ∷ (opcode_value undo_request, "OP_UNDO_REQUEST")
    ∷ (opcode_value delete_request, "OP_DELETE_REQUEST")
    ∷ (opcode_value createfolder_request, "OP_CREATEFOLDER_REQUEST")
    ∷ (opcode_value move_request, "OP_MOVE_REQUEST")
    ∷ (opcode_value viewfolder_request, "OP_VIEWFOLDER_REQUEST")
    ∷ (opcode_value viewfolder_response, "OP_VIEWFOLDER_RESPONSE")
    ∷ (opcode_value checkpoint_request, "OP_CHECKPOINT_REQUEST")
    ∷ (opcode_value viewcheckpoint_request, "OP_VIEWCHECKPOINT_REQUEST")
    ∷ (opcode_value revert_checkpoint_request, "OP_REVERT_CHECKPOINT_REQUEST")
    ∷ (opcode_value listcheckpoints_request, "OP_LISTCHECKPOINTS_REQUEST")
    ∷ (opcode_value listcheckpoints_response, "OP_LISTCHECKPOINTS_RESPONSE")
    ∷ (opcode_value replicate_file, "OP_REPLICATE_FILE")
    ∷ (opcode_value list_folders_request, "OP_LIST_FOLDERS_REQUEST")
    ∷ (opcode_value list_folders_response, "OP_LIST_FOLDERS_RESPONSE")
    ∷ (opcode_value stop, "OP_STOP")
    ∷ (opcode_value error, "OP_ERROR")
    ∷ []

unfoldable pub protocol_opcode_name : ℕ → String
unfolding switch opcode_cases
protocol_opcode_name value = switch value opcode_cases "OP_UNKNOWN"

unfoldable pub error_cases : List (ℕ × String)
unfolding error_value
error_cases =
    (error_value ok, "ERR_OK")
    ∷ (error_value no_access, "ERR_NO_ACCESS")
    ∷ (error_value file_not_found, "ERR_FILE_NOT_FOUND")
    ∷ (error_value sentence_locked, "ERR_SENTENCE_LOCKED")
    ∷ (error_value invalid_sentence, "ERR_INVALID_SENTENCE")
    ∷ (error_value invalid_word, "ERR_INVALID_WORD")
    ∷ (error_value duplicate, "ERR_DUPLICATE")
    ∷ (error_value not_owner, "ERR_NOT_OWNER")
    ∷ (error_value unregistered_user, "ERR_UNREGISTERED_USER")
    ∷ (error_value storage_down, "ERR_STORAGE_DOWN")
    ∷ (error_value undo_empty, "ERR_UNDO_EMPTY")
    ∷ (error_value execution_fail, "ERR_EXECUTION_FAIL")
    ∷ (error_value protocol, "ERR_PROTOCOL")
    ∷ (error_value folder_exists, "ERR_FOLDER_EXISTS")
    ∷ (error_value not_a_folder, "ERR_NOT_A_FOLDER")
    ∷ (error_value folder_not_empty, "ERR_FOLDER_NOT_EMPTY")
    ∷ (error_value checkpoint_exists, "ERR_CHECKPOINT_EXISTS")
    ∷ (error_value checkpoint_not_found, "ERR_CHECKPOINT_NOT_FOUND")
    ∷ (error_value request_exists, "ERR_REQUEST_EXISTS")
    ∷ (error_value no_request, "ERR_NO_REQUEST")
    ∷ []

unfoldable pub protocol_error_name : ℕ → String
unfolding switch error_cases
protocol_error_name value = switch value error_cases "ERR_UNKNOWN"
