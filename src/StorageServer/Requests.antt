-- ===== src/StorageServer/Requests.antt =====
-- The requests of storage_server/src/main.c that one call of the storage engine answers. A payload is
-- not null, and the answers are those of send_message.
pub mod Replication
use network_file_storage.Prelude.{
  ℕ, zero, suc, ◌+◌, ◌-◌, Bytes, codes, Bool, true, false, ◌&&◌, not, if◌then◌else◌, List, [], ◌∷◌,
  ◌++◌, map, Option, none, some, length, take, decimal,
}
use network_file_storage.Protocol.{
  Opcode, error_value, error, command_status, data_request, data_response, data_chunk, ErrorCode,
  checkpoint_exists, checkpoint_not_found, file_not_found, invalid_sentence, execution_fail,
  undo_empty,
}
use network_file_storage.Text.{is_empty}
use network_file_storage.Json.Plain.{json_get_string, string_or}
use network_file_storage.Storage.{
  StorageResult, storage_ok, err_not_found, err_invalid, err_locked, err_io, err_exists,
  out_of_bounds, StorageEngine,
}
use network_file_storage.Storage.Metadata.{lld}
use network_file_storage.Storage.Handlers.{
  FileInfo, storage_engine_create_file, storage_engine_delete_file, storage_engine_info,
  storage_engine_mark_access, storage_engine_read, storage_engine_undo,
}
use network_file_storage.Storage.Checkpoints.{
  storage_engine_checkpoint, storage_engine_revert_checkpoint, storage_engine_view_checkpoint,
}
use network_file_storage.StorageServer.{
  ServerState, Answer, count_up, count_down, result_text, error_text, refuse, answer,
}
use network_file_storage.StorageServer.Sentences.{is_gap}

-- The fields of a request.
abbrev pub filename_of : Bytes → Bytes
filename_of payload = string_or payload (codes "filename") 256 []

abbrev pub username_of : Bytes → Bytes
username_of payload = string_or payload (codes "username") 128 (codes "unknown")

abbrev pub tag_of : Bytes → Bytes
tag_of payload = string_or payload (codes "tag") 128 []

-- send_error_with_code
abbrev pub send_error_with_code : Bytes → ErrorCode → List Answer
send_error_with_code message code = refuse message (decimal (error_value code))

-- {"content":"…"}, which the buffer of 100 bytes and twice the content holds.
abbrev pub content_text : Bytes → Bytes
content_text content = codes "{\"content\":\"" ++ (content ++ codes "\"}")

-- The answer with what was read.
abbrev pub read_answer :
    ServerState
    → Bytes
    → Bytes
    → StorageResult
    → Option Bytes
    → ℕ
    → Bool
    → List Answer × ServerState
read_answer s filename username rc none now memory =
    (refuse (codes "File not found or read error") (result_text rc), s)
read_answer s filename username rc (some content) now memory =
    let (noted, e) = storage_engine_mark_access s.engine (some filename) (some username) now in
    if memory
    then (answer data_response (content_text content), record s { engine = e })
    else (refuse (codes "Memory allocation failed") (result_text err_invalid), s)

-- `memory` is whether malloc succeeds.
unfoldable pub handle_read_request : ServerState → Bytes → ℕ → Bool → List Answer × ServerState
unfolding json_get_string
handle_read_request s payload now memory =
    let filename = filename_of payload in
    let (rc, content, e) = storage_engine_read s.engine (some filename) now in
    read_answer (record s { engine = e; active_readers = count_down (count_up s.active_readers) })
      filename (username_of payload) rc content now memory

-- strtok(content, " \t\n") until it is NULL; `word` is the token so far.
abbrev pub end_word : Bytes → List Bytes → List Bytes
end_word [] words = words
end_word (c ∷ word) words = (c ∷ word) ∷ words

unfoldable pub tokens : Bytes → Bytes → List Bytes
tokens word [] = end_word word []
tokens word (c ∷ s) =
    let rest = tokens (if is_gap c then [] else word ++ c ∷ []) s in
    if is_gap c then end_word word rest else rest

-- {"word":"…"}, in a buffer of 1024 bytes.
abbrev pub chunk : Bytes → Answer
chunk word = record {
  opcode = data_chunk;
  payload = take 1023 (codes "{\"word\":\"" ++ (word ++ codes "\"}"));
}

abbrev pub stream_answer :
    ServerState → Bytes → Bytes → StorageResult → Option Bytes → ℕ → List Answer × ServerState
stream_answer s filename username rc none now =
    (refuse (codes "File not found") (result_text rc), s)
stream_answer s filename username rc (some content) now =
    let (noted, e) = storage_engine_mark_access s.engine (some filename) (some username) now in
    (
      map chunk (tokens [] content) ++ answer data_response (codes "{\"status\":\"complete\"}"),
      record s { engine = e },
    )

unfoldable pub handle_stream_request : ServerState → Bytes → ℕ → List Answer × ServerState
unfolding json_get_string tokens
handle_stream_request s payload now =
    let filename = filename_of payload in
    let (rc, content, e) = storage_engine_read s.engine (some filename) now in
    let (answers, s') =
      stream_answer (record s { engine = e; active_readers = count_up s.active_readers }) filename
        (username_of payload) rc content now in
    (answers, record s' { active_readers = count_down s'.active_readers })

unfoldable pub handle_delete_request : ServerState → Bytes → List Answer × ServerState
unfolding json_get_string
handle_delete_request s payload =
    let (rc, e) = storage_engine_delete_file s.engine (some (filename_of payload)) in
    let s' = record s { engine = e } in
    elim rc [
      | storage_ok ↦ (answer data_response (codes "{\"status\":\"deleted\"}"), s')
      | other ↦ (refuse (codes "Delete failed") (result_text other), s')
    ]

-- The mark of an access, where the request names a user.
abbrev pub mark_if_named : ServerState → Bytes → Bytes → ℕ → ServerState
mark_if_named s filename username now =
    let (noted, e) = storage_engine_mark_access s.engine (some filename) (some username) now in
    if is_empty username then s else record s { engine = e }

-- {"status":"…","tag":"…"}, in a buffer of 256 bytes.
abbrev pub tag_answer : Bytes → Bytes → List Answer
tag_answer status tag = answer command_status (
    take 255
      (codes "{\"status\":\"" ++ (status ++ (codes "\",\"tag\":\"" ++ (tag ++ codes "\"}")))))

unfoldable pub handle_checkpoint_request : ServerState → Bytes → ℕ → List Answer × ServerState
unfolding json_get_string
handle_checkpoint_request s payload now =
    let filename = filename_of payload in
    let tag = tag_of payload in
    let (rc, e) = storage_engine_checkpoint s.engine (some filename) (some tag) now in
    let s' = record s { engine = e } in
    elim rc [
      | storage_ok ↦ (
        tag_answer (codes "checkpointed") tag,
        mark_if_named s' filename (string_or payload (codes "username") 128 []) now,
      )
      | err_exists ↦
          (send_error_with_code (codes "Checkpoint already exists") checkpoint_exists, s')
      | err_not_found ↦ (send_error_with_code (codes "File not found") file_not_found, s')
      | err_invalid ↦ (send_error_with_code (codes "Invalid checkpoint tag") invalid_sentence, s')
      | _ ↦ (send_error_with_code (codes "Failed to create checkpoint") execution_fail, s')
    ]

-- What is answered with the bytes of a checkpoint.
abbrev pub checkpoint_answer : StorageResult → Option Bytes → Bool → List Answer
checkpoint_answer storage_ok (some content) memory =
    if memory
    then answer data_response (content_text content)
    else send_error_with_code (codes "Out of memory") execution_fail
checkpoint_answer err_not_found content memory =
    send_error_with_code (codes "Checkpoint not found") checkpoint_not_found
checkpoint_answer rc content memory =
    send_error_with_code (codes "Failed to read checkpoint") execution_fail

unfoldable pub handle_viewcheckpoint_request :
    ServerState → Bytes → Bool → List Answer × ServerState
unfolding json_get_string
handle_viewcheckpoint_request s payload memory =
    let (rc, content, e) =
      storage_engine_view_checkpoint s.engine (some (filename_of payload))
        (some (tag_of payload)) in
    (checkpoint_answer rc content memory, record s { engine = e })

unfoldable pub handle_revertcheckpoint_request : ServerState → Bytes → ℕ → List Answer × ServerState
unfolding json_get_string
handle_revertcheckpoint_request s payload now =
    let filename = filename_of payload in
    let tag = tag_of payload in
    let (rc, e) = storage_engine_revert_checkpoint s.engine (some filename) (some tag) now in
    let s' = record s { engine = e; active_writers = count_down (count_up s.active_writers) } in
    elim rc [
      | storage_ok ↦ (
        tag_answer (codes "reverted") tag,
        mark_if_named s' filename (string_or payload (codes "username") 128 []) now,
      )
      | err_not_found ↦
          (send_error_with_code (codes "File or checkpoint not found") checkpoint_not_found, s')
      | _ ↦ (send_error_with_code (codes "Failed to revert checkpoint") execution_fail, s')
    ]

unfoldable pub handle_undo_request : ServerState → Bytes → ℕ → List Answer × ServerState
unfolding json_get_string
handle_undo_request s payload now =
    let filename = filename_of payload in
    let (rc, e) = storage_engine_undo s.engine (some filename) now in
    let s' = record s { engine = e; active_writers = count_down (count_up s.active_writers) } in
    let (noted, e') =
      storage_engine_mark_access e (some filename) (some (username_of payload)) now in
    elim rc [
      | storage_ok ↦ (
        answer data_response (codes "{\"status\":\"OK\",\"message\":\"Undo successful\"}"),
        record s' { engine = e' },
      )
      | err_invalid ↦ (send_error_with_code (codes "No undo history available") undo_empty, s')
      | other ↦ (refuse (codes "Undo failed") (result_text other), s')
    ]

-- The text of handle_info_request, in a buffer of 1024 bytes.
abbrev pub info_text : FileInfo → Bytes
unfolding lld
info_text i = take 1023 (
    codes "{\"filename\":\""
    ++ (i.filename
        ++ (codes "\",\"owner\":\""
            ++ (i.owner
                ++ (codes "\",\"word_count\":"
                    ++ (decimal i.word_count
                        ++ (codes ",\"char_count\":"
                            ++ (decimal i.char_count
                                ++ (codes ",\"sentence_count\":"
                                    ++ (decimal i.sentence_count
                                        ++ (codes ",\"created_at\":"
                                            ++ (lld i.created_at
                                                ++ (codes ",\"modified_at\":"
                                                    ++ (lld i.modified_at
                                                        ++ (codes ",\"last_accessed\":"
                                                            ++ (lld i.last_accessed
                                                            ++ (codes ",\"last_accessed_by\":\""
                                                            ++ (i.last_accessed_by
                                                            ++ codes "\"}"))))))))))))))))))

unfoldable pub handle_info_request : ServerState → Bytes → ℕ → List Answer × ServerState
unfolding json_get_string
handle_info_request s payload now =
    let (rc, info, e) = storage_engine_info s.engine (some (filename_of payload)) now in
    let s' = record s { engine = e } in
    elim info [
      | none ↦ (refuse (codes "File not found") (result_text rc), s')
      | some i ↦ (answer data_response (info_text i), s')
    ]

unfoldable pub handle_create_request : ServerState → Bytes → ℕ → List Answer × ServerState
unfolding json_get_string
handle_create_request s payload now =
    let (rc, e) =
      storage_engine_create_file s.engine (some (filename_of payload))
        (some (string_or payload (codes "owner") 256 [])) now in
    let s' = record s { engine = e } in
    elim rc [
      | storage_ok ↦ (answer command_status (codes "{\"status\":\"created\"}"), s')
      | other ↦ (refuse (codes "Failed to create file") (result_text other), s')
    ]
