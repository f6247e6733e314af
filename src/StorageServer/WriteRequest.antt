-- ===== src/StorageServer/WriteRequest.antt =====
-- handle_write_request, cut where other threads can come between: the check of the sentence, the lock,
-- the answer with the sentence's words, each message of the client, the commit and the release.
use network_file_storage.Prelude.{
  ℕ, ◌+◌, ◌%◌, ◌^◌, Bytes, codes, Bool, true, false, if◌then◌else◌, List, [], ◌∷◌, ◌++◌, Option,
  none, some, ◌==◌, ltb, length, take, decimal,
}
use network_file_storage.Protocol.{opcode_value, write_commit, write_update, write_ack}
use network_file_storage.Text.{WordUpdate}
use network_file_storage.Json.Plain.{json_get_string, json_get_ulong, string_or}
use network_file_storage.Storage.{
  StorageResult, storage_ok, err_invalid, StorageEngine, find_file_locked,
}
use network_file_storage.Storage.Writing.{storage_engine_write}
use network_file_storage.Storage.Handlers.{
  storage_engine_info, storage_engine_read, storage_engine_mark_access,
  storage_engine_unlock_sentence,
}
use network_file_storage.StorageServer.{
  ServerState, Answer, count_up, count_down, is_sentence_locked, add_sentence_lock,
  remove_sentence_lock, get_locked_sentence_version, result_text, refuse, answer,
}
use network_file_storage.StorageServer.Sentences.{sentence_text, count_tokens}

-- A message of the client and the time at which it is handled.
pub record Incoming : Type 0 where
  pub opcode : ℕ
  pub payload : Bytes
  pub now : ℕ

-- The local variables of the handler.
pub record WriteSession : Type 0 where
  pub filename : Bytes
  pub sentence_idx : ℕ
  pub username : Bytes
  pub file_version : ℕ
  pub updates : List WordUpdate

-- Validate the sentence index: none where the request is answered with an error.
unfoldable pub check_write :
    ServerState → Bytes → ℕ → Option WriteSession × List Answer × ServerState
unfolding json_get_string json_get_ulong
check_write s payload now =
    let filename = string_or payload (codes "filename") 256 [] in
    let sentence_idx = json_get_ulong payload (codes "sentence") in
    let username = string_or payload (codes "username") 128 (codes "unknown") in
    let (rc, info, e) = storage_engine_info s.engine (some filename) now in
    let s' = record s { engine = e } in
    elim info [
      | none ↦ (none, refuse (codes "File not found") (result_text rc), s')
      | some i ↦
          if ltb i.sentence_count sentence_idx
          then (none, refuse (codes "Sentence index out of range") (result_text err_invalid), s')
          else (
            some (record {
              filename = filename;
              sentence_idx = sentence_idx;
              username = username;
              file_version = i.modified_at;
              updates = [];
            }),
            [],
            s',
          )
    ]

-- Lock the sentence; the answers are those of a refusal. `memory` is whether malloc succeeds.
unfoldable pub acquire_write : ServerState → WriteSession → Bool → Bool × List Answer × ServerState
unfolding is_sentence_locked add_sentence_lock
acquire_write s w memory =
    if is_sentence_locked s.locked_sentences w.filename w.sentence_idx
    then (
      false,
      refuse (codes "Sentence is already locked by another client") (result_text err_invalid),
      s,
    )
    else if memory
    then (
      true,
      [],
      record s {
        locked_sentences =
            add_sentence_lock s.locked_sentences w.filename w.sentence_idx w.file_version;
        active_writers = count_up s.active_writers;
      },
    )
    else (false, refuse (codes "Failed to acquire lock") (result_text err_invalid), s)

-- The sentence in what was read.
abbrev announced : Option Bytes → ℕ → Bytes
announced none sentence_idx = []
announced (some content) sentence_idx = sentence_text content sentence_idx

-- Read the file and answer with the number of words of the sentence.
unfoldable pub announce_write : ServerState → WriteSession → ℕ → List Answer × ServerState
unfolding sentence_text count_tokens
announce_write s w now =
    let (rc, content, e) = storage_engine_read s.engine (some w.filename) now in
    let text = announced content w.sentence_idx in
    (
      answer write_ack (
          codes "{\"status\":\"locked\",\"sentence\":"
          ++ (decimal w.sentence_idx
              ++ (codes ",\"word_count\":" ++ (decimal (count_tokens false text) ++ codes "}")))),
      record s { engine = e },
    )

-- OP_WRITE_UPDATE: an update more, as long as there is room for 256.
unfoldable pub update_write : WriteSession → Bytes → WriteSession
unfolding json_get_string json_get_ulong
update_write w payload =
    let update : WordUpdate = record {
      index = json_get_ulong payload (codes "word_index");
      text = some (string_or payload (codes "content") 512 []);
    } in
    if ltb (length w.updates) 256 then record w { updates = w.updates ++ update ∷ [] } else w

-- a > b, for the 64 bits of two times.
abbrev pub is_later : ℕ → ℕ → Bool
is_later a b = ltb ((b + 2 ^ 63) % 2 ^ 64) ((a + 2 ^ 63) % 2 ^ 64)

-- OP_WRITE_COMMIT: whether the file is as it was when the sentence was locked.
unfoldable pub check_commit : ServerState → WriteSession → ℕ → Bool × List Answer × ServerState
unfolding get_locked_sentence_version
check_commit s w now =
    elim (get_locked_sentence_version s.locked_sentences w.filename w.sentence_idx) [
      | none ↦ (true, [], s)
      | some locked_version ↦
          let (rc, info, e) = storage_engine_info s.engine (some w.filename) now in
          let s' = record s { engine = e } in
          elim info [
            | none ↦ (true, [], s')
            | some i ↦
                if is_later i.modified_at locked_version
                then (
                  false,
                  refuse (codes "File modified during edit") (result_text err_invalid),
                  s',
                )
                else (true, [], s')
          ]
    ]

-- The token that storage_engine_write leaves in a buffer of 64 bytes.
abbrev pub written_token : StorageEngine → Bytes → Bytes
written_token e filename = elim (find_file_locked filename e.files) [
  | none ↦ []
  | some found ↦ take 63 found.1.undo_token
]

abbrev pub is_ok : StorageResult → Bool
is_ok storage_ok = true
is_ok _ = false

-- OP_WRITE_COMMIT: apply the updates.
unfoldable pub apply_commit : ServerState → WriteSession → ℕ → List Answer × ServerState
unfolding find_file_locked
apply_commit s w now =
    let (rc, e) = storage_engine_write s.engine (some w.filename) w.sentence_idx w.updates now in
    let (noted, e') = storage_engine_mark_access e (some w.filename) (some w.username) now in
    if is_ok rc
    then (
      answer write_ack (
          codes "{\"status\":\"committed\",\"undo_token\":\""
          ++ (written_token e w.filename ++ codes "\"}")),
      record s { engine = e' },
    )
    else (refuse (codes "Write failed") (result_text rc), record s { engine = e })

-- Release the lock, at the end of every path behind acquire_write.
unfoldable pub release_write : ServerState → WriteSession → ℕ → ServerState
unfolding remove_sentence_lock
release_write s w now =
    let (rc, e) = storage_engine_unlock_sentence s.engine (some w.filename) w.sentence_idx now in
    record s {
      engine = e;
      locked_sentences = remove_sentence_lock s.locked_sentences w.filename w.sentence_idx;
      active_writers = count_down s.active_writers;
    }

-- Where a session is: it takes updates, its commit is checked, or it is over.
pub data Stage : Type 0 where
  collecting committing leaving : Stage

-- One round of the loop, up to the next point where other threads can come between. `none` is a
-- message that does not arrive.
unfoldable pub receive_write :
    ServerState → WriteSession → Option Incoming → Stage × WriteSession × List Answer × ServerState
unfolding update_write check_commit
receive_write s w none = (leaving, w, [], s)
receive_write s w (some m) =
    let (intact, answers, s') = check_commit s w m.now in
    if m.opcode == opcode_value write_commit
    then (if intact then committing else leaving, w, answers, s')
    else if m.opcode == opcode_value write_update
    then (collecting, update_write w m.payload, [], s)
    else (leaving, w, [], s)

-- The loop over the messages that arrive before the connection ends.
unfoldable pub write_loop :
    ServerState → WriteSession → List Incoming → List Answer × WriteSession × ServerState
unfolding receive_write apply_commit
write_loop s w [] = ([], w, s)
write_loop s w (m ∷ messages) =
    let (stage, w', answers, s') = receive_write s w (some m) in
    let (applied, s2) = apply_commit s' w' m.now in
    let rest = write_loop s' w' messages in
    elim stage [
      | leaving ↦ (answers, w', s')
      | committing ↦ (answers ++ applied, w', s2)
      | collecting ↦ rest
    ]

-- handle_write_request with no other thread at work: `now` is the time of the request, `memory`
-- whether malloc succeeds and `later` the time at the end.
unfoldable pub handle_write_request :
    ServerState → Bytes → ℕ → Bool → List Incoming → ℕ → List Answer × ServerState
unfolding check_write acquire_write announce_write write_loop release_write
handle_write_request s payload now memory messages later =
    let (admitted, refused, s1) = check_write s payload now in
    elim admitted [
      | none ↦ (refused, s1)
      | some w ↦
          let (locked, denied, s2) = acquire_write s1 w memory in
          let (acknowledged, s3) = announce_write s2 w now in
          let (answers, w', s4) = write_loop s3 w messages in
          if locked then (acknowledged ++ answers, release_write s4 w' later) else (denied, s2)
    ]
