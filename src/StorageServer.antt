-- ===== src/StorageServer.antt =====
-- The storage server of storage_server/src/main.c: its state, the list of locked sentences, and the
-- texts of its answers. A handler returns the messages that it sends to the client.
pub mod Sentences
pub mod Requests
pub mod WriteRequest
pub mod Locks
pub mod Sessions
pub mod Release
mod Tests
use network_file_storage.Prelude.{
  ℕ, ◌+◌, ◌-◌, ◌%◌, ◌^◌, Bytes, codes, Bool, true, false, ◌&&◌, ◌||◌, if◌then◌else◌, List, [], ◌∷◌,
  ◌++◌, Option, none, some, ◌==◌, take, str_eq, decimal,
}
use network_file_storage.Protocol.{Opcode, error}
use network_file_storage.Storage.{
  StorageResult, storage_ok, err_not_found, err_invalid, err_locked, err_io, err_exists,
  out_of_bounds, use_after_free, StorageEngine,
}

-- The program's sentence_lock_t: an entry of the list of locked sentences.
pub record LockedSentence : Type 0 where
  pub filename : Bytes
  pub sentence_idx : ℕ
  pub file_version : ℕ

-- ss_state_t, as far as the handlers use it.
pub record ServerState : Type 0 where
  pub engine : StorageEngine
  pub active_readers : ℕ
  pub active_writers : ℕ
  pub locked_sentences : List LockedSentence

-- A message that is sent.
pub record Answer : Type 0 where
  pub opcode : Opcode
  pub payload : Bytes

-- unsigned int counters, one up and one down.
abbrev pub count_up : ℕ → ℕ
count_up n = (n + 1) % 2 ^ 32

abbrev pub count_down : ℕ → ℕ
count_down n = (n + 2 ^ 32 - 1) % 2 ^ 32

-- The test of the loops over the list.
abbrev pub is_lock : Bytes → ℕ → LockedSentence → Bool
is_lock filename sentence_idx l = str_eq l.filename filename && l.sentence_idx == sentence_idx

unfoldable pub is_sentence_locked : List LockedSentence → Bytes → ℕ → Bool
is_sentence_locked [] filename sentence_idx = false
is_sentence_locked (l ∷ locks) filename sentence_idx =
    is_lock filename sentence_idx l || is_sentence_locked locks filename sentence_idx

-- add_sentence_lock, when malloc succeeds.
unfoldable pub add_sentence_lock : List LockedSentence → Bytes → ℕ → ℕ → List LockedSentence
add_sentence_lock locks filename sentence_idx file_version =
    record {
      filename = take 255 filename;
      sentence_idx = sentence_idx;
      file_version = file_version;
    }
    ∷ locks

unfoldable pub remove_sentence_lock : List LockedSentence → Bytes → ℕ → List LockedSentence
remove_sentence_lock [] filename sentence_idx = []
remove_sentence_lock (l ∷ locks) filename sentence_idx =
    if is_lock filename sentence_idx l
    then locks
    else l ∷ remove_sentence_lock locks filename sentence_idx

-- get_locked_sentence_version; none is the return value -1.
unfoldable pub get_locked_sentence_version : List LockedSentence → Bytes → ℕ → Option ℕ
get_locked_sentence_version [] filename sentence_idx = none
get_locked_sentence_version (l ∷ locks) filename sentence_idx =
    if is_lock filename sentence_idx l
    then some l.file_version
    else get_locked_sentence_version locks filename sentence_idx

-- %d of a result of the storage engine.
abbrev pub result_text : StorageResult → Bytes
result_text storage_ok = codes "0"
result_text err_not_found = codes "-1"
result_text err_invalid = codes "-2"
result_text err_locked = codes "-3"
result_text err_io = codes "-4"
result_text err_exists = codes "-5"
result_text out_of_bounds = []
result_text use_after_free = []

-- {"error":"…","code":…}, in a buffer of 256 bytes.
abbrev pub error_text : Bytes → Bytes → Bytes
error_text message code =
    take 255 (codes "{\"error\":\"" ++ (message ++ (codes "\",\"code\":" ++ (code ++ codes "}"))))

-- An OP_ERROR message with the result of the engine, and the list of one message.
abbrev pub refuse : Bytes → Bytes → List Answer
refuse message code = record { opcode = error; payload = error_text message code } ∷ []

abbrev pub answer : Opcode → Bytes → List Answer
answer opcode payload = record { opcode = opcode; payload = payload } ∷ []
