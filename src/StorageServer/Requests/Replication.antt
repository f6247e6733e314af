-- ===== src/StorageServer/Requests/Replication.antt =====
-- handle_replicate_request: the content of a file comes from another storage server.
pub mod Copies
use network_file_storage.Prelude.{
  ℕ, ◌-◌, Bytes, codes, Bool, true, false, if◌then◌else◌, List, [], ◌∷◌, ◌++◌, Option, none, some,
  ◌==◌, take, drop, strstr,
}
use network_file_storage.Protocol.{opcode_value, data_response, command_status, error}
use network_file_storage.Json.Plain.{json_get_string, string_or}
use network_file_storage.Storage.{StorageResult, storage_ok}
use network_file_storage.Storage.Checkpoints.{storage_engine_import}
use network_file_storage.StorageServer.{ServerState, Answer, answer}
use network_file_storage.StorageServer.Requests.{filename_of}

-- How the other storage server can answer: the connection fails, the request cannot be sent, no
-- message comes back, or one does.
pub data Source : Type 0 where
  unreachable unsent silent : Source
  responded : ℕ → Bytes → Source

-- {"filename":"…"}, in a buffer of 512 bytes.
abbrev pub request_text : Bytes → Bytes
request_text filename = take 511 (codes "{\"filename\":\"" ++ (filename ++ codes "\"}"))

-- strrchr: the bytes before the last place of a byte.
unfoldable pub before_last : ℕ → Bytes → Option Bytes
before_last b [] = none
before_last b (c ∷ s) = elim (before_last b s) [
  | none ↦ if c == b then some [] else none
  | some t ↦ some (c ∷ t)
]

-- The bytes between "content":" and the last quote: a failure has its text.
abbrev pub fault : Bytes → List Answer
fault message = answer error (codes "{\"error\":\"" ++ (message ++ codes "\"}"))

abbrev pub import_answer : StorageResult → List Answer
import_answer storage_ok = answer command_status (codes "{\"status\":\"replicated\"}")
import_answer _ = fault (codes "Import failed")

-- What is done with the message that came back.
unfoldable pub import_response : ServerState → Bytes → ℕ → Bytes → ℕ → List Answer × ServerState
unfolding strstr before_last storage_engine_import
import_response s filename opcode response now =
    if opcode == opcode_value data_response
    then (elim (strstr response (codes "\"content\":\"")) [
      | none ↦ (fault (codes "No content in response"), s)
      | some p ↦ elim (before_last b'"' (drop 11 p)) [
        | none ↦ (fault (codes "Invalid JSON format"), s)
        | some content ↦
            let (rc, e) = storage_engine_import s.engine (some filename) (some content) now in
            (import_answer rc, record s { engine = e })
      ]
    ])
    else (fault (codes "Source returned error"), s)

-- `source` is what the other server makes of the request that it is sent.
unfoldable pub handle_replicate_request :
    ServerState → Bytes → (Bytes → Source) → ℕ → List Answer × ServerState
unfolding json_get_string import_response
handle_replicate_request s payload source now =
    let filename = filename_of payload in
    elim (source (request_text filename)) [
      | unreachable ↦ (fault (codes "Failed to connect to source SS"), s)
      | unsent ↦ (fault (codes "Failed to send data request"), s)
      | silent ↦ (fault (codes "Failed to receive data response"), s)
      | responded opcode response ↦ import_response s filename opcode response now
    ]
