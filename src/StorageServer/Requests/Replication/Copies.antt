-- ===== src/StorageServer/Requests/Replication/Copies.antt =====
-- A replica has the content that its source has.
use network_file_storage.Prelude.{
  if◌then◌else◌, ap, ◌∙◌, length-append, take_of_length-le, zero, suc, ◌==◌, suc, ℕ, ◌≤◌, Bytes,
  codes, [], ◌∷◌, ◌++◌, some, ◌≡◌, refl, take, drop, length, Lacks, Option-cases, inl, inr, arith,
  before_byte, strstr, starts_with, Bool-cases, true,
}
use network_file_storage.Protocol.{command_status, data_response, opcode_value}
use network_file_storage.Json.Plain.{json_get_string, string_key}
use network_file_storage.Storage.{storage_ok, StorageEngine, update_metadata_from_content}
use network_file_storage.Storage.Handlers.{storage_engine_read}
use network_file_storage.Storage.Checkpoints.{storage_engine_import}
use network_file_storage.StorageServer.{ServerState, answer}
use network_file_storage.StorageServer.Sessions.Exclusion.{string_or-le}
use network_file_storage.StorageServer.Requests.{
  json_get_string, filename_of, handle_read_request, content_text,
}
use network_file_storage.Storage.Editing.Memory.{content_of, find-store, find-get_or_load}
use network_file_storage.Storage.Loading.{get_or_load_file}
use network_file_storage.Storage.Validity.Handlers.{files-persist_both}
use network_file_storage.Storage.Handlers.{save}
use network_file_storage.StorageServer.Requests.Replication.{
  import_answer, Source, silent, responded, request_text, before_last, import_response,
  handle_replicate_request,
}

before_last-append : (s : Bytes) → before_last b'"' (s ++ codes "\"}") ≡ some s
unfolding before_last
before_last-append [] = refl
before_last-append (c ∷ s) = rw (before_last-append s, before_last) refl

before_byte-append : (s rest : Bytes) → Lacks b'"' s → before_byte b'"' (s ++ b'"' ∷ rest) ≡ some s
unfolding before_byte
before_byte-append [] rest h = ground arith
before_byte-append (c ∷ s) rest h = ground (arith, h.0, before_byte-append s rest h.1)

before_byte-Lacks : (s t : Bytes) → before_byte b'"' s ≡ some t → Lacks b'"' t
unfolding before_byte
before_byte-Lacks [] t e = cc e
before_byte-Lacks (c ∷ s) t e = elim (Bool-cases (c == b'"')) [
  | inl f ↦ elim (Option-cases (before_byte b'"' s)) [
    | inl g ↦ let same : t ≡ [] = ground (arith, e, f, g) in rw same tt
    | inr (u, g) ↦ let same : t ≡ [] = ground (arith, e, f, g) in rw same tt
  ]
  | inr f ↦ elim (Option-cases (before_byte b'"' s)) [
    | inl g ↦ absurd (ground (arith, e, f, g))
    | inr (u, g) ↦
        let same : t ≡ c ∷ u = ground (arith, e, f, g) in
        rw same (ground (arith, f), before_byte-Lacks s u g)
  ]
]

take-Lacks : (n : ℕ) (s : Bytes) → Lacks b'"' s → Lacks b'"' (take n s)
take-Lacks zero s h = tt
take-Lacks (suc n) [] h = tt
take-Lacks (suc n) (c ∷ s) h = (h.0, take-Lacks n s h.1)

filename-Lacks : (payload : Bytes) → Lacks b'"' (filename_of payload)
unfolding json_get_string
filename-Lacks payload = elim (Option-cases (strstr payload (string_key (codes "filename")))) [
  | inl e ↦ let same : filename_of payload ≡ [] = ground (arith, e) in rw same tt
  | inr (p, e) ↦
      elim (Option-cases (before_byte b'"' (drop (length (string_key (codes "filename"))) p))) [
        | inl f ↦ let same : filename_of payload ≡ [] = ground (arith, e, f) in rw same tt
        | inr (u, f) ↦
            let same : filename_of payload ≡ take 255 u = ground (arith, e, f) in
            rw same (
              take-Lacks 255 u
                (before_byte-Lacks (drop (length (string_key (codes "filename"))) p) u f))
      ]
]

-- The name in the request for a file is read as it was written.
request_text-filename :
    (filename : Bytes)
    → Lacks b'"' filename
    → length filename ≤ 255
    → filename_of (request_text filename) ≡ filename
unfolding json_get_string strstr starts_with
request_text-filename filename h n =
    let whole : request_text filename ≡ codes "{\"filename\":\"" ++ (filename ++ codes "\"}") =
      take_of_length-le 511 (codes "{\"filename\":\"" ++ (filename ++ codes "\"}"))
        (omega (arith, length-append filename (codes "\"}"))) in
    let value = before_byte-append filename (125 ∷ []) h in
    rw (whole) (ground (arith, value, take_of_length-le 255 filename n))

import-content :
    (s : ServerState) (filename content : Bytes) (now : ℕ)
    → (import_response s filename (opcode_value data_response) (content_text content) now).1.engine
      ≡ (storage_engine_import s.engine (some filename) (some content) now).1
unfolding import_response strstr starts_with opcode_value
import-content s filename content now = rw (before_last-append content) refl

-- The answer of a storage server to a read request, as the message that comes back.
abbrev pub answered_by : ServerState → ℕ → Bytes → Source
answered_by source now request = elim (handle_read_request source request now true).0 [
  | [] ↦ silent
  | a ∷ rest ↦ responded (opcode_value a.opcode) a.payload
]

read-answered :
    (source : ServerState) (request content : Bytes) (now : ℕ)
    → (storage_engine_read source.engine (some (filename_of request)) now).1 ≡ some content
    → answered_by source now request ≡ responded (opcode_value data_response) (content_text content)
unfolding handle_read_request
read-answered source request content now e =
    let r = storage_engine_read source.engine (some (filename_of request)) now in
    let answered : (handle_read_request source request now true).0
        ≡ answer data_response (content_text content) =
      ground (arith, e) in
    rw (answered, answered_by) refl

-- A content that was imported is the content of the file in memory.
imported :
    (e : StorageEngine) (name content : Bytes) (now : ℕ)
    → length name ≤ 255
    → (storage_engine_import e (some name) (some content) now).0 ≡ storage_ok
    → content_of (storage_engine_import e (some name) (some content) now).1 name ≡ some content
unfolding storage_engine_import update_metadata_from_content
imported e name content now n h =
    elim (Option-cases (get_or_load_file e name (some (codes "system")) now).0) [
      | inl m ↦ absurd (ground (arith, h, m))
      | inr ((i, f), m) ↦
          let e' = (get_or_load_file e name (some (codes "system")) now).1 in
          let g = update_metadata_from_content (record f {
            content = content;
            modified_at = now;
            last_accessed = if f.last_accessed == 0 then now else f.last_accessed;
          }) in
          let found =
            find-store name e'.files i f g
              (find-get_or_load e name (some (codes "system")) now i f n m) refl in
          ground (arith, m, found, files-persist_both (save e' i g) g)
    ]

-- The answer of the replica.
import-replicated :
    (s : ServerState) (filename content : Bytes) (now : ℕ)
    → (import_response s filename (opcode_value data_response) (content_text content) now).0
      ≡ import_answer (storage_engine_import s.engine (some filename) (some content) now).0
unfolding import_response strstr starts_with opcode_value
import-replicated s filename content now = rw (before_last-append content) refl

-- When the source reads a content under the name in a request to replicate, memory is not short
-- there, and the import of that content succeeds, the replica answers that it replicated the file,
-- its engine is the one after this import, and the content that it has for the name in memory is the
-- one the source read, whatever bytes it has.
pub replicate-source :
    (source replica : ServerState) (payload content : Bytes) (now later : ℕ)
    → (storage_engine_read source.engine (some (filename_of payload)) now).1 ≡ some content
    → (storage_engine_import replica.engine (some (filename_of payload)) (some content) later).0
      ≡ storage_ok
    → ((handle_replicate_request replica payload (answered_by source now) later).0
        ≡ answer command_status (codes "{\"status\":\"replicated\"}"))
      × ((handle_replicate_request replica payload (answered_by source now) later).1.engine
          ≡ (storage_engine_import replica.engine
              (some (filename_of payload))
              (some content)
              later).1)
      × (content_of
            (handle_replicate_request replica payload (answered_by source now) later).1.engine
            (filename_of payload)
          ≡ some content)
unfolding handle_replicate_request
replicate-source source replica payload content now later e ok =
    let name = filename_of payload in
    let short = string_or-le payload (codes "filename") in
    let kept = request_text-filename name (filename-Lacks payload) short in
    let came = read-answered source (request_text name) content now (rw (kept) e) in
    let engine : (handle_replicate_request replica payload (answered_by source now) later).1.engine
        ≡ (storage_engine_import replica.engine (some name) (some content) later).1 =
      rw (came, handle_replicate_request) (import-content replica name content later) in
    (
      rw (came, handle_replicate_request)
          (import-replicated replica name content later ∙ ap import_answer ok),
      engine,
      ap (λ (x : StorageEngine). content_of x name) engine
          ∙ imported replica.engine name content later short ok,
    )
