-- ===== src/StorageServer/Tests.antt =====
-- The storage server at work.
use network_file_storage.Storage.Writing.{
  persist_all, edited_file, write_new_content, set_lock, write_sentence, choose_span,
  storage_engine_write,
}
use network_file_storage.Text.{
  join_words, apply_update, update_loop, apply_updates, normalise_inline_whitespace, split_from,
  tokenize_words, scan_spans, count_from, compute_spans, count_words,
}
use network_file_storage.Storage.Metadata.{lld, metadata_text, load_metadata}
use network_file_storage.Storage.Loading.{
  persist_undo, load_file_from_disk, get_or_load_file, build_paths, persist_metadata,
  persist_content,
}
use network_file_storage.Persistence.{ss_root_path, ss_undo_path, ss_metadata_path, ss_file_path}
use network_file_storage.Json.Plain.{json_get_string}
use network_file_storage.Storage.Handlers.{storage_engine_info}
use network_file_storage.Prelude.{
  padded, false, strtoull, strstr, starts_with, skip_space, before_byte, after_byte, digits,
  decimal, c_str, read_digits, ℕ, Bytes, codes, none, some, ◌≡◌, refl, List, [], ◌∷◌, true, str_eq,
  arith,
}
use network_file_storage.Storage.{
  generate_undo_token, store_at, free_locks, find_file_locked, ensure_sentence_capacity, doubled,
  allocate_file, update_metadata_from_content, StorageEngine, StorageFile,
}
use network_file_storage.StorageServer.{
  ServerState, is_sentence_locked, add_sentence_lock, get_locked_sentence_version,
}
use network_file_storage.StorageServer.WriteRequest.{
  WriteSession, check_write, acquire_write, handle_write_request, Incoming, collecting,
}
use network_file_storage.StorageServer.Sessions.{
  Holder, World, acquire, Reachable, started, stepped, admit, lock,
}
use network_file_storage.StorageServer.Sessions.Safety.{mutual_exclusion, holder-own_version}
use network_file_storage.Disk.{
  replace_file, rename_temp, remove, lookup, insert, fill_temp, ensure_parent_dir, ensure_dir_fuel,
  attempt, mkdir, ensure_dir, parent, atomic_write, read_file_if_exists, Disk, dir,
}
use network_file_storage.Protocol.{opcode_value, command_status}
use network_file_storage.Storage.{storage_ok}
use network_file_storage.Storage.Handlers.{storage_engine_read}
use network_file_storage.Storage.Checkpoints.{storage_engine_import}
use network_file_storage.Storage.Editing.Memory.{content_of}
use network_file_storage.StorageServer.{answer}
use network_file_storage.StorageServer.Requests.{filename_of}
use network_file_storage.StorageServer.Requests.Replication.{handle_replicate_request}
use network_file_storage.StorageServer.Requests.Replication.Copies.{answered_by, replicate-source}
use network_file_storage.StorageServer.Release.{write_request-releases, Sound, SoundRequest}

-- An engine that has one file in memory.
abbrev file : StorageFile
file = record {
  filename = codes "a.txt";
  owner = codes "ann";
  content = codes "One two. Three!";
  undo_snapshot = none;
  undo_token = [];
  created_at = 5;
  modified_at = 7;
  last_accessed = 7;
  last_accessed_by = [];
  word_count = 3;
  char_count = 15;
  sentence_count = 2;
  locks = [];
}

abbrev engine : StorageEngine
engine = record {
  root_path = codes "d";
  ss_id = codes "s";
  files = file ∷ [];
  undo_seq = 0;
  disk = record { nodes = []; answers = []; suffix = codes "k3" };
  moves = λ n. false;
}

abbrev server : ServerState
server = record { engine = engine; active_readers = 0; active_writers = 0; locked_sentences = [] }

abbrev first : Bytes
first = codes "{\"filename\":\"a.txt\",\"sentence\":0,\"username\":\"bob\"}"

abbrev second : Bytes
second = codes "{\"filename\":\"a.txt\",\"sentence\":1,\"username\":\"eve\"}"

abbrev session : ℕ → Bytes → WriteSession
session i user = record {
  filename = codes "a.txt";
  sentence_idx = i;
  username = user;
  file_version = 7;
  updates = [];
}

first_run : check_write server first 20 ≡ (some (session 0 (codes "bob")), [], server)
unfolding check_write storage_engine_info str_eq read_digits
first_run = refl

second_run :
    (s : ServerState)
    → s.engine ≡ engine
    → (check_write s second 21).0 ≡ some (session 1 (codes "eve"))
unfolding check_write storage_engine_info str_eq read_digits
second_run s e = rw e refl

-- Two clients on two sentences of one file.
abbrev opened : World
opened = record { server = server; admitted = []; holding = [] }

abbrev one_admitted : World
one_admitted = record opened {
  server = (check_write server first 20).2;
  admitted = session 0 (codes "bob") ∷ [];
}

abbrev one_holding : World
one_holding = acquire one_admitted [] (session 0 (codes "bob")) true

abbrev two_admitted : World
two_admitted = record one_holding {
  server = (check_write one_holding.server second 21).2;
  admitted = session 1 (codes "eve") ∷ one_holding.admitted;
}

abbrev two_holding : World
two_holding = acquire two_admitted one_holding.admitted (session 1 (codes "eve")) true

two_holding-Reachable : Reachable two_holding
unfolding acquire acquire_write check_write storage_engine_info str_eq read_digits
    is_sentence_locked
two_holding-Reachable =
    let start : Reachable opened = started engine refl in
    let admitted : Reachable one_admitted =
      stepped start (admit first 20 (session 0 (codes "bob")) refl refl) in
    let held : Reachable one_holding =
      stepped admitted (lock [] [] (session 0 (codes "bob")) true refl refl) in
    let admitted_too : Reachable two_admitted =
      stepped held (admit second 21 (session 1 (codes "eve")) refl refl) in
    stepped admitted_too (lock [] [] (session 1 (codes "eve")) true refl refl)

abbrev eve : Holder
eve = record { session = session 1 (codes "eve"); stage = collecting }

abbrev bob : Holder
bob = record { session = session 0 (codes "bob"); stage = collecting }

holding_run : two_holding.holding ≡ eve ∷ bob ∷ []
unfolding acquire acquire_write check_write storage_engine_info str_eq read_digits
    is_sentence_locked
holding_run = refl

locked_run : is_sentence_locked two_holding.server.locked_sentences (codes "a.txt") 1 ≡ true
unfolding acquire acquire_write check_write storage_engine_info str_eq read_digits
    is_sentence_locked add_sentence_lock
locked_run = refl

mutual_exclusion_example : ◌≡◌ {A = ℕ} 1 1
mutual_exclusion_example =
    mutual_exclusion two_holding 1 1 bob bob two_holding-Reachable (rw holding_run refl)
      (rw holding_run refl) refl refl

holder-own_version_example :
    get_locked_sentence_version two_holding.server.locked_sentences (codes "a.txt") 0 ≡ some 7
holder-own_version_example =
    holder-own_version two_holding 1 bob two_holding-Reachable (rw holding_run refl)

abbrev edits : List Incoming
edits =
    record { opcode = 9; payload = codes "{\"word_index\":1,\"content\":\"and\"}"; now = 22 }
    ∷ record { opcode = 10; payload = []; now = 23 }
    ∷ []

edits_sound : SoundRequest server first 20 true edits
unfolding SoundRequest Sound storage_engine_info str_eq read_digits opcode_value storage_engine_read
    decimal get_or_load_file find_file_locked load_file_from_disk allocate_file build_paths
    ss_file_path ss_metadata_path ss_undo_path read_file_if_exists load_metadata
    update_metadata_from_content ensure_sentence_capacity doubled free_locks compute_spans
    scan_spans count_words count_from c_str store_at persist_content persist_metadata persist_undo
    atomic_write ensure_parent_dir replace_file fill_temp rename_temp remove metadata_text lld
    digits storage_engine_write choose_span write_sentence set_lock write_new_content edited_file
    persist_all generate_undo_token padded tokenize_words split_from normalise_inline_whitespace
    apply_updates update_loop apply_update join_words ensure_dir ensure_dir_fuel mkdir attempt
    parent lookup insert
edits_sound = λ e. cc e

write_request-releases_example :
    ((handle_write_request server first 20 true edits 24).1.locked_sentences ≡ [])
    × ((handle_write_request server first 20 true edits 24).1.active_writers ≡ 0)
write_request-releases_example =
    write_request-releases server first 20 true edits 24 (omega arith) edits_sound

abbrev disk : Disk
disk = record {
  nodes =
      (codes "r/ss_data_t", dir)
      ∷ (codes "r/ss_data_t/files", dir)
      ∷ (codes "r/ss_data_t/metadata", dir)
      ∷ [];
  answers = [];
  suffix = codes "k3";
}

-- A server without the file.
abbrev replica : ServerState
replica = record server {
  engine = record {
    root_path = codes "r";
    ss_id = codes "t";
    files = [];
    undo_seq = 0;
    disk = disk;
    moves = λ n. false;
  };
}

abbrev wanted : Bytes
wanted = codes "{\"filename\":\"a.txt\",\"source_ip\":\"127.0.0.1\",\"source_port\":9000}"

read_run :
    (storage_engine_read server.engine (some (filename_of wanted)) 30).1
    ≡ some (codes "One two. Three!")
unfolding str_eq storage_engine_read json_get_string c_str
read_run = refl

import_run :
    (storage_engine_import replica.engine
      (some (filename_of wanted))
      (some (codes "One two. Three!"))
      31).0
    ≡ storage_ok
unfolding str_eq storage_engine_import ss_file_path json_get_string ss_metadata_path ss_undo_path
    persist_content update_metadata_from_content load_metadata read_file_if_exists atomic_write
    parent ensure_dir mkdir persist_metadata metadata_text decimal count_words attempt
    ensure_dir_fuel ensure_parent_dir fill_temp insert lookup remove rename_temp replace_file
    ss_root_path c_str digits read_digits after_byte before_byte skip_space starts_with strstr
    strtoull build_paths get_or_load_file load_file_from_disk lld allocate_file doubled
    ensure_sentence_capacity find_file_locked free_locks store_at compute_spans count_from
    scan_spans
import_run = refl

replicate-source_example :
    ((handle_replicate_request replica wanted (answered_by server 30) 31).0
      ≡ answer command_status (codes "{\"status\":\"replicated\"}"))
    × ((handle_replicate_request replica wanted (answered_by server 30) 31).1.engine
        ≡ (storage_engine_import replica.engine
            (some (filename_of wanted))
            (some (codes "One two. Three!"))
            31).1)
    × (content_of
          (handle_replicate_request replica wanted (answered_by server 30) 31).1.engine
          (filename_of wanted)
        ≡ some (codes "One two. Three!"))
replicate-source_example =
    replicate-source server replica wanted (codes "One two. Three!") 30 31 read_run import_run
