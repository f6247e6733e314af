-- ===== src/Protocol/Names.antt =====
-- The names of opcodes and errors tell them apart, and no other value has one.
use text.Mathlib.Text.{◌==◌ as str_eq}
use network_file_storage.Prelude.{
  ℕ, String, List, [], ◌∷◌, Option, none, some, ◌≡◌, ◌≢◌, refl, sym, ap, ◌∙◌, ◌==◌, if◌then◌else◌,
  arith, All,
}
use network_file_storage.Protocol.{
  Opcode, ErrorCode, opcode_value, error_value, switch, opcode_cases, error_cases,
  protocol_opcode_name, protocol_error_name, register_ss, register_client, register_ack, heartbeat,
  lookup_file, lookup_resp, command_forward, command_status, data_request, data_response,
  data_chunk, data_ack, write_request, write_update, write_commit, write_ack, stream_request,
  info_request, undo_request, delete_request, createfolder_request, move_request,
  viewfolder_request, viewfolder_response, checkpoint_request, viewcheckpoint_request,
  revert_checkpoint_request, listcheckpoints_request, listcheckpoints_response, replicate_file,
  list_folders_request, list_folders_response, stop, error, ok, no_access, file_not_found,
  sentence_locked, invalid_sentence, invalid_word, duplicate, not_owner, unregistered_user,
  storage_down, undo_empty, execution_fail, protocol, folder_exists, not_a_folder, folder_not_empty,
  checkpoint_exists, checkpoint_not_found, request_exists, no_request,
}

-- The enumerator with a given value.
opcode_of : ℕ → Option Opcode
opcode_of v =
    if v == 1
    then some register_ss
    else if v == 2
    then some register_client
    else if v == 32769
    then some register_ack
    else if v == 3
    then some heartbeat
    else if v == 4
    then some lookup_file
    else if v == 32772
    then some lookup_resp
    else if v == 5
    then some command_forward
    else if v == 32773
    then some command_status
    else if v == 6
    then some data_request
    else if v == 32775
    then some data_response
    else if v == 32774
    then some data_chunk
    else if v == 7
    then some data_ack
    else if v == 8
    then some write_request
    else if v == 9
    then some write_update
    else if v == 10
    then some write_commit
    else if v == 32778
    then some write_ack
    else if v == 11
    then some stream_request
    else if v == 12
    then some info_request
    else if v == 13
    then some undo_request
    else if v == 14
    then some delete_request
    else if v == 15
    then some createfolder_request
    else if v == 16
    then some move_request
    else if v == 17
    then some viewfolder_request
    else if v == 32785
    then some viewfolder_response
    else if v == 18
    then some checkpoint_request
    else if v == 19
    then some viewcheckpoint_request
    else if v == 20
    then some revert_checkpoint_request
    else if v == 21
    then some listcheckpoints_request
    else if v == 32789
    then some listcheckpoints_response
    else if v == 22
    then some replicate_file
    else if v == 23
    then some list_folders_request
    else if v == 32791
    then some list_folders_response
    else if v == 32767
    then some stop
    else if v == 65535
    then some error
    else none

opcode_of-value : (op : Opcode) → opcode_of (opcode_value op) ≡ some op
unfolding opcode_of opcode_value
opcode_of-value register_ss = refl
opcode_of-value register_client = refl
opcode_of-value register_ack = refl
opcode_of-value heartbeat = refl
opcode_of-value lookup_file = refl
opcode_of-value lookup_resp = refl
opcode_of-value command_forward = refl
opcode_of-value command_status = refl
opcode_of-value data_request = refl
opcode_of-value data_response = refl
opcode_of-value data_chunk = refl
opcode_of-value data_ack = refl
opcode_of-value write_request = refl
opcode_of-value write_update = refl
opcode_of-value write_commit = refl
opcode_of-value write_ack = refl
opcode_of-value stream_request = refl
opcode_of-value info_request = refl
opcode_of-value undo_request = refl
opcode_of-value delete_request = refl
opcode_of-value createfolder_request = refl
opcode_of-value move_request = refl
opcode_of-value viewfolder_request = refl
opcode_of-value viewfolder_response = refl
opcode_of-value checkpoint_request = refl
opcode_of-value viewcheckpoint_request = refl
opcode_of-value revert_checkpoint_request = refl
opcode_of-value listcheckpoints_request = refl
opcode_of-value listcheckpoints_response = refl
opcode_of-value replicate_file = refl
opcode_of-value list_folders_request = refl
opcode_of-value list_folders_response = refl
opcode_of-value stop = refl
opcode_of-value error = refl

-- The enumerator with a given value.
error_of : ℕ → Option ErrorCode
error_of v =
    if v == 0
    then some ok
    else if v == 1
    then some no_access
    else if v == 2
    then some file_not_found
    else if v == 3
    then some sentence_locked
    else if v == 4
    then some invalid_sentence
    else if v == 5
    then some invalid_word
    else if v == 6
    then some duplicate
    else if v == 7
    then some not_owner
    else if v == 8
    then some unregistered_user
    else if v == 9
    then some storage_down
    else if v == 10
    then some undo_empty
    else if v == 11
    then some execution_fail
    else if v == 12
    then some protocol
    else if v == 13
    then some folder_exists
    else if v == 14
    then some not_a_folder
    else if v == 15
    then some folder_not_empty
    else if v == 16
    then some checkpoint_exists
    else if v == 17
    then some checkpoint_not_found
    else if v == 18
    then some request_exists
    else if v == 19
    then some no_request
    else none

error_of-value : (op : ErrorCode) → error_of (error_value op) ≡ some op
unfolding error_of error_value
error_of-value ok = refl
error_of-value no_access = refl
error_of-value file_not_found = refl
error_of-value sentence_locked = refl
error_of-value invalid_sentence = refl
error_of-value invalid_word = refl
error_of-value duplicate = refl
error_of-value not_owner = refl
error_of-value unregistered_user = refl
error_of-value storage_down = refl
error_of-value undo_empty = refl
error_of-value execution_fail = refl
error_of-value protocol = refl
error_of-value folder_exists = refl
error_of-value not_a_folder = refl
error_of-value folder_not_empty = refl
error_of-value checkpoint_exists = refl
error_of-value checkpoint_not_found = refl
error_of-value request_exists = refl
error_of-value no_request = refl

-- The first entry of a table of names that carries a name.
find_name : String → List (ℕ × String) → Option ℕ
find_name s [] = none
find_name s ((key, name) ∷ cases) = if str_eq s name then some key else find_name s cases

find_opcode_name :
    (op : Opcode)
    → find_name (protocol_opcode_name (opcode_value op)) opcode_cases ≡ some (opcode_value op)
unfolding protocol_opcode_name find_name
find_opcode_name register_ss = refl
find_opcode_name register_client = refl
find_opcode_name register_ack = refl
find_opcode_name heartbeat = refl
find_opcode_name lookup_file = refl
find_opcode_name lookup_resp = refl
find_opcode_name command_forward = refl
find_opcode_name command_status = refl
find_opcode_name data_request = refl
find_opcode_name data_response = refl
find_opcode_name data_chunk = refl
find_opcode_name data_ack = refl
find_opcode_name write_request = refl
find_opcode_name write_update = refl
find_opcode_name write_commit = refl
find_opcode_name write_ack = refl
find_opcode_name stream_request = refl
find_opcode_name info_request = refl
find_opcode_name undo_request = refl
find_opcode_name delete_request = refl
find_opcode_name createfolder_request = refl
find_opcode_name move_request = refl
find_opcode_name viewfolder_request = refl
find_opcode_name viewfolder_response = refl
find_opcode_name checkpoint_request = refl
find_opcode_name viewcheckpoint_request = refl
find_opcode_name revert_checkpoint_request = refl
find_opcode_name listcheckpoints_request = refl
find_opcode_name listcheckpoints_response = refl
find_opcode_name replicate_file = refl
find_opcode_name list_folders_request = refl
find_opcode_name list_folders_response = refl
find_opcode_name stop = refl
find_opcode_name error = refl

find_error_name :
    (op : ErrorCode)
    → find_name (protocol_error_name (error_value op)) error_cases ≡ some (error_value op)
unfolding protocol_error_name find_name
find_error_name ok = refl
find_error_name no_access = refl
find_error_name file_not_found = refl
find_error_name sentence_locked = refl
find_error_name invalid_sentence = refl
find_error_name invalid_word = refl
find_error_name duplicate = refl
find_error_name not_owner = refl
find_error_name unregistered_user = refl
find_error_name storage_down = refl
find_error_name undo_empty = refl
find_error_name execution_fail = refl
find_error_name protocol = refl
find_error_name folder_exists = refl
find_error_name not_a_folder = refl
find_error_name folder_not_empty = refl
find_error_name checkpoint_exists = refl
find_error_name checkpoint_not_found = refl
find_error_name request_exists = refl
find_error_name no_request = refl

some_injective : {a b : ℕ} → some a ≡ some b → a ≡ b
some_injective e = cc

switch_fallback :
    (v : ℕ) (cases : List (ℕ × String)) (fallback : String)
    → All (λ c. c.0 ≢ v) cases
    → switch v cases fallback ≡ fallback
unfolding switch
switch_fallback v [] fallback h = refl
switch_fallback v ((key, name) ∷ cases) fallback h =
    ground (arith, h.0, switch_fallback v cases fallback h.1)

-- Two opcodes with the same value are the same opcode.
opcode_value-injective : (a b : Opcode) → opcode_value a ≡ opcode_value b → a ≡ b
opcode_value-injective a b e = cc (opcode_of-value a, opcode_of-value b, ap opcode_of e)

error_value-injective : (a b : ErrorCode) → error_value a ≡ error_value b → a ≡ b
error_value-injective a b e = cc (error_of-value a, error_of-value b, ap error_of e)

-- `protocol_opcode_name` gives two enumerated values the same name only if they are the same.
pub opcode_name-injective :
    (a b : Opcode)
    → protocol_opcode_name (opcode_value a) ≡ protocol_opcode_name (opcode_value b)
    → a ≡ b
opcode_name-injective a b e = opcode_value-injective a b (
    some_injective
      (sym (find_opcode_name a) ∙ ap (λ s. find_name s opcode_cases) e ∙ find_opcode_name b))

-- `protocol_opcode_name` gives every value that is none of the enumerated ones the name "OP_UNKNOWN".
pub opcode_name_unknown :
    (v : ℕ) → ((x : Opcode) → opcode_value x ≢ v) → protocol_opcode_name v ≡ "OP_UNKNOWN"
unfolding protocol_opcode_name
opcode_name_unknown v other = switch_fallback v opcode_cases "OP_UNKNOWN" (
  other register_ss,
  (
    other register_client,
    (
      other register_ack,
      (
        other heartbeat,
        (
          other lookup_file,
          (
            other lookup_resp,
            (
              other command_forward,
              (
                other command_status,
                (
                  other data_request,
                  (
                    other data_response,
                    (
                      other data_chunk,
                      (
                        other data_ack,
                        (
                          other write_request,
                          (
                            other write_update,
                            (
                              other write_commit,
                              (
                                other write_ack,
                                (
                                  other stream_request,
                                  (
                                    other info_request,
                                    (
                                      other undo_request,
                                      (
                                        other delete_request,
                                        (
                                          other createfolder_request,
                                          (
                                            other move_request,
                                            (
                                              other viewfolder_request,
                                              (
                                                other viewfolder_response,
                                                (
                                                  other checkpoint_request,
                                                  (
                                                    other viewcheckpoint_request,
                                                    (
                                                      other revert_checkpoint_request,
                                                      (
                                                        other listcheckpoints_request,
                                                        (
                                                          other listcheckpoints_response,
                                                          (
                                                            other replicate_file,
                                                            (
                                                            other list_folders_request,
                                                            (
                                                            other list_folders_response,
                                                            (other stop, (other error, tt)),
                                                            ),
                                                            ),
                                                          ),
                                                        ),
                                                      ),
                                                    ),
                                                  ),
                                                ),
                                              ),
                                            ),
                                          ),
                                        ),
                                      ),
                                    ),
                                  ),
                                ),
                              ),
                            ),
                          ),
                        ),
                      ),
                    ),
                  ),
                ),
              ),
            ),
          ),
        ),
      ),
    ),
  ),
)

-- `protocol_error_name` gives two enumerated values the same name only if they are the same.
pub error_name-injective :
    (a b : ErrorCode)
    → protocol_error_name (error_value a) ≡ protocol_error_name (error_value b)
    → a ≡ b
error_name-injective a b e = error_value-injective a b (
    some_injective
      (sym (find_error_name a) ∙ ap (λ s. find_name s error_cases) e ∙ find_error_name b))

-- `protocol_error_name` gives every value that is none of the enumerated ones the name "ERR_UNKNOWN".
pub error_name_unknown :
    (v : ℕ) → ((x : ErrorCode) → error_value x ≢ v) → protocol_error_name v ≡ "ERR_UNKNOWN"
unfolding protocol_error_name
error_name_unknown v other = switch_fallback v error_cases "ERR_UNKNOWN" (
  other ok,
  (
    other no_access,
    (
      other file_not_found,
      (
        other sentence_locked,
        (
          other invalid_sentence,
          (
            other invalid_word,
            (
              other duplicate,
              (
                other not_owner,
                (
                  other unregistered_user,
                  (
                    other storage_down,
                    (
                      other undo_empty,
                      (
                        other execution_fail,
                        (
                          other protocol,
                          (
                            other folder_exists,
                            (
                              other not_a_folder,
                              (
                                other folder_not_empty,
                                (
                                  other checkpoint_exists,
                                  (
                                    other checkpoint_not_found,
                                    (other request_exists, (other no_request, tt)),
                                  ),
                                ),
                              ),
                            ),
                          ),
                        ),
                      ),
                    ),
                  ),
                ),
              ),
            ),
          ),
        ),
      ),
    ),
  ),
)
