-- ===== src/Sockets.antt =====
-- The loops of common/src/net.c over the system calls send and recv, and send_message and
-- recv_message of storage_server/src/main.c on top of them. The kernel's answers to the calls are
-- given as a list, in order; a function that is still waiting when they are used up has no result.
pub mod Pieces
pub mod Messages
mod Tests
use network_file_storage.Prelude.{
  ◌>>=◌, if◌then◌else◌, ℕ, zero, suc, ◌+◌, ◌-◌, ◌%◌, ◌^◌, Bool, true, false, List, [], ◌∷◌, ◌++◌,
  Option, none, some, Bytes, ltb, length, take, drop, arith, Memory, alloc, not,
}
use network_file_storage.Protocol.Header.{
  MessageHeader, Endian, memcpy_to, protocol_encode_header, protocol_decode_header,
}

-- The value of errno after a call that failed.
pub data Errno : Type 0 where
  eintr epipe other_error : Errno

-- What one call of send or recv returns: the count of bytes moved, or -1.
pub data Answer : Type 0 where
  moved : ℕ → Answer
  failed : Errno → Answer

-- What a function has returned: its int, with `none` for any negative one, the bytes in the buffer
-- or on the connection, and the answers and the bytes of the peer that are left.
pub record Transfer : Type 0 where
  pub ret : Option ℕ
  pub bytes : Bytes
  pub answers : List Answer
  pub stream : Bytes

-- (int)total
unfoldable pub to_int : ℕ → Option ℕ
to_int total = if ltb (total % 2 ^ 32) (2 ^ 31) then some (total % 2 ^ 32) else none

-- The end of a call with the count `total`, as in `return (int)total`.
abbrev pub returned : ℕ → Bytes → List Answer → Bytes → Option Transfer
returned total bytes answers stream =
    some (record { ret = to_int total; bytes = bytes; answers = answers; stream = stream })

abbrev pub returned_error : Bytes → List Answer → Bytes → Option Transfer
returned_error bytes answers stream =
    some (record { ret = none; bytes = bytes; answers = answers; stream = stream })

-- The loop of recv_all: `stream` holds what the peer has sent and the process has not received.
unfoldable pub recv_loop : List Answer → ℕ → ℕ → Bytes → Bytes → Option Transfer
recv_loop [] len total out stream = if ltb total len then none else returned total out [] stream
recv_loop (moved zero ∷ answers) len total out stream =
    if ltb total len
    then returned total out answers stream
    else returned total out (moved zero ∷ answers) stream
recv_loop (moved (suc n) ∷ answers) len total out stream =
    let rest =
      recv_loop answers len (total + suc n) (memcpy_to out total (take (suc n) stream))
        (drop (suc n) stream) in
    if ltb total len then rest else returned total out (moved (suc n) ∷ answers) stream
recv_loop (failed eintr ∷ answers) len total out stream =
    let rest = recv_loop answers len total out stream in
    if ltb total len then rest else returned total out (failed eintr ∷ answers) stream
recv_loop (failed e ∷ answers) len total out stream =
    if ltb total len
    then returned_error out answers stream
    else returned total out (failed e ∷ answers) stream

-- `none` is a negative descriptor or a null buffer.
unfoldable pub recv_all : Option ℕ → Option Bytes → ℕ → List Answer → Bytes → Option Transfer
recv_all none buf len answers stream = returned_error [] answers stream
recv_all (some fd) none len answers stream = returned_error [] answers stream
recv_all (some fd) (some buf) len answers stream = recv_loop answers len 0 buf stream

-- The loop of send_all: `wire` holds what has been sent on the connection.
unfoldable pub send_loop : List Answer → Bytes → ℕ → ℕ → Bytes → Option Transfer
send_loop [] buf len total wire = if ltb total len then none else returned total wire [] []
send_loop (moved n ∷ answers) buf len total wire =
    let rest = send_loop answers buf len (total + n) (wire ++ take n (drop total buf)) in
    if ltb total len then rest else returned total wire (moved n ∷ answers) []
send_loop (failed eintr ∷ answers) buf len total wire =
    let rest = send_loop answers buf len total wire in
    if ltb total len then rest else returned total wire (failed eintr ∷ answers) []
send_loop (failed epipe ∷ answers) buf len total wire =
    if ltb total len
    then returned total wire answers []
    else returned total wire (failed epipe ∷ answers) []
send_loop (failed other_error ∷ answers) buf len total wire =
    if ltb total len
    then returned_error wire answers []
    else returned total wire (failed other_error ∷ answers) []

unfoldable pub send_all : Option ℕ → Option Bytes → ℕ → List Answer → Bytes → Option Transfer
send_all none buf len answers wire = returned_error wire answers []
send_all (some fd) none len answers wire = returned_error wire answers []
send_all (some fd) (some buf) len answers wire = send_loop answers buf len 0 wire

-- What recv_message leaves: its message, or `none` for -1, and the answers, the bytes of the peer
-- and those of the allocator that are left.
pub record Received : Type 0 where
  pub message : Option (MessageHeader × Option Bytes)
  pub answers : List Answer
  pub stream : Bytes
  pub memory : Memory

abbrev pub zeros : ℕ → Bytes
zeros zero = []
zeros (suc n) = 0 ∷ zeros n

-- strlen of a payload that may be null.
abbrev pub payload_text : Option Bytes → Bytes
payload_text none = []
payload_text (some payload) = payload

unfoldable pub message_header : ℕ → ℕ → Option Bytes → MessageHeader
message_header opcode request_id payload = record {
  version = 1;
  opcode = opcode % 2 ^ 16;
  request_id = request_id % 2 ^ 32;
  payload_len = length (payload_text payload) % 2 ^ 32;
}

-- A result of send_all as send_message tests it.
abbrev pub negative : Transfer → Bool
negative t = elim t.ret [ none ↦ true | some n ↦ false ]

unfoldable pub send_payload : Option ℕ → Option Bytes → ℕ → Transfer → Option Transfer
unfolding send_all
send_payload fd none payload_len t = some (record t { ret = some 0 })
send_payload fd (some payload) payload_len t =
    if ltb 0 payload_len
    then (send_all fd (some payload) payload_len t.answers t.bytes >>= λ u.
        some (record u { ret = if negative u then none else some 0 }))
    else some (record t { ret = some 0 })

-- From the second call of send_all on, and from the first.
unfoldable pub send_rest : Option ℕ → Option Bytes → ℕ → Transfer → Option Transfer
send_rest fd payload payload_len t =
    if negative t
    then returned_error t.bytes t.answers []
    else send_payload fd payload payload_len t

unfoldable pub send_encoded :
    Option ℕ → Option Bytes → ℕ → List Answer → Bytes → Option Bytes → Option Transfer
send_encoded fd payload payload_len answers wire none = returned_error wire answers []
send_encoded fd payload payload_len answers wire (some encoded) =
    send_all fd (some encoded) 12 answers wire >>= send_rest fd payload payload_len

-- `header_buf` is what the array holds before the call. The int returned is 0 or -1.
unfoldable pub send_message :
    Endian → Option ℕ → ℕ → ℕ → Option Bytes → Bytes → List Answer → Bytes → Option Transfer
send_message e fd opcode request_id payload header_buf answers wire =
    let header = message_header opcode request_id payload in
    send_encoded fd payload header.payload_len answers wire
      (protocol_encode_header e (some header) (some header_buf))

-- The test `rc <= 0`.
abbrev pub not_positive : Transfer → Bool
not_positive t = elim t.ret [ none ↦ true | some n ↦ not (ltb 0 n) ]

abbrev pub not_received : List Answer → Bytes → Memory → Option Received
not_received answers stream memory =
    some (record { message = none; answers = answers; stream = stream; memory = memory })

-- `payload_len + 1` is computed in 32 bits.
-- The end of recv_message, with the payload in its buffer.
unfoldable pub finish_payload : MessageHeader → Memory → Transfer → Option Received
finish_payload header memory t =
    if not_positive t
    then not_received t.answers t.stream memory
    else some (record {
      message = some (header, some (memcpy_to t.bytes header.payload_len (0 ∷ [])));
      answers = t.answers;
      stream = t.stream;
      memory = memory;
    })

unfoldable pub recv_payload :
    Option ℕ → MessageHeader → Memory → List Answer → Bytes → Option Received
recv_payload fd header memory answers stream =
    let (ok, memory') = alloc memory in
    if not ok
    then not_received answers stream memory'
    else (recv_all fd (some (zeros ((header.payload_len + 1) % 2 ^ 32))) header.payload_len answers
          stream
        >>= finish_payload header memory')

-- From the test of the decoded header on, and from the first call of recv_all on.
unfoldable pub recv_decoded :
    Option ℕ → Memory → List Answer → Bytes → Option MessageHeader → Option Received
recv_decoded fd memory answers stream none = not_received answers stream memory
recv_decoded fd memory answers stream (some header) =
    if ltb 0 header.payload_len
    then recv_payload fd header memory answers stream
    else some (record {
      message = some (header, none);
      answers = answers;
      stream = stream;
      memory = memory;
    })

unfoldable pub recv_rest : Endian → Option ℕ → Memory → Transfer → Option Received
recv_rest e fd memory t =
    if not_positive t
    then not_received t.answers t.stream memory
    else recv_decoded fd memory t.answers t.stream (protocol_decode_header e (some t.bytes))

-- `header_buf` is what the array holds before the call.
unfoldable pub recv_message :
    Endian → Option ℕ → Bytes → Memory → List Answer → Bytes → Option Received
recv_message e fd header_buf memory answers stream =
    recv_all fd (some header_buf) 12 answers stream >>= recv_rest e fd memory
