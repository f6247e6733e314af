-- ===== src/Sockets/Messages.antt =====
-- A message that send_message sends and recv_message receives.
use network_file_storage.Prelude.{
  append-nil, ℕ, zero, suc, ◌+◌, ◌%◌, ◌^◌, ◌<◌, List, [], ◌∷◌, ◌++◌, Option, none, some, ◌≡◌, refl,
  ap, ◌∙◌, sym, arith, Bytes, length, drop, ◌>>=◌, take-append, drop-append, take_of_length-le,
  lt→ltb, length-append,
}
use network_file_storage.Protocol.Header.{MessageHeader, IsHeader, Endian, header_size, memcpy_to}
use network_file_storage.Protocol.Header.RoundTrip.{wire, encode_header-wire, decode_header-wire}
use network_file_storage.Sockets.{
  Answer, Transfer, Received, to_int, recv_all, send_all, zeros, send_rest, send_encoded,
  recv_decoded, recv_rest, finish_payload, payload_text, message_header, send_payload, send_message,
  recv_payload, recv_message,
}
use network_file_storage.Sockets.Pieces.{
  memcpy_to_twice, Moves, done, again, piece, send_loop-Moves, recv_loop-Moves,
}

to_int_small : (n : ℕ) → n < 2 ^ 31 → to_int n ≡ some n
unfolding to_int
to_int_small n h = ground arith

message_header-IsHeader :
    (opcode request_id : ℕ) (payload : Option Bytes)
    → IsHeader (message_header opcode request_id payload)
unfolding message_header
message_header-IsHeader opcode request_id payload = omega arith

payload_len_small :
    (opcode request_id : ℕ) (payload : Option Bytes)
    → length (payload_text payload) < 2 ^ 31
    → (message_header opcode request_id payload).payload_len ≡ length (payload_text payload)
unfolding message_header
payload_len_small opcode request_id payload h = omega arith

none_moved : (answers rest : List Answer) → Moves answers 0 rest → answers ≡ rest
none_moved answers rest (done z) = refl
none_moved answers rest (again p m) = absurd (omega arith)
none_moved answers rest (piece n m e) = absurd (omega arith)

-- The result of sending the payload after the header.
abbrev sent : Bytes → List Answer → Option Transfer
sent bytes answers = some (record { ret = some 0; bytes = bytes; answers = answers; stream = [] })

send_payload-Moves :
    (fd : ℕ) (payload : Option Bytes) (header : Bytes) (answers rest : List Answer)
    → length (payload_text payload) < 2 ^ 31
    → Moves answers (length (payload_text payload)) rest
    → send_payload
        (some fd)
        payload
        (length (payload_text payload))
        (record { ret = some 12; bytes = header; answers = answers; stream = [] })
      ≡ sent (header ++ payload_text payload) rest
unfolding send_payload send_all
send_payload-Moves fd none header answers rest h m =
    rw (none_moved answers rest m, append-nil header) refl
send_payload-Moves fd (some []) header answers rest h m =
    rw (none_moved answers rest m, append-nil header) refl
send_payload-Moves fd (some (c ∷ p)) header answers rest h m =
    rw
      (
        lt→ltb 0 (suc (length p)) (omega arith),
        send_loop-Moves (c ∷ p) (suc (length p)) 0 (suc (length p)) answers rest header m
            (omega arith),
        take_of_length-le (suc (length p)) (c ∷ p) (omega arith),
        to_int_small (suc (length p)) h,
      )
      refl

send_rest-Moves :
    (fd : ℕ) (payload : Option Bytes) (header : Bytes) (len : ℕ) (answers rest : List Answer)
    → len ≡ length (payload_text payload)
    → length (payload_text payload) < 2 ^ 31
    → Moves answers (length (payload_text payload)) rest
    → send_rest
        (some fd)
        payload
        len
        (record { ret = some 12; bytes = header; answers = answers; stream = [] })
      ≡ sent (header ++ payload_text payload) rest
unfolding send_rest
send_rest-Moves fd payload header len answers rest e h m =
    rw (e) (send_payload-Moves fd payload header answers rest h m)

send_message-Moves :
    (e : Endian) (fd opcode request_id : ℕ) (payload : Option Bytes) (header_buf : Bytes)
    (answers middle rest : List Answer)
    → length header_buf ≡ header_size
    → length (payload_text payload) < 2 ^ 31
    → Moves answers 12 middle
    → Moves middle (length (payload_text payload)) rest
    → send_message e (some fd) opcode request_id payload header_buf answers []
      ≡ sent (wire (message_header opcode request_id payload) ++ payload_text payload) rest
unfolding send_message send_encoded send_all message_header
send_message-Moves e fd opcode request_id payload header_buf answers middle rest n h m m' =
    let whole : length (payload_text payload) % 2 ^ 32 ≡ length (payload_text payload) =
      omega arith in
    let header = message_header opcode request_id payload in
    rw
      (
        encode_header-wire e header header_buf (message_header-IsHeader opcode request_id payload)
            n,
        send_loop-Moves (wire header) 12 0 12 answers middle [] m (omega arith),
        to_int_small 12 (omega arith),
      )
      (send_rest-Moves fd payload (wire header) (length (payload_text payload) % 2 ^ 32) middle rest
        whole h m')

drop_all : (xs : Bytes) → drop (length xs) xs ≡ []
drop_all [] = refl
drop_all (x ∷ xs) = drop_all xs

memcpy_to_all : (out a : Bytes) → length a ≡ length out → memcpy_to out 0 a ≡ a
unfolding memcpy_to
memcpy_to_all out a e =
    let z : 0 + length a ≡ length out = omega arith in rw (z, drop_all out, append-nil a) refl

length-zeros : (n : ℕ) → length (zeros n) ≡ n
length-zeros zero = refl
length-zeros (suc n) = omega (arith, length-zeros n)

-- A payload that is read into zeroed memory and ended.
payload_buffer :
    (p : Bytes)
    → memcpy_to (memcpy_to (zeros (suc (length p))) 0 p) (length p) (0 ∷ []) ≡ p ++ 0 ∷ []
payload_buffer p =
    let z : 0 + length p ≡ length p = omega arith in
    ap (λ n. memcpy_to (memcpy_to (zeros (suc (length p))) 0 p) n (0 ∷ [])) (sym z)
    ∙ (memcpy_to_twice (zeros (suc (length p))) p (0 ∷ []) 0 (omega arith)
        ∙ memcpy_to_all (zeros (suc (length p))) (p ++ 0 ∷ [])
            (omega (arith, length-append p (0 ∷ []), length-zeros (length p))))

-- The string that a payload is received as: a null pointer for an empty one.
abbrev pub received_text : Bytes → Option Bytes
received_text [] = none
received_text (c ∷ p) = some ((c ∷ p) ++ 0 ∷ [])

abbrev received : MessageHeader → Bytes → List Answer → Bytes → Option Received
received header p answers stream = some (record {
  message = some (header, received_text p);
  answers = answers;
  stream = stream;
  memory = [];
})

recv_decoded-Moves :
    (fd : ℕ) (header : MessageHeader) (p later : Bytes) (answers rest : List Answer)
    → header.payload_len ≡ length p
    → length p < 2 ^ 31
    → Moves answers (length p) rest
    → recv_decoded (some fd) [] answers (p ++ later) (some header) ≡ received header p rest later
unfolding recv_decoded recv_payload recv_all finish_payload
recv_decoded-Moves fd header [] later answers rest e h m = rw (e, none_moved answers rest m) refl
recv_decoded-Moves fd header (c ∷ p) later answers rest e h m =
    let fits : (suc (length p) + 1) % 2 ^ 32 ≡ suc (suc (length p)) = omega arith in
    rw
      (
        e,
        lt→ltb 0 (suc (length p)) (omega arith),
        fits,
        recv_loop-Moves (suc (length p)) 0 (suc (length p)) (zeros (suc (suc (length p))))
            (c ∷ (p ++ later)) answers rest m (omega arith) (omega arith)
            (omega (arith, length-append p later)),
        to_int_small (suc (length p)) h,
        take-append p later,
        drop-append p later,
        payload_buffer (c ∷ p),
        lt→ltb 0 (suc (length p)) (omega arith),
      )
      refl

recv_message-Moves :
    (e : Endian) (fd : ℕ) (header_buf : Bytes) (header : MessageHeader) (p later : Bytes)
    (answers middle rest : List Answer)
    → IsHeader header
    → length header_buf ≡ header_size
    → header.payload_len ≡ length p
    → length p < 2 ^ 31
    → Moves answers 12 middle
    → Moves middle (length p) rest
    → recv_message e (some fd) header_buf [] answers (wire header ++ (p ++ later))
      ≡ received header p rest later
unfolding recv_message recv_all recv_rest
recv_message-Moves e fd header_buf header p later answers middle rest v n l h m m' =
    rw
      (
        recv_loop-Moves 12 0 12 header_buf (wire header ++ (p ++ later)) answers middle m
            (omega arith) (omega arith) (omega arith),
        memcpy_to_all header_buf (wire header) (sym n),
        to_int_small 12 (omega arith),
        decode_header-wire e header v,
      )
      (recv_decoded-Moves fd header p later middle rest l h m')

-- A message sent by one host arrives whole at another, also one of the other byte order, however
-- both kernels split it into pieces and interrupt the calls: recv_message returns its header and
-- payload, a null pointer for an empty one, and leaves what is sent later. The payload is shorter
-- than 2 ^ 31 bytes, both descriptors are open, the calls move all of the message, and the
-- allocation succeeds.
pub recv-send_message :
    (e e' : Endian) (fd fd' opcode request_id : ℕ) (payload : Option Bytes) (out buf later : Bytes)
    (sends sends' sends'' recvs recvs' recvs'' : List Answer)
    → length out ≡ header_size
    → length buf ≡ header_size
    → length (payload_text payload) < 2 ^ 31
    → Moves sends 12 sends'
    → Moves sends' (length (payload_text payload)) sends''
    → Moves recvs 12 recvs'
    → Moves recvs' (length (payload_text payload)) recvs''
    → (send_message e (some fd) opcode request_id payload out sends [] >>= λ t.
        recv_message e' (some fd') buf [] recvs (t.bytes ++ later))
      ≡ some (record {
        message =
            some (message_header opcode request_id payload, received_text (payload_text payload));
        answers = recvs'';
        stream = later;
        memory = [];
      })
recv-send_message e e' fd fd' opcode request_id payload out buf later s s' s'' r r' r'' n n' h a b c
      d =
    let header = message_header opcode request_id payload in
    rw (send_message-Moves e fd opcode request_id payload out s s' s'' n h a b) (
      recv_message-Moves e' fd' buf header (payload_text payload) later r r' r''
        (message_header-IsHeader opcode request_id payload) n'
        (payload_len_small opcode request_id payload h) h c d)
