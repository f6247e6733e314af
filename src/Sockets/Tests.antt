-- ===== src/Sockets/Tests.antt =====
-- A message in pieces, sent and received.
use network_file_storage.Prelude.{List, [], ◌∷◌, ◌++◌, none, some, ◌≡◌, refl, arith, Bytes, ◌>>=◌}
use network_file_storage.Protocol.Header.{little, big, protocol_decode_header, memcpy_to}
use network_file_storage.Sockets.{
  Answer, moved, failed, eintr, message_header, send_message, recv_message, recv_all, recv_loop,
  recv_rest, to_int, recv_decoded, zeros,
}
use network_file_storage.Sockets.Pieces.{done, again, piece}
use network_file_storage.Sockets.Messages.{received_text, recv-send_message}

abbrev greeting : Bytes
greeting = 104 ∷ 105 ∷ []

abbrev sends : List Answer
sends = moved 12 ∷ failed eintr ∷ moved 1 ∷ moved 1 ∷ []

abbrev recvs : List Answer
recvs = moved 5 ∷ moved 7 ∷ failed eintr ∷ moved 2 ∷ []

recv-send_message_example :
    (send_message little (some 4) 7 9 (some greeting) (zeros 12) sends [] >>= λ t.
    recv_message big (some 6) (zeros 12) [] recvs (t.bytes ++ 77 ∷ []))
    ≡ some (record {
      message = some (message_header 7 9 (some greeting), received_text greeting);
      answers = [];
      stream = 77 ∷ [];
      memory = [];
    })
recv-send_message_example =
    recv-send_message little big 4 6 7 9 (some greeting) (zeros 12) (zeros 12) (77 ∷ []) sends
      (failed eintr ∷ moved 1 ∷ moved 1 ∷ []) [] recvs (failed eintr ∷ moved 2 ∷ []) [] refl refl
      (omega arith) (piece 11 {j = 0} (done refl) (omega arith))
      (again (omega arith)
        (piece 0 {j = 1} (piece 0 {j = 0} (done refl) (omega arith)) (omega arith)))
      (piece 4 {j = 7} (piece 6 {j = 0} (done refl) (omega arith)) (omega arith))
      (again (omega arith) (piece 1 {j = 0} (done refl) (omega arith)))

-- The peer closes the connection after three bytes of a header: the message is taken to be whole,
-- and nine bytes of its header are those the array held before.
short_header_accepted :
    recv_message big (some 6) (zeros 12) [] (moved 3 ∷ moved 0 ∷ []) (0 ∷ 1 ∷ 0 ∷ [])
    ≡ some (record {
      message = some (record { version = 1; opcode = 0; request_id = 0; payload_len = 0 }, none);
      answers = [];
      stream = [];
      memory = [];
    })
unfolding recv_message recv_all recv_loop recv_rest to_int recv_decoded protocol_decode_header
    memcpy_to
short_header_accepted = refl
