-- ===== src/Protocol/Header.antt =====
-- `message_header_t` and its wire format: protocol_encode_header and protocol_decode_header of
-- common/src/protocol.c. The memory of the host is explicit: `Endian` says how it lays a word out,
-- and `htons`, `htonl`, `ntohs` and `ntohl` are those of a host of that kind.
pub mod RoundTrip
use network_file_storage.Prelude.{
  ℕ, ◌+◌, ◌*◌, ◌/◌, ◌%◌, ◌^◌, ◌<◌, List, [], ◌∷◌, ◌++◌, Option, none, some, ◌≡◌, refl, arith, Bytes,
  length, take, drop, All,
}

-- message_header_t
pub record MessageHeader : Type 0 where
  pub version : ℕ
  pub opcode : ℕ
  pub request_id : ℕ
  pub payload_len : ℕ

-- The fields are uint16_t, uint16_t, uint32_t, uint32_t.
pub record IsHeader (h : MessageHeader) : Type 0 where
  pub version_fits : h.version < 2 ^ 16
  pub opcode_fits : h.opcode < 2 ^ 16
  pub request_id_fits : h.request_id < 2 ^ 32
  pub payload_len_fits : h.payload_len < 2 ^ 32

pub data Endian : Type 0 where
  little big : Endian

abbrev pub header_size : ℕ
header_size = 12

-- The bytes of a word, from its lowest.
abbrev byte : ℕ → ℕ → ℕ
byte k x = x / 256 ^ k % 256

swap16 : ℕ → ℕ
swap16 x = byte 0 x * 256 + byte 1 x

swap32 : ℕ → ℕ
swap32 x = byte 0 x * 256 ^ 3 + byte 1 x * 256 ^ 2 + byte 2 x * 256 + byte 3 x

-- htons and ntohs are one function, and so are htonl and ntohl.
htons : Endian → ℕ → ℕ
unfolding swap16
htons little x = swap16 x
htons big x = x

htonl : Endian → ℕ → ℕ
unfolding swap32
htonl little x = swap32 x
htonl big x = x

-- The object representation of a uint16_t and of a uint32_t.
store16 : Endian → ℕ → Bytes
store16 little x = byte 0 x ∷ byte 1 x ∷ []
store16 big x = byte 1 x ∷ byte 0 x ∷ []

store32 : Endian → ℕ → Bytes
store32 little x = byte 0 x ∷ byte 1 x ∷ byte 2 x ∷ byte 3 x ∷ []
store32 big x = byte 3 x ∷ byte 2 x ∷ byte 1 x ∷ byte 0 x ∷ []

-- The value of two or four bytes read into a word. Every call has that many.
load16 : Endian → Bytes → ℕ
load16 little (a ∷ b ∷ _) = a + b * 256
load16 big (a ∷ b ∷ _) = a * 256 + b
load16 e _ = 0

load32 : Endian → Bytes → ℕ
load32 little (a ∷ b ∷ c ∷ d ∷ _) = a + b * 256 + c * 256 ^ 2 + d * 256 ^ 3
load32 big (a ∷ b ∷ c ∷ d ∷ _) = a * 256 ^ 3 + b * 256 ^ 2 + c * 256 + d
load32 e _ = 0

-- memcpy(out + offset, src, length src)
unfoldable pub memcpy_to : Bytes → ℕ → Bytes → Bytes
memcpy_to out offset src = take offset out ++ (src ++ drop (offset + length src) out)

-- memcpy(&word, in + offset, size)
memcpy_from : Bytes → ℕ → ℕ → Bytes
memcpy_from input offset size = take size (drop offset input)

-- `none` in an argument is a null pointer, and in the result the return value -1. The result is
-- what `out` holds after the call.
unfoldable pub protocol_encode_header : Endian → Option MessageHeader → Option Bytes → Option Bytes
unfolding htons htonl store16 store32 memcpy_to
protocol_encode_header e none out = none
protocol_encode_header e (some header) none = none
protocol_encode_header e (some header) (some out) =
    let version = store16 e (htons e header.version) in
    let opcode = store16 e (htons e header.opcode) in
    let request_id = store32 e (htonl e header.request_id) in
    let payload_len = store32 e (htonl e header.payload_len) in
    some (
      memcpy_to (memcpy_to (memcpy_to (memcpy_to out 0 version) 2 opcode) 4 request_id) 8
        payload_len)

unfoldable pub protocol_decode_header : Endian → Option Bytes → Option MessageHeader
unfolding htons htonl load16 load32 memcpy_from
protocol_decode_header e none = none
protocol_decode_header e (some input) = some (record {
  version = htons e (load16 e (memcpy_from input 0 2));
  opcode = htons e (load16 e (memcpy_from input 2 2));
  request_id = htonl e (load32 e (memcpy_from input 4 4));
  payload_len = htonl e (load32 e (memcpy_from input 8 4));
})
