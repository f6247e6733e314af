-- ===== src/Protocol/Tests.antt =====
-- The protocol's functions run on a registration header, and the theorems at such inputs.
use network_file_storage.Prelude.{[], ◌∷◌, some, ◌≡◌, ◌≢◌, refl, arith, Bytes, ◌>>=◌}
use network_file_storage.Protocol.{
  Opcode, ErrorCode, opcode_value, error_value, protocol_opcode_name, protocol_error_name,
}
use network_file_storage.Protocol.Names.{opcode_name_unknown, error_name_unknown}
use network_file_storage.Protocol.Header.{
  MessageHeader, IsHeader, little, big, protocol_encode_header, protocol_decode_header,
}
use network_file_storage.Protocol.Header.RoundTrip.{
  wire, encode_header-wire, decode-encode_header, encode-decode-IsHeader,
}

abbrev sample : MessageHeader
sample = record { version = 1; opcode = 3; request_id = 70000; payload_len = 258 }

abbrev blank : Bytes
blank = 0 ∷ 0 ∷ 0 ∷ 0 ∷ 0 ∷ 0 ∷ 0 ∷ 0 ∷ 0 ∷ 0 ∷ 0 ∷ 0 ∷ []

abbrev sample_bytes : Bytes
sample_bytes = 0 ∷ 1 ∷ 0 ∷ 3 ∷ 0 ∷ 1 ∷ 17 ∷ 112 ∷ 0 ∷ 0 ∷ 1 ∷ 2 ∷ []

sample-IsHeader : IsHeader sample
sample-IsHeader = omega arith

encode_runs : protocol_encode_header little (some sample) (some blank) ≡ some sample_bytes
unfolding protocol_encode_header
encode_runs = refl

encode_header-wire_example :
    protocol_encode_header little (some sample) (some blank) ≡ some (wire sample)
encode_header-wire_example = encode_header-wire little sample blank sample-IsHeader refl

decode-encode_header_example :
    (protocol_encode_header little (some sample) (some blank) >>= λ sent.
    protocol_decode_header big (some sent))
    ≡ some sample
decode-encode_header_example = decode-encode_header little big sample blank sample-IsHeader refl

encode-decode-IsHeader_example :
    (h : MessageHeader) × (protocol_decode_header big (some sample_bytes) ≡ some h)
    × IsHeader h
    × (protocol_encode_header little (some h) (some blank) ≡ some sample_bytes)
encode-decode-IsHeader_example =
    encode-decode-IsHeader big little sample_bytes blank refl refl (omega arith)

no_opcode : (op : Opcode) → opcode_value op ≢ 0x7000
unfolding opcode_value
no_opcode op = ground arith

opcode_name_unknown_example : protocol_opcode_name 0x7000 ≡ "OP_UNKNOWN"
opcode_name_unknown_example = opcode_name_unknown 0x7000 no_opcode

no_error : (code : ErrorCode) → error_value code ≢ 20
unfolding error_value
no_error code = ground arith

error_name_unknown_example : protocol_error_name 20 ≡ "ERR_UNKNOWN"
error_name_unknown_example = error_name_unknown 20 no_error
