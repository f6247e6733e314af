-- ===== src/Protocol/Header/RoundTrip.antt =====
-- What the header's bytes are on the wire, and that encoding and decoding undo one another.
use network_file_storage.Prelude.{
  ℕ, ◌+◌, ◌*◌, ◌^◌, ◌<◌, [], ◌∷◌, ◌++◌, some, ◌≡◌, refl, ap, ◌∙◌, arith, Bytes, IsByte, length, All,
  ◌>>=◌,
}
use network_file_storage.Protocol.Header.{
  MessageHeader, IsHeader, Endian, little, big, header_size, byte, htons, htonl, store16, store32,
  load16, load32, memcpy_to, memcpy_from, protocol_encode_header, protocol_decode_header,
}

-- The wire format: every field from its highest byte.
abbrev be16 : ℕ → Bytes
be16 x = byte 1 x ∷ byte 0 x ∷ []

abbrev be32 : ℕ → Bytes
be32 x = byte 3 x ∷ byte 2 x ∷ byte 1 x ∷ byte 0 x ∷ []

abbrev pub wire : MessageHeader → Bytes
wire h = be16 h.version ++ (be16 h.opcode ++ (be32 h.request_id ++ be32 h.payload_len))

store-htons : (e : Endian) (x : ℕ) → x < 2 ^ 16 → store16 e (htons e x) ≡ be16 x
unfolding store16 htons
store-htons little x h = ground arith
store-htons big x h = refl

store-htonl : (e : Endian) (x : ℕ) → x < 2 ^ 32 → store32 e (htonl e x) ≡ be32 x
unfolding store32 htonl
store-htonl little x h = ground arith
store-htonl big x h = refl

load-be16 : (e : Endian) (x : ℕ) → x < 2 ^ 16 → htons e (load16 e (be16 x)) ≡ x
unfolding load16 htons
load-be16 little x h = omega arith
load-be16 big x h = omega arith

load-be32 : (e : Endian) (x : ℕ) → x < 2 ^ 32 → htonl e (load32 e (be32 x)) ≡ x
unfolding load32 htonl
load-be32 little x h = omega arith
load-be32 big x h = omega arith

memcpy_fields :
    (out v o r p : Bytes)
    → length out ≡ 12
    → (length v ≡ 2) × (length o ≡ 2) × (length r ≡ 4) × (length p ≡ 4)
    → memcpy_to (memcpy_to (memcpy_to (memcpy_to out 0 v) 2 o) 4 r) 8 p ≡ v ++ (o ++ (r ++ p))
unfolding memcpy_to
memcpy_fields (a ∷ b ∷ c ∷ d ∷ e ∷ f ∷ g ∷ h ∷ i ∷ j ∷ k ∷ l ∷ []) (x ∷ x' ∷ []) (y ∷ y' ∷ [])
      (z ∷ z' ∷ z'' ∷ z3 ∷ []) (w ∷ w' ∷ w'' ∷ w3 ∷ []) n m =
    refl
memcpy_fields _ _ _ _ _ n m = absurd (omega arith)

-- On a host of either byte order, `protocol_encode_header` turns a header whose fields fit into their
-- types into the same 12 bytes, the fields in order with the highest byte first, whatever `out` held.
pub encode_header-wire :
    (e : Endian) (h : MessageHeader) (out : Bytes)
    → IsHeader h
    → length out ≡ header_size
    → protocol_encode_header e (some h) (some out) ≡ some (wire h)
unfolding protocol_encode_header
encode_header-wire e h out v n =
    rw
      (
        store-htons e h.version v.version_fits,
        store-htons e h.opcode v.opcode_fits,
        store-htonl e h.request_id v.request_id_fits,
        store-htonl e h.payload_len v.payload_len_fits,
      )
      (ap some (
        memcpy_fields out (be16 h.version) (be16 h.opcode) (be32 h.request_id) (be32 h.payload_len)
          n (refl, refl, refl, refl)))

pub decode_header-wire :
    (e : Endian) (h : MessageHeader)
    → IsHeader h
    → protocol_decode_header e (some (wire h)) ≡ some h
unfolding protocol_decode_header memcpy_from
decode_header-wire e h v = rw (
  load-be16 e h.version v.version_fits,
  load-be16 e h.opcode v.opcode_fits,
  load-be32 e h.request_id v.request_id_fits,
  load-be32 e h.payload_len v.payload_len_fits,
)

-- A header whose fields fit into their types is read back unchanged, also when the two hosts have
-- different byte orders.
pub decode-encode_header :
    (e e' : Endian) (h : MessageHeader) (out : Bytes)
    → IsHeader h
    → length out ≡ header_size
    → (protocol_encode_header e (some h) (some out) >>= λ sent.
        protocol_decode_header e' (some sent))
      ≡ some h
decode-encode_header e e' h out v n =
    rw (encode_header-wire e h out v n) (decode_header-wire e' h v)

abbrev from_be16 : ℕ → ℕ → ℕ
from_be16 a b = a * 256 + b

abbrev from_be32 : ℕ → ℕ → ℕ → ℕ → ℕ
from_be32 a b c d = a * 256 ^ 3 + b * 256 ^ 2 + c * 256 + d

be16-from : (a b : ℕ) → IsByte a → IsByte b → be16 (from_be16 a b) ≡ a ∷ b ∷ []
be16-from a b p q = ground arith

be32-from :
    (a b c d : ℕ)
    → IsByte a
    → IsByte b
    → IsByte c
    → IsByte d
    → be32 (from_be32 a b c d) ≡ a ∷ b ∷ c ∷ d ∷ []
be32-from a b c d p q r s = ground arith

wire_onto :
    (input : Bytes)
    → length input ≡ header_size
    → All IsByte input
    → (h : MessageHeader) × IsHeader h × (wire h ≡ input)
wire_onto (a ∷ b ∷ c ∷ d ∷ e ∷ f ∷ g ∷ h ∷ i ∷ j ∷ k ∷ l ∷ []) n
      (ha, (hb, (hc, (hd, (he, (hf, (hg, (hh, (hi, (hj, (hk, (hl, _)))))))))))) =
    (
      record {
        version = from_be16 a b;
        opcode = from_be16 c d;
        request_id = from_be32 e f g h;
        payload_len = from_be32 i j k l;
      },
      record {
        version_fits = omega arith;
        opcode_fits = omega arith;
        request_id_fits = omega arith;
        payload_len_fits = omega arith;
      },
      cc (
        be16-from a b ha hb,
        be16-from c d hc hd,
        be32-from e f g h he hf hg hh,
        be32-from i j k l hi hj hk hl,
      ),
    )
wire_onto _ n b = absurd (omega arith)

-- Any 12 bytes decode, on either host, to a header whose fields fit into their types, and encoding
-- that header on either host gives the 12 bytes back.
pub encode-decode-IsHeader :
    (e e' : Endian) (input out : Bytes)
    → length input ≡ header_size
    → length out ≡ header_size
    → All IsByte input
    → (h : MessageHeader) × (protocol_decode_header e (some input) ≡ some h)
      × IsHeader h
      × (protocol_encode_header e' (some h) (some out) ≡ some input)
encode-decode-IsHeader e e' input out n m b =
    let (h, v, w) = wire_onto input n b in
    (h, rw (← w) (decode_header-wire e h v), v, encode_header-wire e' h out v m ∙ ap some w)
