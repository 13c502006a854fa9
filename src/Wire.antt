-- ===== src/Wire.antt =====
-- include/easybd/protocol.h: the headers of the wire protocol and their bytes in a packed struct.
pub mod RoundTrip
pub mod Bytes
mod Tests
use mathlib.Core.List.{reverse}
use easybd.Base.{
  ℕ, zero, suc, ◌+◌, ◌-◌, ◌*◌, ◌/◌, ◌%◌, ◌^◌, List, [], ◌∷◌, ◌++◌, ltb, if◌then◌else◌, take, drop,
}
use easybd.Base.Int.{ℤ, pos, negsuc}

-- `EASYBD_OP_READ`, `EASYBD_OP_WRITE`, `EASYBD_OP_WRITE_SYNC`
abbrev pub op_read : ℕ
op_read = 0

abbrev pub op_write : ℕ
op_write = 1

abbrev pub op_write_sync : ℕ
op_write_sync = 2

-- `EASYBD_MAX_PAYLOAD_SIZE`
abbrev pub max_payload_size : ℕ
max_payload_size = 4 * 1024 * 1024

-- `EMSGSIZE`
abbrev pub emsgsize : ℕ
emsgsize = 90

-- `struct EasyBDRequestHeader`
pub record RequestHeader : Type 0 where
  pub cid : ℕ
  pub offset : ℕ
  pub size : ℕ
  pub op : ℕ

-- `struct EasyBDResponseHeader`
pub record ResponseHeader : Type 0 where
  pub cid : ℕ
  pub res : ℤ

abbrev pub request_header_size : ℕ
request_header_size = 25

abbrev pub response_header_size : ℕ
response_header_size = 16

-- The protocol has native byte order; both ends have the same.
pub data ByteOrder : Type 0 where
  little big : ByteOrder

-- The `w` low bytes of a number, the lowest first.
pub low_bytes : ℕ → ℕ → List ℕ
low_bytes zero n = []
low_bytes (suc w) n = (n % 256) ∷ low_bytes w (n / 256)

pub value : List ℕ → ℕ
value [] = 0
value (b ∷ bs) = b + 256 * value bs

-- An unsigned field of `w` bytes in memory, and the number that it holds.
pub field : ByteOrder → ℕ → ℕ → List ℕ
unfolding low_bytes
field little w n = low_bytes w n
field big w n = reverse (low_bytes w n)

pub unfield : ByteOrder → List ℕ → ℕ
unfolding value
unfield little bs = value bs
unfield big bs = value (reverse bs)

-- An `int64_t` as its bit pattern.
pub pattern_of : ℤ → ℕ
pattern_of (pos n) = n
pattern_of (negsuc n) = 2 ^ 64 - 1 - n

pub signed : ℕ → ℤ
signed w = if ltb w (2 ^ 63) then pos w else negsuc (2 ^ 64 - 1 - w)

pub encode_request : ByteOrder → RequestHeader → List ℕ
unfolding field
encode_request order h =
    field order 8 h.cid ++ (field order 8 h.offset ++ (field order 8 h.size ++ field order 1 h.op))

-- `memcpy(&req, header_span.data(), sizeof(req))`
unfoldable pub decode_request : ByteOrder → List ℕ → RequestHeader
unfolding unfield
decode_request order bs = record {
  cid = unfield order (take 8 bs);
  offset = unfield order (take 8 (drop 8 bs));
  size = unfield order (take 8 (drop 16 bs));
  op = unfield order (take 1 (drop 24 bs));
}

pub encode_response : ByteOrder → ResponseHeader → List ℕ
unfolding field pattern_of
encode_response order h = field order 8 h.cid ++ field order 8 (pattern_of h.res)

-- `memcpy(&resp, hdr_span.data(), sizeof(resp))`
pub decode_response : ByteOrder → List ℕ → ResponseHeader
unfolding unfield signed
decode_response order bs = record {
  cid = unfield order (take 8 bs);
  res = signed (unfield order (take 8 (drop 8 bs)));
}
