-- ===== src/Wire/Tests.antt =====
-- protocol.h: a request and a response in bytes.
use easybd.Base.{◌≡◌, refl, [], ◌∷◌, arith, take}
use easybd.Base.Int.{pos, neg}
use easybd.Wire.{
  RequestHeader, ResponseHeader, little, big, field, low_bytes, pattern_of, encode_request,
  encode_response, decode_response, op_write, emsgsize,
}
use mathlib.Core.Equiv.{IsEquiv}
use easybd.Wire.Bytes.{put_request, put_request-IsEquiv}
use easybd.Wire.RoundTrip.{decode-encode_response}

abbrev write_header : RequestHeader
write_header = record { cid = 258; offset = 4096; size = 3; op = op_write }

abbrev refusal : ResponseHeader
refusal = record { cid = 258; res = neg (pos emsgsize) }

write_bytes : take 9 (encode_request little write_header) ≡ 2 ∷ 1 ∷ 0 ∷ 0 ∷ 0 ∷ 0 ∷ 0 ∷ 0 ∷ 0 ∷ []
unfolding encode_request field low_bytes
write_bytes = refl

refusal_bytes :
    encode_response big refusal
    ≡ 0 ∷ 0 ∷ 0 ∷ 0 ∷ 0 ∷ 0 ∷ 1 ∷ 2 ∷ 255 ∷ 255 ∷ 255 ∷ 255 ∷ 255 ∷ 255 ∷ 255 ∷ 166 ∷ []
unfolding encode_response field low_bytes pattern_of
refusal_bytes = refl

decode-encode_response_example : decode_response big (encode_response big refusal) ≡ refusal
decode-encode_response_example = decode-encode_response big refusal (omega arith) (omega arith)

put_request-IsEquiv_example : IsEquiv (put_request big)
put_request-IsEquiv_example = put_request-IsEquiv big
