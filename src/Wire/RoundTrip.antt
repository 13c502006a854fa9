-- ===== src/Wire/RoundTrip.antt =====
-- protocol.h: what one end encodes the other end decodes.
use mathlib.Core.List.{reverse, reverse-reverse, reverse-cons}
use native.Mathlib.Nat.{pow-suc}
use easybd.Base.{
  ℕ, zero, suc, ◌/◌, ◌^◌, ◌<◌, ◌≡◌, refl, ap, ◌∙◌, List, [], ◌∷◌, ◌++◌, length, take, drop, arith,
  append-nil, append_assoc, length-append, take-eq_of_append, drop-eq_of_append, lt→ltb,
}
use easybd.Base.Int.{ℤ, pos, negsuc}
use easybd.Wire.{
  RequestHeader, ResponseHeader, ByteOrder, little, big, low_bytes, value, field, unfield,
  pattern_of, signed, encode_request, decode_request, encode_response, decode_response,
  request_header_size, response_header_size,
}

value-low_bytes : (w n : ℕ) → n < 256 ^ w → value (low_bytes w n) ≡ n
unfolding value low_bytes
value-low_bytes zero n h = omega (arith, h)
value-low_bytes (suc w) n h =
    omega (arith, value-low_bytes w (n / 256) (omega (arith, h, pow-suc 256 w)))

length-low_bytes : (w n : ℕ) → length (low_bytes w n) ≡ w
unfolding low_bytes
length-low_bytes zero n = refl
length-low_bytes (suc w) n = ap suc (length-low_bytes w (n / 256))

pub length-reverse : (xs : List ℕ) → length (reverse xs) ≡ length xs
length-reverse [] = refl
length-reverse (x ∷ xs) =
    omega
      (arith, ap length (reverse-cons x xs), length-append (reverse xs) (x ∷ []), length-reverse xs)

pub length-field : (order : ByteOrder) (w n : ℕ) → length (field order w n) ≡ w
unfolding field
length-field little w n = length-low_bytes w n
length-field big w n = length-reverse (low_bytes w n) ∙ length-low_bytes w n

pub unfield-field :
    (order : ByteOrder) (w n : ℕ) → n < 256 ^ w → unfield order (field order w n) ≡ n
unfolding field unfield
unfield-field little w n h = value-low_bytes w n h
unfield-field big w n h = ap value (reverse-reverse (low_bytes w n)) ∙ value-low_bytes w n h

-- The number that an `int64_t` may hold.
abbrev pub IsInt64 : ℤ → Type 0
IsInt64 (pos n) = n < 2 ^ 63
IsInt64 (negsuc n) = n < 2 ^ 63

signed-pattern_of : (a : ℤ) → IsInt64 a → signed (pattern_of a) ≡ a
unfolding signed pattern_of
signed-pattern_of (pos n) h = rw (lt→ltb _ _ h)
signed-pattern_of (negsuc n) h = ground arith

pattern_of-lt : (a : ℤ) → IsInt64 a → pattern_of a < 256 ^ 8
unfolding pattern_of
pattern_of-lt (pos n) h = omega arith
pattern_of-lt (negsuc n) h = omega arith

-- The widths of the fields.
pub record Fits (h : RequestHeader) : Type 0 where
  pub cid : h.cid < 2 ^ 64
  pub offset : h.offset < 2 ^ 64
  pub size : h.size < 2 ^ 64
  pub op : h.op < 2 ^ 8

pub length-encode_request :
    (order : ByteOrder) (h : RequestHeader) → length (encode_request order h) ≡ request_header_size
unfolding encode_request
length-encode_request order h = omega (
  arith,
  length-append (field order 8 h.cid)
      (field order 8 h.offset ++ (field order 8 h.size ++ field order 1 h.op)),
  length-append (field order 8 h.offset) (field order 8 h.size ++ field order 1 h.op),
  length-append (field order 8 h.size) (field order 1 h.op),
  length-field order 8 h.cid,
  length-field order 8 h.offset,
  length-field order 8 h.size,
  length-field order 1 h.op,
)

pub length-encode_response :
    (order : ByteOrder) (h : ResponseHeader)
    → length (encode_response order h) ≡ response_header_size
unfolding encode_response
length-encode_response order h = omega (
  arith,
  length-append (field order 8 h.cid) (field order 8 (pattern_of h.res)),
  length-field order 8 h.cid,
  length-field order 8 (pattern_of h.res),
)

-- Four parts of eight, eight, eight and one bytes are found where the decoder looks for them.
module _ (a b c d : List ℕ) (la : length a ≡ 8) (lb : length b ≡ 8) (lc : length c ≡ 8)
    (ld : length d ≡ 1) where
  cut_b : take 8 (drop 8 (a ++ (b ++ (c ++ d)))) ≡ b
  cut_b = ap (take 8) (drop-eq_of_append 8 a _ _ la refl) ∙ take-eq_of_append 8 b (c ++ d) _ lb refl

  cut_c : take 8 (drop 16 (a ++ (b ++ (c ++ d)))) ≡ c
  cut_c =
      ap (take 8) (
        drop-eq_of_append 16 (a ++ b) (c ++ d) _ (omega (arith, la, lb, length-append a b))
          (append_assoc a b (c ++ d)))
      ∙ take-eq_of_append 8 c d _ lc refl

  cut_d : take 1 (drop 24 (a ++ (b ++ (c ++ d)))) ≡ d
  cut_d =
      ap (take 1) (
        drop-eq_of_append 24 ((a ++ b) ++ c) d _
          (omega (arith, la, lb, lc, length-append a b, length-append (a ++ b) c))
          (append_assoc (a ++ b) c d ∙ append_assoc a b (c ++ d)))
      ∙ take-eq_of_append 1 d [] d ld (append-nil d)

-- A request header whose fields fit their widths is read back as it was written, on a machine of
-- either byte order.
pub decode-encode_request :
    (order : ByteOrder) (h : RequestHeader)
    → Fits h
    → decode_request order (encode_request order h) ≡ h
unfolding decode_request encode_request
decode-encode_request order h v = λ i. record { cid = p0 i; offset = p1 i; size = p2 i; op = p3 i }
  where
    a : List ℕ
    a = field order 8 h.cid

    b : List ℕ
    b = field order 8 h.offset

    c : List ℕ
    c = field order 8 h.size

    d : List ℕ
    d = field order 1 h.op

    la : length a ≡ 8
    la = length-field order 8 h.cid

    lb : length b ≡ 8
    lb = length-field order 8 h.offset

    lc : length c ≡ 8
    lc = length-field order 8 h.size

    ld : length d ≡ 1
    ld = length-field order 1 h.op

    p0 : unfield order (take 8 (a ++ (b ++ (c ++ d)))) ≡ h.cid
    p0 =
        ap (unfield order) (take-eq_of_append 8 a _ _ la refl)
        ∙ unfield-field order 8 h.cid (omega (arith, v.cid))

    p1 : unfield order (take 8 (drop 8 (a ++ (b ++ (c ++ d))))) ≡ h.offset
    p1 =
        ap (unfield order) (cut_b a b c d la lb lc ld)
        ∙ unfield-field order 8 h.offset (omega (arith, v.offset))

    p2 : unfield order (take 8 (drop 16 (a ++ (b ++ (c ++ d))))) ≡ h.size
    p2 =
        ap (unfield order) (cut_c a b c d la lb lc ld)
        ∙ unfield-field order 8 h.size (omega (arith, v.size))

    p3 : unfield order (take 1 (drop 24 (a ++ (b ++ (c ++ d))))) ≡ h.op
    p3 =
        ap (unfield order) (cut_d a b c d la lb lc ld)
        ∙ unfield-field order 1 h.op (omega (arith, v.op))

-- A response header with a cid of 64 bits and a result in the range of `int64_t`, a count or a
-- negative errno, is read back as it was written, on a machine of either byte order.
pub decode-encode_response :
    (order : ByteOrder) (h : ResponseHeader)
    → h.cid < 2 ^ 64
    → IsInt64 h.res
    → decode_response order (encode_response order h) ≡ h
unfolding decode_response encode_response
decode-encode_response order h hc hr = λ i. record { cid = p0 i; res = p1 i }
  where
    a : List ℕ
    a = field order 8 h.cid

    b : List ℕ
    b = field order 8 (pattern_of h.res)

    p0 : unfield order (take 8 (a ++ b)) ≡ h.cid
    p0 =
        ap (unfield order) (take-eq_of_append 8 a b _ (length-field order 8 h.cid) refl)
        ∙ unfield-field order 8 h.cid (omega (arith, hc))

    p1 : signed (unfield order (take 8 (drop 8 (a ++ b)))) ≡ h.res
    p1 =
        ap (λ t. signed (unfield order t))
          (ap (take 8) (drop-eq_of_append 8 a b _ (length-field order 8 h.cid) refl)
            ∙ take-eq_of_append 8 b [] b (length-field order 8 (pattern_of h.res)) (append-nil b))
        ∙ ap signed (unfield-field order 8 (pattern_of h.res) (pattern_of-lt h.res hr))
        ∙ signed-pattern_of h.res hr
