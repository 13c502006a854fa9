-- ===== src/Wire/Bytes.antt =====
-- protocol.h: the headers as types of bytes.
use mathlib.Core.List.{reverse, reverse-reverse, reverse-cons}
use mathlib.Core.Equiv.{IsEquiv, iso_to_equiv}
use mathlib.Core.HLevel.{Σ_prop_path}
use native.Mathlib.Nat.{pow-suc}
use native.Mathlib.Bridge.{le_prop}
use easybd.Base.{
  ℕ, zero, suc, ◌+◌, ◌/◌, ◌^◌, ◌<◌, ◌≤◌, ◌≡◌, refl, sym, ap, ap₂, ◌∙◌, subst, List, [], ◌∷◌, ◌++◌,
  length, take, drop, arith, All, All-append, length-take, length-drop, take-append-drop, take_all,
}
use easybd.Wire.{
  RequestHeader, ByteOrder, little, big, low_bytes, value, field, unfield, encode_request,
  decode_request, request_header_size,
}
use easybd.Wire.RoundTrip.{Fits, length-reverse, length-encode_request, decode-encode_request}

abbrev pub AllBytes : List ℕ → Type 0
AllBytes bs = All (λ b. b < 256) bs

pub record AreBytes (n : ℕ) (bs : List ℕ) : Type 0 where
  pub len : length bs ≡ n
  pub all : AllBytes bs

-- So many bytes.
abbrev pub Bytes : ℕ → Type 0
Bytes n = (bs : List ℕ) × AreBytes n bs

-- A header whose fields have the widths of the struct.
abbrev pub FitRequest : Type 0
FitRequest = (h : RequestHeader) × Fits h

value-lt : (bs : List ℕ) → AllBytes bs → value bs < 256 ^ length bs
unfolding value
value-lt [] h = omega arith
value-lt (b ∷ bs) h = omega (arith, value-lt bs h.1, h.0, pow-suc 256 (length bs))

low_bytes-value : (bs : List ℕ) → AllBytes bs → low_bytes (length bs) (value bs) ≡ bs
unfolding low_bytes value
low_bytes-value [] h = refl
low_bytes-value (b ∷ bs) h =
    ap₂ (λ x l. x ∷ l) (omega (arith, h.0))
      (ap (low_bytes (length bs)) (omega (arith, h.0)) ∙ low_bytes-value bs h.1)

low_bytes-AllBytes : (w n : ℕ) → AllBytes (low_bytes w n)
unfolding low_bytes
low_bytes-AllBytes zero n = tt
low_bytes-AllBytes (suc w) n = (omega arith, low_bytes-AllBytes w (n / 256))

reverse-AllBytes : (bs : List ℕ) → AllBytes bs → AllBytes (reverse bs)
reverse-AllBytes [] h = tt
reverse-AllBytes (b ∷ bs) h =
    subst AllBytes (sym (reverse-cons b bs))
      (All-append _ (reverse bs) (b ∷ []) (reverse-AllBytes bs h.1) (h.0, tt))

Fits-prop : (h : RequestHeader) → IsProp (Fits h)
Fits-prop h = hlevel le_prop

AllBytes-prop : (bs : List ℕ) → IsProp (AllBytes bs)
AllBytes-prop [] = hlevel
AllBytes-prop (b ∷ bs) = hlevel (le_prop, AllBytes-prop bs)

AreBytes-prop : (n : ℕ) (bs : List ℕ) → IsProp (AreBytes n bs)
AreBytes-prop n bs = hlevel (AllBytes-prop bs)

field-AllBytes : (order : ByteOrder) (w n : ℕ) → AllBytes (field order w n)
unfolding field
field-AllBytes little w n = low_bytes-AllBytes w n
field-AllBytes big w n = reverse-AllBytes (low_bytes w n) (low_bytes-AllBytes w n)

encode_request-AllBytes :
    (order : ByteOrder) (h : RequestHeader) → AllBytes (encode_request order h)
unfolding encode_request
encode_request-AllBytes order h =
    All-append _ (field order 8 h.cid) _ (field-AllBytes order 8 h.cid) (
      All-append _ (field order 8 h.offset) _ (field-AllBytes order 8 h.offset) (
        All-append _ (field order 8 h.size) (field order 1 h.op) (field-AllBytes order 8 h.size)
          (field-AllBytes order 1 h.op)))

-- A part of the bytes of a header is the field that it is read as.
field-unfield :
    (order : ByteOrder) (w : ℕ) (bs : List ℕ)
    → length bs ≡ w
    → AllBytes bs
    → field order w (unfield order bs) ≡ bs
unfolding field unfield
field-unfield little w bs e h = subst (λ k. low_bytes k (value bs) ≡ bs) e (low_bytes-value bs h)
field-unfield big w bs e h =
    ap reverse (
      subst (λ k. low_bytes k (value (reverse bs)) ≡ reverse bs) (length-reverse bs ∙ e)
        (low_bytes-value (reverse bs) (reverse-AllBytes bs h)))
    ∙ reverse-reverse bs

unfield-lt :
    (order : ByteOrder) (w : ℕ) (bs : List ℕ)
    → length bs ≡ w
    → AllBytes bs
    → unfield order bs < 256 ^ w
unfolding unfield
unfield-lt little w bs e h = subst (λ k. value bs < 256 ^ k) e (value-lt bs h)
unfield-lt big w bs e h =
    subst (λ k. value (reverse bs) < 256 ^ k) (length-reverse bs ∙ e)
      (value-lt (reverse bs) (reverse-AllBytes bs h))

take-AllBytes : (n : ℕ) (bs : List ℕ) → AllBytes bs → AllBytes (take n bs)
take-AllBytes zero bs h = tt
take-AllBytes (suc n) [] h = tt
take-AllBytes (suc n) (b ∷ bs) h = (h.0, take-AllBytes n bs h.1)

drop-AllBytes : (n : ℕ) (bs : List ℕ) → AllBytes bs → AllBytes (drop n bs)
drop-AllBytes zero bs h = h
drop-AllBytes (suc n) [] h = tt
drop-AllBytes (suc n) (b ∷ bs) h = drop-AllBytes n bs h.1

drop_nil : (m : ℕ) → drop {A = ℕ} m [] ≡ []
drop_nil zero = refl
drop_nil (suc m) = refl

drop-drop : (m n : ℕ) (bs : List ℕ) → drop m (drop n bs) ≡ drop (n + m) bs
drop-drop m zero bs = ap (λ k. drop k bs) (omega arith)
drop-drop m (suc n) [] = drop_nil m ∙ sym (drop_nil (suc n + m))
drop-drop m (suc n) (b ∷ bs) =
    let e : suc (n + m) ≡ suc n + m = omega arith in drop-drop m n bs ∙ ap (λ k. drop k (b ∷ bs)) e

-- The part of m bytes from n on, before what follows it.
part : (n m : ℕ) (bs : List ℕ) → take m (drop n bs) ++ drop (n + m) bs ≡ drop n bs
part n m bs =
    ap (λ l. take m (drop n bs) ++ l) (sym (drop-drop m n bs)) ∙ take-append-drop m (drop n bs)

module _ (order : ByteOrder) (bs : List ℕ) (len : length bs ≡ 25) (h : AllBytes bs) where
  length-part : (n m : ℕ) → n + m ≤ 25 → length (take m (drop n bs)) ≡ m
  length-part n m k = omega (arith, length-take m (drop n bs), length-drop n bs)

  part-AllBytes : (n m : ℕ) → AllBytes (take m (drop n bs))
  part-AllBytes n m = take-AllBytes m (drop n bs) (drop-AllBytes n bs h)

  field-part :
      (n m : ℕ)
      → n + m ≤ 25
      → field order m (unfield order (take m (drop n bs))) ≡ take m (drop n bs)
  field-part n m k =
      field-unfield order m (take m (drop n bs)) (length-part n m k) (part-AllBytes n m)

  part-lt : (n m : ℕ) → n + m ≤ 25 → unfield order (take m (drop n bs)) < 256 ^ m
  part-lt n m k = unfield-lt order m (take m (drop n bs)) (length-part n m k) (part-AllBytes n m)

  decode_request-Fits : Fits (decode_request order bs)
  unfolding decode_request
  decode_request-Fits = record {
    cid = omega (arith, part-lt 0 8 (omega arith));
    offset = omega (arith, part-lt 8 8 (omega arith));
    size = omega (arith, part-lt 16 8 (omega arith));
    op = omega (arith, part-lt 24 1 (omega arith));
  }

  encode-decode_request : encode_request order (decode_request order bs) ≡ bs
  unfolding encode_request decode_request
  encode-decode_request =
      ap₂ (λ x l. x ++ l) (field-part 0 8 (omega arith))
        (ap₂ (λ x l. x ++ l) (field-part 8 8 (omega arith))
          (ap₂ (λ x l. x ++ l) (field-part 16 8 (omega arith)) (field-part 24 1 (omega arith))))
      ∙ ap (λ l. take 8 bs ++ (take 8 (drop 8 bs) ++ l))
          (ap (λ l. take 8 (drop 16 bs) ++ l)
              (take_all 1 (drop 24 bs) (omega (arith, length-drop 24 bs)))
            ∙ part 16 8 bs)
      ∙ ap (λ l. take 8 bs ++ l) (part 8 8 bs)
      ∙ part 0 8 bs

-- `memcpy` between the struct and the bytes of the connection.
pub put_request : ByteOrder → FitRequest → Bytes request_header_size
put_request order (h, v) = (
  encode_request order h,
  record { len = length-encode_request order h; all = encode_request-AllBytes order h },
)

get_request : ByteOrder → Bytes request_header_size → FitRequest
get_request order (bs, v) = (decode_request order bs, decode_request-Fits order bs v.len v.all)

-- On a machine of either byte order, to write a request header whose fields have the widths of the struct is an
-- equivalence between such headers and the lists of 25 bytes: every such list is the header of exactly
-- one request.
pub put_request-IsEquiv : (order : ByteOrder) → IsEquiv (put_request order)
unfolding put_request get_request
put_request-IsEquiv order =
    (iso_to_equiv (record {
      fun = put_request order;
      inv = get_request order;
      rinv = λ b.
          Σ_prop_path (AreBytes-prop request_header_size)
            (encode-decode_request order b.0 b.1.len b.1.all);
      linv = λ a. Σ_prop_path Fits-prop (decode-encode_request order a.0 a.1);
    })).1
