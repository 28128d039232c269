-- ===== src/Text/Utf8.antt =====
-- utf8.h. A byte is a number below 256, and `&`, `|`, `<<` and `>>` are written as the remainders,
-- sums, products and quotients that they are for the masks of the source.
use hikari_sakura.Prelude.{
  ℕ, zero, suc, ◌+◌, ◌*◌, ◌/◌, ◌%◌, Bool, ◌||◌, ◌&&◌, ◌==◌, ltb, leb, if◌then◌else◌, List, [], ◌∷◌,
  Option, none, some, length,
}

unfoldable pub utf8_chsize : ℕ → ℕ
utf8_chsize codepoint =
    if ltb codepoint 128
    then 1
    else if ltb codepoint 2048
    then 2
    else if ltb codepoint 65536
    then 3
    else 4

-- `codepoint | first`, cut to a byte: what is left of the code point, and the code point.
unfoldable pub lead_byte : ℕ → ℕ → ℕ
lead_byte left codepoint =
    if ltb codepoint 128
    then left % 256
    else if ltb codepoint 2048
    then left % 64 + 192
    else if ltb codepoint 65536
    then left % 32 + 224
    else left % 16 + 240

-- The loop from the last byte to the second: what is left of the code point, and the bytes.
unfoldable pub encode_tail : ℕ → ℕ → List ℕ → ℕ × List ℕ
encode_tail zero codepoint bytes = (codepoint, bytes)
encode_tail (suc i) codepoint bytes =
    encode_tail i (codepoint / 64) ((codepoint % 64 + 128) ∷ bytes)

-- The bytes that are written, `length` of them, where it is at least 1.
unfoldable pub utf8_encode : ℕ → ℕ → List ℕ
unfolding lead_byte encode_tail
utf8_encode zero codepoint = []
utf8_encode (suc i) codepoint =
    let tail = encode_tail i codepoint [] in lead_byte tail.0 codepoint ∷ tail.1

-- The length of a sequence, and the bits of its first byte.
unfoldable pub decode_lead : ℕ → Option (ℕ × ℕ)
decode_lead byte =
    if ltb byte 128
    then some (1, byte)
    else if byte / 32 == 6
    then some (2, byte % 32)
    else if byte / 16 == 14
    then some (3, byte % 16)
    else if byte / 8 == 30
    then some (4, byte % 8)
    else none

unfoldable pub decode_tail : ℕ → List ℕ → ℕ → Option ℕ
decode_tail zero bytes value = some value
decode_tail (suc i) [] value = none
decode_tail (suc i) (byte ∷ bytes) value =
    let rest = decode_tail i bytes (value * 64 + byte % 64) in if byte / 64 == 2 then rest else none

unfoldable pub minimum : ℕ → ℕ
minimum length =
    if length == 2 then 128 else if length == 3 then 2048 else if length == 4 then 65536 else 0

-- The last test: an overlong sequence, a value that is too large, a surrogate.
unfoldable pub is_refused : ℕ → ℕ → Bool
unfolding minimum
is_refused length value =
    ltb value (minimum length) || ltb 1114111 value || (leb 55296 value && leb value 57343)

unfoldable pub finish_decode : ℕ → Option ℕ → Option (ℕ × ℕ)
unfolding is_refused
finish_decode length none = none
finish_decode length (some value) = if is_refused length value then none else some (length, value)

unfoldable pub decode_from : List ℕ → Option (ℕ × ℕ) → Option (ℕ × ℕ)
unfolding decode_tail finish_decode
decode_from bytes none = none
decode_from bytes (some (zero, value)) = none
decode_from bytes (some (suc i, value)) =
    if ltb (length bytes) i then none else finish_decode (suc i) (decode_tail i bytes value)

-- The length of the sequence that the bytes start with and its code point, or `none` for 0.
unfoldable pub utf8_decode : List ℕ → Option (ℕ × ℕ)
unfolding decode_lead decode_from
utf8_decode [] = none
utf8_decode (byte ∷ bytes) = decode_from bytes (decode_lead byte)
