-- ===== src/Text/RoundTrip.antt =====
-- utf8.h: what is encoded is decoded.
use hikari_sakura.Prelude.{
  ℕ, suc, ◌+◌, ◌*◌, ◌/◌, ◌%◌, ◌≤◌, ◌<◌, true, false, ◌==◌, ltb, List, ◌∷◌, ◌++◌, some, length, ◌≡◌,
  refl, ap, sym, ◌∙◌, arith, ◌⊎◌, inl, inr,
}
use hikari_sakura.Text.Utf8.{
  utf8_chsize, lead_byte, encode_tail, utf8_encode, decode_lead, decode_tail, minimum, is_refused,
  finish_decode, decode_from, utf8_decode,
}

-- A Unicode scalar value.
abbrev pub IsScalar : ℕ → Type 0
IsScalar c = (c < 55296) ⊎ ((57344 ≤ c) × (c ≤ 1114111))

decode_lead_1 : (c : ℕ) → c < 128 → decode_lead (c % 256) ≡ some (1, c)
unfolding decode_lead
decode_lead_1 c h = ground arith

decode_lead_2 : (c : ℕ) → c < 32 → decode_lead (c % 64 + 192) ≡ some (2, c)
unfolding decode_lead
decode_lead_2 c h = ground arith

decode_lead_3 : (c : ℕ) → c < 16 → decode_lead (c % 32 + 224) ≡ some (3, c)
unfolding decode_lead
decode_lead_3 c h = ground arith

decode_lead_4 : (c : ℕ) → c < 8 → decode_lead (c % 16 + 240) ≡ some (4, c)
unfolding decode_lead
decode_lead_4 c h = ground arith

-- A byte that is no first byte, with six more bits.
decode_next :
    (i c v : ℕ) (bytes : List ℕ)
    → decode_tail (suc i) ((c % 64 + 128) ∷ bytes) v ≡ decode_tail i bytes (v * 64 + c % 64)
unfolding decode_tail
decode_next i c v bytes = rw (is_next c, low_bits c) refl
  where
    is_next : (a : ℕ) → ((a % 64 + 128) / 64 == 2) ≡ true
    is_next a = ground arith

    low_bits : (a : ℕ) → (a % 64 + 128) % 64 ≡ a % 64
    low_bits a = omega arith

-- A scalar value is not refused with the length that it has.
not_refused : (c : ℕ) → IsScalar c → is_refused (utf8_chsize c) c ≡ false
unfolding is_refused minimum utf8_chsize
not_refused c h = ground arith

long_enough : (i : ℕ) (bytes : List ℕ) → i ≤ length bytes → ltb (length bytes) i ≡ false
long_enough i bytes h = ground arith

decoded :
    (c i v : ℕ) (bytes : List ℕ)
    → IsScalar c
    → utf8_chsize c ≡ suc i
    → i ≤ length bytes
    → decode_tail i bytes v ≡ some c
    → decode_from bytes (some (suc i, v)) ≡ some (utf8_chsize c, c)
unfolding decode_from finish_decode
decoded c i v bytes h size long e = rw (long_enough i bytes long, e, sym size, not_refused c h) refl

pub size_1 : (c : ℕ) → c < 128 → utf8_chsize c ≡ 1
unfolding utf8_chsize
size_1 c h = ground arith

pub lead_1 : (a c : ℕ) → c < 128 → lead_byte a c ≡ a % 256
unfolding lead_byte
lead_1 a c h = ground arith

pub size_2 : (c : ℕ) → (128 ≤ c) × (c < 2048) → utf8_chsize c ≡ 2
unfolding utf8_chsize
size_2 c h = ground arith

pub lead_2 : (a c : ℕ) → (128 ≤ c) × (c < 2048) → lead_byte a c ≡ a % 64 + 192
unfolding lead_byte
lead_2 a c h = ground arith

pub size_3 : (c : ℕ) → (2048 ≤ c) × (c < 65536) → utf8_chsize c ≡ 3
unfolding utf8_chsize
size_3 c h = ground arith

pub lead_3 : (a c : ℕ) → (2048 ≤ c) × (c < 65536) → lead_byte a c ≡ a % 32 + 224
unfolding lead_byte
lead_3 a c h = ground arith

pub size_4 : (c : ℕ) → (65536 ≤ c) × (c < 2097152) → utf8_chsize c ≡ 4
unfolding utf8_chsize
size_4 c h = ground arith

pub lead_4 : (a c : ℕ) → (65536 ≤ c) × (c < 2097152) → lead_byte a c ≡ a % 16 + 240
unfolding lead_byte
lead_4 a c h = ground arith

one_byte :
    (c : ℕ) (rest : List ℕ)
    → c < 128
    → IsScalar c
    → utf8_decode (utf8_encode 1 c ++ rest) ≡ some (utf8_chsize c, c)
unfolding utf8_encode utf8_decode encode_tail decode_tail
one_byte c rest h s =
    rw (lead_1 c c h, decode_lead_1 c (omega (arith, h)))
      (decoded c 0 c (rest) s (size_1 c h) (omega arith) (refl))

two_bytes :
    (c : ℕ) (rest : List ℕ)
    → (128 ≤ c) × (c < 2048)
    → IsScalar c
    → utf8_decode (utf8_encode 2 c ++ rest) ≡ some (utf8_chsize c, c)
unfolding utf8_encode utf8_decode encode_tail decode_tail
two_bytes c rest h s =
    rw (lead_2 (c / 64) c h, decode_lead_2 (c / 64) (omega (arith, h)))
      (decoded c 1 (c / 64) ((c % 64 + 128) ∷ rest) s (size_2 c h) (omega arith)
        (decode_next 0 c ((c / 64)) (rest) ∙ ap some bits))
  where
    bits : (c / 64) * 64 + c % 64 ≡ c
    bits = omega arith

three_bytes :
    (c : ℕ) (rest : List ℕ)
    → (2048 ≤ c) × (c < 65536)
    → IsScalar c
    → utf8_decode (utf8_encode 3 c ++ rest) ≡ some (utf8_chsize c, c)
unfolding utf8_encode utf8_decode encode_tail decode_tail
three_bytes c rest h s =
    rw (lead_3 (c / 64 / 64) c h, decode_lead_3 (c / 64 / 64) (omega (arith, h)))
      (decoded c 2 (c / 64 / 64) ((c / 64 % 64 + 128) ∷ (c % 64 + 128) ∷ rest) s (size_3 c h)
        (omega arith)
        (decode_next 1 (c / 64) ((c / 64 / 64)) ((c % 64 + 128) ∷ rest)
          ∙ decode_next 0 c ((c / 64 / 64) * 64 + c / 64 % 64) (rest)
          ∙ ap some bits))
  where
    bits : ((c / 64 / 64) * 64 + c / 64 % 64) * 64 + c % 64 ≡ c
    bits = omega arith

four_bytes :
    (c : ℕ) (rest : List ℕ)
    → (65536 ≤ c) × (c < 2097152)
    → IsScalar c
    → utf8_decode (utf8_encode 4 c ++ rest) ≡ some (utf8_chsize c, c)
unfolding utf8_encode utf8_decode encode_tail decode_tail
four_bytes c rest h s =
    rw (lead_4 (c / 64 / 64 / 64) c h, decode_lead_4 (c / 64 / 64 / 64) (omega (arith, h)))
      (decoded c 3 (c / 64 / 64 / 64)
        ((c / 64 / 64 % 64 + 128) ∷ (c / 64 % 64 + 128) ∷ (c % 64 + 128) ∷ rest) s (size_4 c h)
        (omega arith)
        (decode_next 2 (c / 64 / 64) ((c / 64 / 64 / 64))
            ((c / 64 % 64 + 128) ∷ (c % 64 + 128) ∷ rest)
          ∙ decode_next 1 (c / 64) ((c / 64 / 64 / 64) * 64 + c / 64 / 64 % 64)
              ((c % 64 + 128) ∷ rest)
          ∙ decode_next 0 c (((c / 64 / 64 / 64) * 64 + c / 64 / 64 % 64) * 64 + c / 64 % 64) (rest)
          ∙ ap some bits))
  where
    bits : (((c / 64 / 64 / 64) * 64 + c / 64 / 64 % 64) * 64 + c / 64 % 64) * 64 + c % 64 ≡ c
    bits = omega arith

-- Whatever comes behind it, a scalar value that has been encoded is decoded again, with the length
-- that was set aside for it.
pub utf8_decode-utf8_encode :
    (c : ℕ) (rest : List ℕ)
    → IsScalar c
    → utf8_decode (utf8_encode (utf8_chsize c) c ++ rest) ≡ some (utf8_chsize c, c)
utf8_decode-utf8_encode c rest s = elim (ranges c) [
  | inl h ↦ ap (λ k. utf8_decode (utf8_encode k c ++ rest)) (size_1 c h) ∙ one_byte c rest h s
  | inr (inl h) ↦
      ap (λ k. utf8_decode (utf8_encode k c ++ rest)) (size_2 c h) ∙ two_bytes c rest h s
  | inr (inr (inl h)) ↦
      ap (λ k. utf8_decode (utf8_encode k c ++ rest)) (size_3 c h) ∙ three_bytes c rest h s
  | inr (inr (inr h)) ↦
      ap (λ k. utf8_decode (utf8_encode k c ++ rest)) (size_4 c (h, below))
      ∙ four_bytes c rest (h, below) s
]
  where
    ranges :
        (n : ℕ)
        → (n < 128) ⊎ (((128 ≤ n) × (n < 2048)) ⊎ (((2048 ≤ n) × (n < 65536)) ⊎ (65536 ≤ n)))
    ranges n = ground arith

    below : c < 2097152
    below = ground arith
