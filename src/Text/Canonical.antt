-- ===== src/Text/Canonical.antt =====
-- utf8.h: a sequence that is decoded is the one that its value is encoded by.
use hikari_sakura.Prelude.{
  ℕ, suc, ◌+◌, ◌*◌, ◌/◌, ◌%◌, ◌≤◌, ◌<◌, true, false, ◌==◌, ltb, if◌then◌else◌, List, [], ◌∷◌,
  Option, none, some, length, take, ◌≡◌, refl, ap, ◌∙◌, arith, ◌⊎◌, inl, inr, Bool-cases, Bool,
}
use hikari_sakura.Text.Utf8.{
  utf8_chsize, encode_tail, utf8_encode, decode_lead, decode_tail, minimum, is_refused,
  finish_decode, decode_from, utf8_decode,
}
use hikari_sakura.Text.RoundTrip.{
  IsScalar, size_1, size_2, size_3, size_4, lead_1, lead_2, lead_3, lead_4,
}
use hikari_sakura.Text.Decoding.{scalar}

-- A result that is refused; or its length and its value, with the bytes that encode it in front.
abbrev pub IsCanonical : List ℕ → Option (ℕ × ℕ) → Type 0
IsCanonical bytes r =
    (r ≡ none)
    ⊎ ((n : ℕ) × (v : ℕ) × (r ≡ some (n, v))
        × IsScalar v
        × (utf8_chsize v ≡ n)
        × (utf8_encode n v ≡ take n bytes))

-- The first byte, by the length of its sequence.
lead_cases :
    (b : ℕ)
    → (decode_lead b ≡ none)
      ⊎ (((decode_lead b ≡ some (1, b)) × (b < 128))
          ⊎ (((decode_lead b ≡ some (2, b % 32)) × (b ≡ b % 32 + 192))
              ⊎ (((decode_lead b ≡ some (3, b % 16)) × (b ≡ b % 16 + 224))
                  ⊎ ((decode_lead b ≡ some (4, b % 8)) × (b ≡ b % 8 + 240)))))
unfolding decode_lead
lead_cases b = ground arith

-- A byte behind it.
next_cases :
    (i c v : ℕ) (bytes : List ℕ)
    → (decode_tail (suc i) (c ∷ bytes) v ≡ none)
      ⊎ ((c ≡ c % 64 + 128)
          × (decode_tail (suc i) (c ∷ bytes) v ≡ decode_tail i bytes (v * 64 + c % 64)))
unfolding decode_tail
next_cases i c v bytes = elim (is_next c) [
  | inl e ↦ inl (rw e refl)
  | inr (e, h) ↦ inr (h, rw e refl)
]
  where
    is_next : (a : ℕ) → ((a / 64 == 2) ≡ false) ⊎ (((a / 64 == 2) ≡ true) × (a ≡ a % 64 + 128))
    is_next a = ground arith

finish_cases :
    (n v : ℕ)
    → (finish_decode n (some v) ≡ none)
      ⊎ ((finish_decode n (some v) ≡ some (n, v)) × IsScalar v × (minimum n ≤ v))
unfolding finish_decode is_refused minimum
finish_cases n v = elim (Bool-cases (is_refused n v)) [
  | inl e ↦ inl (rw e refl)
  | inr e ↦ inr (rw e refl, scalar n v e, at_least_minimum n v e)
]
  where
    at_least_minimum : (a b : ℕ) → is_refused a b ≡ false → minimum a ≤ b
    at_least_minimum a b e = ground arith

tail_none :
    (i x : ℕ) (b : ℕ) (bytes : List ℕ)
    → decode_tail i bytes x ≡ none
    → IsCanonical (b ∷ bytes) (decode_from bytes (some (suc i, x)))
unfolding decode_from finish_decode
tail_none i x b bytes e = inl (rw e (either (ltb (length bytes) i)))
  where
    nothing : Option (ℕ × ℕ)
    nothing = none

    either : (t : Bool) → (if t then nothing else nothing) ≡ nothing
    either true = refl
    either false = refl

tail_some :
    (i x v b : ℕ) (bytes : List ℕ)
    → ltb (length bytes) i ≡ false
    → decode_tail i bytes x ≡ some v
    → (minimum (suc i) ≤ v
        → (utf8_chsize v ≡ suc i) × (utf8_encode (suc i) v ≡ take (suc i) (b ∷ bytes)))
    → IsCanonical (b ∷ bytes) (decode_from bytes (some (suc i, x)))
unfolding decode_from
tail_some i x v b bytes long e same =
    rw (long, e)
      (elim (finish_cases (suc i) v) [
        | inl refused ↦ inl refused
        | inr (fine, s, low) ↦ inr (suc i, v, fine, s, (same low).0, (same low).1)
      ])

-- The bytes behind the first one, if there are so many that continue it.
tail_1 :
    (bytes : List ℕ) (x : ℕ)
    → (decode_tail 1 bytes x ≡ none)
      ⊎ ((c : ℕ) × (rest : List ℕ) × (bytes ≡ c ∷ rest)
          × (c ≡ c % 64 + 128)
          × (decode_tail 1 bytes x ≡ some (x * 64 + c % 64)))
unfolding decode_tail
tail_1 [] x = inl refl
tail_1 (c ∷ bytes) x = elim (next_cases 0 c x bytes) [
  | inl e ↦ inl e
  | inr (h, e) ↦ inr (c, bytes, refl, h, e)
]

tail_2 :
    (bytes : List ℕ) (x : ℕ)
    → (decode_tail 2 bytes x ≡ none)
      ⊎ ((c : ℕ) × (d : ℕ) × (rest : List ℕ) × (bytes ≡ c ∷ d ∷ rest)
          × (c ≡ c % 64 + 128)
          × (d ≡ d % 64 + 128)
          × (decode_tail 2 bytes x ≡ some ((x * 64 + c % 64) * 64 + d % 64)))
unfolding decode_tail
tail_2 [] x = inl refl
tail_2 (c ∷ bytes) x = elim (next_cases 1 c x bytes) [
  | inl e ↦ inl e
  | inr (h, e) ↦ elim (tail_1 bytes (x * 64 + c % 64)) [
    | inl f ↦ inl (e ∙ f)
    | inr (d, rest, shape, k, f) ↦ inr (c, d, rest, ap (λ l. c ∷ l) shape, h, k, e ∙ f)
  ]
]

tail_3 :
    (bytes : List ℕ) (x : ℕ)
    → (decode_tail 3 bytes x ≡ none)
      ⊎ ((c : ℕ) × (d : ℕ) × (g : ℕ) × (rest : List ℕ) × (bytes ≡ c ∷ d ∷ g ∷ rest)
          × (c ≡ c % 64 + 128)
          × (d ≡ d % 64 + 128)
          × (g ≡ g % 64 + 128)
          × (decode_tail 3 bytes x ≡ some (((x * 64 + c % 64) * 64 + d % 64) * 64 + g % 64)))
unfolding decode_tail
tail_3 [] x = inl refl
tail_3 (c ∷ bytes) x = elim (next_cases 2 c x bytes) [
  | inl e ↦ inl e
  | inr (h, e) ↦ elim (tail_2 bytes (x * 64 + c % 64)) [
    | inl f ↦ inl (e ∙ f)
    | inr (d, g, rest, shape, k, l, f) ↦ inr (c, d, g, rest, ap (λ l. c ∷ l) shape, h, k, l, e ∙ f)
  ]
]

encode_2 :
    (b c v : ℕ)
    → b ≡ b % 32 + 192
    → c ≡ c % 64 + 128
    → v ≡ b % 32 * 64 + c % 64
    → 128 ≤ v
    → (utf8_chsize v ≡ 2) × (utf8_encode 2 v ≡ b ∷ c ∷ [])
unfolding utf8_encode encode_tail
encode_2 b c v hb hc e low =
    let range : (128 ≤ v) × (v < 2048) = (low, omega (arith, e)) in
    let first : v / 64 % 64 + 192 ≡ b = omega (arith, e, hb) in
    let second : v % 64 + 128 ≡ c = omega (arith, e, hc) in
    (size_2 v range, cc (lead_2 (v / 64) v range, first, second))

encode_3 :
    (b c d v : ℕ)
    → b ≡ b % 16 + 224
    → c ≡ c % 64 + 128
    → d ≡ d % 64 + 128
    → v ≡ (b % 16 * 64 + c % 64) * 64 + d % 64
    → 2048 ≤ v
    → (utf8_chsize v ≡ 3) × (utf8_encode 3 v ≡ b ∷ c ∷ d ∷ [])
unfolding utf8_encode encode_tail
encode_3 b c d v hb hc hd e low =
    let range : (2048 ≤ v) × (v < 65536) = (low, omega (arith, e)) in
    let first : v / 64 / 64 % 32 + 224 ≡ b = omega (arith, e, hb) in
    let second : v / 64 % 64 + 128 ≡ c = omega (arith, e, hc) in
    let third : v % 64 + 128 ≡ d = omega (arith, e, hd) in
    (size_3 v range, cc (lead_3 (v / 64 / 64) v range, first, second, third))

encode_4 :
    (b c d g v : ℕ)
    → b ≡ b % 8 + 240
    → c ≡ c % 64 + 128
    → d ≡ d % 64 + 128
    → g ≡ g % 64 + 128
    → v ≡ ((b % 8 * 64 + c % 64) * 64 + d % 64) * 64 + g % 64
    → 65536 ≤ v
    → (utf8_chsize v ≡ 4) × (utf8_encode 4 v ≡ b ∷ c ∷ d ∷ g ∷ [])
unfolding utf8_encode encode_tail
encode_4 b c d g v hb hc hd hg e low =
    let range : (65536 ≤ v) × (v < 2097152) = (low, omega (arith, e)) in
    let first : v / 64 / 64 / 64 % 16 + 240 ≡ b = omega (arith, e, hb) in
    let second : v / 64 / 64 % 64 + 128 ≡ c = omega (arith, e, hc) in
    let third : v / 64 % 64 + 128 ≡ d = omega (arith, e, hd) in
    let fourth : v % 64 + 128 ≡ g = omega (arith, e, hg) in
    (size_4 v range, cc (lead_4 (v / 64 / 64 / 64) v range, first, second, third, fourth))

encode_1 : (b : ℕ) → b < 128 → (utf8_chsize b ≡ 1) × (utf8_encode 1 b ≡ b ∷ [])
unfolding utf8_encode encode_tail
encode_1 b h = let same : b % 256 ≡ b = omega arith in (size_1 b h, cc (lead_1 b b h, same))

long_enough : (i n : ℕ) → i ≤ n → ltb n i ≡ false
long_enough i n h = ground arith

-- The bytes are refused, or the value that they give is the scalar value which is encoded by just the
-- bytes that are consumed, in the length that is set aside for it.
pub utf8_decode-IsCanonical : (bytes : List ℕ) → IsCanonical bytes (utf8_decode bytes)
unfolding utf8_decode decode_from decode_tail minimum
utf8_decode-IsCanonical [] = inl refl
utf8_decode-IsCanonical (b ∷ bytes) = elim (lead_cases b) [
  | inl e ↦ rw e (inl refl)
  | inr (inl (e, h)) ↦ rw e (
      tail_some 0 b b b bytes (long_enough 0 (length bytes) (omega arith)) refl
        (λ low. encode_1 b h))
  | inr (inr (inl (e, h))) ↦ rw e (elim (tail_1 bytes (b % 32)) [
    | inl f ↦ tail_none 1 (b % 32) b bytes f
    | inr (c, rest, shape, hc, f) ↦
        tail_some 1 (b % 32) _ b bytes
          (long_enough 1 (length bytes) (omega (arith, ap length shape))) f
          (λ low. rw shape (encode_2 b c _ h hc refl low))
  ])
  | inr (inr (inr (inl (e, h)))) ↦ rw e (elim (tail_2 bytes (b % 16)) [
    | inl f ↦ tail_none 2 (b % 16) b bytes f
    | inr (c, d, rest, shape, hc, hd, f) ↦
        tail_some 2 (b % 16) _ b bytes
          (long_enough 2 (length bytes) (omega (arith, ap length shape))) f
          (λ low. rw shape (encode_3 b c d _ h hc hd refl low))
  ])
  | inr (inr (inr (inr (e, h)))) ↦ rw e (elim (tail_3 bytes (b % 8)) [
    | inl f ↦ tail_none 3 (b % 8) b bytes f
    | inr (c, d, g, rest, shape, hc, hd, hg, f) ↦
        tail_some 3 (b % 8) _ b bytes
          (long_enough 3 (length bytes) (omega (arith, ap length shape))) f
          (λ low. rw shape (encode_4 b c d g _ h hc hd hg refl low))
  ])
]
