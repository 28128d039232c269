-- ===== src/Text/Decoding.antt =====
-- utf8.h: what the decoder promises of any bytes.
use hikari_sakura.Prelude.{
  ℕ, zero, suc, ◌≤◌, true, false, ltb, List, [], ◌∷◌, Option, none, some, length, ◌≡◌, refl, arith,
  ◌⊎◌, inl, inr, Bool-cases,
}
use hikari_sakura.Text.Utf8.{
  decode_lead, decode_tail, is_refused, finish_decode, decode_from, utf8_decode,
}
use hikari_sakura.Text.RoundTrip.{IsScalar}

-- A result that is refused, or of this length at most and a scalar value.
abbrev pub IsSound : ℕ → Option (ℕ × ℕ) → Type 0
IsSound most r =
    (r ≡ none) ⊎ ((n : ℕ) × (v : ℕ) × (r ≡ some (n, v)) × (1 ≤ n) × (n ≤ most) × IsScalar v)

pub scalar : (n v : ℕ) → is_refused n v ≡ false → IsScalar v
unfolding is_refused
scalar n v h = ground arith

finish_decode-IsSound :
    (i most : ℕ) (o : Option ℕ) → suc i ≤ most → IsSound most (finish_decode (suc i) o)
unfolding finish_decode
finish_decode-IsSound i most none h = inl refl
finish_decode-IsSound i most (some v) h = elim (Bool-cases (is_refused (suc i) v)) [
  | inl refused ↦ inl (rw refused refl)
  | inr fine ↦ inr (suc i, v, rw fine refl, omega arith, h, scalar (suc i) v fine)
]

decode_from-IsSound :
    (bytes : List ℕ) (o : Option (ℕ × ℕ)) → IsSound (suc (length bytes)) (decode_from bytes o)
unfolding decode_from
decode_from-IsSound bytes none = inl refl
decode_from-IsSound bytes (some (zero, v)) = inl refl
decode_from-IsSound bytes (some (suc i, v)) = elim (enough (length bytes) i) [
  | inl short ↦ inl (rw short refl)
  | inr (long, h) ↦ rw long (finish_decode-IsSound i (suc (length bytes)) (decode_tail i bytes v) h)
]
  where
    enough : (a b : ℕ) → (ltb a b ≡ true) ⊎ ((ltb a b ≡ false) × (suc b ≤ suc a))
    enough a b = ground arith

-- Whatever the bytes are, the decoder refuses them, or it consumes at least one of them, no more
-- than there are, and gives a Unicode scalar value.
pub utf8_decode-IsSound : (bytes : List ℕ) → IsSound (length bytes) (utf8_decode bytes)
unfolding utf8_decode
utf8_decode-IsSound [] = inl refl
utf8_decode-IsSound (b ∷ bytes) = decode_from-IsSound bytes (decode_lead b)
