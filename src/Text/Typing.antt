-- ===== src/Text/Typing.antt =====
-- input_buffer.c: an input buffer is a stack of at most 255 bytes, the last one typed first.
use hikari_sakura.Prelude.{
  ℕ, zero, suc, ◌+◌, ◌-◌, ◌/◌, ◌%◌, ◌≤◌, ◌<◌, Bool, true, false, ◌==◌, ltb, if◌then◌else◌, List, [],
  ◌∷◌, ◌++◌, reverse, none, some, length, length-append, get_or, set, replicate, ◌≡◌, refl, ap, sym,
  ◌∙◌, arith, Bool-cases, ◌⊎◌, inl, inr,
}
use mathlib.Core.List.{reverse-cons, append_assoc}
use hikari_sakura.Text.Utf8.{utf8_chsize, utf8_encode, encode_tail}
use hikari_sakura.Text.InputBuffer.{
  InputBuffer, buffer_is_empty, current_char, add_char, write, add_utf32_char, remove_char,
  clear_buffer, add_each, replace, remove_word_loop, remove_word, ends_word,
}

-- The buffer that a stack of bytes stands for.
unfoldable pub typed : List ℕ → InputBuffer
typed cs = record { buffer = reverse cs ++ replicate (256 - length cs) 0; pos = length cs }

length-reverse : (cs : List ℕ) → length (reverse cs) ≡ length cs
length-reverse [] = refl
length-reverse (c ∷ cs) =
    ap length (reverse-cons c cs)
    ∙ length-append (reverse cs) (c ∷ [])
    ∙ omega (arith, length-reverse cs)

set-end : (xs ys : List ℕ) (y c : ℕ) → set (xs ++ y ∷ ys) (length xs) c ≡ xs ++ c ∷ ys
set-end [] ys y c = refl
set-end (x ∷ xs) ys y c = ap (λ l. x ∷ l) (set-end xs ys y c)

get-end : (xs ys : List ℕ) (c : ℕ) → get_or (xs ++ c ∷ ys) (length xs) 0 ≡ c
get-end [] ys c = refl
get-end (x ∷ xs) ys c = get-end xs ys c

abbrev zeros : ℕ → List ℕ
zeros n = replicate n 0

room_left : (n : ℕ) → n < 256 → zeros (256 - n) ≡ 0 ∷ zeros (255 - n)
room_left n h = let more : 256 - n ≡ suc (255 - n) = omega arith in ap zeros more

one_less : (n : ℕ) → 256 - suc n ≡ 255 - n
one_less n = omega arith

pushed :
    (c : ℕ) (cs : List ℕ)
    → reverse (c ∷ cs) ++ zeros (255 - length cs) ≡ reverse cs ++ c ∷ zeros (255 - length cs)
pushed c cs =
    ap (λ l. l ++ zeros (255 - length cs)) (reverse-cons c cs)
    ∙ append_assoc (reverse cs) (c ∷ []) (zeros (255 - length cs))

set-typed :
    (b c : ℕ) (cs ys : List ℕ) → set (reverse cs ++ b ∷ ys) (length cs) c ≡ reverse cs ++ c ∷ ys
set-typed b c cs ys =
    ap (λ n. set (reverse cs ++ b ∷ ys) n c) (sym (length-reverse cs)) ∙ set-end (reverse cs) ys b c

abbrev at_pos : List ℕ → ℕ → InputBuffer
at_pos buffer pos = record { buffer = buffer; pos = pos }

buffer_eq : (xs ys : List ℕ) (n : ℕ) → xs ≡ ys → at_pos xs n ≡ at_pos ys n
buffer_eq xs ys n e = ap (λ l. at_pos l n) e

-- A byte is written behind the last one.
set_push :
    (c : ℕ) (cs : List ℕ)
    → length cs < 255
    → set (typed cs).buffer (length cs) c ≡ (typed (c ∷ cs)).buffer
unfolding typed
set_push c cs h = rw (one_less (length cs)) (
    ap (λ z. set (reverse cs ++ z) (length cs) c) (room_left (length cs) (omega arith))
    ∙ set-typed 0 c cs (zeros (255 - length cs))
    ∙ sym (pushed c cs))

-- A byte that is typed is pushed, unless there are 255.
abbrev pub push : ℕ → List ℕ → List ℕ
push c cs = if length cs == 255 then cs else c ∷ cs

pub add_char-typed :
    (c : ℕ) (cs : List ℕ) → length cs ≤ 255 → add_char c (typed cs) ≡ typed (push c cs)
unfolding add_char typed
add_char-typed c cs h = elim (full_or_not (length cs) h) [
  | inl full ↦ rw full refl
  | inr (less, some') ↦ rw less (buffer_eq _ _ _ (set_push c cs some'))
]
  where
    full_or_not : (n : ℕ) → n ≤ 255 → ((n == 255) ≡ true) ⊎ (((n == 255) ≡ false) × (n < 255))
    full_or_not n k = ground arith

pub remove_char-typed :
    (c : ℕ) (cs : List ℕ) → length cs < 255 → remove_char (typed (c ∷ cs)) ≡ typed cs
unfolding remove_char buffer_is_empty typed
remove_char-typed c cs h =
    rw (not_empty (length cs), one_less (length cs), last (length cs))
      (buffer_eq _ _ _ (
        ap (λ l. set l (length cs) 0) (pushed c cs)
        ∙ set-typed c 0 cs (zeros (255 - length cs))
        ∙ ap (λ z. reverse cs ++ z) (sym (room_left (length cs) (omega arith)))))
  where
    not_empty : (n : ℕ) → (suc n == 0) ≡ false
    not_empty n = ground arith

    last : (n : ℕ) → suc n - 1 ≡ n
    last n = omega arith

pub remove_char-nothing : remove_char (typed []) ≡ typed []
unfolding remove_char buffer_is_empty typed
remove_char-nothing = refl

pub clear_buffer-typed : (b : InputBuffer) → clear_buffer b ≡ typed []
unfolding clear_buffer typed
clear_buffer-typed b = refl

pub push_most : (c : ℕ) (cs : List ℕ) → length cs ≤ 255 → length (push c cs) ≤ 255
push_most c cs h = ground arith

-- The bytes of a string are pushed one by one.
unfoldable pub push_each : ℕ → List ℕ → List ℕ → List ℕ
push_each zero content cs = cs
push_each (suc i) [] cs = cs
push_each (suc i) (c ∷ content) cs = push_each i content (push c cs)

add_each-typed :
    (i : ℕ) (content cs : List ℕ)
    → length cs ≤ 255
    → add_each i content (typed cs) ≡ typed (push_each i content cs)
unfolding add_each push_each
add_each-typed zero content cs h = refl
add_each-typed (suc i) [] cs h = refl
add_each-typed (suc i) (c ∷ content) cs h =
    ap (add_each i content) (add_char-typed c cs h)
    ∙ add_each-typed i content (push c cs) (push_most c cs h)

-- Replacing the text types the new one into an empty buffer.
pub replace-typed :
    (content : List ℕ) (b : InputBuffer) → replace content b ≡ typed (push_each 256 content [])
unfolding replace
replace-typed content b =
    ap (add_each 256 content) (clear_buffer-typed b) ∙ add_each-typed 256 content [] (omega arith)

-- The bytes of a character are pushed all, or none.
abbrev pub push_all : List ℕ → List ℕ → List ℕ
push_all [] cs = cs
push_all (b ∷ bs) cs = push_all bs (b ∷ cs)

pub length-push_all : (bs cs : List ℕ) → length (push_all bs cs) ≡ length cs + length bs
length-push_all [] cs = omega arith
length-push_all (b ∷ bs) cs = omega (arith, length-push_all bs (b ∷ cs))

write-typed :
    (bs cs : List ℕ)
    → length cs + length bs ≤ 255
    → write (typed cs).buffer (length cs) bs ≡ (typed (push_all bs cs)).buffer
unfolding write
write-typed [] cs h = refl
write-typed (b ∷ bs) cs h =
    ap (λ l. write l (suc (length cs)) bs) (set_push b cs (omega arith))
    ∙ write-typed bs (b ∷ cs) (omega arith)

length-encode_tail :
    (i c : ℕ) (bytes : List ℕ) → length (encode_tail i c bytes).1 ≡ i + length bytes
unfolding encode_tail
length-encode_tail zero c bytes = omega arith
length-encode_tail (suc i) c bytes =
    omega (arith, length-encode_tail i (c / 64) ((c % 64 + 128) ∷ bytes))

pub length-utf8_encode : (n c : ℕ) → length (utf8_encode n c) ≡ n
unfolding utf8_encode
length-utf8_encode zero c = refl
length-utf8_encode (suc i) c = omega (arith, length-encode_tail i c [])

pub add_utf32_char-typed :
    (c : ℕ) (cs : List ℕ)
    → length cs ≤ 255
    → add_utf32_char c (typed cs)
      ≡ typed (
          if ltb 255 (length cs + utf8_chsize c)
          then cs
          else push_all (utf8_encode (utf8_chsize c) c) cs)
unfolding add_utf32_char typed
add_utf32_char-typed c cs h = elim (fits_or_not (length cs + utf8_chsize c)) [
  | inl full ↦ rw full refl
  | inr (less, fits) ↦
      let bytes = utf8_encode (utf8_chsize c) c in
      let size = length-utf8_encode (utf8_chsize c) c in
      rw less (
        buffer_eq _ _ _ (write-typed bytes cs (omega (arith, size)))
        ∙ ap (at_pos (typed (push_all bytes cs)).buffer)
            (ap (λ n. length cs + n) (sym size) ∙ sym (length-push_all bytes cs)))
]
  where
    fits_or_not : (n : ℕ) → (ltb 255 n ≡ true) ⊎ ((ltb 255 n ≡ false) × (n ≤ 255))
    fits_or_not n = ground arith

current_char-nothing : current_char (typed []) ≡ none
unfolding current_char buffer_is_empty typed
current_char-nothing = refl

current_char-typed : (c : ℕ) (cs : List ℕ) → current_char (typed (c ∷ cs)) ≡ some c
unfolding current_char buffer_is_empty typed
current_char-typed c cs = rw (not_empty (length cs), last (length cs)) (ap some here)
  where
    not_empty : (n : ℕ) → (suc n == 0) ≡ false
    not_empty n = ground arith

    last : (n : ℕ) → suc n - 1 ≡ n
    last n = omega arith

    here : get_or (reverse (c ∷ cs) ++ zeros (256 - suc (length cs))) (length cs) 0 ≡ c
    here =
        ap (λ l. get_or (l ++ zeros (256 - suc (length cs))) (length cs) 0) (reverse-cons c cs)
        ∙ ap (λ l. get_or l (length cs) 0)
            (append_assoc (reverse cs) (c ∷ []) (zeros (256 - suc (length cs))))
        ∙ ap (λ n. get_or (reverse cs ++ c ∷ zeros (256 - suc (length cs))) n 0)
            (sym (length-reverse cs))
        ∙ get-end (reverse cs) (zeros (256 - suc (length cs))) c

module _ (is_space : ℕ → Bool) where
  -- What is left behind a space.
  unfoldable pub strip : List ℕ → List ℕ
  strip [] = []
  strip (c ∷ cs) = let rest = strip cs in if is_space c then c ∷ cs else rest

  abbrev pub drop_word : List ℕ → List ℕ
  drop_word [] = []
  drop_word (c ∷ cs) = strip cs

  remove_word_loop-typed :
      (c : ℕ) (cs : List ℕ) (fuel : ℕ)
      → length cs < 255
      → length cs < fuel
      → remove_word_loop is_space fuel (typed (c ∷ cs)) ≡ some (typed (strip cs))
  unfolding remove_word_loop ends_word strip
  remove_word_loop-typed c cs zero h k = absurd (omega arith)
  remove_word_loop-typed c [] (suc fuel) h k =
      rw (remove_char-typed c [] h, current_char-nothing) refl
  remove_word_loop-typed c (d ∷ ds) (suc fuel) h k =
      rw (remove_char-typed c (d ∷ ds) h, current_char-typed d ds)
        (elim (Bool-cases (is_space d)) [
          | inl space ↦ rw space refl
          | inr letter ↦ rw letter (remove_word_loop-typed d ds fuel (omega arith) (omega arith))
        ])

  -- In a buffer of at most 255 bytes, with fuel for every byte, removing a word ends, and drops the
  -- last byte and all behind the last space that is left.
  pub remove_word-typed :
      (cs : List ℕ) (fuel : ℕ)
      → length cs ≤ 255
      → length cs ≤ fuel
      → remove_word is_space fuel (typed cs) ≡ some (typed (drop_word cs))
  unfolding remove_word buffer_is_empty typed
  remove_word-typed [] fuel h k = refl
  remove_word-typed (c ∷ cs) fuel h k =
      rw (not_empty (length cs)) (remove_word_loop-typed c cs fuel (omega arith) (omega arith))
    where
      not_empty : (n : ℕ) → (suc n == 0) ≡ false
      not_empty n = ground arith
