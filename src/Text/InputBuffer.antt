-- ===== src/Text/InputBuffer.antt =====
-- input_buffer.c: 256 bytes and a position. `isspace` of the C library is a parameter.
use hikari_sakura.Prelude.{
  ℕ, zero, suc, ◌+◌, ◌-◌, Bool, true, ◌==◌, ltb, if◌then◌else◌, List, [], ◌∷◌, Option, none, some,
  get_or, set, take, replicate,
}
use hikari_sakura.Text.Utf8.{utf8_chsize, utf8_encode}

pub record InputBuffer : Type 0 where
  pub buffer : List ℕ
  pub pos : ℕ

-- `sizeof(input_buffer->buffer)`
abbrev pub size_of_buffer : ℕ
size_of_buffer = 256

unfoldable pub buffer_is_empty : InputBuffer → Bool
buffer_is_empty b = b.pos == 0

unfoldable pub current_char : InputBuffer → Option ℕ
unfolding buffer_is_empty
current_char b = if buffer_is_empty b then none else some (get_or b.buffer (b.pos - 1) 0)

-- `strnlen`
unfoldable pub string_length : List ℕ → ℕ
string_length [] = 0
string_length (c ∷ cs) = let rest = string_length cs in if c == 0 then 0 else suc rest

-- `strncpy` of a string, given without its terminator, to the beginning of a buffer.
unfoldable pub copy_string : ℕ → List ℕ → List ℕ → List ℕ
copy_string zero content buffer = buffer
copy_string (suc n) content [] = []
copy_string (suc n) [] (b ∷ buffer) = 0 ∷ copy_string n [] buffer
copy_string (suc n) (c ∷ content) (b ∷ buffer) = c ∷ copy_string n content buffer

unfoldable pub init : List ℕ → InputBuffer → InputBuffer
unfolding copy_string string_length
init content b =
    let buffer = copy_string (size_of_buffer - 1) content b.buffer in
    record { buffer = buffer; pos = string_length buffer }

unfoldable pub add_char : ℕ → InputBuffer → InputBuffer
add_char input b =
    if b.pos == size_of_buffer - 1
    then b
    else record { buffer = set b.buffer b.pos input; pos = suc b.pos }

-- The bytes that `utf8_encode` writes from a position on.
unfoldable pub write : List ℕ → ℕ → List ℕ → List ℕ
write buffer pos [] = buffer
write buffer pos (c ∷ cs) = write (set buffer pos c) (suc pos) cs

unfoldable pub add_utf32_char : ℕ → InputBuffer → InputBuffer
unfolding write
add_utf32_char codepoint b =
    let length = utf8_chsize codepoint in
    if ltb (size_of_buffer - 1) (b.pos + length) then b else record {
      buffer = write b.buffer b.pos (utf8_encode length codepoint);
      pos = b.pos + length;
    }

unfoldable pub remove_char : InputBuffer → InputBuffer
unfolding buffer_is_empty
remove_char b =
    if buffer_is_empty b then b else record { buffer = set b.buffer (b.pos - 1) 0; pos = b.pos - 1 }

unfoldable pub clear_buffer : InputBuffer → InputBuffer
clear_buffer b = record { buffer = replicate size_of_buffer 0; pos = 0 }

-- The loop of `replace`, for at most this many bytes of the string.
unfoldable pub add_each : ℕ → List ℕ → InputBuffer → InputBuffer
unfolding add_char
add_each zero content b = b
add_each (suc i) [] b = b
add_each (suc i) (c ∷ content) b = add_each i content (add_char c b)

unfoldable pub replace : List ℕ → InputBuffer → InputBuffer
unfolding clear_buffer add_each
replace content b = add_each size_of_buffer content (clear_buffer b)

-- The string that the buffer holds.
unfoldable pub read : InputBuffer → List ℕ
unfolding string_length
read b = take (string_length b.buffer) b.buffer

module _ (is_space : ℕ → Bool) where
  unfoldable pub ends_word : Option ℕ → Bool
  ends_word none = true
  ends_word (some c) = is_space c

  -- The loop of `remove_word`; `none` where the fuel is used up.
  unfoldable pub remove_word_loop : ℕ → InputBuffer → Option InputBuffer
  unfolding remove_char current_char ends_word
  remove_word_loop zero b = none
  remove_word_loop (suc fuel) b =
      let removed = remove_char b in
      let rest = remove_word_loop fuel removed in
      if ends_word (current_char removed) then some removed else rest

  unfoldable pub remove_word : ℕ → InputBuffer → Option InputBuffer
  unfolding remove_word_loop buffer_is_empty
  remove_word fuel b = if buffer_is_empty b then some b else remove_word_loop fuel b
