-- ===== src/Text/Editing.antt =====
-- input_buffer.c: whatever is typed and erased, the buffer is the stack that the keys describe.
use hikari_sakura.Prelude.{
  ℕ, zero, suc, ◌+◌, ◌≤◌, Bool, ltb, if◌then◌else◌, List, [], ◌∷◌, Option, none, some, length, ◌≡◌,
  refl, ap, arith,
}
use hikari_sakura.Text.Utf8.{utf8_chsize, utf8_encode}
use hikari_sakura.Text.InputBuffer.{
  InputBuffer, add_char, add_utf32_char, remove_char, remove_word, clear_buffer, replace,
}
use hikari_sakura.Text.Typing.{
  typed, push, push_each, push_all, strip, drop_word, push_most, add_char-typed,
  add_utf32_char-typed, remove_char-typed, remove_char-nothing, clear_buffer-typed, replace-typed,
  remove_word-typed, length-push_all, length-utf8_encode,
}

-- A call of the buffer's functions.
pub data Edit : Type 0 where
  add_char_edit : ℕ → Edit
  add_utf32_edit : ℕ → Edit
  remove_char_edit : Edit
  remove_word_edit : Edit
  clear_edit : Edit
  replace_edit : List ℕ → Edit

abbrev pub tail : List ℕ → List ℕ
tail [] = []
tail (c ∷ cs) = cs

infixl 30 ◌>>=◌
abbrev ◌>>=◌ : {A B : Type 0} → Option A → (A → Option B) → Option B
none >>= f = none
some a >>= f = f a

module _ (is_space : ℕ → Bool) where
  -- The code, with as much fuel as there are bytes, and what it means for the stack.
  abbrev pub edit : Edit → InputBuffer → Option InputBuffer
  edit (add_char_edit c) b = some (add_char c b)
  edit (add_utf32_edit c) b = some (add_utf32_char c b)
  edit remove_char_edit b = some (remove_char b)
  edit remove_word_edit b = remove_word is_space b.pos b
  edit clear_edit b = some (clear_buffer b)
  edit (replace_edit content) b = some (replace content b)

  abbrev pub edit_stack : Edit → List ℕ → List ℕ
  edit_stack (add_char_edit c) cs = push c cs
  edit_stack (add_utf32_edit c) cs =
      if ltb 255 (length cs + utf8_chsize c)
      then cs
      else push_all (utf8_encode (utf8_chsize c) c) cs
  edit_stack remove_char_edit cs = tail cs
  edit_stack remove_word_edit cs = drop_word is_space cs
  edit_stack clear_edit cs = []
  edit_stack (replace_edit content) cs = push_each 256 content []

  abbrev pub edits : List Edit → InputBuffer → Option InputBuffer
  edits [] b = some b
  edits (e ∷ es) b = do c ← edit e b; edits es c

  abbrev pub edits_stack : List Edit → List ℕ → List ℕ
  edits_stack [] cs = cs
  edits_stack (e ∷ es) cs = edits_stack es (edit_stack e cs)

  length-strip : (cs : List ℕ) → length (strip is_space cs) ≤ length cs
  unfolding strip
  length-strip [] = omega arith
  length-strip (c ∷ cs) = ground (arith, length-strip cs)

  length-push_each :
      (i : ℕ) (content cs : List ℕ) → length cs ≤ 255 → length (push_each i content cs) ≤ 255
  unfolding push_each
  length-push_each zero content cs h = h
  length-push_each (suc i) [] cs h = h
  length-push_each (suc i) (c ∷ content) cs h =
      length-push_each i content (push c cs) (push_most c cs h)

  length-edit_stack : (e : Edit) (cs : List ℕ) → length cs ≤ 255 → length (edit_stack e cs) ≤ 255
  length-edit_stack (add_char_edit c) cs h = push_most c cs h
  length-edit_stack (add_utf32_edit c) cs h = ground (
    arith,
    length-push_all (utf8_encode (utf8_chsize c) c) cs,
    length-utf8_encode (utf8_chsize c) c,
  )
  length-edit_stack remove_char_edit [] h = h
  length-edit_stack remove_char_edit (c ∷ cs) h = omega arith
  length-edit_stack remove_word_edit [] h = h
  length-edit_stack remove_word_edit (c ∷ cs) h = omega (arith, length-strip cs)
  length-edit_stack clear_edit cs h = omega arith
  length-edit_stack (replace_edit content) cs h = length-push_each 256 content [] (omega arith)

  edit-typed :
      (e : Edit) (cs : List ℕ)
      → length cs ≤ 255
      → edit e (typed cs) ≡ some (typed (edit_stack e cs))
  unfolding typed
  edit-typed (add_char_edit c) cs h = ap some (add_char-typed c cs h)
  edit-typed (add_utf32_edit c) cs h = ap some (add_utf32_char-typed c cs h)
  edit-typed remove_char_edit [] h = ap some remove_char-nothing
  edit-typed remove_char_edit (c ∷ cs) h = ap some (remove_char-typed c cs (omega arith))
  edit-typed remove_word_edit cs h = remove_word-typed is_space cs (length cs) h (omega arith)
  edit-typed clear_edit cs h = ap some (clear_buffer-typed (typed cs))
  edit-typed (replace_edit content) cs h = ap some (replace-typed content (typed cs))

  -- Whatever is called, and in whatever order, a buffer that holds a stack of at most 255 bytes holds
  -- one again, namely that which the calls describe: a byte is pushed if there is room, a character
  -- with all its bytes or not at all, one byte is popped, a word is popped down to a space, and a
  -- text that replaces the old one is cut at 255 bytes.
  pub edits-typed :
      (es : List Edit) (cs : List ℕ)
      → length cs ≤ 255
      → (edits es (typed cs) ≡ some (typed (edits_stack es cs)))
        × (length (edits_stack es cs) ≤ 255)
  edits-typed [] cs h = (refl, h)
  edits-typed (e ∷ es) cs h =
      let later = edits-typed es (edit_stack e cs) (length-edit_stack e cs h) in
      (rw (edit-typed e cs h) later.0, later.1)
