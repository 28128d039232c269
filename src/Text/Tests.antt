-- ===== src/Text/Tests.antt =====
-- Typed and erased text, and the theorems of utf8.h and input_buffer.c at it.
use hikari_sakura.Prelude.{
  ℕ, ◌≤◌, Bool, ◌==◌, List, [], ◌∷◌, ◌++◌, some, length, ◌≡◌, refl, arith, inl,
}
use hikari_sakura.Text.Utf8.{utf8_chsize, utf8_encode, utf8_decode}
use hikari_sakura.Text.Canonical.{IsCanonical, utf8_decode-IsCanonical}
use hikari_sakura.Text.Completion.{Completion}
use hikari_sakura.Text.RoundTrip.{utf8_decode-utf8_encode}
use hikari_sakura.Text.Typing.{typed}
use hikari_sakura.Text.Editing.{
  Edit, add_char_edit, add_utf32_edit, remove_char_edit, remove_word_edit, replace_edit, edits,
  edits_stack, edits-typed,
}

abbrev is_blank : ℕ → Bool
is_blank c = c == 32

-- The euro sign, with a letter behind it.
utf8_decode-utf8_encode_example :
    utf8_decode (utf8_encode (utf8_chsize 8364) 8364 ++ 97 ∷ []) ≡ some (utf8_chsize 8364, 8364)
utf8_decode-utf8_encode_example = utf8_decode-utf8_encode 8364 (97 ∷ []) (inl (omega arith))

euro_bytes : utf8_encode (utf8_chsize 8364) 8364 ≡ 226 ∷ 130 ∷ 172 ∷ []
unfolding utf8_encode utf8_chsize
euro_bytes = refl

-- "ab c", the last byte first.
abbrev words : List ℕ
words = 99 ∷ 32 ∷ 98 ∷ 97 ∷ []

abbrev keys : List Edit
keys =
    replace_edit (97 ∷ 32 ∷ [])
    ∷ add_utf32_edit 8364
    ∷ remove_char_edit
    ∷ remove_word_edit
    ∷ add_char_edit 98
    ∷ []

edits-typed_example :
    (edits is_blank keys (typed words) ≡ some (typed (edits_stack is_blank keys words)))
    × (length (edits_stack is_blank keys words) ≤ 255)
edits-typed_example = edits-typed is_blank keys words (omega arith)

-- The euro sign in the middle of other bytes.
utf8_decode-IsCanonical_example :
    IsCanonical (226 ∷ 130 ∷ 172 ∷ 255 ∷ []) (utf8_decode (226 ∷ 130 ∷ 172 ∷ 255 ∷ []))
utf8_decode-IsCanonical_example = utf8_decode-IsCanonical (226 ∷ 130 ∷ 172 ∷ 255 ∷ [])

-- Two completions.
abbrev two_items : Completion
two_items = record { items = (97 ∷ []) ∷ (98 ∷ []) ∷ []; current_item = 1 }
