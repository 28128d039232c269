-- ===== src/Text/Completing.antt =====
-- completion.c: the completions stand in a ring.
use hikari_sakura.Prelude.{
  ℕ, zero, suc, ◌-◌, ◌≤◌, ◌<◌, ◌==◌, if◌then◌else◌, List, [], ◌∷◌, ◌++◌, length, get_or, ◌≡◌, refl,
  ap, ◌∙◌, arith, All,
}
use hikari_sakura.Text.InputBuffer.{copy_string, string_length}
use hikari_sakura.Text.Completion.{
  Completion, completion_cancel, completion_next, completion_prev, shown,
}

-- The item that is shown is one of the list.
abbrev pub IsCompletion : Completion → Type 0
IsCompletion c = c.current_item < length c.items

abbrev at_item : List (List ℕ) → ℕ → Completion
at_item items i = record { items = items; current_item = i }

next_index :
    (n i : ℕ)
    → i < n
    → (if (if suc i == n then 0 else suc i) == 0
        then n - 1
        else (if suc i == n then 0 else suc i) - 1)
      ≡ i
next_index n i h = ground arith

prev_index :
    (n i : ℕ)
    → i < n
    → (if suc (if i == 0 then n - 1 else i - 1) == n
        then 0
        else suc (if i == 0 then n - 1 else i - 1))
      ≡ i
prev_index n i h = ground arith

-- Going on to the next completion and back, or back and on again, shows the same completion.
pub completion_next-completion_prev :
    (c : Completion)
    → IsCompletion c
    → (completion_prev (completion_next c) ≡ c) × (completion_next (completion_prev c) ≡ c)
unfolding completion_next completion_prev
completion_next-completion_prev c h = (
  ap (at_item c.items) (next_index (length c.items) c.current_item h),
  ap (at_item c.items) (prev_index (length c.items) c.current_item h),
)

-- As many steps on.
unfoldable pub advance : ℕ → Completion → Completion
unfolding completion_next
advance zero c = c
advance (suc k) c = completion_next (advance k c)

step_index : (n k : ℕ) → suc k < n → (if suc k == n then 0 else suc k) ≡ suc k
step_index n k h = ground arith

advance_lem :
    (k : ℕ) (c : Completion)
    → k < length c.items
    → advance k (completion_cancel c) ≡ at_item c.items k
unfolding advance completion_cancel completion_next
advance_lem zero c h = refl
advance_lem (suc k) c h =
    ap completion_next (advance_lem k c (omega arith))
    ∙ ap (at_item c.items) (step_index (length c.items) k h)

last_index : (n m : ℕ) → suc m ≡ n → (if suc m == n then 0 else suc m) ≡ 0
last_index n m e = ground arith

ring_end :
    (n : ℕ) (c : Completion)
    → n ≡ length c.items
    → 1 ≤ n
    → advance n (completion_cancel c) ≡ completion_cancel c
unfolding advance completion_cancel completion_next
ring_end zero c e h = absurd (omega arith)
ring_end (suc m) c e h =
    ap completion_next (advance_lem m c (omega (arith, e)))
    ∙ ap (at_item c.items) (last_index (length c.items) m e)

-- From the first item the steps show the items one after the other, and the step behind the last one
-- comes back to the first. There is an item.
pub completion_ring :
    (c : Completion) (k : ℕ)
    → k < length c.items
    → (shown (advance k (completion_cancel c)) ≡ get_or c.items k [])
      × (advance (length c.items) (completion_cancel c) ≡ completion_cancel c)
unfolding shown
completion_ring c k h =
    (ap shown (advance_lem k c h) ∙ item_at c.items k, around (length c.items) refl)
  where
    item_at : (items : List (List ℕ)) (i : ℕ) → shown (at_item items i) ≡ get_or items i []
    item_at items i = refl

    around : (n : ℕ) → n ≡ length c.items → advance n (completion_cancel c) ≡ completion_cancel c
    around n e = ring_end n c e (omega arith)

-- An item keeps the last byte of its memory, and so a text that fills the rest has no end in it.
copy_string_unterminated :
    (n last : ℕ) (content memory : List ℕ)
    → All (λ c. 0 < c) content
    → n ≤ length content
    → n ≡ length memory
    → 0 < last
    → string_length (copy_string n content (memory ++ last ∷ [])) ≡ suc n
unfolding copy_string string_length
copy_string_unterminated zero last content [] h k e l = ground (arith, l)
copy_string_unterminated zero last content (b ∷ memory) h k e l = absurd (omega arith)
copy_string_unterminated (suc n) last [] memory h k e l = absurd (omega arith)
copy_string_unterminated (suc n) last (c ∷ content) [] h k e l = absurd (omega arith)
copy_string_unterminated (suc n) last (c ∷ content) (b ∷ memory) h k e l =
    ground (arith, copy_string_unterminated n last content memory h.1, h.0)
