-- ===== src/Marks.antt =====
-- mark.c: the 26 marks, each at one view at most, and each view with one mark at most.
pub mod Laws
mod Tests
use hikari_sakura.Prelude.{
  ℕ, ◌+◌, ◌-◌, Bool, true, false, ◌&&◌, ◌==◌, leb, if◌then◌else◌, Option, none, some,
}

-- `hikari_marks[nr].view`, and `view->mark` by its number; `none` is NULL.
pub record Marks : Type 0 where
  pub view_of : ℕ → Option ℕ
  pub mark_of : ℕ → Option ℕ

-- A write of one pointer.
abbrev pub point : (ℕ → Option ℕ) → ℕ → Option ℕ → ℕ → Option ℕ
point f a value b = if b == a then value else f b

unfoldable pub marks_init : Marks
marks_init = record { view_of = λ mark. none; mark_of = λ view. none }

-- The body of `mark_clear`, with the view that it reads.
unfoldable pub clear_view : Option ℕ → ℕ → Marks → Marks
clear_view none mark s = s
clear_view (some view) mark s = record {
  view_of = point s.view_of mark none;
  mark_of = point s.mark_of view none;
}

unfoldable pub mark_clear : ℕ → Marks → Marks
unfolding clear_view
mark_clear mark s = clear_view (s.view_of mark) mark s

unfoldable pub clear_mark_of : Option ℕ → Marks → Marks
unfolding mark_clear
clear_mark_of none s = s
clear_mark_of (some mark) s = mark_clear mark s

unfoldable pub mark_set : ℕ → ℕ → Marks → Marks
unfolding clear_mark_of mark_clear
mark_set mark view s =
    let cleared = mark_clear mark (clear_mark_of (s.mark_of view) s) in
    record {
      view_of = point cleared.view_of mark (some view);
      mark_of = point cleared.mark_of view (some mark);
    }

-- The mark of a letter: `a` is 97 and `z` 122.
unfoldable pub mark_get : ℕ → Option ℕ
mark_get reg = if leb 97 reg && leb reg 122 then some (reg - 97) else none
