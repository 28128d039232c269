-- ===== src/Marks/Tests.antt =====
-- Two marked views, and the theorems of mark.c at them.
use hikari_sakura.Prelude.{◌==◌, if◌then◌else◌, none, some, ◌≡◌, arith}
use hikari_sakura.Marks.{Marks, mark_set}
use hikari_sakura.Marks.Laws.{IsPaired, mark_set-IsPaired}

-- The mark 0 is at the view 7, and the mark 1 at the view 8.
abbrev two_marks : Marks
two_marks = record {
  view_of = λ mark. if mark == 0 then some 7 else if mark == 1 then some 8 else none;
  mark_of = λ view. if view == 7 then some 0 else if view == 8 then some 1 else none;
}

two_marks-IsPaired : IsPaired two_marks
two_marks-IsPaired mark view = ground arith

-- The mark 0 goes to the view 8, which loses the mark 1.
mark_set-IsPaired_example :
    IsPaired (mark_set 0 8 two_marks)
    × ((mark_set 0 8 two_marks).view_of 0 ≡ some 8)
    × ((mark_set 0 8 two_marks).mark_of 8 ≡ some 0)
mark_set-IsPaired_example = mark_set-IsPaired 0 8 two_marks two_marks-IsPaired
