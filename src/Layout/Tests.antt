-- ===== src/Layout/Tests.antt =====
-- A sheet of four views on a screen of 1000 by 600 pixels, and the theorems on layouts at it.
use hikari_sakura.Prelude.{
  ℕ, ◌+◌, ◌-◌, ◌*◌, ◌≤◌, min, Bool, true, false, ◌==◌, [], ◌∷◌, Option, some, length, ◌≡◌, refl,
  pos, ◌*ℤ◌, ◌/ℤ◌, arith,
}
use hikari_sakura.Stacking.Links.{mem, Distinct}
use hikari_sakura.Geometry.{Box, Margins}
use hikari_sakura.Geometry.Double.{DoubleArith}
use hikari_sakura.Layout.Plan.{Plan, after}
use hikari_sakura.Layout.Algorithms.{
  queue, stack, full, single, run_layout, grid_size, grow, grid_layout, line_layout,
}
use hikari_sakura.Layout.Scan.{select, remaining}
use hikari_sakura.Layout.Takes.{Shown, Takes}
use hikari_sakura.Layout.Grid.{IsGridFor, PassesOver, grid_size-IsGridFor, grid_layout-PassesOver}
use hikari_sakura.Layout.Rows.{Adds, sized, line_layout-Adds}
use hikari_sakura.Layout.Run.{room, HasRoom, run_layout-Takes}
use hikari_sakura.Layout.Split.{
  Split, fixed, dynamic, vertical, horizontal, container, right, top, copy_split,
}
use hikari_sakura.Layout.Splitting.{capacity, Roomy}
use hikari_sakura.Layout.Copying.{
  Configured, vertical_of, horizontal_of, container_of, built, written, copy_split-built,
}
use hikari_sakura.Layout.Apply.{
  Flags, SheetLayout, taken_split, is_settling, any, sheet_apply_split,
}
use hikari_sakura.Layout.Applying.{LaysOut, hidden_first, sheet_apply_split-LaysOut}

abbrev screen : Box
screen = record { x = pos 0; y = pos 0; width = pos 1000; height = pos 600 }

abbrev margins : Margins
margins = record { gap = pos 5; border = pos 1 }

abbrev takes_all : ℕ → Box → Bool
takes_all v size = true

-- The views 1 to 4 in order, of which this one is hidden, if it is one of them.
abbrev four : ℕ → Plan
four away = record {
  views = 1 ∷ 2 ∷ 3 ∷ 4 ∷ [];
  tileable = λ v. true;
  hidden = λ v. v == away;
  tiles = [];
  center = true;
}

four-Distinct : Distinct (four 0).views
unfolding mem
four-Distinct = (refl, (refl, (refl, (refl, tt))))

four-Shown : Shown (four 0)
unfolding mem
four-Shown u = ground arith

grid_size-IsGridFor_example : IsGridFor 5 (grid_size 5).0 (grid_size 5).1
grid_size-IsGridFor_example = grid_size-IsGridFor 5

run_layout-Takes_example :
    Takes
      (min (room stack 3) (length (remaining (four 0) (some 1))))
      (four 0)
      (some 1)
      (run_layout stack takes_all margins 3 screen 1 (four 0))
unfolding mem room HasRoom
run_layout-Takes_example =
    run_layout-Takes takes_all margins stack 3 screen 1 (four 0) four-Distinct refl refl four-Shown
      (omega arith) tt

grid_layout-PassesOver_example :
    PassesOver
      ((grid_size 2).0 * (grid_size 2).1)
      (four 0)
      (some 1)
      (grid_layout takes_all margins screen 1 2 (four 0))
unfolding mem grid_size grow remaining select after
grid_layout-PassesOver_example =
    grid_layout-PassesOver takes_all margins screen 1 2 (four 0) four-Distinct refl refl
      (omega arith) (omega arith)

-- Scales in percent.
abbrev percent : DoubleArith
percent = record {
  Double = ℕ;
  int_of_product = λ n s. (n *ℤ pos s) /ℤ 100;
  one_minus = λ s. 100 - s;
  AtMost = λ a b. a ≤ b;
  zero_scale = 0;
  one_scale = 100;
}

-- One view on the right and, behind it, two in a queue over a full container on the left.
abbrev tree : Split percent
tree =
    vertical (fixed 60) right (horizontal (fixed 50) top (container 2 queue) (container 256 full))
      (container 1 single)

abbrev geometry_of : ℕ → Box
geometry_of v = screen

tree-Roomy : (n : ℕ) → Roomy percent tree n
unfolding Roomy HasRoom
tree-Roomy n = ((omega arith, tt), ((omega arith, tt), (omega arith, tt)))

-- The view on the right has three fifths, as it is written.
abbrev configured : Configured percent
configured =
    vertical_of (fixed 60) right
      (horizontal_of (dynamic 30 70) top (container_of 2 queue) (container_of 256 full))
      (container_of 1 single)

copy_split-built_example :
    (copy_split percent (built percent configured) ≡ written percent configured)
    × (copy_split percent (written percent configured) ≡ built percent configured)
copy_split-built_example = copy_split-built percent configured (refl, ((refl, refl), tt, tt), tt)

abbrev calm : Flags
calm = record { dirty = λ v. false; floating = λ v. false; shows = λ v. true }

-- The sheet has its layout already, and the view 3 is hidden.
abbrev laid_out : Option (SheetLayout percent)
laid_out = some (record { layout_tiles = 1 ∷ 2 ∷ []; layout_split = tree })

sheet_apply_split-LaysOut_example :
    LaysOut
      (capacity percent (taken_split percent laid_out tree true))
      (four 3)
      (hidden_first (λ v. true) (four 3))
      (sheet_apply_split percent takes_all geometry_of margins calm laid_out tree true screen
        (four 3))
unfolding is_settling any taken_split
sheet_apply_split-LaysOut_example =
    sheet_apply_split-LaysOut percent takes_all geometry_of margins calm laid_out tree true screen
      (four 3) refl four-Distinct (λ u. refl) (tree-Roomy _)

line_layout-Adds_example :
    Adds
      (λ start size. record screen { x = start; width = size })
      (pos 6)
      (5 + 2 * 1)
      988
      0
      (four 0)
      (line_layout takes_all
        (sized 5 1)
        (λ start size. record screen { x = start; width = size })
        (pos 6)
        (pos 988)
        1
        3
        (four 0))
unfolding mem remaining select after
line_layout-Adds_example =
    line_layout-Adds takes_all (λ start size. record screen { x = start; width = size }) 5 1 (pos 6)
      988 1 2 (four 0) four-Distinct (omega arith) (omega arith)
