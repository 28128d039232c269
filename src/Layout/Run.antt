-- ===== src/Layout/Run.antt =====
-- LAYOUT (sheet.c): a layout that is run for at most `max` views tiles the next of them in order.
use hikari_sakura.Prelude.{
  ℕ, zero, suc, ◌-◌, ◌≤◌, min, Bool, true, false, not, ◌&&◌, ◌==◌, ltb, if◌then◌else◌, List, [],
  ◌∷◌, none, some, ◌≡◌, refl, ap, sym, ◌∙◌, subst, arith, length,
}
use hikari_sakura.Stacking.Links.{mem, Distinct}
use hikari_sakura.Geometry.{Box, Margins}
use hikari_sakura.Layout.Plan.{Plan, done, count_tileable, tileable_views, after}
use hikari_sakura.Layout.Algorithms.{
  single_layout, empty_layout, full_layout, queue_layout, stack_layout, grid_layout, LayoutFunc,
  queue, stack, grid, full, single, empty, layout_of, run_layout,
}
use hikari_sakura.Layout.Scan.{select, remaining}
use hikari_sakura.Layout.Takes.{Shown, Takes, Takes-none}
use hikari_sakura.Layout.Contract.{Takes-last, line_layout-Takes, full_loop-Takes}
use hikari_sakura.Layout.Grid.{grid_size-IsGridFor, grid_layout-Takes}

-- How many views a layout has room for that is run for at most `max`.
unfoldable pub room : LayoutFunc → ℕ → ℕ
room queue max = max
room stack max = max
room grid max = max
room full max = max
room single max = 1
room empty max = 0

-- A grid does not stop at `max`: the views that are left must fit.
unfoldable pub HasRoom : LayoutFunc → ℕ → ℕ → Type 0
HasRoom queue max left = Unit
HasRoom stack max left = Unit
HasRoom grid max left = left ≤ max
HasRoom full max left = Unit
HasRoom single max left = Unit
HasRoom empty max left = Unit

length-select : (t : ℕ → Bool) (xs : List ℕ) → length (select t xs) ≡ count_tileable t xs
unfolding select count_tileable
length-select t [] = refl
length-select t (x ∷ xs) = ground (arith, length-select t xs)

-- `tileable_views` counts the views that are left.
tileable_views_lem :
    (v : ℕ) (p : Plan) → p.tileable v ≡ true → tileable_views v p ≡ length (remaining p (some v))
unfolding tileable_views remaining
tileable_views_lem v p can = rw (can, length-select p.tileable (after v p.views)) (omega arith)

room_min :
    (f : LayoutFunc) (max left : ℕ) → 1 ≤ left → room f (min max left) ≡ min (room f max) left
unfolding room
room_min queue max left h = refl
room_min stack max left h = refl
room_min grid max left h = refl
room_min full max left h = refl
room_min single max left h = omega arith
room_min empty max left h = omega arith

some_left : (p : Plan) (v : ℕ) → 1 ≤ length (remaining p (some v))
unfolding remaining
some_left p v = omega arith

suc_of_min : (max left : ℕ) → 1 ≤ max → 1 ≤ left → suc (min max left - 1) ≡ min max left
suc_of_min max left h k = omega arith

not_zero : (k : ℕ) → (suc k == 0) ≡ false
not_zero k = ground arith

min_lem : (max left : ℕ) → (if ltb max left then max else left) ≡ min max left
min_lem max left = ground arith

HasRoom-min :
    (f : LayoutFunc) (max left k : ℕ)
    → suc k ≡ min max left
    → HasRoom f max left
    → HasRoom f (suc k) left
unfolding HasRoom
HasRoom-min queue max left k e h = tt
HasRoom-min stack max left k e h = tt
HasRoom-min grid max left k e h = omega arith
HasRoom-min full max left k e h = tt
HasRoom-min single max left k e h = tt
HasRoom-min empty max left k e h = tt

module _ (accepts : ℕ → Box → Bool) (m : Margins) where
  layout_of-Takes :
      (f : LayoutFunc) (frame : Box) (first k : ℕ) (p : Plan)
      → Distinct p.views
      → mem first p.views ≡ true
      → p.tileable first ≡ true
      → Shown p
      → suc k ≤ length (remaining p (some first))
      → HasRoom f (suc k) (length (remaining p (some first)))
      → Takes (room f (suc k)) p (some first) (layout_of f accepts m frame first (suc k) p)
  unfolding layout_of queue_layout stack_layout full_layout single_layout empty_layout room HasRoom
  layout_of-Takes queue frame first k p once there can shown h fits =
      line_layout-Takes accepts m (λ start size. record frame { x = start; width = size }) frame.x
        frame.width first k p once h
  layout_of-Takes stack frame first k p once there can shown h fits =
      line_layout-Takes accepts m (λ start size. record frame { y = start; height = size }) frame.y
        frame.height first k p once h
  layout_of-Takes grid frame first k p once there can shown h fits =
      subst (λ j. Takes j p (some first) (grid_layout accepts m frame first (suc k) p))
        (omega arith)
        (grid_layout-Takes accepts m frame first (suc k) p once can there (omega arith)
          (omega (arith, (grid_size-IsGridFor (suc k)).room)))
  layout_of-Takes full frame first k p once there can shown h fits =
      full_loop-Takes accepts m frame (suc k) (some first) p once shown (there, can) h
  layout_of-Takes single frame first k p once there can shown h fits =
      Takes-last accepts m first frame p once
  layout_of-Takes empty frame first k p once there can shown h fits =
      Takes-none p (some first) (there, can)

  positive_run :
      (f : LayoutFunc) (max : ℕ) (frame : Box) (first : ℕ) (p : Plan) (n : ℕ)
      → suc (n - 1) ≡ n
      → (if n == 0 && not (max == 0) then done none p else layout_of f accepts m frame first n p)
        ≡ layout_of f accepts m frame first (suc (n - 1)) p
  positive_run f max frame first p zero e = absurd (omega arith)
  positive_run f max frame first p (suc k) e =
      rw (not_zero k) (ap (λ n. layout_of f accepts m frame first n p) (sym e))

  run_layout_lem :
      (f : LayoutFunc) (max : ℕ) (frame : Box) (first : ℕ) (p : Plan)
      → p.tileable first ≡ true
      → 1 ≤ max
      → (k : ℕ) × (suc k ≡ min max (length (remaining p (some first))))
        × (run_layout f accepts m max frame first p ≡ layout_of f accepts m frame first (suc k) p)
  unfolding run_layout
  run_layout_lem f max frame first p can h =
      let left = length (remaining p (some first)) in
      let e = suc_of_min max left h (some_left p first) in
      (
        min max left - 1,
        e,
        rw (tileable_views_lem first p can, min_lem max left)
            (positive_run f max frame first p (min max left) e),
      )

  -- Run for at most `max` views, `max` at least 1, a layout tiles the next ones of the sheet, each
  -- once and in order, as many as it has room for, and returns the first that is left over. The
  -- sheet's views are linked once, no tileable one is hidden, and a grid has room for all.
  pub run_layout-Takes :
      (f : LayoutFunc) (max : ℕ) (frame : Box) (first : ℕ) (p : Plan)
      → Distinct p.views
      → mem first p.views ≡ true
      → p.tileable first ≡ true
      → Shown p
      → 1 ≤ max
      → HasRoom f max (length (remaining p (some first)))
      → Takes
          (min (room f max) (length (remaining p (some first))))
          p
          (some first)
          (run_layout f accepts m max frame first p)
  unfolding remaining
  run_layout-Takes f max frame first p once there can shown h fits =
      let (k, e, run) = run_layout_lem f max frame first p can h in
      rw run (
        subst (λ j. Takes j p (some first) (layout_of f accepts m frame first (suc k) p))
          (ap (room f) e ∙ room_min f max _ (omega arith))
          (layout_of-Takes f frame first k p once there can shown (omega arith)
            (HasRoom-min f max _ k e fits)))
