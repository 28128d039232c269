-- ===== src/Layout/Algorithms.antt =====
-- The six layouts of sheet.c.
use hikari_sakura.Prelude.{
  ℕ, zero, suc, ◌-◌, ◌*◌, Bool, not, ◌&&◌, ◌==◌, ltb, if◌then◌else◌, Option, none, some, ℤ, pos,
  ◌+ℤ◌, ◌-ℤ◌, ◌*ℤ◌, ◌/ℤ◌, ltb_ℤ,
}
use hikari_sakura.Geometry.{Box, Margins}
use hikari_sakura.Layout.Plan.{
  Plan, Outcome, done, crash, and_then, scan_next_tileable_view, tileable_views, view_show, tile,
}

-- The clamp to the number of cells.
unfoldable pub at_least : ℕ → ℤ → ℤ
at_least n size = if ltb_ℤ size (pos n) then pos n else size

-- `views_width` of a row of views: what its gaps and borders leave of the frame.
unfoldable pub share : Margins → ℕ → ℤ → ℤ
unfolding at_least
share m n extent = at_least n (extent -ℤ pos 2 *ℤ m.border *ℤ pos (n - 1) -ℤ m.gap *ℤ pos (n - 1))

-- What the first view of a row gets on top of its equal part.
unfoldable pub rest_of : ℕ → ℤ → ℤ
rest_of n views_size = views_size -ℤ views_size /ℤ n *ℤ pos n

-- `gap + border`
abbrev pub between : Margins → ℤ
between m = m.gap +ℤ pos 2 *ℤ m.border

module _ (accepts : ℕ → Box → Bool) (m : Margins) where
  unfoldable pub single_layout : Box → ℕ → ℕ → Plan → Outcome
  unfolding tile scan_next_tileable_view
  single_layout frame first n p =
      let q = tile accepts first frame p in done (scan_next_tileable_view first q) q

  unfoldable pub empty_layout : Box → ℕ → ℕ → Plan → Outcome
  empty_layout frame first n p = done (some first) p

  unfoldable pub full_loop : Box → ℕ → Option ℕ → Plan → Outcome
  unfolding tile view_show scan_next_tileable_view
  full_loop frame zero view p = done view p
  full_loop frame (suc k) none p = done none p
  full_loop frame (suc k) (some v) p =
      let shown = if p.hidden v then view_show v p else p in
      let q = if p.tileable v then tile accepts v frame shown else p in
      full_loop frame k (scan_next_tileable_view v q) q

  unfoldable pub full_layout : Box → ℕ → ℕ → Plan → Outcome
  unfolding full_loop
  full_layout frame first n p = full_loop frame n (some first) p

  -- The loop of `queue_layout` and `stack_layout`, where the scan behind the last view has run.
  unfoldable pub line_loop : (ℤ → ℤ → Box) → ℕ → ℤ → ℤ → Option ℕ → Plan → Outcome
  unfolding tile scan_next_tileable_view
  line_loop place zero start size view p = done view p
  line_loop place (suc k) start size none p = crash
  line_loop place (suc k) start size (some v) p =
      let q = tile accepts v (place start size) p in
      line_loop place k (start +ℤ (between m +ℤ size)) size (scan_next_tileable_view v q) q

  -- SPLIT_LAYOUT: views side by side along an axis, on which the frame has this start and extent.
  unfoldable pub line_layout : (ℤ → ℤ → Box) → ℤ → ℤ → ℕ → ℕ → Plan → Outcome
  unfolding line_loop share rest_of tile scan_next_tileable_view
  line_layout place start extent first zero p = done none p
  line_layout place start extent first (suc zero) p =
      let q = tile accepts first (place start extent) p in done (scan_next_tileable_view first q) q
  line_layout place start extent first (suc (suc k)) p =
      let views_size = share m (suc (suc k)) extent in
      let size = views_size /ℤ suc (suc k) in
      let rest = rest_of (suc (suc k)) views_size in
      let q = tile accepts first (place start (size +ℤ rest)) p in
      line_loop place (suc k) (start +ℤ (between m +ℤ size +ℤ rest)) size
        (scan_next_tileable_view first q) q

  unfoldable pub queue_layout : Box → ℕ → ℕ → Plan → Outcome
  unfolding line_layout
  queue_layout frame first n p =
      line_layout (λ start size. record frame { x = start; width = size }) frame.x frame.width first
        n p

  unfoldable pub stack_layout : Box → ℕ → ℕ → Plan → Outcome
  unfolding line_layout
  stack_layout frame first n p =
      line_layout (λ start size. record frame { y = start; height = size }) frame.y frame.height
        first n p

-- The loop that sizes a grid: the number of rows and of columns.
unfoldable pub grow : ℕ → ℕ × ℕ → ℕ × ℕ
grow i (rows, cols) =
    if ltb (rows * cols) i
    then (if ltb rows cols then (suc rows, cols) else (rows, suc cols))
    else (rows, cols)

unfoldable pub grid_size : ℕ → ℕ × ℕ
unfolding grow
grid_size zero = (1, 1)
grid_size (suc n) = grow (suc n) (grid_size n)

-- What `grid_layout` returns when all cells are taken: the scan behind the next view.
unfoldable pub grid_return : Option ℕ → Plan → Outcome
unfolding scan_next_tileable_view
grid_return none p = done none p
grid_return (some v) p = done (scan_next_tileable_view v p) p

module _ (accepts : ℕ → Box → Bool) (m : Margins) where
  -- One row: `now` is the width of the next cell, `later` that of those behind it. Where no view is
  -- left, the function returns NULL from its inner loop.
  unfoldable pub grid_row : ℕ → ℤ → ℤ → ℤ → ℤ → ℤ → Option ℕ → Plan → Outcome
  unfolding tile scan_next_tileable_view
  grid_row zero x y now later height view p = done view p
  grid_row (suc k) x y now later height none p = done none p
  grid_row (suc k) x y now later height (some v) p =
      let q = tile accepts v (record { x = x; y = y; width = now; height = height }) p in
      grid_row k (x +ℤ (between m +ℤ now)) y later later height (scan_next_tileable_view v q) q

  unfoldable pub grid_rows : ℕ → ℕ → ℤ → ℤ → ℤ → ℤ → ℤ → ℤ → Option ℕ → Plan → Outcome
  unfolding grid_row
  grid_rows cols zero x y width later_width now later view p = done view p
  grid_rows cols (suc k) x y width later_width now later none p = done none p
  grid_rows cols (suc k) x y width later_width now later (some v) p =
      and_then (grid_row cols x y width later_width now (some v) p)
        (grid_rows cols k x (y +ℤ (between m +ℤ now)) width later_width later later)

  unfoldable pub grid_cells : Box → ℕ → ℕ → ℕ → Plan → Outcome
  unfolding grid_rows share rest_of
  grid_cells frame rows cols first p =
      let views_width = share m cols frame.width in
      let views_height = share m rows frame.height in
      grid_rows cols rows frame.x frame.y (views_width /ℤ cols +ℤ rest_of cols views_width)
        (views_width /ℤ cols) (views_height /ℤ rows +ℤ rest_of rows views_height)
        (views_height /ℤ rows) (some first) p

  unfoldable pub grid_layout : Box → ℕ → ℕ → Plan → Outcome
  unfolding grid_cells grid_size grid_return tile scan_next_tileable_view
  grid_layout frame first zero p = done none p
  grid_layout frame first (suc zero) p =
      let q = tile accepts first frame p in done (scan_next_tileable_view first q) q
  grid_layout frame first (suc (suc k)) p =
      let size = grid_size (suc (suc k)) in
      and_then (grid_cells frame size.0 size.1 first p) grid_return

-- `hikari_layout_func`: the function that a container of a split names.
pub data LayoutFunc : Type 0 where
  queue stack grid full single empty : LayoutFunc

unfoldable pub layout_of : LayoutFunc → (ℕ → Box → Bool) → Margins → Box → ℕ → ℕ → Plan → Outcome
unfolding queue_layout stack_layout grid_layout full_layout single_layout empty_layout
layout_of queue accepts m = queue_layout accepts m
layout_of stack accepts m = stack_layout accepts m
layout_of grid accepts m = grid_layout accepts m
layout_of full accepts m = full_layout accepts m
layout_of single accepts m = single_layout accepts m
layout_of empty accepts m = empty_layout accepts m

-- LAYOUT: the function for at most `max` views.
unfoldable pub run_layout : LayoutFunc → (ℕ → Box → Bool) → Margins → ℕ → Box → ℕ → Plan → Outcome
unfolding layout_of tileable_views
run_layout f accepts m max frame first p =
    let tileable = tileable_views first p in
    let n = if ltb max tileable then max else tileable in
    if n == 0 && not (max == 0) then done none p else layout_of f accepts m frame first n p
