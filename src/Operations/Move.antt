-- ===== src/Operations/Move.antt =====
-- Moving and resizing a view by hand (view.c). A result of none is a read through a pointer to a box
-- that has been freed.
use hikari_sakura.Prelude.{
  Bool, true, false, not, ◌&&◌, if◌then◌else◌, Option, none, some, ℤ, ◌+ℤ◌, ltb_ℤ, eqb_ℤ,
}
use hikari_sakura.Geometry.{Box, Position, position_x, position_y, constrain_relative}
use hikari_sakura.Operations.Window.{
  OperationType, resize_type, reset_type, Maximization, fully_maximized, vertically_maximized,
  horizontally_maximized, Window, Context, write_box, view_geometry, is_dirty,
}
use hikari_sakura.Operations.Queue.{set_operation, resize, with_box, maximization_of}

-- Only the origin of a reset or a resize is the user's.
abbrev pub has_origin : OperationType → Bool
has_origin resize_type = true
has_origin reset_type = true
has_origin _ = false

unfoldable pub track_pending_origin : Box → Window → Window
track_pending_origin b w =
    let op = w.pending_operation in
    if is_dirty w && has_origin op.type_of
    then record w {
      pending_operation = record op { geometry = record (op.geometry) { x = b.x; y = b.y } };
    }
    else w

-- The box that the view gets by `move_view_constrained`, written through its pointer.
unfoldable pub place : Box → Window → Window
unfolding write_box track_pending_origin
place b w = track_pending_origin b (write_box w.current_geometry b w)

-- A view that is maximized along an axis moves along the other one only, and keeps its own box in
-- step there.
unfoldable pub move_from : Option Maximization → Context → ℤ → ℤ → Box → Window → Window
unfolding place write_box
move_from none env x y b w = place b w
move_from (some fully_maximized) env x y b w = w
move_from (some vertically_maximized) env x y b w =
    let t = write_box w.current_geometry b w in
    if not (eqb_ℤ y env.usable_area.y)
    then w
    else track_pending_origin b (record t { geometry = record (t.geometry) { x = x } })
move_from (some horizontally_maximized) env x y b w =
    let t = write_box w.current_geometry b w in
    if not (eqb_ℤ x env.usable_area.x)
    then w
    else track_pending_origin b (record t { geometry = record (t.geometry) { y = y } })

-- `move_view`, for what `hikari_view_geometry` gives.
unfoldable pub move_view : Context → ℤ → ℤ → Window → Box → Window
unfolding move_from maximization_of
move_view env x y w current =
    let b = constrain_relative env.margins current env.usable_area x y in
    if w.fullscreen then w else move_from (maximization_of w) env x y b w

-- `hikari_view_move` and `hikari_view_move_absolute`, for a view that has an output.
unfoldable pub move_by : Context → ℤ → ℤ → Window → Option Window
unfolding move_view view_geometry
move_by env dx dy w = with_box (view_geometry w) (λ g. move_view env (g.x +ℤ dx) (g.y +ℤ dy) w g)

unfoldable pub move_absolute : Context → ℤ → ℤ → Window → Option Window
unfolding move_view view_geometry
move_absolute env x y w = with_box (view_geometry w) (move_view env x y w)

-- The nine `hikari_view_move_…`, for the box that the border takes.
unfoldable pub move_to_position : Context → Position → Box → Window → Option Window
unfolding move_view view_geometry position_x position_y
move_to_position env p border_geometry w = with_box (view_geometry w) (
    move_view env (position_x p env.margins border_geometry env.usable_area)
      (position_y p env.margins border_geometry env.usable_area) w)

-- `constrain_size` of view.c.
unfoldable pub constrain_length : ℤ → ℤ → ℤ → ℤ
constrain_length low high value =
    if ltb_ℤ high value then high else if ltb_ℤ value low then low else value

-- The operation that `queue_resize` writes, with its origin kept on the screen.
unfoldable pub resize_to : Context → ℤ → ℤ → ℤ → ℤ → Window → Window
unfolding resize constrain_relative
resize_to env x y width height w =
    let sized = record (w.pending_operation.geometry) { width = width; height = height } in
    resize env
      (set_operation resize_type false (constrain_relative env.margins sized env.usable_area x y) w)

-- For a size that the client accepts.
unfoldable pub resize_from : Option Maximization → Context → Box → ℤ → ℤ → ℤ → ℤ → Window → Window
unfolding resize_to
resize_from none env g x y width height w = resize_to env x y width height w
resize_from (some fully_maximized) env g x y width height w = w
resize_from (some vertically_maximized) env g x y width height w =
    resize_to env x y width g.height (record w { geometry = record (w.geometry) { width = width } })
resize_from (some horizontally_maximized) env g x y width height w =
    resize_to env x y g.width height
      (record w { geometry = record (w.geometry) { height = height } })

-- `queue_resize`, for a view that has an output.
unfoldable pub queue_resize : Context → Box → ℤ → ℤ → ℤ → ℤ → Window → Window
unfolding resize_from constrain_length maximization_of
queue_resize env g x y width height w =
    let new_width = constrain_length env.min_width env.max_width width in
    let new_height = constrain_length env.min_height env.max_height height in
    if w.fullscreen then w else resize_from (maximization_of w) env g x y new_width new_height w

-- `hikari_view_resize`, `hikari_view_resize_absolute` and `hikari_view_move_resize`.
unfoldable pub move_resize : Context → ℤ → ℤ → ℤ → ℤ → Window → Option Window
unfolding queue_resize view_geometry
move_resize env dx dy dwidth dheight w =
    if is_dirty w
    then some w
    else with_box (view_geometry w) (λ g.
      queue_resize env g (g.x +ℤ dx) (g.y +ℤ dy) (g.width +ℤ dwidth) (g.height +ℤ dheight) w)

unfoldable pub resize_by : Context → ℤ → ℤ → Window → Option Window
unfolding queue_resize view_geometry
resize_by env dwidth dheight w =
    if is_dirty w
    then some w
    else with_box (view_geometry w)
        (λ g. queue_resize env g g.x g.y (g.width +ℤ dwidth) (g.height +ℤ dheight) w)

unfoldable pub resize_absolute : Context → ℤ → ℤ → Window → Option Window
unfolding queue_resize view_geometry
resize_absolute env width height w =
    if is_dirty w
    then some w
    else with_box (view_geometry w) (λ g. queue_resize env g g.x g.y width height w)
