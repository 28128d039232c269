-- ===== src/Operations/Queue.antt =====
-- The queuing of view.c's operations, and the requests that queue them. A result of none is a read
-- through a pointer to a box that has been freed.
use hikari_sakura.Prelude.{
  ℕ, Bool, true, false, not, ◌&&◌, ◌||◌, ◌==◌, if◌then◌else◌, Option, none, some, pos, eqb_ℤ,
}
use hikari_sakura.Geometry.{Box}
use hikari_sakura.Operations.Window.{
  OperationType, resize_type, reset_type, unmaximize_type, tile_type, fullscreen_type,
  full_maximize_type, vertical_maximize_type, horizontal_maximize_type, Maximization,
  fully_maximized, vertically_maximized, horizontally_maximized, OwnTile, Window, Context, box_at,
  view_geometry, is_dirty, set_dirty,
}
use hikari_sakura.Operations.Commit.{
  focus_border, set_border, unshadow_fullscreen, commit_operation, view_commit,
}

-- The operation is written to its slot.
abbrev pub set_operation : OperationType → Bool → Box → Window → Window
set_operation type center b w = record w {
  pending_operation = record (w.pending_operation) {
    type_of = type;
    center = center;
    geometry = b;
  };
}

abbrev pub set_serial : ℕ → Window → Window
set_serial n w = record w { pending_operation = record (w.pending_operation) { serial = n } }

-- `guarded_resize` and `resize`, for the operation in the slot: a client that has the size already
-- is committed at once.
unfoldable pub resize : Context → Window → Window
unfolding commit_operation
resize env w =
    let op = w.pending_operation in
    let n = env.resize op.geometry.width op.geometry.height in
    if env.has_move_resize
    then set_dirty true (set_serial 0 w)
    else if n == 0
    then commit_operation op.type_of env op.geometry (set_serial n w)
    else set_dirty true (set_serial n w)

abbrev pub same_size : Box → Box → Bool
same_size a b = eqb_ℤ a.width b.width && eqb_ℤ a.height b.height

-- `hikari_view_is_tiling`.
unfoldable pub is_tiling : Window → Bool
is_tiling w = is_dirty w && elim w.pending_operation.type_of [ tile_type ↦ true | _ ↦ false ]

-- A tile that waits for its client is taken off its layout and freed.
unfoldable pub cancel_tile : Window → Window
unfolding is_tiling
cancel_tile w =
    if is_tiling w
    then record w { pending_operation = record (w.pending_operation) { tile = none } }
    else w

-- The tile of a view is taken off its layout, and kept.
unfoldable pub detach_tile : Window → Window
detach_tile w = elim w.tile [
  | none ↦ w
  | some t ↦ record w { tile = some (record t { attached = false }) }
]

-- Where the size does not change, the commit does not wait for the client.
unfoldable pub resize_or_commit : Context → Box → Window → Window
unfolding resize view_commit
resize_or_commit env current w =
    if same_size current w.pending_operation.geometry
    then view_commit env current.width current.height (set_dirty true w)
    else resize env w

-- `queue_reset`, for what `hikari_view_geometry` gives.
unfoldable pub reset_from : Context → Bool → Window → Box → Window
unfolding resize_or_commit detach_tile cancel_tile
reset_from env center w current =
    resize_or_commit env current
      (set_operation reset_type center w.geometry (detach_tile (cancel_tile w)))

-- What is done with a box that is read through a pointer.
abbrev pub with_box : Option Box → (Box → Window) → Option Window
with_box none f = none
with_box (some b) f = some (f b)

unfoldable pub queue_reset : Context → Bool → Window → Option Window
unfolding reset_from view_geometry
queue_reset env center w = with_box (view_geometry w) (reset_from env center w)

unfoldable pub queue_full_maximize : Context → Window → Window
unfolding resize
queue_full_maximize env w = resize env (set_operation full_maximize_type true env.usable_area w)

unfoldable pub unmaximized_box : Window → Box
unmaximized_box w = elim w.tile [ none ↦ w.geometry | some t ↦ t.view_geometry ]

unfoldable pub queue_unmaximize : Context → Window → Window
unfolding resize unmaximized_box
queue_unmaximize env w = resize env (set_operation unmaximize_type true (unmaximized_box w) w)

unfoldable pub queue_horizontal_maximize : Context → Window → Option Window
unfolding resize box_at
queue_horizontal_maximize env w = with_box (box_at w.current_unmaximized_geometry w) (λ g.
    resize env (
      set_operation horizontal_maximize_type true
        (record {
          x = env.usable_area.x;
          y = g.y;
          width = env.usable_area.width;
          height = g.height;
        })
        w))

unfoldable pub queue_vertical_maximize : Context → Window → Option Window
unfolding resize box_at
queue_vertical_maximize env w = with_box (box_at w.current_unmaximized_geometry w) (λ g.
    resize env (
      set_operation vertical_maximize_type true
        (record {
          x = g.x;
          y = env.usable_area.y;
          width = g.width;
          height = env.usable_area.height;
        })
        w))

-- What the `switch`es on the maximized state see, with none for `NULL`.
unfoldable pub maximization_of : Window → Option Maximization
maximization_of w = elim w.maximized_state [ none ↦ none | some m ↦ some m.maximization ]

unfoldable pub is_fully_maximized : Window → Bool
unfolding maximization_of
is_fully_maximized w = elim (maximization_of w) [
  | none ↦ false
  | some m ↦ elim m [ fully_maximized ↦ true | _ ↦ false ]
]

unfoldable pub toggle_full_maximize : Context → Window → Window
unfolding is_fully_maximized queue_unmaximize queue_full_maximize
toggle_full_maximize env w =
    if is_dirty w
    then w
    else if is_fully_maximized w
    then queue_unmaximize env w
    else queue_full_maximize env w

-- The state machines of the two axes, with fullscreen dropped before.
unfoldable pub toggle_vertical_from : Option Maximization → Context → Window → Option Window
unfolding queue_horizontal_maximize queue_unmaximize queue_full_maximize queue_vertical_maximize
toggle_vertical_from none env w = queue_vertical_maximize env w
toggle_vertical_from (some fully_maximized) env w = queue_horizontal_maximize env w
toggle_vertical_from (some vertically_maximized) env w = some (queue_unmaximize env w)
toggle_vertical_from (some horizontally_maximized) env w = some (queue_full_maximize env w)

unfoldable pub toggle_vertical_maximize : Context → Window → Option Window
unfolding toggle_vertical_from unshadow_fullscreen maximization_of
toggle_vertical_maximize env w =
    let t = unshadow_fullscreen env w in
    if is_dirty w then some w else toggle_vertical_from (maximization_of t) env t

unfoldable pub toggle_horizontal_from : Option Maximization → Context → Window → Option Window
unfolding queue_horizontal_maximize queue_unmaximize queue_full_maximize queue_vertical_maximize
toggle_horizontal_from none env w = queue_horizontal_maximize env w
toggle_horizontal_from (some fully_maximized) env w = queue_vertical_maximize env w
toggle_horizontal_from (some vertically_maximized) env w = some (queue_full_maximize env w)
toggle_horizontal_from (some horizontally_maximized) env w = some (queue_unmaximize env w)

unfoldable pub toggle_horizontal_maximize : Context → Window → Option Window
unfolding toggle_horizontal_from unshadow_fullscreen maximization_of
toggle_horizontal_maximize env w =
    let t = unshadow_fullscreen env w in toggle_horizontal_from (maximization_of t) env t

unfoldable pub queue_fullscreen : Context → Window → Window
unfolding resize
queue_fullscreen env w = resize env (
    set_operation fullscreen_type false
      (record {
        x = pos 0;
        y = pos 0;
        width = env.output_geometry.width;
        height = env.output_geometry.height;
      })
      w)

-- What was shadowed is asked for again.
unfoldable pub restore_shadowed : Option Maximization → Context → Window → Option Window
unfolding queue_full_maximize queue_vertical_maximize queue_horizontal_maximize resize
    unmaximized_box
restore_shadowed none env w =
    some (resize env (set_operation resize_type false (unmaximized_box w) w))
restore_shadowed (some fully_maximized) env w = some (queue_full_maximize env w)
restore_shadowed (some vertically_maximized) env w = queue_vertical_maximize env w
restore_shadowed (some horizontally_maximized) env w = queue_horizontal_maximize env w

unfoldable pub queue_unfullscreen : Context → Window → Option Window
unfolding restore_shadowed set_border maximization_of
queue_unfullscreen env w =
    restore_shadowed (maximization_of w) env
      (set_border (focus_border env) (record w { fullscreen = false }))

abbrev pub is_same_flag : Bool → Bool → Bool
is_same_flag true b = b
is_same_flag false b = not b

-- `hikari_view_request_fullscreen`, for a view that has an output.
unfoldable pub request_fullscreen : Context → Bool → Window → Option Window
unfolding queue_fullscreen queue_unfullscreen
request_fullscreen env on w =
    if not w.mapped || w.hidden
    then some w
    else if is_same_flag on w.fullscreen
    then some w
    else if is_dirty w
    then some w
    else if on
    then some (queue_fullscreen env w)
    else queue_unfullscreen env w

-- The slot with a tile to come.
abbrev pub tile_operation : OwnTile → Bool → Window → Window
tile_operation tile center w =
    let t = set_operation tile_type center tile.view_geometry w in
    record t { pending_operation = record (t.pending_operation) { tile = some tile } }

-- `queue_tile`, for what `hikari_view_geometry` gives.
unfoldable pub tile_from : Context → OwnTile → Bool → Window → Box → Window
unfolding resize_or_commit
tile_from env tile center w current = resize_or_commit env current (tile_operation tile center w)

unfoldable pub queue_tile : Context → OwnTile → Bool → Window → Option Window
unfolding tile_from view_geometry
queue_tile env tile center w = with_box (view_geometry w) (tile_from env tile center w)
