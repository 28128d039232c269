-- ===== src/Operations/Commit.antt =====
-- The commits of view.c's operations, once the client has the size.
use hikari_sakura.Prelude.{true, false, not, ◌&&◌, if◌then◌else◌, none, some, ℤ}
use hikari_sakura.Geometry.{Box}
use hikari_sakura.Operations.Window.{
  OperationType, resize_type, reset_type, unmaximize_type, tile_type, fullscreen_type,
  full_maximize_type, vertical_maximize_type, horizontal_maximize_type, Maximization,
  fully_maximized, vertically_maximized, horizontally_maximized, BorderState, border_none,
  border_inactive, border_active, Window, Context, refresh_geometry, set_dirty,
}

abbrev pub focus_border : Context → BorderState
focus_border env = if env.is_focused then border_active else border_inactive

-- The border of a view that draws its own frame is left alone.
unfoldable pub set_border : BorderState → Window → Window
set_border b w = record w { border = if w.use_csd then w.border else b }

unfoldable pub unshadow_fullscreen : Context → Window → Window
unfolding set_border
unshadow_fullscreen env w =
    if w.fullscreen then set_border (focus_border env) (record w { fullscreen = false }) else w

-- `commit_pending_operation`. A hidden view of a visible sheet is shown, unless it is forced.
unfoldable pub commit_pending : Context → Box → Window → Window
unfolding refresh_geometry
commit_pending env b w =
    let t = refresh_geometry b w in
    if not w.hidden then t else record t { hidden = not (env.sheet_is_visible && not w.forced) }

-- The maximized state is freed.
unfoldable pub drop_maximized : BorderState → Window → Window
unfolding set_border
drop_maximized b w = elim w.maximized_state [
  | none ↦ w
  | some m ↦ set_border b (record w { maximized_state = none })
]

-- What `commit_reset` does before `commit_pending_operation`, and so for the other commits.
unfoldable pub reset_state : Context → Window → Window
unfolding drop_maximized unshadow_fullscreen
reset_state env w =
    let t = unshadow_fullscreen env w in
    drop_maximized (focus_border env) (record t { tile = none })

unfoldable pub unmaximize_state : Context → Window → Window
unfolding set_border unshadow_fullscreen
unmaximize_state env w =
    let t = unshadow_fullscreen env w in
    set_border border_active (record t { maximized_state = none })

-- The state is allocated where there is none.
abbrev pub set_maximized : Maximization → Box → Window → Window
set_maximized m b w = record w {
  maximized_state = some (record { maximization = m; geometry = b });
}

unfoldable pub full_maximize_state : Box → Window → Window
unfolding set_border
full_maximize_state b w = set_border border_none (set_maximized fully_maximized b w)

-- The border that a fully maximized view has lost comes back.
unfoldable pub leave_full : Window → Window
unfolding set_border
leave_full w = elim w.maximized_state [
  | none ↦ w
  | some m ↦ elim m.maximization [
    | fully_maximized ↦ set_border border_inactive w
    | vertically_maximized ↦ w
    | horizontally_maximized ↦ w
  ]
]

unfoldable pub horizontal_maximize_state : Box → Window → Window
unfolding leave_full
horizontal_maximize_state b w = set_maximized horizontally_maximized b (leave_full w)

unfoldable pub vertical_maximize_state : Box → Window → Window
unfolding leave_full
vertical_maximize_state b w = set_maximized vertically_maximized b (leave_full w)

unfoldable pub fullscreen_state : Box → Window → Window
fullscreen_state b w = record w { fullscreen_geometry = b; fullscreen = true; border = border_none }

-- The tile of the operation becomes the view's, and the one that it had is freed.
unfoldable pub tile_state : Context → Window → Window
unfolding drop_maximized unshadow_fullscreen
tile_state env w =
    let t = drop_maximized border_inactive (unshadow_fullscreen env w) in
    record t {
      tile = t.pending_operation.tile;
      pending_operation = record (t.pending_operation) { tile = none };
    }

unfoldable pub prepared : OperationType → Context → Box → Window → Window
unfolding reset_state unmaximize_state full_maximize_state vertical_maximize_state
    horizontal_maximize_state tile_state fullscreen_state
prepared resize_type env b w = w
prepared reset_type env b w = reset_state env w
prepared unmaximize_type env b w = unmaximize_state env w
prepared full_maximize_type env b w = full_maximize_state b w
prepared vertical_maximize_type env b w = vertical_maximize_state b w
prepared horizontal_maximize_type env b w = horizontal_maximize_state b w
prepared tile_type env b w = tile_state env w
prepared fullscreen_type env b w = fullscreen_state b w

-- Where `commit_tile` does not raise or show the view.
unfoldable pub finished : OperationType → Context → Box → Window → Window
unfolding commit_pending
finished tile_type env b w = refresh_geometry b w
finished _ env b w = commit_pending env b w

unfoldable pub commit_operation : OperationType → Context → Box → Window → Window
unfolding prepared finished
commit_operation type env b w = finished type env b (prepared type env b w)

-- `hikari_view_commit_pending_operation`: the client has taken a size.
unfoldable pub view_commit : Context → ℤ → ℤ → Window → Window
unfolding commit_operation
view_commit env width height w =
    let op = w.pending_operation in
    let b = record (op.geometry) { width = width; height = height } in
    let t = record w { pending_operation = record op { geometry = b } } in
    set_dirty false (commit_operation op.type_of env b t)
