-- ===== src/Operations/Requests.antt =====
-- What is asked of a view over time, and what its client answers.
use hikari_sakura.Prelude.{
  ℕ, Bool, not, ◌&&◌, leb, if◌then◌else◌, List, [], ◌∷◌, Option, none, some, ℤ,
}
use hikari_sakura.Geometry.{Box, Position}
use hikari_sakura.Operations.Window.{OwnTile, Window, Context, is_dirty}
use hikari_sakura.Operations.Commit.{view_commit}
use hikari_sakura.Operations.Queue.{
  queue_reset, toggle_full_maximize, toggle_vertical_maximize, toggle_horizontal_maximize,
  request_fullscreen, queue_tile,
}
use hikari_sakura.Operations.Move.{
  move_by, move_absolute, move_to_position, move_resize, resize_by, resize_absolute,
}

-- `hikari_view_was_updated`: the client has taken this size, for a serial.
unfoldable pub client_commits : Context → ℕ → ℤ → ℤ → Window → Window
unfolding view_commit
client_commits env serial width height w =
    if is_dirty w && leb w.pending_operation.serial serial
    then view_commit env width height w
    else w

-- A layout tiles a view that is tileable only.
unfoldable pub tile_view : Context → OwnTile → Bool → Window → Option Window
unfolding queue_tile
tile_view env tile center w =
    if not w.floating && not w.invisible && not (is_dirty w)
    then queue_tile env tile center w
    else some w

-- What is asked of a view that stays on its output: toggles, fullscreen, resets, tiles, moves and
-- resizes, and the answers of its client. Migration, evacuation, the exchange of tiles, unmapping and
-- a client that resizes itself are not among it.
pub data Request : Type 0 where
  toggle_full toggle_vertical toggle_horizontal : Request
  set_fullscreen_to : Bool → Request
  reset_geometry : Bool → Request
  tile_into : OwnTile → Bool → Request
  move_relative move_to resize_relative resize_to_size : ℤ → ℤ → Request
  move_named : Position → Box → Request
  move_and_resize : ℤ → ℤ → ℤ → ℤ → Request
  committed : ℕ → ℤ → ℤ → Request

unfoldable pub perform : Context → Request → Window → Option Window
unfolding toggle_full_maximize toggle_vertical_maximize toggle_horizontal_maximize
    request_fullscreen queue_reset tile_view move_by move_absolute move_to_position move_resize
    resize_by resize_absolute client_commits
perform env toggle_full w = some (toggle_full_maximize env w)
perform env toggle_vertical w = toggle_vertical_maximize env w
perform env toggle_horizontal w = toggle_horizontal_maximize env w
perform env (set_fullscreen_to on) w = request_fullscreen env on w
perform env (reset_geometry center) w = queue_reset env center w
perform env (tile_into t center) w = tile_view env t center w
perform env (move_relative dx dy) w = move_by env dx dy w
perform env (move_to x y) w = move_absolute env x y w
perform env (move_named p border_geometry) w = move_to_position env p border_geometry w
perform env (resize_relative dw dh) w = resize_by env dw dh w
perform env (resize_to_size width height) w = resize_absolute env width height w
perform env (move_and_resize dx dy dw dh) w = move_resize env dx dy dw dh w
perform env (committed serial width height) w = some (client_commits env serial width height w)

unfoldable pub perform_all : List (Context × Request) → Option Window → Option Window
unfolding perform
perform_all rs none = none
perform_all [] (some w) = some w
perform_all ((env, r) ∷ rs) (some w) = perform_all rs (perform env r w)
