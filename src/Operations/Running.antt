-- ===== src/Operations/Running.antt =====
-- A view over time: what is asked of it, and whenever its client answers.
use hikari_sakura.Prelude.{
  false, not, ◌&&◌, leb, if◌then◌else◌, if_elim, eqb_ℤ, List, [], ◌∷◌, Option, none, some, ℤ, refl,
  arith,
}
use hikari_sakura.Geometry.{Box}
use hikari_sakura.Operations.Window.{
  resize_type, Maximization, fully_maximized, vertically_maximized, horizontally_maximized, Window,
  Context, view_geometry, is_dirty, geometry_slot, unmaximized_slot,
}
use hikari_sakura.Operations.Queue.{maximization_of, with_box}
use hikari_sakura.Operations.Move.{
  place, has_origin, move_from, resize_from, track_pending_origin, move_view, move_by,
  move_absolute, move_to_position, resize_to, queue_resize, move_resize, resize_by, resize_absolute,
}
use hikari_sakura.Operations.Sound.{IsAligned, IsSound, is_due, resize-IsSound, view_commit-IsSound}
use hikari_sakura.Operations.Requests.{
  client_commits, Request, toggle_full, toggle_vertical, toggle_horizontal, set_fullscreen_to,
  reset_geometry, tile_into, move_relative, move_to, resize_relative, resize_to_size, move_named,
  move_and_resize, committed, perform, perform_all,
}
use hikari_sakura.Operations.Queuing.{
  current_live, with_box-Returns, set_operation-IsReady, request_fullscreen-Returns,
  tile_view-Returns, queue_reset-Returns, toggle_full_maximize-IsSound,
  toggle_vertical_maximize-Returns, toggle_horizontal_maximize-Returns, write_box-IsSound, Returns,
}

track-IsSound : (b : Box) (w : Window) → IsSound w → IsSound (track_pending_origin b w)
unfolding track_pending_origin geometry_slot unmaximized_slot
track-IsSound b w s =
    if_elim IsSound (is_dirty w && has_origin w.pending_operation.type_of)
      (λ _. record {
        aligned = record { unmaximized = s.aligned.unmaximized; current = s.aligned.current };
        due = s.due;
      })
      (λ _. s)

own_box-IsSound : (b : Box) (w : Window) → IsSound w → IsSound (record w { geometry = b })
unfolding geometry_slot unmaximized_slot
own_box-IsSound b w s = record {
  aligned = record { unmaximized = s.aligned.unmaximized; current = s.aligned.current };
  due = s.due;
}

module _ (env : Context) where
  move_from-IsSound :
      (o : Option Maximization) (x y : ℤ) (b : Box) (w : Window)
      → IsSound w
      → IsSound (move_from o env x y b w)
  unfolding move_from place
  move_from-IsSound none x y b w s = track-IsSound b _ (write_box-IsSound w.current_geometry b w s)
  move_from-IsSound (some fully_maximized) x y b w s = s
  move_from-IsSound (some vertically_maximized) x y b w s =
      let t = write_box-IsSound w.current_geometry b w s in
      if_elim IsSound (not (eqb_ℤ y env.usable_area.y)) (λ _. s)
        (λ _. track-IsSound b _ (own_box-IsSound _ _ t))
  move_from-IsSound (some horizontally_maximized) x y b w s =
      let t = write_box-IsSound w.current_geometry b w s in
      if_elim IsSound (not (eqb_ℤ x env.usable_area.x)) (λ _. s)
        (λ _. track-IsSound b _ (own_box-IsSound _ _ t))

  move_view-IsSound : (x y : ℤ) (w : Window) (b : Box) → IsSound w → IsSound (move_view env x y w b)
  unfolding move_view
  move_view-IsSound x y w b s =
      if_elim IsSound w.fullscreen (λ _. s) (λ _. move_from-IsSound (maximization_of w) x y _ w s)

  resize_to-IsSound :
      (x y width height : ℤ) (w : Window) → IsAligned w → IsSound (resize_to env x y width height w)
  unfolding resize_to is_due
  resize_to-IsSound x y width height w a =
      resize-IsSound env _
        (set_operation-IsReady resize_type false _ w a refl (λ e. absurd (ground (arith, e))))

  resize_from-IsSound :
      (o : Option Maximization) (g : Box) (x y width height : ℤ) (w : Window)
      → IsSound w
      → IsSound (resize_from o env g x y width height w)
  unfolding resize_from
  resize_from-IsSound none g x y width height w s = resize_to-IsSound x y width height w s.aligned
  resize_from-IsSound (some fully_maximized) g x y width height w s = s
  resize_from-IsSound (some vertically_maximized) g x y width height w s =
      resize_to-IsSound x y width g.height _
        (own_box-IsSound (record (w.geometry) { width = width }) w s).aligned
  resize_from-IsSound (some horizontally_maximized) g x y width height w s =
      resize_to-IsSound x y g.width height _
        (own_box-IsSound (record (w.geometry) { height = height }) w s).aligned

  queue_resize-IsSound :
      (g : Box) (x y width height : ℤ) (w : Window)
      → IsSound w
      → IsSound (queue_resize env g x y width height w)
  unfolding queue_resize
  queue_resize-IsSound g x y width height w s =
      if_elim IsSound w.fullscreen (λ _. s)
        (λ _. resize_from-IsSound (maximization_of w) g x y _ _ w s)

  on_box-Returns :
      (w : Window) (f : Box → Window)
      → IsSound w
      → ((b : Box) → IsSound (f b))
      → Returns (with_box (view_geometry w) f)
  on_box-Returns w f s k = with_box-Returns (view_geometry w) f (current_live w s.aligned) k

  unless_dirty-Returns :
      (w : Window) (o : Option Window)
      → IsSound w
      → Returns o
      → Returns (if is_dirty w then some w else o)
  unless_dirty-Returns w o s r = if_elim Returns (is_dirty w) (λ _. s) (λ _. r)

  pub perform-Returns : (r : Request) (w : Window) → IsSound w → Returns (perform env r w)
  unfolding perform move_by move_absolute move_to_position move_resize resize_by resize_absolute
      client_commits
  perform-Returns toggle_full w s = toggle_full_maximize-IsSound env w s
  perform-Returns toggle_vertical w s = toggle_vertical_maximize-Returns env w s
  perform-Returns toggle_horizontal w s = toggle_horizontal_maximize-Returns env w s
  perform-Returns (set_fullscreen_to on) w s = request_fullscreen-Returns env on w s
  perform-Returns (reset_geometry center) w s = queue_reset-Returns env center w s
  perform-Returns (tile_into t center) w s = tile_view-Returns env t center w s
  perform-Returns (move_relative dx dy) w s =
      on_box-Returns w _ s (λ b. move_view-IsSound _ _ w b s)
  perform-Returns (move_to x y) w s = on_box-Returns w _ s (λ b. move_view-IsSound x y w b s)
  perform-Returns (move_named p border_geometry) w s =
      on_box-Returns w _ s (λ b. move_view-IsSound _ _ w b s)
  perform-Returns (resize_relative dw dh) w s =
      unless_dirty-Returns w _ s (on_box-Returns w _ s (λ b. queue_resize-IsSound b _ _ _ _ w s))
  perform-Returns (resize_to_size width height) w s =
      unless_dirty-Returns w _ s (on_box-Returns w _ s (λ b. queue_resize-IsSound b _ _ _ _ w s))
  perform-Returns (move_and_resize dx dy dw dh) w s =
      unless_dirty-Returns w _ s (on_box-Returns w _ s (λ b. queue_resize-IsSound b _ _ _ _ w s))
  perform-Returns (committed serial width height) w s =
      if_elim IsSound (is_dirty w && leb w.pending_operation.serial serial)
        (λ _. view_commit-IsSound env width height w) (λ _. s)

all-Returns :
    (rs : List (Context × Request)) (o : Option Window) → Returns o → Returns (perform_all rs o)
unfolding perform_all
all-Returns rs none h = absurd h
all-Returns [] (some w) s = s
all-Returns ((env, r) ∷ rs) (some w) s =
    all-Returns rs (perform env r w) (perform-Returns env r w s)

-- However often a view is maximized, made fullscreen, reset, tiled, moved and resized, and whenever
-- and with whatever size its client answers, no freed box is read, and the view stays sound: its
-- pointers point to the boxes that its state selects (or to that of a fullscreen that is over), an
-- operation that waits for the client can be committed, a tile has its tile, and a maximization along
-- one axis never meets a view that is maximized along the other alone. The view is sound in the
-- beginning; it is neither unmapped nor moved to another output, and its client does not resize itself.
pub perform_all-Returns :
    (rs : List (Context × Request)) (w : Window) → IsSound w → Returns (perform_all rs (some w))
perform_all-Returns rs w s = all-Returns rs (some w) s
