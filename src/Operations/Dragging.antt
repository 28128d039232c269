-- ===== src/Operations/Dragging.antt =====
-- A drag while the client of a view has still to answer.
use hikari_sakura.Prelude.{true, false, if_elim, Option, none, some, ℤ, ◌≡◌, ap, ◌∙◌, arith}
use hikari_sakura.Geometry.{Box, constrain_relative}
use hikari_sakura.Operations.Window.{
  reset_type, Maximization, Window, Context, box_at, view_geometry, is_dirty, write_box,
  refresh_geometry, geometry_slot, unmaximized_slot,
}
use hikari_sakura.Operations.Commit.{
  unshadow_fullscreen, view_commit, commit_operation, prepared, finished, commit_pending,
  reset_state, drop_maximized,
}
use hikari_sakura.Operations.Queue.{maximization_of}
use hikari_sakura.Operations.Move.{move_view, move_from, place, track_pending_origin, move_absolute}

abbrev pub committed_box : Context → ℤ → ℤ → Option Window → Option Box
committed_box env width height none = none
committed_box env width height (some t) = view_geometry (view_commit env width height t)

placed_lem :
    (env : Context) (b : Box) (width height : ℤ) (w : Window)
    → w.fullscreen ≡ false
    → w.maximized_state ≡ none
    → is_dirty w ≡ true
    → w.pending_operation.type_of ≡ reset_type
    → view_geometry (view_commit env width height (place b w))
      ≡ some (record b { width = width; height = height })
unfolding place track_pending_origin write_box view_commit commit_operation prepared finished
    reset_state unshadow_fullscreen drop_maximized commit_pending refresh_geometry geometry_slot
    unmaximized_slot view_geometry box_at
placed_lem env b width height w off none_below busy reset =
    ground (arith, off, none_below, busy, reset)

move_view_free :
    (env : Context) (x y : ℤ) (w : Window) (g : Box)
    → w.fullscreen ≡ false
    → w.maximized_state ≡ none
    → move_view env x y w g ≡ place (constrain_relative env.margins g env.usable_area x y) w
unfolding move_view move_from maximization_of
move_view_free env x y w g off below =
    if_elim (λ t. t ≡ place b w) w.fullscreen (λ on. absurd (ground (arith, on, off)))
      (λ _. ap (λ (o : Option Maximization). move_from o env x y b w) unmaximized)
  where
    unmaximized : maximization_of w ≡ none
    unmaximized = ground (arith, below)

    b : Box
    b = constrain_relative env.margins g env.usable_area x y

-- A view that is dragged while its reset waits for the client, as one is that has left its tile for
-- another screen, stays where the drag put it: when the client answers, the view has the
-- position of the last move, kept on the screen, and the size of the answer. It is neither
-- fullscreen nor maximized, and its geometry can be read.
pub move_absolute_stays :
    (env later : Context) (x y width height : ℤ) (w : Window) (g : Box)
    → view_geometry w ≡ some g
    → w.fullscreen ≡ false
    → w.maximized_state ≡ none
    → is_dirty w ≡ true
    → w.pending_operation.type_of ≡ reset_type
    → committed_box later width height (move_absolute env x y w)
      ≡ some (record (constrain_relative env.margins g env.usable_area x y) {
        width = width;
        height = height;
      })
unfolding move_absolute
move_absolute_stays env later x y width height w g e off below busy reset = rw e (moved g)
  where
    moved :
        (g : Box)
        → view_geometry (view_commit later width height (move_view env x y w g))
          ≡ some (record (constrain_relative env.margins g env.usable_area x y) {
            width = width;
            height = height;
          })
    moved g =
        ap (λ t. view_geometry (view_commit later width height t))
          (move_view_free env x y w g off below)
        ∙ placed_lem later (constrain_relative env.margins g env.usable_area x y) width height w off
            below busy reset
