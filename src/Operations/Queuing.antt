-- ===== src/Operations/Queuing.antt =====
-- The queuing of operations keeps a view sound.
use hikari_sakura.Prelude.{
  Bool, true, false, not, ◌&&◌, ◌||◌, if◌then◌else◌, if_elim, Option, none, some, ◌≡◌, refl, arith,
  inl, inr, Option-cases,
}
use hikari_sakura.Geometry.{Box}
use hikari_sakura.Operations.Window.{
  OperationType, resize_type, reset_type, unmaximize_type, tile_type, fullscreen_type,
  full_maximize_type, vertical_maximize_type, horizontal_maximize_type, Maximization,
  fully_maximized, vertically_maximized, horizontally_maximized, OwnTile, Window, Context, Slot,
  box_at, view_geometry, is_dirty, geometry_slot, unmaximized_slot, write_box,
}
use hikari_sakura.Operations.Commit.{set_border, focus_border, unshadow_fullscreen}
use hikari_sakura.Operations.Queue.{
  set_operation, cancel_tile, maximization_of, is_tiling, detach_tile, reset_from, queue_reset,
  with_box, queue_full_maximize, queue_unmaximize, queue_horizontal_maximize,
  queue_vertical_maximize, toggle_full_maximize, toggle_vertical_from, toggle_vertical_maximize,
  toggle_horizontal_from, toggle_horizontal_maximize, queue_fullscreen, restore_shadowed,
  queue_unfullscreen, request_fullscreen, tile_from, tile_operation, queue_tile, unmaximized_box,
  is_same_flag, is_fully_maximized,
}
use hikari_sakura.Operations.Sound.{
  IsAligned, IsSound, IsReady, is_due, resize-IsSound, resize_or_commit-IsSound,
}
use hikari_sakura.Operations.Requests.{tile_view}

-- A sound view, and not a read of a box that has been freed.
abbrev pub Returns : Option Window → Type 0
Returns none = ⊥
Returns (some w) = IsSound w

pub current_live : (w : Window) → IsAligned w → (b : Box) × (view_geometry w ≡ some b)
unfolding view_geometry box_at geometry_slot unmaximized_slot
current_live w a = elim (Option-cases (view_geometry w)) [
  | inr (b, e) ↦ (b, e)
  | inl e ↦ absurd (ground (arith, e, a.current))
]

pub unmaximized_live :
    (w : Window) → IsAligned w → (b : Box) × (box_at w.current_unmaximized_geometry w ≡ some b)
unfolding box_at unmaximized_slot
unmaximized_live w a = elim (Option-cases (box_at w.current_unmaximized_geometry w)) [
  | inr (b, e) ↦ (b, e)
  | inl e ↦ absurd (ground (arith, e, a.unmaximized))
]

pub with_box-Returns :
    (o : Option Box) (f : Box → Window)
    → ((b : Box) × (o ≡ some b))
    → ((b : Box) → IsSound (f b))
    → Returns (with_box o f)
with_box-Returns none f (b, e) s = absurd (ground (arith, e))
with_box-Returns (some c) f (b, e) s = s c

pub set_operation-IsReady :
    (type : OperationType) (center : Bool) (b : Box) (w : Window)
    → IsAligned w
    → is_due type w.maximized_state w.pending_operation.tile ≡ true
    → (type ≡ tile_type → is_dirty w ≡ false)
    → IsReady (set_operation type center b w)
unfolding unmaximized_slot geometry_slot
set_operation-IsReady type center b w a d c = record {
  aligned = record { unmaximized = a.unmaximized; current = a.current };
  due = d;
  clean = c;
}

pub unshadow-IsAligned :
    (env : Context) (w : Window) → IsAligned w → IsAligned (unshadow_fullscreen env w)
unfolding unshadow_fullscreen set_border geometry_slot unmaximized_slot
unshadow-IsAligned env w a = record {
  unmaximized = ground (arith, a.unmaximized);
  current = ground (arith, a.current);
}

pub write_box-IsSound :
    (slot : Slot) (b : Box) (w : Window) → IsSound w → IsSound (write_box slot b w)
unfolding write_box geometry_slot unmaximized_slot is_due
write_box-IsSound slot b w s = record {
  aligned = record {
    unmaximized = ground (arith, s.aligned.unmaximized);
    current = ground (arith, s.aligned.current);
  };
  due = λ d. ground (arith, s.due, d);
}

module _ (env : Context) where
  pub full_maximize-IsSound : (w : Window) → IsAligned w → IsSound (queue_full_maximize env w)
  unfolding queue_full_maximize is_due
  full_maximize-IsSound w a = resize-IsSound env _ (
      set_operation-IsReady full_maximize_type true env.usable_area w a refl
        (λ e. absurd (ground (arith, e))))

  pub unmaximize-IsSound : (w : Window) → IsAligned w → IsSound (queue_unmaximize env w)
  unfolding queue_unmaximize is_due
  unmaximize-IsSound w a = resize-IsSound env _ (
      set_operation-IsReady unmaximize_type true (unmaximized_box w) w a refl
        (λ e. absurd (ground (arith, e))))

  pub horizontal-Returns :
      (w : Window)
      → IsAligned w
      → is_due horizontal_maximize_type w.maximized_state none ≡ true
      → Returns (queue_horizontal_maximize env w)
  unfolding queue_horizontal_maximize is_due
  horizontal-Returns w a d = with_box-Returns _ _ (unmaximized_live w a) (λ g.
      resize-IsSound env _ (
        set_operation-IsReady horizontal_maximize_type true _ w a (ground (arith, d))
          (λ e. absurd (ground (arith, e)))))

  pub vertical-Returns :
      (w : Window)
      → IsAligned w
      → is_due vertical_maximize_type w.maximized_state none ≡ true
      → Returns (queue_vertical_maximize env w)
  unfolding queue_vertical_maximize is_due
  vertical-Returns w a d = with_box-Returns _ _ (unmaximized_live w a) (λ g. resize-IsSound env _ (
      set_operation-IsReady vertical_maximize_type true _ w a (ground (arith, d))
        (λ e. absurd (ground (arith, e)))))

  -- A maximization along an axis is never asked of a view that is maximized along the other.
  pub due_horizontal :
      (w : Window)
      → (maximization_of w ≡ some vertically_maximized → ⊥)
      → is_due horizontal_maximize_type w.maximized_state none ≡ true
  unfolding maximization_of is_due
  due_horizontal w h = ground (arith, h)

  pub due_vertical :
      (w : Window)
      → (maximization_of w ≡ some horizontally_maximized → ⊥)
      → is_due vertical_maximize_type w.maximized_state none ≡ true
  unfolding maximization_of is_due
  due_vertical w h = ground (arith, h)

  pub toggle_vertical_from-Returns :
      (o : Option Maximization) (w : Window)
      → maximization_of w ≡ o
      → IsAligned w
      → Returns (toggle_vertical_from o env w)
  unfolding toggle_vertical_from
  toggle_vertical_from-Returns none w e a =
      vertical-Returns w a (due_vertical w (ground (arith, e)))
  toggle_vertical_from-Returns (some fully_maximized) w e a =
      horizontal-Returns w a (due_horizontal w (ground (arith, e)))
  toggle_vertical_from-Returns (some vertically_maximized) w e a = unmaximize-IsSound w a
  toggle_vertical_from-Returns (some horizontally_maximized) w e a = full_maximize-IsSound w a

  pub toggle_horizontal_from-Returns :
      (o : Option Maximization) (w : Window)
      → maximization_of w ≡ o
      → IsAligned w
      → Returns (toggle_horizontal_from o env w)
  unfolding toggle_horizontal_from
  toggle_horizontal_from-Returns none w e a =
      horizontal-Returns w a (due_horizontal w (ground (arith, e)))
  toggle_horizontal_from-Returns (some fully_maximized) w e a =
      vertical-Returns w a (due_vertical w (ground (arith, e)))
  toggle_horizontal_from-Returns (some vertically_maximized) w e a = full_maximize-IsSound w a
  toggle_horizontal_from-Returns (some horizontally_maximized) w e a = unmaximize-IsSound w a

  pub restore_shadowed-Returns :
      (o : Option Maximization) (w : Window)
      → maximization_of w ≡ o
      → IsAligned w
      → Returns (restore_shadowed o env w)
  unfolding restore_shadowed is_due
  restore_shadowed-Returns none w e a = resize-IsSound env _ (
      set_operation-IsReady resize_type false (unmaximized_box w) w a refl
        (λ e. absurd (ground (arith, e))))
  restore_shadowed-Returns (some fully_maximized) w e a = full_maximize-IsSound w a
  restore_shadowed-Returns (some vertically_maximized) w e a =
      vertical-Returns w a (due_vertical w (ground (arith, e)))
  restore_shadowed-Returns (some horizontally_maximized) w e a =
      horizontal-Returns w a (due_horizontal w (ground (arith, e)))

  pub queue_unfullscreen-Returns :
      (w : Window) → w.fullscreen ≡ true → IsAligned w → Returns (queue_unfullscreen env w)
  unfolding queue_unfullscreen set_border maximization_of geometry_slot unmaximized_slot
  queue_unfullscreen-Returns w on a =
      restore_shadowed-Returns (maximization_of w)
        (set_border (focus_border env) (record w { fullscreen = false })) refl
        (record { unmaximized = a.unmaximized; current = ground (arith, on, a.current) })

  pub queue_fullscreen-IsSound : (w : Window) → IsAligned w → IsSound (queue_fullscreen env w)
  unfolding queue_fullscreen is_due
  queue_fullscreen-IsSound w a =
      resize-IsSound env _
        (set_operation-IsReady fullscreen_type false _ w a refl (λ e. absurd (ground (arith, e))))

  pub request_fullscreen-Returns :
      (on : Bool) (w : Window) → IsSound w → Returns (request_fullscreen env on w)
  unfolding request_fullscreen
  request_fullscreen-Returns on w s =
      if_elim Returns (not w.mapped || w.hidden) (λ _. s)
        (λ _.
          if_elim Returns (is_same_flag on w.fullscreen) (λ _. s)
            (λ other. if_elim Returns (is_dirty w) (λ _. s) (λ _. asked on other)))
    where
      asked :
          (on : Bool)
          → is_same_flag on w.fullscreen ≡ false
          → Returns (if on then some (queue_fullscreen env w) else queue_unfullscreen env w)
      asked true other = queue_fullscreen-IsSound w s.aligned
      asked false other = queue_unfullscreen-Returns w (ground (arith, other)) s.aligned

  pub tile_view-Returns :
      (t : OwnTile) (center : Bool) (w : Window) → IsSound w → Returns (tile_view env t center w)
  unfolding tile_view queue_tile tile_from is_due geometry_slot unmaximized_slot
  tile_view-Returns t center w s =
      if_elim Returns (not w.floating && not w.invisible && not (is_dirty w))
        (λ free. with_box-Returns _ _ (current_live w s.aligned) (λ current.
          resize_or_commit-IsSound env current (tile_operation t center w) (record {
            aligned = record { unmaximized = s.aligned.unmaximized; current = s.aligned.current };
            due = refl;
            clean = λ e. ground (arith, free);
          })))
        (λ _. s)

  pub reset_from-IsSound :
      (center : Bool) (w : Window) (b : Box) → IsSound w → IsSound (reset_from env center w b)
  unfolding reset_from detach_tile cancel_tile is_tiling is_due geometry_slot unmaximized_slot
  reset_from-IsSound center w b s = resize_or_commit-IsSound env b _ (
      set_operation-IsReady reset_type center w.geometry (detach_tile (cancel_tile w))
        (record {
          unmaximized = ground (arith, s.aligned.unmaximized);
          current = ground (arith, s.aligned.current);
        })
        refl (λ e. absurd (ground (arith, e))))

  pub queue_reset-Returns :
      (center : Bool) (w : Window) → IsSound w → Returns (queue_reset env center w)
  unfolding queue_reset
  queue_reset-Returns center w s =
      with_box-Returns _ _ (current_live w s.aligned) (λ b. reset_from-IsSound center w b s)

  pub toggle_full_maximize-IsSound : (w : Window) → IsSound w → IsSound (toggle_full_maximize env w)
  unfolding toggle_full_maximize
  toggle_full_maximize-IsSound w s =
      if_elim IsSound (is_dirty w) (λ _. s)
        (λ _.
          if_elim IsSound (is_fully_maximized w) (λ _. unmaximize-IsSound w s.aligned)
            (λ _. full_maximize-IsSound w s.aligned))

  pub toggle_vertical_maximize-Returns :
      (w : Window) → IsSound w → Returns (toggle_vertical_maximize env w)
  unfolding toggle_vertical_maximize
  toggle_vertical_maximize-Returns w s =
      if_elim Returns (is_dirty w) (λ _. s)
        (λ _.
          toggle_vertical_from-Returns _ (unshadow_fullscreen env w) refl
            (unshadow-IsAligned env w s.aligned))

  pub toggle_horizontal_maximize-Returns :
      (w : Window) → IsSound w → Returns (toggle_horizontal_maximize env w)
  unfolding toggle_horizontal_maximize
  toggle_horizontal_maximize-Returns w s =
      toggle_horizontal_from-Returns _ (unshadow_fullscreen env w) refl
        (unshadow-IsAligned env w s.aligned)
