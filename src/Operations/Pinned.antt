-- ===== src/Operations/Pinned.antt =====
-- What toggles do to a view that is fullscreen, or that has an operation in flight.
use hikari_sakura.Prelude.{
  true, false, ◌==◌, if_elim, Option, none, some, ℤ, ◌≡◌, refl, ◌∙◌, ap, arith,
}
use hikari_sakura.Geometry.{Box}
use hikari_sakura.Operations.Window.{
  OperationType, tile_type, unmaximize_type, full_maximize_type, vertical_maximize_type,
  horizontal_maximize_type, Maximization, fully_maximized, vertically_maximized,
  horizontally_maximized, Operation, Window, Context, box_at, view_geometry, is_dirty,
  geometry_slot, write_box, refresh_geometry,
}
use hikari_sakura.Operations.Commit.{
  set_border, unshadow_fullscreen, commit_operation, prepared, finished, commit_pending,
  full_maximize_state,
}
use hikari_sakura.Operations.Queue.{
  set_operation, resize, with_box, is_tiling, cancel_tile, queue_full_maximize, queue_unmaximize,
  queue_horizontal_maximize, queue_vertical_maximize, toggle_full_maximize,
  toggle_vertical_maximize, toggle_horizontal_from, toggle_horizontal_maximize, is_fully_maximized,
  maximization_of,
}
use hikari_sakura.Operations.Sound.{IsAligned, IsSound}
use hikari_sakura.Operations.Queuing.{unmaximized_live, unshadow-IsAligned}
use hikari_sakura.Operations.Settling.{take_size, take_size-resize}

full_over_fullscreen :
    (env : Context) (w : Window) (p : Operation)
    → w.hidden ≡ false
    → w.fullscreen ≡ true
    → let t =
        commit_operation full_maximize_type env env.usable_area
          (record w { pending_operation = p }) in
      (t.fullscreen ≡ true) × (view_geometry t ≡ some env.usable_area)
unfolding commit_operation finished prepared commit_pending refresh_geometry write_box geometry_slot
    full_maximize_state set_border view_geometry box_at
full_over_fullscreen env w p shown on = (ground (arith, shown, on), ground (arith, shown, on))

-- Maximizing a fullscreen view that is not fully maximized underneath, with the binding or for a
-- taskbar, leaves it fullscreen but shrinks it to the usable area: the box of the fullscreen is
-- overwritten. The view is visible, no operation is pending, and the client takes the size.
pub toggle_full_maximize_shrinks :
    (env : Context) (w : Window)
    → w.hidden ≡ false
    → w.fullscreen ≡ true
    → is_dirty w ≡ false
    → is_fully_maximized w ≡ false
    → let t = take_size env (toggle_full_maximize env w) in
      (t.fullscreen ≡ true) × (view_geometry t ≡ some env.usable_area)
unfolding toggle_full_maximize queue_full_maximize view_geometry box_at
toggle_full_maximize_shrinks env w shown on clean below =
    if_elim (λ u. Shrunk (take_size env u)) (is_dirty w) (λ d. absurd (ground (arith, d, clean)))
      (λ _.
        if_elim (λ u. Shrunk (take_size env u)) (is_fully_maximized w)
          (λ f. absurd (ground (arith, f, below)))
          (λ _.
            take_size-resize Shrunk full_maximize_type true env env.usable_area w clean
              (λ p. full_over_fullscreen env w p shown on) (λ t h. (h.0, ground (arith, h)))))
  where
    Shrunk : Window → Type 0
    Shrunk t = (t.fullscreen ≡ true) × (view_geometry t ≡ some env.usable_area)

-- A client that neither answers at once nor is moved and resized in one.
pub record IsSlow (env : Context) : Type 0 where
  pub waits : (width height : ℤ) → (env.resize width height == 0) ≡ false
  pub moves : env.has_move_resize ≡ false

-- The tile in the slot is no longer one that is waited for, and so is not taken back.
abbrev pub Loses : Window → Option Window → Type 0
Loses w none = ⊥
Loses w (some t) =
    (is_tiling t ≡ false)
    × ((cancel_tile t).pending_operation.tile ≡ w.pending_operation.tile)
    × (is_dirty t ≡ true)

resize-Loses :
    (env : Context) (type : OperationType) (b : Box) (w : Window)
    → (type ≡ tile_type → ⊥)
    → IsSlow env
    → Loses w (some (resize env (set_operation type true b w)))
unfolding resize is_tiling cancel_tile
resize-Loses env type b w other slow =
    let waits = slow.waits b.width b.height in
    (
      ground (arith, waits, slow.moves, other),
      ground (arith, waits, slow.moves, other),
      ground (arith, waits, slow.moves, other),
    )

module _ (env : Context) (slow : IsSlow env) where
  with_box-Loses :
      (o : Option Box) (w : Window) (f : Box → Window)
      → ((b : Box) × (o ≡ some b))
      → ((b : Box) → Loses w (some (f b)))
      → Loses w (with_box o f)
  with_box-Loses none w f (b, e) k = absurd (ground (arith, e))
  with_box-Loses (some c) w f (b, e) k = k c

  toggle_horizontal_from-Loses :
      (o : Option Maximization) (w : Window)
      → IsAligned w
      → Loses w (toggle_horizontal_from o env w)
  unfolding toggle_horizontal_from queue_horizontal_maximize queue_vertical_maximize
      queue_full_maximize queue_unmaximize
  toggle_horizontal_from-Loses none w a =
      with_box-Loses _ w _ (unmaximized_live w a)
        (λ b. resize-Loses env horizontal_maximize_type _ w (λ e. ground (arith, e)) slow)
  toggle_horizontal_from-Loses (some fully_maximized) w a =
      with_box-Loses _ w _ (unmaximized_live w a)
        (λ b. resize-Loses env vertical_maximize_type _ w (λ e. ground (arith, e)) slow)
  toggle_horizontal_from-Loses (some vertically_maximized) w a =
      resize-Loses env full_maximize_type _ w (λ e. ground (arith, e)) slow
  toggle_horizontal_from-Loses (some horizontally_maximized) w a =
      resize-Loses env unmaximize_type _ w (λ e. ground (arith, e)) slow

  unshadow_pending :
      (w : Window) → (unshadow_fullscreen env w).pending_operation ≡ w.pending_operation
  unfolding unshadow_fullscreen set_border
  unshadow_pending w =
      if_elim (λ (t : Window). t.pending_operation ≡ w.pending_operation) w.fullscreen (λ _. refl)
        (λ _. refl)

  Loses-same :
      (v w : Window) (r : Option Window)
      → v.pending_operation ≡ w.pending_operation
      → Loses v r
      → Loses w r
  Loses-same v w none e h = h
  Loses-same v w (some t) e h = (h.0, h.1 ∙ ap (λ (p : Operation). p.tile) e, h.2)

  -- While an operation waits for its client, toggling the maximization of both axes or of the vertical
  -- one changes nothing, but toggling the horizontal one puts its own operation in the slot. A tile
  -- that was waited for then stays there, on its layout: it is not taken back with the view, as what
  -- is in the slot is no tiling any more. The view is sound, and the client neither
  -- answers at once nor is moved and resized in one.
  pub toggle_horizontal_maximize-Loses :
      (w : Window)
      → IsSound w
      → is_dirty w ≡ true
      → (toggle_full_maximize env w ≡ w)
        × (toggle_vertical_maximize env w ≡ some w)
        × Loses w (toggle_horizontal_maximize env w)
  unfolding toggle_full_maximize toggle_vertical_maximize toggle_horizontal_maximize
  toggle_horizontal_maximize-Loses w s busy = (
    if_elim (λ t. t ≡ w) (is_dirty w) (λ _. refl) (λ c. absurd (ground (arith, c, busy))),
    if_elim (λ t. t ≡ some w) (is_dirty w) (λ _. refl) (λ c. absurd (ground (arith, c, busy))),
    Loses-same (unshadow_fullscreen env w) w _ (unshadow_pending w) (
        toggle_horizontal_from-Loses (maximization_of (unshadow_fullscreen env w))
          (unshadow_fullscreen env w) (unshadow-IsAligned env w s.aligned)),
  )
