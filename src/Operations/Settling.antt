-- ===== src/Operations/Settling.antt =====
-- The commit of an operation that is queued, once its client has taken the size.
use hikari_sakura.Prelude.{
  ℕ, Bool, false, ◌==◌, if◌then◌else◌, if_elim, ◌≡◌, refl, sym, subst, ◌∙◌, arith,
}
use hikari_sakura.Geometry.{Box}
use hikari_sakura.Operations.Window.{
  OperationType, Operation, Window, Context, is_dirty, set_dirty, geometry_slot, unmaximized_slot,
  write_box, refresh_geometry,
}
use hikari_sakura.Operations.Commit.{
  set_border, unshadow_fullscreen, view_commit, commit_operation, prepared, finished,
  commit_pending, fullscreen_state, full_maximize_state, vertical_maximize_state,
  horizontal_maximize_state, leave_full, reset_state, unmaximize_state, tile_state, drop_maximized,
}
use hikari_sakura.Operations.Queue.{set_operation, set_serial, resize}

-- The client takes the size that it was asked for, if it is waited for.
unfoldable pub take_size : Context → Window → Window
unfolding view_commit
take_size env w =
    let b = w.pending_operation.geometry in
    if is_dirty w then view_commit env b.width b.height w else w

pub commit_operation_dirty :
    (type : OperationType) (env : Context) (b : Box) (w : Window)
    → is_dirty (commit_operation type env b w) ≡ is_dirty w
unfolding commit_operation finished prepared commit_pending refresh_geometry write_box geometry_slot
    unmaximized_slot reset_state unmaximize_state full_maximize_state vertical_maximize_state
    horizontal_maximize_state fullscreen_state tile_state drop_maximized unshadow_fullscreen
    set_border leave_full
commit_operation_dirty type env b w = ground arith

pub take_size-clean : (env : Context) (t : Window) → is_dirty t ≡ false → take_size env t ≡ t
unfolding take_size
take_size-clean env t e =
    if_elim (λ u. u ≡ t) (is_dirty t) (λ d. absurd (ground (arith, d, e))) (λ _. refl)

pub take_size_clean : (env : Context) (t : Window) → is_dirty (take_size env t) ≡ false
unfolding take_size view_commit
take_size_clean env t = if_elim (λ u. is_dirty u ≡ false) (is_dirty t) (λ d. refl) (λ c. c)

-- An operation that its client has taken is committed, at once or later.
pub take_size-resize :
    (P : Window → Type 0) (type : OperationType) (center : Bool) (env : Context) (b : Box)
    (w : Window)
    → is_dirty w ≡ false
    → ((p : Operation) → P (commit_operation type env b (record w { pending_operation = p })))
    → ((t : Window) → P t → P (set_dirty false t))
    → P (take_size env (resize env (set_operation type center b w)))
unfolding take_size resize view_commit
take_size-resize P type center env b w clean k d =
    if_elim (λ t. P (take_size env t)) env.has_move_resize (λ _. d _ (k _))
      (λ _.
        if_elim (λ t. P (take_size env t)) (n == 0)
          (λ _. at_once (commit_operation_dirty type env b now)) (λ _. d _ (k _)))
  where
    n : ℕ
    n = env.resize b.width b.height

    now : Window
    now = set_serial n (set_operation type center b w)

    at_once :
        is_dirty (commit_operation type env b now) ≡ is_dirty now
        → P (take_size env (commit_operation type env b now))
    at_once e = subst P (sym (take_size-clean env _ (e ∙ clean))) (k _)
