-- ===== src/Operations/Fullscreen.antt =====
-- Entering and leaving fullscreen.
use hikari_sakura.Prelude.{
  Bool, true, false, Option, none, some, pos, ◌≡◌, refl, sym, subst, ◌∙◌, ap, arith,
}
use hikari_sakura.Geometry.{Box}
use hikari_sakura.Operations.Window.{
  OperationType, resize_type, fullscreen_type, full_maximize_type, vertical_maximize_type,
  horizontal_maximize_type, Maximization, fully_maximized, vertically_maximized,
  horizontally_maximized, Operation, Window, Context, box_at, view_geometry, is_dirty, set_dirty,
  unmaximized_slot,
}
use hikari_sakura.Operations.Commit.{set_border, focus_border, commit_operation}
use hikari_sakura.Operations.Queue.{
  set_operation, resize, with_box, queue_full_maximize, queue_horizontal_maximize,
  queue_vertical_maximize, queue_fullscreen, restore_shadowed, queue_unfullscreen,
  request_fullscreen, unmaximized_box, maximization_of,
}
use hikari_sakura.Operations.Settling.{take_size, take_size-resize, take_size_clean}
use hikari_sakura.Operations.Restoring.{
  restored_box, Stands, IsEntered, set_dirty-Stands, commit_operation-IsEntered, restored_own,
  restored_full, restored_vertical, restored_horizontal,
}

-- What is restored once the client has taken the size, and that there is something.
abbrev Settles : Context → Window → Option Maximization → Option Window → Type 0
Settles env w o none = ⊥
Settles env w o (some t) = Stands o env w (take_size env t)

module _ (env : Context) (w : Window) (clean : is_dirty w ≡ false) (shown : w.hidden ≡ false)
    (off : w.fullscreen ≡ false) where
  settled-Stands :
      (o : Option Maximization) (type : OperationType) (center : Bool) (b : Box)
      → ((p : Operation)
          → Stands o env w (commit_operation type env b (record w { pending_operation = p })))
      → Stands o env w (take_size env (resize env (set_operation type center b w)))
  settled-Stands o type center b k =
      take_size-resize (Stands o env w) type center env b w clean k (set_dirty-Stands o env w)

  with_box-Settles :
      (o : Option Maximization) (a : Option Box) (f : Box → Window)
      → a ≡ some (unmaximized_box w)
      → Stands o env w (take_size env (f (unmaximized_box w)))
      → Settles env w o (with_box a f)
  with_box-Settles o none f e s = absurd (ground (arith, e))
  with_box-Settles o (some b) f e s =
      subst (λ c. Stands o env w (take_size env (f c))) (ground (arith, e)) s

  own_box_live :
      w.current_unmaximized_geometry ≡ unmaximized_slot w
      → box_at w.current_unmaximized_geometry w ≡ some (unmaximized_box w)
  unfolding box_at unmaximized_slot unmaximized_box
  own_box_live a = ground (arith, a)

  restore_shadowed-Settles :
      (o : Option Maximization)
      → maximization_of w ≡ o
      → w.current_unmaximized_geometry ≡ unmaximized_slot w
      → Settles env w o (restore_shadowed o env w)
  unfolding restore_shadowed queue_full_maximize queue_vertical_maximize queue_horizontal_maximize
  restore_shadowed-Settles none m a =
      settled-Stands none resize_type false (unmaximized_box w)
        (λ p. restored_own env w shown off p m)
  restore_shadowed-Settles (some fully_maximized) m a =
      settled-Stands (some fully_maximized) full_maximize_type true env.usable_area
        (restored_full env w shown off)
  restore_shadowed-Settles (some vertically_maximized) m a =
      with_box-Settles (some vertically_maximized) _ _ (own_box_live a) (
        settled-Stands (some vertically_maximized) vertical_maximize_type true _
          (restored_vertical env w shown off))
  restore_shadowed-Settles (some horizontally_maximized) m a =
      with_box-Settles (some horizontally_maximized) _ _ (own_box_live a) (
        settled-Stands (some horizontally_maximized) horizontal_maximize_type true _
          (restored_horizontal env w shown off))

set_dirty-IsEntered :
    (env : Context) (w t : Window) → IsEntered env w t → IsEntered env w (set_dirty false t)
unfolding maximization_of view_geometry box_at unmaximized_slot
set_dirty-IsEntered env w t s = record {
  over = record {
    geometry = s.over.geometry;
    tile = s.over.tile;
    use_csd = s.over.use_csd;
    mapped = s.over.mapped;
    shown = s.over.shown;
  };
  fullscreen = s.fullscreen;
  maximization = s.maximization;
  unmaximized = s.unmaximized;
  box = ground (arith, s.box);
}

-- What a request asks for, where it is not refused.
asked_off :
    (env : Context) (t : Window)
    → t.mapped ≡ true
    → t.hidden ≡ false
    → t.fullscreen ≡ true
    → is_dirty t ≡ false
    → request_fullscreen env false t ≡ queue_unfullscreen env t
unfolding request_fullscreen
asked_off env t mapped shown on clean = ground (arith, mapped, shown, on, clean)

asked_on :
    (env : Context) (w : Window)
    → w.mapped ≡ true
    → w.hidden ≡ false
    → w.fullscreen ≡ false
    → is_dirty w ≡ false
    → request_fullscreen env true w ≡ some (queue_fullscreen env w)
unfolding request_fullscreen
asked_on env w mapped shown off clean = ground (arith, mapped, shown, off, clean)

-- The view is back as it was: it has its own box, its tile and its maximization, it is no longer
-- fullscreen, its box is that of its maximization (or its tile's, or its own), and nothing is
-- waited for.
abbrev pub Restores : Context → Window → Option Window → Type 0
Restores env w none = ⊥
Restores env w (some t) =
    Stands (maximization_of w) env w (take_size env t) × (is_dirty (take_size env t) ≡ false)

module _ (env : Context) (w t : Window) (e : IsEntered env w t) (clean : is_dirty t ≡ false) where
  abbrev uncovered : Window
  uncovered = set_border (focus_border env) (record t { fullscreen = false })

  same_box : unmaximized_box uncovered ≡ unmaximized_box w
  unfolding unmaximized_box set_border
  same_box = ground (arith, e.over.geometry, e.over.tile)

  restored_box-uncovered :
      (o : Option Maximization) → restored_box o env uncovered ≡ restored_box o env w
  restored_box-uncovered none = same_box
  restored_box-uncovered (some fully_maximized) = refl
  restored_box-uncovered (some vertically_maximized) =
      ap (λ (b : Box). record b { y = env.usable_area.y; height = env.usable_area.height }) same_box
  restored_box-uncovered (some horizontally_maximized) =
      ap (λ (b : Box). record b { x = env.usable_area.x; width = env.usable_area.width }) same_box

  back-Stands : (o : Option Maximization) (x : Window) → Stands o env uncovered x → Stands o env w x
  unfolding set_border
  back-Stands o x s = record {
    over = record {
      geometry = s.over.geometry ∙ e.over.geometry;
      tile = s.over.tile ∙ e.over.tile;
      use_csd = s.over.use_csd ∙ e.over.use_csd;
      mapped = s.over.mapped ∙ e.over.mapped;
      shown = s.over.shown;
    };
    fullscreen = s.fullscreen;
    maximization = s.maximization;
    box = s.box ∙ ap some (restored_box-uncovered o);
  }

  settles-Restores :
      (o : Option Maximization) (r : Option Window)
      → o ≡ maximization_of w
      → Settles env uncovered o r
      → Restores env w r
  settles-Restores o none m s = s
  settles-Restores o (some u) m s = (
    subst (λ k. Stands k env w (take_size env u)) m (back-Stands o (take_size env u) s),
    take_size_clean env u,
  )

  leaves-Restores : Restores env w (queue_unfullscreen env t)
  unfolding queue_unfullscreen set_border maximization_of unmaximized_slot
  leaves-Restores = settles-Restores (maximization_of t) (queue_unfullscreen env t) e.maximization (
      restore_shadowed-Settles env uncovered clean e.over.shown refl (maximization_of t) refl
        e.unmaximized)

-- A client that is fullscreen for a while comes back as it was: when it enters, the view covers the
-- output; and when it has left, the view has its own box, its tile and its maximization as before, is
-- no longer fullscreen, its box is that of its maximization (or its tile's, or its own), and nothing
-- is waited for. The view is mapped and visible, no operation is pending, it is not fullscreen
-- before, and the client takes the sizes that it is asked for, at once or later.
pub fullscreen_roundtrip :
    (env : Context) (w : Window)
    → w.mapped ≡ true
    → w.hidden ≡ false
    → w.fullscreen ≡ false
    → is_dirty w ≡ false
    → let t = take_size env (queue_fullscreen env w) in
      (request_fullscreen env true w ≡ some (queue_fullscreen env w))
      × (view_geometry t
          ≡ some (record {
            x = pos 0;
            y = pos 0;
            width = env.output_geometry.width;
            height = env.output_geometry.height;
          }))
      × Restores env w (request_fullscreen env false t)
unfolding queue_fullscreen
fullscreen_roundtrip env w mapped shown off clean =
    let t = take_size env (queue_fullscreen env w) in
    let e : IsEntered env w t =
      take_size-resize (IsEntered env w) fullscreen_type false env _ w clean
        (commit_operation-IsEntered env w shown) (set_dirty-IsEntered env w) in
    let c : is_dirty t ≡ false = take_size_clean env (queue_fullscreen env w) in
    (
      asked_on env w mapped shown off clean,
      e.box,
      subst (Restores env w)
          (sym (asked_off env t (e.over.mapped ∙ mapped) e.over.shown e.fullscreen c))
          (leaves-Restores env w t e c),
    )
