-- ===== src/Operations/Restoring.antt =====
-- What a view is after the commits that enter fullscreen, or restore what was under it.
use hikari_sakura.Prelude.{true, false, Option, none, some, pos, ◌≡◌, refl, ◌∙◌, arith}
use hikari_sakura.Geometry.{Box}
use hikari_sakura.Operations.Window.{
  OperationType, resize_type, fullscreen_type, full_maximize_type, vertical_maximize_type,
  horizontal_maximize_type, Maximization, fully_maximized, vertically_maximized,
  horizontally_maximized, Operation, Window, Context, Slot, own_box, tile_box, maximized_box,
  fullscreen_box, box_at, view_geometry, set_dirty, geometry_slot, unmaximized_slot, write_box,
  refresh_geometry,
}
use hikari_sakura.Operations.Commit.{
  set_border, commit_operation, prepared, finished, commit_pending, fullscreen_state,
  full_maximize_state, vertical_maximize_state, horizontal_maximize_state, leave_full,
}
use hikari_sakura.Operations.Queue.{unmaximized_box, maximization_of}

-- What does not change while a visible view is fullscreen.
pub record IsOver (w t : Window) : Type 0 where
  pub geometry : t.geometry ≡ w.geometry
  pub tile : t.tile ≡ w.tile
  pub use_csd : t.use_csd ≡ w.use_csd
  pub mapped : t.mapped ≡ w.mapped
  pub shown : t.hidden ≡ false

-- The box of a view that is maximized in this way, or not.
abbrev pub restored_box : Option Maximization → Context → Window → Box
restored_box none env w = unmaximized_box w
restored_box (some fully_maximized) env w = env.usable_area
restored_box (some vertically_maximized) env w = record (unmaximized_box w) {
  y = env.usable_area.y;
  height = env.usable_area.height;
}
restored_box (some horizontally_maximized) env w = record (unmaximized_box w) {
  x = env.usable_area.x;
  width = env.usable_area.width;
}

-- A view that stands as a view is maximized, or not.
pub record Stands (o : Option Maximization) (env : Context) (w t : Window) : Type 0 where
  pub over : IsOver w t
  pub fullscreen : t.fullscreen ≡ false
  pub maximization : maximization_of t ≡ o
  pub box : view_geometry t ≡ some (restored_box o env w)

-- What is known of a view that is entering fullscreen.
pub record IsEntered (env : Context) (w t : Window) : Type 0 where
  pub over : IsOver w t
  pub fullscreen : t.fullscreen ≡ true
  pub maximization : maximization_of t ≡ maximization_of w
  pub unmaximized : t.current_unmaximized_geometry ≡ unmaximized_slot t
  pub box :
      view_geometry t
      ≡ some (record {
        x = pos 0;
        y = pos 0;
        width = env.output_geometry.width;
        height = env.output_geometry.height;
      })

pub set_dirty-Stands :
    (o : Option Maximization) (env : Context) (w t : Window)
    → Stands o env w t
    → Stands o env w (set_dirty false t)
unfolding maximization_of view_geometry box_at
set_dirty-Stands o env w t s = record {
  over = record {
    geometry = s.over.geometry;
    tile = s.over.tile;
    use_csd = s.over.use_csd;
    mapped = s.over.mapped;
    shown = s.over.shown;
  };
  fullscreen = s.fullscreen;
  maximization = s.maximization;
  box = box_of_dirty t.current_geometry ∙ s.box;
}
  where
    box_of_dirty : (slot : Slot) → box_at slot (set_dirty false t) ≡ box_at slot t
    box_of_dirty own_box = refl
    box_of_dirty tile_box = refl
    box_of_dirty maximized_box = refl
    box_of_dirty fullscreen_box = refl

module _ (env : Context) (w : Window) (shown : w.hidden ≡ false) where
  pub commit_operation-IsEntered :
      (p : Operation)
      → let b : Box = record {
        x = pos 0;
        y = pos 0;
        width = env.output_geometry.width;
        height = env.output_geometry.height;
      } in
        IsEntered env w
          (commit_operation fullscreen_type env b (record w { pending_operation = p }))
  unfolding commit_operation finished prepared commit_pending fullscreen_state refresh_geometry
      write_box geometry_slot unmaximized_slot maximization_of view_geometry box_at
  commit_operation-IsEntered p = record {
    over = record {
      geometry = ground (arith, shown);
      tile = ground (arith, shown);
      use_csd = ground (arith, shown);
      mapped = ground (arith, shown);
      shown = ground (arith, shown);
    };
    fullscreen = ground (arith, shown);
    maximization = ground (arith, shown);
    unmaximized = ground (arith, shown);
    box = ground (arith, shown);
  }

module _ (env : Context) (w : Window) (shown : w.hidden ≡ false) (off : w.fullscreen ≡ false)
    (p : Operation) where
  abbrev pub committed : OperationType → Box → Window
  committed type b = commit_operation type env b (record w { pending_operation = p })

  pub restored_own :
      maximization_of w ≡ none → Stands none env w (committed resize_type (unmaximized_box w))
  unfolding commit_operation finished prepared commit_pending refresh_geometry write_box
      geometry_slot unmaximized_slot unmaximized_box maximization_of view_geometry box_at
  restored_own m = record {
    over = record {
      geometry = ground (arith, shown, off, m);
      tile = ground (arith, shown, off, m);
      use_csd = ground (arith, shown);
      mapped = ground (arith, shown);
      shown = ground (arith, shown);
    };
    fullscreen = ground (arith, shown, off, m);
    maximization = ground (arith, shown, off, m);
    box = ground (arith, shown, off, m);
  }

  pub restored_full :
      Stands (some fully_maximized) env w (committed full_maximize_type env.usable_area)
  unfolding commit_operation finished prepared commit_pending refresh_geometry write_box
      geometry_slot full_maximize_state set_border maximization_of view_geometry box_at
  restored_full = record {
    over = record {
      geometry = ground (arith, shown, off);
      tile = ground (arith, shown, off);
      use_csd = ground (arith, shown);
      mapped = ground (arith, shown);
      shown = ground (arith, shown);
    };
    fullscreen = ground (arith, shown, off);
    maximization = ground (arith, shown, off);
    box = ground (arith, shown, off);
  }

  pub restored_vertical :
      Stands
        (some vertically_maximized)
        env
        w
        (committed vertical_maximize_type (restored_box (some vertically_maximized) env w))
  unfolding commit_operation finished prepared commit_pending refresh_geometry write_box
      geometry_slot vertical_maximize_state leave_full set_border maximization_of view_geometry
      box_at
  restored_vertical = record {
    over = record {
      geometry = ground (arith, shown, off);
      tile = ground (arith, shown, off);
      use_csd = ground (arith, shown);
      mapped = ground (arith, shown);
      shown = ground (arith, shown);
    };
    fullscreen = ground (arith, shown, off);
    maximization = ground (arith, shown, off);
    box = ground (arith, shown, off);
  }

  pub restored_horizontal :
      Stands
        (some horizontally_maximized)
        env
        w
        (committed horizontal_maximize_type (restored_box (some horizontally_maximized) env w))
  unfolding commit_operation finished prepared commit_pending refresh_geometry write_box
      geometry_slot horizontal_maximize_state leave_full set_border maximization_of view_geometry
      box_at
  restored_horizontal = record {
    over = record {
      geometry = ground (arith, shown, off);
      tile = ground (arith, shown, off);
      use_csd = ground (arith, shown);
      mapped = ground (arith, shown);
      shown = ground (arith, shown);
    };
    fullscreen = ground (arith, shown, off);
    maximization = ground (arith, shown, off);
    box = ground (arith, shown, off);
  }
