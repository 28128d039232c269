-- ===== src/Operations/Tests.antt =====
-- A view on a screen with a top bar, and the theorems about its operations at it.
use hikari_sakura.Prelude.{ℕ, true, false, List, [], ◌∷◌, none, some, pos, ◌≡◌, refl, inl}
use hikari_sakura.Geometry.{Box, constrain_relative}
use hikari_sakura.Operations.Window.{
  resize_type, reset_type, tile_type, border_inactive, border_none, OwnTile, Operation, Window,
  Context, own_box, tile_box, fullscreen_box, view_geometry, unmaximized_slot, geometry_slot,
}
use hikari_sakura.Operations.Queue.{
  toggle_full_maximize, toggle_vertical_maximize, toggle_horizontal_maximize, queue_fullscreen,
  request_fullscreen, is_fully_maximized,
}
use hikari_sakura.Operations.Move.{move_absolute}
use hikari_sakura.Operations.Sound.{IsSound, is_due}
use hikari_sakura.Operations.Requests.{
  Request, toggle_horizontal, set_fullscreen_to, tile_into, committed, perform_all,
}
use hikari_sakura.Operations.Queuing.{Returns}
use hikari_sakura.Operations.Running.{perform_all-Returns}
use hikari_sakura.Operations.Fullscreen.{Restores, fullscreen_roundtrip}
use hikari_sakura.Operations.Settling.{take_size}
use hikari_sakura.Operations.Pinned.{
  IsSlow, Loses, toggle_full_maximize_shrinks, toggle_horizontal_maximize-Loses,
}
use hikari_sakura.Operations.Dragging.{committed_box, move_absolute_stays}

abbrev box : ℕ → ℕ → ℕ → ℕ → Box
box x y width height = record { x = pos x; y = pos y; width = pos width; height = pos height }

-- A client that answers with the serial 5.
abbrev env : Context
env = record {
  usable_area = box 0 30 1920 1050;
  output_geometry = box 0 0 1920 1080;
  is_focused = true;
  sheet_is_visible = true;
  margins = record { gap = pos 5; border = pos 1 };
  min_width = pos 1;
  min_height = pos 1;
  max_width = pos 10000;
  max_height = pos 10000;
  resize = λ width height. 5;
  has_move_resize = false;
}

abbrev idle : Operation
idle = record {
  type_of = resize_type;
  dirty = false;
  center = false;
  serial = 0;
  geometry = box 100 100 640 480;
  tile = none;
}

abbrev window : Window
window = record {
  geometry = box 100 100 640 480;
  maximized_state = none;
  tile = none;
  fullscreen = false;
  fullscreen_geometry = box 0 0 0 0;
  border = border_inactive;
  use_csd = false;
  floating = false;
  invisible = false;
  mapped = true;
  hidden = false;
  forced = false;
  pending_operation = idle;
  current_geometry = own_box;
  current_unmaximized_geometry = own_box;
}

window-IsSound : IsSound window
unfolding unmaximized_slot geometry_slot is_due
window-IsSound = record {
  aligned = record { unmaximized = refl; current = inl refl };
  due = λ d. refl;
}

abbrev covering : Window
covering = record window {
  fullscreen = true;
  fullscreen_geometry = box 0 0 1920 1080;
  border = border_none;
  current_geometry = fullscreen_box;
}

covering-IsSound : IsSound covering
unfolding unmaximized_slot geometry_slot is_due
covering-IsSound = record {
  aligned = record { unmaximized = refl; current = inl refl };
  due = λ d. refl;
}

abbrev left_half : OwnTile
left_half = record { view_geometry = box 0 30 960 1050; attached = true }

-- A view that waits for its client to take a tile.
abbrev tiling : Window
tiling = record window {
  pending_operation = record idle {
    type_of = tile_type;
    dirty = true;
    serial = 5;
    tile = some left_half;
  };
}

tiling-IsSound : IsSound tiling
unfolding unmaximized_slot geometry_slot is_due
tiling-IsSound = record {
  aligned = record { unmaximized = refl; current = inl refl };
  due = λ d. refl;
}

-- A view that has left its tile and waits for its own size.
abbrev resetting : Window
resetting = record window {
  tile = some (record left_half { attached = false });
  pending_operation = record idle { type_of = reset_type; dirty = true; serial = 5 };
  current_geometry = tile_box;
  current_unmaximized_geometry = tile_box;
}

abbrev requests : List (Context × Request)
requests =
    (env, set_fullscreen_to true)
    ∷ (env, committed 5 (pos 1920) (pos 1080))
    ∷ (env, toggle_horizontal)
    ∷ (env, committed 5 (pos 1920) (pos 480))
    ∷ (env, tile_into left_half false)
    ∷ []

perform_all-Returns_example : Returns (perform_all requests (some window))
perform_all-Returns_example = perform_all-Returns requests window window-IsSound

fullscreen_roundtrip_example :
    let t = take_size env (queue_fullscreen env window) in
    (request_fullscreen env true window ≡ some (queue_fullscreen env window))
    × (view_geometry t ≡ some (box 0 0 1920 1080))
    × Restores env window (request_fullscreen env false t)
fullscreen_roundtrip_example = fullscreen_roundtrip env window refl refl refl refl

toggle_full_maximize_shrinks_example :
    let t = take_size env (toggle_full_maximize env covering) in
    (t.fullscreen ≡ true) × (view_geometry t ≡ some (box 0 30 1920 1050))
unfolding is_fully_maximized
toggle_full_maximize_shrinks_example = toggle_full_maximize_shrinks env covering refl refl refl refl

env-IsSlow : IsSlow env
env-IsSlow = record { waits = λ width height. refl; moves = refl }

toggle_horizontal_maximize-Loses_example :
    (toggle_full_maximize env tiling ≡ tiling)
    × (toggle_vertical_maximize env tiling ≡ some tiling)
    × Loses tiling (toggle_horizontal_maximize env tiling)
toggle_horizontal_maximize-Loses_example =
    toggle_horizontal_maximize-Loses env env-IsSlow tiling tiling-IsSound refl

move_absolute_stays_example :
    committed_box env (pos 640) (pos 480) (move_absolute env (pos 300) (pos 200) resetting)
    ≡ some
        (record (constrain_relative env.margins
          (box 0 30 960 1050)
          env.usable_area
          (pos 300)
          (pos 200)) { width = pos 640; height = pos 480 })
unfolding view_geometry
move_absolute_stays_example =
    move_absolute_stays env env (pos 300) (pos 200) (pos 640) (pos 480) resetting
      (box 0 30 960 1050) refl refl refl refl refl
