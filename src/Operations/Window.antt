-- ===== src/Operations/Window.antt =====
-- The boxes of a view, of which the maximized state and the tile are allocated, and the two pointers
-- to them that view.c keeps.
use hikari_sakura.Prelude.{ℕ, Bool, if◌then◌else◌, Option, none, some, ℤ}
use hikari_sakura.Geometry.{Box, Margins}

-- `enum hikari_operation_type`.
pub data OperationType : Type 0 where
  resize_type reset_type unmaximize_type tile_type fullscreen_type : OperationType
  full_maximize_type vertical_maximize_type horizontal_maximize_type : OperationType

-- `enum hikari_maximization`.
pub data Maximization : Type 0 where
  fully_maximized vertically_maximized horizontally_maximized : Maximization

pub data BorderState : Type 0 where
  border_none border_inactive border_active : BorderState

-- What a view keeps of its tile: the box, and whether a layout still has the tile.
pub record OwnTile : Type 0 where
  pub view_geometry : Box
  pub attached : Bool

pub record MaximizedState : Type 0 where
  pub maximization : Maximization
  pub geometry : Box

-- `struct hikari_operation`.
pub record Operation : Type 0 where
  pub type_of : OperationType
  pub dirty : Bool
  pub center : Bool
  pub serial : ℕ
  pub geometry : Box
  pub tile : Option OwnTile

-- Where `current_geometry` and `current_unmaximized_geometry` point to.
pub data Slot : Type 0 where
  own_box tile_box maximized_box fullscreen_box : Slot

-- The fields of `struct hikari_view` that its geometry hangs on. `hidden`, `forced` and the lists that
-- go with them are those of the module Stacking; here they are flags.
pub record Window : Type 0 where
  pub geometry : Box
  pub maximized_state : Option MaximizedState
  pub tile : Option OwnTile
  pub fullscreen : Bool
  pub fullscreen_geometry : Box
  pub border : BorderState
  pub use_csd : Bool
  pub floating : Bool
  pub invisible : Bool
  pub mapped : Bool
  pub hidden : Bool
  pub forced : Bool
  pub pending_operation : Operation
  pub current_geometry : Slot
  pub current_unmaximized_geometry : Slot

-- What is asked of the rest of the program: the output of the view, whether the view has the focus
-- of the current workspace, whether its sheet is visible, the configuration, and its client, which
-- gives the sizes that it accepts and answers a resize with a serial, 0 if the size is there at
-- once. An XWayland view has `move_resize`.
pub record Context : Type 0 where
  pub usable_area : Box
  pub output_geometry : Box
  pub is_focused : Bool
  pub sheet_is_visible : Bool
  pub margins : Margins
  pub min_width : ℤ
  pub min_height : ℤ
  pub max_width : ℤ
  pub max_height : ℤ
  pub resize : ℤ → ℤ → ℕ
  pub has_move_resize : Bool

-- The box that a pointer points to; none if it has been freed.
unfoldable pub box_at : Slot → Window → Option Box
box_at own_box w = some w.geometry
box_at fullscreen_box w = some w.fullscreen_geometry
box_at tile_box w = elim w.tile [ none ↦ none | some t ↦ some t.view_geometry ]
box_at maximized_box w = elim w.maximized_state [ none ↦ none | some m ↦ some m.geometry ]

-- A write through such a pointer.
unfoldable pub write_box : Slot → Box → Window → Window
write_box own_box b w = record w { geometry = b }
write_box fullscreen_box b w = record w { fullscreen_geometry = b }
write_box tile_box b w = elim w.tile [
  | none ↦ w
  | some t ↦ record w { tile = some (record t { view_geometry = b }) }
]
write_box maximized_box b w = elim w.maximized_state [
  | none ↦ w
  | some m ↦ record w { maximized_state = some (record m { geometry = b }) }
]

-- `refresh_unmaximized_geometry`.
unfoldable pub unmaximized_slot : Window → Slot
unmaximized_slot w = elim w.tile [ none ↦ own_box | some t ↦ tile_box ]

-- `refresh_geometry`.
unfoldable pub geometry_slot : Window → Slot
unfolding unmaximized_slot
geometry_slot w =
    if w.fullscreen
    then fullscreen_box
    else elim w.maximized_state [ none ↦ unmaximized_slot w | some m ↦ maximized_box ]

-- `hikari_view_refresh_geometry`: the box is written to where the view now stands.
unfoldable pub refresh_geometry : Box → Window → Window
unfolding write_box geometry_slot unmaximized_slot
refresh_geometry b w = record (write_box (geometry_slot w) b w) {
  current_geometry = geometry_slot w;
  current_unmaximized_geometry = unmaximized_slot w;
}

-- `hikari_view_geometry`, read.
unfoldable pub view_geometry : Window → Option Box
unfolding box_at
view_geometry w = box_at w.current_geometry w

abbrev pub is_dirty : Window → Bool
is_dirty w = w.pending_operation.dirty

abbrev pub set_dirty : Bool → Window → Window
set_dirty d w = record w { pending_operation = record (w.pending_operation) { dirty = d } }
