-- ===== src/Stacking/Pointer.antt =====
-- The refocus that follows each change of what is on the screen: `hikari_server_cursor_focus`
-- (server.c), through `cursor_move` of the mode (normal_mode.c). What lies under the pointer is
-- wlroots' answer, and so a parameter.
use hikari_sakura.Prelude.{
  ℕ, true, not, ◌==◌, List, [], ◌∷◌, Option, none, some, ◌≡◌, if◌then◌else◌,
}
use hikari_sakura.Stacking.State.{View, Server, workspace_of, linked, has, focus}

-- What `cursor_move` does about the pointer: nothing, in a mode that ignores it, during a touch or
-- over a node that takes no focus; else what `hikari_server_node_at` finds there, which is no node
-- on some workspace, a view, or a layer surface of some workspace that takes the keyboard.
pub data Hit : Type 0 where
  ignored : Hit
  background : ℕ → Hit
  on_view : ℕ → Hit
  on_layer : ℕ → Hit

-- `hikari_sheet_first_view`, in the views of a sheet.
unfoldable pub first_view_of : (ℕ → View) → List ℕ → Option ℕ
first_view_of views [] = none
first_view_of views (v ∷ vs) =
    let rest = first_view_of views vs in if not (views v).hidden then some v else rest

-- `hikari_workspace_first_view`.
unfoldable pub first_view : ℕ → Server → Option ℕ
unfolding first_view_of
first_view w s = elim (s.focus_view w) [
  | none ↦ first_view_of s.view (s.sheet_views (s.sheet w))
  | some v ↦ some v
]

-- `hikari_server_cursor_focus`, for what is under the pointer.
unfoldable pub focus_hit : Hit → Server → Server
unfolding focus first_view
focus_hit ignored s = s
focus_hit (background w) s = if s.workspace == w then s else focus w (first_view w s) s
focus_hit (on_view v) s =
    if has (s.focus_view s.workspace) v then s else focus (workspace_of (s.view v).sheet) (some v) s
focus_hit (on_layer w) s =
    let t : Server = elim (s.focus_view s.workspace) [
      | none ↦ s
      | some v ↦ focus s.workspace none s
    ] in
    record t { workspace = w }

unfoldable pub cursor_focus : (Server → Hit) → Server → Server
unfolding focus_hit
cursor_focus hit s = focus_hit (hit s) s

-- The pointer meets only views that are linked, as other views' nodes are disabled; and on a
-- locked screen it is ignored.
pub record Sees (hit : Server → Hit) : Type 0 where
  pub visible : (s : Server) (v : ℕ) → hit s ≡ on_view v → linked (s.view v) ≡ true
  pub not_locked : (s : Server) → s.locked ≡ true → hit s ≡ ignored
