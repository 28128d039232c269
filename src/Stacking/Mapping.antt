-- ===== src/Stacking/Mapping.antt =====
-- `hikari_view_map` and `hikari_view_unmap` (view.c).
use hikari_sakura.Prelude.{ℕ, Bool, true, false, not, ◌||◌, ◌∷◌, none, if◌then◌else◌}
use hikari_sakura.Stacking.Links.{mem, unlink}
use hikari_sakura.Stacking.State.{
  Server, update, set_view, set_forced, raise_view, view_unlink_visible, show, detach_from_group,
  workspace_of, has, focus,
}
use hikari_sakura.Stacking.Pointer.{Hit, cursor_focus}

-- `hikari_server_find_or_create_group`: a new group is put on the server's list.
abbrev pub find_or_create_group : ℕ → Server → Server
find_or_create_group g s = record s { groups = if mem g s.groups then s.groups else g ∷ s.groups }

-- The links that `hikari_view_map` inserts, at the front of each list.
unfoldable pub link_mapped : ℕ → Server → Server
link_mapped v s = record s {
  sheet_views = update s.sheet_views (s.view v).sheet (v ∷ s.sheet_views (s.view v).sheet);
  group_views = update s.group_views (s.view v).group (v ∷ s.group_views (s.view v).group);
  output_views = update s.output_views (s.view v).output (v ∷ s.output_views (s.view v).output);
}

-- `hikari_view_map`, for the group that the view's configuration or its id names.
unfoldable pub map_view : (Server → Hit) → ℕ → ℕ → Server → Server
unfolding link_mapped show raise_view cursor_focus
map_view hit v group s =
    let created = find_or_create_group group s in
    let t =
      link_mapped v (set_view v (record (s.view v) { mapped = true; group = group }) created) in
    if not s.locked || (s.view v).public
    then cursor_focus hit (show v t)
    else raise_view v (set_forced true v t)

-- `clear_focus`, in normal mode or not. A view that has the focus of the current workspace first ends
-- the mode by `hikari_server_enter_normal_mode`, whose refocus may make another workspace current.
unfoldable pub clear_focus_in : (Server → Hit) → Bool → ℕ → Server → Server
unfolding cursor_focus focus
clear_focus_in hit normal_mode v s =
    let own = workspace_of (s.view v).sheet in
    let t = if normal_mode then s else cursor_focus hit s in
    if not (has (s.focus_view own) v)
    then s
    else if has (s.focus_view s.workspace) v
    then focus t.workspace none t
    else record s { focus_view = update s.focus_view own none }

-- `hikari_view_hide`, in normal mode or not.
unfoldable pub hide_in : (Server → Hit) → Bool → ℕ → Server → Server
unfolding clear_focus_in view_unlink_visible
hide_in hit normal_mode v s = view_unlink_visible v (clear_focus_in hit normal_mode v s)

-- The way out of the visible state that `hikari_view_unmap` takes, in normal mode or not.
unfoldable pub leave_visible : (Server → Hit) → Bool → ℕ → Server → Server
unfolding view_unlink_visible hide_in cursor_focus
leave_visible hit normal_mode v s =
    if (s.view v).forced
    then set_forced false v (view_unlink_visible v s)
    else if (s.view v).hidden
    then s
    else cursor_focus hit (hide_in hit normal_mode v s)

-- `hikari_view_unmap`. The group of an unmapped view, which the code sets to NULL, keeps its number
-- here: nothing reads it until the view is mapped again, which writes it.
unfoldable pub unmap_view : (Server → Hit) → Bool → ℕ → Server → Server
unfolding leave_visible detach_from_group
unmap_view hit normal_mode v s =
    let t = leave_visible hit normal_mode v s in
    let u =
      detach_from_group v (set_view v (record (t.view v) { mapped = false; tiled = false }) t) in
    record u { sheet_views = unlink v u.sheet_views; output_views = unlink v u.output_views }
