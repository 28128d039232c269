-- ===== src/Stacking/State.antt =====
-- The state of view.c's linkage and its writers: raise, lower, show, hide, and the change of group.
use hikari_sakura.Prelude.{
  ℕ, Bool, true, false, not, ◌==◌, ◌/◌, ◌%◌, if◌then◌else◌, List, [], ◌∷◌, Option, none, some,
}
use hikari_sakura.Stacking.Links.{remove, relink, is_empty, unlink, relink_at}

-- The fields of `struct hikari_view` that say where it stands. A sheet is named by its place in
-- the workspaces' arrays of ten sheets: the sheet `nr` of workspace `w` is `10 * w + nr`.
pub record View : Type 0 where
  pub sheet : ℕ
  pub group : ℕ
  pub output : ℕ
  pub hidden : Bool
  pub invisible : Bool
  pub floating : Bool
  pub public : Bool
  pub forced : Bool
  pub mapped : Bool
  pub tiled : Bool

-- `sheet->workspace` and `sheet->nr`.
abbrev pub workspace_of : ℕ → ℕ
workspace_of sheet = sheet / 10

abbrev pub nr_of : ℕ → ℕ
nr_of sheet = sheet % 10

-- Whether a view stands in the visibility lists, as `view_link_visible_at` asserts it: in lock
-- mode a forced view has its flag turned round and its links left alone.
abbrev pub linked : View → Bool
linked r = if r.forced then r.hidden else not r.hidden

-- Every list head that a view or a group is linked into, who has the focus, which sheet each
-- workspace displays, and whether the screen is locked.
pub record Server : Type 0 where
  pub view : ℕ → View
  pub sheet_views : ℕ → List ℕ
  pub group_views : ℕ → List ℕ
  pub output_views : ℕ → List ℕ
  pub workspace_views : ℕ → List ℕ
  pub group_visible_views : ℕ → List ℕ
  pub visible_views : List ℕ
  pub visible_groups : List ℕ
  pub groups : List ℕ
  pub focus_view : ℕ → Option ℕ
  pub workspace : ℕ
  pub outputs : List ℕ
  pub sheet : ℕ → ℕ
  pub alternate_sheet : ℕ → ℕ
  pub locked : Bool

-- One value of a map replaced.
abbrev pub update {ℓ} : {A : Type ℓ} → (ℕ → A) → ℕ → A → ℕ → A
update f k a j = if j == k then a else f j

abbrev pub set_view : ℕ → View → Server → Server
set_view v r s = record s { view = update s.view v r }

abbrev pub set_hidden : Bool → ℕ → Server → Server
set_hidden h v s = set_view v (record (s.view v) { hidden = h }) s

abbrev pub set_forced : Bool → ℕ → Server → Server
set_forced f v s = set_view v (record (s.view v) { forced = f }) s

-- `move_to_top` with `front`, `move_to_bottom` without.
unfoldable pub move_to : Bool → ℕ → Server → Server
move_to front v s = record s {
  sheet_views = relink_at front v (s.view v).sheet s.sheet_views;
  group_views = relink_at front v (s.view v).group s.group_views;
  output_views = relink_at front v (s.view v).output s.output_views;
}

unfoldable pub view_link_visible_at : Bool → ℕ → ℕ → Server → Server
view_link_visible_at front v workspace s = record s {
  visible_views = relink front v s.visible_views;
  group_visible_views = relink_at front v (s.view v).group s.group_visible_views;
  visible_groups = relink front (s.view v).group s.visible_groups;
  workspace_views = relink_at front v workspace s.workspace_views;
}

unfoldable pub raise_view : ℕ → Server → Server
unfolding move_to view_link_visible_at
raise_view v s =
    let t = move_to true v s in view_link_visible_at true v (workspace_of (t.view v).sheet) t

unfoldable pub view_unlink_group_visible : ℕ → Server → Server
view_unlink_group_visible v s =
    let group = (s.view v).group in
    let rest = unlink v s.group_visible_views in
    record s {
      group_visible_views = rest;
      visible_groups =
          if is_empty (rest group) then remove group s.visible_groups else s.visible_groups;
    }

-- The links that `view_unlink_visible` takes out before it sets the flag.
unfoldable pub unlink_visible_lists : ℕ → Server → Server
unfolding view_unlink_group_visible
unlink_visible_lists v s =
    let t = view_unlink_group_visible v s in
    record t {
      workspace_views = unlink v t.workspace_views;
      visible_views = remove v t.visible_views;
    }

unfoldable pub view_unlink_visible : ℕ → Server → Server
unfolding unlink_visible_lists
view_unlink_visible v s = set_hidden true v (unlink_visible_lists v s)

abbrev pub has : Option ℕ → ℕ → Bool
has none v = false
has (some u) v = u == v

-- `clear_focus` in normal mode: clears the focus of the current workspace, if the view has it, and
-- otherwise that of the view's own workspace. What another mode adds is in `clear_focus_in`.
unfoldable pub clear_focus : ℕ → Server → Server
clear_focus v s =
    let own = workspace_of (s.view v).sheet in
    record s {
      focus_view =
          if has (s.focus_view own) v
          then (if has (s.focus_view s.workspace) v
              then update s.focus_view s.workspace none
              else update s.focus_view own none)
          else s.focus_view;
    }

-- `hikari_workspace_focus_view`: a workspace becomes the current one and its focus is set.
unfoldable pub focus : ℕ → Option ℕ → Server → Server
focus w v s = record s { workspace = w; focus_view = update s.focus_view w v }

-- `hikari_view_show`.
unfoldable pub show : ℕ → Server → Server
unfolding raise_view
show v s = raise_view v (set_hidden false v s)

-- `hikari_view_hide` in normal mode.
unfoldable pub hide : ℕ → Server → Server
unfolding clear_focus view_unlink_visible
hide v s = view_unlink_visible v (clear_focus v s)

abbrev pub first : List ℕ → Option ℕ
first [] = none
first (x ∷ xs) = some x

abbrev pub last : List ℕ → Option ℕ
last [] = none
last (x ∷ []) = some x
last (x ∷ y ∷ xs) = last (y ∷ xs)

-- `hikari_view_raise`.
unfoldable pub raise : ℕ → Server → Server
unfolding raise_view
raise v s = if has (first s.visible_views) v then s else raise_view v s

-- `hikari_view_lower`.
unfoldable pub lower : ℕ → Server → Server
unfolding move_to view_link_visible_at
lower v s =
    let t = move_to false v s in
    if has (last s.visible_views) v
    then s
    else view_link_visible_at false v (workspace_of (t.view v).sheet) t

-- An empty group is freed, which takes it off the server's lists.
unfoldable pub detach_from_group : ℕ → Server → Server
detach_from_group v s =
    let group = (s.view v).group in
    let rest = unlink v s.group_views in
    let freed = is_empty (rest group) in
    record s {
      group_views = rest;
      groups = if freed then remove group s.groups else s.groups;
      visible_groups = if freed then remove group s.visible_groups else s.visible_groups;
    }

unfoldable pub remove_from_group : ℕ → Server → Server
unfolding view_unlink_group_visible detach_from_group
remove_from_group v s =
    detach_from_group v (if (s.view v).hidden then s else view_unlink_group_visible v s)

-- `hikari_view_group`.
unfoldable pub group_view : ℕ → ℕ → Server → Server
unfolding remove_from_group raise_view
group_view v group s =
    let t = remove_from_group v s in
    if (s.view v).group == group
    then s
    else raise_view v (set_view v (record (t.view v) { group = group }) t)
