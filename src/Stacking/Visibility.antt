-- ===== src/Stacking/Visibility.antt =====
-- The visibility lists of view.c, and the one writer that enters them and the one that leaves them.
use hikari_sakura.Prelude.{ℕ, Bool, true, false, not, ◌==◌, ◌&&◌, Option, ◌≡◌, arith}
use hikari_sakura.Stacking.Links.{
  mem, relink, is_empty, Distinct, mem-remove, mem-relink, mem-relink_at, mem-unlink,
  remove-Distinct, relink-Distinct, relink_at-Distinct, unlink-Distinct, is_empty-relink_at,
  is_empty-unlink, nonempty_of_unlink, relink_at,
}
use hikari_sakura.Stacking.State.{
  View, Server, workspace_of, linked, has, view_link_visible_at, view_unlink_group_visible,
  unlink_visible_lists, clear_focus,
}

-- A view stands once in the server's list, in its group's and in its workspace's exactly while
-- its flags say that it is linked; a group is listed exactly while it has such a view; and who
-- has the focus of a workspace is on it and linked.
pub record IsLinked (s : Server) : Type 0 where
  pub on_server : (v : ℕ) → mem v s.visible_views ≡ linked (s.view v)
  pub in_group :
      (g v : ℕ) → mem v (s.group_visible_views g) ≡ (linked (s.view v) && (s.view v).group == g)
  pub on_workspace :
      (w v : ℕ)
      → mem v (s.workspace_views w) ≡ (linked (s.view v) && workspace_of (s.view v).sheet == w)
  pub groups : (g : ℕ) → mem g s.visible_groups ≡ not (is_empty (s.group_visible_views g))
  pub server_once : Distinct s.visible_views
  pub group_once : (g : ℕ) → Distinct (s.group_visible_views g)
  pub workspace_once : (w : ℕ) → Distinct (s.workspace_views w)
  pub groups_once : Distinct s.visible_groups
  pub focused :
      (w v : ℕ)
      → has (s.focus_view w) v ≡ true
      → (linked (s.view v) ≡ true) × (workspace_of (s.view v).sheet ≡ w)

-- The same, of every view but one, which may be about to be linked.
pub record IsLinkedBut (v : ℕ) (s : Server) : Type 0 where
  pub on_server : (u : ℕ) → (u == v) ≡ false → mem u s.visible_views ≡ linked (s.view u)
  pub in_group :
      (g u : ℕ)
      → (u == v) ≡ false
      → mem u (s.group_visible_views g) ≡ (linked (s.view u) && (s.view u).group == g)
  pub on_workspace :
      (w u : ℕ)
      → (u == v) ≡ false
      → mem u (s.workspace_views w) ≡ (linked (s.view u) && workspace_of (s.view u).sheet == w)
  -- The view itself stands in no group's list but its own group's.
  pub not_elsewhere :
      (g : ℕ) → (g == (s.view v).group) ≡ false → mem v (s.group_visible_views g) ≡ false
  pub groups : (g : ℕ) → mem g s.visible_groups ≡ not (is_empty (s.group_visible_views g))
  pub server_once : Distinct s.visible_views
  pub group_once : (g : ℕ) → Distinct (s.group_visible_views g)
  pub workspace_once : (w : ℕ) → Distinct (s.workspace_views w)
  pub groups_once : Distinct s.visible_groups
  pub focused :
      (w u : ℕ)
      → has (s.focus_view w) u ≡ true
      → (linked (s.view u) ≡ true) × (workspace_of (s.view u).sheet ≡ w)

pub IsLinked-IsLinkedBut : (v : ℕ) (s : Server) → IsLinked s → IsLinkedBut v s
IsLinked-IsLinkedBut v s i = record {
  on_server = λ u _. i.on_server u;
  in_group = λ g u _. i.in_group g u;
  on_workspace = λ w u _. i.on_workspace w u;
  not_elsewhere = λ g other. ground (arith, i.in_group g v);
  groups = i.groups;
  server_once = i.server_once;
  group_once = i.group_once;
  workspace_once = i.workspace_once;
  groups_once = i.groups_once;
  focused = i.focused;
}

link_groups :
    (front : Bool) (v : ℕ) (s : Server)
    → IsLinkedBut v s
    → (g : ℕ)
    → mem g (relink front (s.view v).group s.visible_groups)
      ≡ not (is_empty (relink_at front v (s.view v).group s.group_visible_views g))
link_groups front v s b g = ground (
  arith,
  mem-relink front g (s.view v).group s.visible_groups,
  is_empty-relink_at front v (s.view v).group s.group_visible_views g (b.not_elsewhere g),
  b.groups g,
)

-- Linking a view whose flags say that it is linked.
pub link-IsLinked :
    (front : Bool) (v : ℕ) (s : Server)
    → IsLinkedBut v s
    → linked (s.view v) ≡ true
    → IsLinked (view_link_visible_at front v (workspace_of (s.view v).sheet) s)
unfolding view_link_visible_at
link-IsLinked front v s b shown =
    let group = (s.view v).group in
    let own = workspace_of (s.view v).sheet in
    record {
      on_server = λ u. ground (arith, mem-relink front u v s.visible_views, b.on_server u);
      in_group = λ g u.
          ground (arith, mem-relink_at front u v group s.group_visible_views g, b.in_group g u);
      on_workspace = λ w u.
          ground (arith, mem-relink_at front u v own s.workspace_views w, b.on_workspace w u);
      groups = link_groups front v s b;
      server_once = relink-Distinct front v s.visible_views b.server_once;
      group_once = λ g. relink_at-Distinct front v group s.group_visible_views g (b.group_once g);
      workspace_once = λ w. relink_at-Distinct front v own s.workspace_views w (b.workspace_once w);
      groups_once = relink-Distinct front group s.visible_groups b.groups_once;
      focused = b.focused;
    }

-- After the unlink from its group, the groups are listed by whether they are empty.
pub unlink-groups :
    (v : ℕ) (s : Server)
    → IsLinked s
    → (g : ℕ)
    → mem g (view_unlink_group_visible v s).visible_groups
      ≡ not (is_empty ((view_unlink_group_visible v s).group_visible_views g))
unfolding view_unlink_group_visible
unlink-groups v s i g = ground (
  arith,
  mem-remove g (s.view v).group s.visible_groups,
  nonempty_of_unlink v s.group_visible_views g,
  is_empty-unlink v s.group_visible_views g,
  i.in_group g v,
  i.groups g,
)

-- Unlinking a view that has no focus, if its flags, changed with the links, say that it is not
-- linked.
pub unlink-IsLinked :
    (v : ℕ) (s : Server) (views : ℕ → View)
    → IsLinked s
    → ((w : ℕ) → has (s.focus_view w) v ≡ false)
    → ((u : ℕ) → (u == v) ≡ false → views u ≡ s.view u)
    → linked (views v) ≡ false
    → IsLinked (record (unlink_visible_lists v s) { view = views })
unfolding unlink_visible_lists view_unlink_group_visible
unlink-IsLinked v s views i unfocused others own = record {
  on_server = λ u. ground (arith, mem-remove u v s.visible_views, i.on_server u, others u);
  in_group =
      λ g u. ground (arith, mem-unlink u v s.group_visible_views g, i.in_group g u, others u);
  on_workspace =
      λ w u. ground (arith, mem-unlink u v s.workspace_views w, i.on_workspace w u, others u);
  groups = λ g. ground (arith, unlink-groups v s i g);
  server_once = remove-Distinct v s.visible_views i.server_once;
  group_once = λ g. unlink-Distinct v s.group_visible_views g (i.group_once g);
  workspace_once = λ w. unlink-Distinct v s.workspace_views w (i.workspace_once w);
  groups_once =
      ground
        (arith, i.groups_once, remove-Distinct (s.view v).group s.visible_groups i.groups_once);
  focused = λ w u h. ground (arith, i.focused w u, unfocused w, others u);
}

-- The writers that change neither flags nor visibility lists.
pub unfocused-IsLinked :
    (s : Server) (focus : ℕ → Option ℕ)
    → IsLinked s
    → ((w v : ℕ) → has (focus w) v ≡ true → has (s.focus_view w) v ≡ true)
    → IsLinked (record s { focus_view = focus })
unfocused-IsLinked s focus i fewer = record {
  on_server = i.on_server;
  in_group = i.in_group;
  on_workspace = i.on_workspace;
  groups = i.groups;
  server_once = i.server_once;
  group_once = i.group_once;
  workspace_once = i.workspace_once;
  groups_once = i.groups_once;
  focused = λ w v h. i.focused w v (fewer w v h);
}

-- `clear_focus` takes focus away and gives none, and leaves none to its view.
pub clear_focus-focused :
    (v : ℕ) (s : Server)
    → IsLinked s
    → (w u : ℕ) → has ((clear_focus v s).focus_view w) u ≡ true
    → (has (s.focus_view w) u ≡ true) × ((u == v) ≡ false)
unfolding clear_focus
clear_focus-focused v s i w u h =
    ground
      (arith, i.focused w u, i.focused s.workspace v, i.focused (workspace_of (s.view v).sheet) v)

pub clear_focus-IsLinked : (v : ℕ) (s : Server) → IsLinked s → IsLinked (clear_focus v s)
unfolding clear_focus
clear_focus-IsLinked v s i =
    unfocused-IsLinked s (clear_focus v s).focus_view i
      (λ w u h. (clear_focus-focused v s i w u h).0)
