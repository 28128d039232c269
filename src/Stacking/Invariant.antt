-- ===== src/Stacking/Invariant.antt =====
-- The invariant of view.c's linkage, and that every operation keeps it.
use hikari_sakura.Prelude.{
  if_elim, ℕ, Bool, true, false, ◌==◌, Option, ◌≡◌, refl, arith, ◌⊎◌, Bool-cases, inl, inr,
}
use hikari_sakura.Stacking.Links.{mem}
use hikari_sakura.Stacking.State.{
  View, Server, workspace_of, linked, has, set_hidden, set_view, raise_view, move_to,
  view_link_visible_at, view_unlink_visible, unlink_visible_lists, view_unlink_group_visible, first,
  last, clear_focus, show, hide, raise, lower, focus, update,
}
use hikari_sakura.Stacking.Membership.{
  IsMember, IsMemberBut, IsMember-IsMemberBut, move_to-IsMember,
}
use hikari_sakura.Stacking.Visibility.{
  IsLinked, IsLinkedBut, IsLinked-IsLinkedBut, link-IsLinked, unlink-IsLinked, clear_focus-focused,
  clear_focus-IsLinked,
}

-- Both kinds of links, that only mapped views are linked or forced, that a workspace displays a
-- sheet of its own, and that no view is forced
-- unless the screen is locked.
pub record Inv (s : Server) : Type 0 where
  pub members : IsMember s
  pub links : IsLinked s
  pub only_mapped : (v : ℕ) → linked (s.view v) ≡ true → (s.view v).mapped ≡ true
  pub forced_mapped : (v : ℕ) → (s.view v).forced ≡ true → (s.view v).mapped ≡ true
  pub displays : (w : ℕ) → (workspace_of (s.sheet w) ≡ w) × (workspace_of (s.alternate_sheet w) ≡ w)
  pub unforced : s.locked ≡ false → (v : ℕ) → (s.view v).forced ≡ false

-- The two kinds of links are written apart from one another.
pub link-IsMember :
    (front : Bool) (v w : ℕ) (s : Server) → IsMember s → IsMember (view_link_visible_at front v w s)
unfolding view_link_visible_at
link-IsMember front v w s m = record {
  on_sheet = m.on_sheet;
  in_group = m.in_group;
  on_output = m.on_output;
  alive = m.alive;
  sheet_once = m.sheet_once;
  in_group_once = m.in_group_once;
  output_once = m.output_once;
}

move_to-IsLinkedBut :
    (front : Bool) (v : ℕ) (s : Server) → IsLinkedBut v s → IsLinkedBut v (move_to front v s)
unfolding move_to
move_to-IsLinkedBut front v s b = record {
  on_server = b.on_server;
  in_group = b.in_group;
  on_workspace = b.on_workspace;
  not_elsewhere = b.not_elsewhere;
  groups = b.groups;
  server_once = b.server_once;
  group_once = b.group_once;
  workspace_once = b.workspace_once;
  groups_once = b.groups_once;
  focused = b.focused;
}

-- What is to be known of a state in which one view is to be linked at an end of all its lists.
pub record IsReady (v : ℕ) (s : Server) : Type 0 where
  pub members : IsMemberBut v s
  pub links : IsLinkedBut v s
  pub shown : linked (s.view v) ≡ true
  pub only_mapped : (u : ℕ) → linked (s.view u) ≡ true → (s.view u).mapped ≡ true
  pub forced_mapped : (u : ℕ) → (s.view u).forced ≡ true → (s.view u).mapped ≡ true
  pub displays : (w : ℕ) → (workspace_of (s.sheet w) ≡ w) × (workspace_of (s.alternate_sheet w) ≡ w)
  pub unforced : s.locked ≡ false → (u : ℕ) → (s.view u).forced ≡ false

pub restack-Inv :
    (front : Bool) (v : ℕ) (s : Server)
    → IsReady v s
    → Inv (view_link_visible_at front v (workspace_of (s.view v).sheet) (move_to front v s))
unfolding move_to view_link_visible_at
restack-Inv front v s r = record {
  members =
      link-IsMember front v (workspace_of (s.view v).sheet) (move_to front v s)
        (move_to-IsMember front v s r.members);
  links = link-IsLinked front v (move_to front v s) (move_to-IsLinkedBut front v s r.links) r.shown;
  only_mapped = r.only_mapped;
  forced_mapped = r.forced_mapped;
  displays = r.displays;
  unforced = r.unforced;
}

pub raise_view-Inv : (v : ℕ) (s : Server) → IsReady v s → Inv (raise_view v s)
unfolding raise_view move_to
raise_view-Inv v s r = restack-Inv true v s r

pub Inv-IsReady : (v : ℕ) (s : Server) → Inv s → linked (s.view v) ≡ true → IsReady v s
Inv-IsReady v s i shown = record {
  members = IsMember-IsMemberBut v s i.members (i.only_mapped v shown);
  links = IsLinked-IsLinkedBut v s i.links;
  shown = shown;
  only_mapped = i.only_mapped;
  forced_mapped = i.forced_mapped;
  displays = i.displays;
  unforced = i.unforced;
}

-- Raising a view that is linked keeps the invariant.
pub raise-Inv : (v : ℕ) (s : Server) → linked (s.view v) ≡ true → Inv s → Inv (raise v s)
unfolding raise
raise-Inv v s shown i =
    if_elim Inv (has (first s.visible_views) v) (λ _. i)
      (λ _. raise_view-Inv v s (Inv-IsReady v s i shown))

-- Lowering a view that is linked keeps the invariant.
pub lower-Inv : (v : ℕ) (s : Server) → linked (s.view v) ≡ true → Inv s → Inv (lower v s)
unfolding lower move_to
lower-Inv v s shown i =
    if_elim Inv (has (last s.visible_views) v) (λ _. i)
      (λ _. restack-Inv false v s (Inv-IsReady v s i shown))

-- A view's record replaced by one that stands in the same lists.
pub set_view-IsMember :
    (v : ℕ) (r : View) (s : Server)
    → IsMember s
    → r.mapped ≡ (s.view v).mapped
    → r.sheet ≡ (s.view v).sheet
    → r.group ≡ (s.view v).group
    → r.output ≡ (s.view v).output
    → IsMember (set_view v r s)
set_view-IsMember v r s m em es eg eo = record {
  on_sheet = λ k u. ground (arith, m.on_sheet k u);
  in_group = λ k u. ground (arith, m.in_group k u);
  on_output = λ k u. ground (arith, m.on_output k u);
  alive = m.alive;
  sheet_once = m.sheet_once;
  in_group_once = m.in_group_once;
  output_once = m.output_once;
}

pub set_view-IsLinkedBut :
    (v : ℕ) (r : View) (s : Server)
    → IsLinked s
    → ((g : ℕ) → (g == r.group) ≡ false → mem v (s.group_visible_views g) ≡ false)
    → ((w : ℕ) → has (s.focus_view w) v ≡ true → (linked r ≡ true) × (workspace_of r.sheet ≡ w))
    → IsLinkedBut v (set_view v r s)
set_view-IsLinkedBut v r s i other keeps = record {
  on_server = λ u ne. ground (arith, i.on_server u);
  in_group = λ g u ne. ground (arith, i.in_group g u);
  on_workspace = λ w u ne. ground (arith, i.on_workspace w u);
  not_elsewhere = λ g ne. other g (ground arith);
  groups = i.groups;
  server_once = i.server_once;
  group_once = i.group_once;
  workspace_once = i.workspace_once;
  groups_once = i.groups_once;
  focused = λ w u h. ground (arith, i.focused w u, keeps w);
}

shown-IsReady :
    (v : ℕ) (s : Server)
    → Inv s
    → (s.view v).mapped ≡ true
    → (s.view v).forced ≡ false
    → IsReady v (set_hidden false v s)
shown-IsReady v s i mapped free =
    let r = record (s.view v) { hidden = false } in
    record {
      members =
          IsMember-IsMemberBut v (set_hidden false v s)
            (set_view-IsMember v r s i.members refl refl refl refl) (ground arith);
      links =
          set_view-IsLinkedBut v r s i.links (λ g ne. ground (arith, i.links.in_group g v))
            (λ w h. ground (arith, i.links.focused w v));
      shown = ground arith;
      only_mapped = λ u h. ground (arith, i.only_mapped u);
      forced_mapped = λ u h. ground (arith, i.forced_mapped u);
      displays = i.displays;
      unforced = λ unlocked u. ground (arith, i.unforced unlocked u);
    }

-- Showing a mapped view that is not forced keeps the invariant.
pub show-Inv :
    (v : ℕ) (s : Server)
    → (s.view v).mapped ≡ true
    → (s.view v).forced ≡ false
    → Inv s
    → Inv (show v s)
unfolding show
show-Inv v s mapped free i =
    raise_view-Inv v (set_hidden false v s) (shown-IsReady v s i mapped free)

-- `clear_focus` and the unlink leave the other lists as they are.
unlink-IsMember :
    (v : ℕ) (s : Server) (focus : ℕ → Option ℕ)
    → IsMember s
    → IsMember (unlink_visible_lists v (record s { focus_view = focus }))
unfolding unlink_visible_lists view_unlink_group_visible
unlink-IsMember v s focus m = record {
  on_sheet = m.on_sheet;
  in_group = m.in_group;
  on_output = m.on_output;
  alive = m.alive;
  sheet_once = m.sheet_once;
  in_group_once = m.in_group_once;
  output_once = m.output_once;
}

-- Hiding a view that is not forced keeps the invariant, whoever has the focus.
pub hide-Inv : (v : ℕ) (s : Server) → (s.view v).forced ≡ false → Inv s → Inv (hide v s)
unfolding hide view_unlink_visible unlink_visible_lists view_unlink_group_visible clear_focus
hide-Inv v s free i =
    let c = clear_focus v s in
    let r = record (s.view v) { hidden = true } in
    record {
      members =
          set_view-IsMember v r (unlink_visible_lists v c)
            (unlink-IsMember v s c.focus_view i.members) refl refl refl refl;
      links =
          unlink-IsLinked v c (update s.view v r) (clear_focus-IsLinked v s i.links)
            (λ w. unfocused w (Bool-cases (has (c.focus_view w) v))) (λ u ne. ground arith)
            (ground arith);
      only_mapped = λ u h. ground (arith, i.only_mapped u);
      forced_mapped = λ u h. ground (arith, i.forced_mapped u);
      displays = i.displays;
      unforced = λ unlocked u. ground (arith, i.unforced unlocked u);
    }
  where
    unfocused :
        (w : ℕ)
        → (has ((clear_focus v s).focus_view w) v ≡ true)
          ⊎ (has ((clear_focus v s).focus_view w) v ≡ false)
        → has ((clear_focus v s).focus_view w) v ≡ false
    unfocused w (inl h) = ground (arith, (clear_focus-focused v s i.links w v h).1)
    unfocused w (inr h) = h
