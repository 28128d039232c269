-- ===== src/Workspace/Pinning.antt =====
-- `hikari_view_pin_to_sheet` (view.c): a visible view goes to another sheet of its workspace. The
-- reset that it queues for a tiled view is left to the view's pending operation.
use hikari_sakura.Prelude.{
  ℕ, Bool, true, false, not, ◌==◌, ◌&&◌, if◌then◌else◌, if_elim, ◌≡◌, ap, sym, subst, ◌∙◌, arith,
  Bool-cases, inl, inr,
}
use hikari_sakura.Stacking.Links.{mem-relink_at, relink_at, relink_at-Distinct}
use hikari_sakura.Stacking.State.{
  Server, workspace_of, nr_of, linked, update, move_to, view_link_visible_at, hide, raise,
  raise_view, view_unlink_visible, unlink_visible_lists, view_unlink_group_visible, clear_focus,
}
use hikari_sakura.Stacking.Pointer.{Hit, Sees, cursor_focus}
use hikari_sakura.Stacking.Membership.{IsMember-IsMemberBut, move_to-IsMember}
use hikari_sakura.Stacking.Visibility.{IsLinked-IsLinkedBut, link-IsLinked}
use hikari_sakura.Stacking.Invariant.{Inv, link-IsMember, hide-Inv, raise-Inv}
use hikari_sakura.Stacking.Focus.{cursor_focus-Inv, cursor_focus_keeps}
use hikari_sakura.Workspace.Sheets.{is_visible}

-- The link and the field that say which sheet a view is on.
unfoldable pub resheet : ℕ → ℕ → Server → Server
resheet v sheet s = record s {
  sheet_views = relink_at true v sheet s.sheet_views;
  view = update s.view v (record (s.view v) { sheet = sheet });
}

-- The view is linked if the sheet is visible, and hidden otherwise.
unfoldable pub link_or_hide : (Server → Hit) → ℕ → ℕ → Server → Server
unfolding view_link_visible_at hide cursor_focus is_visible
link_or_hide hit v sheet s =
    if is_visible sheet s
    then view_link_visible_at true v (workspace_of sheet) s
    else cursor_focus hit (hide v s)

unfoldable pub pin_to_sheet : (Server → Hit) → ℕ → ℕ → Server → Server
unfolding link_or_hide resheet hide raise move_to cursor_focus
pin_to_sheet hit v sheet s =
    let there = resheet v sheet (link_or_hide hit v sheet s) in
    if (s.view v).sheet == sheet
    then (if not (s.sheet (workspace_of (s.view v).sheet) == sheet) && not (nr_of sheet == 0)
        then move_to true v (cursor_focus hit (hide v s))
        else raise v s)
    else if (s.view v).tiled
    then there
    else move_to true v there

move_to-Inv :
    (front : Bool) (v : ℕ) (s : Server) → Inv s → (s.view v).mapped ≡ true → Inv (move_to front v s)
unfolding move_to
move_to-Inv front v s i mapped = record {
  members = move_to-IsMember front v s (IsMember-IsMemberBut v s i.members mapped);
  links = record {
    on_server = i.links.on_server;
    in_group = i.links.in_group;
    on_workspace = i.links.on_workspace;
    groups = i.links.groups;
    server_once = i.links.server_once;
    group_once = i.links.group_once;
    workspace_once = i.links.workspace_once;
    groups_once = i.links.groups_once;
    focused = i.links.focused;
  };
  only_mapped = i.only_mapped;
  forced_mapped = i.forced_mapped;
  displays = i.displays;
  unforced = i.unforced;
}

resheet-Inv :
    (v sheet : ℕ) (s : Server)
    → Inv s
    → (s.view v).mapped ≡ true
    → workspace_of sheet ≡ workspace_of (s.view v).sheet
    → Inv (resheet v sheet s)
unfolding resheet
resheet-Inv v sheet s i mapped own = record {
  members = record {
    on_sheet =
        λ k u. ground (arith, mem-relink_at true u v sheet s.sheet_views k, i.members.on_sheet k u);
    in_group = λ k u. ground (arith, i.members.in_group k u);
    on_output = λ k u. ground (arith, i.members.on_output k u);
    alive = i.members.alive;
    sheet_once = λ k. relink_at-Distinct true v sheet s.sheet_views k (i.members.sheet_once k);
    in_group_once = i.members.in_group_once;
    output_once = i.members.output_once;
  };
  links = record {
    on_server = λ u. ground (arith, i.links.on_server u);
    in_group = λ g u. ground (arith, i.links.in_group g u);
    on_workspace = λ w u. ground (arith, i.links.on_workspace w u);
    groups = i.links.groups;
    server_once = i.links.server_once;
    group_once = i.links.group_once;
    workspace_once = i.links.workspace_once;
    groups_once = i.links.groups_once;
    focused = λ w u h. ground (arith, i.links.focused w u);
  };
  only_mapped = λ u h. ground (arith, i.only_mapped u);
  forced_mapped = λ u h. ground (arith, i.forced_mapped u);
  displays = i.displays;
  unforced = λ unlocked u. ground (arith, i.unforced unlocked u);
}

relink-Inv :
    (v : ℕ) (s : Server)
    → Inv s
    → linked (s.view v) ≡ true
    → Inv (view_link_visible_at true v (workspace_of (s.view v).sheet) s)
unfolding view_link_visible_at
relink-Inv v s i shown = record {
  members = link-IsMember true v (workspace_of (s.view v).sheet) s i.members;
  links = link-IsLinked true v s (IsLinked-IsLinkedBut v s i.links) shown;
  only_mapped = i.only_mapped;
  forced_mapped = i.forced_mapped;
  displays = i.displays;
  unforced = i.unforced;
}

-- A view that was hidden or linked keeps its place apart from the flag.
hidden_view :
    (hit : Server → Hit) (v : ℕ) (s : Server)
    → (cursor_focus hit (hide v s)).view v ≡ record (s.view v) { hidden = true }
unfolding hide view_unlink_visible unlink_visible_lists view_unlink_group_visible clear_focus
hidden_view hit v s = ap (λ f. f v) (cursor_focus_keeps hit (hide v s)).0 ∙ ground arith

module _ (hit : Server → Hit) (v sheet : ℕ) (s : Server) (i : Inv s)
    (shown : (s.view v).hidden ≡ false) (free : (s.view v).forced ≡ false)
    (own : workspace_of sheet ≡ workspace_of (s.view v).sheet) where
  prepared_view :
      (link_or_hide hit v sheet s).view v ≡ record (s.view v) { hidden = not (is_visible sheet s) }
  unfolding link_or_hide view_link_visible_at
  prepared_view = elim (Bool-cases (is_visible sheet s)) [
    | inl visible ↦ rw visible (ground arith)
    | inr out ↦ rw out (hidden_view hit v s)
  ]

  hidden-Inv : Sees hit → Inv (cursor_focus hit (hide v s))
  hidden-Inv sees = cursor_focus-Inv hit (hide v s) sees (hide-Inv v s free i)

  prepared-Inv : Sees hit → Inv (link_or_hide hit v sheet s)
  unfolding link_or_hide
  prepared-Inv sees =
      if_elim Inv (is_visible sheet s)
        (λ _.
          subst (λ w. Inv (view_link_visible_at true v w s)) (sym own)
            (relink-Inv v s i (ground arith)))
        (λ _. hidden-Inv sees)

  there-Inv : Sees hit → Inv (resheet v sheet (link_or_hide hit v sheet s))
  there-Inv sees =
      resheet-Inv v sheet _ (prepared-Inv sees) (ground (arith, prepared_view, i.only_mapped v))
        (ground (arith, prepared_view))

  there_view :
      (resheet v sheet (link_or_hide hit v sheet s)).view v
      ≡ record (s.view v) { sheet = sheet; hidden = not (is_visible sheet s) }
  unfolding resheet
  there_view = ground (arith, prepared_view)

  -- Pinning a visible view to a sheet of its workspace keeps the invariant, whether or not that
  -- sheet is the one it is on, or is visible. The refocus meets visible views only.
  pub pin_to_sheet-Inv : Sees hit → Inv (pin_to_sheet hit v sheet s)
  unfolding pin_to_sheet
  pin_to_sheet-Inv sees =
      if_elim Inv ((s.view v).sheet == sheet)
        (λ _.
          if_elim Inv
            (not (s.sheet (workspace_of (s.view v).sheet) == sheet) && not (nr_of sheet == 0))
            (λ _.
              move_to-Inv true v _ (hidden-Inv sees)
                (ground (arith, hidden_view hit v s, i.only_mapped v)))
            (λ _. raise-Inv v s (ground arith) i))
        (λ _.
          if_elim Inv (s.view v).tiled (λ _. there-Inv sees)
            (λ _.
              move_to-Inv true v _ (there-Inv sees) (ground (arith, there_view, i.only_mapped v))))

  -- A visible view that is pinned to a sheet of its workspace is on that sheet afterwards, and
  -- is hidden exactly if the sheet is neither displayed nor the sheet 0. This holds under the
  -- invariant.
  pub pin_to_sheet_lem :
      ((pin_to_sheet hit v sheet s).view v).sheet ≡ sheet
      × (((pin_to_sheet hit v sheet s).view v).hidden ≡ not (is_visible sheet s))
  unfolding pin_to_sheet move_to raise raise_view view_link_visible_at is_visible
  pin_to_sheet_lem = ground (arith, there_view, hidden_view hit v s)
