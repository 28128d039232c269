-- ===== src/Stacking/Unmap.antt =====
-- `hikari_view_unmap` (view.c) keeps the invariant, and leaves a view that is in no list.
use hikari_sakura.Prelude.{
  ℕ, Bool, true, false, not, none, if◌then◌else◌, ◌≡◌, refl, ap, sym, subst, arith, if_elim, ◌⊎◌,
  inl, inr,
}
use hikari_sakura.Stacking.Links.{
  mem, is_empty, mem-remove, mem-unlink, unlink, unlink-Distinct, remove-Distinct, is_empty-subset,
}
use hikari_sakura.Stacking.State.{
  View, Server, linked, has, set_view, set_forced, hide, view_unlink_visible, update, workspace_of,
  focus, unlink_visible_lists, view_unlink_group_visible, detach_from_group, clear_focus,
}
use hikari_sakura.Stacking.Pointer.{Hit, Sees, cursor_focus}
use hikari_sakura.Stacking.Mapping.{clear_focus_in, hide_in, leave_visible, unmap_view}
use hikari_sakura.Stacking.Focus.{cursor_focus-Inv, cursor_focus_keeps}
use hikari_sakura.Stacking.Membership.{detach-alive}
use hikari_sakura.Stacking.Visibility.{unlink-IsLinked}
use hikari_sakura.Stacking.Invariant.{Inv, hide-Inv}
use hikari_sakura.Stacking.Grouping.{visible_in_group}

-- In normal mode, or for a view that has not the focus of the current workspace, the refocus of
-- `hikari_server_enter_normal_mode` is not reached.
abbrev Calm : Bool → ℕ → Server → Type 0
Calm normal_mode v s = (normal_mode ≡ true) ⊎ (has (s.focus_view s.workspace) v ≡ false)

hide_in-hide :
    (hit : Server → Hit) (normal_mode : Bool) (v : ℕ) (s : Server)
    → Calm normal_mode v s
    → hide_in hit normal_mode v s ≡ hide v s
unfolding hide_in hide clear_focus_in clear_focus focus
hide_in-hide hit normal_mode v s calm =
    ap (view_unlink_visible v)
      (same (has (s.focus_view own) v) (has (s.focus_view s.workspace) v) normal_mode calm)
  where
    own : ℕ
    own = workspace_of (s.view v).sheet

    same :
        (b c n : Bool)
        → (n ≡ true) ⊎ (c ≡ false)
        → (let t = if n then s else cursor_focus hit s in
            if not b
            then s
            else if c
            then focus t.workspace none t
            else record s { focus_view = update s.focus_view own none })
          ≡ record s {
            focus_view =
                if b
                then (if c
                    then update s.focus_view s.workspace none
                    else update s.focus_view own none)
                else s.focus_view;
          }
    same false c n q = refl
    same true false n q = refl
    same true true true q = refl
    same true true false (inl e) = absurd (ground (arith, e))
    same true true false (inr e) = absurd (ground (arith, e))

module _ (hit : Server → Hit) (sees : Sees hit) (normal_mode : Bool) (v : ℕ) (s : Server)
    (i : Inv s) (calm : Calm normal_mode v s)
    (unfocused : (s.view v).forced ≡ true → (w : ℕ) → has (s.focus_view w) v ≡ false) where
  unforced-Inv : (s.view v).forced ≡ true → Inv (set_forced false v (view_unlink_visible v s))
  unfolding view_unlink_visible unlink_visible_lists view_unlink_group_visible
  unforced-Inv forced = record {
    members = record {
      on_sheet = λ k u. ground (arith, i.members.on_sheet k u);
      in_group = λ k u. ground (arith, i.members.in_group k u);
      on_output = λ k u. ground (arith, i.members.on_output k u);
      alive = i.members.alive;
      sheet_once = i.members.sheet_once;
      in_group_once = i.members.in_group_once;
      output_once = i.members.output_once;
    };
    links =
        unlink-IsLinked v s (set_forced false v (view_unlink_visible v s)).view i.links
          (unfocused forced) (λ u ne. ground arith) (ground arith);
    only_mapped = λ u h. ground (arith, i.only_mapped u);
    forced_mapped = λ u h. ground (arith, i.forced_mapped u);
    displays = i.displays;
    unforced = λ unlocked u. ground (arith, i.unforced unlocked u);
  }

  leave_visible-Inv : Inv (leave_visible hit normal_mode v s)
  unfolding leave_visible
  leave_visible-Inv = if_elim Inv (s.view v).forced unforced-Inv (λ free.
      if_elim Inv (s.view v).hidden (λ _. i)
        (λ _.
          cursor_focus-Inv hit (hide_in hit normal_mode v s) sees
            (subst Inv (sym (hide_in-hide hit normal_mode v s calm)) (hide-Inv v s free i))))

  leave_visible_flags :
      ((leave_visible hit normal_mode v s).view v).hidden ≡ true
      × (((leave_visible hit normal_mode v s).view v).forced ≡ false)
  unfolding leave_visible hide_in view_unlink_visible unlink_visible_lists view_unlink_group_visible
  leave_visible_flags = ground (arith, (cursor_focus_keeps hit (hide_in hit normal_mode v s)).0)

module _ (v : ℕ) (t : Server) (i : Inv t) (out : linked (t.view v) ≡ false) where
  gone_groups :
      (g : ℕ)
      → mem g (detach_from_group v t).visible_groups ≡ not (is_empty (t.group_visible_views g))
  unfolding detach_from_group
  gone_groups g = ground (
    arith,
    i.links.groups g,
    mem-remove g (t.view v).group t.visible_groups,
    is_empty-subset (t.group_visible_views (t.view v).group)
        (unlink v t.group_views (t.view v).group)
        (λ u h. ground (
          arith,
          mem-unlink u v t.group_views (t.view v).group,
          i.links.in_group (t.view v).group u,
          visible_in_group t i (t.view v).group u h,
        )),
  )

  gone-Inv :
      (r : View)
      → r.mapped ≡ false
      → linked r ≡ false
      → r.forced ≡ false
      → r.group ≡ (t.view v).group
      → let u = detach_from_group v (set_view v r t) in
        Inv (record u {
          sheet_views = unlink v u.sheet_views;
          output_views = unlink v u.output_views;
        })
  unfolding detach_from_group
  gone-Inv r unmapped unlinked free same = record {
    members = record {
      on_sheet = λ k u. ground (arith, mem-unlink u v t.sheet_views k, i.members.on_sheet k u);
      in_group = λ k u. ground (arith, mem-unlink u v t.group_views k, i.members.in_group k u);
      on_output = λ k u. ground (arith, mem-unlink u v t.output_views k, i.members.on_output k u);
      alive = detach-alive v (set_view v r t) i.members.alive;
      sheet_once = λ k. unlink-Distinct v t.sheet_views k (i.members.sheet_once k);
      in_group_once = λ k. unlink-Distinct v t.group_views k (i.members.in_group_once k);
      output_once = λ k. unlink-Distinct v t.output_views k (i.members.output_once k);
    };
    links = record {
      on_server = λ u. ground (arith, i.links.on_server u);
      in_group = λ k u. ground (arith, i.links.in_group k u);
      on_workspace = λ w u. ground (arith, i.links.on_workspace w u);
      groups = λ g. ground (arith, gone_groups g);
      server_once = i.links.server_once;
      group_once = i.links.group_once;
      workspace_once = i.links.workspace_once;
      groups_once = ground (
        arith,
        i.links.groups_once,
        remove-Distinct (t.view v).group t.visible_groups i.links.groups_once,
      );
      focused = λ w u h. ground (arith, i.links.focused w u);
    };
    only_mapped = λ u h. ground (arith, i.only_mapped u);
    forced_mapped = λ u h. ground (arith, i.forced_mapped u);
    displays = i.displays;
    unforced = λ unlocked u. ground (arith, i.unforced unlocked u);
  }

-- Unmapping a view keeps the invariant, whether it is visible, hidden or forced, provided that a
-- forced view has no workspace's focus. The mode is normal, or the view has not the focus of the
-- current workspace. The refocus meets visible views only.
pub unmap_view-Inv :
    (hit : Server → Hit) (normal_mode : Bool) (v : ℕ) (s : Server)
    → Sees hit
    → Inv s
    → Calm normal_mode v s
    → ((s.view v).forced ≡ true → (w : ℕ) → has (s.focus_view w) v ≡ false)
    → Inv (unmap_view hit normal_mode v s)
unfolding unmap_view
unmap_view-Inv hit normal_mode v s sees i calm unfocused =
    let flags = leave_visible_flags hit sees normal_mode v s i calm unfocused in
    let t = leave_visible hit normal_mode v s in
    gone-Inv v t (leave_visible-Inv hit sees normal_mode v s i calm unfocused)
      (ground (arith, flags)) (record (t.view v) { mapped = false; tiled = false }) refl
      (ground (arith, flags)) flags.1 refl

-- An unmapped view stands in no list of the server any more: neither in a sheet's, a group's or
-- an output's, nor in a visibility list; and it has no workspace's focus, if it had none while
-- it was forced. This holds under the invariant. The mode is normal, or the view has not the focus of
-- the current workspace. The refocus meets visible views only.
unmap_view_gone :
    (hit : Server → Hit) (normal_mode : Bool) (v : ℕ) (s : Server) (k : ℕ)
    → Sees hit
    → Inv s
    → Calm normal_mode v s
    → ((s.view v).forced ≡ true → (w : ℕ) → has (s.focus_view w) v ≡ false)
    → let t = unmap_view hit normal_mode v s in
      (mem v (t.sheet_views k) ≡ false)
      × (mem v (t.group_views k) ≡ false)
      × (mem v (t.output_views k) ≡ false)
      × (mem v t.visible_views ≡ false)
      × (mem v (t.group_visible_views k) ≡ false)
      × (mem v (t.workspace_views k) ≡ false)
      × (has (t.focus_view k) v ≡ false)
unfolding unmap_view detach_from_group
unmap_view_gone hit normal_mode v s k sees i calm unfocused =
    let n = unmap_view-Inv hit normal_mode v s sees i calm unfocused in
    let flags = leave_visible_flags hit sees normal_mode v s i calm unfocused in
    (
      ground (arith, n.members.on_sheet k v),
      ground (arith, n.members.in_group k v),
      ground (arith, n.members.on_output k v),
      ground (arith, n.links.on_server v, flags),
      ground (arith, n.links.in_group k v, flags),
      ground (arith, n.links.on_workspace k v, flags),
      ground (arith, n.links.focused k v, flags),
    )
