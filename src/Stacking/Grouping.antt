-- ===== src/Stacking/Grouping.antt =====
-- The change of a view's group keeps the invariant, and frees no group that is still in use.
use hikari_sakura.Prelude.{ℕ, true, false, not, ◌==◌, ◌≡◌, arith, Bool-cases, inl, inr}
use hikari_sakura.Stacking.Links.{
  mem, remove, is_empty, mem-remove, mem-unlink, unlink, unlink-Distinct, remove-Distinct,
  is_empty-subset,
}
use hikari_sakura.Stacking.State.{
  Server, set_view, view_unlink_group_visible, detach_from_group, remove_from_group, group_view,
}
use hikari_sakura.Stacking.Membership.{detach-alive}
use hikari_sakura.Stacking.Visibility.{unlink-groups}
use hikari_sakura.Stacking.Invariant.{Inv, IsReady, raise_view-Inv}

-- What is linked into a group's visible views is a view of that group.
pub visible_in_group :
    (s : Server) (i : Inv s) (g u : ℕ)
    → mem u (s.group_visible_views g) ≡ true
    → mem u (s.group_views g) ≡ true
visible_in_group s i g u h =
    ground (arith, i.links.in_group g u, i.members.in_group g u, i.only_mapped u)

-- A group that has visible views has not been freed. This holds under the invariant.
pub visible_group_alive :
    (s : Server) (g : ℕ) → Inv s → mem g s.visible_groups ≡ true → mem g s.groups ≡ true
visible_group_alive s g i h = i.members.alive g (elim (Bool-cases (is_empty (s.group_views g))) [
  | inl e ↦ ground (
    arith,
    i.links.groups g,
    is_empty-subset (s.group_visible_views g) (s.group_views g) (visible_in_group s i g) e,
  )
  | inr e ↦ e
])

-- When the last view leaves a group, the group has no visible views.
pub freed_invisible :
    (v : ℕ) (s : Server)
    → Inv s
    → is_empty (unlink v s.group_views (s.view v).group) ≡ true
    → is_empty (unlink v s.group_visible_views (s.view v).group) ≡ true
freed_invisible v s i =
    is_empty-subset (unlink v s.group_visible_views (s.view v).group)
      (unlink v s.group_views (s.view v).group)
      (λ u h. ground (
        arith,
        mem-unlink u v s.group_visible_views (s.view v).group,
        mem-unlink u v s.group_views (s.view v).group,
        visible_in_group s i (s.view v).group u,
      ))

detached_groups :
    (v : ℕ) (s : Server)
    → Inv s
    → (g : ℕ)
    → mem g (detach_from_group v (view_unlink_group_visible v s)).visible_groups
      ≡ not (is_empty ((view_unlink_group_visible v s).group_visible_views g))
unfolding detach_from_group view_unlink_group_visible
detached_groups v s i g = ground (
  arith,
  unlink-groups v s i.links g,
  freed_invisible v s i,
  mem-remove g (s.view v).group s.visible_groups,
  mem-remove g (s.view v).group (remove (s.view v).group s.visible_groups),
)

regrouped-IsReady :
    (v g : ℕ) (s : Server)
    → Inv s
    → (s.view v).hidden ≡ false
    → (s.view v).forced ≡ false
    → mem g s.groups ≡ true
    → ((s.view v).group == g) ≡ false
    → IsReady v (
        set_view v
          (record (s.view v) { group = g })
          (detach_from_group v (view_unlink_group_visible v s)))
unfolding detach_from_group view_unlink_group_visible
regrouped-IsReady v g s i shown free known other =
    let t = view_unlink_group_visible v s in
    record {
      members = record {
        on_sheet = λ k u ne. ground (arith, i.members.on_sheet k u);
        in_group = λ k u ne. ground (arith, mem-unlink u v s.group_views k, i.members.in_group k u);
        on_output = λ k u ne. ground (arith, i.members.on_output k u);
        own_mapped = ground (arith, i.only_mapped v);
        own_alive = ground (arith, mem-remove g (s.view v).group s.groups);
        alive = detach-alive v t i.members.alive;
        sheet_once = i.members.sheet_once;
        in_group_once = λ k. unlink-Distinct v s.group_views k (i.members.in_group_once k);
        output_once = i.members.output_once;
      };
      links = record {
        on_server = λ u ne. ground (arith, i.links.on_server u);
        in_group =
            λ k u ne. ground (arith, mem-unlink u v s.group_visible_views k, i.links.in_group k u);
        on_workspace = λ w u ne. ground (arith, i.links.on_workspace w u);
        not_elsewhere = λ k ne. ground (arith, mem-unlink v v s.group_visible_views k);
        groups = detached_groups v s i;
        server_once = i.links.server_once;
        group_once = λ k. unlink-Distinct v s.group_visible_views k (i.links.group_once k);
        workspace_once = i.links.workspace_once;
        groups_once =
            let once = remove-Distinct (s.view v).group s.visible_groups i.links.groups_once in
            ground (
              arith,
              i.links.groups_once,
              once,
              remove-Distinct (s.view v).group (remove (s.view v).group s.visible_groups) once,
            );
        focused = λ w u h. ground (arith, i.links.focused w u);
      };
      shown = ground arith;
      only_mapped = λ u h. ground (arith, i.only_mapped u);
      forced_mapped = λ u h. ground (arith, i.forced_mapped u);
      displays = i.displays;
      unforced = λ unlocked u. ground (arith, i.unforced unlocked u);
    }

-- Moving a visible view to a living group keeps the invariant.
pub group_view-Inv :
    (v g : ℕ) (s : Server)
    → (s.view v).hidden ≡ false
    → (s.view v).forced ≡ false
    → mem g s.groups ≡ true
    → Inv s
    → Inv (group_view v g s)
unfolding group_view remove_from_group
group_view-Inv v g s shown free known i = elim (Bool-cases ((s.view v).group == g)) [
  | inl same ↦ rw same i
  | inr other ↦
      rw (other, shown) (raise_view-Inv v _ (regrouped-IsReady v g s i shown free known other))
]
