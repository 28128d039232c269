-- ===== src/Stacking/Lifecycle.antt =====
-- Mapping a view (view.c) keeps the invariant, on a locked screen too.
use hikari_sakura.Prelude.{
  ℕ, Bool, true, false, not, ◌==◌, ◌||◌, ◌≡◌, refl, arith, if◌then◌else◌, Bool-cases, inl, inr,
}
use hikari_sakura.Stacking.Links.{mem, is_empty}
use hikari_sakura.Stacking.State.{View, Server, set_view, show}
use hikari_sakura.Stacking.Pointer.{Hit, Sees}
use hikari_sakura.Stacking.Mapping.{link_mapped, map_view, find_or_create_group}
use hikari_sakura.Stacking.Focus.{cursor_focus-Inv}
use hikari_sakura.Stacking.Membership.{IsMember}
use hikari_sakura.Stacking.Invariant.{Inv, IsReady, raise_view-Inv}

-- The view as `hikari_view_map` registers it, before it is shown or forced.
abbrev entered : ℕ → ℕ → Server → Server
entered v group s =
    link_mapped v (
      set_view v (record (s.view v) { mapped = true; group = group })
        (find_or_create_group group s))

module _ (v group : ℕ) (s : Server) (i : Inv s) (unmapped : (s.view v).mapped ≡ false) where
  known : mem group (find_or_create_group group s).groups ≡ true
  unfolding mem
  known = ground arith

  entered_alive :
      (g : ℕ)
      → is_empty ((entered v group s).group_views g) ≡ false
      → mem g (entered v group s).groups ≡ true
  unfolding link_mapped mem
  entered_alive g h = ground (arith, known, i.members.alive g)

  entered-IsMember : IsMember (entered v group s)
  unfolding link_mapped mem
  entered-IsMember = record {
    on_sheet = λ k u. ground (arith, i.members.on_sheet k u);
    in_group = λ k u. ground (arith, i.members.in_group k u);
    on_output = λ k u. ground (arith, i.members.on_output k u);
    alive = entered_alive;
    sheet_once = λ k. ground (arith, i.members.sheet_once k, i.members.on_sheet k v);
    in_group_once = λ k. ground (arith, i.members.in_group_once k, i.members.in_group k v);
    output_once = λ k. ground (arith, i.members.output_once k, i.members.on_output k v);
  }

  -- With the flags that `hikari_view_map` gives the view it can be linked.
  entered-IsReady :
      (s.view v).hidden ≡ true
      → (s.view v).forced ≡ false
      → (h f : Bool) → (if f then h else not h) ≡ true
      → (s.locked ≡ false → f ≡ false)
      → (views : ℕ → View) → ((u : ℕ) → (u == v) ≡ false → views u ≡ s.view u)
      → views v ≡ record (s.view v) { mapped = true; group = group; hidden = h; forced = f }
      → IsReady v (record (entered v group s) { view = views })
  unfolding link_mapped
  entered-IsReady was_hidden free h f shown only_locked views others own =
      let m = entered-IsMember in
      record {
        members = record {
          on_sheet = λ k u ne. ground (arith, m.on_sheet k u, others u);
          in_group = λ k u ne. ground (arith, m.in_group k u, others u);
          on_output = λ k u ne. ground (arith, m.on_output k u, others u);
          own_mapped = ground arith;
          own_alive = ground (arith, known);
          alive = m.alive;
          sheet_once = m.sheet_once;
          in_group_once = m.in_group_once;
          output_once = m.output_once;
        };
        links = record {
          on_server = λ u ne. ground (arith, i.links.on_server u, others u);
          in_group = λ k u ne. ground (arith, i.links.in_group k u, others u);
          on_workspace = λ w u ne. ground (arith, i.links.on_workspace w u, others u);
          not_elsewhere = λ k ne. ground (arith, i.links.in_group k v);
          groups = i.links.groups;
          server_once = i.links.server_once;
          group_once = i.links.group_once;
          workspace_once = i.links.workspace_once;
          groups_once = i.links.groups_once;
          focused = λ w u h'. ground (arith, i.links.focused w u, others u);
        };
        shown = ground arith;
        only_mapped = λ u l. ground (arith, i.only_mapped u, others u);
        forced_mapped = λ u l. ground (arith, i.forced_mapped u, others u);
        displays = i.displays;
        unforced =
            λ unlocked u. ground (arith, i.unforced unlocked u, others u, only_locked unlocked);
      }

  -- Mapping a view that is neither mapped, visible nor forced keeps the invariant: on a locked
  -- screen it is shown if it is public and forced otherwise. The refocus meets visible views only.
  pub map_view-Inv :
      (hit : Server → Hit)
      → Sees hit
      → (s.view v).hidden ≡ true
      → (s.view v).forced ≡ false
      → Inv (map_view hit v group s)
  unfolding map_view show link_mapped
  map_view-Inv hit sees was_hidden free = elim (Bool-cases (not s.locked || (s.view v).public)) [
    | inl shows ↦ rw shows (
        cursor_focus-Inv hit _ sees (
          raise_view-Inv v _ (
            entered-IsReady was_hidden free false false refl (λ _. refl) _ (λ u ne. ground arith)
              (ground arith))))
    | inr forces ↦ rw forces (
        raise_view-Inv v _ (
          entered-IsReady was_hidden free true true refl (λ unlocked. ground arith) _
            (λ u ne. ground arith) (ground arith)))
  ]
