-- ===== src/Stacking/Focus.antt =====
-- A refocus keeps the invariant of view.c's linkage.
use hikari_sakura.Prelude.{
  ℕ, true, false, ◌==◌, List, [], ◌∷◌, Option, none, some, ◌≡◌, refl, arith, if_elim, Option-cases,
  Bool-cases, inl, inr,
}
use hikari_sakura.Stacking.Links.{mem}
use hikari_sakura.Stacking.State.{View, Server, workspace_of, linked, has, focus}
use hikari_sakura.Stacking.Pointer.{
  Hit, ignored, background, on_view, on_layer, first_view_of, first_view, focus_hit, cursor_focus,
  Sees,
}
use hikari_sakura.Stacking.Invariant.{Inv}

-- Focusing nothing, or a linked view on its workspace, keeps the invariant.
pub focus-Inv :
    (w : ℕ) (x : Option ℕ) (s : Server)
    → Inv s
    → ((v : ℕ) → has x v ≡ true → (linked (s.view v) ≡ true) × (workspace_of (s.view v).sheet ≡ w))
    → Inv (focus w x s)
unfolding focus
focus-Inv w x s i ok = record {
  members = record {
    on_sheet = i.members.on_sheet;
    in_group = i.members.in_group;
    on_output = i.members.on_output;
    alive = i.members.alive;
    sheet_once = i.members.sheet_once;
    in_group_once = i.members.in_group_once;
    output_once = i.members.output_once;
  };
  links = record {
    on_server = i.links.on_server;
    in_group = i.links.in_group;
    on_workspace = i.links.on_workspace;
    groups = i.links.groups;
    server_once = i.links.server_once;
    group_once = i.links.group_once;
    workspace_once = i.links.workspace_once;
    groups_once = i.links.groups_once;
    focused = λ u v h. ground (arith, i.links.focused u v, ok v);
  };
  only_mapped = i.only_mapped;
  forced_mapped = i.forced_mapped;
  displays = i.displays;
  unforced = i.unforced;
}

first_view_of-visible :
    (views : ℕ → View) (vs : List ℕ) (v : ℕ)
    → has (first_view_of views vs) v ≡ true
    → (mem v vs ≡ true) × ((views v).hidden ≡ false)
unfolding first_view_of mem
first_view_of-visible views [] v h = ground arith
first_view_of-visible views (x ∷ xs) v h = ground (arith, first_view_of-visible views xs v)

-- What a workspace would focus is linked, and on the workspace.
pub first_view-visible :
    (w v : ℕ) (s : Server)
    → Inv s
    → s.locked ≡ false
    → has (first_view w s) v ≡ true
    → (linked (s.view v) ≡ true) × (workspace_of (s.view v).sheet ≡ w)
unfolding first_view
first_view-visible w v s i unlocked h = elim (Option-cases (s.focus_view w)) [
  | inl e ↦ ground (
    arith,
    first_view_of-visible s.view (s.sheet_views (s.sheet w)) v,
    i.members.on_sheet (s.sheet w) v,
    i.displays w,
    i.unforced unlocked v,
  )
  | inr (u, e) ↦ ground (arith, i.links.focused w v)
]

set_workspace-Inv : (w : ℕ) (s : Server) → Inv s → Inv (record s { workspace = w })
set_workspace-Inv w s i = record {
  members = record {
    on_sheet = i.members.on_sheet;
    in_group = i.members.in_group;
    on_output = i.members.on_output;
    alive = i.members.alive;
    sheet_once = i.members.sheet_once;
    in_group_once = i.members.in_group_once;
    output_once = i.members.output_once;
  };
  links = record {
    on_server = i.links.on_server;
    in_group = i.links.in_group;
    on_workspace = i.links.on_workspace;
    groups = i.links.groups;
    server_once = i.links.server_once;
    group_once = i.links.group_once;
    workspace_once = i.links.workspace_once;
    groups_once = i.links.groups_once;
    focused = i.links.focused;
  };
  only_mapped = i.only_mapped;
  forced_mapped = i.forced_mapped;
  displays = i.displays;
  unforced = i.unforced;
}

focus_hit-Inv :
    (h : Hit) (s : Server)
    → Inv s
    → ((v : ℕ) → h ≡ on_view v → linked (s.view v) ≡ true)
    → (s.locked ≡ true → h ≡ ignored)
    → Inv (focus_hit h s)
unfolding focus_hit
focus_hit-Inv ignored s i seen free = i
focus_hit-Inv (background w) s i seen free = elim (Bool-cases s.locked) [
  | inl locked ↦ absurd (ground (arith, free locked))
  | inr unlocked ↦
      if_elim Inv (s.workspace == w) (λ _. i)
        (λ _. focus-Inv w (first_view w s) s i (λ v h. first_view-visible w v s i unlocked h))
]
focus_hit-Inv (on_view v) s i seen free =
    if_elim Inv (has (s.focus_view s.workspace) v) (λ _. i)
      (λ _.
        focus-Inv (workspace_of (s.view v).sheet) (some v) s i (λ u h. ground (arith, seen v refl)))
focus_hit-Inv (on_layer w) s i seen free = elim (Option-cases (s.focus_view s.workspace)) [
  | inl e ↦ rw e (set_workspace-Inv w s i)
  | inr (u, e) ↦ rw e (
      set_workspace-Inv w (focus s.workspace none s)
        (focus-Inv s.workspace none s i (λ v h. ground arith)))
]

-- The refocus after a change keeps the invariant, whatever is under the pointer. The pointer
-- meets visible views only, and is ignored on a locked screen.
pub cursor_focus-Inv :
    (hit : Server → Hit) (s : Server) → Sees hit → Inv s → Inv (cursor_focus hit s)
unfolding cursor_focus
cursor_focus-Inv hit s sees i = focus_hit-Inv (hit s) s i (sees.visible s) (sees.not_locked s)

abbrev Kept : Server → Server → Type 0
Kept s t =
    (t.view ≡ s.view)
    × (t.sheet ≡ s.sheet)
    × (t.alternate_sheet ≡ s.alternate_sheet)
    × (t.locked ≡ s.locked)

-- It changes neither the views nor which sheets are displayed.
pub cursor_focus_keeps : (hit : Server → Hit) (s : Server) → Kept s (cursor_focus hit s)
unfolding cursor_focus focus_hit focus
cursor_focus_keeps hit s = focus_hit_keeps (hit s)
  where
    focus_hit_keeps : (h : Hit) → Kept s (focus_hit h s)
    focus_hit_keeps ignored = (refl, refl, refl, refl)
    focus_hit_keeps (background w) =
        if_elim (Kept s) (s.workspace == w) (λ _. (refl, refl, refl, refl))
          (λ _. (refl, refl, refl, refl))
    focus_hit_keeps (on_view v) =
        if_elim (Kept s) (has (s.focus_view s.workspace) v) (λ _. (refl, refl, refl, refl))
          (λ _. (refl, refl, refl, refl))
    focus_hit_keeps (on_layer w) = elim (Option-cases (s.focus_view s.workspace)) [
      | inl e ↦ rw e (refl, refl, refl, refl)
      | inr (u, e) ↦ rw e (refl, refl, refl, refl)
    ]
