-- ===== src/Workspace/Displayed.antt =====
-- Which views a workspace shows once `display_sheet` has run.
use hikari_sakura.Prelude.{
  ℕ, true, false, not, ◌==◌, ◌&&◌, if◌then◌else◌, if_elim, ◌≡◌, refl, ap, ◌∙◌, arith,
}
use hikari_sakura.Stacking.State.{View, Server, workspace_of}
use hikari_sakura.Stacking.Pointer.{Hit, Sees}
use hikari_sakura.Stacking.Focus.{cursor_focus-Inv, cursor_focus_keeps}
use hikari_sakura.Stacking.Invariant.{Inv}
use hikari_sakura.Workspace.Loops.{elsewhere, Kept, hide_others_lem, show_sheet_lem}
use hikari_sakura.Workspace.Sheets.{sheet_at}
use hikari_sakura.Workspace.Display.{
  change_sheet, hide_others, show_sheet, rearrange, display_sheet, display_alternate,
}

-- What `display_sheet` makes of a view of the first workspace.
abbrev pub displayed : ℕ → ℕ → View → View
displayed w sheet r =
    if r.mapped && workspace_of r.sheet == w
    then (if elsewhere w sheet r
        then record r { hidden = true }
        else if r.invisible
        then r
        else record r { hidden = false })
    else r

rearrange_lem :
    (w sheet : ℕ) (s : Server)
    → Inv s
    → s.locked ≡ false
    → workspace_of sheet ≡ w
    → let t = rearrange w sheet s in
      Inv t × Kept s t × ((u : ℕ) → t.view u ≡ displayed w sheet (s.view u))
unfolding rearrange
rearrange_lem w sheet s i unlocked own =
    let a = hide_others_lem w sheet s i unlocked in
    let s1 = hide_others w sheet s in
    let b = show_sheet_lem sheet s1 a.0 (a.1.0 ∙ unlocked) in
    let s2 = show_sheet sheet s1 in
    let c = show_sheet_lem (sheet_at w 0) s2 b.0 (b.1.0 ∙ a.1.0 ∙ unlocked) in
    let known : (u : ℕ) → (s.view u).mapped ≡ false → (s.view u).hidden ≡ true =
      λ u h. ground (arith, i.only_mapped u, i.unforced unlocked u) in
    let middle : (u : ℕ)
        → s2.view u ≡ (
            if (s.view u).sheet == sheet && (s.view u).mapped && not (s.view u).invisible
            then record (s.view u) { hidden = false }
            else s1.view u) =
      λ u. ground (arith, b.2 u, a.0.members.on_sheet sheet u, a.2 u) in
    (
      if_elim Inv (sheet == sheet_at w 0) (λ _. b.0) (λ _. c.0),
      if_elim (Kept s) (sheet == sheet_at w 0) (λ _. (b.1.0 ∙ a.1.0, b.1.1 ∙ a.1.1, b.1.2 ∙ a.1.2))
          (λ _. (c.1.0 ∙ b.1.0 ∙ a.1.0, c.1.1 ∙ b.1.1 ∙ a.1.1, c.1.2 ∙ b.1.2 ∙ a.1.2)),
      λ u. ground (
        arith,
        a.2 u,
        middle u,
        c.2 u,
        b.0.members.on_sheet (sheet_at w 0) u,
        known u,
        i.links.on_workspace w u,
        i.unforced unlocked u,
      ),
    )

change_sheet-Inv :
    (w sheet : ℕ) (s : Server) → Inv s → workspace_of sheet ≡ w → Inv (change_sheet w sheet s)
unfolding change_sheet
change_sheet-Inv w sheet s i own =
    if_elim Inv (sheet == s.sheet w) (λ _. i)
      (λ _. record {
        members = record {
          on_sheet = i.members.on_sheet;
          in_group = i.members.in_group;
          on_output = i.members.on_output;
          alive = i.members.alive;
          sheet_once = i.members.sheet_once;
          in_group_once = i.members.in_group_once;
          output_once = i.members.output_once;
        };
        links = record {
          on_server = i.links.on_server;
          in_group = i.links.in_group;
          on_workspace = i.links.on_workspace;
          groups = i.links.groups;
          server_once = i.links.server_once;
          group_once = i.links.group_once;
          workspace_once = i.links.workspace_once;
          groups_once = i.links.groups_once;
          focused = i.links.focused;
        };
        only_mapped = i.only_mapped;
        forced_mapped = i.forced_mapped;
        displays = λ k. (ground (arith, i.displays k), ground (arith, i.displays k));
        unforced = i.unforced;
      })

-- What `change_sheet` writes.
changed :
    (w sheet : ℕ) (s : Server)
    → let t = change_sheet w sheet s in
      (t.locked ≡ s.locked)
      × (t.view ≡ s.view)
      × (t.sheet w ≡ sheet)
      × (t.alternate_sheet w ≡ (if sheet == s.sheet w then s.alternate_sheet w else s.sheet w))
unfolding change_sheet
changed w sheet s = (
  ground arith,
  if_elim (λ (t : Server). t.view ≡ s.view) (sheet == s.sheet w) (λ _. refl) (λ _. refl),
  ground arith,
  ground arith,
)

-- Displaying a sheet of a workspace keeps the invariant, on an unlocked screen. The refocus
-- meets visible views only.
pub display_sheet-Inv :
    (hit : Server → Hit) (w sheet : ℕ) (s : Server)
    → Sees hit
    → Inv s
    → s.locked ≡ false
    → workspace_of sheet ≡ w
    → Inv (display_sheet hit w sheet s)
unfolding display_sheet
display_sheet-Inv hit w sheet s sees i unlocked own =
    cursor_focus-Inv hit _ sees
      (rearrange_lem w sheet (change_sheet w sheet s) (change_sheet-Inv w sheet s i own)
        ((changed w sheet s).0 ∙ unlocked) own).0

-- Displaying a sheet of a workspace, on an unlocked screen: of the views mapped on that
-- workspace those of the sheet and of the sheet 0 are shown, unless they are invisible, which
-- stay as they are, and all others are hidden; the views of other workspaces stay as they are;
-- the workspace displays the sheet, and remembers as alternate the one that it displayed, if
-- that is another. This holds under the invariant.
pub display_sheet_lem :
    (hit : Server → Hit) (w sheet u : ℕ) (s : Server)
    → Inv s
    → s.locked ≡ false
    → workspace_of sheet ≡ w
    → let t = display_sheet hit w sheet s in
      (t.view u ≡ displayed w sheet (s.view u))
      × (t.sheet w ≡ sheet)
      × (t.alternate_sheet w ≡ (if sheet == s.sheet w then s.alternate_sheet w else s.sheet w))
unfolding display_sheet
display_sheet_lem hit w sheet u s i unlocked own =
    let c = changed w sheet s in
    let s0 = change_sheet w sheet s in
    let r = rearrange_lem w sheet s0 (change_sheet-Inv w sheet s i own) (c.0 ∙ unlocked) own in
    let k = cursor_focus_keeps hit (rearrange w sheet s0) in
    (
      ap (λ f. f u) k.0 ∙ r.2 u ∙ ap (λ f. displayed w sheet (f u)) c.1,
      ap (λ f. f w) (k.1 ∙ r.1.1) ∙ c.2,
      ap (λ f. f w) (k.2 ∙ r.1.2) ∙ c.3,
    )

pub display_sheet_unlocked :
    (hit : Server → Hit) (w sheet : ℕ) (s : Server)
    → Inv s
    → s.locked ≡ false
    → workspace_of sheet ≡ w
    → (display_sheet hit w sheet s).locked ≡ false
unfolding display_sheet
display_sheet_unlocked hit w sheet s i unlocked own =
    let c = changed w sheet s in
    let s0 = change_sheet w sheet s in
    let r = rearrange_lem w sheet s0 (change_sheet-Inv w sheet s i own) (c.0 ∙ unlocked) own in
    (cursor_focus_keeps hit (rearrange w sheet s0)).3 ∙ r.1.0 ∙ c.0 ∙ unlocked

-- Displaying the alternate sheet twice comes back to the sheet that was displayed, and to the
-- same alternate. The screen is unlocked, and the invariant holds. The refocus meets visible views
-- only.
pub alternate_twice :
    (hit : Server → Hit) (w : ℕ) (s : Server)
    → Sees hit
    → Inv s
    → s.locked ≡ false
    → let t = display_alternate hit w (display_alternate hit w s) in
      (t.sheet w ≡ s.sheet w) × (t.alternate_sheet w ≡ s.alternate_sheet w)
unfolding display_alternate
alternate_twice hit w s sees i unlocked =
    let once = display_sheet hit w (s.alternate_sheet w) s in
    let own = (i.displays w).1 in
    let j = display_sheet-Inv hit w (s.alternate_sheet w) s sees i unlocked own in
    let a = display_sheet_lem hit w (s.alternate_sheet w) 0 s i unlocked own in
    let b =
      display_sheet_lem hit w (once.alternate_sheet w) 0 once j
        (display_sheet_unlocked hit w (s.alternate_sheet w) s i unlocked own) (j.displays w).1 in
    (ground (arith, a, b), ground (arith, a, b))
