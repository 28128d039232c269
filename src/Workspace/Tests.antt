-- ===== src/Workspace/Tests.antt =====
-- The switching of sheets on a server with two views, and the theorems of workspace.c at it.
use hikari_sakura.Prelude.{
  ◌&&◌, ℕ, ◌*◌, ◌==◌, if◌then◌else◌, none, List, ◌∷◌, true, [], ◌≡◌, refl, arith,
}
use hikari_sakura.Stacking.State.{
  Server, workspace_of, show, raise_view, move_to, view_link_visible_at, focus,
}
use hikari_sakura.Stacking.Pointer.{cursor_focus, focus_hit}
use hikari_sakura.Stacking.Mapping.{map_view, link_mapped}
use hikari_sakura.Stacking.Invariant.{Inv}
use hikari_sakura.Stacking.Tests.{start, two, two-Inv, pointer, pointer-Sees}
use hikari_sakura.Workspace.Sheets.{is_visible}
use hikari_sakura.Workspace.Display.{
  display_sheet, display_alternate, switch_to_next_inhabited, switch_to_prev_inhabited,
}
use hikari_sakura.Workspace.Displayed.{display_sheet-Inv, display_sheet_lem, alternate_twice}
use hikari_sakura.Workspace.Pinning.{pin_to_sheet, pin_to_sheet_lem}
use hikari_sakura.Workspace.Clearing.{clear, clear_lem}
use hikari_sakura.Workspace.Switching.{
  ahead, Switched, switch_to_next_inhabited_ends, switch_to_inhabited_hangs,
}

-- The sheets 2 and 7 of the workspace 0 have views.
abbrev views : ℕ → List ℕ
views k = if k == 2 then 1 ∷ [] else if k == 7 then 4 ∷ 5 ∷ [] else []

display_sheet-Inv_example : Inv (display_sheet pointer 0 2 two)
unfolding map_view cursor_focus focus_hit focus link_mapped show raise_view move_to
    view_link_visible_at
display_sheet-Inv_example = display_sheet-Inv pointer 0 2 two pointer-Sees two-Inv refl refl

-- With the sheet 2 displayed, the view 1 of the sheet 1 is hidden.
display_sheet_lem_example :
    let t = display_sheet pointer 0 2 two in
    (t.view 1 ≡ record (two.view 1) { hidden = true }) × (t.sheet 0 ≡ 2) × (t.alternate_sheet 0 ≡ 1)
unfolding map_view cursor_focus focus_hit focus link_mapped show raise_view move_to
    view_link_visible_at
display_sheet_lem_example = display_sheet_lem pointer 0 2 1 two two-Inv refl refl

alternate_twice_example :
    let t = display_alternate pointer 0 (display_alternate pointer 0 two) in
    (t.sheet 0 ≡ 1) × (t.alternate_sheet 0 ≡ 1)
unfolding map_view cursor_focus focus_hit focus link_mapped show raise_view move_to
    view_link_visible_at
alternate_twice_example = alternate_twice pointer 0 two pointer-Sees two-Inv refl

switch_to_next_inhabited_ends_example :
    Switched 0 two (ahead 0 two) (switch_to_next_inhabited pointer 9 0 two)
unfolding map_view cursor_focus focus_hit focus link_mapped show raise_view move_to
    view_link_visible_at
switch_to_next_inhabited_ends_example =
    switch_to_next_inhabited_ends pointer 0 two pointer-Sees two-Inv refl (omega arith)

-- A workspace that displays its sheet 0, before any view is mapped.
abbrev on_0 : Server
on_0 = record start { sheet = λ w. 10 * w }

switch_to_inhabited_hangs_example :
    (switch_to_next_inhabited pointer 1000 0 on_0 ≡ none)
    × (switch_to_prev_inhabited pointer 1000 0 on_0 ≡ none)
switch_to_inhabited_hangs_example =
    switch_to_inhabited_hangs pointer 0 1000 on_0 refl (λ nr low high. refl)

pin_to_sheet_lem_example :
    (((pin_to_sheet pointer 1 2 two).view 1).sheet ≡ 2)
    × (((pin_to_sheet pointer 1 2 two).view 1).hidden ≡ true)
unfolding map_view cursor_focus focus_hit focus link_mapped show raise_view move_to
    view_link_visible_at is_visible
pin_to_sheet_lem_example = pin_to_sheet_lem pointer 1 2 two two-Inv refl refl refl

clear_lem_example :
    Inv (clear pointer 0 two)
    × ((u : ℕ)
        → (clear pointer 0 two).view u ≡ (
            if (two.view u).mapped && workspace_of (two.view u).sheet == 0
            then record (two.view u) { hidden = true }
            else two.view u))
unfolding map_view cursor_focus focus_hit focus link_mapped show raise_view move_to
    view_link_visible_at
clear_lem_example = clear_lem pointer 0 two pointer-Sees two-Inv refl
