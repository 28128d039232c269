-- ===== src/Workspace/Display.antt =====
-- `display_sheet` (workspace.c) and its callers, which choose the sheet. The request for a new
-- layout that ends it is left to reflow.c.
use hikari_sakura.Prelude.{ℕ, ◌+◌, ◌-◌, not, ◌==◌, ◌&&◌, if◌then◌else◌, Option, none, some}
use hikari_sakura.Stacking.State.{Server, nr_of, show, hide, update}
use hikari_sakura.Stacking.Pointer.{Hit, cursor_focus}
use hikari_sakura.Stacking.Walk.{walk}
use hikari_sakura.Workspace.Sheets.{sheet_at, next, prev, next_inhabited, prev_inhabited}

-- A view of another sheet is hidden, unless it is on the sheet 0 of the workspace.
unfoldable pub hide_body : ℕ → ℕ → ℕ → Server → Server
hide_body workspace sheet v s =
    if not ((s.view v).sheet == sheet) && not ((s.view v).sheet == sheet_at workspace 0)
    then (if not (s.view v).hidden then hide v s else s)
    else s

-- A view that is not invisible is shown.
unfoldable pub show_body : ℕ → Server → Server
show_body v s = if not (s.view v).invisible && (s.view v).hidden then show v s else s

unfoldable pub change_sheet : ℕ → ℕ → Server → Server
change_sheet workspace sheet s = if sheet == s.sheet workspace then s else record s {
  alternate_sheet = update s.alternate_sheet workspace (s.sheet workspace);
  sheet = update s.sheet workspace sheet;
}

unfoldable pub hide_others : ℕ → ℕ → Server → Server
unfolding hide_body
hide_others workspace sheet = walk (λ s. s.workspace_views workspace) (hide_body workspace sheet)

unfoldable pub show_sheet : ℕ → Server → Server
unfolding show_body
show_sheet sheet = walk (λ s. s.sheet_views sheet) show_body

-- The three loops of `display_sheet`.
unfoldable pub rearrange : ℕ → ℕ → Server → Server
unfolding hide_others show_sheet
rearrange workspace sheet s =
    let t = show_sheet sheet (hide_others workspace sheet s) in
    if sheet == sheet_at workspace 0 then t else show_sheet (sheet_at workspace 0) t

unfoldable pub display_sheet : (Server → Hit) → ℕ → ℕ → Server → Server
unfolding change_sheet rearrange cursor_focus
display_sheet hit workspace sheet s =
    cursor_focus hit (rearrange workspace sheet (change_sheet workspace sheet s))

-- `hikari_workspace_display_sheet_alternate`, and its fellows for the current, the next and the
-- previous sheet.
unfoldable pub display_alternate : (Server → Hit) → ℕ → Server → Server
display_alternate hit w s = display_sheet hit w (s.alternate_sheet w) s

unfoldable pub display_current : (Server → Hit) → ℕ → Server → Server
display_current hit w s = display_sheet hit w (s.sheet w) s

unfoldable pub display_next : (Server → Hit) → ℕ → Server → Server
display_next hit w s = display_sheet hit w (next (s.sheet w)) s

unfoldable pub display_prev : (Server → Hit) → ℕ → Server → Server
display_prev hit w s = display_sheet hit w (prev (s.sheet w)) s

-- `hikari_workspace_switch_to_next_sheet`.
unfoldable pub switch_to_next : (Server → Hit) → ℕ → Server → Server
unfolding display_sheet
switch_to_next hit w s =
    if nr_of (s.sheet w) == 0
    then s
    else display_sheet hit w
        (sheet_at w (if nr_of (s.sheet w) == 9 then 1 else nr_of (s.sheet w) + 1)) s

-- `hikari_workspace_switch_to_prev_sheet`.
unfoldable pub switch_to_prev : (Server → Hit) → ℕ → Server → Server
unfolding display_sheet
switch_to_prev hit w s =
    if nr_of (s.sheet w) == 0
    then s
    else display_sheet hit w
        (sheet_at w (if nr_of (s.sheet w) == 1 then 9 else nr_of (s.sheet w) - 1)) s

-- What the switches to an inhabited sheet do with the sheet that they found.
unfoldable pub switch_to_found : (Server → Hit) → ℕ → Option ℕ → Server → Option Server
unfolding display_sheet
switch_to_found hit w none s = none
switch_to_found hit w (some sheet) s =
    some (if sheet == s.sheet w then s else display_sheet hit w sheet s)

-- `hikari_workspace_switch_to_next_inhabited_sheet`: none when the search runs out of fuel.
unfoldable pub switch_to_next_inhabited : (Server → Hit) → ℕ → ℕ → Server → Option Server
unfolding switch_to_found next_inhabited
switch_to_next_inhabited hit fuel w s =
    switch_to_found hit w (next_inhabited fuel s.sheet_views (s.sheet w)) s

-- `hikari_workspace_switch_to_prev_inhabited_sheet`.
unfoldable pub switch_to_prev_inhabited : (Server → Hit) → ℕ → ℕ → Server → Option Server
unfolding switch_to_found prev_inhabited
switch_to_prev_inhabited hit fuel w s =
    switch_to_found hit w (prev_inhabited fuel s.sheet_views (s.sheet w)) s
